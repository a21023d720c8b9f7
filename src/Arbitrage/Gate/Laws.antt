-- ===== src/Arbitrage/Gate/Laws.antt =====
-- core/arbitrage/execution/gate.py and intelligence/readiness.py: when an opportunity passes.
use demobot.Arbitrage.Gate.{
  ExecutionConstraints, ExecutionDecision, ExecutionDecisionReason, SoftConstraints, age_of,
  check_notional, compute_worst_spread_bps, decide, decide_execution, evaluate_execution_decision,
  evaluate_execution_readiness, exceeds, max_from, max_of, spread_of, spreads, notional_of, pass,
  readiness_reasons,
}
use demobot.Arbitrage.Model.{ArbitrageOpportunity, Host, VenueQuote}
use demobot.Base.Order.{IsOrder}
use demobot.Base.{List-cases, cons-nil, some-none}
use demobot.Base.{
  All, Bool, Bool-cases, Option-cases, ◌↔◌, ◌⊎◌, ◌∙◌, refl, sym, List, Option, [], ◌∷◌, none, inl,
  inr, arith, false, not, some, true, ℕ, ◌&&◌, ◌≡◌,
}

-- `ExecutionDecision.should_execute`
abbrev is_pass : ExecutionDecisionReason → Bool
is_pass pass = true
is_pass _ = false

module _ {F : Type 0} where
  abbrev pub should_execute : ExecutionDecision F → Bool
  should_execute d = is_pass d.reason

module _ {F : Type 0} (host : Host F) where
  open host use {less, times, seconds_between, decimal}

  check_notional_passes :
      (opp : ArbitrageOpportunity F) (spread age limit : Option F)
      → should_execute (check_notional host opp spread age limit)
        ≡ not (exceeds host limit (some (notional_of host opp)))
  unfolding check_notional decide
  check_notional_passes opp spread age limit = ground arith

  pub decide_execution_passes :
      (opp : ArbitrageOpportunity F) (spread age : Option F) (c : ExecutionConstraints F)
      → should_execute (decide_execution host opp spread age c) ≡ (
          not (less opp.edge_bps c.min_edge_bps)
          && not (exceeds host c.max_quote_age_ms age)
          && not (exceeds host c.max_spread_bps spread)
          && not (exceeds host c.max_notional (some (notional_of host opp))))
  unfolding decide_execution decide
  decide_execution_passes opp spread age c =
      ground (arith, check_notional_passes opp spread age c.max_notional)

  pub readiness_lem :
      (edge size : F) (c : SoftConstraints F)
      → (evaluate_execution_readiness host edge size c).ready
        ≡ (not (less edge c.min_edge_bps) && not (less size c.min_size))
  unfolding evaluate_execution_readiness readiness_reasons
  readiness_lem edge size c = ground arith

  -- What a limit asks for, where it is set.
  abbrev Limited : Option F → (F → Type 0) → Type 0
  Limited none Q = Unit
  Limited (some limit) Q = Q limit

  -- The opportunity has a time, and its age in milliseconds is not above the limit.
  abbrev IsYoung : ArbitrageOpportunity F → ℕ → F → Type 0
  IsYoung opp now limit =
      (as_of : ℕ) × (opp.as_of ≡ some as_of)
      × (less limit (times (seconds_between now as_of) (decimal 1000 0)) ≡ false)

  -- The value is not known, or not above the limit.
  abbrev IsUpTo : F → Option F → Type 0
  IsUpTo limit none = Unit
  IsUpTo limit (some value) = less limit value ≡ false

  abbrev IsKnown : Option F → Type 0
  IsKnown none = ⊥
  IsKnown (some value) = Unit

  -- The spread of the quote, if it has one, is not above the limit.
  abbrev IsNarrow : F → VenueQuote F → Type 0
  IsNarrow limit q = IsUpTo limit (spread_of host q)

  -- Some quote has a spread.
  abbrev HasSpread : List (VenueQuote F) → Type 0
  HasSpread [] = ⊥
  HasSpread (q ∷ qs) = IsKnown (spread_of host q) ⊎ HasSpread qs

  -- What the gate asks for, limit by limit.
  pub record IsPassing (opp : ArbitrageOpportunity F) (quotes : List (VenueQuote F))
      (c : ExecutionConstraints F) (now : ℕ) : Type 0 where
    edge : less opp.edge_bps c.min_edge_bps ≡ false
    age : Limited c.max_quote_age_ms (IsYoung opp now)
    spread : Limited c.max_spread_bps (λ limit. HasSpread quotes × All (IsNarrow limit) quotes)
    notional : Limited c.max_notional (λ limit. less limit (times opp.buy.price opp.size) ≡ false)

  notional_within :
      (opp : ArbitrageOpportunity F) (limit : Option F)
      → (exceeds host limit (some (notional_of host opp)) ≡ false)
        ↔ Limited limit (λ l. less l (times opp.buy.price opp.size) ≡ false)
  notional_within opp none = (λ h. tt, λ h. refl)
  notional_within opp (some limit) = (λ h. h, λ h. h)

  age_within :
      (opp : ArbitrageOpportunity F) (now : ℕ) (limit : Option F)
      → (exceeds host limit (age_of host opp now) ≡ false) ↔ Limited limit (IsYoung opp now)
  unfolding age_of
  age_within opp now none = (λ h. tt, λ h. refl)
  age_within opp now (some limit) = elim (Option-cases opp.as_of) [
    | inl e ↦ (λ h. absurd (ground arith), λ (as_of, found, h). absurd (some-none (sym found ∙ e)))
    | inr (t, e) ↦ (λ h. (t, e, rw e at h), λ (as_of, found, h). rw found h)
  ]

  spreads_within :
      (limit : F) (qs : List (VenueQuote F))
      → All (λ s. less limit s ≡ false) (spreads host qs) ↔ All (IsNarrow limit) qs
  unfolding spreads
  spreads_within limit [] = (λ h. tt, λ h. tt)
  spreads_within limit (q ∷ qs) = elim (Option-cases (spread_of host q)) [
    | inl e ↦
        rw (e, spreads)
          (λ h. (tt, (spreads_within limit qs).0 h), λ h. (spreads_within limit qs).1 h.1)
    | inr (s, e) ↦
        rw (e, spreads)
          (λ h. (h.0, (spreads_within limit qs).0 h.1), λ h. (h.0, (spreads_within limit qs).1 h.1))
  ]

  spreads-HasSpread :
      (qs : List (VenueQuote F))
      → (HasSpread qs → ¬ (spreads host qs ≡ []))
        × ((s : F) (ss : List F) → spreads host qs ≡ s ∷ ss → HasSpread qs)
  unfolding spreads
  spreads-HasSpread [] = (λ h. absurd h, λ s ss h. absurd (cons-nil (sym h)))
  spreads-HasSpread (q ∷ qs) = elim (Option-cases (spread_of host q)) [
    | inl e ↦
        rw (e, spreads)
          (
            λ h. elim h [ inl k ↦ absurd k | inr k ↦ (spreads-HasSpread qs).0 k ],
            λ s ss k. inr ((spreads-HasSpread qs).1 s ss k),
          )
    | inr (s, e) ↦ rw (e, spreads) (λ h k. cons-nil k, λ s ss h. inl tt)
  ]

  module _ (order : IsOrder less) where
    -- The greatest of the spreads is within a limit exactly when each of them is.
    max_from_within :
        (limit best : F) (xs : List F)
        → (less limit (max_from host best xs) ≡ false)
          ↔ ((less limit best ≡ false) × All (λ x. less limit x ≡ false) xs)
    unfolding max_from
    max_from_within limit best [] = (λ h. (h, tt), λ h. h.0)
    max_from_within limit best (x ∷ xs) = elim (Bool-cases (less best x)) [
      | inl e ↦
          let (out, back) = max_from_within limit x xs in
          rw (e, max_from)
            (
              λ h.
                  let (first, rest) = out h in
                  (
                    order.not_less_trans limit x best first (order.less_asym best x e),
                    (first, rest),
                  ),
              λ (first, (second, rest)). back (second, rest),
            )
      | inr e ↦
          let (out, back) = max_from_within limit best xs in
          rw (e, max_from)
            (
              λ h.
                  let (first, rest) = out h in
                  (first, (order.not_less_trans limit best x first e, rest)),
              λ (first, (second, rest)). back (first, rest),
            )
    ]

    max_of_within :
        (limit : F) (ss : List F)
        → (exceeds host (some limit) (max_of host ss) ≡ false)
          ↔ (¬ (ss ≡ []) × All (λ x. less limit x ≡ false) ss)
    unfolding max_of
    max_of_within limit [] = (λ h. absurd (ground arith), λ h. absurd (h.0 refl))
    max_of_within limit (s ∷ ss) =
        let (out, back) = max_from_within limit s ss in
        (λ h. (λ e. cons-nil e, out h), λ h. back h.1)

    spread_within :
        (quotes : List (VenueQuote F)) (limit : Option F)
        → (exceeds host limit (compute_worst_spread_bps host quotes) ≡ false)
          ↔ Limited limit (λ l. HasSpread quotes × All (IsNarrow l) quotes)
    unfolding compute_worst_spread_bps
    spread_within quotes none = (λ h. tt, λ h. refl)
    spread_within quotes (some limit) =
        let (out, back) = max_of_within limit (spreads host quotes) in
        let (has, of) = spreads-HasSpread quotes in
        (
          λ h.
              let (some_spread, narrow) = out h in
              (
                elim (List-cases (spreads host quotes)) [
                  | inl e ↦ absurd (some_spread e)
                  | inr (s, ss, e) ↦ of s ss e
                ],
                (spreads_within limit quotes).0 narrow,
              ),
          λ (spread, narrow). back (has spread, (spreads_within limit quotes).1 narrow),
        )

    -- Where the comparison is an order: an opportunity passes the gate exactly when its edge is not below
    -- the threshold; under a limit on the age, it has a time and is not older; under a limit on the
    -- spread, some quote has a spread and no quote has a wider one; and under a limit on the notional,
    -- price times size is not above it.
    pub evaluate_execution_decision_passes :
        (opp : ArbitrageOpportunity F) (quotes : List (VenueQuote F)) (c : ExecutionConstraints F)
        (now : ℕ)
        → (should_execute (evaluate_execution_decision host opp quotes c now) ≡ true)
          ↔ IsPassing opp quotes c now
    unfolding evaluate_execution_decision
    evaluate_execution_decision_passes opp quotes c now =
        let passes =
          decide_execution_passes opp (compute_worst_spread_bps host quotes) (age_of host opp now)
            c in
        let age = age_within opp now c.max_quote_age_ms in
        let spread = spread_within quotes c.max_spread_bps in
        let notional = notional_within opp c.max_notional in
        (
          λ h.
              let held = sym passes ∙ h in
              record {
                edge = ground arith;
                age = age.0 (ground arith);
                spread = spread.0 (ground arith);
                notional = notional.0 (ground arith);
              },
          λ p. passes ∙ rw (p.edge, age.1 p.age, spread.1 p.spread, notional.1 p.notional) refl,
        )
