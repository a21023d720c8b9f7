-- ===== src/Treasury/Policy/Laws.antt =====
-- core/services/hedge_policy_constraints_v1.py: the bounds of the ratio, and that a policy is settled
-- by one application.
use demobot.Treasury.Limits.{accepted, refused}
use demobot.Treasury.Policy.{
  Floats, HedgePolicy, PolicyApplicationResult, apply_hedge_policy, check_policy, clamp,
  clamp_bindings, clamp_ratio, effective_max, policy_result, round_ratio, unmet_target, is_bad_lot,
}
use mathlib.Core.Path.{subst}
use demobot.Base.Order.{IsOrder}
use demobot.Base.{◌⊎◌}
use demobot.Base.{
  false, if◌then◌else◌, inl, inr, none, refl, true, ◌≡◌, arith, Bool, String, str_eq, Option-cases,
  [], not, ◌||◌,
}

checks :
    {A : Type 0} (a b c d e g : Bool) (m n o p q r : String) (x y : A)
    → (if a
        then refused m
        else if b
        then refused n
        else if c
        then refused o
        else if d
        then refused p
        else if e
        then refused q
        else if g
        then refused r
        else accepted x)
      ≡ accepted y
    → (c ≡ false) × ((d ≡ false) × (e ≡ false))
checks a b c d e g m n o p q r x y h = ground arith

module _ {F : Type 0} (floats : Floats F) (order : IsOrder floats.less) where
  open floats use {less, is_finite, one, nought, rounded_two}

  -- The ratio is in the bounds of the policy.
  abbrev pub IsBetween : HedgePolicy F → F → Type 0
  IsBetween policy x =
      (less x policy.min_hedge_ratio ≡ false) × (less (effective_max floats policy) x ≡ false)

  checked_lem :
      (policy : HedgePolicy F)
      → check_policy floats policy ≡ accepted policy
      → (not (is_finite policy.min_hedge_ratio) || not (is_finite policy.max_hedge_ratio) ≡ false)
        × ((less policy.min_hedge_ratio nought || less one policy.min_hedge_ratio ≡ false)
            × (less policy.max_hedge_ratio policy.min_hedge_ratio ≡ false))
  unfolding check_policy
  checked_lem policy h =
      checks (not (str_eq policy.contract_version "v1")) (floats.is_blank policy.policy_id)
        (not (is_finite policy.min_hedge_ratio) || not (is_finite policy.max_hedge_ratio))
        (less policy.min_hedge_ratio nought || less one policy.min_hedge_ratio)
        (less policy.max_hedge_ratio policy.min_hedge_ratio)
        (is_bad_lot floats policy.rounding_lot_notional) "contract_version must be v1"
        "policy_id must be non-empty" "min_hedge_ratio and max_hedge_ratio must be finite"
        "min_hedge_ratio must be in [0,1]" "max_hedge_ratio must be >= min_hedge_ratio"
        "rounding_lot_notional must be positive when provided" policy policy h

  -- The bounds that a checked policy gives do not cross.
  effective_max_lem :
      (policy : HedgePolicy F)
      → check_policy floats policy ≡ accepted policy
      → less (effective_max floats policy) policy.min_hedge_ratio ≡ false
  unfolding effective_max
  effective_max_lem policy h = let (finite, (unit, ordered)) = checked_lem policy h in ground arith

  clamp_lem :
      (x lower upper : F)
      → less upper lower ≡ false
      → (less (clamp floats x lower upper) lower ≡ false)
        × (less upper (clamp floats x lower upper) ≡ false)
  unfolding clamp
  clamp_lem x lower upper h = ground (arith, order.less_irrefl lower, order.less_irrefl upper)

  clamp_ratio-IsBetween :
      (policy : HedgePolicy F) (x : F)
      → check_policy floats policy ≡ accepted policy
      → IsBetween policy (clamp_ratio floats policy x)
  unfolding clamp_ratio
  clamp_ratio-IsBetween policy x h =
      clamp_lem x policy.min_hedge_ratio (effective_max floats policy) (effective_max_lem policy h)

  clamp_ratio_id :
      (policy : HedgePolicy F) (x : F) → IsBetween policy x → clamp_ratio floats policy x ≡ x
  unfolding clamp_ratio clamp
  clamp_ratio_id policy x (above, below) = rw (above, below) refl

  answered :
      (policy : HedgePolicy F) (ratio : F) (result : PolicyApplicationResult F)
      → apply_hedge_policy floats policy ratio ≡ accepted result
      → (policy_result floats policy ratio ≡ result) × (is_finite ratio ≡ true)
  unfolding apply_hedge_policy
  answered policy ratio result h = ground arith

  rounded_two_lem :
      (lower upper x : F)
      → ((a b : F) → less a b ≡ false → less (rounded_two a) (rounded_two b) ≡ false)
      → rounded_two lower ≡ lower
      → rounded_two upper ≡ upper
      → (less x lower ≡ false) × (less upper x ≡ false)
      → (less (rounded_two x) lower ≡ false) × (less upper (rounded_two x) ≡ false)
  rounded_two_lem lower upper x mono least most (above, below) = (
    subst (λ b. less (rounded_two x) b ≡ false) least (mono x lower above),
    subst (λ b. less b (rounded_two x) ≡ false) most (mono upper x below),
  )

  output-IsBetween :
      (policy : HedgePolicy F) (ratio : F)
      → ((a b : F) → less a b ≡ false → less (rounded_two a) (rounded_two b) ≡ false)
      → (policy.rounding_lot_notional ≡ none)
        ⊎ ((rounded_two policy.min_hedge_ratio ≡ policy.min_hedge_ratio)
            × (rounded_two (effective_max floats policy) ≡ effective_max floats policy))
      → check_policy floats policy ≡ accepted policy
      → IsBetween policy (policy_result floats policy ratio).output_hedge_ratio
  unfolding policy_result round_ratio clamp_ratio effective_max
  output-IsBetween policy ratio mono exact checked =
      elim (Option-cases policy.rounding_lot_notional) [
        | inl e ↦ rw e (clamp_ratio-IsBetween policy ratio checked)
        | inr (lot, e) ↦ elim exact [
          | inl no_lot ↦ rw no_lot (clamp_ratio-IsBetween policy ratio checked)
          | inr (least, most) ↦ rw e (
              rounded_two_lem policy.min_hedge_ratio (effective_max floats policy) _ mono least most
                (clamp_ratio-IsBetween policy _ checked))
        ]
      ]

  -- Where the comparison is an order, and the rounding to two decimals keeps it: the ratio that a checked policy gives is in its
  -- bounds if the policy has no lot, or if that rounding leaves both bounds as they are.
  pub apply_hedge_policy-IsBetween :
      (policy : HedgePolicy F) (ratio : F) (result : PolicyApplicationResult F)
      → ((a b : F) → less a b ≡ false → less (rounded_two a) (rounded_two b) ≡ false)
      → (policy.rounding_lot_notional ≡ none)
        ⊎ ((rounded_two policy.min_hedge_ratio ≡ policy.min_hedge_ratio)
            × (rounded_two (effective_max floats policy) ≡ effective_max floats policy))
      → check_policy floats policy ≡ accepted policy
      → apply_hedge_policy floats policy ratio ≡ accepted result
      → IsBetween policy result.output_hedge_ratio
  apply_hedge_policy-IsBetween policy ratio result mono exact checked h =
      rw (← (answered policy ratio result h).0) (output-IsBetween policy ratio mono exact checked)

  -- Without a lot, a ratio in the bounds is left alone.
  settled :
      (policy : HedgePolicy F) (x : F)
      → policy.rounding_lot_notional ≡ none
      → IsBetween policy x
      → ((policy_result floats policy x).output_hedge_ratio ≡ x)
        × (((policy_result floats policy x).binding_constraints ≡ [])
            × ((policy_result floats policy x).unmet_target_reason ≡ none))
  unfolding policy_result clamp_bindings unmet_target clamp_ratio effective_max
  settled policy x no_lot between =
      rw (no_lot, clamp_ratio_id policy x between, order.less_irrefl x) (refl, (refl, refl))

  -- Where the comparison is an order, and without a lot, a checked policy is settled by one application: applied to a ratio that it gave, it
  -- leaves that ratio, and nothing binds or is unmet.
  pub apply_hedge_policy_idempotent :
      (policy : HedgePolicy F) (ratio : F) (result again : PolicyApplicationResult F)
      → policy.rounding_lot_notional ≡ none
      → check_policy floats policy ≡ accepted policy
      → apply_hedge_policy floats policy ratio ≡ accepted result
      → apply_hedge_policy floats policy result.output_hedge_ratio ≡ accepted again
      → (again.output_hedge_ratio ≡ result.output_hedge_ratio)
        × ((again.binding_constraints ≡ []) × (again.unmet_target_reason ≡ none))
  unfolding policy_result clamp_ratio effective_max
  apply_hedge_policy_idempotent policy ratio result again no_lot checked first second =
      let between : IsBetween policy result.output_hedge_ratio =
        rw (← (answered policy ratio result first).0, no_lot)
          (clamp_ratio-IsBetween policy ratio checked) in
      rw (← (answered policy result.output_hedge_ratio again second).0)
        (settled policy result.output_hedge_ratio no_lot between)
