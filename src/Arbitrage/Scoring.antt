-- ===== src/Arbitrage/Scoring.antt =====
-- core/arbitrage/intelligence/signals.py, scoring.py and reasons.py: what a recommendation says of an
-- opportunity, and its rank.
use demobot.Arbitrage.Gate.{ExecutionDecision, ExecutionReadiness}
use demobot.Arbitrage.Lifecycle.{OpportunityState}
use demobot.Arbitrage.Model.{ArbitrageOpportunity, Host, nought}
use demobot.Base.{
  Dict, List, Option, String, [], if◌then◌else◌, leb, lookup, none, some, suc, ℕ, ◌∷◌, str_eq, not,
}

pub data ReasonCode : Type 0 where
  fresh_quotes stale_quotes stable_edge unstable_edge net_edge_ok net_edge_low new_opportunity :
      ReasonCode
  persistent_opportunity : ReasonCode

-- The wording of a reason depends on its code alone.
pub record RankedRecommendation (F : Type 0) : Type 0 where
  pub opportunity_id : String
  pub rank : ℕ
  pub quality_score : F
  pub reasons : List ReasonCode
  pub signals : Dict F
  pub opportunity : ArbitrageOpportunity F
  pub execution_readiness : Option (ExecutionReadiness F)
  pub execution_decision : Option (ExecutionDecision F)

module _ {F : Type 0} (host : Host F) where
  open host use {
    less, at_most, equal, plus, minus, times, divided, abs, decimal, seconds_between, int_of,
  }

  -- `past_edges`
  unfoldable pub past_edges : String → List (ArbitrageOpportunity F) → List F
  past_edges id [] = []
  past_edges id (o ∷ os) =
      let rest = past_edges id os in if str_eq o.opportunity_id id then o.edge_bps ∷ rest else rest

  -- `1 - abs(last - prev) / abs(last)`, of the last two edges
  unfoldable pub stability_of : List F → F
  stability_of [] = decimal 1 0
  stability_of (x ∷ []) = decimal 1 0
  stability_of (prev ∷ last ∷ []) =
      if not (equal last (nought host))
      then minus (decimal 1 0) (divided (abs (minus last prev)) (abs last))
      else decimal 1 0
  stability_of (x ∷ y ∷ z ∷ zs) = stability_of (y ∷ z ∷ zs)

  unfoldable pub compute_signals :
      ArbitrageOpportunity F → OpportunityState F → ℕ → List (ArbitrageOpportunity F) → Dict F
  compute_signals opp state now history =
      ("freshness_ms", times (seconds_between now state.last_seen) (decimal 1000 0))
      ∷ ("seen_count", decimal state.seen_count 0)
      ∷ ("age_seconds", seconds_between now state.first_seen)
      ∷ ("edge_bps_current", opp.edge_bps)
      ∷ ("edge_bps_stability", stability_of (past_edges state.opportunity_id history))
      ∷ ("net_edge_bps", opp.net_edge)
      ∷ []

  -- `signals.get(key, default)`
  abbrev pub get : String → F → Dict F → F
  get key default signals = elim (lookup key signals) [ none ↦ default | some x ↦ x ]

  -- `max(a, b)` and `min(a, b)`: the first, where neither is beyond the other.
  abbrev pub max2 : F → F → F
  max2 a b = if less a b then b else a

  abbrev pub min2 : F → F → F
  min2 a b = if less b a then b else a

  unfoldable pub raw_score : Dict F → F
  raw_score signals =
      minus
        (plus
          (plus (nought host)
            (times (max2 (get "net_edge_bps" (nought host) signals) (nought host)) (decimal 1 3)))
          (times (max2 (get "edge_bps_stability" (decimal 1 0) signals) (nought host))
            (decimal 3 1)))
        (times
          (min2 (divided (get "freshness_ms" (nought host) signals) (decimal 1000 0))
            (decimal 60 0))
          (decimal 2 3))

  unfoldable pub clamped : F → F
  clamped score = max2 (nought host) (min2 (decimal 1 0) score)

  unfoldable pub score_signals : Dict F → F
  score_signals signals = clamped (raw_score signals)

  unfoldable pub classify_reasons : Dict F → ℕ → List ReasonCode
  classify_reasons signals seen_count =
      (if less (get "freshness_ms" (nought host) signals) (decimal 10_000 0)
        then fresh_quotes
        else stale_quotes)
      ∷ (if at_most (decimal 8 1) (get "edge_bps_stability" (decimal 1 0) signals)
          then stable_edge
          else unstable_edge)
      ∷ (if less (nought host) (get "net_edge_bps" (nought host) signals)
          then net_edge_ok
          else net_edge_low)
      ∷ (if leb seen_count 1 then new_opportunity else persistent_opportunity)
      ∷ []

  -- The field `economics` is read off the opportunity.
  unfoldable pub to_recommendation :
      ArbitrageOpportunity F → String → Dict F → ℕ → RankedRecommendation F
  to_recommendation opp id signals rank = record {
    opportunity_id = id;
    rank = rank;
    quality_score = score_signals signals;
    reasons = classify_reasons signals (int_of (get "seen_count" (nought host) signals));
    signals = signals;
    opportunity = opp;
    execution_readiness = none;
    execution_decision = none;
  }

  -- `sorted(..., key=quality_score, reverse=True)`: equal scores keep their order.
  unfoldable pub insert_ranked :
      RankedRecommendation F → List (RankedRecommendation F) → List (RankedRecommendation F)
  insert_ranked r [] = r ∷ []
  insert_ranked r (x ∷ xs) =
      let later = x ∷ insert_ranked r xs in
      if less r.quality_score x.quality_score then later else r ∷ x ∷ xs

  unfoldable pub sort_by_score : List (RankedRecommendation F) → List (RankedRecommendation F)
  sort_by_score [] = []
  sort_by_score (r ∷ rs) = insert_ranked r (sort_by_score rs)

  -- `for idx, rec in enumerate(..., start=n): rec.rank = idx`
  unfoldable pub enumerate_ranks : ℕ → List (RankedRecommendation F) → List (RankedRecommendation F)
  enumerate_ranks n [] = []
  enumerate_ranks n (r ∷ rs) = record r { rank = n } ∷ enumerate_ranks (suc n) rs

  unfoldable pub rank_opportunities : List (RankedRecommendation F) → List (RankedRecommendation F)
  rank_opportunities recommendations = enumerate_ranks 1 (sort_by_score recommendations)
