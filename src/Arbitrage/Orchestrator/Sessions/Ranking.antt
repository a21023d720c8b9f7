-- ===== src/Arbitrage/Orchestrator/Sessions/Ranking.antt =====
-- core/arbitrage/orchestrator.py, `get_recommendations`: how many are recommended, of which records,
-- and in which order.
use demobot.Arbitrage.Orchestrator.{ArbitrageSessionState, OpportunityRecord}
use demobot.Arbitrage.Orchestrator.Sessions.{collect, get_recommendations}
use demobot.Arbitrage.Lifecycle.{OpportunityState}
use demobot.Base.Order.{IsOrder}
use demobot.Arbitrage.Model.{Host, ArbitrageConfig, ArbitrageOpportunity}
use demobot.Arbitrage.Scoring.{
  RankedRecommendation, enumerate_ranks, insert_ranked, sort_by_score, rank_opportunities,
}
use demobot.Base.{
  All, Bool-cases, Dict, List, Option, String, [], ap, arith, false, inl, inr, length, refl, suc, ℕ,
  ◌+◌, ◌<◌, ◌∷◌, ◌≡◌, ◌≤◌, All-map,
}

module _ {F : Type 0} (host : Host F) where
  length-insert_ranked :
      (r : RankedRecommendation F) (rs : List (RankedRecommendation F))
      → length (insert_ranked host r rs) ≡ suc (length rs)
  unfolding insert_ranked
  length-insert_ranked r [] = refl
  length-insert_ranked r (x ∷ xs) = ground (arith, length-insert_ranked r xs)

  length-sort_by_score :
      (rs : List (RankedRecommendation F)) → length (sort_by_score host rs) ≡ length rs
  unfolding sort_by_score
  length-sort_by_score [] = refl
  length-sort_by_score (r ∷ rs) =
      omega (arith, length-insert_ranked r (sort_by_score host rs), length-sort_by_score rs)

  length-enumerate_ranks :
      (n : ℕ) (rs : List (RankedRecommendation F)) → length (enumerate_ranks host n rs) ≡ length rs
  unfolding enumerate_ranks
  length-enumerate_ranks n [] = refl
  length-enumerate_ranks n (r ∷ rs) = ap suc (length-enumerate_ranks (suc n) rs)

  -- No score of the list is above that of `r`.
  abbrev pub IsTop : RankedRecommendation F → List (RankedRecommendation F) → Type 0
  IsTop r rs = All (λ x. host.less r.quality_score x.quality_score ≡ false) rs

  -- The ranks are the numbers from `n` on, and no score is above one before it.
  abbrev pub IsRanked : ℕ → List (RankedRecommendation F) → Type 0
  IsRanked n [] = Unit
  IsRanked n (r ∷ rs) = (r.rank ≡ n) × IsTop r rs × IsRanked (suc n) rs

  abbrev IsDescending : List (RankedRecommendation F) → Type 0
  IsDescending [] = Unit
  IsDescending (r ∷ rs) = IsTop r rs × IsDescending rs

  enumerate_ranks-IsTop :
      (r : RankedRecommendation F) (n : ℕ) (rs : List (RankedRecommendation F))
      → IsTop r rs
      → IsTop r (enumerate_ranks host n rs)
  unfolding enumerate_ranks
  enumerate_ranks-IsTop r n [] h = tt
  enumerate_ranks-IsTop r n (x ∷ xs) h = (h.0, enumerate_ranks-IsTop r (suc n) xs h.1)

  enumerate_ranks-IsRanked :
      (n : ℕ) (rs : List (RankedRecommendation F))
      → IsDescending rs
      → IsRanked n (enumerate_ranks host n rs)
  unfolding enumerate_ranks
  enumerate_ranks-IsRanked n [] h = tt
  enumerate_ranks-IsRanked n (r ∷ rs) h =
      (refl, enumerate_ranks-IsTop r (suc n) rs h.0, enumerate_ranks-IsRanked (suc n) rs h.1)

  insert_ranked-IsTop :
      (r x : RankedRecommendation F) (rs : List (RankedRecommendation F))
      → host.less r.quality_score x.quality_score ≡ false
      → IsTop r rs
      → IsTop r (insert_ranked host x rs)
  unfolding insert_ranked
  insert_ranked-IsTop r x [] h k = (h, tt)
  insert_ranked-IsTop r x (y ∷ ys) h k =
      elim (Bool-cases (host.less x.quality_score y.quality_score)) [
        | inl e ↦ rw (e, All) (k.0, insert_ranked-IsTop r x ys h k.1)
        | inr e ↦ rw (e, All) (h, k)
      ]

  module _ (order : IsOrder host.less) where
    insert_ranked-IsDescending :
        (r : RankedRecommendation F) (rs : List (RankedRecommendation F))
        → IsDescending rs
        → IsDescending (insert_ranked host r rs)
    unfolding insert_ranked
    insert_ranked-IsDescending r [] h = (tt, tt)
    insert_ranked-IsDescending r (x ∷ xs) h =
        elim (Bool-cases (host.less r.quality_score x.quality_score)) [
          | inl e ↦
              rw (e, IsDescending)
                (
                  insert_ranked-IsTop x r xs (order.less_asym _ _ e) h.0,
                  insert_ranked-IsDescending r xs h.1,
                )
          | inr e ↦
              rw (e, IsDescending) ((e, All-map xs (λ y k. order.not_less_trans _ _ _ e k) h.0), h)
        ]

    sort_by_score-IsDescending :
        (rs : List (RankedRecommendation F)) → IsDescending (sort_by_score host rs)
    unfolding sort_by_score
    sort_by_score-IsDescending [] = tt
    sort_by_score-IsDescending (r ∷ rs) =
        insert_ranked-IsDescending r _ (sort_by_score-IsDescending rs)

  length-rank_opportunities :
      (rs : List (RankedRecommendation F)) → length (rank_opportunities host rs) ≡ length rs
  unfolding rank_opportunities
  length-rank_opportunities rs =
      omega (arith, length-enumerate_ranks 1 (sort_by_score host rs), length-sort_by_score rs)

  length-collect :
      (limit : ℕ) (symbol : Option String) (config : ArbitrageConfig F) (now : ℕ)
      (history : List (ArbitrageOpportunity F)) (states : Dict (OpportunityState F)) (taken : ℕ)
      (rs : List (OpportunityRecord F))
      → taken < limit
      → taken + length (collect host limit symbol config now history states taken rs) ≤ limit
  unfolding collect
  length-collect limit symbol config now history states taken [] h = omega arith
  length-collect limit symbol config now history states taken (r ∷ rs) h = ground (
    arith,
    length-collect limit symbol config now history states taken rs,
    length-collect limit symbol config now history states (taken + 1) rs,
  )

  rank_opportunities-IsRanked :
      IsOrder host.less
      → (rs : List (RankedRecommendation F)) → IsRanked 1 (rank_opportunities host rs)
  unfolding rank_opportunities
  rank_opportunities-IsRanked order rs =
      enumerate_ranks-IsRanked 1 _ (sort_by_score-IsDescending order rs)

  -- What is recommended is at most `limit`, ranked from 1 on by descending score, where the limit is not
  -- 0 and the scores are ordered.
  pub get_recommendations-IsRanked :
      IsOrder host.less
      → (limit : ℕ) (symbol : Option String) (now : ℕ) (s : ArbitrageSessionState F) → 0 < limit
      → IsRanked 1 (get_recommendations host limit symbol now s).1
        × (length (get_recommendations host limit symbol now s).1 ≤ limit)
  unfolding get_recommendations
  get_recommendations-IsRanked order limit symbol now s h = (
    rank_opportunities-IsRanked order _,
    omega (arith, length-rank_opportunities _, length-collect limit symbol _ _ _ _ 0 _ h),
  )
