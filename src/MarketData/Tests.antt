-- ===== src/MarketData/Tests.antt =====
-- core/market_data/df_lookup_v0.py: two curves with a rate at one tenor, and the theorem at them.
use demobot.MarketData.DfLookup.{
  Curve, RateFloats, df_from_rate, factors_of, follow_up, get_pair_dfs, pair_dfs_at, required,
  resolved, tenor_from_ttm, both_positive, failed, missing_tenor, foreign, unsupported_compounding,
}
use demobot.MarketData.DfLookup.Laws.{get_pair_dfs_swap}
use demobot.Base.Dicts.{Dict, lookup}
use demobot.Json.{pos, negsuc}
use demobot.Base.{
  some, ltb, leb, true, false, ◌≡◌, refl, ℕ, ◌+◌, ◌-◌, ◌*◌, ◌/◌, ◌==◌, if◌then◌else◌, [], ◌∷◌,
}

-- Whole years of one day, whole rates.
abbrev whole : RateFloats ℕ
whole = record {
  less = ltb;
  at_most = leb;
  minus = ◌-◌;
  negated = λ x. 0;
  absolute = λ x. x;
  times = ◌*◌;
  divided = λ a b. if b == 0 then 0 else a / b;
  nought = 0;
  one = 1;
  days_per_year = 1;
  millionth = 0;
  rounded = λ x. some (pos x);
  float_of = λ d. elim d [ pos n ↦ n | negsuc n ↦ 0 ];
  str_of = λ d. "30";
  is_positive_int = λ d. elim d [ pos n ↦ ltb 0 n | negsuc n ↦ false ];
  continuous_factor = λ rate years. some (rate + years);
  annual_factor = λ rate years. some (rate * years);
}

abbrev curves : Dict (Curve ℕ)
curves =
    ("USD", record { compounding = "continuous"; zero_rates = ("30D", 5) ∷ [] })
    ∷ ("EUR", record { compounding = "annual"; zero_rates = ("30D", 2) ∷ [] })
    ∷ ("JPY", record { compounding = "annual"; zero_rates = [] })
    ∷ ("GBP", record { compounding = "simple"; zero_rates = ("30D", 3) ∷ [] })
    ∷ []

no_tenor : get_pair_dfs whole curves "USD" "JPY" 30 ≡ failed (missing_tenor foreign "30D" "JPY")
unfolding get_pair_dfs follow_up tenor_from_ttm pair_dfs_at required lookup
no_tenor = refl

no_compounding :
    get_pair_dfs whole curves "USD" "GBP" 30 ≡ failed (unsupported_compounding "simple")
unfolding get_pair_dfs follow_up tenor_from_ttm pair_dfs_at required lookup factors_of df_from_rate
no_compounding = refl

get_pair_dfs_swap_example :
    (get_pair_dfs whole curves "EUR" "USD" 30 ≡ resolved (60, 35))
    × ((ltb 0 35 ≡ true) × (ltb 0 60 ≡ true))
unfolding get_pair_dfs follow_up tenor_from_ttm pair_dfs_at required lookup factors_of df_from_rate
    both_positive
get_pair_dfs_swap_example = get_pair_dfs_swap whole curves "USD" "EUR" 30 35 60 refl refl
