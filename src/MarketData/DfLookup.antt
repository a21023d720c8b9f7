-- ===== src/MarketData/DfLookup.antt =====
-- core/market_data/df_lookup_v0.py over the curves of market_snapshot_payload_v0.py: the discount factors
-- of two currencies. The arithmetic of `float` and `str` of an integer are a parameter.
pub mod Laws
use demobot.Json.{ℤ, pos}
use demobot.Base.{Bool, List, Option, String, if◌then◌else◌, none, not, some, str_eq, ◌||◌, ◌&&◌}
use demobot.Base.Dicts.{Dict, lookup}
use Prim.Native.String.{◌++◌ as ◌+++◌}

pub record RateFloats (F : Type 0) : Type 0 where
  pub less : F → F → Bool
  -- `<=`, false of a number that is not one
  pub at_most : F → F → Bool
  pub minus : F → F → F
  pub negated : F → F
  pub absolute : F → F
  pub times : F → F → F
  pub divided : F → F → F
  pub nought : F
  pub one : F
  pub days_per_year : F
  pub millionth : F
  -- `int(round(x))`; `none` is the exception of a number that is not finite
  pub rounded : F → Option ℤ
  pub float_of : ℤ → F
  pub str_of : ℤ → String
  -- whether an integer is positive
  pub is_positive_int : ℤ → Bool
  -- `math.exp(-rate * years)` and `(1.0 + rate) ** -years`; `none` is their exception
  pub continuous_factor : F → F → Option F
  pub annual_factor : F → F → Option F

-- `day_count` is not read here.
pub record Curve (F : Type 0) : Type 0 where
  pub compounding : String
  pub zero_rates : Dict F

-- The currency that a `DfLookupError` is about.
pub data Side : Type 0 where
  domestic foreign : Side

-- Each reason of a `DfLookupError`, and the exceptions of the arithmetic.
pub data DfFault : Type 0 where
  negative_ttm not_a_day not_exact not_above_zero arithmetic : DfFault
  missing_rates : Side → String → DfFault
  missing_tenor : Side → String → String → DfFault
  unsupported_compounding : String → DfFault

pub data Resolved {ℓ} (A : Type ℓ) : Type ℓ where
  failed : DfFault → Resolved A
  resolved : A → Resolved A

unfoldable pub follow_up {ℓ κ} :
    {A : Type ℓ} {B : Type κ} → Resolved A → (A → Resolved B) → Resolved B
follow_up (failed fault) continue = failed fault
follow_up (resolved a) continue = continue a

unfoldable pub required {ℓ} : {A : Type ℓ} → DfFault → Option A → Resolved A
required fault none = failed fault
required fault (some a) = resolved a

module _ {F : Type 0} (floats : RateFloats F) where
  open floats use {
    less, at_most, minus, negated, absolute, times, divided, nought, one, days_per_year, millionth,
    rounded, float_of, str_of, is_positive_int, continuous_factor, annual_factor,
  }

  abbrev pub tenor_of_days : F → ℤ → Resolved String
  tenor_of_days ttm_years days =
      if not (is_positive_int days)
      then failed not_a_day
      else if less millionth (absolute (minus (divided (float_of days) days_per_year) ttm_years))
      then failed not_exact
      else resolved (str_of days +++ "D")

  unfoldable pub tenor_from_ttm : F → Resolved String
  tenor_from_ttm ttm_years =
      if less ttm_years (negated millionth)
      then failed negative_ttm
      else if at_most (absolute ttm_years) millionth
      then resolved "0D"
      else follow_up (required arithmetic (rounded (times ttm_years days_per_year)))
          (λ days. tenor_of_days ttm_years days)

  unfoldable pub df_from_rate : F → F → String → Resolved F
  df_from_rate rate ttm_years compounding =
      if at_most ttm_years nought
      then resolved one
      else if str_eq compounding "continuous"
      then required arithmetic (continuous_factor rate ttm_years)
      else if str_eq compounding "annual"
      then required arithmetic (annual_factor rate ttm_years)
      else failed (unsupported_compounding compounding)

  -- Both factors must be positive.
  unfoldable pub both_positive : F → F → Resolved (F × F)
  both_positive a b =
      if less nought a && less nought b then resolved (a, b) else failed not_above_zero

  unfoldable pub factors_of : F → Curve F → Curve F → F → F → Resolved (F × F)
  factors_of ttm_years dom frn r_dom r_for =
      follow_up (df_from_rate r_dom ttm_years dom.compounding)
        (λ a. follow_up (df_from_rate r_for ttm_years frn.compounding) (λ b. both_positive a b))

  unfoldable pub pair_dfs_at : F → String → Dict (Curve F) → String → String → Resolved (F × F)
  pair_dfs_at ttm_years tenor curves dom_ccy for_ccy =
      follow_up (required (missing_rates domestic dom_ccy) (lookup dom_ccy curves)) (λ dom.
        follow_up (required (missing_rates foreign for_ccy) (lookup for_ccy curves)) (λ frn.
          follow_up (required (missing_tenor domestic tenor dom_ccy) (lookup tenor dom.zero_rates))
            (λ r_dom.
              follow_up
                (required (missing_tenor foreign tenor for_ccy) (lookup tenor frn.zero_rates))
                (λ r_for. factors_of ttm_years dom frn r_dom r_for))))

  unfoldable pub get_pair_dfs : Dict (Curve F) → String → String → F → Resolved (F × F)
  get_pair_dfs curves dom_ccy for_ccy ttm_years = follow_up (tenor_from_ttm ttm_years) (λ tenor.
      if str_eq tenor "0D"
      then resolved (one, one)
      else pair_dfs_at ttm_years tenor curves dom_ccy for_ccy)
