-- ===== src/Strategy/Detection.antt =====
-- core/strategy_detector.py, `detect_strategy`. The confidence is in hundredths, and the arguments that
-- the code never reads (`spot`, `curve_df`, `be_points`) are left out, as is the Hebrew wording of the
-- fields `description` and `risk_profile`.
pub mod Laws
pub mod Butterfly
use demobot.Strategy.Shapes.{
  iron_condor_credit_or_debit, is_iron_condor_like, is_ratio_spread, is_straddle, is_strangle,
  is_vertical_spread, vertical_info,
}
use demobot.Base.{
  Bool, List, Option, String, [], false, if◌then◌else◌, length, none, not, some, ℕ, ◌&&◌, ◌==◌,
  ◌||◌, ◌∷◌,
}
use demobot.Strategy.Legs.{
  put, CallPut, Floats, Leg, Side, call, legs_of, long, same_cp, same_side, short,
}
use Prim.Native.String.{◌++◌ as ◌+++◌}

pub record StrategyInfo : Type 0 where
  pub name : String
  pub subtype : Option String
  pub family : Option String
  pub tags : List String
  pub confidence : ℕ

-- `cp.title()`
abbrev title : CallPut → String
title call = "Call"
title put = "Put"

abbrev no_position : StrategyInfo
no_position = record {
  name = "No position";
  subtype = none;
  family = none;
  tags = [];
  confidence = 100;
}

abbrev custom : StrategyInfo
custom = record {
  name = "Custom / Complex Position";
  subtype = none;
  family = some "Custom";
  tags = "Complex" ∷ [];
  confidence = 50;
}

module _ {F : Type 0} (floats : Floats F) where
  open floats use {less, equal}

  unfoldable pub single_info : Leg F → StrategyInfo
  single_info leg = record {
    name = "Single " +++ title leg.cp;
    subtype = some (elim leg.side [ long ↦ "Long" | short ↦ "Short" ]);
    family = some (elim leg.side [ long ↦ "Directional" | short ↦ "Income / Hedging" ]);
    tags = if same_side leg.side long && same_cp leg.cp call then "Delta+" ∷ [] else [];
    confidence = 95;
  }

  -- The vertical spread, from (is_credit, is_bullish) and the type of its legs.
  unfoldable pub vertical_spread_info : Bool × Bool → CallPut → StrategyInfo
  vertical_spread_info (is_credit, is_bullish) cp =
      let direction : String = if is_bullish then "Bullish" else "Bearish" in
      record {
        name = "Vertical " +++ title cp +++ " Spread";
        subtype =
            some (
              direction +++ " " +++ (if is_credit then "Credit" else "Debit") +++ " " +++ title cp);
        family = some (if is_credit then "Income" else "Directional");
        tags =
            (title cp +++ " Spread") ∷ direction ∷ (if is_credit then "Theta+" else "Theta-") ∷ [];
        confidence = 98;
      }

  -- `{leg.strike for leg in legs if leg.side == "short"}`, without repeats
  unfoldable pub has_strike : F → List F → Bool
  has_strike x [] = false
  has_strike x (y ∷ ys) = equal x y || has_strike x ys

  unfoldable pub short_strikes : List (Leg F) → List F
  unfolding has_strike
  short_strikes [] = []
  short_strikes (l ∷ ls) =
      let rest = short_strikes ls in
      if same_side l.side short && not (has_strike l.strike rest) then l.strike ∷ rest else rest

  unfoldable pub iron_condor_info : List (Leg F) → StrategyInfo
  unfolding short_strikes
  iron_condor_info legs =
      let (is_credit, net_credit) = iron_condor_credit_or_debit floats legs in
      let butterfly = length (short_strikes legs) == 1 in
      record {
        name = if butterfly then "Iron Butterfly" else "Iron Condor";
        subtype = some (if is_credit then "Credit" else "Debit");
        family = some "Income";
        tags = "Range-bound" ∷ "Theta+" ∷ "Vega-" ∷ (if is_credit then "Credit" ∷ [] else []);
        confidence = 95;
      }

  abbrev direction_of : Side → String
  direction_of long = "Long"
  direction_of short = "Short"

  abbrev volatility_tags : Side → List String
  volatility_tags long = "Long Vol" ∷ "Gamma+" ∷ "Vega+" ∷ "Theta-" ∷ []
  volatility_tags short = "Short Vol" ∷ "Gamma-" ∷ "Vega-" ∷ "Theta+" ∷ []

  -- The straddle, from the side of its first leg.
  unfoldable pub straddle_info : Side → StrategyInfo
  straddle_info side = record {
    name = direction_of side +++ " Straddle";
    subtype = none;
    family = some "Volatility";
    tags = volatility_tags side;
    confidence = 96;
  }

  unfoldable pub strangle_info : Side → StrategyInfo
  strangle_info side = record {
    name = direction_of side +++ " Strangle";
    subtype = none;
    family = some "Volatility";
    tags = volatility_tags side;
    confidence = 94;
  }

  unfoldable pub ratio_info : CallPut → StrategyInfo
  ratio_info cp = record {
    name = "Ratio " +++ title cp +++ " Spread";
    subtype = none;
    family = some "Directional / Volatility";
    tags = "Advanced" ∷ "Non-symmetric" ∷ [];
    confidence = 75;
  }

  -- What is left when the position is neither a vertical spread nor an iron condor.
  unfoldable pub detect_rest : Leg F → List (Leg F) → StrategyInfo
  detect_rest leg ls =
      let legs = leg ∷ ls in
      if is_straddle floats legs
      then straddle_info leg.side
      else if is_strangle floats legs
      then strangle_info leg.side
      else if is_ratio_spread floats legs
      then ratio_info leg.cp
      else custom

  -- `detect_strategy`
  unfoldable pub detect_strategy : List (Leg F) → StrategyInfo
  unfolding detect_rest
  detect_strategy [] = no_position
  detect_strategy (leg ∷ []) = single_info leg
  detect_strategy (l1 ∷ l2 ∷ []) =
      if is_vertical_spread floats (l1 ∷ l2 ∷ [])
      then vertical_spread_info (vertical_info floats l1 l2) l1.cp
      else detect_rest l1 (l2 ∷ [])
  detect_strategy (l1 ∷ l2 ∷ l3 ∷ ls) =
      let legs = l1 ∷ l2 ∷ l3 ∷ ls in
      if length legs == 4 && is_iron_condor_like floats (legs_of call legs) (legs_of put legs)
      then iron_condor_info legs
      else detect_rest l1 (l2 ∷ l3 ∷ ls)
