-- ===== src/Strategy/Builders.antt =====
-- core/strategy_builders/basic_builders.py and volatility_builders.py: the positions that the builders
-- put together. A frame of option quotes is a parameter with the readings that the code takes of it.
pub mod Laws
use demobot.Strategy.Legs.{put, CallPut, Floats, Leg, Side, call, long, short}
use demobot.Base.{
  List, Option, String, [], if◌then◌else◌, leb, none, some, str_eq, ℕ, ◌∷◌, Bool, not,
}

pub record Arithmetic (F : Type 0) : Type 0 where
  pub floats : Floats F
  pub minus : F → F → F
  pub abs : F → F
  -- `decimal m k` is the float of the literal `m * 10 ** -k`.
  pub decimal : ℕ → ℕ → F

-- A frame that is not empty: the sorted strikes of a type, all the sorted strikes, and the first
-- price of a type at a strike, if the frame has prices and such a row.
pub record Chain (F : Type 0) : Type 0 where
  pub strikes_of : CallPut → List F
  pub strikes : List F
  pub first_price : CallPut → F → Option F

-- `StrategyCandidate` is a name that neither file defines or imports, so that its call raises
-- `NameError`.
pub data Built : Type 0 where
  nothing_built name_error : Built

module _ {F : Type 0} (arithmetic : Arithmetic F) where
  open arithmetic use {floats, minus, abs, decimal}

  -- `spot * (1.0 - pct)` and `spot * (1.0 + pct)`
  abbrev pub below : F → F → F
  below spot pct = floats.times spot (minus (decimal 1 0) pct)

  abbrev pub above : F → F → F
  above spot pct = floats.times spot (floats.plus (decimal 1 0) pct)

  -- `min(strikes, key=lambda k: abs(k - target))`: the first of equals.
  unfoldable pub closest_from : F → F → List F → F
  closest_from target best [] = best
  closest_from target best (k ∷ ks) =
      closest_from target
        (if floats.less (abs (minus k target)) (abs (minus best target)) then k else best) ks

  unfoldable pub closest_strike : List F → F → F
  closest_strike [] target = target
  closest_strike (k ∷ ks) target = closest_from target k ks

  -- `_mid_price`, with the default of the builder
  abbrev pub mid_price : Chain F → F → CallPut → F → F
  mid_price chain default cp strike = elim (chain.first_price cp strike) [
    | none ↦ default
    | some price ↦ price
  ]

  abbrev pub one_leg : Side → CallPut → F → F → Leg F
  one_leg side cp strike premium = record {
    side = side;
    cp = cp;
    strike = strike;
    quantity = 1;
    premium = premium;
  }

  -- `(inner_pct, outer_pct)` of the iron condor and of the put spread, and `pct` of the strangle
  abbrev pub condor_pcts : ℕ → F × F
  condor_pcts aggressiveness =
      if leb aggressiveness 3
      then (decimal 8 2, decimal 12 2)
      else if leb aggressiveness 6
      then (decimal 5 2, decimal 9 2)
      else (decimal 3 2, decimal 6 2)

  abbrev pub spread_pcts : ℕ → F × F
  spread_pcts aggressiveness =
      if leb aggressiveness 3
      then (decimal 6 2, decimal 10 2)
      else if leb aggressiveness 6
      then (decimal 5 2, decimal 8 2)
      else (decimal 3 2, decimal 6 2)

  abbrev pub strangle_pct : ℕ → F
  strangle_pct aggressiveness =
      if leb aggressiveness 3
      then decimal 10 2
      else if leb aggressiveness 6
      then decimal 7 2
      else decimal 5 2

  -- The four legs, in the order of both branches, with a premium by type and strike.
  unfoldable pub condor_legs : (Side → CallPut → F → F) → F → F → F → F → List (Leg F)
  condor_legs premium put_short put_long call_short call_long =
      one_leg short put put_short (premium short put put_short)
      ∷ one_leg long put put_long (premium long put put_long)
      ∷ one_leg short call call_short (premium short call call_short)
      ∷ one_leg long call call_long (premium long call call_long)
      ∷ []

  -- The premiums of the synthetic positions: 4.0 for a short leg and 2.0 for a long one.
  abbrev pub synthetic_premium : Side → CallPut → F → F
  synthetic_premium side cp strike = elim side [ short ↦ decimal 4 0 | long ↦ decimal 2 0 ]

  -- The strikes of the short put, the long put, the short call and the long call.
  unfoldable pub iron_condor_strikes : F → ℕ → Option (Chain F) → (F × F) × (F × F)
  iron_condor_strikes spot aggressiveness none =
      let pcts = condor_pcts aggressiveness in
      ((below spot pcts.0, below spot pcts.1), (above spot pcts.0, above spot pcts.1))
  iron_condor_strikes spot aggressiveness (some chain) =
      let pcts = condor_pcts aggressiveness in
      (
        (
          closest_strike (chain.strikes_of put) (below spot pcts.0),
          closest_strike (chain.strikes_of put) (below spot pcts.1),
        ),
        (
          closest_strike (chain.strikes_of call) (above spot pcts.0),
          closest_strike (chain.strikes_of call) (above spot pcts.1),
        ),
      )

  -- The premiums with a frame and without one.
  abbrev pub premium_of : Option (Chain F) → Side → CallPut → F → F
  premium_of none = synthetic_premium
  premium_of (some chain) = λ side cp strike. mid_price chain (decimal 3 0) cp strike

  unfoldable pub iron_condor_position : F → ℕ → Option (Chain F) → List (Leg F)
  iron_condor_position spot aggressiveness chain =
      let strikes = iron_condor_strikes spot aggressiveness chain in
      condor_legs (premium_of chain) strikes.0.0 strikes.0.1 strikes.1.0 strikes.1.1

  unfoldable pub put_spread_legs : (Side → CallPut → F → F) → F → F → List (Leg F)
  put_spread_legs premium put_short put_long =
      one_leg short put put_short (premium short put put_short)
      ∷ one_leg long put put_long (premium long put put_long)
      ∷ []

  unfoldable pub put_spread_strikes : F → ℕ → Option (Chain F) → F × F
  put_spread_strikes spot aggressiveness none =
      let pcts = spread_pcts aggressiveness in (below spot pcts.0, below spot pcts.1)
  put_spread_strikes spot aggressiveness (some chain) =
      let pcts = spread_pcts aggressiveness in
      (
        closest_strike (chain.strikes_of put) (below spot pcts.0),
        closest_strike (chain.strikes_of put) (below spot pcts.1),
      )

  unfoldable pub put_spread_position : F → ℕ → Option (Chain F) → List (Leg F)
  put_spread_position spot aggressiveness chain =
      let strikes = put_spread_strikes spot aggressiveness chain in
      put_spread_legs (premium_of chain) strikes.0 strikes.1

  unfoldable pub straddle_legs : F → F → F → List (Leg F)
  straddle_legs atm call_premium put_premium =
      one_leg long call atm call_premium ∷ one_leg long put atm put_premium ∷ []

  unfoldable pub straddle_position : F → Option (Chain F) → List (Leg F)
  straddle_position spot none = straddle_legs spot (decimal 5 0) (decimal 5 0)
  straddle_position spot (some chain) =
      let atm = closest_strike chain.strikes spot in
      straddle_legs atm (mid_price chain (decimal 5 0) call atm)
        (mid_price chain (decimal 5 0) put atm)

  unfoldable pub strangle_legs : F → F → F → F → List (Leg F)
  strangle_legs put_strike call_strike put_premium call_premium =
      one_leg long put put_strike put_premium ∷ one_leg long call call_strike call_premium ∷ []

  unfoldable pub strangle_strikes : F → ℕ → Option (Chain F) → F × F
  strangle_strikes spot aggressiveness none =
      let pct = strangle_pct aggressiveness in (below spot pct, above spot pct)
  strangle_strikes spot aggressiveness (some chain) =
      let pct = strangle_pct aggressiveness in
      (closest_strike chain.strikes (below spot pct), closest_strike chain.strikes (above spot pct))

  -- 3.0, without a frame too
  abbrev pub strangle_premium : Option (Chain F) → CallPut → F → F
  strangle_premium none cp strike = decimal 3 0
  strangle_premium (some chain) cp strike = mid_price chain (decimal 3 0) cp strike

  unfoldable pub strangle_position : F → ℕ → Option (Chain F) → List (Leg F)
  strangle_position spot aggressiveness chain =
      let strikes = strangle_strikes spot aggressiveness chain in
      strangle_legs strikes.0 strikes.1 (strangle_premium chain put strikes.0)
        (strangle_premium chain call strikes.1)

-- `build` of the four classes; the two market views that they compare with are arguments.
unfoldable pub build_iron_condor : Built
build_iron_condor = name_error

unfoldable pub build_put_spread : String → String → Built
build_put_spread falling market_view =
    if str_eq market_view falling then nothing_built else name_error

unfoldable pub build_volatility : String → String → Built
build_volatility volatile market_view =
    if not (str_eq market_view volatile) then nothing_built else name_error
