-- ===== src/Strategy/Builders/Laws.antt =====
-- core/strategy_builders: what the detector makes of a position that a builder puts together.
use demobot.Strategy.Shapes.{is_straddle, is_strangle, is_vertical_spread, is_iron_condor_like}
use demobot.Strategy.Detection.{
  detect_rest, detect_strategy, straddle_info, strangle_info, vertical_spread_info,
}
use demobot.Strategy.Builders.{
  Arithmetic, Chain, iron_condor_position, iron_condor_strikes, put_spread_legs,
  put_spread_position, put_spread_strikes, straddle_legs, straddle_position, strangle_legs,
  strangle_position, strangle_strikes, condor_legs,
}
use demobot.Strategy.Detection.Butterfly.{IsNumeric, detect_strategy-iron_condor}
use demobot.Strategy.Legs.{long, legs_of, CallPut, Side}
use demobot.Base.{
  Option, ℕ, true, false, ◌≡◌, if◌then◌else◌, refl, arith, none, some, Bool, Bool-cases, inl, inr,
}

not-both : (b : Bool) → b ≡ true → ¬ (b ≡ false)
not-both b h k = cc

module _ {F : Type 0} (arithmetic : Arithmetic F) (numeric : IsNumeric arithmetic.floats) where
  open arithmetic use {floats}
  open numeric use {equal_refl, less_trans, not_less_of_equal}

  straddle_legs_detected :
      (atm p q : F)
      → detect_strategy floats (straddle_legs arithmetic atm p q) ≡ straddle_info floats long
  unfolding straddle_legs detect_strategy is_vertical_spread detect_rest is_straddle
  straddle_legs_detected atm p q = rw (equal_refl atm) refl

  strangle_legs_detected :
      (a b p q : F)
      → detect_strategy floats (strangle_legs arithmetic a b p q)
        ≡ (if floats.equal a b then straddle_info floats long else strangle_info floats long)
  unfolding strangle_legs detect_strategy is_vertical_spread detect_rest is_straddle is_strangle
  strangle_legs_detected a b p q = ground arith

  -- The strikes of an iron condor, from below: the long put, the short put, the short call, the long call.
  abbrev pub IsCondor : F → F → F → F → Type 0
  IsCondor put_short put_long call_short call_long =
      (floats.less put_long put_short ≡ true)
      × (floats.less put_short call_short ≡ true)
      × (floats.less call_short call_long ≡ true)

  less_asym : (a b : F) → floats.less a b ≡ true → floats.less b a ≡ false
  less_asym a b h = elim (Bool-cases (floats.less b a)) [
    | inl k ↦
        absurd (
          not-both _ (less_trans a b a h k) (not_less_of_equal a a a (equal_refl a) (equal_refl a)))
    | inr k ↦ k
  ]

  less-ne-equal : (a b : F) → floats.less a b ≡ true → floats.equal a b ≡ false
  less-ne-equal a b h = elim (Bool-cases (floats.equal a b)) [
    | inl k ↦ absurd (not-both _ h (not_less_of_equal a b b k (equal_refl b)))
    | inr k ↦ k
  ]

  condor_legs_detected :
      (premium : Side → CallPut → F → F) (put_short put_long call_short call_long : F)
      → IsCondor put_short put_long call_short call_long
      → (detect_strategy floats
          (condor_legs arithmetic premium put_short put_long call_short call_long)).name
        ≡ "Iron Condor"
  unfolding condor_legs is_iron_condor_like legs_of
  condor_legs_detected premium ps pl cs cl (puts, middle, calls) =
      detect_strategy-iron_condor floats numeric _ _ _ _
        (rw
          (
            less_asym cs cl calls,
            puts,
            less-ne-equal cs cl calls,
            less-ne-equal pl ps puts,
            middle,
            calls,
          )
          (rw puts refl))
        refl

  put_spread_legs_detected :
      (premium : Side → CallPut → F → F) (put_short put_long : F)
      → floats.equal put_short put_long ≡ false
      → (detect_strategy floats (put_spread_legs arithmetic premium put_short put_long)).name
        ≡ "Vertical Put Spread"
  unfolding put_spread_legs detect_strategy is_vertical_spread vertical_spread_info
  put_spread_legs_detected premium a b h = rw h refl

  -- A straddle is recognised, with a frame and without one.
  pub straddle_position_detected :
      (spot : F) (chain : Option (Chain F))
      → detect_strategy floats (straddle_position arithmetic spot chain) ≡ straddle_info floats long
  unfolding straddle_position straddle_legs
  straddle_position_detected spot none = straddle_legs_detected spot _ _
  straddle_position_detected spot (some chain) = straddle_legs_detected _ _ _

  -- A strangle is recognised where its strikes differ; where the frame has one strike that is closest to
  -- both targets, it is a straddle.
  strangle_position_detected :
      (spot : F) (aggressiveness : ℕ) (chain : Option (Chain F))
      → detect_strategy floats (strangle_position arithmetic spot aggressiveness chain) ≡ (
          if floats.equal
            (strangle_strikes arithmetic spot aggressiveness chain).0
            (strangle_strikes arithmetic spot aggressiveness chain).1
          then straddle_info floats long
          else strangle_info floats long)
  unfolding strangle_position
  strangle_position_detected spot aggressiveness chain = strangle_legs_detected _ _ _ _

  -- A put spread of two strikes is a vertical spread.
  pub put_spread_position_detected :
      (spot : F) (aggressiveness : ℕ) (chain : Option (Chain F))
      → floats.equal
          (put_spread_strikes arithmetic spot aggressiveness chain).0
          (put_spread_strikes arithmetic spot aggressiveness chain).1
        ≡ false
      → (detect_strategy floats (put_spread_position arithmetic spot aggressiveness chain)).name
        ≡ "Vertical Put Spread"
  unfolding put_spread_position
  put_spread_position_detected spot aggressiveness chain h = put_spread_legs_detected _ _ _ h

  -- An iron condor whose strikes are in order is recognised.
  pub iron_condor_position_detected :
      (spot : F) (aggressiveness : ℕ) (chain : Option (Chain F))
      → let strikes = iron_condor_strikes arithmetic spot aggressiveness chain in
        IsCondor strikes.0.0 strikes.0.1 strikes.1.0 strikes.1.1
        → (detect_strategy floats (iron_condor_position arithmetic spot aggressiveness chain)).name
          ≡ "Iron Condor"
  unfolding iron_condor_position
  iron_condor_position_detected spot aggressiveness chain h = condor_legs_detected _ _ _ _ _ h
