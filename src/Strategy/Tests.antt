-- ===== src/Strategy/Tests.antt =====
-- Concrete legs, with whole numbers for strikes and premiums, and the theorems at them.
use demobot.Strategy.Builders.Laws.{IsCondor, iron_condor_position_detected}
use demobot.Strategy.Builders.{Arithmetic, iron_condor_position, iron_condor_strikes}
use demobot.Strategy.Detection.Butterfly.{IsNumeric, detect_strategy-iron_condor}
use demobot.Strategy.Detection.{detect_strategy}
use demobot.Strategy.Shapes.{is_iron_condor_like}
use demobot.Base.{[], arith, ltb, ℕ, ◌+◌, ◌==◌, ◌∷◌, ◌≡◌, refl, if◌then◌else◌, none, ◌*◌, ◌-◌}
use demobot.Strategy.Detection.Laws.{IsOrdered, detect_strategy_swap}
use demobot.Strategy.Legs.{put, CallPut, Floats, Leg, Side, call, long, short, legs_of}

-- Whole numbers as floats; the products that no example reads are left at the second factor.
abbrev whole : Floats ℕ
whole = record {
  less = ltb;
  equal = ◌==◌;
  nought = 0;
  plus = ◌+◌;
  times = λ a b. b;
  of_int = λ z. 1;
}

whole-IsOrdered : IsOrdered whole
whole-IsOrdered = record {
  equal_sym = λ a b. ground arith;
  less_asym = λ a b h. ground arith;
  less_total = λ a b h h'. ground arith;
}

abbrev leg : Side → CallPut → ℕ → Leg ℕ
leg side cp strike = record { side = side; cp = cp; strike = strike; quantity = 1; premium = 2 }

detect_strategy_swap_example :
    detect_strategy whole (leg long call 100 ∷ leg short call 110 ∷ [])
    ≡ detect_strategy whole (leg short call 110 ∷ leg long call 100 ∷ [])
detect_strategy_swap_example =
    detect_strategy_swap whole whole-IsOrdered (leg long call 100) (leg short call 110)

whole-IsNumeric : IsNumeric whole
whole-IsNumeric = record {
  equal_refl = λ a. ground arith;
  less_trans = λ a b c h h'. ground arith;
  not_less_of_equal = λ a b x h h'. ground arith;
}

detect_strategy-iron_condor_example :
    (detect_strategy whole
      (leg long put 90 ∷ leg short put 95 ∷ leg short call 105 ∷ leg long call 110 ∷ [])).name
    ≡ "Iron Condor"
unfolding is_iron_condor_like legs_of
detect_strategy-iron_condor_example =
    detect_strategy-iron_condor whole whole-IsNumeric (leg long put 90) (leg short put 95)
      (leg short call 105) (leg long call 110 ∷ []) refl refl

abbrev arithmetic : Arithmetic ℕ
arithmetic = record {
  floats = record whole { times = ◌*◌ };
  minus = λ a b. a - b;
  abs = λ a. a;
  decimal = λ m k. if k == 0 then 100 * m else m;
}

arithmetic-IsNumeric : IsNumeric arithmetic.floats
arithmetic-IsNumeric = record {
  equal_refl = λ a. ground arith;
  less_trans = λ a b c h h'. ground arith;
  not_less_of_equal = λ a b x h h'. ground arith;
}

ordered_strikes :
    IsCondor arithmetic arithmetic-IsNumeric
      (iron_condor_strikes arithmetic 50 2 none).0.0
      (iron_condor_strikes arithmetic 50 2 none).0.1
      (iron_condor_strikes arithmetic 50 2 none).1.0
      (iron_condor_strikes arithmetic 50 2 none).1.1
unfolding iron_condor_strikes
ordered_strikes = (refl, refl, refl)

iron_condor_position_detected_example :
    (detect_strategy arithmetic.floats (iron_condor_position arithmetic 50 2 none)).name
    ≡ "Iron Condor"
iron_condor_position_detected_example =
    iron_condor_position_detected arithmetic arithmetic-IsNumeric 50 2 none ordered_strikes
