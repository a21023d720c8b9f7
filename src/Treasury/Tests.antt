-- ===== src/Treasury/Tests.antt =====
-- core/services/counterparty_limits_v1.py and hedge_policy_constraints_v1.py: concrete limits and a
-- concrete policy, and the theorems at them.
use demobot.Treasury.Policy.{
  Floats, HedgePolicy, apply_hedge_policy, check_policy, policy_result, clamp, effective_max,
  clamp_ratio, round_ratio,
}
use demobot.Base.Order.{IsOrder}
use demobot.Treasury.Policy.Laws.{apply_hedge_policy-IsBetween, apply_hedge_policy_idempotent}
use demobot.Treasury.Limits.Laws.{IsMonotone, apply_counterparty_limits_bounds}
use demobot.Treasury.Limits.{
  CounterpartyLimit, LimitApplicationResult, Numbers, accepted, allow, apply_counterparty_limits,
  requested, result_of,
}
use demobot.Base.{
  inr, some, none, ltb, true, false, ◌≡◌, refl, arith, ℕ, ◌+◌, ◌-◌, ◌*◌, ◌/◌, ◌==◌, if◌then◌else◌,
  ◌≤◌, Option, [],
}
use native.Mathlib.Nat.{mul-le-mul_left}

abbrev whole : Numbers ℕ
whole = record {
  less = ltb;
  equal = ◌==◌;
  plus = ◌+◌;
  minus = ◌-◌;
  times = ◌*◌;
  divided = λ a b. if b == 0 then 0 else a / b;
  is_finite = λ a. true;
  nought = 0;
  one = 1;
  is_blank = λ s. false;
}

times_lem : (n a b : ℕ) → ltb a b ≡ false → ltb (n * a) (n * b) ≡ false
times_lem n a b h =
    let below : b ≤ a = ground arith in
    let product : n * b ≤ n * a = mul-le-mul_left n below in ground arith

ltb-IsOrder : IsOrder ltb
ltb-IsOrder = record {
  less_irrefl = λ a. ground arith;
  less_asym = λ a b h. ground arith;
  not_less_trans = λ a b c h k. ground arith;
}

whole-IsMonotone : IsMonotone whole
whole-IsMonotone = record {
  order = ltb-IsOrder;
  times_mono = λ n a b h k. times_lem n a b k;
  minus_mono = λ a b c h. ground arith;
}

abbrev limit : CounterpartyLimit ℕ
limit = record {
  counterparty_id = "bank";
  max_additional_notional_foreign = some 20;
  max_total_hedge_notional_foreign = some 50;
  max_hedge_ratio = none;
  currency = none;
}

abbrev answer_of : CounterpartyLimit ℕ → ℕ → LimitApplicationResult ℕ
answer_of l current = result_of whole (requested whole 100 current 1) (allow whole l 100 current 1)

answered : apply_counterparty_limits whole limit 100 60 1 ≡ accepted (answer_of limit 60)
unfolding apply_counterparty_limits
answered = refl

apply_counterparty_limits_bounds_example :
    (ltb
        (answer_of limit 60).requested_additional_notional_foreign
        (answer_of limit 60).allowed_additional_notional_foreign
      ≡ false)
    × (ltb 20 (answer_of limit 60).allowed_additional_notional_foreign ≡ false)
apply_counterparty_limits_bounds_example =
    apply_counterparty_limits_bounds whole whole-IsMonotone limit 100 60 1 (answer_of limit 60) refl
      answered

-- Ratios in thousandths.
abbrev thousandths : Floats ℕ
thousandths = record {
  less = ltb;
  times = λ a b. a * b / 1000;
  divided = λ a b. if b == 0 then 0 else a * 1000 / b;
  is_finite = λ a. true;
  rounded = λ a. (a + 500) / 1000 * 1000;
  rounded_two = λ a. (a + 5) / 10 * 10;
  is_close_within = λ a b most relative. a == b;
  nought = 0;
  one = 1000;
  hundredth = 10;
  millionth = 0;
  is_blank = λ s. false;
}

abbrev policy : Option ℕ → HedgePolicy ℕ
policy lot = record {
  contract_version = "v1";
  policy_id = "p";
  min_hedge_ratio = 100;
  max_hedge_ratio = 900;
  rounding_lot_notional = lot;
  allow_overhedge = false;
}

-- A policy with a bound of three decimals: with a lot, the last rounding leaves the bounds.
abbrev fine_policy : HedgePolicy ℕ
fine_policy = record (policy (some 1)) { max_hedge_ratio = 996 }

leaves_bounds : (policy_result thousandths fine_policy 1000).output_hedge_ratio ≡ 1000
unfolding policy_result round_ratio clamp_ratio clamp effective_max
leaves_bounds = refl

apply_hedge_policy-IsBetween_example :
    (ltb (policy_result thousandths (policy (some 1)) 957).output_hedge_ratio 100 ≡ false)
    × (ltb
          (effective_max thousandths (policy (some 1)))
          (policy_result thousandths (policy (some 1)) 957).output_hedge_ratio
        ≡ false)
unfolding apply_hedge_policy check_policy effective_max
apply_hedge_policy-IsBetween_example =
    apply_hedge_policy-IsBetween thousandths ltb-IsOrder (policy (some 1)) 957
      (policy_result thousandths (policy (some 1)) 957) (λ a b h. ground arith) (inr (refl, refl))
      refl refl

apply_hedge_policy_idempotent_example :
    ((policy_result thousandths (policy none) 900).output_hedge_ratio ≡ 900)
    × (((policy_result thousandths (policy none) 900).binding_constraints ≡ [])
        × ((policy_result thousandths (policy none) 900).unmet_target_reason ≡ none))
unfolding apply_hedge_policy check_policy policy_result clamp_ratio clamp effective_max
apply_hedge_policy_idempotent_example =
    apply_hedge_policy_idempotent thousandths ltb-IsOrder (policy none) 957
      (policy_result thousandths (policy none) 957) (policy_result thousandths (policy none) 900)
      refl refl refl refl
