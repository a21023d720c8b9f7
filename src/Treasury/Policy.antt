-- ===== src/Treasury/Policy.antt =====
-- core/services/hedge_policy_constraints_v1.py: the hedge ratio that a policy makes of a recommended one.
-- The arithmetic of `float` is a parameter, and what raises `ValueError` is `refused` with the message.
pub mod Laws
use demobot.Treasury.Limits.{Checked, accepted, refused}
use demobot.Base.{
  Bool, List, Option, String, [], if◌then◌else◌, none, not, some, str_eq, ◌++◌, ◌∷◌, ◌||◌, ◌&&◌,
  true, false,
}

pub record Floats (F : Type 0) : Type 0 where
  pub less : F → F → Bool
  pub times : F → F → F
  pub divided : F → F → F
  pub is_finite : F → Bool
  -- `round(x)` as a float, and `round(x, 2)`
  pub rounded : F → F
  pub rounded_two : F → F
  -- `math.isclose(a, b, abs_tol=..., rel_tol=...)`
  pub is_close_within : F → F → F → F → Bool
  pub nought : F
  pub one : F
  pub hundredth : F
  pub millionth : F
  -- `not s.strip()`
  pub is_blank : String → Bool

pub record HedgePolicy (F : Type 0) : Type 0 where
  pub contract_version : String
  pub policy_id : String
  pub min_hedge_ratio : F
  pub max_hedge_ratio : F
  pub rounding_lot_notional : Option F
  pub allow_overhedge : Bool

pub data PolicyBinding : Type 0 where
  binds_max binds_min binds_rounding : PolicyBinding

pub data UnmetTarget : Type 0 where
  max_hedge_cap : UnmetTarget

pub record PolicyApplicationResult (F : Type 0) : Type 0 where
  pub policy_id : String
  pub input_recommended_hedge_ratio : F
  pub output_hedge_ratio : F
  pub binding_constraints : List PolicyBinding
  pub unmet_target_reason : Option UnmetTarget
  pub notes : List String

-- `"MAX_HEDGE_RATIO" in binding`
abbrev pub has_max : List PolicyBinding → Bool
has_max [] = false
has_max (binds_max ∷ bs) = true
has_max (b ∷ bs) = has_max bs

module _ {F : Type 0} (floats : Floats F) where
  open floats use {
    less, times, divided, is_finite, rounded, rounded_two, is_close_within, nought, one, hundredth,
    millionth, is_blank,
  }

  abbrev pub is_bad_lot : Option F → Bool
  is_bad_lot none = false
  is_bad_lot (some lot) = not (is_finite lot) || not (less nought lot)

  -- `HedgePolicyV1.__post_init__`
  unfoldable pub check_policy : HedgePolicy F → Checked (HedgePolicy F)
  check_policy policy =
      if not (str_eq policy.contract_version "v1")
      then refused "contract_version must be v1"
      else if is_blank policy.policy_id
      then refused "policy_id must be non-empty"
      else if not (is_finite policy.min_hedge_ratio) || not (is_finite policy.max_hedge_ratio)
      then refused "min_hedge_ratio and max_hedge_ratio must be finite"
      else if less policy.min_hedge_ratio nought || less one policy.min_hedge_ratio
      then refused "min_hedge_ratio must be in [0,1]"
      else if less policy.max_hedge_ratio policy.min_hedge_ratio
      then refused "max_hedge_ratio must be >= min_hedge_ratio"
      else if is_bad_lot policy.rounding_lot_notional
      then refused "rounding_lot_notional must be positive when provided"
      else accepted policy

  abbrev pub greater_of : F → F → F
  greater_of a b = if less a b then b else a

  -- Both tolerances of a profit or loss are 1e-6.
  abbrev pub rounding_step_ratio : F
  rounding_step_ratio = greater_of hundredth (rounded_two (greater_of millionth millionth))

  abbrev pub is_close : F → F → Bool
  is_close a b = is_close_within a b millionth millionth

  unfoldable pub clamp : F → F → F → F
  clamp value lower upper =
      if less value lower then lower else if less upper value then upper else value

  unfoldable pub effective_max : HedgePolicy F → F
  effective_max policy =
      if not policy.allow_overhedge
      then (if less one policy.max_hedge_ratio then one else policy.max_hedge_ratio)
      else policy.max_hedge_ratio

  unfoldable pub clamp_ratio : HedgePolicy F → F → F
  clamp_ratio policy value = clamp value policy.min_hedge_ratio (effective_max policy)

  -- The bindings of the first clamp.
  unfoldable pub clamp_bindings : F → F → List PolicyBinding
  clamp_bindings clamped input =
      (if less clamped input && not (is_close clamped input) then binds_max ∷ [] else [])
      ++ (if less input clamped && not (is_close clamped input) then binds_min ∷ [] else [])

  -- With a lot: to the step, into the bounds again, and to two decimals.
  unfoldable pub round_ratio : HedgePolicy F → F → F
  round_ratio policy ratio =
      rounded_two (
        clamp_ratio policy
          (times (rounded (divided ratio rounding_step_ratio)) rounding_step_ratio))

  abbrev pub output_of : HedgePolicy F → F → F
  output_of policy clamped = elim policy.rounding_lot_notional [
    | none ↦ clamped
    | some lot ↦ round_ratio policy clamped
  ]

  abbrev pub rounding_bindings : HedgePolicy F → F → List PolicyBinding
  rounding_bindings policy clamped = elim policy.rounding_lot_notional [
    | none ↦ []
    | some lot ↦
        if not (is_close (round_ratio policy clamped) clamped) then binds_rounding ∷ [] else []
  ]

  abbrev pub policy_notes : HedgePolicy F → List String
  policy_notes policy = elim policy.rounding_lot_notional [
    | none ↦ []
    | some lot ↦ "ROUNDING_STEP_RATIO_0.01" ∷ []
  ]

  unfoldable pub unmet_target : HedgePolicy F → F → List PolicyBinding → Option UnmetTarget
  unmet_target policy output binding =
      if has_max binding && is_close output (effective_max policy) then some max_hedge_cap else none

  unfoldable pub policy_result : HedgePolicy F → F → PolicyApplicationResult F
  policy_result policy input =
      let clamped = clamp_ratio policy input in
      let output = output_of policy clamped in
      let binding = clamp_bindings clamped input ++ rounding_bindings policy clamped in
      record {
        policy_id = policy.policy_id;
        input_recommended_hedge_ratio = input;
        output_hedge_ratio = output;
        binding_constraints = binding;
        unmet_target_reason = unmet_target policy output binding;
        notes = policy_notes policy;
      }

  unfoldable pub apply_hedge_policy : HedgePolicy F → F → Checked (PolicyApplicationResult F)
  apply_hedge_policy policy ratio =
      if not (is_finite ratio)
      then refused "recommended_hedge_ratio must be finite"
      else accepted (policy_result policy ratio)
