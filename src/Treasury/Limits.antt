-- ===== src/Treasury/Limits.antt =====
-- core/services/counterparty_limits_v1.py: how far a requested hedge ratio is allowed. The arithmetic of
-- `float` is a parameter, and what raises `ValueError` is `refused` with the message.
pub mod Laws
use demobot.Base.{
  Bool, List, Option, String, [], if◌then◌else◌, none, not, some, ◌++◌, ◌∷◌, ◌||◌, ◌&&◌, true,
  false,
}
use Prim.Native.String.{◌++◌ as ◌+++◌}

pub record Numbers (F : Type 0) : Type 0 where
  pub less : F → F → Bool
  pub equal : F → F → Bool
  pub plus : F → F → F
  pub minus : F → F → F
  pub times : F → F → F
  pub divided : F → F → F
  pub is_finite : F → Bool
  pub nought : F
  pub one : F
  -- `not s.strip()`
  pub is_blank : String → Bool

pub data Checked {ℓ} (A : Type ℓ) : Type ℓ where
  refused : String → Checked A
  accepted : A → Checked A

pub record CounterpartyLimit (F : Type 0) : Type 0 where
  pub counterparty_id : String
  pub max_additional_notional_foreign : Option F
  pub max_total_hedge_notional_foreign : Option F
  pub max_hedge_ratio : Option F
  pub currency : Option String

pub data Binding : Type 0 where
  binds_ratio binds_total binds_additional : Binding

-- The locals `allowed_ratio`, `allowed_total`, `allowed_additional` and `bindings`.
pub record Allowed (F : Type 0) : Type 0 where
  pub ratio : F
  pub total : F
  pub additional : F
  pub bindings : List Binding

pub data UnmetReason : Type 0 where
  total_cap add_cap ratio_cap : UnmetReason

pub record LimitApplicationResult (F : Type 0) : Type 0 where
  pub requested_additional_notional_foreign : F
  pub allowed_additional_notional_foreign : F
  pub requested_total_hedge_notional_foreign : F
  pub allowed_total_hedge_notional_foreign : F
  pub requested_post_policy_ratio : F
  pub allowed_post_policy_ratio : F
  pub binding_constraints : List Binding
  pub unmet_target_reason : Option UnmetReason

abbrev same_binding : Binding → Binding → Bool
same_binding binds_ratio binds_ratio = true
same_binding binds_total binds_total = true
same_binding binds_additional binds_additional = true
same_binding _ _ = false

-- `ratio_bound`, `total_bound` and `additional_bound`
abbrev pub is_bound : Binding → List Binding → Bool
is_bound b [] = false
is_bound b (c ∷ cs) = same_binding b c || is_bound b cs

module _ {F : Type 0} (numbers : Numbers F) where
  open numbers use {less, equal, plus, minus, times, divided, is_finite, nought, one, is_blank}

  -- `not math.isfinite(value) or value < 0.0`
  abbrev pub is_bad : F → Bool
  is_bad value = not (is_finite value) || less value nought

  abbrev pub is_bad_option : Option F → Bool
  is_bad_option none = false
  is_bad_option (some value) = is_bad value

  -- `0.0 <= x <= 1.0`, of a number
  abbrev pub in_unit : F → Bool
  in_unit x = not (less x nought) && not (less one x)

  abbrev pub check_ratio : CounterpartyLimit F → Checked (CounterpartyLimit F)
  check_ratio limit = elim limit.max_hedge_ratio [
    | none ↦ accepted limit
    | some ratio ↦
        if not (is_finite ratio)
        then refused "max_hedge_ratio must be finite when provided"
        else if not (in_unit ratio)
        then refused "max_hedge_ratio must be in [0,1] when provided"
        else accepted limit
  ]

  -- `CounterpartyLimitV1.__post_init__`
  unfoldable pub check_limit : CounterpartyLimit F → Checked (CounterpartyLimit F)
  check_limit limit =
      if is_blank limit.counterparty_id
      then refused "counterparty_id must be non-empty"
      else if is_bad_option limit.max_additional_notional_foreign
      then refused "max_additional_notional_foreign must be >= 0 when provided"
      else if is_bad_option limit.max_total_hedge_notional_foreign
      then refused "max_total_hedge_notional_foreign must be >= 0 when provided"
      else check_ratio limit

  -- `min(x, cap)` and `max(0.0, x)`
  abbrev pub capped_at : F → F → F
  capped_at x cap = if less cap x then cap else x

  abbrev pub non_negative : F → F
  non_negative x = if less nought x then x else nought

  -- A binding is noted where the cap lowers the value.
  abbrev pub bind : Binding → F → F → List Binding → List Binding
  bind b x cap bindings = if less (capped_at x cap) x then bindings ++ (b ∷ []) else bindings

  unfoldable pub limit_ratio : F → F → Option F → Allowed F → Allowed F
  limit_ratio net current none a = a
  limit_ratio net current (some cap) a =
      let ratio = capped_at a.ratio cap in
      let total = times net ratio in
      record {
        ratio = ratio;
        total = total;
        additional = non_negative (minus total current);
        bindings = bind binds_ratio a.ratio cap a.bindings;
      }

  unfoldable pub limit_total : F → F → Option F → Allowed F → Allowed F
  limit_total net current none a = a
  limit_total net current (some cap) a =
      let total = capped_at a.total cap in
      record {
        ratio = divided total net;
        total = total;
        additional = non_negative (minus total current);
        bindings = bind binds_total a.total cap a.bindings;
      }

  unfoldable pub limit_additional : F → F → Option F → Allowed F → Allowed F
  limit_additional net current none a = a
  limit_additional net current (some cap) a =
      let additional = capped_at a.additional cap in
      let total = plus current additional in
      record {
        ratio = divided total net;
        total = total;
        additional = additional;
        bindings = bind binds_additional a.additional cap a.bindings;
      }

  unfoldable pub requested : F → F → F → Allowed F
  requested net current ratio =
      let total = times net ratio in
      record {
        ratio = ratio;
        total = total;
        additional = non_negative (minus total current);
        bindings = [];
      }

  -- The three caps, in the order of the code.
  unfoldable pub allow : CounterpartyLimit F → F → F → F → Allowed F
  allow limit net current ratio =
      limit_additional net current limit.max_additional_notional_foreign (
        limit_total net current limit.max_total_hedge_notional_foreign
          (limit_ratio net current limit.max_hedge_ratio (requested net current ratio)))

  unfoldable pub unmet_reason : Allowed F → F → Option UnmetReason
  unmet_reason a ratio = elim a.bindings [
    | [] ↦ none
    | b ∷ bs ↦
        if not (less a.ratio ratio)
        then none
        else if is_bound binds_total a.bindings
        then some total_cap
        else if is_bound binds_additional a.bindings
        then some add_cap
        else if is_bound binds_ratio a.bindings
        then some ratio_cap
        else none
  ]

  unfoldable pub result_of : Allowed F → Allowed F → LimitApplicationResult F
  result_of r a = record {
    requested_additional_notional_foreign = r.additional;
    allowed_additional_notional_foreign = a.additional;
    requested_total_hedge_notional_foreign = r.total;
    allowed_total_hedge_notional_foreign = a.total;
    requested_post_policy_ratio = r.ratio;
    allowed_post_policy_ratio = a.ratio;
    binding_constraints = a.bindings;
    unmet_target_reason = unmet_reason a r.ratio;
  }

  -- Without an exposure nothing is hedged.
  unfoldable pub no_exposure : F → LimitApplicationResult F
  no_exposure ratio = record {
    requested_additional_notional_foreign = nought;
    allowed_additional_notional_foreign = nought;
    requested_total_hedge_notional_foreign = nought;
    allowed_total_hedge_notional_foreign = nought;
    requested_post_policy_ratio = ratio;
    allowed_post_policy_ratio = nought;
    binding_constraints = [];
    unmet_target_reason = none;
  }

  abbrev must_be : String → String
  must_be name = name +++ " must be finite and >= 0"

  unfoldable pub apply_counterparty_limits :
      CounterpartyLimit F → F → F → F → Checked (LimitApplicationResult F)
  apply_counterparty_limits limit net current ratio =
      if is_bad net
      then refused (must_be "net_exposure_abs_foreign")
      else if is_bad current
      then refused (must_be "current_hedge_notional_foreign")
      else if is_bad ratio
      then refused (must_be "requested_post_policy_ratio")
      else if equal net nought
      then accepted (no_exposure ratio)
      else accepted (result_of (requested net current ratio) (allow limit net current ratio))

  unfoldable pub derive_trade_action : F → String → Checked String
  derive_trade_action net ccy =
      if not (is_finite net)
      then refused "net_exposure_foreign must be finite"
      else if is_blank ccy
      then refused "ccy must be non-empty"
      else if less nought net
      then accepted ("SELL " +++ ccy +++ " FWD")
      else if less net nought
      then accepted ("BUY " +++ ccy +++ " FWD")
      else accepted "NO TRADE (NATURAL HEDGE)"
