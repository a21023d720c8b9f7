-- ===== src/Portfolio/Model.antt =====
-- core/portfolio/v2_models.py: the records of a portfolio. The dataclasses do not check their fields, so
-- that each holds whatever the payload has. What Python does with values of any shape is a parameter.
use demobot.Base.{
  Bool, List, Option, String, false, if◌then◌else◌, none, some, str_eq, true, ℕ, ◌+◌, ◌&&◌, ◌==◌,
  not, [], ◌∷◌,
}
use demobot.Json.{
  Fields, Items, Json, bool, cons, dict, end, field, float, int, list, nil, null, pos, str, negsuc,
}

pub record Python : Type 0 where
  -- whether a value can be a key, and `==` of two keys
  pub hashable : Json → Bool
  pub same_key : Json → Json → Bool
  -- `dict(x)` and `iter(x)`; `none` is the exception
  pub as_dict : Json → Option Fields
  pub iterated : Json → Option Items
  -- `sorted(legs, key=lambda l: l["leg_id"])`; `none` is the `TypeError` of keys that do not compare
  pub sorted_by_leg_id : Items → Option Items
  -- whether a float is 0.0 or -0.0
  pub is_zero : ℕ → Bool

pub record PortfolioConstraints : Type 0 where
  pub max_notional : Json
  pub max_abs_delta : Json
  pub max_concentration_pct : Json

pub record Greeks : Type 0 where
  pub delta : Json
  pub gamma : Json
  pub vega : Json
  pub theta : Json
  pub rho : Json

-- The field `greeks_per_unit`: an object if the payload has a dict there, else what it has.
pub data GreeksValue : Type 0 where
  greeks : Greeks → GreeksValue
  unchanged : Json → GreeksValue

pub record Leg : Type 0 where
  pub leg_id : Json
  pub underlying : Json
  pub pv_per_unit : Json
  pub greeks_per_unit : GreeksValue
  pub notional_per_unit : Json
  pub quantity : Json

pub record Position : Type 0 where
  pub position_id : Json
  pub legs : List Leg

pub record PortfolioState : Type 0 where
  pub base_currency : Json
  pub constraints : PortfolioConstraints
  pub positions : List (Json × Position)

-- `d.get(k)`, and `k in d`
unfoldable pub get_field : String → Fields → Option Json
get_field k end = none
get_field k (field j v fs) = if str_eq j k then some v else get_field k fs

abbrev pub get_or_null : String → Fields → Json
get_or_null k fs = elim (get_field k fs) [ none ↦ null | some v ↦ v ]

unfoldable pub field_count : Fields → ℕ
field_count end = 0
field_count (field j v fs) = field_count fs + 1

abbrev pub is_some : Option Json → Bool
is_some none = false
is_some (some v) = true

-- All the names are keys.
unfoldable pub has_all : List String → Fields → Bool
has_all [] fs = true
has_all (k ∷ ks) fs = is_some (get_field k fs) && has_all ks fs

module _ (python : Python) where
  unfoldable pub truthy : Json → Bool
  truthy null = false
  truthy (bool b) = b
  truthy (int (pos n)) = not (n == 0)
  truthy (int (negsuc n)) = true
  truthy (float x) = not (python.is_zero x)
  truthy (str s) = not (str_eq s "")
  truthy (list nil) = false
  truthy (list (cons x xs)) = true
  truthy (dict end) = false
  truthy (dict (field k v fs)) = true

  -- `a or b`
  abbrev pub or_else : Json → Json → Json
  or_else a b = if truthy a then a else b
