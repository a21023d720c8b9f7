-- ===== src/Api/GateB.antt =====
-- api/v2/gate_b.py: an HTTP JSON body becomes a command, or an envelope says what is wrong with it.
pub mod Laws
pub mod Modes
pub mod Unhashable
use demobot.Json.{Fields, Items, Json, bool, cons, dict, end, field, float, int, list, nil, str}
use demobot.Base.{
  Bool, Dict, List, Option, String, [], false, if◌then◌else◌, lookup, ltb, mem, none, not, some,
  str_eq, true, ◌∷◌,
}
use Prim.Native.String.{count, ◌++◌ as ◌+++◌}

-- the module's own `ErrorEnvelope`, not that of core/validation
pub record Envelope : Type 0 where
  pub category : String
  pub code : String
  pub message : String
  pub details : Dict Json

-- What a call comes to: its value, an envelope that is returned or raised in a `ValueError`, or the
-- `TypeError` of an unhashable value that is looked for in a set.
pub data Gate (A : Type 0) : Type 0 where
  pass : A → Gate A
  fail : Envelope → Gate A
  type_error : Gate A

unfoldable pub bind : {A B : Type 0} → Gate A → (A → Gate B) → Gate B
bind (pass a) f = f a
bind (fail e) f = fail e
bind type_error f = type_error

abbrev pub envelope : String → String → String → Dict Json → Envelope
envelope category code message details = record {
  category = category;
  code = code;
  message = message;
  details = details;
}

-- The fields of a JSON object as a dict.
unfoldable pub dict_of : Fields → Dict Json
dict_of end = []
dict_of (field k v fs) = (k, v) ∷ dict_of fs

-- `v in texts`, for a set of texts
unfoldable pub in_set : Json → List String → Gate Bool
in_set (str s) texts = pass (mem s texts)
in_set (list l) texts = type_error
in_set (dict d) texts = type_error
in_set _ texts = pass false

pub record Mapped : Type 0 where
  pub kind : String
  pub schema_version : Json
  pub payload : Dict Json
  pub validation_mode : Json

pub record Command : Type 0 where
  pub command_kind : String
  pub schema_version : Json
  pub payload : Dict Json
  pub warnings : List Envelope

abbrev items_of : List String → Items
items_of [] = nil
items_of (s ∷ ss) = cons (str s) (items_of ss)

module _ (show : Json → String) where
  unfoldable pub check_schema_version : Option Json → Gate Json
  unfolding in_set
  check_schema_version found = elim found [
    | none ↦ fail (envelope "client" "missing_schema_version" "`schema_version` is required" [])
    | some v ↦ bind (in_set v ("1.0" ∷ [])) (λ known.
        if known
        then pass v
        else fail (
            envelope "client" "unsupported_schema_version"
              ("schema_version " +++ show v +++ " is unsupported")
              (("supported", list (items_of ("1.0" ∷ []))) ∷ [])))
  ]

  abbrev missing_kind : Gate String
  missing_kind =
      fail (envelope "client" "missing_kind" "`kind` is required and must be a string" [])

  unfoldable pub check_kind : Option Json → Gate String
  check_kind found = elim found [
    | some (str k) ↦
        if str_eq k ""
        then missing_kind
        else if str_eq k "INGEST_QUOTE"
        then pass k
        else fail (envelope "client" "unknown_kind" ("Unknown kind: " +++ k) [])
    | _ ↦ missing_kind
  ]

  -- `req.get("validation_mode", "strict")`
  abbrev pub mode_of : Dict Json → Json
  mode_of req = elim (lookup "validation_mode" req) [ none ↦ str "strict" | some v ↦ v ]

  unfoldable pub check_validation_mode : Json → Gate Json
  unfolding in_set
  check_validation_mode mode = bind (in_set mode ("strict" ∷ "lenient" ∷ [])) (λ known.
      if known
      then pass mode
      else fail (
          envelope "client" "invalid_validation_mode"
            ("validation_mode " +++ show mode +++ " invalid")
            (("allowed", list (items_of ("lenient" ∷ "strict" ∷ []))) ∷ [])))

  unfoldable pub check_payload : Option Json → Gate (Dict Json)
  check_payload found = elim found [
    | some (dict fs) ↦ pass (dict_of fs)
    | _ ↦ fail (envelope "client" "missing_or_invalid_payload" "`payload` must be an object" [])
  ]

  -- `parse_request`: what it looks up is checked in this order.
  unfoldable pub parse_request : Dict Json → Gate Mapped
  unfolding check_schema_version check_kind check_validation_mode check_payload bind
  parse_request req = bind (check_schema_version (lookup "schema_version" req)) (λ v.
      bind (check_kind (lookup "kind" req)) (λ k. bind (check_validation_mode (mode_of req)) (λ m.
        bind (check_payload (lookup "payload" req))
          (λ p. pass (record { kind = k; schema_version = v; payload = p; validation_mode = m })))))

  -- `payload.get("symbol")`, where it is a text
  unfoldable pub symbol_of : Dict Json → Option String
  symbol_of payload = elim (lookup "symbol" payload) [ some (str s) ↦ some s | _ ↦ none ]

  -- `isinstance(payload.get("price"), (int, float))`, which a bool is too
  unfoldable pub has_price : Dict Json → Bool
  has_price payload = elim (lookup "price" payload) [
    | some (int z) ↦ true
    | some (float f) ↦ true
    | some (bool b) ↦ true
    | _ ↦ false
  ]

  -- `validate_payload`: nothing, or the envelope
  unfoldable pub validate_payload : String → Dict Json → Option Envelope
  validate_payload kind payload =
      if str_eq kind "INGEST_QUOTE"
      then elim (symbol_of payload) [
        | none ↦
            some (envelope "validation" "invalid_payload_symbol" "`symbol` missing or invalid" [])
        | some s ↦
            if has_price payload
            then none
            else some
                (envelope "validation" "invalid_payload_price" "`price` missing or invalid" [])
      ]
      else none

  module _ (upper : String → String) where
    -- `apply_workflow_legality`
    unfoldable pub apply_workflow_legality : Dict Json → Option Envelope
    apply_workflow_legality payload = elim (symbol_of payload) [
      | none ↦ none
      | some s ↦
          if str_eq s ""
          then none
          else if not (str_eq (upper s) s)
          then some (
              envelope "legality" "symbol_not_uppercase" "symbol must be uppercase"
                (("symbol", str s) ∷ []))
          else if ltb 8 (count s)
          then some (
              envelope "legality" "symbol_too_long" "symbol length must be <= 8"
                (("symbol", str s) ∷ []))
          else none
    ]

    abbrev pub command_of : Mapped → List Envelope → Command
    command_of m warnings = record {
      command_kind = m.kind;
      schema_version = m.schema_version;
      payload = m.payload;
      warnings = warnings;
    }

    -- The part of `map_api_to_command` behind the payload's validation, with its warnings.
    unfoldable pub finish : Mapped → List Envelope → Gate Command
    unfolding apply_workflow_legality
    finish m warnings = elim (apply_workflow_legality m.payload) [
      | some e ↦ fail e
      | none ↦ pass (command_of m warnings)
    ]

    -- `validation_mode == "strict"`
    abbrev pub is_strict : Json → Bool
    is_strict (str s) = str_eq s "strict"
    is_strict _ = false

    unfoldable pub check_mapped : Mapped → Gate Command
    unfolding validate_payload finish
    check_mapped m = elim (validate_payload m.kind m.payload) [
      | none ↦ finish m []
      | some e ↦ if is_strict m.validation_mode then fail e else finish m (e ∷ [])
    ]

    -- `map_api_to_command`
    unfoldable pub map_api_to_command : Dict Json → Gate Command
    unfolding parse_request check_mapped
    map_api_to_command req = bind (parse_request req) check_mapped
