-- ===== src/Validation/Tests.antt =====
-- Concrete commands and errors of core/validation, and the theorems at them.
use demobot.Validation.Scaffold.{RegistryEntry}
use demobot.Validation.Errors.{ErrorEnvelope, make_error}
use demobot.Validation.Workflow.{WorkflowContext}
use demobot.Validation.Registry.{IsAllowed, validate_command_dict, validate_command_dict-none_iff}
use demobot.Validation.Modes.{
  apply_validation_mode, apply_validation_mode-perm, is_downgraded, lenient, lenient-eq-strict,
  strict,
}
use demobot.Base.{All, Dict, String, [], false, none, true, ◌++◌, ◌↔◌, ◌∷◌, ◌≡◌, Bool, str_eq}
use demobot.Json.{Json, int, pos, str, ℤ}
use mathlib.Core.List.{Permᴰ}

abbrev shown : Json → String
shown v = "shown"

abbrev shown_int : ℤ → String
shown_int z = "shown"

abbrev command : Dict Json
command = ("kind", str "INGEST_QUOTE") ∷ ("schema_version", int (pos 2)) ∷ []

abbrev late_error : ErrorEnvelope
late_error = make_error "OUT_OF_ORDER" []

abbrev context : WorkflowContext
context = record { has_any_quotes = false; applied_version = pos 0 }

abbrev illegal_code : String
illegal_code = "ILLEGAL_SEQUENCE"

abbrev old : String
old = "f1"

abbrev current : String
current = "f2"

validate_command_dict-none_iff_example :
    (validate_command_dict shown command ≡ none) ↔ IsAllowed command
validate_command_dict-none_iff_example = validate_command_dict-none_iff shown command

lenient-eq-strict_example :
    apply_validation_mode [] lenient (late_error ∷ [])
    ≡ apply_validation_mode [] strict (late_error ∷ [])
lenient-eq-strict_example = lenient-eq-strict (late_error ∷ [])

apply_validation_mode-perm_example :
    let d =
      apply_validation_mode
        ("OUT_OF_ORDER" ∷ [])
        lenient
        (late_error ∷ make_error "VALIDATION_ERROR" [] ∷ []) in
    Permᴰ (late_error ∷ make_error "VALIDATION_ERROR" [] ∷ []) (d.errors ++ d.warnings)
    × ((d.accepted ≡ true) ↔ (d.errors ≡ []))
    × All (λ e. is_downgraded ("OUT_OF_ORDER" ∷ []) e ≡ true) d.warnings
apply_validation_mode-perm_example =
    apply_validation_mode-perm ("OUT_OF_ORDER" ∷ []) lenient
      (late_error ∷ make_error "VALIDATION_ERROR" [] ∷ [])

abbrev no_blank : String → Bool
no_blank s = str_eq s ""

abbrev entry : RegistryEntry
entry = record {
  model_id = "m";
  validation_status = "approved";
  benchmark_pack_id = "b";
  numeric_policy_id = "";
  supported_capabilities = "vanilla" ∷ [];
}
