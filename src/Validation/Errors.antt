-- ===== src/Validation/Errors.antt =====
-- core/validation/error_envelope.py and error_taxonomy.py: the envelope of an error, its category and
-- its message by its code.
use demobot.Base.{
  Dict, String, [], if◌then◌else◌, lookup, none, some, str_eq, ℕ, ◌||◌, ◌∷◌, ◌≡◌, ◌≢◌, ◌⊎◌, arith,
  eq_iff, Bool-cases, false, inl, inr, refl,
}

pub record ErrorEnvelope : Type 0 where
  pub category : String
  pub code : String
  pub message : String
  pub details : Dict String
  pub error_count : ℕ

-- `_MESSAGE_MAP`
abbrev pub message_map : Dict String
message_map =
    ("VALIDATION_ERROR", "validation error")
    ∷ ("UNKNOWN_COMMAND_KIND", "unsupported command kind")
    ∷ ("OUT_OF_ORDER", "command violates ordering rules")
    ∷ ("IDEMPOTENCY_CONFLICT", "command conflicts with previous execution")
    ∷ ("MISSING_SCHEMA_VERSION", "missing or invalid schema_version")
    ∷ ("UNSUPPORTED_SCHEMA_VERSION", "unsupported schema_version for command kind")
    ∷ ("ILLEGAL_SEQUENCE", "illegal command sequence for workflow")
    ∷ []

-- `_category_for_code`
unfoldable pub category_for_code : String → String
category_for_code code =
    if str_eq code "VALIDATION_ERROR" || str_eq code "UNKNOWN_COMMAND_KIND"
    then "VALIDATION"
    else if str_eq code "OUT_OF_ORDER"
    then "SEMANTIC"
    else if str_eq code "IDEMPOTENCY_CONFLICT"
    then "CONFLICT"
    else if str_eq code "MISSING_SCHEMA_VERSION" || str_eq code "UNSUPPORTED_SCHEMA_VERSION"
    then "VALIDATION"
    else if str_eq code "ILLEGAL_SEQUENCE"
    then "SEMANTIC"
    else "VALIDATION"

-- `_MESSAGE_MAP.get(code, "error")`
unfoldable pub message_of : String → String
message_of code = elim (lookup code message_map) [ none ↦ "error" | some m ↦ m ]

unfoldable pub make_error : String → Dict String → ErrorEnvelope
make_error code details = record {
  category = category_for_code code;
  code = code;
  message = message_of code;
  details = details;
  error_count = 1;
}

-- `{"path": path, "reason": reason}`
abbrev pub path_reason : String → String → Dict String
path_reason path reason = ("path", path) ∷ ("reason", reason) ∷ []

pub differs : {a b : String} → str_eq a b ≡ false → a ≢ b
differs {a} {b} h p = ground (arith, eq_iff a b)

other_category :
    (code : String)
    → str_eq code "IDEMPOTENCY_CONFLICT" ≡ false
    → str_eq code "OUT_OF_ORDER" ≡ false
    → str_eq code "ILLEGAL_SEQUENCE" ≡ false
    → category_for_code code ≡ "VALIDATION"
unfolding category_for_code
other_category code h₁ h₂ h₃ = rw (h₁, h₂, h₃) (ground arith)

-- Every code has one of the three categories; CONFLICT belongs to IDEMPOTENCY_CONFLICT alone, and
-- SEMANTIC to OUT_OF_ORDER and ILLEGAL_SEQUENCE.
pub category_for_code-Category :
    (code : String)
    → ((category_for_code code ≡ "CONFLICT") × (code ≡ "IDEMPOTENCY_CONFLICT"))
      ⊎ ((category_for_code code ≡ "SEMANTIC")
          × ((code ≡ "OUT_OF_ORDER") ⊎ (code ≡ "ILLEGAL_SEQUENCE")))
      ⊎ ((category_for_code code ≡ "VALIDATION")
          × (code ≢ "IDEMPOTENCY_CONFLICT")
          × (code ≢ "OUT_OF_ORDER")
          × (code ≢ "ILLEGAL_SEQUENCE"))
unfolding category_for_code
category_for_code-Category code = elim (Bool-cases (str_eq code "IDEMPOTENCY_CONFLICT")) [
  | inl h ↦ rw ((eq_iff code "IDEMPOTENCY_CONFLICT").0 h) (inl (refl, refl))
  | inr h₁ ↦ elim (Bool-cases (str_eq code "OUT_OF_ORDER")) [
    | inl h ↦ rw ((eq_iff code "OUT_OF_ORDER").0 h) (inr (inl (refl, inl refl)))
    | inr h₂ ↦ elim (Bool-cases (str_eq code "ILLEGAL_SEQUENCE")) [
      | inl h ↦ rw ((eq_iff code "ILLEGAL_SEQUENCE").0 h) (inr (inl (refl, inr refl)))
      | inr h₃ ↦ inr (inr (other_category code h₁ h₂ h₃, differs h₁, differs h₂, differs h₃))
    ]
  ]
]
