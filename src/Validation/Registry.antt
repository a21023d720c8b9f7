-- ===== src/Validation/Registry.antt =====
-- core/validation/command_registry.py: the allowed kinds of commands and their schema versions.
use demobot.Validation.Errors.{ErrorEnvelope, make_error, path_reason}
use demobot.Json.{Json, bool, dict, float, int, list, negsuc, null, pos, str, ℤ}
use demobot.Base.{
  Bool, Dict, List, Option, String, [], arith, false, if◌then◌else◌, inr, lookup, mem, none, refl,
  some, true, ℕ, ◌==◌, ◌||◌, ◌↔◌, ◌∷◌, ◌≡◌, ◌⊎◌, Option-cases, ap, inl, ◌∙◌,
}
use mathlib.Core.Option
use Prim.Native.String.{◌++◌ as ◌+++◌}

-- `ALLOWED_COMMAND_KINDS`
abbrev pub allowed_command_kinds : List String
allowed_command_kinds =
    "INGEST_EVENT" ∷ "INGEST_QUOTE" ∷ "SNAPSHOT_REQUEST" ∷ "COMPUTE_REQUEST" ∷ "PORTFOLIO_RISK"
    ∷ "SCENARIO_GRID" ∷ []

-- `SUPPORTED_SCHEMA_VERSIONS_BY_KIND`
abbrev pub supported_schema_versions_by_kind : Dict (List ℕ)
supported_schema_versions_by_kind =
    ("INGEST_EVENT", 1 ∷ [])
    ∷ ("INGEST_QUOTE", 1 ∷ [])
    ∷ ("SNAPSHOT_REQUEST", 1 ∷ [])
    ∷ ("COMPUTE_REQUEST", 1 ∷ [])
    ∷ ("PORTFOLIO_RISK", 1 ∷ [])
    ∷ ("SCENARIO_GRID", 1 ∷ [])
    ∷ []

-- `isinstance(v, int)`, with the number: `True` and `False` are 1 and 0 in Python.
unfoldable pub as_int : Json → Option ℤ
as_int (int z) = some z
as_int (bool true) = some (pos 1)
as_int (bool false) = some (pos 0)
as_int _ = none

abbrev pub as_str : Json → Option String
as_str (str s) = some s
as_str _ = none

-- `z in versions`
unfoldable pub version_in : ℤ → List ℕ → Bool
version_in z [] = false
version_in (pos n) (v ∷ vs) = n == v || version_in (pos n) vs
version_in (negsuc n) (v ∷ vs) = version_in (negsuc n) vs

-- `validate_command_kind`
unfoldable pub validate_command_kind : String → Option ErrorEnvelope
validate_command_kind kind =
    if mem kind allowed_command_kinds
    then none
    else some (make_error "UNKNOWN_COMMAND_KIND" (path_reason "kind" ("unknown kind: " +++ kind)))

-- The check of `schema_version`, once the kind is known; `show` is Python's formatting of an int or bool.
unfoldable pub validate_schema_version : (Json → String) → String → Dict Json → Option ErrorEnvelope
unfolding as_int version_in
validate_schema_version show kind cmd = elim (lookup "schema_version" cmd) [
  | none ↦ some (make_error "MISSING_SCHEMA_VERSION" (path_reason "schema_version" "missing"))
  | some sv ↦ elim (as_int sv) [
    | none ↦ some (make_error "MISSING_SCHEMA_VERSION" (path_reason "schema_version" "type"))
    | some z ↦
        let unsupported : Option ErrorEnvelope = some (
          make_error "UNSUPPORTED_SCHEMA_VERSION"
            (path_reason "schema_version" ("unsupported: " +++ show sv))) in
        elim (lookup kind supported_schema_versions_by_kind) [
          | none ↦ unsupported
          | some allowed ↦ if version_in z allowed then none else unsupported
        ]
  ]
]

-- `validate_command_dict`
unfoldable pub validate_command_dict : (Json → String) → Dict Json → Option ErrorEnvelope
unfolding validate_command_kind validate_schema_version
validate_command_dict show cmd = elim (Option.bind (lookup "kind" cmd) as_str) [
  | none ↦ some (make_error "UNKNOWN_COMMAND_KIND" (path_reason "kind" "missing or invalid kind"))
  | some kind ↦ elim (validate_command_kind kind) [
    | some unknown ↦ some unknown
    | none ↦ validate_schema_version show kind cmd
  ]
]

-- What an accepted command is: its kind is a text of the allowed kinds, and its version is the int 1
-- (or `True`, which Python takes for it).
abbrev pub IsAllowed : Dict Json → Type 0
IsAllowed cmd =
    ((kind : String) × (lookup "kind" cmd ≡ some (str kind))
      × (mem kind allowed_command_kinds ≡ true))
    × ((lookup "schema_version" cmd ≡ some (int (pos 1)))
        ⊎ (lookup "schema_version" cmd ≡ some (bool true)))

supported_of_allowed :
    (kind : String)
    → mem kind allowed_command_kinds ≡ true
    → lookup kind supported_schema_versions_by_kind ≡ some (1 ∷ [])
unfolding mem lookup
supported_of_allowed kind h = ground arith

version_in_one : (z : ℤ) → version_in z (1 ∷ []) ≡ true → z ≡ pos 1
unfolding version_in
version_in_one (pos n) h = ground arith
version_in_one (negsuc n) h = absurd (ground arith)

as_int_one : (v : Json) → as_int v ≡ some (pos 1) → (v ≡ int (pos 1)) ⊎ (v ≡ bool true)
unfolding as_int
as_int_one null h = ground arith
as_int_one (bool true) h = inr refl
as_int_one (bool false) h = ground arith
as_int_one (int z) h = ground arith
as_int_one (float f) h = ground arith
as_int_one (str s) h = ground arith
as_int_one (list l) h = ground arith
as_int_one (dict d) h = ground arith

as_str-some : (v : Json) {s : String} → as_str v ≡ some s → v ≡ str s
as_str-some null h = ground arith
as_str-some (bool b) h = ground arith
as_str-some (int z) h = ground arith
as_str-some (float f) h = ground arith
as_str-some (str s) h = ground arith
as_str-some (list l) h = ground arith
as_str-some (dict d) h = ground arith

validate_schema_version-none :
    (show : Json → String) (kind : String) (cmd : Dict Json)
    → mem kind allowed_command_kinds ≡ true
    → validate_schema_version show kind cmd ≡ none
    → (lookup "schema_version" cmd ≡ some (int (pos 1)))
      ⊎ (lookup "schema_version" cmd ≡ some (bool true))
unfolding validate_schema_version
validate_schema_version-none show kind cmd k h = elim (Option-cases (lookup "schema_version" cmd)) [
  | inl e ↦ absurd (ground arith)
  | inr (v, e) ↦ elim (Option-cases (as_int v)) [
    | inl f ↦ absurd (ground arith)
    | inr (z, f) ↦
        let one : version_in z (1 ∷ []) ≡ true = ground (arith, supported_of_allowed kind k) in
        elim (as_int_one v (f ∙ ap some (version_in_one z one))) [
          | inl p ↦ inl (e ∙ ap some p)
          | inr p ↦ inr (e ∙ ap some p)
        ]
  ]
]

validate_schema_version-one :
    (show : Json → String) (kind : String) (cmd : Dict Json) (v : Json)
    → mem kind allowed_command_kinds ≡ true
    → lookup "schema_version" cmd ≡ some v
    → as_int v ≡ some (pos 1)
    → validate_schema_version show kind cmd ≡ none
unfolding version_in validate_schema_version
validate_schema_version-one show kind cmd v k e f =
    rw (e, validate_schema_version) (rw (f, supported_of_allowed kind k) refl)

kind_of_passed :
    (show : Json → String) (cmd : Dict Json)
    → validate_command_dict show cmd ≡ none
    → (kind : String) × (lookup "kind" cmd ≡ some (str kind))
      × (mem kind allowed_command_kinds ≡ true)
      × (validate_schema_version show kind cmd ≡ none)
unfolding validate_command_dict validate_command_kind Option.bind
kind_of_passed show cmd h = elim (Option-cases (lookup "kind" cmd)) [
  | inl e ↦ absurd (ground arith)
  | inr (v, e) ↦ elim (Option-cases (as_str v)) [
    | inl f ↦ absurd (ground arith)
    | inr (kind, f) ↦ (kind, e ∙ ap some (as_str-some v f), ground arith, ground arith)
  ]
]

-- A raw command passes exactly when its kind is allowed and its schema version is 1.
pub validate_command_dict-none_iff :
    (show : Json → String) (cmd : Dict Json)
    → (validate_command_dict show cmd ≡ none) ↔ IsAllowed cmd
unfolding validate_command_dict validate_command_kind as_int Option.bind
validate_command_dict-none_iff show cmd = (
  λ h.
      let (kind, e, k, r) = kind_of_passed show cmd h in
      ((kind, e, k), validate_schema_version-none show kind cmd k r),
  λ ((kind, e, k), v).
      rw (e, validate_command_dict)
        (rw k (elim v [
          | inl one ↦ validate_schema_version-one show kind cmd _ k one refl
          | inr one ↦ validate_schema_version-one show kind cmd _ k one refl
        ])),
)
