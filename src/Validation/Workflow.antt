-- ===== src/Validation/Workflow.antt =====
-- core/validation/workflow_legality.py: which commands the workflow allows.
use demobot.Validation.Registry.{as_str}
use demobot.Validation.Errors.{ErrorEnvelope, category_for_code, make_error, path_reason, differs}
use demobot.Json.{Json, negsuc, pos, ℤ}
use demobot.Base.{
  Bool, Bool-cases, Dict, Option, Option-cases, String, arith, eq_iff, false, if◌then◌else◌, inl,
  inr, lookup, none, not, refl, some, str_eq, suc, true, zero, ◌||◌, ◌≡◌, ◌⊎◌,
}

pub record WorkflowContext : Type 0 where
  pub has_any_quotes : Bool
  pub applied_version : ℤ

-- A raw dict, or a typed command with what its attribute `kind` holds.
pub data Command : Type 0 where
  raw : Dict Json → Command
  typed : Option String → Command

-- `_extract_kind`
unfoldable pub extract_kind : Command → Option String
extract_kind (raw cmd) = elim (lookup "kind" cmd) [ none ↦ none | some v ↦ as_str v ]
extract_kind (typed kind) = kind

-- `applied_version <= 0`
abbrev pub not_positive : ℤ → Bool
not_positive (pos zero) = true
not_positive (pos (suc n)) = false
not_positive (negsuc n) = true

abbrev illegal : String → Option ErrorEnvelope
illegal reason = some (make_error "ILLEGAL_SEQUENCE" (path_reason "workflow" reason))

-- The rules, for a kind that is known.
unfoldable pub check_kind : WorkflowContext → String → Option ErrorEnvelope
check_kind context kind =
    if str_eq kind "INGEST_QUOTE" || str_eq kind "INGEST_EVENT"
    then none
    else if str_eq kind "COMPUTE_REQUEST"
    then (if not context.has_any_quotes
        then illegal "COMPUTE_REQUEST requires prior INGEST_QUOTE"
        else none)
    else if str_eq kind "SNAPSHOT_REQUEST"
    then (if not_positive context.applied_version
        then illegal "SNAPSHOT_REQUEST requires applied_version > 0"
        else none)
    else none

-- `check_workflow_legality`
unfoldable pub check_workflow_legality : WorkflowContext → Command → Option ErrorEnvelope
unfolding extract_kind check_kind
check_workflow_legality context cmd = elim (extract_kind cmd) [
  | none ↦ none
  | some kind ↦ check_kind context kind
]

-- The two rules that can refuse a command.
abbrev pub IsIllegal : WorkflowContext → String → Type 0
IsIllegal context kind =
    ((kind ≡ "COMPUTE_REQUEST") × (context.has_any_quotes ≡ false))
    ⊎ ((kind ≡ "SNAPSHOT_REQUEST") × (not_positive context.applied_version ≡ true))

compute_cases :
    (context : WorkflowContext)
    → ((check_kind context "COMPUTE_REQUEST" ≡ none) × (¬ (IsIllegal context "COMPUTE_REQUEST")))
      ⊎ ((e : ErrorEnvelope) × (check_kind context "COMPUTE_REQUEST" ≡ some e)
          × (e.category ≡ "SEMANTIC")
          × IsIllegal context "COMPUTE_REQUEST")
unfolding check_kind make_error category_for_code
compute_cases context = elim (Bool-cases (context.has_any_quotes)) [
  | inl q ↦
      rw q (inl (refl, λ i. elim i [ inl (p, f) ↦ ground arith | inr (p, f) ↦ differs refl p ]))
  | inr q ↦ rw q (inr (_, refl, refl, inl (refl, refl)))
]

snapshot_cases :
    (context : WorkflowContext)
    → ((check_kind context "SNAPSHOT_REQUEST" ≡ none) × (¬ (IsIllegal context "SNAPSHOT_REQUEST")))
      ⊎ ((e : ErrorEnvelope) × (check_kind context "SNAPSHOT_REQUEST" ≡ some e)
          × (e.category ≡ "SEMANTIC")
          × IsIllegal context "SNAPSHOT_REQUEST")
unfolding check_kind make_error category_for_code
snapshot_cases context = elim (Bool-cases (not_positive context.applied_version)) [
  | inr q ↦
      rw q (inl (refl, λ i. elim i [ inl (p, f) ↦ differs refl p | inr (p, f) ↦ ground arith ]))
  | inl q ↦ rw q (inr (_, refl, refl, inr (refl, refl)))
]

check_kind_cases :
    (context : WorkflowContext) (kind : String)
    → ((check_kind context kind ≡ none) × (¬ (IsIllegal context kind)))
      ⊎ ((e : ErrorEnvelope) × (check_kind context kind ≡ some e)
          × (e.category ≡ "SEMANTIC")
          × IsIllegal context kind)
unfolding check_kind make_error category_for_code
check_kind_cases context kind = elim (Bool-cases (str_eq kind "COMPUTE_REQUEST")) [
  | inl h ↦ rw ((eq_iff kind "COMPUTE_REQUEST").0 h) (compute_cases context)
  | inr h₁ ↦ elim (Bool-cases (str_eq kind "SNAPSHOT_REQUEST")) [
    | inl h ↦ rw ((eq_iff kind "SNAPSHOT_REQUEST").0 h) (snapshot_cases context)
    | inr h₂ ↦ inl (
      ground arith,
      λ i. ground (arith, eq_iff kind "COMPUTE_REQUEST", eq_iff kind "SNAPSHOT_REQUEST"),
    )
  ]
]

-- A command is refused exactly when it is a COMPUTE_REQUEST before any quote or a SNAPSHOT_REQUEST
-- at a version that is not positive, and then with a SEMANTIC error; a command without a kind passes.
check_workflow_legality_cases :
    (context : WorkflowContext) (cmd : Command)
    → ((check_workflow_legality context cmd ≡ none)
        × ((kind : String) → extract_kind cmd ≡ some kind → ¬ (IsIllegal context kind)))
      ⊎ ((kind : String) × (extract_kind cmd ≡ some kind)
          × (e : ErrorEnvelope) × (check_workflow_legality context cmd ≡ some e)
          × (e.category ≡ "SEMANTIC")
          × IsIllegal context kind)
unfolding check_workflow_legality
check_workflow_legality_cases context cmd = elim (Option-cases (extract_kind cmd)) [
  | inl h ↦ inl (rw (h, check_workflow_legality) refl, λ kind p. ground arith)
  | inr (kind, h) ↦ elim (check_kind_cases context kind) [
    | inl (r, l) ↦
        inl (
          rw (h, check_workflow_legality) r,
          λ k p. let same : k ≡ kind = ground arith in rw same l,
        )
    | inr (e, r, c, i) ↦ inr (kind, h, e, rw (h, check_workflow_legality) r, c, i)
  ]
]
