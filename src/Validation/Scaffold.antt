-- ===== src/Validation/Scaffold.antt =====
-- core/validation/validation_scaffold_v1.py: references to artifact schemas, benchmark and replay
-- cases, and the approval of an engine. A text is blank when Python's `strip` leaves nothing of it, which
-- the argument `blank` says.
use Prim.Native.String.{◌++◌ as ◌+++◌}
use demobot.Json.{Json, str}
use demobot.Base.{
  Bool, Dict, List, Option, String, [], false, if◌then◌else◌, length, lookup, none, not, some,
  str_eq, true, ◌==◌, ◌↔◌, ◌∷◌, ◌≡◌, ◌≢◌, arith, eq_iff, inl, inr, refl, ◌⊎◌,
}

-- A value, or the message of the `ValueError`.
pub data Made (A : Type 0) : Type 0 where
  made : A → Made A
  value_error : String → Made A

pub record ArtifactSchemaRef : Type 0 where
  pub schema_name : String
  pub schema_version : String

pub record BenchmarkCase : Type 0 where
  pub case_id : String
  pub model_id : String
  pub benchmark_pack_id : String
  pub valuation_run_id : String

pub record BenchmarkResult : Type 0 where
  pub case_id : String
  pub is_match : Bool
  pub expected_hash : String
  pub observed_hash : String

pub record ReplayCase : Type 0 where
  pub replay_id : String
  pub valuation_run_id : String
  pub artifact_id : String

pub record ReplayDeterminismResult : Type 0 where
  pub replay_id : String
  pub is_deterministic : Bool
  pub first_hash : String
  pub second_hash : String

-- What the check reads of a `ModelRegistryEntry`.
pub record RegistryEntry : Type 0 where
  pub model_id : String
  pub validation_status : String
  pub benchmark_pack_id : String
  pub numeric_policy_id : String
  pub supported_capabilities : List String

pub record EngineApproval : Type 0 where
  pub model_id : String
  pub is_approved : Bool
  pub issues : List String

module _ (blank : String → Bool) where
  -- `isinstance(value, str) and value.strip()`, with the text
  unfoldable pub text_of : Option Json → Option String
  text_of (some (str s)) = if blank s then none else some s
  text_of _ = none

  -- `parse_artifact_schema_ref_v1`; `__post_init__` tests the two texts once more, and they pass again.
  unfoldable pub parse_artifact_schema_ref : Option (Dict Json) → Made ArtifactSchemaRef
  unfolding text_of
  parse_artifact_schema_ref none = value_error "payload must be a mapping"
  parse_artifact_schema_ref (some payload) = elim (text_of (lookup "schema_name" payload)) [
    | none ↦ value_error "schema_name must be present and non-empty"
    | some name ↦ elim (text_of (lookup "schema_version" payload)) [
      | none ↦ value_error "schema_version must be present and non-empty"
      | some version ↦ made (record { schema_name = name; schema_version = version })
    ]
  ]

  -- The loop of `__post_init__` over the fields' names and texts.
  unfoldable pub require_texts : List (String × String) → Made (Unit {0})
  require_texts [] = made tt
  require_texts ((name, value) ∷ fields) =
      let rest = require_texts fields in
      if blank value then value_error (name +++ " must be a non-empty string") else rest

  -- `BenchmarkCaseV1.__post_init__`
  unfoldable pub check_benchmark_case : BenchmarkCase → Made (Unit {0})
  unfolding require_texts
  check_benchmark_case c = require_texts (
      ("case_id", c.case_id)
      ∷ ("model_id", c.model_id)
      ∷ ("benchmark_pack_id", c.benchmark_pack_id)
      ∷ ("valuation_run_id", c.valuation_run_id)
      ∷ [])

  -- `ReplayCaseV1.__post_init__`
  unfoldable pub check_replay_case : ReplayCase → Made (Unit {0})
  unfolding require_texts
  check_replay_case c = require_texts (
      ("replay_id", c.replay_id)
      ∷ ("valuation_run_id", c.valuation_run_id)
      ∷ ("artifact_id", c.artifact_id)
      ∷ [])

  -- `ensure_expected_artifact_schema_v1`
  unfoldable pub ensure_expected_artifact_schema :
      ArtifactSchemaRef → String → String → Made (Unit {0})
  ensure_expected_artifact_schema ref expected_name expected_version =
      if not (str_eq ref.schema_name expected_name)
      then value_error "artifact schema_name does not match expected value"
      else if not (str_eq ref.schema_version expected_version)
      then value_error "artifact schema_version does not match expected value"
      else made tt

  -- `run_benchmark_case_v1`
  unfoldable pub run_benchmark_case : BenchmarkCase → String → String → Made BenchmarkResult
  run_benchmark_case c expected_hash observed_hash =
      if blank expected_hash
      then value_error "expected_hash must be a non-empty string"
      else if blank observed_hash
      then value_error "observed_hash must be a non-empty string"
      else made (record {
        case_id = c.case_id;
        is_match = str_eq observed_hash expected_hash;
        expected_hash = expected_hash;
        observed_hash = observed_hash;
      })

  -- `check_replay_determinism_v1`
  unfoldable pub check_replay_determinism :
      ReplayCase → String → String → Made ReplayDeterminismResult
  check_replay_determinism c first_hash second_hash =
      if blank first_hash
      then value_error "first_hash must be a non-empty string"
      else if blank second_hash
      then value_error "second_hash must be a non-empty string"
      else made (record {
        replay_id = c.replay_id;
        is_deterministic = str_eq first_hash second_hash;
        first_hash = first_hash;
        second_hash = second_hash;
      })

  -- `issues.append(issue)` where the test holds
  abbrev pub noted : Bool → String → List String → List String
  noted test issue issues = if test then issue ∷ issues else issues

  -- The issues that `check_engine_approval_metadata_v1` lists.
  unfoldable pub issues_of : RegistryEntry → List String
  issues_of entry =
      noted (not (str_eq entry.validation_status "approved")) "validation_status_not_approved" (
        noted (blank entry.benchmark_pack_id) "missing_benchmark_pack_id" (
          noted (blank entry.numeric_policy_id) "missing_numeric_policy_id"
            (noted (length entry.supported_capabilities == 0) "missing_supported_capabilities" [])))

  -- `check_engine_approval_metadata_v1`
  unfoldable pub check_engine_approval_metadata : RegistryEntry → EngineApproval
  unfolding issues_of
  check_engine_approval_metadata entry = record {
    model_id = entry.model_id;
    is_approved = length (issues_of entry) == 0;
    issues = issues_of entry;
  }

  capabilities_cases :
      (cs : List String)
      → (((length cs == 0) ≡ true) × (cs ≡ [])) ⊎ (((length cs == 0) ≡ false) × (cs ≢ []))
  capabilities_cases [] = inl (refl, refl)
  capabilities_cases (c ∷ cs) = inr (ground arith, λ p. ground arith)

  -- An engine is approved exactly when its status is approved, its two ids are not blank and it has a
  -- capability.
  pub check_engine_approval_metadata_iff :
      (entry : RegistryEntry)
      → ((check_engine_approval_metadata entry).is_approved ≡ true) ↔ (
          (entry.validation_status ≡ "approved")
          × (blank entry.benchmark_pack_id ≡ false)
          × (blank entry.numeric_policy_id ≡ false)
          × (entry.supported_capabilities ≢ []))
  unfolding check_engine_approval_metadata issues_of
  check_engine_approval_metadata_iff entry =
      elim (capabilities_cases entry.supported_capabilities) [
        | inl (l, e) ↦ (λ h. absurd (ground arith), λ (_, _, _, ne). absurd (ne e))
        | inr (l, ne) ↦ (
          λ h. (
            ground (arith, eq_iff entry.validation_status "approved"),
            ground arith,
            ground arith,
            ne,
          ),
          λ (a, b, c, _). ground (arith, eq_iff entry.validation_status "approved"),
        )
      ]
