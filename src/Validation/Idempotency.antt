-- ===== src/Validation/Idempotency.antt =====
-- core/validation/command_classification.py, command_identity.py, seen_command.py and
-- operational_outcome.py: whether a command is new, a repeat or a conflict, and the outcome.
use demobot.Json.{Json}
use demobot.Validation.Errors.{ErrorEnvelope, category_for_code, make_error, path_reason}
use demobot.Base.{
  Bool, Bool-cases, Dict, List, Option, String, [], ap, arith, eq_iff, false, if◌then◌else◌, inl,
  inr, lookup, mem, none, not, refl, some, str_eq, true, ◌≡◌, ◌≢◌, ◌⊎◌, Option-cases,
}

-- `classify_command`
unfoldable pub classify_command : Bool → Option String → String → String
classify_command seen previous current = if not seen then "NEW" else elim previous [
  | some p ↦ if str_eq p current then "IDEMPOTENT_REPLAY" else "CONFLICT"
  | none ↦ "CONFLICT"
]

pub record OperationalOutcome : Type 0 where
  pub command_id : String
  pub session_id : String
  pub status : String
  pub error : Option ErrorEnvelope
  pub state_hash : Option String
  pub diagnostics : Option (Dict Json)

-- `map_classification_to_outcome`; the identity is (session_id, command_id), and nothing stands for
-- the `ValueError` of an unknown classification.
unfoldable pub map_classification_to_outcome :
    String → String × String → Option String → Option (Dict Json) → Option OperationalOutcome
map_classification_to_outcome classification (sid, cid) state_hash diagnostics =
    if str_eq classification "NEW"
    then some (record {
      command_id = cid;
      session_id = sid;
      status = "ACCEPTED";
      error = none;
      state_hash = state_hash;
      diagnostics = diagnostics;
    })
    else if str_eq classification "IDEMPOTENT_REPLAY"
    then some (record {
      command_id = cid;
      session_id = sid;
      status = "IDEMPOTENT_REPLAY";
      error = none;
      state_hash = state_hash;
      diagnostics = diagnostics;
    })
    else if str_eq classification "CONFLICT"
    then some (record {
      command_id = cid;
      session_id = sid;
      status = "REJECTED";
      error =
          some (
            make_error "IDEMPOTENCY_CONFLICT"
              (path_reason "" "conflict with previous fingerprint"));
      state_hash = state_hash;
      diagnostics = diagnostics;
    })
    else none

-- What a state offers: `get_seen_command_ids`, the container `seen_command_ids`, or neither.
pub data SeenState : Type 0 where
  provider : (String → List String) → SeenState
  container : Dict (List String) → SeenState
  neither : SeenState

unfoldable pub has_seen_command : SeenState → String × String → Bool
has_seen_command (provider get_ids) (sid, cid) = mem cid (get_ids sid)
has_seen_command (container d) (sid, cid) = elim (lookup sid d) [
  | none ↦ false
  | some seen_ids ↦ mem cid seen_ids
]
has_seen_command neither (sid, cid) = false

-- A state that offers its ids by session through either interface sees the same commands.
pub has_seen_command-container :
    (d : Dict (List String)) (identity : String × String)
    → has_seen_command (container d) identity
      ≡ has_seen_command
          (provider (λ sid. elim (lookup sid d) [ none ↦ [] | some seen_ids ↦ seen_ids ]))
          identity
unfolding has_seen_command mem
has_seen_command-container d (sid, cid) = elim (Option-cases (lookup sid d)) [
  | inl h ↦ rw (h, has_seen_command) refl
  | inr (seen_ids, h) ↦ rw (h, has_seen_command) refl
]

-- A classified command always has an outcome, with its own ids: an unseen one is accepted, a seen one
-- with the recorded fingerprint is a repeat, and any other is rejected with a CONFLICT error.
pub outcome_of_classified :
    (seen : Bool) (previous : Option String) (current : String) (sid cid : String)
    (state_hash : Option String) (diagnostics : Option (Dict Json))
    → (o : OperationalOutcome) × (map_classification_to_outcome
          (classify_command seen previous current)
          (sid, cid)
          state_hash
          diagnostics
        ≡ some o)
      × (o.session_id ≡ sid)
      × (o.command_id ≡ cid)
      × (((seen ≡ false) × (o.status ≡ "ACCEPTED") × (o.error ≡ none))
          ⊎ ((seen ≡ true)
              × (previous ≡ some current)
              × (o.status ≡ "IDEMPOTENT_REPLAY")
              × (o.error ≡ none))
          ⊎ ((seen ≡ true)
              × (previous ≢ some current)
              × (o.status ≡ "REJECTED")
              × (e : ErrorEnvelope) × (o.error ≡ some e)
              × (e.category ≡ "CONFLICT")))
unfolding classify_command map_classification_to_outcome make_error category_for_code
outcome_of_classified false previous current sid cid h d =
    (_, refl, refl, refl, inl (refl, refl, refl))
outcome_of_classified true none current sid cid h d =
    (_, refl, refl, refl, inr (inr (refl, (λ p. ground arith), refl, _, refl, refl)))
outcome_of_classified true (some p) current sid cid h d = elim (Bool-cases (str_eq p current)) [
  | inl same ↦
      rw same
        (_, refl, refl, refl, inr (inl (refl, ap some ((eq_iff p current).0 same), refl, refl)))
  | inr differ ↦ rw differ (
    _,
    refl,
    refl,
    refl,
    inr (inr (refl, (λ q. ground (arith, eq_iff p current)), refl, _, refl, refl)),
  )
]
