-- ===== src/Validation/Sequence.antt =====
-- core/validation/ingest_event_ordering.py: the client's sequence number of an event.
use demobot.Json.{negsuc, pos, ℤ}
use demobot.Validation.Errors.{ErrorEnvelope, category_for_code, make_error, path_reason}
use demobot.Base.{
  Bool, Bool-cases, Option, String, ap, arith, false, if◌then◌else◌, inl, inr, none, refl, some,
  true, ◌==◌, ◌↔◌, ◌≡◌, ◌≢◌, ◌⊎◌,
}
use Prim.Native.String.{◌++◌ as ◌+++◌}

abbrev pub int_eq : ℤ → ℤ → Bool
int_eq (pos a) (pos b) = a == b
int_eq (negsuc a) (negsuc b) = a == b
int_eq _ _ = false

pub record IngestOrderState : Type 0 where
  pub next_client_sequence : ℤ

-- `validate_ingest_event_ordering`, given `cmd.payload.client_sequence`; `show` is Python's formatting.
unfoldable pub validate_ingest_event_ordering :
    (ℤ → String) → IngestOrderState → Option ℤ → Option ErrorEnvelope
validate_ingest_event_ordering show state none = none
validate_ingest_event_ordering show state (some client_seq) =
    if int_eq client_seq state.next_client_sequence
    then none
    else some (
        make_error "OUT_OF_ORDER" (
          path_reason "payload.client_sequence"
            ("expected=" +++ show state.next_client_sequence +++ ", got=" +++ show client_seq)))

pub int_eq_iff : (a b : ℤ) → (int_eq a b ≡ true) ↔ (a ≡ b)
int_eq_iff (pos a) (pos b) = (ground arith, ground arith)
int_eq_iff (pos a) (negsuc b) = (ground arith, ground arith)
int_eq_iff (negsuc a) (pos b) = (ground arith, ground arith)
int_eq_iff (negsuc a) (negsuc b) = (ground arith, ground arith)

-- An event passes exactly when it has no sequence number or the expected one; otherwise the error is
-- SEMANTIC.
pub validate_ingest_event_ordering_cases :
    (show : ℤ → String) (state : IngestOrderState) (seq : Option ℤ)
    → ((validate_ingest_event_ordering show state seq ≡ none)
        × ((seq ≡ none) ⊎ (seq ≡ some state.next_client_sequence)))
      ⊎ ((e : ErrorEnvelope) × (validate_ingest_event_ordering show state seq ≡ some e)
          × (e.code ≡ "OUT_OF_ORDER")
          × (e.category ≡ "SEMANTIC")
          × (seq ≢ none)
          × (seq ≢ some state.next_client_sequence))
unfolding validate_ingest_event_ordering make_error category_for_code
validate_ingest_event_ordering_cases show state none = inl (refl, inl refl)
validate_ingest_event_ordering_cases show state (some n) =
    elim (Bool-cases (int_eq n state.next_client_sequence)) [
      | inl h ↦ rw h (inl (refl, inr (ap some ((int_eq_iff n state.next_client_sequence).0 h))))
      | inr h ↦ rw h (
          inr (
            _,
            refl,
            refl,
            refl,
            (λ p. ground arith),
            λ p. ground (arith, int_eq_iff n state.next_client_sequence),
          ))
    ]
