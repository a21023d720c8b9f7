-- ===== src/V2/EventStore/Sqlite/Appending.antt =====
-- What `SqliteEventStore.append` does to the table, on each of its three outcomes.
use text.Mathlib.TextPositions.{eq_refl}
use mathlib.Core.List.{Memᴰ}
use mathlib.Core.List.Memᴰ
use mathlib.Core.Path.{subst}
use demobot.Base.{some-none}
use demobot.V2.Model.{EventConflict, V2Event}
use demobot.V2.EventStore.{Append, duplicate, refused, stored}
use demobot.V2.EventStore.Sqlite.{
  IsKeyed, event_of, Row, Table, conflict_of, find_row, has_key, row_of, append, on_integrity_error,
}
use demobot.Base.{
  All, ap, str_eq, ◌&&◌, Bool-cases, true, false, sym, Option-cases, String, [], arith, eq_iff, inl,
  inr, none, refl, some, ℕ, ◌++◌, ◌∷◌, ◌≡◌, ◌⊎◌, ◌∙◌,
}

find_row_here :
    (e : V2Event) (now : ℕ)
    → find_row e.session_id e.event_id (row_of now e ∷ []) ≡ some (row_of now e)
unfolding find_row has_key
find_row_here e now = ground (arith, eq_refl e.session_id, eq_refl e.event_id)

pub find_row-append :
    (sid eid : String) (t u : Table)
    → find_row sid eid (t ++ u)
      ≡ elim (find_row sid eid t) [ none ↦ find_row sid eid u | some r ↦ some r ]
unfolding find_row
find_row-append sid eid [] u = refl
find_row-append sid eid (r ∷ t) u = ground (arith, find_row-append sid eid t u)

pub append_new :
    (now : ℕ) (e : V2Event) (t : Table)
    → find_row e.session_id e.event_id t ≡ none
    → append now e t ≡ (stored, t ++ (row_of now e ∷ []))
unfolding append
append_new now e t h = rw (h, append)

pub append_known :
    (now : ℕ) (e : V2Event) (t : Table) {r : Row}
    → find_row e.session_id e.event_id t ≡ some r
    → append now e t ≡ (on_integrity_error r e, t)
unfolding append
append_known now e t h = rw (h, append)

-- Once an append of an event has not been refused, appending the event again changes nothing and
-- reports a duplicate.
pub append_idempotent :
    (now later : ℕ) (e : V2Event) (t : Table)
    → ((append now e t).0 ≡ stored) ⊎ ((append now e t).0 ≡ duplicate)
    → append later e (append now e t).1 ≡ (duplicate, (append now e t).1)
unfolding on_integrity_error
append_idempotent now later e t h = elim (Option-cases (find_row e.session_id e.event_id t)) [
  | inl new ↦
      let t' = t ++ (row_of now e ∷ []) in
      let found : find_row e.session_id e.event_id t' ≡ some (row_of now e) =
        find_row-append e.session_id e.event_id t (row_of now e ∷ [])
        ∙ rw (new, find_row_here e now) in
      rw (
        append_new now e t new,
        append_known later e t' found,
        eq_refl e.payload_hash,
        eq_refl e.type,
      )
  | inr (r, old) ↦ ground (arith, append_known now e t old, append_known later e t old)
]

-- A row that is in the table stays there as it is, whatever is appended and whatever the outcome.
pub append_only :
    (now : ℕ) (e : V2Event) (t : Table) (sid eid : String) {r : Row}
    → find_row sid eid t ≡ some r
    → find_row sid eid (append now e t).1 ≡ some r
unfolding append
append_only now e t sid eid h = ground (arith, find_row-append sid eid t (row_of now e ∷ []))

-- The row has the key of the event.
abbrev pub HasKey : V2Event → Row → Type 0
HasKey e r = (r.session_id ≡ e.session_id) × (r.event_id ≡ e.event_id)

-- The row has the content of the event, as far as the store compares it.
abbrev pub HasContent : V2Event → Row → Type 0
HasContent e r = (r.payload_hash ≡ e.payload_hash) × (r.type ≡ e.type)

-- The conflict has the key, what the row has as the existing version, and what the event has as the
-- incoming one.
pub record NamesBoth (c : EventConflict) (r : Row) (e : V2Event) : Type 0 where
  session_named : c.session_id ≡ e.session_id
  event_named : c.event_id ≡ e.event_id
  existing_type_named : c.existing_type ≡ r.type
  existing_hash_named : c.existing_hash ≡ r.payload_hash
  incoming_type_named : c.incoming_type ≡ e.type
  incoming_hash_named : c.incoming_hash ≡ e.payload_hash

conflict_of-NamesBoth : (r : Row) (e : V2Event) → NamesBoth (conflict_of r e) r e
conflict_of-NamesBoth r e = record {
  session_named = refl;
  event_named = refl;
  existing_type_named = refl;
  existing_hash_named = refl;
  incoming_type_named = refl;
  incoming_hash_named = refl;
}

has_key-true : (e : V2Event) (r : Row) → has_key e.session_id e.event_id r ≡ true → HasKey e r
unfolding has_key
has_key-true e r h = ground (arith, eq_iff r.session_id e.session_id, eq_iff r.event_id e.event_id)

has_key-false : (e : V2Event) (r : Row) → has_key e.session_id e.event_id r ≡ false → ¬ (HasKey e r)
unfolding has_key
has_key-false e r h = ground (arith, eq_iff r.session_id e.session_id, eq_iff r.event_id e.event_id)

has_key_of : (e : V2Event) (r : Row) → HasKey e r → has_key e.session_id e.event_id r ≡ true
unfolding has_key
has_key_of e r h = ground (arith, eq_iff r.session_id e.session_id, eq_iff r.event_id e.event_id)

find_row-none :
    (e : V2Event) (t : Table)
    → find_row e.session_id e.event_id t ≡ none
    → All (λ r. ¬ (HasKey e r)) t
unfolding find_row
find_row-none e [] h = tt
find_row-none e (r ∷ t) h = elim (Bool-cases (has_key e.session_id e.event_id r)) [
  | inl k ↦ absurd (ground arith)
  | inr k ↦ (has_key-false e r k, find_row-none e t (ground arith))
]

find_row-some :
    (e : V2Event) (t : Table) {q : Row}
    → find_row e.session_id e.event_id t ≡ some q
    → Memᴰ q t × HasKey e q
unfolding find_row
find_row-some e [] h = absurd (ground arith)
find_row-some e (r ∷ t) {q = q} h = elim (Bool-cases (has_key e.session_id e.event_id r)) [
  | inl k ↦
      let same : r ≡ q = ground arith in
      (Memᴰ.head (sym same), subst (HasKey e) same (has_key-true e r k))
  | inr k ↦ let (there, key) = find_row-some e t (ground arith) in (Memᴰ.tail there, key)
]

-- With unique keys, a row of the table is the one that its key finds.
find_row-Mem :
    (e : V2Event) (t : Table) {q : Row}
    → IsKeyed t
    → Memᴰ q t
    → HasKey e q
    → find_row e.session_id e.event_id t ≡ some q
unfolding find_row
find_row-Mem e [] keyed there key = absurd (Memᴰ.not-nil there)
find_row-Mem e (r ∷ t) {q = q} (alone, keyed) there key = elim (Memᴰ.cases_cons there) [
  | inl same ↦ rw (has_key_of e r (subst (HasKey e) same key)) (ap some (sym same))
  | inr later ↦
      let found = find_row-Mem e t {q = q} keyed later key in
      elim (Bool-cases (has_key e.session_id e.event_id r)) [
        | inl k ↦
            let (sid, eid) = has_key-true e r k in
            let missing : find_row e.session_id e.event_id t ≡ none = rw (← sid, ← eid) alone in
            absurd (some-none (sym found ∙ missing))
        | inr k ↦ rw (k) found
      ]
]

known_outcomes :
    (e : V2Event) (r : Row) (t : Table)
    → (HasContent e r × (◌≡◌ {A = Append × Table} (on_integrity_error r e, t) (duplicate, t)))
      ⊎ (¬ (HasContent e r)
          × ((c : EventConflict) × (◌≡◌ {A = Append × Table}
                (on_integrity_error r e, t)
                (refused c, t))
              × NamesBoth c r e))
unfolding on_integrity_error
known_outcomes e r t =
    elim (Bool-cases (str_eq r.payload_hash e.payload_hash && str_eq r.type e.type)) [
      | inl h ↦
          inl
            (ground (arith, eq_iff r.payload_hash e.payload_hash, eq_iff r.type e.type), rw h refl)
      | inr h ↦ inr (
        ground (arith, eq_iff r.payload_hash e.payload_hash, eq_iff r.type e.type),
        (conflict_of r e, rw h refl, conflict_of-NamesBoth r e),
      )
    ]

-- The three outcomes of an append. If no row has the key of the event, a row with what the event has,
-- and the time of the call, is added at the end. If a row has the key, the table does not change: with
-- the same type and payload hash the event is a duplicate, and otherwise it is refused with a conflict
-- that names the key, the type and the hash of that row, and those of the event.
pub append_outcomes :
    (now : ℕ) (e : V2Event) (t : Table)
    → (All (λ r. ¬ (HasKey e r)) t
        × ((row : Row) × (append now e t ≡ (stored, t ++ (row ∷ [])))
            × (event_of row ≡ e)
            × (row.inserted_at ≡ now)))
      ⊎ ((r : Row) × (Memᴰ r t × HasKey e r)
          × ((HasContent e r × (append now e t ≡ (duplicate, t)))
              ⊎ (¬ (HasContent e r)
                  × ((c : EventConflict) × (append now e t ≡ (refused c, t)) × NamesBoth c r e))))
append_outcomes now e t = elim (Option-cases (find_row e.session_id e.event_id t)) [
  | inl new ↦ inl (find_row-none e t new, (row_of now e, append_new now e t new, refl, refl))
  | inr (r, old) ↦
      inr (r, find_row-some e t old, rw (append_known now e t old) (known_outcomes e r t))
]

-- The one row with the key of the event, and another content, is what the refusal names.
pub append_conflict :
    (now : ℕ) (e : V2Event) (t : Table) {r : Row}
    → IsKeyed t
    → Memᴰ r t
    → HasKey e r
    → ¬ (HasContent e r)
    → (c : EventConflict) × (append now e t ≡ (refused c, t)) × NamesBoth c r e
append_conflict now e t {r = r} keyed there key other =
    let old = append_known now e t (find_row-Mem e t keyed there key) in
    elim (known_outcomes e r t) [
      | inl (same, _) ↦ absurd (other same)
      | inr (_, (c, refusal, named)) ↦ (c, old ∙ refusal, named)
    ]

IsKeyed-last :
    (r : Row) (t : Table)
    → IsKeyed t
    → find_row r.session_id r.event_id t ≡ none
    → IsKeyed (t ++ (r ∷ []))
unfolding find_row has_key
IsKeyed-last r [] k h = (refl, tt)
IsKeyed-last r (q ∷ t) (k, ks) h = (
  ground (
    arith,
    find_row-append q.session_id q.event_id t (r ∷ []),
    eq_iff r.session_id q.session_id,
    eq_iff r.event_id q.event_id,
    eq_iff q.session_id r.session_id,
    eq_iff q.event_id r.event_id,
  ),
  IsKeyed-last r t ks (ground arith),
)

-- An append keeps the key of every row unique.
append-IsKeyed : (now : ℕ) (e : V2Event) (t : Table) → IsKeyed t → IsKeyed (append now e t).1
unfolding append
append-IsKeyed now e t k = elim (Option-cases (find_row e.session_id e.event_id t)) [
  | inl new ↦ rw (new, append) (IsKeyed-last (row_of now e) t k new)
  | inr (r, old) ↦ rw (old, append) k
]
