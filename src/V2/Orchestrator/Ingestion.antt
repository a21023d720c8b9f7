-- ===== src/V2/Orchestrator/Ingestion.antt =====
-- core/v2/orchestrator.py, `ingest_event` over the SQLite store: the live state of a session counts
-- the events that the store lists.
use demobot.V2.Orchestrator.Recovery.Laws.{recover_none-applied, recover_none-version}
use demobot.V2.Orchestrator.Recovery.{recover_from}
use demobot.Base.{
  Dict, String, ap, arith, contains, contains-insert, false, if◌then◌else◌, inl, inr, insert,
  length, lookup-insert, mem, str_eq, true, ℕ, ◌+◌, ◌∙◌, ◌≡◌, ◌≢◌, ◌⊎◌, Option, refl, Bool-cases,
  Option-cases, List, [], eq_iff, lookup, none, ◌∷◌,
}
use text.Mathlib.TextPositions.{eq_refl}
use demobot.V2.EventStore.{Append, duplicate, refused, stored}
use demobot.V2.EventStore.Sqlite.{Table, append, list_of, sqlite_store}
use demobot.V2.EventStore.Sqlite.{IsKeyed, Row}
use demobot.V2.EventStore.Sqlite.Appending.{HasContent, HasKey, NamesBoth, append_conflict}
use mathlib.Core.List.{Memᴰ}
use demobot.V2.EventStore.Sqlite.Laws.{
  append_stored_iff, length-list_of-append, mem-list_of-append, sqlite_store-IsEventStore,
}
use demobot.V2.SnapshotStore.{SnapshotStore}
use demobot.Json.{Json}
use demobot.V2.Orchestrator.Building.{Result, err, ok, conflict}
use demobot.V2.Model.{SessionState, Snapshot, V2Event, ids, EventConflict}
use demobot.V2.Orchestrator.Runtime.{
  Runtime, open_log, applied_state, apply_event, build, current_state, follow_policy, ingest_event,
  save_built, with_state, empty_state, latest_snapshot, recover,
}
open sqlite_store-IsEventStore use {append_other, append_unstored}

-- The version is the number of stored events of the session, and the ids are theirs.
abbrev pub Counts : String → SessionState → Table → Type 0
Counts sid st t =
    (st.version ≡ length (list_of sid t))
    × ((k : String) → contains k st.applied ≡ mem k (ids (list_of sid t)))

abbrev pub next_state : V2Event → SessionState → SessionState
next_state e st = if contains e.event_id st.applied then st else applied_state e st

current_state-insert :
    (j k : String) (st : SessionState) (d : Dict SessionState)
    → current_state j (insert k st d) ≡ (if str_eq k j then st else current_state j d)
unfolding current_state
current_state-insert j k st d = ground (arith, lookup-insert k j st d)

pub unchanged :
    (now : ℕ) (e : V2Event) (t : Table) → (append now e t).0 ≢ stored → (append now e t).1 ≡ t
unchanged now e t h = append_unstored now e t h

pub Append-cases :
    (a : Append) → ((a ≡ stored) ⊎ (a ≡ duplicate)) ⊎ ((c : EventConflict) × (a ≡ refused c))
Append-cases stored = inl (inl refl)
Append-cases duplicate = inl (inr refl)
Append-cases (refused c) = inr (c, refl)

-- A stored event makes the state count one more, a duplicate leaves the count.
next_state-Counts :
    (now : ℕ) (e : V2Event) (st : SessionState) (t : Table)
    → Counts e.session_id st t
    → ((append now e t).0 ≡ stored) ⊎ ((append now e t).0 ≡ duplicate)
    → Counts e.session_id (next_state e st) (append now e t).1
unfolding applied_state
next_state-Counts now e st t (v, a) (inl h) =
    let new : contains e.event_id st.applied ≡ false =
      a e.event_id ∙ (append_stored_iff now e t).0 h in
    rw new (
      ground (arith, length-list_of-append now e t e.session_id h, eq_refl e.session_id),
      λ k. ground (
        arith,
        a k,
        contains-insert e.event_id k (st.version + 1) st.applied,
        mem-list_of-append now e t e.session_id k h,
        eq_refl e.session_id,
      ),
    )
next_state-Counts now e st t (v, a) (inr h) =
    let ne : (append now e t).0 ≢ stored = ground arith in
    let old : contains e.event_id st.applied ≡ true =
      ground (arith, a e.event_id, append_stored_iff now e t) in
    rw (old, unchanged now e t ne) (v, a)

other-Counts :
    (now : ℕ) (e : V2Event) (sid : String) (st : SessionState) (t : Table)
    → e.session_id ≢ sid
    → Counts sid st t
    → Counts sid st (append now e t).1
other-Counts now e sid st t ne c = rw (append_other now e t sid ne) c

-- Once the store takes an event or knows it, the states with the event's next state count the new table.
pub taken_states-Counts :
    (now : ℕ) (e : V2Event) (states : Dict SessionState) (t : Table) (sid : String)
    → Counts e.session_id (current_state e.session_id states) t
    → Counts sid (current_state sid states) t
    → ((append now e t).0 ≡ stored) ⊎ ((append now e t).0 ≡ duplicate)
    → let st = next_state e (current_state e.session_id states) in
      Counts sid (current_state sid (insert e.session_id st states)) (append now e t).1
taken_states-Counts now e states t sid own other h =
    let st = current_state e.session_id states in
    rw (current_state-insert sid e.session_id (next_state e st) states)
      (elim (Bool-cases (str_eq e.session_id sid)) [
        | inl same ↦
            rw (same, ← (eq_iff e.session_id sid).0 same) (next_state-Counts now e st t own h)
        | inr differ ↦ rw differ (
            other-Counts now e sid (current_state sid states) t
              (λ p. ground (arith, eq_iff e.session_id sid)) other)
      ])

module _ {T : Type 0} (snapshots : SnapshotStore T) (hash_snapshot : Dict Json → String) where
  -- The live state of the session counts what the store lists.
  abbrev pub InSync : String → Runtime Table T → Type 0
  InSync sid rt = Counts sid (current_state sid rt.session_states) rt.store

  save_built_keeps :
      (r : Result Snapshot) (t : T) (rt : Runtime Table T)
      → let out = (save_built sqlite_store snapshots hash_snapshot r t rt).1 in
        (out.session_states ≡ rt.session_states) × (out.store ≡ rt.store)
  unfolding save_built
  save_built_keeps (ok snap) t rt = (refl, refl)
  save_built_keeps (err f) t rt = (refl, refl)

  -- The snapshot policy changes neither the live states nor the events.
  follow_policy_keeps :
      (now : ℕ) (sid : String) (last : Option ℕ) (version : ℕ) (rt : Runtime Table T)
      → let out = (follow_policy sqlite_store snapshots hash_snapshot now sid last version rt).1 in
        (out.session_states ≡ rt.session_states) × (out.store ≡ rt.store)
  unfolding follow_policy
  follow_policy_keeps now sid last version rt = elim (Option-cases rt.snapshot_store) [
    | inl h ↦ rw h (refl, refl)
    | inr (t, h) ↦ rw h (
        ground
          (arith, save_built_keeps (build sqlite_store snapshots hash_snapshot now sid rt) t rt))
  ]

  with_state_keeps :
      (st : SessionState) (r : Result (Unit {0}) × Runtime Table T) → (with_state st r).1 ≡ r.1
  with_state_keeps st (ok u, rt) = refl
  with_state_keeps st (err f, rt) = refl

  apply_event_keeps :
      (now : ℕ) (e : V2Event) (last : Option ℕ) (st : SessionState) (rt : Runtime Table T)
      → let out = (apply_event sqlite_store snapshots hash_snapshot now e last st rt).1 in
        (out.session_states ≡ insert e.session_id (next_state e st) rt.session_states)
        × (out.store ≡ rt.store)
  unfolding apply_event
  apply_event_keeps now e last st rt = elim (Bool-cases (contains e.event_id st.applied)) [
    | inl h ↦ rw h (refl, refl)
    | inr h ↦
        rw (h, with_state_keeps (applied_state e st) _)
          (follow_policy_keeps now e.session_id last (st.version + 1) _)
  ]

  -- The event is taken: the session's state is the next one, the store that of the append.
  pub ingest_taken :
      (now later : ℕ) (e : V2Event) (rt : Runtime Table T)
      → ((append now e rt.store).0 ≡ stored) ⊎ ((append now e rt.store).0 ≡ duplicate)
      → let out = (ingest_event sqlite_store snapshots hash_snapshot now later e rt).1 in
        let st = current_state e.session_id rt.session_states in
        (out.session_states ≡ insert e.session_id (next_state e st) rt.session_states)
        × (out.store ≡ (append now e rt.store).1)
  unfolding ingest_event
  ingest_taken now later e rt (inl h) = rw (h, ingest_event) (apply_event_keeps later e _ _ _)
  ingest_taken now later e rt (inr h) = rw (h, ingest_event) (apply_event_keeps later e _ _ _)

  ingest_refused :
      (now later : ℕ) (e : V2Event) (rt : Runtime Table T) (c : EventConflict)
      → (append now e rt.store).0 ≡ refused c
      → let (r, out) = ingest_event sqlite_store snapshots hash_snapshot now later e rt in
        (r ≡ err (conflict c))
        × (out.session_states ≡ rt.session_states)
        × (out.store ≡ rt.store)
        × (out.snapshot_store ≡ rt.snapshot_store)
  unfolding ingest_event
  ingest_refused now later e rt c h =
      rw (h, ingest_event) (refl, refl, unchanged now e rt.store (ground arith), refl)

  -- Over a table with unique keys: an event whose key a row has with another type or payload hash is an
  -- error, the conflict of that row and the event. The runtime keeps its events, states and snapshots, and
  -- all that is new is an empty log for the session, if it had none.
  pub ingest_conflict :
      (now later : ℕ) (e : V2Event) (rt : Runtime Table T) (r : Row)
      → IsKeyed rt.store
      → Memᴰ r rt.store
      → HasKey e r
      → ¬ (HasContent e r)
      → (c : EventConflict) × (ingest_event sqlite_store snapshots hash_snapshot now later e rt
          ≡ (err (conflict c), record rt { applied_log = open_log e.session_id rt.applied_log }))
        × NamesBoth c r e
  unfolding ingest_event
  ingest_conflict now later e rt r keyed there key other =
      let (c, kept, named) = append_conflict now e rt.store keyed there key other in
      (
        c,
        rw (ap (λ r. r.0) kept, ingest_event)
            (ap
              (λ (s : Table). (
                err (conflict c),
                record rt { store = s; applied_log = open_log e.session_id rt.applied_log },
              ))
              (ap (λ r. r.1) kept)),
        named,
      )

  taken-InSync :
      (now later : ℕ) (e : V2Event) (rt : Runtime Table T) (sid : String)
      → InSync e.session_id rt
      → InSync sid rt
      → ((append now e rt.store).0 ≡ stored) ⊎ ((append now e rt.store).0 ≡ duplicate)
      → InSync sid (ingest_event sqlite_store snapshots hash_snapshot now later e rt).1
  taken-InSync now later e rt sid own other h =
      let (states, store) = ingest_taken now later e rt h in
      rw (states, store) (taken_states-Counts now e rt.session_states rt.store sid own other h)

  -- Ingesting any event, with any outcome, keeps every session in sync that was in sync, provided
  -- that the session of the event was.
  pub ingest_event-InSync :
      (now later : ℕ) (e : V2Event) (rt : Runtime Table T) (sid : String)
      → InSync e.session_id rt
      → InSync sid rt
      → InSync sid (ingest_event sqlite_store snapshots hash_snapshot now later e rt).1
  ingest_event-InSync now later e rt sid own other = elim (Append-cases (append now e rt.store).0) [
    | inl h ↦ taken-InSync now later e rt sid own other h
    | inr (c, h) ↦
        let (_, states, store, _) = ingest_refused now later e rt c h in rw (states, store) other
  ]

  -- The events one after another, each with the two clock readings of its call; an error is the
  -- caller's business, and the next event is ingested all the same.
  unfoldable pub ingest_all : List (ℕ × ℕ × V2Event) → Runtime Table T → Runtime Table T
  ingest_all [] rt = rt
  ingest_all ((now, later, e) ∷ es) rt =
      ingest_all es (ingest_event sqlite_store snapshots hash_snapshot now later e rt).1

  -- Whatever is ingested, with repeats, conflicts and failing policies, a runtime that starts with all
  -- sessions in sync keeps them in sync: the version of a session is the number of its stored events.
  pub ingest_all-InSync :
      (es : List (ℕ × ℕ × V2Event)) (rt : Runtime Table T)
      → ((sid : String) → InSync sid rt)
      → (sid : String) → InSync sid (ingest_all es rt)
  unfolding ingest_all
  ingest_all-InSync [] rt h sid = h sid
  ingest_all-InSync ((now, later, e) ∷ es) rt h sid =
      ingest_all-InSync es (ingest_event sqlite_store snapshots hash_snapshot now later e rt).1
        (λ sid'. ingest_event-InSync now later e rt sid' (h e.session_id) (h sid')) sid

  -- `recover` without a snapshot puts a session in sync, whatever the live state was.
  pub recover-InSync :
      (sid : String) (rt : Runtime Table T)
      → latest_snapshot sqlite_store snapshots hash_snapshot sid rt.snapshot_store ≡ none
      → InSync sid (recover sqlite_store snapshots hash_snapshot sid rt).1
  unfolding recover
  recover-InSync sid rt h =
      let st = (recover_from sqlite_store sid none rt.store).0 in
      rw (h, current_state-insert sid sid st rt.session_states, eq_refl sid)
        (
          recover_none-version sqlite_store hash_snapshot sqlite_store-IsEventStore sid rt.store,
          recover_none-applied sqlite_store hash_snapshot sqlite_store-IsEventStore sid rt.store,
        )

  -- A runtime without a live state of the session, as after a restart without `recover`, leaves the
  -- session at version 1 when the store takes an event or knows it, however many events it holds.
  pub restart_forgets :
      (now later : ℕ) (e : V2Event) (rt : Runtime Table T)
      → lookup e.session_id rt.session_states ≡ none
      → ((append now e rt.store).0 ≡ stored) ⊎ ((append now e rt.store).0 ≡ duplicate)
      → let out = (ingest_event sqlite_store snapshots hash_snapshot now later e rt).1 in
        (current_state e.session_id out.session_states).version ≡ 1
  unfolding applied_state contains current_state
  restart_forgets now later e rt h taken =
      let (states, _) = ingest_taken now later e rt taken in
      let before : current_state e.session_id rt.session_states ≡ empty_state e.session_id =
        rw (h, current_state) refl in
      let st = next_state e (current_state e.session_id rt.session_states) in
      let after : current_state e.session_id (insert e.session_id st rt.session_states) ≡ st =
        current_state-insert e.session_id e.session_id st rt.session_states
        ∙ rw (eq_refl e.session_id) refl in
      rw (states, after, before) refl
