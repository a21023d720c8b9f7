-- ===== src/V2/Tests.antt =====
-- Concrete events of core/v2, and the theorems at them.
use mathlib.Core.List.{Memᴰ, Permᴰ}
use demobot.V2.Orchestrator.Late.{build_snapshot_loses_late_event}
use demobot.V2.Orchestrator.Recovery.{recover_from}
use demobot.V2.Orchestrator.Recovery.Laws.{recover_counts_repeats, recover_some-version}
use demobot.V2.Orchestrator.Building.{build_snapshot, build_snapshot_full, conflict, err, ok}
use demobot.V2.Orchestrator.Delta.{SameSnapshot, build_snapshot_correct}
use demobot.V2.Replay.{replay_events}
use demobot.V2.Replay.Laws.{first_payload, lookup-replay_events, replay_events-perm}
use demobot.Json.{Json, str}
use demobot.V2.Model.{EventConflict, V2Event, Snapshot}
use demobot.V2.EventStore.Sqlite.Laws.{sqlite_store-IsEventStore}
use demobot.V2.Ordering.{stable_sort_events}
use demobot.V2.EventStore.Sqlite.Appending.{
  HasContent, HasKey, NamesBoth, append_idempotent, append_outcomes,
}
use demobot.Base.{
  All, ap, arith, str_eq, true, Dict, List, String, [], inl, lookup, mem, none, refl, some, ℕ, ◌++◌,
  ◌∷◌, ◌≡◌, ◌⊎◌, contains, false, ◌+◌, ◌<◌, insert, str_leb,
}
use demobot.V2.EventStore.{duplicate, refused, stored}
use demobot.V2.EventStore.Sqlite.{
  Row, Table, append, event_of, find_row, has_key, list_of, row_of, sqlite_store, select_session,
}
use demobot.V2.Orchestrator.Runtime.{
  Runtime, open_log, current_state, ingest_event, latest_snapshot, recover,
}
use demobot.V2.Orchestrator.Ingestion.{
  InSync, ingest_all, ingest_all-InSync, ingest_conflict, recover-InSync, restart_forgets,
}
use demobot.V2.SnapshotStore.Memory.{memory_snapshots, get_at, latest, save, save_lem}
use demobot.V2.SnapshotStore.Memory as Saving
use demobot.V2.EventStore.Memory
use demobot.V2.Ordering.{event_leb}
use demobot.V2.Orchestrator.Building.{full_loop}
use demobot.V2.Fresh.{entries}
use demobot.V2.EventStore.Memory.{memory_store, memory_store-IsEventStore}

abbrev event : String → ℕ → String → V2Event
event eid ts hash = record {
  event_id = eid;
  session_id = "s";
  ts = ts;
  type = "QUOTE_INGESTED";
  payload = str hash;
  payload_hash = hash;
}

abbrev first : V2Event
first = event "a" 1 "h1"

abbrev second : V2Event
second = event "b" 2 "h2"

abbrev third : V2Event
third = event "c" 3 "h3"

abbrev changed : V2Event
changed = event "a" 1 "other"

abbrev table_of : List V2Event → Table
table_of [] = []
table_of (e ∷ es) = row_of 0 e ∷ table_of es

abbrev empty_snapshot : ℕ → Snapshot
empty_snapshot v = record {
  session_id = "s";
  version = v;
  created_at = 0;
  state_hash = "h";
  data_of = [];
}

abbrev digest : Dict Json → String
digest d = "digest"

replay_events-perm_example :
    replay_events (second ∷ first ∷ []) ≡ replay_events (first ∷ second ∷ [])
unfolding mem
replay_events-perm_example = replay_events-perm (Permᴰ.swap refl refl) (refl, (refl, tt))

lookup-replay_events_example :
    lookup "b" (replay_events (second ∷ first ∷ []))
    ≡ first_payload "b" (stable_sort_events (second ∷ first ∷ []))
lookup-replay_events_example = lookup-replay_events "b" (second ∷ first ∷ [])

append_idempotent_example :
    append 8 second (append 7 second (table_of (first ∷ []))).1
    ≡ (duplicate, (append 7 second (table_of (first ∷ []))).1)
unfolding append find_row has_key
append_idempotent_example = append_idempotent 7 8 second (table_of (first ∷ [])) (inl refl)

append_outcomes_example :
    (All (λ r. ¬ (HasKey changed r)) (table_of (first ∷ []))
      × ((row : Row) × (append 7 changed (table_of (first ∷ []))
            ≡ (stored, table_of (first ∷ []) ++ (row ∷ [])))
          × (event_of row ≡ changed)
          × (row.inserted_at ≡ 7)))
    ⊎ ((r : Row) × (Memᴰ r (table_of (first ∷ [])) × HasKey changed r)
        × ((HasContent changed r
              × (append 7 changed (table_of (first ∷ [])) ≡ (duplicate, table_of (first ∷ []))))
            ⊎ (¬ (HasContent changed r)
                × ((c : EventConflict) × (append 7 changed (table_of (first ∷ []))
                      ≡ (refused c, table_of (first ∷ [])))
                    × NamesBoth c r changed))))
append_outcomes_example = append_outcomes 7 changed (table_of (first ∷ []))

abbrev fresh_runtime : List V2Event → Runtime Table Saving.Memory
fresh_runtime es = record {
  store = table_of es;
  snapshot_store = none;
  snapshot_policy = some 2;
  session_states = [];
  applied_log = [];
}

abbrev arrivals : List (ℕ × ℕ × V2Event)
arrivals = (5, 6, second) ∷ (7, 8, first) ∷ (9, 10, changed) ∷ (11, 12, second) ∷ []

ingest_all-InSync_example :
    InSync memory_snapshots digest "s"
      (ingest_all memory_snapshots digest arrivals (fresh_runtime []))
unfolding list_of select_session current_state contains mem stable_sort_events lookup
ingest_all-InSync_example =
    ingest_all-InSync memory_snapshots digest arrivals (fresh_runtime []) (λ sid. (refl, λ k. refl))
      "s"

other_hash : ¬ (first.payload_hash ≡ "other")
other_hash h =
    let tested : str_eq "h1" "other" ≡ true = ap (λ s. str_eq s "other") h in ground arith

ingest_conflict_example :
    (c : EventConflict) × (ingest_event sqlite_store memory_snapshots digest 7 8 changed
        (fresh_runtime (first ∷ []))
      ≡ (err (conflict c), record (fresh_runtime (first ∷ [])) { applied_log = open_log "s" [] }))
    × NamesBoth c (row_of 0 first) changed
unfolding find_row
ingest_conflict_example =
    ingest_conflict memory_snapshots digest 7 8 changed (fresh_runtime (first ∷ []))
      (row_of 0 first) (refl, tt) (Memᴰ.head refl) (refl, refl) (λ same. other_hash same.0)

recover-InSync_example :
    InSync memory_snapshots digest "s"
      (recover sqlite_store memory_snapshots digest "s" (fresh_runtime (second ∷ first ∷ []))).1
unfolding latest_snapshot
recover-InSync_example =
    recover-InSync memory_snapshots digest "s" (fresh_runtime (second ∷ first ∷ [])) refl

restart_forgets_example :
    let out =
      (ingest_event sqlite_store memory_snapshots digest 7 8 third
        (fresh_runtime (first ∷ second ∷ []))).1 in
    (current_state "s" out.session_states).version ≡ 1
unfolding append find_row has_key lookup
restart_forgets_example =
    restart_forgets memory_snapshots digest 7 8 third (fresh_runtime (first ∷ second ∷ [])) refl
      (inl refl)

abbrev snapshot_of : List V2Event → Snapshot
snapshot_of es = build_snapshot_full sqlite_store digest 20 "s" (table_of es)

build_snapshot_correct_example :
    (snap : Snapshot) × (build_snapshot sqlite_store digest 30 "s"
        (some (snapshot_of (first ∷ [])))
        (table_of (first ∷ second ∷ []))
      ≡ ok snap)
    × SameSnapshot snap
        (build_snapshot_full sqlite_store digest 30 "s" (table_of (first ∷ second ∷ [])))
unfolding list_of stable_sort_events select_session event_leb
build_snapshot_correct_example =
    build_snapshot_correct sqlite_store digest sqlite_store-IsEventStore "s" (table_of (first ∷ []))
      (table_of (first ∷ second ∷ [])) (second ∷ []) refl 30 20 (snapshot_of (first ∷ []))
      (refl, refl, refl, refl)

recover_some-version_example :
    (recover_from sqlite_store "s"
      (some (snapshot_of (first ∷ [])))
      (table_of (first ∷ second ∷ []))).0.version
    ≡ (build_snapshot_full sqlite_store digest 20 "s" (table_of (first ∷ second ∷ []))).version
unfolding list_of stable_sort_events select_session event_leb
recover_some-version_example =
    recover_some-version sqlite_store digest sqlite_store-IsEventStore 20 "s"
      (table_of (first ∷ [])) (table_of (first ∷ second ∷ [])) (second ∷ [])
      (snapshot_of (first ∷ [])) refl (refl, refl, refl, refl)

recover_counts_repeats_example :
    (build_snapshot_full memory_store digest 20 "s" (("s", first ∷ first ∷ []) ∷ [])).version
    < (recover_from memory_store "s" none (("s", first ∷ first ∷ []) ∷ [])).0.version
unfolding Memory.list_of Memory.events_of lookup mem stable_sort_events event_leb str_leb
recover_counts_repeats_example =
    recover_counts_repeats memory_store digest memory_store-IsEventStore 20 "s"
      (("s", first ∷ first ∷ []) ∷ []) (first ∷ []) [] first refl refl

build_snapshot_loses_late_event_example :
    (snap : Snapshot) × (build_snapshot sqlite_store digest 30 "s"
        (some (snapshot_of (second ∷ third ∷ [])))
        (table_of (second ∷ third ∷ first ∷ []))
      ≡ ok snap)
    × (snap.version ≡ 2)
    × (snap.data_of ≡ (snapshot_of (second ∷ third ∷ [])).data_of)
    × (contains "a" snap.data_of ≡ false)
    × ((build_snapshot_full sqlite_store digest 30 "s"
          (table_of (second ∷ third ∷ first ∷ []))).version
        ≡ snap.version + 1)
unfolding list_of stable_sort_events select_session event_leb mem build_snapshot_full full_loop
    entries insert
build_snapshot_loses_late_event_example =
    build_snapshot_loses_late_event sqlite_store digest sqlite_store-IsEventStore "s"
      (table_of (second ∷ third ∷ first ∷ [])) first second (third ∷ []) refl
      (refl, (refl, (refl, tt))) 30 (snapshot_of (second ∷ third ∷ [])) refl refl
