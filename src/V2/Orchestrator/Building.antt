-- ===== src/V2/Orchestrator/Building.antt =====
-- core/v2/orchestrator.py: how snapshots are built from the events of a store. `hash_snapshot` is
-- SHA-256 over canonical JSON, and `now` the clock's reading.
use demobot.V2.Ordering.{stable_sort_events}
use demobot.Json.{Json}
use demobot.V2.Replay.{replay_into}
use demobot.V2.Model.{EventConflict, Snapshot, V2Event}
use demobot.V2.EventStore.{EventStore}
use demobot.Base.{
  Dict, List, Option, String, [], add, false, if◌then◌else◌, insert, keys, length, ltb, mem, none,
  some, true, ℕ, ◌&&◌, ◌++◌, ◌+◌, ◌==◌, ◌∷◌,
}

-- What a call of the orchestrator raises: `EventConflictError` of the store, the `ValueError` of
-- `build_snapshot`, and the `ZeroDivisionError` of a policy with `n = 0`.
pub data Fault : Type 0 where
  conflict : EventConflict → Fault
  snapshot_ahead : ℕ → ℕ → Fault
  zero_division : Fault

pub data Result (A : Type 0) : Type 0 where
  ok : A → Result A
  err : Fault → Result A

-- The loop of `_build_snapshot_full`, over its variables `data`, `seen` and `version`.
unfoldable pub full_loop : Dict Json → List String → ℕ → List V2Event → Dict Json × ℕ
full_loop d seen version [] = (d, version)
full_loop d seen version (e ∷ es) =
    let skipped = full_loop d seen version es in
    let taken =
      full_loop (insert e.event_id e.payload d) (seen ++ (e.event_id ∷ [])) (version + 1) es in
    elim (mem e.event_id seen) [ true ↦ skipped | false ↦ taken ]

-- The version loop of `_build_snapshot_delta`.
unfoldable pub version_loop : List String → ℕ → List V2Event → ℕ
version_loop seen version [] = version
version_loop seen version (e ∷ es) =
    let skipped = version_loop seen version es in
    let taken = version_loop (seen ++ (e.event_id ∷ [])) (version + 1) es in
    elim (mem e.event_id seen) [ true ↦ skipped | false ↦ taken ]

-- `{e.event_id for e in all_events}`
unfoldable pub id_set : List String → List V2Event → List String
id_set seen [] = seen
id_set seen (e ∷ es) = id_set (add e.event_id seen) es

module _ {S : Type 0} (store : EventStore S) (hash_snapshot : Dict Json → String) where
  unfoldable pub build_snapshot_full : ℕ → String → S → Snapshot
  build_snapshot_full now sid s =
      let (d, version) = full_loop [] [] 0 (stable_sort_events (store.list_of sid s)) in
      record {
        session_id = sid;
        version = version;
        created_at = now;
        state_hash = hash_snapshot d;
        data_of = d;
      }

  -- `_replay_events_into_data` sorts the tail once more.
  unfoldable pub build_snapshot_delta : ℕ → String → Snapshot → S → Snapshot
  build_snapshot_delta now sid base s =
      let tail_events = store.list_after_version sid base.version s in
      let d = replay_into base.data_of (stable_sort_events tail_events) in
      record {
        session_id = sid;
        version = version_loop (keys base.data_of) base.version (stable_sort_events tail_events);
        created_at = now;
        state_hash = hash_snapshot d;
        data_of = d;
      }

  -- `build_snapshot`, given `snapshot_store.latest(session_id)`
  unfoldable pub build_snapshot : ℕ → String → Option Snapshot → S → Result Snapshot
  unfolding build_snapshot_full build_snapshot_delta
  build_snapshot now sid none s = ok (build_snapshot_full now sid s)
  build_snapshot now sid (some base) s =
      let all_events = store.list_of sid s in
      let max_seq = length (id_set [] all_events) in
      if ltb 0 (length all_events) && base.version == max_seq
      then ok base
      else if ltb 0 (length all_events) && ltb max_seq base.version
      then err (snapshot_ahead base.version max_seq)
      else ok (build_snapshot_delta now sid base s)
