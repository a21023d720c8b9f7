-- ===== src/V2/Orchestrator/Runtime.antt =====
-- core/v2/orchestrator.py: the state of a `V2RuntimeOrchestrator` and its methods.
use demobot.V2.SnapshotStore.{SnapshotStore}
use demobot.V2.EventStore.{EventStore, refused}
use demobot.V2.SnapshotPolicy.{should_snapshot}
use demobot.Json.{Json}
use demobot.V2.Model.{AppliedEvent, SessionState, Snapshot, V2Event}
use demobot.V2.Orchestrator.Recovery.{recover_from}
use demobot.V2.Orchestrator.Building.{Result, build_snapshot, conflict, err, ok, zero_division}
use demobot.Base.{
  Dict, List, Option, String, [], contains, if◌then◌else◌, insert, lookup, none, some, true, ℕ,
  ◌++◌, ◌+◌, ◌==◌, ◌∷◌,
}
use mathlib.Core.Option

pub record Runtime (S T : Type 0) : Type 0 where
  pub store : S
  pub snapshot_store : Option T
  -- the `n` of an `EveryNSnapshotPolicy`
  pub snapshot_policy : Option ℕ
  pub session_states : Dict SessionState
  pub applied_log : Dict (List AppliedEvent)

-- `SessionState(session_id=..., version=0, applied={})`
abbrev pub empty_state : String → SessionState
empty_state sid = record { session_id = sid; version = 0; applied = [] }

-- `self._session_states.get(session_id)`, or the empty state
unfoldable pub current_state : String → Dict SessionState → SessionState
current_state sid d = elim (lookup sid d) [ none ↦ empty_state sid | some st ↦ st ]

unfoldable pub log_of : String → Dict (List AppliedEvent) → List AppliedEvent
log_of sid d = elim (lookup sid d) [ none ↦ [] | some log ↦ log ]

-- `setdefault(session_id, [])`
unfoldable pub open_log : String → Dict (List AppliedEvent) → Dict (List AppliedEvent)
open_log sid d = if contains sid d then d else insert sid [] d

-- The state after the first application of an event.
unfoldable pub applied_state : V2Event → SessionState → SessionState
applied_state e st = record {
  session_id = e.session_id;
  version = st.version + 1;
  applied = insert e.event_id (st.version + 1) st.applied;
}

abbrev pub with_state :
    {S T : Type 0}
    → SessionState
    → Result (Unit {0}) × Runtime S T
    → Result SessionState × Runtime S T
with_state st (ok _, rt) = (ok st, rt)
with_state st (err f, rt) = (err f, rt)

module _ {S T : Type 0} (store : EventStore S) (snapshots : SnapshotStore T)
    (hash_snapshot : Dict Json → String) where
  -- `snapshot_store.latest(session_id)`, where there is a store
  unfoldable pub latest_snapshot : String → Option T → Option Snapshot
  latest_snapshot sid none = none
  latest_snapshot sid (some t) = snapshots.latest sid t

  -- `V2RuntimeOrchestrator.recover`
  unfoldable pub recover : String → Runtime S T → SessionState × Runtime S T
  recover sid rt =
      let (st, log) = recover_from store sid (latest_snapshot sid rt.snapshot_store) rt.store in
      (
        st,
        record rt {
          session_states = insert sid st rt.session_states;
          applied_log = insert sid log rt.applied_log;
        },
      )

  -- `V2RuntimeOrchestrator.replay(session_id, return_start_version=True)`
  unfoldable pub replay : String → Runtime S T → (ℕ × SessionState) × Runtime S T
  unfolding recover
  replay sid rt =
      let start : ℕ = elim (latest_snapshot sid rt.snapshot_store) [
        | none ↦ 0
        | some base ↦ base.version
      ] in
      let (st, rt') = recover sid rt in ((start, st), rt')

  -- `V2RuntimeOrchestrator.build_snapshot`
  unfoldable pub build : ℕ → String → Runtime S T → Result Snapshot
  build now sid rt =
      build_snapshot store hash_snapshot now sid (latest_snapshot sid rt.snapshot_store) rt.store

  -- The snapshot of `ingest_event`, when the policy has named the version that was applied.
  unfoldable pub save_built : Result Snapshot → T → Runtime S T → Result (Unit {0}) × Runtime S T
  save_built (ok snap) t rt = (ok tt, record rt { snapshot_store = some (snapshots.save snap t) })
  save_built (err f) t rt = (err f, rt)

  -- The part of `ingest_event` behind "Snapshot cadence policy integration".
  unfoldable pub follow_policy :
      ℕ → String → Option ℕ → ℕ → Runtime S T → Result (Unit {0}) × Runtime S T
  unfolding build
  follow_policy now sid last version rt = elim rt.snapshot_store [
    | none ↦ (ok tt, rt)
    | some t ↦ elim rt.snapshot_policy [
      | none ↦ (ok tt, rt)
      | some n ↦ elim (should_snapshot n last version) [
        | some (true, some target) ↦
            if target == version then save_built (build now sid rt) t rt else (ok tt, rt)
        | some _ ↦ (ok tt, rt)
        | none ↦ (err zero_division, rt)
      ]
    ]
  ]

  -- What `ingest_event` does once the store has taken the event or has known it.
  unfoldable pub apply_event :
      ℕ → V2Event → Option ℕ → SessionState → Runtime S T → Result SessionState × Runtime S T
  apply_event now e last st rt =
      if contains e.event_id st.applied
      then (ok st, record rt { session_states = insert e.session_id st rt.session_states })
      else let st' = applied_state e st in
        let entry : AppliedEvent = record {
          event = e;
          state_version = st.version + 1;
          applied_at = e.ts;
        } in
        let log = log_of e.session_id rt.applied_log ++ (entry ∷ []) in
        with_state st' (
          follow_policy now e.session_id last (st.version + 1) (record rt {
            session_states = insert e.session_id st' rt.session_states;
            applied_log = insert e.session_id log rt.applied_log;
          }))

  -- `V2RuntimeOrchestrator.ingest_event`: `now` is the time of the row, `later` that of a snapshot.
  unfoldable pub ingest_event : ℕ → ℕ → V2Event → Runtime S T → Result SessionState × Runtime S T
  unfolding apply_event
  ingest_event now later e rt =
      let st = current_state e.session_id rt.session_states in
      let last =
        Option.map (λ (s : Snapshot). s.version) (latest_snapshot e.session_id rt.snapshot_store) in
      let log = open_log e.session_id rt.applied_log in
      let (outcome, s) = store.append now e rt.store in
      elim outcome [
        | refused c ↦ (err (conflict c), record rt { store = s; applied_log = log })
        | _ ↦ apply_event later e last st (record rt { store = s; applied_log = log })
      ]
