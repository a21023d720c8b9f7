-- ===== src/Api/Service.antt =====
-- api/v2/service_sqlite.py, `V2ServiceSqlite`, and core/v2/session_store_sqlite.py: sessions, and the
-- orchestrator over the SQLite stores. The snapshot store of the service is that of its orchestrator.
pub mod Laws
use demobot.Json.{Json, null}
use demobot.V2.Orchestrator.Runtime.{Runtime, build, ingest_event, recover}
use demobot.Base.{
  Bool, Dict, List, Option, String, [], add, contains, false, if◌then◌else◌, insert, keys, lookup,
  map, none, not, some, str_eq, true, ℕ, ◌∷◌,
}
use demobot.V2.Orchestrator.Recovery.{sort_ids}
use demobot.V2.Model.{SessionState, Snapshot, V2Event}
use demobot.V2.EventStore.Sqlite.{append, sqlite_store}
use demobot.V2.EventStore.Sqlite as Events
use demobot.V2.SnapshotStore.Sqlite as Snapshots
use demobot.V2.SnapshotStore.Sqlite.{sqlite_snapshots, put}
use demobot.V2.EventStore.{refused, stored}
use mathlib.Core.Option
use demobot.V2.Orchestrator.Building.{conflict, Fault, Result, err, ok}

-- What a call raises: a 404 for the session, an answer of the market-data check, the `ValueError`
-- MISSING_EVENT_TS, or what the orchestrator and its store raise.
pub data ServiceFault : Type 0 where
  session_not_found : ServiceFault
  market_data : String → ServiceFault
  missing_event_ts : ServiceFault
  runtime : Fault → ServiceFault

pub data Reply (A : Type 0) : Type 0 where
  answer : A → Reply A
  raised : ServiceFault → Reply A

pub record Service : Type 0 where
  -- `session_store`: when each session was created
  pub session_store : Dict ℕ
  pub orchestrator : Runtime Events.Table Snapshots.Table
  pub sessions : List String
  pub seen_event_ids : Dict (List String)

-- `__init__`, over the rows that the database file holds
unfoldable pub open_service : Dict ℕ → Events.Table → Snapshots.Table → Service
open_service rows events snapshots = record {
  session_store = rows;
  orchestrator = record {
    store = events;
    snapshot_store = some snapshots;
    snapshot_policy = some 3;
    session_states = [];
    applied_log = [];
  };
  sessions = [];
  seen_event_ids = [];
}

-- `SqliteSessionStore.create`: `ON CONFLICT(session_id) DO NOTHING`
unfoldable pub create : String → ℕ → Dict ℕ → Dict ℕ
create sid now rows = if contains sid rows then rows else insert sid now rows

-- `create_session`, given what `uuid4` yields
unfoldable pub create_session : String → ℕ → Service → String × Service
unfolding create
create_session sid now s = (
  sid,
  record s {
    session_store = create sid now s.session_store;
    sessions = add sid s.sessions;
    seen_event_ids = insert sid [] s.seen_event_ids;
  },
)

-- `event_id or uuid.uuid4().hex`
abbrev pub event_id_or : Option String → String → String
event_id_or none uuid = uuid
event_id_or (some eid) uuid = if str_eq eid "" then uuid else eid

-- `self._seen_event_ids.setdefault(session_id, set())`
abbrev pub seen_of : String → Dict (List String) → List String
seen_of sid d = elim (lookup sid d) [ none ↦ [] | some seen ↦ seen ]

-- The service after the orchestrator's call, and the pair that it returns.
abbrev pub finish :
    Bool
    → Result SessionState × Runtime Events.Table Snapshots.Table
    → Service
    → Reply (ℕ × Bool) × Service
finish applied (ok st, rt) s = (answer (st.version, applied), record s { orchestrator = rt })
finish applied (err f, rt) s = (raised (runtime f), record s { orchestrator = rt })

-- `self.snapshot_store.save(snap)`, once the snapshot is built
abbrev pub saved : Result Snapshot → Service → Reply Snapshot × Service
saved (err f) s = (raised (runtime f), s)
saved (ok snap) s = (
  answer snap,
  record s {
    orchestrator = record s.orchestrator {
      snapshot_store = Option.map (put snap) s.orchestrator.snapshot_store;
    };
  },
)

-- `getattr(state, "data")`, where `hasattr(state, "data")`. The dataclass has the fields `session_id`,
-- `version` and `applied`, and nothing sets another attribute.
abbrev data_attribute : SessionState → Option (Dict Json)
data_attribute state = none

module _ (hash_payload : Json → String) (hash_snapshot : Dict Json → String)
    (check_market : String → Json → Option String) where
  -- The call behind the checks: the event is appended here, and again by the orchestrator.
  unfoldable pub ingest_checked : ℕ → ℕ → ℕ → V2Event → Service → Reply (ℕ × Bool) × Service
  ingest_checked now₁ now₂ later e s =
      let seen = seen_of e.session_id s.seen_event_ids in
      let (outcome, table) = append now₁ e s.orchestrator.store in
      let rt = record s.orchestrator { store = table } in
      elim outcome [
        | refused c ↦ (
          raised (runtime (conflict c)),
          record s {
            orchestrator = rt;
            seen_event_ids = insert e.session_id seen s.seen_event_ids;
          },
        )
        | stored ↦
            finish true (ingest_event sqlite_store sqlite_snapshots hash_snapshot now₂ later e rt)
              (record s {
                seen_event_ids = insert e.session_id (add e.event_id seen) s.seen_event_ids;
              })
        | _ ↦
            finish false (ingest_event sqlite_store sqlite_snapshots hash_snapshot now₂ later e rt)
              (record s {
                seen_event_ids = insert e.session_id (add e.event_id seen) s.seen_event_ids;
              })
      ]

  -- `V2ServiceSqlite.ingest_event`; `check_market` is what the artifact store and the market
  -- requirements say about the payload of a COMPUTE_REQUESTED event.
  unfoldable pub ingest :
      ℕ
      → ℕ
      → ℕ
      → String
      → String
      → Option String
      → Option ℕ
      → String
      → Json
      → Service
      → Reply (ℕ × Bool) × Service
  unfolding ingest_checked
  ingest now₁ now₂ later uuid sid event_id ts type payload s =
      if not (contains sid s.session_store)
      then (raised session_not_found, s)
      else elim (check_market type payload) [
        | some m ↦ (raised (market_data m), s)
        | none ↦ elim ts [
          | none ↦ (raised missing_event_ts, s)
          | some t ↦
              ingest_checked now₁ now₂ later
                (record {
                  event_id = event_id_or event_id uuid;
                  session_id = sid;
                  ts = t;
                  type = type;
                  payload = payload;
                  payload_hash = hash_payload payload;
                })
                s
        ]
      ]

  -- `create_snapshot`
  unfoldable pub create_snapshot : ℕ → String → Service → Reply Snapshot × Service
  create_snapshot now sid s =
      if not (contains sid s.session_store)
      then (raised session_not_found, s)
      else saved (build sqlite_store sqlite_snapshots hash_snapshot now sid s.orchestrator) s

  -- `state.data[eid] if hasattr(state, "data") and eid in getattr(state, "data", {}) else None`, of each id
  unfoldable read_data : SessionState → List String → Dict Json
  read_data state [] = []
  read_data state (eid ∷ eids) =
      let found = Option.bind (data_attribute state) (λ held. lookup eid held) in
      (eid, elim found [ none ↦ null | some v ↦ v ]) ∷ read_data state eids

  -- `get_snapshot`
  unfoldable pub get_snapshot : ℕ → String → Service → Reply Snapshot × Service
  unfolding read_data
  get_snapshot now sid s =
      if not (contains sid s.session_store)
      then (raised session_not_found, s)
      else let (st, rt) = recover sqlite_store sqlite_snapshots hash_snapshot sid s.orchestrator in
        let d = read_data st (sort_ids (keys st.applied)) in
        (
          answer (record {
            session_id = sid;
            version = st.version;
            created_at = now;
            state_hash = hash_snapshot d;
            data_of = d;
          }),
          record s { orchestrator = rt },
        )
