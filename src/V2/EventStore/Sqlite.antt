-- ===== src/V2/EventStore/Sqlite.antt =====
-- core/v2/event_store_sqlite.py and the `events` table of core/v2/sqlite_schema.py. A table is its
-- rows in order of insertion; PRIMARY KEY (session_id, event_id) refuses a second row with one key. The
-- `payload_json` of a row is text, by json.dumps with sorted keys; the row here holds the value, so that
-- a payload is read back with its keys in their own order, where the source has them sorted.
pub mod Laws
pub mod Appending
use demobot.V2.EventStore.Tail.{tail_loop}
use demobot.V2.Ordering.{stable_sort_events}
use demobot.V2.Model.{EventConflict, V2Event}
use demobot.Base.{
  Bool, List, Option, String, [], if◌then◌else◌, none, some, str_eq, ℕ, ◌&&◌, ◌++◌, ◌∷◌, ◌≡◌,
}
use demobot.V2.EventStore.{Append, EventStore, duplicate, refused, stored}
use demobot.Json.{Json}

pub record Row : Type 0 where
  pub session_id : String
  pub event_id : String
  pub ts : ℕ
  pub type : String
  pub payload : Json
  pub payload_hash : String
  pub inserted_at : ℕ

abbrev pub Table : Type 0
Table = List Row

unfoldable pub has_key : String → String → Row → Bool
has_key sid eid r = str_eq r.session_id sid && str_eq r.event_id eid

-- `SELECT type, payload_hash FROM events WHERE session_id = ? AND event_id = ?`
unfoldable pub find_row : String → String → Table → Option Row
find_row sid eid [] = none
find_row sid eid (r ∷ t) = if has_key sid eid r then some r else find_row sid eid t

abbrev pub row_of : ℕ → V2Event → Row
row_of now e = record {
  session_id = e.session_id;
  event_id = e.event_id;
  ts = e.ts;
  type = e.type;
  payload = e.payload;
  payload_hash = e.payload_hash;
  inserted_at = now;
}

abbrev pub event_of : Row → V2Event
event_of r = record {
  event_id = r.event_id;
  session_id = r.session_id;
  ts = r.ts;
  type = r.type;
  payload = r.payload;
  payload_hash = r.payload_hash;
}

abbrev pub conflict_of : Row → V2Event → EventConflict
conflict_of r e = record {
  session_id = e.session_id;
  event_id = e.event_id;
  existing_type = r.type;
  incoming_type = e.type;
  existing_hash = r.payload_hash;
  incoming_hash = e.payload_hash;
}

-- The `except sqlite3.IntegrityError` branch, at the row that was there first.
unfoldable pub on_integrity_error : Row → V2Event → Append
on_integrity_error r e =
    if str_eq r.payload_hash e.payload_hash && str_eq r.type e.type
    then duplicate
    else refused (conflict_of r e)

-- `True` is `stored`, `False` is `duplicate`.
unfoldable pub append : ℕ → V2Event → Table → Append × Table
unfolding on_integrity_error find_row
append now e t = elim (find_row e.session_id e.event_id t) [
  | none ↦ (stored, t ++ (row_of now e ∷ []))
  | some r ↦ (on_integrity_error r e, t)
]

-- `WHERE session_id = ?`
unfoldable pub select_session : String → Table → List V2Event
select_session sid [] = []
select_session sid (r ∷ t) =
    if str_eq r.session_id sid then event_of r ∷ select_session sid t else select_session sid t

-- `ORDER BY ts, event_id`
unfoldable pub list_of : String → Table → List V2Event
list_of sid t = stable_sort_events (select_session sid t)

unfoldable pub list_after_version : String → ℕ → Table → List V2Event
list_after_version sid after t = tail_loop after [] 0 (stable_sort_events (list_of sid t))

abbrev pub sqlite_store : EventStore Table
sqlite_store = record {
  append = append;
  list_of = list_of;
  list_after_version = list_after_version;
}

-- No two rows share the key: what PRIMARY KEY (session_id, event_id) keeps true.
abbrev pub IsKeyed : Table → Type 0
IsKeyed [] = Unit
IsKeyed (r ∷ t) = (find_row r.session_id r.event_id t ≡ none) × IsKeyed t
