-- ===== src/V2/Model.antt =====
-- core/v2/models.py and errors.py: the records of the runtime. A `datetime` is a number of
-- microseconds; `type` is the text of the `EventType` literal.
use demobot.Base.{ℕ, String, Dict, List, ◌∷◌, [], ◌≡◌, false, mem}
use demobot.Json.{Json}

pub record V2Event : Type 0 where
  pub event_id : String
  pub session_id : String
  pub ts : ℕ
  pub type : String
  pub payload : Json
  pub payload_hash : String

pub record AppliedEvent : Type 0 where
  pub event : V2Event
  pub state_version : ℕ
  pub applied_at : ℕ

pub record SessionState : Type 0 where
  pub session_id : String
  pub version : ℕ
  pub applied : Dict ℕ

pub record Snapshot : Type 0 where
  pub session_id : String
  pub version : ℕ
  pub created_at : ℕ
  pub state_hash : String
  pub data_of : Dict Json

-- `EventConflictError`
pub record EventConflict : Type 0 where
  pub session_id : String
  pub event_id : String
  pub existing_type : String
  pub incoming_type : String
  pub existing_hash : String
  pub incoming_hash : String

-- The ids of a sequence of events, in order.
abbrev pub ids : List V2Event → List String
ids [] = []
ids (e ∷ es) = e.event_id ∷ ids es

-- No two events share an id.
abbrev pub IsDistinct : List V2Event → Type 0
IsDistinct [] = Unit
IsDistinct (e ∷ es) = (mem e.event_id (ids es) ≡ false) × IsDistinct es
