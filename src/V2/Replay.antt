-- ===== src/V2/Replay.antt =====
-- core/v2/replay.py: the dict of payloads by event id.
pub mod Laws
use demobot.V2.Ordering.{stable_sort_events}
use demobot.Json.{Json}
use demobot.Base.{Dict, List, String, [], contains, if◌then◌else◌, insert, leb, ◌∷◌}
use demobot.V2.Model.{AppliedEvent, Snapshot, V2Event}

-- `if e.event_id not in data: data[e.event_id] = e.payload`, for each event
unfoldable pub replay_into : Dict Json → List V2Event → Dict Json
replay_into d [] = d
replay_into d (e ∷ es) =
    replay_into (if contains e.event_id d then d else insert e.event_id e.payload d) es

unfoldable pub replay_events : List V2Event → Dict Json
replay_events es = replay_into [] (stable_sort_events es)

-- `sorted(applied, key=lambda ae: ae.state_version)`, a stable sort
unfoldable pub insert_applied : AppliedEvent → List AppliedEvent → List AppliedEvent
insert_applied x [] = x ∷ []
insert_applied x (y ∷ ys) =
    if leb x.state_version y.state_version then x ∷ y ∷ ys else y ∷ insert_applied x ys

unfoldable pub sort_applied : List AppliedEvent → List AppliedEvent
unfolding insert_applied
sort_applied [] = []
sort_applied (x ∷ xs) = insert_applied x (sort_applied xs)

unfoldable pub events_of : List AppliedEvent → List V2Event
events_of [] = []
events_of (a ∷ rest) = a.event ∷ events_of rest

unfoldable pub replay_applied : List AppliedEvent → Dict Json
replay_applied applied = replay_into [] (events_of (sort_applied applied))

unfoldable pub replay_from_snapshot : Snapshot → List AppliedEvent → Dict Json
replay_from_snapshot snap tail = replay_into snap.data_of (events_of (sort_applied tail))

-- `hash_snapshot` is SHA-256 over canonical JSON.
unfoldable pub replay_state_hash : (Dict Json → String) → List V2Event → String
replay_state_hash hash_snapshot es = hash_snapshot (replay_events es)
