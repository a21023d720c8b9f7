-- ===== src/V2/Ordering.antt =====
-- core/v2/event_ordering.py: the order of events by (ts, event_id), and the stable sort by it.
pub mod Laws
pub mod Unique
use demobot.Base.{Bool, true, false, List, [], ◌∷◌, ltb, ◌==◌, if◌then◌else◌, str_leb}
use demobot.V2.Model.{V2Event}

-- `_key(a) <= _key(b)` on the tuples (ts, event_id)
unfoldable pub event_leb : V2Event → V2Event → Bool
event_leb a b =
    if ltb a.ts b.ts then true else if a.ts == b.ts then str_leb a.event_id b.event_id else false

unfoldable pub insert_event : V2Event → List V2Event → List V2Event
insert_event x [] = x ∷ []
insert_event x (y ∷ ys) = if event_leb x y then x ∷ y ∷ ys else y ∷ insert_event x ys

-- `sorted(events, key=_key)`: equal keys keep their order.
unfoldable pub stable_sort_events : List V2Event → List V2Event
unfolding insert_event
stable_sort_events [] = []
stable_sort_events (x ∷ xs) = insert_event x (stable_sort_events xs)
