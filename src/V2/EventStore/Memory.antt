-- ===== src/V2/EventStore/Memory.antt =====
-- core/v2/event_store.py, `InMemoryEventStore`: a list of events for each session, duplicates kept.
use demobot.V2.Fresh.{fresh}
use demobot.V2.Ordering.Laws.{
  Precedes, stable_sort_events-IsSorted, stable_sort_events-append, stable_sort_events_of_IsSorted,
  ◌≼◌,
}
use text.Mathlib.TextPositions.{eq_refl}
use demobot.V2.Ordering.Unique.{All-of_stable_sort_events}
use demobot.Base.{
  drop, ◌-◌, ◌∙◌, ℕ, ◌≡◌, List, [], ◌∷◌, ◌++◌, arith, String, Dict, none, some, lookup, insert,
  lookup-insert, str_eq, if◌then◌else◌, All, All-map, eq_iff, refl, ◌≢◌,
}
use demobot.V2.Model.{V2Event}
use demobot.V2.Ordering.{stable_sort_events}
use demobot.V2.EventStore.{stored, EventStore, IsEventStore}
use demobot.V2.EventStore.Tail.{tail_loop, tail_loop-eq-drop}

-- `self._events`
abbrev pub Memory : Type 0
Memory = Dict (List V2Event)

-- `self._events.get(session_id, [])`
unfoldable pub events_of : String → Memory → List V2Event
events_of sid m = elim (lookup sid m) [ none ↦ [] | some es ↦ es ]

unfoldable pub append : V2Event → Memory → Memory
append e m = insert e.session_id (events_of e.session_id m ++ (e ∷ [])) m

unfoldable pub list_of : String → Memory → List V2Event
list_of sid m = stable_sort_events (events_of sid m)

unfoldable pub list_after_version : String → ℕ → Memory → List V2Event
list_after_version sid after m = tail_loop after [] 0 (stable_sort_events (list_of sid m))

pub events_of-append :
    (e : V2Event) (m : Memory) (sid : String)
    → events_of sid (append e m)
      ≡ (if str_eq e.session_id sid then events_of e.session_id m ++ (e ∷ []) else events_of sid m)
unfolding events_of append
events_of-append e m sid =
    ground (arith, lookup-insert e.session_id sid (events_of e.session_id m ++ (e ∷ [])) m)

-- The store as the orchestrator sees it: `append` always keeps the event.
abbrev pub memory_store : EventStore Memory
memory_store = record {
  append = λ now e m. (stored, append e m);
  list_of = list_of;
  list_after_version = list_after_version;
}

list_after :
    (sid : String) (v : ℕ) (m : Memory)
    → list_after_version sid v m ≡ drop v (fresh [] (list_of sid m))
unfolding list_after_version list_of
list_after sid v m =
    let s =
      stable_sort_events_of_IsSorted (list_of sid m)
        (stable_sort_events-IsSorted (events_of sid m)) in
    let z : v - 0 ≡ v = omega arith in rw (s) (tail_loop-eq-drop v [] 0 (list_of sid m) ∙ rw z)

Precedes-last : (e : V2Event) (es : List V2Event) → All (λ x. x ≼ e) es → Precedes es (e ∷ [])
Precedes-last e es h = All-map es (λ x k. (k, tt)) h

append_last :
    (e : V2Event) (m : Memory)
    → All (λ x. x ≼ e) (list_of e.session_id m)
    → list_of e.session_id (append e m) ≡ list_of e.session_id m ++ (e ∷ [])
unfolding list_of
append_last e m h =
    let es = events_of e.session_id m in
    let below = Precedes-last e es (All-of_stable_sort_events (λ x. x ≼ e) es h) in
    rw (events_of-append e m e.session_id, eq_refl e.session_id)
      (stable_sort_events-append es (e ∷ []) below ∙ one)
  where
    one :
        stable_sort_events (events_of e.session_id m) ++ stable_sort_events (e ∷ [])
        ≡ stable_sort_events (events_of e.session_id m) ++ (e ∷ [])
    one = rw (stable_sort_events_of_IsSorted (e ∷ []) (tt, tt))

append_other :
    (e : V2Event) (m : Memory) (sid : String)
    → e.session_id ≢ sid
    → list_of sid (append e m) ≡ list_of sid m
unfolding list_of
append_other e m sid ne = ground (arith, events_of-append e m sid, eq_iff e.session_id sid)

-- The in-memory store satisfies the laws of a store.
pub memory_store-IsEventStore : IsEventStore memory_store
unfolding list_of
memory_store-IsEventStore = record {
  list-IsSorted = λ sid m. stable_sort_events-IsSorted (events_of sid m);
  list_after = list_after;
  append_last = λ now e m _ h. append_last e m h;
  append_other = λ now e m sid ne. append_other e m sid ne;
  append_unstored = λ now e m ne. absurd (ne refl);
}
