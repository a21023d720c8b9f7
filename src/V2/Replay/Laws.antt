-- ===== src/V2/Replay/Laws.antt =====
-- Replaying events keeps the first payload of each id, in whatever order the events arrived.
use demobot.V2.Ordering.{stable_sort_events}
use demobot.V2.Ordering.Unique.{mem-perm, stable_sort_events-perm, stable_sort_events-perm_self}
use mathlib.Core.List.{Permᴰ}
use demobot.V2.Replay.{replay_into, replay_events}
use demobot.Json.{Json}
use demobot.V2.Model.{V2Event, IsDistinct, ids}
use demobot.Base.{
  Bool-cases, Dict, List, [], append-nil, append_assoc, contains, contains-eq-mem-keys, inl, inr,
  insert_new, keys, ◌++◌, ◌∙◌, ◌∷◌, ◌≡◌, String, ap, keys_snoc, mem, sym, Option, arith, eq_iff,
  if◌then◌else◌, insert, lookup, lookup-insert, lookup-none_of_contains, lookup-some_of_contains,
  none, some, str_eq,
}
use demobot.V2.Fresh.{
  entries, fresh, fresh_new, fresh_nil, fresh_seen, entries_cons, entries_nil, keys-entries,
  mem-fresh_nil,
}

pub replay_into-eq-append :
    (d : Dict Json) (es : List V2Event) → replay_into d es ≡ d ++ entries (fresh (keys d) es)
unfolding replay_into
replay_into-eq-append d [] = simp (fresh_nil, entries_nil, append-nil)
replay_into-eq-append d (e ∷ es) = elim (Bool-cases (contains e.event_id d)) [
  | inl h ↦
      rw (h, fresh_seen (keys d) e es (rw (← contains-eq-mem-keys e.event_id d) h))
        (replay_into-eq-append d es)
  | inr h ↦
      let d' = d ++ ((e.event_id, e.payload) ∷ []) in
      let new = fresh_new (keys d) e es (rw (← contains-eq-mem-keys e.event_id d) h) in
      let known : keys d' ≡ keys d ++ (e.event_id ∷ []) = keys_snoc e.event_id e.payload d in
      rw (h, new, insert_new e.event_id e.payload d h)
        (replay_into-eq-append d' es ∙ rw known (append_assoc d _ _ ∙ rw entries_cons))
]

-- The replayed dict does not depend on the order in which events with distinct ids arrived.
pub replay_events-perm :
    {xs ys : List V2Event} → Permᴰ xs ys → IsDistinct xs → replay_events xs ≡ replay_events ys
unfolding replay_events
replay_events-perm p d = ap (replay_into []) (stable_sort_events-perm p d)

pub replay_into_nil : (es : List V2Event) → replay_into [] es ≡ entries (fresh [] es)
unfolding keys
replay_into_nil es = replay_into-eq-append [] es

-- An id is in the replayed dict exactly when some event has it.
pub contains-replay_events :
    (k : String) (es : List V2Event) → contains k (replay_events es) ≡ mem k (ids es)
unfolding replay_events
contains-replay_events k es =
    let s = stable_sort_events es in
    rw (replay_into_nil s, contains-eq-mem-keys k (entries (fresh [] s)), keys-entries)
      (mem-fresh_nil k s ∙ sym (mem-perm k (stable_sort_events-perm_self es)))

-- the payload of the first event with an id
pub first_payload : String → List V2Event → Option Json
first_payload k [] = none
first_payload k (e ∷ es) = if str_eq e.event_id k then some e.payload else first_payload k es

lookup-replay_into :
    (k : String) (d : Dict Json) (es : List V2Event)
    → lookup k (replay_into d es)
      ≡ elim (lookup k d) [ none ↦ first_payload k es | some v ↦ some v ]
unfolding replay_into first_payload
lookup-replay_into k d [] = ground arith
lookup-replay_into k d (e ∷ es) = elim (Bool-cases (contains e.event_id d)) [
  | inl h ↦ rw h (
      ground (
        arith,
        lookup-replay_into k d es,
        lookup-some_of_contains e.event_id d h,
        eq_iff e.event_id k,
      ))
  | inr h ↦ rw h (
      ground (
        arith,
        lookup-replay_into k (insert e.event_id e.payload d) es,
        lookup-insert e.event_id k e.payload d,
        lookup-none_of_contains e.event_id d h,
        eq_iff e.event_id k,
      ))
]

-- Each id keeps the payload of the event that comes first in the order (ts, event_id); ids without
-- an event have none.
pub lookup-replay_events :
    (k : String) (es : List V2Event)
    → lookup k (replay_events es) ≡ first_payload k (stable_sort_events es)
unfolding replay_events lookup
lookup-replay_events k es = lookup-replay_into k [] (stable_sort_events es)
