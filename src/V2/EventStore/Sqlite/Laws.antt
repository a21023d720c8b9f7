-- ===== src/V2/EventStore/Sqlite/Laws.antt =====
-- The SQLite store satisfies the laws of a store, and lists no event id twice.
use demobot.V2.EventStore.Sqlite.Appending.{find_row-append}
use demobot.V2.EventStore.Tail.{tail_loop-eq-drop}
use demobot.V2.Fresh.{fresh}
use demobot.V2.Ordering.Laws.{
  stable_sort_events-IsSorted, stable_sort_events-append, stable_sort_events_of_IsSorted, ◌≼◌,
}
use text.Mathlib.TextPositions.{eq_refl}
use demobot.V2.EventStore.Sqlite.{
  IsKeyed, Table, append, find_row, has_key, list_after_version, list_of, on_integrity_error,
  row_of, select_session, sqlite_store,
}
use demobot.V2.Model.{IsDistinct, V2Event, ids}
use demobot.V2.EventStore.{IsEventStore, stored}
use demobot.V2.Ordering.Unique.{
  All-of_stable_sort_events, IsDistinct-perm, mem-perm, stable_sort_events-perm_self, length-perm,
}
use demobot.Base.{
  All, All-map, Bool-cases, String, [], append-nil, arith, drop, eq_iff, false, if◌then◌else◌, inl,
  inr, mem, none, refl, some, str_eq, sym, true, ℕ, ◌++◌, ◌-◌, ◌∙◌, ◌∷◌, ◌≡◌, ◌≢◌, length,
  length-append, ◌&&◌, ◌+◌, ◌||◌, ◌↔◌,
}

pub select_session-append :
    (sid : String) (t u : Table)
    → select_session sid (t ++ u) ≡ select_session sid t ++ select_session sid u
unfolding select_session
select_session-append sid [] u = refl
select_session-append sid (r ∷ t) u = ground (arith, select_session-append sid t u)

select_session_row :
    (sid : String) (now : ℕ) (e : V2Event)
    → select_session sid (row_of now e ∷ []) ≡ (if str_eq e.session_id sid then e ∷ [] else [])
unfolding select_session
select_session_row sid now e = refl

list_after :
    (sid : String) (v : ℕ) (t : Table)
    → list_after_version sid v t ≡ drop v (fresh [] (list_of sid t))
unfolding list_after_version list_of
list_after sid v t =
    let s =
      stable_sort_events_of_IsSorted (list_of sid t)
        (stable_sort_events-IsSorted (select_session sid t)) in
    let z : v - 0 ≡ v = omega arith in rw s (tail_loop-eq-drop v [] 0 (list_of sid t) ∙ rw z)

append_stored :
    (now : ℕ) (e : V2Event) (t : Table)
    → (append now e t).0 ≡ stored
    → (append now e t).1 ≡ t ++ (row_of now e ∷ [])
unfolding append on_integrity_error
append_stored now e t h = ground arith

append_unstored :
    (now : ℕ) (e : V2Event) (t : Table) → (append now e t).0 ≢ stored → (append now e t).1 ≡ t
unfolding append
append_unstored now e t h = ground arith

append_last :
    (now : ℕ) (e : V2Event) (t : Table)
    → (append now e t).0 ≡ stored
    → All (λ x. x ≼ e) (list_of e.session_id t)
    → list_of e.session_id (append now e t).1 ≡ list_of e.session_id t ++ (e ∷ [])
unfolding list_of
append_last now e t h below =
    let es = select_session e.session_id t in
    let precedes =
      All-map {Q = λ x. All (◌≼◌ x) (e ∷ [])} es (λ x k. (k, tt))
        (All-of_stable_sort_events (λ x. x ≼ e) es below) in
    rw (
      append_stored now e t h,
      select_session-append e.session_id t (row_of now e ∷ []),
      select_session_row e.session_id now e,
      eq_refl e.session_id,
      stable_sort_events-append es (e ∷ []) precedes,
      stable_sort_events_of_IsSorted (e ∷ []) (tt, tt),
    )

append_other :
    (now : ℕ) (e : V2Event) (t : Table) (sid : String)
    → e.session_id ≢ sid
    → list_of sid (append now e t).1 ≡ list_of sid t
unfolding list_of append
append_other now e t sid ne = ground (
  arith,
  select_session-append sid t (row_of now e ∷ []),
  select_session_row sid now e,
  eq_iff e.session_id sid,
  append-nil (select_session sid t),
)

-- The SQLite store satisfies the laws of a store.
pub sqlite_store-IsEventStore : IsEventStore sqlite_store
unfolding list_of
sqlite_store-IsEventStore = record {
  list-IsSorted = λ sid t. stable_sort_events-IsSorted (select_session sid t);
  list_after = list_after;
  append_last = append_last;
  append_other = append_other;
  append_unstored = append_unstored;
}

pub mem-select_session :
    (sid eid : String) (t : Table)
    → mem eid (ids (select_session sid t))
      ≡ elim (find_row sid eid t) [ none ↦ false | some _ ↦ true ]
unfolding select_session find_row has_key mem
mem-select_session sid eid [] = refl
mem-select_session sid eid (r ∷ t) = ground (arith, mem-select_session sid eid t)

select_session-IsDistinct :
    (sid : String) (t : Table) → IsKeyed t → IsDistinct (select_session sid t)
unfolding select_session
select_session-IsDistinct sid [] k = tt
select_session-IsDistinct sid (r ∷ t) (k, ks) = elim (Bool-cases (str_eq r.session_id sid)) [
  | inl h ↦ rw h (
    ground (arith, eq_iff r.session_id sid, mem-select_session r.session_id r.event_id t),
    select_session-IsDistinct sid t ks,
  )
  | inr h ↦ rw h (select_session-IsDistinct sid t ks)
]

-- While keys are unique, no session lists an event id twice.
pub list_of-IsDistinct : (sid : String) (t : Table) → IsKeyed t → IsDistinct (list_of sid t)
unfolding list_of
list_of-IsDistinct sid t k =
    IsDistinct-perm (stable_sort_events-perm_self (select_session sid t))
      (select_session-IsDistinct sid t k)

-- The table holds a row for an event id of a session exactly when the session lists the id.
pub mem-list_of :
    (sid eid : String) (t : Table)
    → mem eid (ids (list_of sid t)) ≡ elim (find_row sid eid t) [ none ↦ false | some _ ↦ true ]
unfolding list_of
mem-list_of sid eid t =
    sym (mem-perm eid (stable_sort_events-perm_self (select_session sid t)))
    ∙ mem-select_session sid eid t

-- A stored event is one more event of its session, and of no other.
pub length-list_of-append :
    (now : ℕ) (e : V2Event) (t : Table) (sid : String)
    → (append now e t).0 ≡ stored
    → length (list_of sid (append now e t).1)
      ≡ (if str_eq e.session_id sid then length (list_of sid t) + 1 else length (list_of sid t))
unfolding list_of
length-list_of-append now e t sid h =
    let sorted = λ (u : Table). length-perm (stable_sort_events-perm_self (select_session sid u)) in
    rw
      (
        append_stored now e t h,
        ← sorted (t ++ (row_of now e ∷ [])),
        ← sorted t,
        select_session-append sid t (row_of now e ∷ []),
        select_session_row sid now e,
      )
      (ground
        (arith, length-append (select_session sid t) (e ∷ []), append-nil (select_session sid t)))

pub mem-list_of-append :
    (now : ℕ) (e : V2Event) (t : Table) (sid k : String)
    → (append now e t).0 ≡ stored
    → mem k (ids (list_of sid (append now e t).1))
      ≡ (mem k (ids (list_of sid t)) || (str_eq e.session_id sid && str_eq e.event_id k))
unfolding find_row has_key
mem-list_of-append now e t sid k h = ground (
  arith,
  append_stored now e t h,
  mem-list_of sid k (append now e t).1,
  mem-list_of sid k t,
  find_row-append sid k t (row_of now e ∷ []),
)

-- An append stores the event exactly when its session does not list its id.
pub append_stored_iff :
    (now : ℕ) (e : V2Event) (t : Table)
    → ((append now e t).0 ≡ stored) ↔ (mem e.event_id (ids (list_of e.session_id t)) ≡ false)
unfolding append on_integrity_error
append_stored_iff now e t = (
  ground (arith, mem-list_of e.session_id e.event_id t),
  ground (arith, mem-list_of e.session_id e.event_id t),
)
