-- ===== src/V2/Ordering/Laws.antt =====
-- The sort of core/v2/event_ordering.py: the order, sortedness, concatenation.
use demobot.Base.{
  ◌≡◌, refl, ap, true, false, List, [], ◌∷◌, ◌++◌, arith, All, All-map, str_leb_total,
  str_leb_trans, str_leb_antisymm, Bool-cases, inl, inr,
}
use demobot.V2.Model.{V2Event}
use demobot.V2.Ordering.{event_leb, insert_event, stable_sort_events}

infix 4 ◌≼◌
abbrev pub ◌≼◌ : V2Event → V2Event → Type 0
a ≼ b = event_leb a b ≡ true

pub event_leb_total : (a b : V2Event) → event_leb a b ≡ false → b ≼ a
unfolding event_leb
event_leb_total a b h = ground (arith, str_leb_total a.event_id b.event_id)

pub event_leb_trans : (a b c : V2Event) → a ≼ b → b ≼ c → a ≼ c
unfolding event_leb
event_leb_trans a b c h k = ground (arith, str_leb_trans a.event_id b.event_id c.event_id)

pub event_leb_antisymm : (a b : V2Event) → a ≼ b → b ≼ a → a.event_id ≡ b.event_id
unfolding event_leb
event_leb_antisymm a b h k = ground (arith, str_leb_antisymm a.event_id b.event_id)

abbrev pub IsSorted : List V2Event → Type 0
IsSorted [] = Unit
IsSorted (x ∷ xs) = All (◌≼◌ x) xs × IsSorted xs

All-insert_event :
    (P : V2Event → Type 0) (x : V2Event) (ys : List V2Event)
    → P x
    → All P ys
    → All P (insert_event x ys)
unfolding insert_event
All-insert_event P x [] p ps = (p, tt)
All-insert_event P x (y ∷ ys) p (q, qs) = elim (Bool-cases (event_leb x y)) [
  | inl h ↦ rw h (p, (q, qs))
  | inr h ↦ rw h (q, All-insert_event P x ys p qs)
]

insert_event-IsSorted :
    (x : V2Event) (ys : List V2Event) → IsSorted ys → IsSorted (insert_event x ys)
unfolding insert_event
insert_event-IsSorted x [] s = (tt, tt)
insert_event-IsSorted x (y ∷ ys) (below, s) = elim (Bool-cases (event_leb x y)) [
  | inl h ↦ rw h ((h, All-map ys (λ z k. event_leb_trans x y z h k) below), (below, s))
  | inr h ↦
      rw h
        (All-insert_event (◌≼◌ y) x ys (event_leb_total x y h) below, insert_event-IsSorted x ys s)
]

pub stable_sort_events-IsSorted : (es : List V2Event) → IsSorted (stable_sort_events es)
unfolding stable_sort_events
stable_sort_events-IsSorted [] = tt
stable_sort_events-IsSorted (x ∷ xs) =
    insert_event-IsSorted x (stable_sort_events xs) (stable_sort_events-IsSorted xs)

pub All-stable_sort_events :
    (P : V2Event → Type 0) (es : List V2Event) → All P es → All P (stable_sort_events es)
unfolding stable_sort_events
All-stable_sort_events P [] h = tt
All-stable_sort_events P (x ∷ xs) (p, ps) =
    All-insert_event P x (stable_sort_events xs) p (All-stable_sort_events P xs ps)

insert_event_below : (x : V2Event) (ys : List V2Event) → All (◌≼◌ x) ys → insert_event x ys ≡ x ∷ ys
unfolding insert_event
insert_event_below x [] h = refl
insert_event_below x (y ∷ ys) (h, _) = rw h

-- Sorting what is sorted changes nothing.
pub stable_sort_events_of_IsSorted : (es : List V2Event) → IsSorted es → stable_sort_events es ≡ es
unfolding stable_sort_events
stable_sort_events_of_IsSorted [] s = refl
stable_sort_events_of_IsSorted (x ∷ xs) (below, s) =
    rw (stable_sort_events_of_IsSorted xs s) (insert_event_below x xs below)

insert_event-append :
    (x : V2Event) (xs ys : List V2Event)
    → All (◌≼◌ x) ys
    → insert_event x (xs ++ ys) ≡ insert_event x xs ++ ys
unfolding insert_event
insert_event-append x [] ys h = insert_event_below x ys h
insert_event-append x (z ∷ zs) ys h = elim (Bool-cases (event_leb x z)) [
  | inl k ↦ rw k
  | inr k ↦ rw k (ap (◌∷◌ z) (insert_event-append x zs ys h))
]

-- Every event of `ys` belongs after every event of `xs`.
abbrev pub Precedes : List V2Event → List V2Event → Type 0
Precedes xs ys = All (λ x. All (◌≼◌ x) ys) xs

-- Events that belong after all earlier ones are sorted behind them.
pub stable_sort_events-append :
    (xs ys : List V2Event)
    → Precedes xs ys
    → stable_sort_events (xs ++ ys) ≡ stable_sort_events xs ++ stable_sort_events ys
unfolding stable_sort_events
stable_sort_events-append [] ys h = refl
stable_sort_events-append (x ∷ xs) ys (h, hs) = rw (stable_sort_events-append xs ys hs) (
    insert_event-append x (stable_sort_events xs) (stable_sort_events ys)
      (All-stable_sort_events (◌≼◌ x) ys h))
