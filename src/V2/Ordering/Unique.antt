-- ===== src/V2/Ordering/Unique.antt =====
-- The sort of core/v2/event_ordering.py does not depend on the order of arrival.
use mathlib.Core.Path.{subst}
use mathlib.Core.List.Permᴰ
use mathlib.Core.List.{Permᴰ}
use demobot.Base.{
  All, Bool-cases, inl, inr, length, ◌≡◌, refl, ◌∙◌, List, [], ◌∷◌, arith, String, mem, eq_iff, ◌≢◌,
}
use demobot.V2.Model.{V2Event, ids, IsDistinct}
use demobot.V2.Ordering.{insert_event, stable_sort_events, event_leb}
use demobot.V2.Ordering.Laws.{event_leb_total, event_leb_trans, event_leb_antisymm}

-- Two insertions of events with different ids commute.
insert_event_comm :
    (x y : V2Event) (zs : List V2Event)
    → x.event_id ≢ y.event_id
    → insert_event x (insert_event y zs) ≡ insert_event y (insert_event x zs)
unfolding insert_event
insert_event_comm x y [] ne =
    ground (arith, event_leb_total x y, event_leb_total y x, event_leb_antisymm x y)
insert_event_comm x y (z ∷ zs) ne = ground (
  arith,
  event_leb_total x y,
  event_leb_total y x,
  event_leb_antisymm x y,
  event_leb_trans x y z,
  event_leb_trans y x z,
  event_leb_trans x z y,
  event_leb_trans y z x,
  event_leb_total x z,
  event_leb_total y z,
  insert_event_comm x y zs ne,
)

pub mem-perm : (k : String) {xs ys : List V2Event} → Permᴰ xs ys → mem k (ids xs) ≡ mem k (ids ys)
unfolding mem
mem-perm k Permᴰ.nil = refl
mem-perm k (Permᴰ.cons {a = a} {b = b} e p) = cc (mem-perm k p)
mem-perm k (Permᴰ.swap {a = a} {b = b} {a' = a'} {b' = b'} e e') = ground arith
mem-perm k (Permᴰ.trans p q) = mem-perm k p ∙ mem-perm k q

pub IsDistinct-perm : {xs ys : List V2Event} → Permᴰ xs ys → IsDistinct xs → IsDistinct ys
unfolding mem
IsDistinct-perm Permᴰ.nil d = d
IsDistinct-perm (Permᴰ.cons {a = a} {b = b} {l₁ = xs} e p) (h, d) =
    (ground (arith, mem-perm b.event_id p), IsDistinct-perm p d)
IsDistinct-perm (Permᴰ.swap {a = a} {b = b} {a' = a'} {b' = b'} e e') (h, (k, d)) =
    ground (arith, eq_iff a.event_id b.event_id, eq_iff b.event_id a.event_id)
IsDistinct-perm (Permᴰ.trans p q) d = IsDistinct-perm q (IsDistinct-perm p d)

-- However the same events arrive, they are listed in one order, if no two share an id.
pub stable_sort_events-perm :
    {xs ys : List V2Event}
    → Permᴰ xs ys
    → IsDistinct xs
    → stable_sort_events xs ≡ stable_sort_events ys
unfolding stable_sort_events mem
stable_sort_events-perm Permᴰ.nil d = refl
stable_sort_events-perm (Permᴰ.cons e p) (h, d) = cc (stable_sort_events-perm p d)
stable_sort_events-perm (Permᴰ.swap {a = a} {b = b} {a' = a'} {b' = b'} {l = l} e e') (h, d) =
    insert_event_comm a b (stable_sort_events l) (ground (arith, eq_iff b.event_id a.event_id)) ∙ cc
stable_sort_events-perm (Permᴰ.trans p q) d =
    stable_sort_events-perm p d ∙ stable_sort_events-perm q (IsDistinct-perm p d)

insert_event-perm : (x : V2Event) (ys : List V2Event) → Permᴰ (x ∷ ys) (insert_event x ys)
unfolding insert_event
insert_event-perm x [] = Permᴰ.cons refl Permᴰ.nil
insert_event-perm x (y ∷ ys) = elim (Bool-cases (event_leb x y)) [
  | inl h ↦ rw h (Permᴰ.refl (x ∷ y ∷ ys))
  | inr h ↦
      rw h (Permᴰ.trans (Permᴰ.swap refl refl) (Permᴰ.cons {a = y} refl (insert_event-perm x ys)))
]

-- Sorting loses and invents nothing.
pub stable_sort_events-perm_self : (es : List V2Event) → Permᴰ es (stable_sort_events es)
unfolding stable_sort_events
stable_sort_events-perm_self [] = Permᴰ.nil
stable_sort_events-perm_self (x ∷ xs) =
    Permᴰ.trans (Permᴰ.cons refl (stable_sort_events-perm_self xs))
      (insert_event-perm x (stable_sort_events xs))

pub length-perm : {xs ys : List V2Event} → Permᴰ xs ys → length xs ≡ length ys
length-perm Permᴰ.nil = refl
length-perm (Permᴰ.cons e p) = omega (arith, length-perm p)
length-perm (Permᴰ.swap e e') = refl
length-perm (Permᴰ.trans p q) = length-perm p ∙ length-perm q

pub All-perm : (P : V2Event → Type 0) {xs ys : List V2Event} → Permᴰ xs ys → All P xs → All P ys
All-perm P Permᴰ.nil h = h
All-perm P (Permᴰ.cons e p) (h, hs) = (subst P e h, All-perm P p hs)
All-perm P (Permᴰ.swap e e') (h, (k, hs)) = (subst P e' k, (subst P e h, hs))
All-perm P (Permᴰ.trans p q) h = All-perm P q (All-perm P p h)

-- A predicate holds of all events exactly when it holds of all sorted events.
pub All-of_stable_sort_events :
    (P : V2Event → Type 0) (es : List V2Event) → All P (stable_sort_events es) → All P es
All-of_stable_sort_events P es h = All-perm P (Permᴰ.symm (stable_sort_events-perm_self es)) h
