-- ===== src/V2/Fresh.antt =====
-- What the loops of core/v2 over events have in common: the events that come first with their id,
-- and the dict of their payloads. Each loop is shown equal to these.
use text.Mathlib.TextPositions.{eq_refl}
use demobot.Base.{
  suc, ◌≡◌, refl, ◌∙◌, ap, true, false, List, [], ◌∷◌, ◌++◌, String, mem, keys, Dict, length,
  Bool-cases, inl, inr, append_assoc, append-nil, All, arith, eq_iff, str_eq, ◌||◌, All-map,
  length-append, ◌<◌, ◌≤◌,
}
use demobot.Json.{Json}
use demobot.V2.Model.{V2Event, ids, IsDistinct}
use demobot.V2.Ordering.Laws.{◌≼◌, IsSorted}

-- The events whose id is neither among `seen` nor that of an earlier event.
unfoldable pub fresh : List String → List V2Event → List V2Event
fresh seen [] = []
fresh seen (e ∷ es) =
    let skipped = fresh seen es in
    let kept = e ∷ fresh (seen ++ (e.event_id ∷ [])) es in
    elim (mem e.event_id seen) [ true ↦ skipped | false ↦ kept ]

unfoldable pub entries : List V2Event → Dict Json
entries [] = []
entries (e ∷ es) = (e.event_id, e.payload) ∷ entries es

pub keys-entries : (es : List V2Event) → keys (entries es) ≡ ids es
unfolding keys entries
keys-entries [] = refl
keys-entries (e ∷ es) = ap (◌∷◌ e.event_id) (keys-entries es)

pub length-entries : (es : List V2Event) → length (entries es) ≡ length es
unfolding entries
length-entries [] = refl
length-entries (e ∷ es) = ap suc (length-entries es)

pub fresh_nil : (seen : List String) → fresh seen [] ≡ []
unfolding fresh
fresh_nil seen = refl

pub fresh_seen :
    (seen : List String) (e : V2Event) (es : List V2Event)
    → mem e.event_id seen ≡ true
    → fresh seen (e ∷ es) ≡ fresh seen es
unfolding fresh
fresh_seen seen e es h = rw (h, fresh)

pub fresh_new :
    (seen : List String) (e : V2Event) (es : List V2Event)
    → mem e.event_id seen ≡ false
    → fresh seen (e ∷ es) ≡ e ∷ fresh (seen ++ (e.event_id ∷ [])) es
unfolding fresh
fresh_new seen e es h = rw (h, fresh)

-- Over a concatenation, the second part sees what the first has let through.
pub fresh-append :
    (seen : List String) (xs ys : List V2Event)
    → fresh seen (xs ++ ys) ≡ fresh seen xs ++ fresh (seen ++ ids (fresh seen xs)) ys
fresh-append seen [] ys = simp (fresh_nil, append-nil)
fresh-append seen (x ∷ xs) ys = elim (Bool-cases (mem x.event_id seen)) [
  | inl h ↦ rw (fresh_seen seen x (xs ++ ys) h, fresh_seen seen x xs h) (fresh-append seen xs ys)
  | inr h ↦
      rw (fresh_new seen x (xs ++ ys) h, fresh_new seen x xs h)
        (ap (◌∷◌ x) (fresh-append (seen ++ (x.event_id ∷ [])) xs ys ∙ simp append_assoc))
]

-- What is let through once is let through again.
pub fresh_idem :
    (seen : List String) (es : List V2Event) → fresh seen (fresh seen es) ≡ fresh seen es
fresh_idem seen [] = simp fresh_nil
fresh_idem seen (e ∷ es) = elim (Bool-cases (mem e.event_id seen)) [
  | inl h ↦ rw (fresh_seen seen e es h) (fresh_idem seen es)
  | inr h ↦
      rw (fresh_new seen e es h)
        (fresh_new seen e _ h ∙ ap (◌∷◌ e) (fresh_idem (seen ++ (e.event_id ∷ [])) es))
]

All-fresh :
    (P : V2Event → Type 0) (seen : List String) (es : List V2Event)
    → All P es
    → All P (fresh seen es)
All-fresh P seen [] h = rw (fresh_nil seen) tt
All-fresh P seen (e ∷ es) (p, ps) = elim (Bool-cases (mem e.event_id seen)) [
  | inl h ↦ rw (fresh_seen seen e es h) (All-fresh P seen es ps)
  | inr h ↦ rw (fresh_new seen e es h) (p, All-fresh P (seen ++ (e.event_id ∷ [])) es ps)
]

pub fresh-IsSorted :
    (seen : List String) (es : List V2Event) → IsSorted es → IsSorted (fresh seen es)
fresh-IsSorted seen [] s = rw (fresh_nil seen) tt
fresh-IsSorted seen (e ∷ es) (below, s) = elim (Bool-cases (mem e.event_id seen)) [
  | inl h ↦ rw (fresh_seen seen e es h) (fresh-IsSorted seen es s)
  | inr h ↦
      rw (fresh_new seen e es h)
        (All-fresh (◌≼◌ e) _ es below, fresh-IsSorted (seen ++ (e.event_id ∷ [])) es s)
]

pub entries_nil : entries [] ≡ []
unfolding entries
entries_nil = refl

pub entries_cons :
    (e : V2Event) (es : List V2Event) → entries (e ∷ es) ≡ (e.event_id, e.payload) ∷ entries es
unfolding entries
entries_cons e es = refl

pub entries-append : (xs ys : List V2Event) → entries (xs ++ ys) ≡ entries xs ++ entries ys
unfolding entries
entries-append [] ys = refl
entries-append (x ∷ xs) ys = ap (◌∷◌ (x.event_id, x.payload)) (entries-append xs ys)

mem-snoc :
    (k j : String) (seen : List String) → mem k (seen ++ (j ∷ [])) ≡ (mem k seen || str_eq j k)
unfolding mem
mem-snoc k j [] = ground arith
mem-snoc k j (x ∷ seen) = ground (arith, mem-snoc k j seen)

unseen_later :
    (e : V2Event) (seen : List String) (xs : List V2Event)
    → mem e.event_id (ids xs) ≡ false
    → All (λ x. mem x.event_id seen ≡ false) xs
    → All (λ x. mem x.event_id (seen ++ (e.event_id ∷ [])) ≡ false) xs
unfolding mem
unseen_later e seen [] g u = tt
unseen_later e seen (x ∷ xs) g (l, ls) = (
  ground (
    arith,
    mem-snoc x.event_id e.event_id seen,
    eq_iff e.event_id x.event_id,
    eq_iff x.event_id e.event_id,
  ),
  unseen_later e seen xs (ground arith) ls,
)

-- Events with distinct ids, none of them seen, are all let through.
pub fresh_of_IsDistinct :
    (seen : List String) (es : List V2Event)
    → IsDistinct es
    → All (λ e. mem e.event_id seen ≡ false) es
    → fresh seen es ≡ es
fresh_of_IsDistinct seen [] d u = fresh_nil seen
fresh_of_IsDistinct seen (e ∷ es) (h, d) (k, u) =
    fresh_new seen e es k
    ∙ ap (◌∷◌ e) (fresh_of_IsDistinct (seen ++ (e.event_id ∷ [])) es d (unseen_later e seen es h u))

unseen_none : (es : List V2Event) → All (λ e. mem e.event_id [] ≡ false) es
unfolding mem
unseen_none [] = tt
unseen_none (e ∷ es) = (refl, unseen_none es)

pub fresh_all : (es : List V2Event) → IsDistinct es → fresh [] es ≡ es
fresh_all es d = fresh_of_IsDistinct [] es d (unseen_none es)

-- An id is let through, or seen before, exactly when some event has it or it was seen before.
pub mem-fresh :
    (k : String) (seen : List String) (es : List V2Event)
    → (mem k seen || mem k (ids (fresh seen es))) ≡ (mem k seen || mem k (ids es))
unfolding mem
mem-fresh k seen [] = rw (fresh_nil seen)
mem-fresh k seen (e ∷ es) = elim (Bool-cases (mem e.event_id seen)) [
  | inl h ↦ rw (fresh_seen seen e es h) (ground (arith, mem-fresh k seen es, eq_iff e.event_id k))
  | inr h ↦
      rw (fresh_new seen e es h)
        (ground (arith, mem-fresh k (seen ++ (e.event_id ∷ [])) es, mem-snoc k e.event_id seen))
]

pub mem-fresh_nil : (k : String) (es : List V2Event) → mem k (ids (fresh [] es)) ≡ mem k (ids es)
unfolding mem
mem-fresh_nil k es = mem-fresh k [] es

-- Events whose ids have all been seen are let through nowhere.
pub fresh_known :
    (seen : List String) (es : List V2Event)
    → All (λ e. mem e.event_id seen ≡ true) es
    → fresh seen es ≡ []
fresh_known seen [] k = fresh_nil seen
fresh_known seen (e ∷ es) (k, ks) = fresh_seen seen e es k ∙ fresh_known seen es ks

pub All-mem-ids : (es : List V2Event) → All (λ e. mem e.event_id (ids es) ≡ true) es
unfolding mem
All-mem-ids [] = tt
All-mem-ids (e ∷ es) =
    (ground (arith, eq_refl e.event_id), All-map es (λ x k. ground arith) (All-mem-ids es))

pub All-fresh_unseen :
    (seen : List String) (es : List V2Event)
    → All (λ e. mem e.event_id seen ≡ false) (fresh seen es)
All-fresh_unseen seen [] = rw (fresh_nil seen) tt
All-fresh_unseen seen (e ∷ es) = elim (Bool-cases (mem e.event_id seen)) [
  | inl h ↦ rw (fresh_seen seen e es h) (All-fresh_unseen seen es)
  | inr h ↦
      let seen' = seen ++ (e.event_id ∷ []) in
      rw (fresh_new seen e es h) (
        h,
        All-map (fresh seen' es) (λ x k. ground (arith, mem-snoc x.event_id e.event_id seen))
            (All-fresh_unseen seen' es),
      )
]

length-fresh-le : (seen : List String) (es : List V2Event) → length (fresh seen es) ≤ length es
length-fresh-le seen [] = rw (fresh_nil seen) (omega arith)
length-fresh-le seen (e ∷ es) = elim (Bool-cases (mem e.event_id seen)) [
  | inl h ↦ rw (fresh_seen seen e es h) (omega (arith, length-fresh-le seen es))
  | inr h ↦
      rw (fresh_new seen e es h) (omega (arith, length-fresh-le (seen ++ (e.event_id ∷ [])) es))
]

-- A repeated id is not let through twice.
pub length-fresh-lt :
    (xs ys : List V2Event) (e : V2Event)
    → mem e.event_id (ids xs) ≡ true
    → length (fresh [] (xs ++ (e ∷ ys))) < length (xs ++ (e ∷ ys))
length-fresh-lt xs ys e again =
    let seen = ids (fresh [] xs) in
    let known : mem e.event_id seen ≡ true = mem-fresh_nil e.event_id xs ∙ again in
    rw (fresh-append [] xs (e ∷ ys), fresh_seen seen e ys known)
      (omega (
        arith,
        length-append (fresh [] xs) (fresh seen ys),
        length-append xs (e ∷ ys),
        length-fresh-le [] xs,
        length-fresh-le seen ys,
      ))
