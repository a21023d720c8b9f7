-- ===== src/V2/Orchestrator/Loops.antt =====
-- The loops of core/v2/orchestrator.py compute the events that come first with their id.
use demobot.Json.{Json}
use demobot.V2.Model.{V2Event, ids}
use demobot.V2.Fresh.{entries, entries_cons, entries_nil, fresh, fresh_new, fresh_nil, fresh_seen}
use demobot.V2.Orchestrator.Building.{full_loop, id_set, version_loop}
use demobot.V2.Ordering.Laws.{IsSorted}
use demobot.Base.{
  Bool-cases, Dict, List, String, [], add, ap, append-nil, append_assoc, arith, contains,
  contains-eq-mem-keys, false, inl, inr, insert_new, keys, keys_snoc, length, mem, refl, suc, sym,
  ℕ, ◌++◌, ◌+◌, ◌∙◌, ◌∷◌, ◌≡◌,
}

pub full_loop-eq :
    (d : Dict Json) (seen : List String) (version : ℕ) (es : List V2Event)
    → keys d ≡ seen
    → full_loop d seen version es ≡ (d ++ entries (fresh seen es), version + length (fresh seen es))
unfolding full_loop
full_loop-eq d seen version [] k =
    rw (fresh_nil seen, entries_nil, append-nil d) (λ i. (d, zero_right i))
  where
    zero_right : version ≡ version + 0
    zero_right = omega arith
full_loop-eq d seen version (e ∷ es) k = elim (Bool-cases (mem e.event_id seen)) [
  | inl h ↦ rw (fresh_seen seen e es h) (rw (h, full_loop) (full_loop-eq d seen version es k))
  | inr h ↦
      let new : contains e.event_id d ≡ false = contains-eq-mem-keys e.event_id d ∙ rw k h in
      let d' = d ++ ((e.event_id, e.payload) ∷ []) in
      let seen' = seen ++ (e.event_id ∷ []) in
      let k' : keys d' ≡ seen' = keys_snoc e.event_id e.payload d ∙ rw k in
      let count : version + 1 + length (fresh seen' es) ≡ version + suc (length (fresh seen' es)) =
        omega arith in
      rw (fresh_new seen e es h, entries_cons)
        (rw (h, full_loop)
          (rw (insert_new e.event_id e.payload d new) (
            full_loop-eq d' seen' (version + 1) es k' ∙ λ i.
            (append_assoc d ((e.event_id, e.payload) ∷ []) (entries (fresh seen' es)) i, count i))))
]

pub version_loop-eq :
    (seen : List String) (version : ℕ) (es : List V2Event)
    → version_loop seen version es ≡ version + length (fresh seen es)
unfolding version_loop
version_loop-eq seen version [] = rw (fresh_nil seen) (omega arith)
version_loop-eq seen version (e ∷ es) = elim (Bool-cases (mem e.event_id seen)) [
  | inl h ↦ rw (fresh_seen seen e es h) (rw (h, version_loop) (version_loop-eq seen version es))
  | inr h ↦
      let ih = version_loop-eq (seen ++ (e.event_id ∷ [])) (version + 1) es in
      rw (fresh_new seen e es h) (rw (h, version_loop) (ih ∙ omega arith))
]

pub id_set-eq :
    (seen : List String) (es : List V2Event) → id_set seen es ≡ seen ++ ids (fresh seen es)
unfolding id_set add
id_set-eq seen [] = rw (fresh_nil seen) (sym (append-nil seen))
id_set-eq seen (e ∷ es) = elim (Bool-cases (mem e.event_id seen)) [
  | inl h ↦ rw (fresh_seen seen e es h, h) (id_set-eq seen es)
  | inr h ↦
      rw (fresh_new seen e es h, h)
        (id_set-eq (seen ++ (e.event_id ∷ [])) es ∙ append_assoc seen _ _)
]

pub length-ids : (es : List V2Event) → length (ids es) ≡ length es
length-ids [] = refl
length-ids (e ∷ es) = ap suc (length-ids es)

pub IsSorted-append_right : (xs ys : List V2Event) → IsSorted (xs ++ ys) → IsSorted ys
IsSorted-append_right [] ys s = s
IsSorted-append_right (x ∷ xs) ys (_, s) = IsSorted-append_right xs ys s

pub keys_nil : keys {V = Json} [] ≡ []
unfolding keys
keys_nil = refl
