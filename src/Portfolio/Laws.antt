-- ===== src/Portfolio/Laws.antt =====
-- core/portfolio/v2_reducer.py: what the reduction does not depend on, and what it ends with.
use demobot.V2.Fresh.{fresh, fresh-append}
use demobot.Portfolio.Reducer.{apply_event}
use demobot.V2.Ordering.Unique.{stable_sort_events-perm, mem-perm, stable_sort_events-perm_self}
use demobot.V2.Ordering.Laws.{◌≼◌, stable_sort_events-append}
use demobot.Portfolio.Model.{Python}
use demobot.V2.Fresh.{fresh_new, fresh_nil, fresh_seen, mem-fresh_nil}
use demobot.Portfolio.Reducer.{
  Progress, and_then, apply_events, finished, first_of_each, nothing_yet, reduce_portfolio_state,
  Reduced-cases,
}
use demobot.V2.Model.{V2Event, IsDistinct, ids}
use demobot.V2.Ordering.{stable_sort_events}
use mathlib.Core.List.{Permᴰ}
use demobot.Base.{
  false, Bool-cases, List, String, [], ap, inl, inr, mem, refl, sym, true, ◌++◌, ◌∙◌, ◌∷◌, ◌≡◌, All,
  All-map, append-nil,
}

-- The first loop keeps what the loops of core/v2 over events keep.
first_of_each-eq-fresh :
    (seen : List String) (es : List V2Event) → first_of_each seen es ≡ fresh seen es
unfolding first_of_each
first_of_each-eq-fresh seen [] = sym (fresh_nil seen)
first_of_each-eq-fresh seen (e ∷ es) = elim (Bool-cases (mem e.event_id seen)) [
  | inl h ↦ rw (h, first_of_each) (first_of_each-eq-fresh seen es ∙ sym (fresh_seen seen e es h))
  | inr h ↦
      rw (h, first_of_each)
        (ap (◌∷◌ e) (first_of_each-eq-fresh (seen ++ (e.event_id ∷ [])) es)
          ∙ sym (fresh_new seen e es h))
]

-- A new event that belongs behind all others is kept, as the last one.
pub first_of_each-last :
    (e : V2Event) (es : List V2Event)
    → All (λ x. x ≼ e) es
    → mem e.event_id (ids es) ≡ false
    → first_of_each [] (stable_sort_events (es ++ (e ∷ [])))
      ≡ first_of_each [] (stable_sort_events es) ++ (e ∷ [])
unfolding stable_sort_events
first_of_each-last e es later new =
    let sorted = stable_sort_events es in
    let absent : mem e.event_id (ids (fresh [] sorted)) ≡ false =
      mem-fresh_nil e.event_id sorted
      ∙ (sym (mem-perm e.event_id (stable_sort_events-perm_self es)) ∙ new) in
    ap (first_of_each [])
      (stable_sort_events-append es (e ∷ []) (All-map es (λ x h. (h, tt)) later))
    ∙ (first_of_each-eq-fresh [] (sorted ++ (e ∷ []))
        ∙ (fresh-append [] sorted (e ∷ [])
            ∙ (ap (λ rest. fresh [] sorted ++ rest)
                  (fresh_new (ids (fresh [] sorted)) e [] absent
                    ∙ ap (◌∷◌ e) (fresh_nil (ids (fresh [] sorted) ++ (e.event_id ∷ []))))
                ∙ ap (λ kept. kept ++ (e ∷ [])) (sym (first_of_each-eq-fresh [] sorted)))))

module _ (python : Python) where
  -- The portfolio, or the fault, does not depend on the order in which events with distinct ids arrived.
  reduce_portfolio_state-perm :
      {xs ys : List V2Event}
      → Permᴰ xs ys
      → IsDistinct xs
      → reduce_portfolio_state python xs ≡ reduce_portfolio_state python ys
  unfolding reduce_portfolio_state
  reduce_portfolio_state-perm p d =
      ap (λ es. finished python (apply_events python (first_of_each [] es) nothing_yet))
        (stable_sort_events-perm p d)

  pub apply_events-append :
      (xs ys : List V2Event) (p : Progress)
      → apply_events python (xs ++ ys) p
        ≡ and_then python (apply_events python xs p) (λ q. apply_events python ys q)
  unfolding apply_events
  apply_events-append [] ys p = refl
  apply_events-append (x ∷ xs) ys p = elim (Reduced-cases (apply_event python x p)) [
    | inl (fault, e) ↦ rw (e, apply_events) refl
    | inr (q, e) ↦ rw (e, apply_events) (apply_events-append xs ys q)
  ]

  -- Another event with an id that was there before, and not before any other in the order (ts, event_id),
  -- changes nothing.
  pub reduce_portfolio_state-known :
      (e : V2Event) (es : List V2Event)
      → All (λ x. x ≼ e) es
      → mem e.event_id (ids es) ≡ true
      → reduce_portfolio_state python (es ++ (e ∷ [])) ≡ reduce_portfolio_state python es
  unfolding reduce_portfolio_state stable_sort_events first_of_each
  reduce_portfolio_state-known e es later known =
      let sorted = stable_sort_events es in
      let there : mem e.event_id (ids (fresh [] sorted)) ≡ true =
        mem-fresh_nil e.event_id sorted
        ∙ (sym (mem-perm e.event_id (stable_sort_events-perm_self es)) ∙ known) in
      let same : first_of_each [] (stable_sort_events (es ++ (e ∷ []))) ≡ first_of_each [] sorted =
        ap (first_of_each [])
          (stable_sort_events-append es (e ∷ []) (All-map es (λ x h. (h, tt)) later))
        ∙ (first_of_each-eq-fresh [] (sorted ++ (e ∷ []))
            ∙ (fresh-append [] sorted (e ∷ [])
                ∙ (ap (λ rest. fresh [] sorted ++ rest)
                      (fresh_seen (ids (fresh [] sorted)) e [] there
                        ∙ fresh_nil (ids (fresh [] sorted)))
                    ∙ (append-nil (fresh [] sorted) ∙ sym (first_of_each-eq-fresh [] sorted))))) in
      ap (λ kept. finished python (apply_events python kept nothing_yet)) same
