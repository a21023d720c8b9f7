-- ===== src/V2/EventStore/Tail.antt =====
-- The loop of `list_after_version`, which the two stores of core/v2 share.
use demobot.Base.{
  ℕ, zero, suc, ◌+◌, ◌-◌, ◌≡◌, refl, true, false, List, [], ◌∷◌, ◌++◌, arith, String, mem, drop,
  ltb, if◌then◌else◌, Bool-cases, inl, inr,
}
use demobot.V2.Model.{V2Event}
use demobot.V2.Fresh.{fresh, fresh_nil, fresh_seen, fresh_new}

-- `seen` and `applied_version` are the loop's variables.
unfoldable pub tail_loop : ℕ → List String → ℕ → List V2Event → List V2Event
tail_loop after seen applied [] = []
tail_loop after seen applied (e ∷ es) =
    let skipped = tail_loop after seen applied es in
    let rest = tail_loop after (seen ++ (e.event_id ∷ [])) (applied + 1) es in
    elim (mem e.event_id seen) [
      | true ↦ skipped
      | false ↦ if ltb after (applied + 1) then e ∷ rest else rest
    ]

drop_nil : (n : ℕ) → drop {A = V2Event} n [] ≡ []
drop_nil zero = refl
drop_nil (suc n) = refl

drop_step :
    (after applied : ℕ) (e : V2Event) (es : List V2Event)
    → drop (after - applied) (e ∷ es) ≡ (
        if ltb after (applied + 1)
        then e ∷ drop (after - (applied + 1)) es
        else drop (after - (applied + 1)) es)
drop_step after applied e es = elim (Bool-cases (ltb after (applied + 1))) [
  | inl h ↦
      let p : after - applied ≡ 0 = ground arith in
      let q : after - (applied + 1) ≡ 0 = ground arith in rw (h, p, q)
  | inr h ↦ let p : after - applied ≡ suc (after - (applied + 1)) = ground arith in rw (h, p)
]

-- The loop returns the events that come first with their id, less those counted before.
pub tail_loop-eq-drop :
    (after : ℕ) (seen : List String) (applied : ℕ) (es : List V2Event)
    → tail_loop after seen applied es ≡ drop (after - applied) (fresh seen es)
unfolding tail_loop
tail_loop-eq-drop after seen applied [] = rw (fresh_nil seen, drop_nil)
tail_loop-eq-drop after seen applied (e ∷ es) = elim (Bool-cases (mem e.event_id seen)) [
  | inl h ↦
      rw (fresh_seen seen e es h) (rw (h, tail_loop) (tail_loop-eq-drop after seen applied es))
  | inr h ↦
      rw (fresh_new seen e es h, drop_step after applied e)
        (rw (h, tail_loop)
          (rw (tail_loop-eq-drop after (seen ++ (e.event_id ∷ [])) (applied + 1) es)))
]
