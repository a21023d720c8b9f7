-- ===== src/Portfolio/Upserts.antt =====
-- core/portfolio/v2_reducer.py: what the last event of a portfolio does to its positions.
use demobot.Base.{some-none}
use demobot.Portfolio.Laws.{apply_events-append, first_of_each-last}
use demobot.Portfolio.Model.{Leg, PortfolioState, Python, get_field, get_or_null, or_else}
use demobot.Portfolio.Positions.{
  IsEquality, IsKeyed, pop_position-IsKeyed, position_at, position_at-pop_position,
  position_at-pop_position_other, position_at-set_position, position_at-set_position_other,
  set_position-IsKeyed,
}
use demobot.Portfolio.Reducer.{
  Fault, Progress, Reduced, Reduced-cases, and_then, apply_event, apply_events, create, finished,
  first_of_each, legs_in, nothing_yet, payload_of, pop_position, position_fields, raised, reduced,
  reduce_portfolio_state, remove, set_position, state_of, store_position, with_payload, upsert,
  is_null, fields_of,
}
use demobot.V2.Model.{V2Event, ids}
use demobot.V2.Ordering.{stable_sort_events}
use demobot.V2.Ordering.Laws.{◌≼◌}
use demobot.Json.{Fields, Json, dict, end}
use mathlib.Core.Path.{subst}
use demobot.Base.{
  All, Bool-cases, List, Option-cases, String, [], ap, false, inl, inr, mem, none, refl, some,
  str_eq, sym, ◌++◌, ◌∙◌, ◌∷◌, ◌≡◌, ◌||◌,
}

raised-reduced : {A : Type 0} {fault : Fault} {a : A} → ¬ (raised fault ≡ reduced a)
raised-reduced h = cc

some-injective : {A : Type 0} {a b : A} → some a ≡ some b → a ≡ b
some-injective h = cc

reduced-injective : {A : Type 0} {a b : A} → reduced a ≡ reduced b → a ≡ b
reduced-injective h = cc

module _ (python : Python) (equality : IsEquality python) where
  open python use {same_key}

  -- The id under which an upsert stores its position.
  abbrev upserted_id : Fields → Json
  upserted_id fs =
      or_else python (get_or_null "position_id" (position_fields python fs))
        (get_or_null "id" (position_fields python fs))

  store_lem :
      (k legs : Json) (p q : Progress)
      → store_position python k legs p ≡ reduced q
      → (ls : List Leg) × (legs_in python legs ≡ some ls)
        × (q.positions ≡ set_position python k (record { position_id = k; legs = ls }) p.positions)
  unfolding store_position
  store_lem k legs p q h = elim (Option-cases (legs_in python legs)) [
    | inl e ↦ absurd (raised-reduced (rw (e, store_position) at h))
    | inr (ls, e) ↦ elim (Bool-cases (python.hashable k)) [
      | inl g ↦ (
        ls,
        e,
        ap (λ (x : Progress). x.positions)
            (sym (reduced-injective (rw (e, store_position, g) at h))),
      )
      | inr g ↦ absurd (raised-reduced (rw (e, store_position, g) at h))
    ]
  ]

  -- An upsert that does not fail stores the position of the payload.
  upsert_lem :
      (eid : String) (fs : Fields) (p q : Progress)
      → upsert python eid fs p ≡ reduced q
      → (ls : List Leg) × (legs_in python (get_or_null "legs" (position_fields python fs))
          ≡ some ls)
        × (q.positions
            ≡ set_position python
                (upserted_id fs)
                (record { position_id = upserted_id fs; legs = ls })
                p.positions)
  unfolding upsert store_position
  upsert_lem eid fs p q h =
      elim (Bool-cases
        (is_null (upserted_id fs) || is_null (get_or_null "legs" (position_fields python fs)))) [
          | inl g ↦ absurd (raised-reduced (rw g at h))
          | inr g ↦ store_lem (upserted_id fs) _ p q (rw g at h)
        ]

  remove_lem :
      (fs : Fields) (p q : Progress)
      → remove python fs p ≡ reduced q
      → q.positions ≡ pop_position python (get_or_null "position_id" fs) p.positions
  unfolding remove
  remove_lem fs p q h = elim (Bool-cases (python.hashable (get_or_null "position_id" fs))) [
    | inl g ↦ ap (λ (x : Progress). x.positions) (sym (reduced-injective (rw g at h)))
    | inr g ↦ absurd (raised-reduced (rw g at h))
  ]

  create_lem : (fs : Fields) (p q : Progress) → create python fs p ≡ reduced q → q.positions ≡ []
  unfolding create
  create_lem fs p q h =
      elim (Option-cases
        (fields_of (elim (get_field "constraints" fs) [ none ↦ dict end | some c ↦ c ]))) [
          | inl e ↦ absurd (raised-reduced (rw (e, create) at h))
          | inr (c, e) ↦
              ap (λ (x : Progress). x.positions) (sym (reduced-injective (rw (e, create) at h)))
        ]

  -- A portfolio has the positions of the last progress.
  state_of_lem :
      (p : Progress) (st : PortfolioState)
      → state_of python p ≡ some st
      → st.positions ≡ p.positions
  unfolding state_of
  state_of_lem p st h = elim (Option-cases p.constraints) [
    | inl e ↦ absurd (some-none (sym (rw e at h)))
    | inr (c, e) ↦ elim (Bool-cases (is_null p.base_currency)) [
      | inl g ↦ absurd (some-none (sym (rw (e, g) at h)))
      | inr g ↦ ap (λ (x : PortfolioState). x.positions) (sym (some-injective (rw (e, g) at h)))
    ]
  ]

  with_payload_lem :
      (e : V2Event) (use_payload : Fields → Reduced Progress) (q : Progress)
      → with_payload python e use_payload ≡ reduced q
      → (fs : Fields) × (payload_of python e.payload ≡ some fs) × (use_payload fs ≡ reduced q)
  with_payload_lem e use_payload q h = elim (Option-cases (payload_of python e.payload)) [
    | inl g ↦ absurd (raised-reduced (rw (g, with_payload) at h))
    | inr (fs, g) ↦ (fs, g, rw (g, with_payload) at h)
  ]

  apply_event-IsKeyed :
      (e : V2Event) (p q : Progress)
      → apply_event python e p ≡ reduced q
      → IsKeyed python p.positions
      → IsKeyed python q.positions
  unfolding apply_event
  apply_event-IsKeyed e p q h keyed = elim (Bool-cases (str_eq e.type "PORTFOLIO_CREATED")) [
    | inl c ↦
        let (fs, _, made) = with_payload_lem e (λ fs. create python fs p) q (rw c at h) in
        subst (IsKeyed python) (sym (create_lem fs p q made)) tt
    | inr c ↦ elim (Bool-cases (str_eq e.type "PORTFOLIO_POSITION_UPSERTED")) [
      | inl u ↦
          let (fs, _, put_in) =
            with_payload_lem e (λ fs. upsert python e.event_id fs p) q (rw (c, u) at h) in
          let (ls, _, same) = upsert_lem e.event_id fs p q put_in in
          subst (IsKeyed python) (sym same)
            (set_position-IsKeyed python equality _ _ p.positions keyed)
      | inr u ↦ elim (Bool-cases (str_eq e.type "PORTFOLIO_POSITION_REMOVED")) [
        | inl d ↦
            let (fs, _, taken) =
              with_payload_lem e (λ fs. remove python fs p) q (rw (c, u, d) at h) in
            subst (IsKeyed python) (sym (remove_lem fs p q taken))
              (pop_position-IsKeyed python equality _ p.positions keyed)
        | inr d ↦
            subst (λ (x : Progress). IsKeyed python x.positions)
              (reduced-injective (rw (c, u, d) at h)) keyed
      ]
    ]
  ]

  apply_events-IsKeyed :
      (es : List V2Event) (p q : Progress)
      → apply_events python es p ≡ reduced q
      → IsKeyed python p.positions
      → IsKeyed python q.positions
  unfolding apply_events
  apply_events-IsKeyed [] p q h keyed =
      subst (λ (x : Progress). IsKeyed python x.positions) (reduced-injective h) keyed
  apply_events-IsKeyed (e ∷ es) p q h keyed = elim (Reduced-cases (apply_event python e p)) [
    | inl (fault, g) ↦ absurd (raised-reduced (rw (g, apply_events) at h))
    | inr (r, g) ↦
        apply_events-IsKeyed es r q (rw (g, apply_events) at h) (apply_event-IsKeyed e p r g keyed)
  ]

  finished_lem :
      (r : Reduced Progress) (st : PortfolioState)
      → finished python r ≡ reduced (some st)
      → (p : Progress) × (r ≡ reduced p) × (st.positions ≡ p.positions)
  finished_lem (raised fault) st h = absurd (raised-reduced h)
  finished_lem (reduced p) st h = (p, refl, state_of_lem p st (reduced-injective h))

  and_then_id : (r : Reduced Progress) → r ≡ and_then python r (λ q. reduced q)
  and_then_id (raised fault) = refl
  and_then_id (reduced p) = refl

  -- The progress before and after a new event that belongs behind all others.
  last_step :
      (e : V2Event) (es : List V2Event) (old now : PortfolioState)
      → All (λ x. x ≼ e) es
      → mem e.event_id (ids es) ≡ false
      → reduce_portfolio_state python es ≡ reduced (some old)
      → reduce_portfolio_state python (es ++ (e ∷ [])) ≡ reduced (some now)
      → (p : Progress) × (q : Progress) × IsKeyed python p.positions
        × (apply_event python e p ≡ reduced q)
        × (old.positions ≡ p.positions)
        × (now.positions ≡ q.positions)
  unfolding reduce_portfolio_state apply_events
  last_step e es old now later new before after =
      let kept = first_of_each [] (stable_sort_events es) in
      let (p, reached, old_positions) =
        finished_lem (apply_events python kept nothing_yet) old before in
      let all : apply_events python (first_of_each [] (stable_sort_events (es ++ (e ∷ []))))
            nothing_yet
          ≡ and_then python (apply_event python e p) (λ q. reduced q) =
        ap (λ xs. apply_events python xs nothing_yet) (first_of_each-last e es later new)
        ∙ (apply_events-append python kept (e ∷ []) nothing_yet
            ∙ ap (λ r. and_then python r (λ x. apply_events python (e ∷ []) x)) reached) in
      let (q, ended, new_positions) = finished_lem _ now (ap (finished python) (sym all) ∙ after) in
      (
        p,
        q,
        apply_events-IsKeyed kept nothing_yet p reached tt,
        and_then_id (apply_event python e p) ∙ ended,
        old_positions,
        new_positions,
      )

  apply_event-upsert :
      (e : V2Event) (fs : Fields) (p q : Progress)
      → e.type ≡ "PORTFOLIO_POSITION_UPSERTED"
      → payload_of python e.payload ≡ some fs
      → apply_event python e p ≡ reduced q
      → upsert python e.event_id fs p ≡ reduced q
  unfolding apply_event
  apply_event-upsert e fs p q kind payload h = rw (kind, payload, with_payload) at h

  apply_event-remove :
      (e : V2Event) (fs : Fields) (p q : Progress)
      → e.type ≡ "PORTFOLIO_POSITION_REMOVED"
      → payload_of python e.payload ≡ some fs
      → apply_event python e p ≡ reduced q
      → remove python fs p ≡ reduced q
  unfolding apply_event
  apply_event-remove e fs p q kind payload h = rw (kind, payload, with_payload) at h

  -- Where `==` of keys is an equality: take a new event that belongs behind all others and upserts a
  -- position, and the portfolios before
  -- and after it. Then the later portfolio has, under the id of the payload, a position with that id and
  -- with the legs that the payload has, and the same as before under every other id.
  pub reduce_portfolio_state_upserted :
      (e : V2Event) (es : List V2Event) (old now : PortfolioState) (fs : Fields) (i : Json)
      → All (λ x. x ≼ e) es
      → mem e.event_id (ids es) ≡ false
      → e.type ≡ "PORTFOLIO_POSITION_UPSERTED"
      → payload_of python e.payload ≡ some fs
      → reduce_portfolio_state python es ≡ reduced (some old)
      → reduce_portfolio_state python (es ++ (e ∷ [])) ≡ reduced (some now)
      → same_key (upserted_id fs) i ≡ false
      → ((ls : List Leg) × (legs_in python (get_or_null "legs" (position_fields python fs))
            ≡ some ls)
          × (position_at python (upserted_id fs) now.positions
              ≡ some (record { position_id = upserted_id fs; legs = ls })))
        × (position_at python i now.positions ≡ position_at python i old.positions)
  reduce_portfolio_state_upserted e es old now fs i later new kind payload before after other =
      let (p, q, keyed, step, old_positions, new_positions) =
        last_step e es old now later new before after in
      let (ls, legs, same) =
        upsert_lem e.event_id fs p q (apply_event-upsert e fs p q kind payload step) in
      rw (new_positions, old_positions, same)
        (
          (ls, legs, position_at-set_position python equality (upserted_id fs) _ p.positions),
          position_at-set_position_other python equality (upserted_id fs) i _ p.positions other,
        )

  -- Where `==` of keys is an equality: take a new event that belongs behind all others and removes a
  -- position, and the portfolios before
  -- and after it. Then the later portfolio has no position under the id of the payload, and the same as
  -- before under every other id.
  pub reduce_portfolio_state_removed :
      (e : V2Event) (es : List V2Event) (old now : PortfolioState) (fs : Fields) (i : Json)
      → All (λ x. x ≼ e) es
      → mem e.event_id (ids es) ≡ false
      → e.type ≡ "PORTFOLIO_POSITION_REMOVED"
      → payload_of python e.payload ≡ some fs
      → reduce_portfolio_state python es ≡ reduced (some old)
      → reduce_portfolio_state python (es ++ (e ∷ [])) ≡ reduced (some now)
      → same_key (get_or_null "position_id" fs) i ≡ false
      → (position_at python (get_or_null "position_id" fs) now.positions ≡ none)
        × (position_at python i now.positions ≡ position_at python i old.positions)
  reduce_portfolio_state_removed e es old now fs i later new kind payload before after other =
      let (p, q, keyed, step, old_positions, new_positions) =
        last_step e es old now later new before after in
      let same = remove_lem fs p q (apply_event-remove e fs p q kind payload step) in
      rw (new_positions, old_positions, same)
        (
          position_at-pop_position python equality (get_or_null "position_id" fs) p.positions keyed,
          position_at-pop_position_other python equality (get_or_null "position_id" fs) i
              p.positions other,
        )
