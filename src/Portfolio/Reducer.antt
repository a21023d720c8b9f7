-- ===== src/Portfolio/Reducer.antt =====
-- core/portfolio/v2_reducer.py: `reduce_portfolio_state`.
use demobot.Portfolio.Model.{
  GreeksValue, Greeks, Leg, PortfolioConstraints, PortfolioState, Position, Python, field_count,
  get_field, get_or_null, greeks, has_all, or_else, truthy, unchanged, is_some,
}
use demobot.V2.Model.{V2Event}
use demobot.V2.Ordering.{stable_sort_events}
use demobot.Json.{Fields, Items, Json, cons, dict, end, list, nil, null}
use demobot.Base.{
  refl, inl, inr, ◌≡◌, ◌⊎◌, Bool, List, Option, String, [], false, if◌then◌else◌, none, some,
  str_eq, true, ◌&&◌, ◌++◌, ◌==◌, ◌∷◌, ◌||◌, mem,
}

-- The `ValueError` of an upsert without an id or legs, with the event; and the `TypeError` or
-- `AttributeError` of a payload of another shape.
pub data Fault : Type 0 where
  missing_position : String → Fault
  wrong_shape : Fault

pub data Reduced {ℓ} (A : Type ℓ) : Type ℓ where
  raised : Fault → Reduced A
  reduced : A → Reduced A

pub Reduced-cases {ℓ} :
    {A : Type ℓ} (r : Reduced A)
    → ((fault : Fault) × (r ≡ raised fault)) ⊎ ((a : A) × (r ≡ reduced a))
Reduced-cases (raised fault) = inl (fault, refl)
Reduced-cases (reduced a) = inr (a, refl)

-- The locals of the second loop.
pub record Progress : Type 0 where
  pub positions : List (Json × Position)
  pub base_currency : Json
  pub constraints : Option PortfolioConstraints

abbrev pub is_null : Json → Bool
is_null null = true
is_null _ = false

abbrev pub fields_of : Json → Option Fields
fields_of (dict fs) = some fs
fields_of _ = none

-- The first loop: the first event with its id is kept, and `seen` grows.
unfoldable pub first_of_each : List String → List V2Event → List V2Event
first_of_each seen [] = []
first_of_each seen (e ∷ es) =
    let skipped = first_of_each seen es in
    let kept = e ∷ first_of_each (seen ++ (e.event_id ∷ [])) es in
    elim (mem e.event_id seen) [ true ↦ skipped | false ↦ kept ]

-- `Greeks(**g)`: exactly its five names.
unfoldable pub greeks_of : Fields → Option Greeks
greeks_of g =
    if has_all ("delta" ∷ "gamma" ∷ "vega" ∷ "theta" ∷ "rho" ∷ []) g && (field_count g == 5)
    then some (record {
      delta = get_or_null "delta" g;
      gamma = get_or_null "gamma" g;
      vega = get_or_null "vega" g;
      theta = get_or_null "theta" g;
      rho = get_or_null "rho" g;
    })
    else none

abbrev pub greeks_value : Json → Option GreeksValue
greeks_value v = elim (fields_of v) [
  | none ↦ some (unchanged v)
  | some g ↦ elim (greeks_of g) [ none ↦ none | some x ↦ some (greeks x) ]
]

-- `LegV2(**leg)`: exactly its six names.
unfoldable pub leg_of : Fields → Option Leg
leg_of fs = elim (greeks_value (get_or_null "greeks_per_unit" fs)) [
  | none ↦ none
  | some g ↦
      if has_all
          ("leg_id" ∷ "underlying" ∷ "pv_per_unit" ∷ "greeks_per_unit" ∷ "notional_per_unit"
            ∷ "quantity" ∷ [])
          fs
        && (field_count fs == 6)
      then some (record {
        leg_id = get_or_null "leg_id" fs;
        underlying = get_or_null "underlying" fs;
        pv_per_unit = get_or_null "pv_per_unit" fs;
        greeks_per_unit = g;
        notional_per_unit = get_or_null "notional_per_unit" fs;
        quantity = get_or_null "quantity" fs;
      })
      else none
]

-- `isinstance(l, dict) and "leg_id" in l` of every leg
unfoldable pub all_named : Items → Bool
all_named nil = true
all_named (cons leg legs) = elim (fields_of leg) [
  | none ↦ false
  | some fs ↦ is_some (get_field "leg_id" fs) && all_named legs
]

abbrev pub nothing_yet : Progress
nothing_yet = record { positions = []; base_currency = null; constraints = none }

module _ (python : Python) where
  open python use {hashable, same_key, as_dict, iterated, sorted_by_leg_id}

  -- `e.payload or {}`, of which the code takes `.get`
  unfoldable pub payload_of : Json → Option Fields
  payload_of payload = if truthy python payload then fields_of payload else some end

  unfoldable pub set_position : Json → Position → List (Json × Position) → List (Json × Position)
  set_position k p [] = (k, p) ∷ []
  set_position k p ((j, q) ∷ ps) =
      let rest = set_position k p ps in if same_key j k then (j, p) ∷ ps else (j, q) ∷ rest

  unfoldable pub pop_position : Json → List (Json × Position) → List (Json × Position)
  pop_position k [] = []
  pop_position k ((j, q) ∷ ps) =
      let rest = pop_position k ps in if same_key j k then ps else (j, q) ∷ rest

  unfoldable pub legs_of_items : Items → Option (List Leg)
  legs_of_items nil = some []
  legs_of_items (cons leg legs) =
      let rest = legs_of_items legs in
      elim (as_dict leg) [
        | none ↦ none
        | some fs ↦ elim (leg_of fs) [
          | none ↦ none
          | some l ↦ elim rest [ none ↦ none | some ls ↦ some (l ∷ ls) ]
        ]
      ]

  -- The legs, sorted where every one of a list is a dict with a `leg_id`.
  unfoldable pub ordered_legs : Json → Option Items
  ordered_legs (list legs) = if all_named legs then sorted_by_leg_id legs else some legs
  ordered_legs legs = iterated legs

  unfoldable pub legs_in : Json → Option (List Leg)
  legs_in legs = elim (ordered_legs legs) [ none ↦ none | some items ↦ legs_of_items items ]

  -- `constraints_dict.get(...)`, where the payload has constraints or not
  unfoldable pub create : Fields → Progress → Reduced Progress
  create payload p =
      let constraints_json : Json = elim (get_field "constraints" payload) [
        | none ↦ dict end
        | some c ↦ c
      ] in
      elim (fields_of constraints_json) [
        | none ↦ raised wrong_shape
        | some c ↦ reduced (record {
          positions = [];
          base_currency = get_or_null "base_currency" payload;
          constraints = some (record {
            max_notional = get_or_null "max_notional" c;
            max_abs_delta = get_or_null "max_abs_delta" c;
            max_concentration_pct = get_or_null "max_concentration_pct" c;
          });
        })
      ]

  -- The dict that has the id and the legs: that of the position, or the flat payload.
  abbrev pub position_fields : Fields → Fields
  position_fields payload = elim (fields_of (get_or_null "position" payload)) [
    | none ↦ payload
    | some position ↦ position
  ]

  unfoldable pub store_position : Json → Json → Progress → Reduced Progress
  store_position pos_id legs p = elim (legs_in legs) [
    | none ↦ raised wrong_shape
    | some ls ↦
        if hashable pos_id
        then reduced (record p {
          positions = set_position pos_id (record { position_id = pos_id; legs = ls }) p.positions;
        })
        else raised wrong_shape
  ]

  unfoldable pub upsert : String → Fields → Progress → Reduced Progress
  upsert event_id payload p =
      let fs = position_fields payload in
      let pos_id = or_else python (get_or_null "position_id" fs) (get_or_null "id" fs) in
      let legs = get_or_null "legs" fs in
      if is_null pos_id || is_null legs
      then raised (missing_position event_id)
      else store_position pos_id legs p

  unfoldable pub remove : Fields → Progress → Reduced Progress
  remove payload p =
      let pos_id = get_or_null "position_id" payload in
      if hashable pos_id
      then reduced (record p { positions = pop_position pos_id p.positions })
      else raised wrong_shape

  abbrev pub with_payload : V2Event → (Fields → Reduced Progress) → Reduced Progress
  with_payload e use_payload = elim (payload_of e.payload) [
    | none ↦ raised wrong_shape
    | some fs ↦ use_payload fs
  ]

  -- One turn of the second loop.
  unfoldable pub apply_event : V2Event → Progress → Reduced Progress
  apply_event e p =
      if str_eq e.type "PORTFOLIO_CREATED"
      then with_payload e (λ fs. create fs p)
      else if str_eq e.type "PORTFOLIO_POSITION_UPSERTED"
      then with_payload e (λ fs. upsert e.event_id fs p)
      else if str_eq e.type "PORTFOLIO_POSITION_REMOVED"
      then with_payload e (λ fs. remove fs p)
      else reduced p

  abbrev pub and_then : Reduced Progress → (Progress → Reduced Progress) → Reduced Progress
  and_then (raised fault) continue = raised fault
  and_then (reduced p) continue = continue p

  unfoldable pub apply_events : List V2Event → Progress → Reduced Progress
  apply_events [] p = reduced p
  apply_events (e ∷ es) p = and_then (apply_event e p) (λ q. apply_events es q)

  -- `none` where no portfolio was created, or without a base currency.
  unfoldable pub state_of : Progress → Option PortfolioState
  state_of p = elim p.constraints [
    | none ↦ none
    | some c ↦
        if is_null p.base_currency
        then none
        else some
            (record { base_currency = p.base_currency; constraints = c; positions = p.positions })
  ]

  abbrev pub finished : Reduced Progress → Reduced (Option PortfolioState)
  finished (raised fault) = raised fault
  finished (reduced p) = reduced (state_of p)

  unfoldable pub reduce_portfolio_state : List V2Event → Reduced (Option PortfolioState)
  reduce_portfolio_state events =
      finished (apply_events (first_of_each [] (stable_sort_events events)) nothing_yet)
