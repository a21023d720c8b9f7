-- ===== src/Portfolio/Tests.antt =====
-- core/portfolio/v2_reducer.py: a portfolio with one position, and the theorems at it.
use demobot.Portfolio.Reducer.{apply_events, reduce_portfolio_state}
use demobot.Portfolio.Laws.{reduce_portfolio_state-known}
use demobot.Json.{Json}
use demobot.Base.{List}
use demobot.Base.{
  arith, eq_iff, String, [], false, none, refl, some, true, ℕ, ◌++◌, ◌∷◌, ◌≡◌, str_eq, mem,
}
use demobot.Json.{Fields, cons, dict, end, field, int, list, nil, null, pos, str}
use text.Mathlib.TextPositions.{eq_refl}
use demobot.Portfolio.Positions.{IsEquality, position_at}
use demobot.Portfolio.Upserts.{reduce_portfolio_state_removed, reduce_portfolio_state_upserted}
use demobot.Portfolio.Reducer.{
  all_named, apply_event, create, first_of_each, leg_of, legs_in, legs_of_items, ordered_legs,
  payload_of, pop_position, reduced, remove, set_position, state_of, store_position, upsert,
}
use demobot.Portfolio.Model.{
  Leg, PortfolioState, field_count, get_field, has_all, truthy, unchanged, Python,
}
use demobot.V2.Model.{V2Event}
use demobot.V2.Ordering.{stable_sort_events, event_leb}

abbrev key_text : Json → String
key_text (str s) = s
key_text _ = ""

same_texts : (a b : String) → str_eq a b ≡ str_eq b a
same_texts a b = ground (arith, eq_iff a b, eq_iff b a)

same_as_left : (a b c : String) → str_eq a b ≡ true → str_eq a c ≡ str_eq b c
same_as_left a b c h = ground (arith, eq_iff a b, eq_iff a c, eq_iff b c)

-- Strings are keys here, legs are dicts, and no list has two of them.
abbrev python : Python
python = record {
  hashable = λ v. elim v [ str s ↦ true | _ ↦ false ];
  same_key = λ a b. str_eq (key_text a) (key_text b);
  as_dict = λ v. elim v [ dict fs ↦ some fs | _ ↦ none ];
  iterated = λ v. none;
  sorted_by_leg_id = λ legs. some legs;
  is_zero = λ x. false;
}

abbrev event : String → ℕ → String → Fields → V2Event
event eid ts type payload = record {
  event_id = eid;
  session_id = "s";
  ts = ts;
  type = type;
  payload = dict payload;
  payload_hash = eid;
}

abbrev leg : Fields
leg = field "leg_id" (str "l") (
    field "underlying" (str "XYZ") (
      field "pv_per_unit" (int (pos 1)) (
        field "greeks_per_unit" null
          (field "notional_per_unit" (int (pos 5)) (field "quantity" (int (pos 2)) end)))))

abbrev created : V2Event
created = event "a" 1 "PORTFOLIO_CREATED" (field "base_currency" (str "USD") end)

abbrev upserted : V2Event
upserted = event "b" 2 "PORTFOLIO_POSITION_UPSERTED" (
    field "position" (dict (field "id" (str "p") (field "legs" (list (cons (dict leg) nil)) end)))
      end)

abbrev removed : V2Event
removed = event "c" 3 "PORTFOLIO_POSITION_REMOVED" (field "position_id" (str "p") end)

-- Another event with the id of the first.
abbrev upserted_again : V2Event
upserted_again = record upserted { event_id = "a" }

reduce_portfolio_state-known_example :
    reduce_portfolio_state python ((created ∷ []) ++ (upserted_again ∷ []))
    ≡ reduce_portfolio_state python (created ∷ [])
unfolding mem event_leb
reduce_portfolio_state-known_example =
    reduce_portfolio_state-known python upserted_again (created ∷ []) (refl, tt) refl

python-IsEquality : IsEquality python
python-IsEquality = record {
  same_refl = λ a. eq_refl (key_text a);
  same_sym = λ a b. same_texts (key_text a) (key_text b);
  same_left = λ a b c h. same_as_left (key_text a) (key_text b) (key_text c) h;
}

abbrev no_positions : PortfolioState
no_positions = record {
  base_currency = str "USD";
  constraints = record { max_notional = null; max_abs_delta = null; max_concentration_pct = null };
  positions = [];
}

abbrev one_leg : Leg
one_leg = record {
  leg_id = str "l";
  underlying = str "XYZ";
  pv_per_unit = int (pos 1);
  greeks_per_unit = unchanged null;
  notional_per_unit = int (pos 5);
  quantity = int (pos 2);
}

abbrev one_position : PortfolioState
one_position = record no_positions {
  positions = (str "p", record { position_id = str "p"; legs = one_leg ∷ [] }) ∷ [];
}

abbrev position_payload : Fields
position_payload =
    field "position" (dict (field "id" (str "p") (field "legs" (list (cons (dict leg) nil)) end)))
      end

reduced_created : reduce_portfolio_state python (created ∷ []) ≡ reduced (some no_positions)
unfolding reduce_portfolio_state first_of_each stable_sort_events apply_events apply_event create
    payload_of truthy get_field state_of mem
reduced_created = refl

reduced_upserted :
    reduce_portfolio_state python (created ∷ upserted ∷ []) ≡ reduced (some one_position)
unfolding reduce_portfolio_state first_of_each stable_sort_events apply_events apply_event create
    payload_of truthy get_field state_of mem upsert store_position legs_in ordered_legs
    legs_of_items leg_of has_all field_count all_named set_position event_leb
reduced_upserted = refl

reduced_removed :
    reduce_portfolio_state python (created ∷ upserted ∷ removed ∷ []) ≡ reduced (some no_positions)
unfolding reduce_portfolio_state first_of_each stable_sort_events apply_events apply_event create
    payload_of truthy get_field state_of mem upsert store_position legs_in ordered_legs
    legs_of_items leg_of has_all field_count all_named set_position event_leb remove pop_position
reduced_removed = refl

reduce_portfolio_state_upserted_example :
    ((ls : List Leg) × (legs_in python (list (cons (dict leg) nil)) ≡ some ls)
      × (position_at python (str "p") one_position.positions
          ≡ some (record { position_id = str "p"; legs = ls })))
    × (position_at python (str "q") one_position.positions
        ≡ position_at python (str "q") no_positions.positions)
unfolding event_leb mem payload_of truthy get_field
reduce_portfolio_state_upserted_example =
    reduce_portfolio_state_upserted python python-IsEquality upserted (created ∷ []) no_positions
      one_position position_payload (str "q") (refl, tt) refl refl refl reduced_created
      reduced_upserted refl

reduce_portfolio_state_removed_example :
    (position_at python (str "p") no_positions.positions ≡ none)
    × (position_at python (str "q") no_positions.positions
        ≡ position_at python (str "q") one_position.positions)
unfolding event_leb mem payload_of truthy get_field
reduce_portfolio_state_removed_example =
    reduce_portfolio_state_removed python python-IsEquality removed (created ∷ upserted ∷ [])
      one_position no_positions (field "position_id" (str "p") end) (str "q") (refl, (refl, tt))
      refl refl refl reduced_upserted reduced_removed refl
