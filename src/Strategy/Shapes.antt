-- ===== src/Strategy/Shapes.antt =====
-- core/strategy_detector.py: the predicates on legs that `detect_strategy` tries in turn.
use demobot.Strategy.Legs.{put}
use demobot.Strategy.Legs.{
  CallPut, Floats, Leg, call, long, same_cp, same_side, short, signed_quantity, total_of,
}
use demobot.Json.{negsuc, pos, ℤ}
use demobot.Base.{Bool, List, [], false, if◌then◌else◌, not, true, ◌&&◌, ◌==◌, ◌||◌, ◌∷◌}

module _ {F : Type 0} (floats : Floats F) where
  open floats use {less, equal, nought, plus, times, of_int}

  -- `_is_vertical_spread`
  unfoldable pub is_vertical_spread : List (Leg F) → Bool
  is_vertical_spread (l1 ∷ l2 ∷ []) =
      if not (same_cp l1.cp l2.cp)
      then false
      else if same_side l1.side l2.side
      then false
      else not (equal l1.strike l2.strike)
  is_vertical_spread _ = false

  -- `l1.strike <= l2.strike`
  abbrev pub at_most : F → F → Bool
  at_most a b = less a b || equal a b

  -- `_vertical_info` on the leg of the lower strike and the other: (is_credit, is_bullish)
  unfoldable pub info_of_ordered : Leg F → Leg F → Bool × Bool
  info_of_ordered low high =
      let pnl_low = times (of_int (signed_quantity low)) low.premium in
      let pnl_high = times (of_int (signed_quantity high)) high.premium in
      let is_credit = less nought (plus pnl_low pnl_high) in
      (is_credit, elim low.cp [ call ↦ same_side low.side long | put ↦ same_side high.side short ])

  unfoldable pub vertical_info : Leg F → Leg F → Bool × Bool
  unfolding info_of_ordered
  vertical_info l1 l2 =
      if at_most l1.strike l2.strike then info_of_ordered l1 l2 else info_of_ordered l2 l1

  -- `sorted(legs, key=lambda leg: leg.strike)` of two legs
  unfoldable pub sorted_pair : Leg F → Leg F → Leg F × Leg F
  sorted_pair l1 l2 = if less l2.strike l1.strike then (l2, l1) else (l1, l2)

  -- `_has_opposite_sides`
  abbrev pub has_opposite_sides : Leg F × Leg F → Bool
  has_opposite_sides (a, b) =
      (same_side a.side long || same_side b.side long)
      && (same_side a.side short || same_side b.side short)

  -- The conditions of `_is_iron_condor_like` on the sorted calls and the sorted puts.
  unfoldable pub is_condor_of_sorted : Leg F × Leg F → Leg F × Leg F → Bool
  is_condor_of_sorted (call_low, call_high) (put_low, put_high) =
      if equal call_low.strike call_high.strike || equal put_low.strike put_high.strike
      then false
      else if not (has_opposite_sides (call_low, call_high))
      then false
      else if not (has_opposite_sides (put_low, put_high))
      then false
      else less put_low.strike put_high.strike
        && less put_high.strike call_low.strike
        && less call_low.strike call_high.strike

  -- `_is_iron_condor_like`
  unfoldable pub is_iron_condor_like : List (Leg F) → List (Leg F) → Bool
  unfolding sorted_pair is_condor_of_sorted
  is_iron_condor_like (c1 ∷ c2 ∷ []) (p1 ∷ p2 ∷ []) =
      is_condor_of_sorted (sorted_pair c1 c2) (sorted_pair p1 p2)
  is_iron_condor_like _ _ = false

  -- The loop of `_iron_condor_credit_or_debit`, from the sum so far.
  unfoldable pub net_loop : F → List (Leg F) → F
  net_loop net [] = net
  net_loop net (l ∷ ls) =
      let sign : ℤ = elim l.side [ short ↦ pos 1 | long ↦ negsuc 0 ] in
      net_loop (plus net (times (times (of_int sign) l.premium) (of_int (pos l.quantity)))) ls

  -- `_iron_condor_credit_or_debit`
  unfoldable pub iron_condor_credit_or_debit : List (Leg F) → Bool × F
  unfolding net_loop
  iron_condor_credit_or_debit legs = let net = net_loop nought legs in (less nought net, net)

  -- `_is_straddle`; `{l1.cp, l2.cp} != {"CALL", "PUT"}` says that the types are the same.
  unfoldable pub is_straddle : List (Leg F) → Bool
  is_straddle (l1 ∷ l2 ∷ []) =
      if same_cp l1.cp l2.cp
      then false
      else if not (equal l1.strike l2.strike)
      then false
      else if not (same_side l1.side l2.side)
      then false
      else l1.quantity == l2.quantity
  is_straddle _ = false

  -- `_is_strangle`
  unfoldable pub is_strangle : List (Leg F) → Bool
  is_strangle (l1 ∷ l2 ∷ []) =
      if same_cp l1.cp l2.cp
      then false
      else if not (same_side l1.side l2.side)
      then false
      else if not (l1.quantity == l2.quantity)
      then false
      else not (equal l1.strike l2.strike)
  is_strangle _ = false

  -- `len({leg.cp for leg in position.legs}) == 1`
  abbrev pub all_of_type : CallPut → List (Leg F) → Bool
  all_of_type cp [] = true
  all_of_type cp (l ∷ ls) = same_cp l.cp cp && all_of_type cp ls

  -- `_is_ratio_spread`
  unfoldable pub is_ratio_spread : List (Leg F) → Bool
  unfolding total_of
  is_ratio_spread (l1 ∷ l2 ∷ ls) =
      let legs = l1 ∷ l2 ∷ ls in
      if not (all_of_type l1.cp legs)
      then false
      else if total_of long legs == 0 || total_of short legs == 0
      then false
      else not (total_of long legs == total_of short legs)
  is_ratio_spread _ = false
