-- ===== src/Strategy/Detection/Laws.antt =====
-- core/strategy_detector.py, `detect_strategy` on two legs: the order of the legs does not matter.
use demobot.Strategy.Legs.{put}
use demobot.Strategy.Detection.{
  detect_rest, detect_strategy, ratio_info, straddle_info, strangle_info,
}
use demobot.Base.{[], arith, false, refl, true, ◌∷◌, ◌≡◌, Bool-cases, List, ap, inl, inr, sym}
use demobot.Strategy.Shapes.{
  is_ratio_spread, is_straddle, is_strangle, is_vertical_spread, vertical_info,
}
use demobot.Strategy.Legs.{
  CallPut, Floats, Leg, Side, call, long, same_cp, same_side, short, total_of,
}

-- The comparisons of floats that are numbers.
pub record IsOrdered {F : Type 0} (floats : Floats F) : Type 0 where
  pub equal_sym : (a b : F) → floats.equal a b ≡ floats.equal b a
  pub less_asym : (a b : F) → floats.less a b ≡ true → floats.less b a ≡ false
  pub less_total :
      (a b : F) → floats.equal a b ≡ false → floats.less a b ≡ false → floats.less b a ≡ true

same_side_sym : (a b : Side) → same_side a b ≡ same_side b a
same_side_sym long long = refl
same_side_sym long short = refl
same_side_sym short long = refl
same_side_sym short short = refl

same_cp_sym : (a b : CallPut) → same_cp a b ≡ same_cp b a
same_cp_sym call call = refl
same_cp_sym call put = refl
same_cp_sym put call = refl
same_cp_sym put put = refl

same_side_iff : (a b : Side) → same_side a b ≡ true → a ≡ b
same_side_iff long long h = refl
same_side_iff long short h = ground arith
same_side_iff short long h = ground arith
same_side_iff short short h = refl

same_cp_iff : (a b : CallPut) → same_cp a b ≡ true → a ≡ b
same_cp_iff call call h = refl
same_cp_iff call put h = ground arith
same_cp_iff put call h = ground arith
same_cp_iff put put h = refl

module _ {F : Type 0} (floats : Floats F) (ordered : IsOrdered floats) where
  open ordered use {equal_sym, less_asym, less_total}

  is_vertical_spread_swap :
      (a b : Leg F)
      → is_vertical_spread floats (a ∷ b ∷ []) ≡ is_vertical_spread floats (b ∷ a ∷ [])
  unfolding is_vertical_spread
  is_vertical_spread_swap a b =
      rw (same_cp_sym a.cp b.cp, same_side_sym a.side b.side, equal_sym a.strike b.strike) refl

  is_straddle_swap :
      (a b : Leg F) → is_straddle floats (a ∷ b ∷ []) ≡ is_straddle floats (b ∷ a ∷ [])
  unfolding is_straddle
  is_straddle_swap a b =
      rw (same_cp_sym a.cp b.cp, same_side_sym a.side b.side, equal_sym a.strike b.strike)
        (ground arith)

  is_strangle_swap :
      (a b : Leg F) → is_strangle floats (a ∷ b ∷ []) ≡ is_strangle floats (b ∷ a ∷ [])
  unfolding is_strangle
  is_strangle_swap a b =
      rw (same_cp_sym a.cp b.cp, same_side_sym a.side b.side, equal_sym a.strike b.strike)
        (ground arith)

  is_ratio_spread_swap :
      (a b : Leg F) → is_ratio_spread floats (a ∷ b ∷ []) ≡ is_ratio_spread floats (b ∷ a ∷ [])
  unfolding is_ratio_spread total_of
  is_ratio_spread_swap a b = ground (arith, same_cp_sym a.cp b.cp)

  vertical_info_swap :
      (a b : Leg F)
      → floats.equal a.strike b.strike ≡ false
      → vertical_info floats a b ≡ vertical_info floats b a
  unfolding vertical_info
  vertical_info_swap a b ne = ground (
    arith,
    equal_sym a.strike b.strike,
    less_asym a.strike b.strike,
    less_total a.strike b.strike,
  )

  straddle_side : (a b : Leg F) → is_straddle floats (b ∷ a ∷ []) ≡ true → a.side ≡ b.side
  unfolding is_straddle
  straddle_side a b h = sym (same_side_iff b.side a.side (ground arith))

  strangle_side : (a b : Leg F) → is_strangle floats (b ∷ a ∷ []) ≡ true → a.side ≡ b.side
  unfolding is_strangle
  strangle_side a b h = sym (same_side_iff b.side a.side (ground arith))

  ratio_cp : (a b : Leg F) → is_ratio_spread floats (b ∷ a ∷ []) ≡ true → a.cp ≡ b.cp
  unfolding is_ratio_spread
  ratio_cp a b h = same_cp_iff a.cp b.cp (ground arith)

  vertical_legs :
      (a b : Leg F)
      → is_vertical_spread floats (b ∷ a ∷ []) ≡ true
      → (a.cp ≡ b.cp) × (floats.equal a.strike b.strike ≡ false)
  unfolding is_vertical_spread
  vertical_legs a b h =
      (sym (same_cp_iff b.cp a.cp (ground arith)), ground (arith, equal_sym a.strike b.strike))

  detect_rest_swap : (a b : Leg F) → detect_rest floats a (b ∷ []) ≡ detect_rest floats b (a ∷ [])
  unfolding detect_rest
  detect_rest_swap a b =
      rw (is_straddle_swap a b, is_strangle_swap a b, is_ratio_spread_swap a b)
        (elim (Bool-cases (is_straddle floats (b ∷ a ∷ []))) [
          | inl h ↦ rw h (ap (straddle_info floats) (straddle_side a b h))
          | inr h₁ ↦ rw h₁ (elim (Bool-cases (is_strangle floats (b ∷ a ∷ []))) [
            | inl h ↦ rw h (ap (strangle_info floats) (strangle_side a b h))
            | inr h₂ ↦ rw h₂ (elim (Bool-cases (is_ratio_spread floats (b ∷ a ∷ []))) [
              | inl h ↦ rw h (ap (ratio_info floats) (ratio_cp a b h))
              | inr h ↦ rw h refl
            ])
          ])
        ])

  -- The strategy of two legs does not depend on their order, if the strikes are numbers (no NaN).
  pub detect_strategy_swap :
      (a b : Leg F) → detect_strategy floats (a ∷ b ∷ []) ≡ detect_strategy floats (b ∷ a ∷ [])
  unfolding detect_strategy
  detect_strategy_swap a b =
      rw (is_vertical_spread_swap a b, detect_rest_swap a b)
        (elim (Bool-cases (is_vertical_spread floats (b ∷ a ∷ []))) [
          | inl h ↦ let (cp, ne) = vertical_legs a b h in rw (h, vertical_info_swap a b ne, cp) refl
          | inr h ↦ rw h refl
        ])

  -- A position of two legs has at most one of the three shapes.
  pub shapes_exclusive :
      (legs : List (Leg F))
      → ¬ ((is_vertical_spread floats legs ≡ true) × (is_straddle floats legs ≡ true))
        × ¬ ((is_vertical_spread floats legs ≡ true) × (is_strangle floats legs ≡ true))
        × ¬ ((is_straddle floats legs ≡ true) × (is_strangle floats legs ≡ true))
  unfolding is_vertical_spread is_straddle is_strangle
  shapes_exclusive [] = (λ h. ground arith, λ h. ground arith, λ h. ground arith)
  shapes_exclusive (a ∷ []) = (λ h. ground arith, λ h. ground arith, λ h. ground arith)
  shapes_exclusive (a ∷ b ∷ []) = (λ h. ground arith, λ h. ground arith, λ h. ground arith)
  shapes_exclusive (a ∷ b ∷ c ∷ ls) = (λ h. ground arith, λ h. ground arith, λ h. ground arith)
