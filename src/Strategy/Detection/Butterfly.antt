-- ===== src/Strategy/Detection/Butterfly.antt =====
-- core/strategy_detector.py: the name "Iron Butterfly", which `detect_strategy` never gives.
use demobot.Strategy.Shapes.{
  is_iron_condor_like, sorted_pair, has_opposite_sides, is_condor_of_sorted,
}
use demobot.Strategy.Detection.{has_strike, short_strikes, detect_strategy, iron_condor_info}
use demobot.Base.{
  All, All-map, Bool-cases, List, [], arith, false, inl, inr, length, true, ◌==◌, ◌∷◌, ◌≡◌, ◌⊎◌,
  Bool, if◌then◌else◌, not, refl, ◌&&◌, ◌||◌,
}
use demobot.Strategy.Legs.{put, CallPut, Floats, Leg, legs_of, same_cp, short, call}

-- The comparisons of strikes that are numbers.
pub record IsNumeric {F : Type 0} (floats : Floats F) : Type 0 where
  pub equal_refl : (a : F) → floats.equal a a ≡ true
  pub less_trans :
      (a b c : F) → floats.less a b ≡ true → floats.less b c ≡ true → floats.less a c ≡ true
  pub not_less_of_equal :
      (a b x : F) → floats.equal a x ≡ true → floats.equal b x ≡ true → floats.less a b ≡ false

conditions :
    (e o₁ o₂ a b c : Bool)
    → (if e then false else if not o₁ then false else if not o₂ then false else a && b && c) ≡ true
    → (o₁ ≡ true) × (o₂ ≡ true) × (a ≡ true) × (b ≡ true) × (c ≡ true)
conditions e o₁ o₂ a b c h = ground arith

module _ {F : Type 0} (floats : Floats F) (numeric : IsNumeric floats) where
  open numeric use {equal_refl, less_trans, not_less_of_equal}

  -- If the leg is short, its strike is one of the list.
  abbrev Listed : List F → Leg F → Type 0
  Listed strikes l = l.side ≡ short → has_strike floats l.strike strikes ≡ true

  step_Listed :
      (l : Leg F) (ls : List (Leg F)) (m : Leg F)
      → Listed (short_strikes floats ls) m
      → Listed (short_strikes floats (l ∷ ls)) m
  unfolding short_strikes has_strike
  step_Listed l ls m h s = ground (arith, h s)

  head_Listed : (l : Leg F) (ls : List (Leg F)) → Listed (short_strikes floats (l ∷ ls)) l
  unfolding short_strikes has_strike
  head_Listed l ls s = ground (arith, equal_refl l.strike)

  short_strikes-Listed : (ls : List (Leg F)) → All (Listed (short_strikes floats ls)) ls
  short_strikes-Listed [] = tt
  short_strikes-Listed (l ∷ ls) =
      (head_Listed l ls, All-map ls (step_Listed l ls) (short_strikes-Listed ls))

  legs_of-All :
      (P : Leg F → Type 0) (cp : CallPut) (ls : List (Leg F)) → All P ls → All P (legs_of cp ls)
  unfolding legs_of
  legs_of-All P cp [] h = tt
  legs_of-All P cp (l ∷ ls) (h, hs) = elim (Bool-cases (same_cp l.cp cp)) [
    | inl e ↦ rw e (h, legs_of-All P cp ls hs)
    | inr e ↦ rw e (legs_of-All P cp ls hs)
  ]

  -- One list of a single strike does not hold a put strike and a greater call strike.
  apart :
      (a b : F) (strikes : List F)
      → (length strikes == 1) ≡ true
      → floats.less a b ≡ true
      → has_strike floats a strikes ≡ true
      → has_strike floats b strikes ≡ false
  unfolding has_strike
  apart a b [] one lt h = ground arith
  apart a b (x ∷ []) one lt h = ground (arith, not_less_of_equal a b x)
  apart a b (x ∷ y ∷ xs) one lt h = absurd (ground arith)

  some_short :
      (a b : Leg F) → has_opposite_sides floats (a, b) ≡ true → (a.side ≡ short) ⊎ (b.side ≡ short)
  some_short a b h = ground arith

  two_strikes :
      (p c : Leg F) (strikes : List F)
      → floats.less p.strike c.strike ≡ true
      → has_strike floats p.strike strikes ≡ true
      → has_strike floats c.strike strikes ≡ true
      → (length strikes == 1) ≡ false
  two_strikes p c strikes lt hp hc = elim (Bool-cases (length strikes == 1)) [
    | inl one ↦ absurd (ground (arith, apart p.strike c.strike strikes one lt hp))
    | inr h ↦ h
  ]

  sorted_strikes :
      (cl ch pl ph : Leg F) (strikes : List F)
      → is_condor_of_sorted floats (cl, ch) (pl, ph) ≡ true
      → Listed strikes cl × Listed strikes ch
      → Listed strikes pl × Listed strikes ph
      → (length strikes == 1) ≡ false
  unfolding is_condor_of_sorted
  sorted_strikes cl ch pl ph strikes h (a, a') (b, b') =
      let (oc, op, p, m, c) =
        conditions (floats.equal cl.strike ch.strike || floats.equal pl.strike ph.strike)
          (has_opposite_sides floats (cl, ch)) (has_opposite_sides floats (pl, ph))
          (floats.less pl.strike ph.strike) (floats.less ph.strike cl.strike)
          (floats.less cl.strike ch.strike) h in
      let pm = less_trans pl.strike ph.strike cl.strike p m in
      let mc = less_trans ph.strike cl.strike ch.strike m c in
      let pc = less_trans pl.strike cl.strike ch.strike pm c in
      elim (some_short pl ph op) [
        | inl s ↦ elim (some_short cl ch oc) [
          | inl t ↦ two_strikes pl cl strikes pm (b s) (a t)
          | inr t ↦ two_strikes pl ch strikes pc (b s) (a' t)
        ]
        | inr s ↦ elim (some_short cl ch oc) [
          | inl t ↦ two_strikes ph cl strikes m (b' s) (a t)
          | inr t ↦ two_strikes ph ch strikes mc (b' s) (a' t)
        ]
      ]

  sorted_pair-both :
      (P : Leg F → Type 0) (a b : Leg F)
      → P a
      → P b
      → P (sorted_pair floats a b).0 × P (sorted_pair floats a b).1
  unfolding sorted_pair
  sorted_pair-both P a b h k = elim (Bool-cases (floats.less b.strike a.strike)) [
    | inl e ↦ rw e (k, h)
    | inr e ↦ rw e (h, k)
  ]

  -- In an iron condor the short legs have more than one strike.
  condor_strikes :
      (cs ps : List (Leg F)) (strikes : List F)
      → is_iron_condor_like floats cs ps ≡ true
      → All (Listed strikes) cs
      → All (Listed strikes) ps
      → (length strikes == 1) ≡ false
  unfolding is_iron_condor_like
  condor_strikes (c1 ∷ c2 ∷ []) (p1 ∷ p2 ∷ []) strikes h (a, (a', _)) (b, (b', _)) =
      let (cl, ch) = sorted_pair floats c1 c2 in
      let (pl, ph) = sorted_pair floats p1 p2 in
      sorted_strikes cl ch pl ph strikes h (sorted_pair-both (Listed strikes) c1 c2 a a')
        (sorted_pair-both (Listed strikes) p1 p2 b b')
  condor_strikes _ _ strikes h a b = absurd (ground arith)

  -- Four legs that pass the test of an iron condor, with numbers as strikes, are always named "Iron
  -- Condor", so that no position is named "Iron Butterfly" on that branch.
  pub detect_strategy-iron_condor :
      (l1 l2 l3 : Leg F) (ls : List (Leg F))
      → let legs = l1 ∷ l2 ∷ l3 ∷ ls in
        is_iron_condor_like floats (legs_of call legs) (legs_of put legs) ≡ true
        → length legs ≡ 4
        → (detect_strategy floats legs).name ≡ "Iron Condor"
  unfolding detect_strategy iron_condor_info
  detect_strategy-iron_condor l1 l2 l3 ls h four =
      let legs = l1 ∷ l2 ∷ l3 ∷ ls in
      let listed = short_strikes-Listed legs in
      let strikes =
        condor_strikes (legs_of call legs) (legs_of put legs) (short_strikes floats legs) h
          (legs_of-All (Listed (short_strikes floats legs)) call legs listed)
          (legs_of-All (Listed (short_strikes floats legs)) put legs listed) in
      let four' : (length legs == 4) ≡ true = ground arith in rw (four', h, strikes) refl
