-- ===== src/Arbitrage/Orchestrator/Bounds.antt =====
-- core/arbitrage/orchestrator.py: how long the lists of a session may become.
use demobot.Arbitrage.Orchestrator.{capped, last_n, pop_excess}
use demobot.Base.{
  Bool-cases, List, [], arith, drop, inl, inr, length, length-drop, ltb, refl, suc, zero, ℕ, ◌-◌,
  ◌<◌, ◌∷◌, ◌≡◌, ◌≤◌, ap,
}

zero_sub : (n : ℕ) → 0 ≡ 0 - n
zero_sub n = omega arith

module _ {ℓ} {A : Type ℓ} where
  length-last_n : (n : ℕ) (xs : List A) → 0 < n → length (last_n n xs) ≤ n
  unfolding last_n
  length-last_n zero xs h = omega arith
  length-last_n (suc n) xs h = omega (arith, length-drop (length xs - suc n) xs)

  -- A list that is capped is within the limit, where the limit is not 0.
  pub length-capped : (most : ℕ) (xs : List A) → 0 < most → length (capped most xs) ≤ most
  length-capped most xs h = elim (Bool-cases (ltb most (length xs))) [
    | inl over ↦ rw over (length-last_n most xs h)
    | inr under ↦ rw under (ground arith)
  ]

  -- At 0 nothing is ever cut off.
  pub capped_zero : (xs : List A) → capped 0 xs ≡ xs
  unfolding last_n
  capped_zero [] = refl
  capped_zero (x ∷ xs) = ground arith

  -- The loop ends with the newest elements, as many as the limit allows.
  pop_excess-eq-drop : (most : ℕ) (xs : List A) → pop_excess most xs ≡ drop (length xs - most) xs
  unfolding pop_excess
  pop_excess-eq-drop most [] = ap (λ n. drop n []) (zero_sub most)
  pop_excess-eq-drop most (x ∷ xs) = elim (Bool-cases (ltb most (suc (length xs)))) [
    | inl over ↦
        let one_more : suc (length xs) - most ≡ suc (length xs - most) = ground arith in
        rw (over, one_more) (pop_excess-eq-drop most xs)
    | inr under ↦
        let none_more : suc (length xs) - most ≡ 0 = ground arith in rw (under, none_more) refl
  ]

  pub length-pop_excess : (most : ℕ) (xs : List A) → length (pop_excess most xs) ≤ most
  length-pop_excess most xs =
      rw (pop_excess-eq-drop most xs) (omega (arith, length-drop (length xs - most) xs))
