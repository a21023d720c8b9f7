-- ===== src/Portfolio/Positions.antt =====
-- core/portfolio/v2_reducer.py: the dict of positions, which keeps one position for each key.
use demobot.Portfolio.Model.{Position, Python}
use demobot.Portfolio.Reducer.{pop_position, set_position}
use demobot.Json.{Json}
use demobot.Base.{
  Bool-cases, List, Option, [], false, if◌then◌else◌, inl, inr, none, refl, some, sym, true, ◌∙◌,
  ◌∷◌, ◌≡◌,
}

-- `==` of keys is an equality.
pub record IsEquality (python : Python) : Type 0 where
  pub same_refl : (a : Json) → python.same_key a a ≡ true
  pub same_sym : (a b : Json) → python.same_key a b ≡ python.same_key b a
  pub same_left :
      (a b c : Json) → python.same_key a b ≡ true → python.same_key a c ≡ python.same_key b c

module _ (python : Python) where
  open python use {same_key}

  -- `positions.get(k)`
  unfoldable pub position_at : Json → List (Json × Position) → Option Position
  position_at k [] = none
  position_at k ((j, q) ∷ ps) = let rest = position_at k ps in if same_key j k then some q else rest

  -- No two positions have the same key.
  abbrev pub IsKeyed : List (Json × Position) → Type 0
  IsKeyed [] = Unit
  IsKeyed ((j, q) ∷ ps) = (position_at j ps ≡ none) × IsKeyed ps

  module _ (equality : IsEquality python) where
    open equality use {same_refl, same_sym, same_left}

    same_right : (a b c : Json) → same_key b c ≡ true → same_key a b ≡ same_key a c
    same_right a b c h = same_sym a b ∙ (same_left b c a h ∙ same_sym c a)

    pub position_at-set_position :
        (k : Json) (p : Position) (ps : List (Json × Position))
        → position_at k (set_position python k p ps) ≡ some p
    unfolding position_at set_position
    position_at-set_position k p [] = rw (same_refl k) refl
    position_at-set_position k p ((j, q) ∷ ps) = elim (Bool-cases (same_key j k)) [
      | inl h ↦ rw (h, set_position) (rw h refl)
      | inr h ↦ rw (h, set_position) (rw h (position_at-set_position k p ps))
    ]

    pub position_at-set_position_other :
        (k i : Json) (p : Position) (ps : List (Json × Position))
        → same_key k i ≡ false
        → position_at i (set_position python k p ps) ≡ position_at i ps
    unfolding position_at set_position
    position_at-set_position_other k i p [] other = rw other refl
    position_at-set_position_other k i p ((j, q) ∷ ps) other = elim (Bool-cases (same_key j k)) [
      | inl h ↦ rw (h, set_position) (rw (same_left j k i h, other) refl)
      | inr h ↦ rw (h, set_position) (rw (position_at-set_position_other k i p ps other) refl)
    ]

    pub position_at-pop_position_other :
        (k i : Json) (ps : List (Json × Position))
        → same_key k i ≡ false
        → position_at i (pop_position python k ps) ≡ position_at i ps
    unfolding position_at pop_position
    position_at-pop_position_other k i [] other = refl
    position_at-pop_position_other k i ((j, q) ∷ ps) other = elim (Bool-cases (same_key j k)) [
      | inl h ↦ rw (h, pop_position) (rw (same_left j k i h, other) refl)
      | inr h ↦ rw (h, pop_position) (rw (position_at-pop_position_other k i ps other) refl)
    ]

    position_at-same :
        (j k : Json) (ps : List (Json × Position))
        → same_key j k ≡ true
        → position_at j ps ≡ position_at k ps
    unfolding position_at
    position_at-same j k [] h = refl
    position_at-same j k ((i, q) ∷ ps) h = rw (same_right i j k h, position_at-same j k ps h) refl

    pub position_at-pop_position :
        (k : Json) (ps : List (Json × Position))
        → IsKeyed ps
        → position_at k (pop_position python k ps) ≡ none
    unfolding position_at pop_position
    position_at-pop_position k [] keyed = refl
    position_at-pop_position k ((j, q) ∷ ps) (alone, keyed) = elim (Bool-cases (same_key j k)) [
      | inl h ↦ rw (h, pop_position) (sym (position_at-same j k ps h) ∙ alone)
      | inr h ↦ rw (h, pop_position) (rw h (position_at-pop_position k ps keyed))
    ]

    pub set_position-IsKeyed :
        (k : Json) (p : Position) (ps : List (Json × Position))
        → IsKeyed ps
        → IsKeyed (set_position python k p ps)
    unfolding set_position position_at
    set_position-IsKeyed k p [] keyed = (refl, tt)
    set_position-IsKeyed k p ((j, q) ∷ ps) (alone, keyed) = elim (Bool-cases (same_key j k)) [
      | inl h ↦ rw (h, set_position, IsKeyed) (alone, keyed)
      | inr h ↦
          rw (h, set_position, IsKeyed)
            (
              position_at-set_position_other k j p ps (same_sym k j ∙ h) ∙ alone,
              set_position-IsKeyed k p ps keyed,
            )
    ]

    pub pop_position-IsKeyed :
        (k : Json) (ps : List (Json × Position)) → IsKeyed ps → IsKeyed (pop_position python k ps)
    unfolding pop_position position_at
    pop_position-IsKeyed k [] keyed = tt
    pop_position-IsKeyed k ((j, q) ∷ ps) (alone, keyed) = elim (Bool-cases (same_key j k)) [
      | inl h ↦ rw (h, pop_position, IsKeyed) keyed
      | inr h ↦
          rw (h, pop_position, IsKeyed)
            (
              position_at-pop_position_other k j ps (same_sym k j ∙ h) ∙ alone,
              pop_position-IsKeyed k ps keyed,
            )
    ]
