-- ===== src/Strategy/Legs.antt =====
-- core/models.py, `Leg`, and the utilities of core/strategy_detector.py. The arithmetic of `float` is a
-- parameter: a record of the operations that the code uses.
use demobot.Json.{negsuc, pos, ℤ}
use demobot.Base.{Bool, List, [], false, if◌then◌else◌, suc, true, zero, ℕ, ◌+◌, ◌∷◌}

pub data Side : Type 0 where
  long short : Side

pub data CallPut : Type 0 where
  call put : CallPut

pub record Floats (F : Type 0) : Type 0 where
  pub less : F → F → Bool
  pub equal : F → F → Bool
  pub nought : F
  pub plus : F → F → F
  pub times : F → F → F
  pub of_int : ℤ → F

-- A quantity is never negative here.
pub record Leg (F : Type 0) : Type 0 where
  pub side : Side
  pub cp : CallPut
  pub strike : F
  pub quantity : ℕ
  pub premium : F

abbrev pub same_side : Side → Side → Bool
same_side long long = true
same_side short short = true
same_side _ _ = false

abbrev pub same_cp : CallPut → CallPut → Bool
same_cp call call = true
same_cp put put = true
same_cp _ _ = false

-- `-n`
abbrev pub negated : ℕ → ℤ
negated zero = pos zero
negated (suc n) = negsuc n

module _ {F : Type 0} where
  -- `[leg for leg in position.legs if leg.cp == cp]`
  unfoldable pub legs_of : CallPut → List (Leg F) → List (Leg F)
  legs_of cp [] = []
  legs_of cp (l ∷ ls) = if same_cp l.cp cp then l ∷ legs_of cp ls else legs_of cp ls

  -- `_signed_quantity`
  abbrev pub signed_quantity : Leg F → ℤ
  signed_quantity l = elim l.side [ long ↦ pos l.quantity | short ↦ negated l.quantity ]

  -- `sum(leg.quantity for leg in legs if leg.side == side)`
  unfoldable pub total_of : Side → List (Leg F) → ℕ
  total_of side [] = 0
  total_of side (l ∷ ls) = (if same_side l.side side then l.quantity else 0) + total_of side ls
