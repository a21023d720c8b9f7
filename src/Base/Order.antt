-- ===== src/Base/Order.antt =====
-- The order of floats that are numbers.
use mathlib.Core.Path.{◌≡◌}
use mathlib.Core.Bool.{Bool, true, false}

-- A strict weak order: `float` without NaN.
pub record IsOrder {F : Type 0} (less : F → F → Bool) : Type 0 where
  pub less_irrefl : (a : F) → less a a ≡ false
  pub less_asym : (a b : F) → less a b ≡ true → less b a ≡ false
  pub not_less_trans : (a b c : F) → less a b ≡ false → less b c ≡ false → less a c ≡ false
