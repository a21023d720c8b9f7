-- ===== src/Base/Text.antt =====
-- Texts: equality and the order by code points, as Python compares `str` values and SQLite compares
-- TEXT under its default collation; and finite sets of texts as lists.
use Prim.Native.Nat.{Ordering, compare as compare_ℕ}
use Prim.Native.Char.{Char, code}
use Prim.Native.String.{String, compare}
use Prim.Native.String.compare
use mathlib.Core.Path.{◌≡◌, refl}
use mathlib.Core.Bool.{Bool, true, false, ◌||◌}
use mathlib.Core.List.{List, [], ◌∷◌, ◌++◌}
use native.Mathlib.Omega.{arith}
use text.Mathlib.Text.{◌==◌ as str_eq}
use text.Mathlib.TextEquality.{Char-path}
use demobot.Base.Tests.{if◌then◌else◌}
pub use text.Mathlib.Text.{◌==◌ as str_eq}
pub use text.Mathlib.TextEquality.{eq_iff}

abbrev pub not_gt : Ordering → Bool
not_gt Ordering.gt = false
not_gt _ = true

-- `s <= t` on texts
unfoldable pub str_leb : String → String → Bool
str_leb s t = not_gt (compare s t)

-- The order is settled by the first character that differs.
str_leb-cons :
    (c d : Char) (s t : String)
    → str_leb (String.◌∷◌ c s) (String.◌∷◌ d t) ≡ elim (compare_ℕ (code c) (code d)) [
      | Ordering.lt ↦ true
      | Ordering.eq ↦ str_leb s t
      | Ordering.gt ↦ false
    ]
unfolding str_leb
str_leb-cons c d s t = rw compare.cons-cons (ground arith)

str_leb-nil : (t : String) → str_leb String.[] t ≡ true
unfolding str_leb
str_leb-nil String.[] = refl
str_leb-nil (String.◌∷◌ d t) = rw compare.nil-cons

str_leb-cons_nil : (c : Char) (s : String) → str_leb (String.◌∷◌ c s) String.[] ≡ false
unfolding str_leb
str_leb-cons_nil c s = rw compare.cons-nil

pub str_leb_refl : (s : String) → str_leb s s ≡ true
str_leb_refl String.[] = str_leb-nil String.[]
str_leb_refl (String.◌∷◌ c s) = ground (arith, str_leb-cons c c s s, str_leb_refl s)

pub str_leb_total : (s t : String) → str_leb s t ≡ false → str_leb t s ≡ true
str_leb_total String.[] t h = ground (arith, str_leb-nil t)
str_leb_total (String.◌∷◌ c s) String.[] h = str_leb-nil (String.◌∷◌ c s)
str_leb_total (String.◌∷◌ c s) (String.◌∷◌ d t) h =
    ground (arith, str_leb-cons c d s t, str_leb-cons d c t s, str_leb_total s t)

pub str_leb_trans : (s t u : String) → str_leb s t ≡ true → str_leb t u ≡ true → str_leb s u ≡ true
str_leb_trans String.[] t u h k = str_leb-nil u
str_leb_trans (String.◌∷◌ c s) String.[] u h k = ground (arith, str_leb-cons_nil c s)
str_leb_trans (String.◌∷◌ c s) (String.◌∷◌ d t) String.[] h k = ground (arith, str_leb-cons_nil d t)
str_leb_trans (String.◌∷◌ c s) (String.◌∷◌ d t) (String.◌∷◌ e u) h k =
    ground
      (arith, str_leb-cons c d s t, str_leb-cons d e t u, str_leb-cons c e s u, str_leb_trans s t u)

pub str_leb_antisymm : (s t : String) → str_leb s t ≡ true → str_leb t s ≡ true → s ≡ t
str_leb_antisymm String.[] String.[] h k = refl
str_leb_antisymm String.[] (String.◌∷◌ d t) h k = ground (arith, str_leb-cons_nil d t)
str_leb_antisymm (String.◌∷◌ c s) String.[] h k = ground (arith, str_leb-cons_nil c s)
str_leb_antisymm (String.◌∷◌ c s) (String.◌∷◌ d t) h k =
    let same_head : c ≡ d =
      Char-path c d (ground (arith, str_leb-cons c d s t, str_leb-cons d c t s)) in
    let same_tail : s ≡ t =
      str_leb_antisymm s t (ground (arith, str_leb-cons c d s t, str_leb-cons d c t s))
        (ground (arith, str_leb-cons c d s t, str_leb-cons d c t s)) in
    λ i. String.◌∷◌ (same_head i) (same_tail i)

-- `k in s` for a set, and `s.add(k)`
unfoldable pub mem : String → List String → Bool
mem k [] = false
mem k (x ∷ xs) = str_eq x k || mem k xs

unfoldable pub add : String → List String → List String
add k s = if mem k s then s else s ++ (k ∷ [])

pub mem-append : (k : String) (xs ys : List String) → mem k (xs ++ ys) ≡ (mem k xs || mem k ys)
unfolding mem
mem-append k [] ys = refl
mem-append k (x ∷ xs) ys = ground (arith, mem-append k xs ys)
