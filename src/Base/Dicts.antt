-- ===== src/Base/Dicts.antt =====
-- A Python dict keyed by texts: an association list in insertion order.
use Prim.Native.Nat.{◌+◌}
use Prim.Native.String.{String}
use mathlib.Core.Path.{subst, ◌≡◌, refl, ap}
use mathlib.Core.Bool.{Bool, true, false, ◌||◌}
use mathlib.Core.Option.{Option, none, some}
use mathlib.Core.List.{List, [], ◌∷◌, ◌++◌}
use native.Mathlib.Omega.{arith}
use text.Mathlib.TextPositions.{eq_refl}
use demobot.Base.Tests.{if◌then◌else◌, Bool-cases}
use mathlib.Core.Logic.{inl, inr}
use demobot.Base.Lists.{length, All}
use demobot.Base.Text.{str_eq, eq_iff, mem}

abbrev pub Dict {ℓ} : Type ℓ → Type ℓ
Dict V = List (String × V)

module _ {ℓ} {V : Type ℓ} where
  -- `d.get(k)`
  unfoldable pub lookup : String → Dict V → Option V
  lookup k [] = none
  lookup k ((j, v) ∷ d) = if str_eq j k then some v else lookup k d

  -- `k in d`
  unfoldable pub contains : String → Dict V → Bool
  contains k [] = false
  contains k ((j, v) ∷ d) = str_eq j k || contains k d

  -- `d[k] = v`: a known key keeps its place, a new one goes to the end.
  unfoldable pub insert : String → V → Dict V → Dict V
  insert k v [] = (k, v) ∷ []
  insert k v ((j, w) ∷ d) = if str_eq j k then (j, v) ∷ d else (j, w) ∷ insert k v d

  unfoldable pub keys : Dict V → List String
  keys [] = []
  keys ((j, v) ∷ d) = j ∷ keys d

  pub contains-eq-mem-keys : (k : String) (d : Dict V) → contains k d ≡ mem k (keys d)
  unfolding contains keys mem
  contains-eq-mem-keys k [] = refl
  contains-eq-mem-keys k ((j, v) ∷ d) = ground (arith, contains-eq-mem-keys k d)

  -- A key is in the dict exactly when looking it up finds a value.
  pub lookup-none_of_contains : (k : String) (d : Dict V) → contains k d ≡ false → lookup k d ≡ none
  unfolding contains lookup
  lookup-none_of_contains k [] h = refl
  lookup-none_of_contains k ((j, v) ∷ d) h = ground (arith, lookup-none_of_contains k d)

  pub lookup-insert :
      (k j : String) (v : V) (d : Dict V)
      → lookup j (insert k v d) ≡ (if str_eq k j then some v else lookup j d)
  unfolding lookup insert
  lookup-insert k j v [] = refl
  lookup-insert k j v ((i, w) ∷ d) =
      ground (arith, eq_iff k j, eq_iff i k, eq_iff i j, lookup-insert k j v d)

  pub contains-insert :
      (k j : String) (v : V) (d : Dict V) → contains j (insert k v d) ≡ (str_eq k j || contains j d)
  unfolding contains insert
  contains-insert k j v [] = refl
  contains-insert k j v ((i, w) ∷ d) =
      ground (arith, eq_iff k j, eq_iff i k, eq_iff i j, contains-insert k j v d)

  pub insert_new :
      (k : String) (v : V) (d : Dict V) → contains k d ≡ false → insert k v d ≡ d ++ ((k, v) ∷ [])
  unfolding contains insert
  insert_new k v [] h = refl
  insert_new k v ((j, w) ∷ d) h = ground (arith, insert_new k v d)

  pub length-insert :
      (k : String) (v : V) (d : Dict V)
      → length (insert k v d) ≡ (if contains k d then length d else length d + 1)
  unfolding contains insert
  length-insert k v [] = omega arith
  length-insert k v ((j, w) ∷ d) = ground (arith, length-insert k v d)

  pub keys-append : (d d' : Dict V) → keys (d ++ d') ≡ keys d ++ keys d'
  unfolding keys
  keys-append [] d' = refl
  keys-append ((j, v) ∷ d) d' = ap (◌∷◌ j) (keys-append d d')

  pub lookup-insert_self : (k : String) (v : V) (d : Dict V) → lookup k (insert k v d) ≡ some v
  lookup-insert_self k v d = ground (arith, lookup-insert k k v d, eq_refl k)

  pub keys_snoc : (k : String) (v : V) (d : Dict V) → keys (d ++ ((k, v) ∷ [])) ≡ keys d ++ (k ∷ [])
  unfolding keys
  keys_snoc k v [] = refl
  keys_snoc k v ((j, w) ∷ d) = ap (◌∷◌ j) (keys_snoc k v d)

  pub lookup-some_of_contains :
      (k : String) (d : Dict V) → contains k d ≡ true → (v : V) × (lookup k d ≡ some v)
  unfolding contains lookup
  lookup-some_of_contains k [] h = cc
  lookup-some_of_contains k ((j, w) ∷ d) h = elim (Bool-cases (str_eq j k)) [
    | inl e ↦ (w, rw e)
    | inr e ↦ rw e (lookup-some_of_contains k d (ground arith))
  ]

  none-ne-some : (v : V) → ¬ (◌≡◌ {A = Option V} none (some v))
  none-ne-some v h = cc

  some-inj : (v w : V) → ◌≡◌ {A = Option V} (some v) (some w) → v ≡ w
  some-inj v w h = cc

  -- What holds of every value holds of one that is found.
  pub All-lookup {κ} :
      (P : V → Type κ) (k : String) (v : V) (d : Dict V)
      → All (λ e. P e.1) d
      → lookup k d ≡ some v
      → P v
  unfolding lookup
  All-lookup P k v [] h e = absurd (none-ne-some v e)
  All-lookup P k v ((j, w) ∷ d) h e = elim (Bool-cases (str_eq j k)) [
    | inl q ↦
        let same : ◌≡◌ {A = Option V} (some w) (some v) = rw (q, lookup) at e in
        subst P (some-inj w v same) h.0
    | inr q ↦ All-lookup P k v d h.1 (rw (q, lookup) at e)
  ]

  -- No key stands twice.
  unfoldable pub IsDict : Dict V → Type 0
  IsDict [] = Unit
  IsDict ((k, v) ∷ d) = (contains k d ≡ false) × IsDict d

  pub insert-IsDict : (k : String) (v : V) (d : Dict V) → IsDict d → IsDict (insert k v d)
  unfolding insert IsDict contains
  insert-IsDict k v [] h = (refl, tt)
  insert-IsDict k v ((j, w) ∷ d) h = elim (Bool-cases (str_eq j k)) [
    | inl e ↦ rw e h
    | inr e ↦
        rw e
          (ground (arith, contains-insert k j v d, eq_iff k j, eq_iff j k), insert-IsDict k v d h.1)
  ]

  -- A property of every entry, after one of them is set: it may change at the other keys.
  module _ {κ κ'} (P : String × V → Type κ) (Q : String × V → Type κ') where
    All-others :
        (k : String) (d : Dict V)
        → contains k d ≡ false
        → ((j : String) (w : V) → str_eq j k ≡ false → P (j, w) → Q (j, w))
        → All P d
        → All Q d
    unfolding contains
    All-others k [] absent keep h = tt
    All-others k ((j, w) ∷ d) absent keep h =
        (keep j w (ground arith) h.0, All-others k d (ground arith) keep h.1)

    pub All-insert :
        (k : String) (v : V) (d : Dict V)
        → IsDict d
        → Q (k, v)
        → ((j : String) (w : V) → str_eq j k ≡ false → P (j, w) → Q (j, w))
        → All P d
        → All Q (insert k v d)
    unfolding insert IsDict
    All-insert k v [] distinct new keep h = (new, tt)
    All-insert k v ((j, w) ∷ d) distinct new keep h = elim (Bool-cases (str_eq j k)) [
      | inl e ↦
          let same : j ≡ k = (eq_iff j k).0 e in
          rw e (rw same new, All-others k d (rw (← same) distinct.0) keep h.1)
      | inr e ↦ rw e (keep j w e h.0, All-insert k v d distinct.1 new keep h.1)
    ]
