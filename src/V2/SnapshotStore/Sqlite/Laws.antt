-- ===== src/V2/SnapshotStore/Sqlite/Laws.antt =====
-- What the SQLite snapshot store returns: the greatest version, and what was saved first.
use text.Mathlib.TextPositions.{eq_refl}
use mathlib.Core.Path.{subst}
use demobot.V2.Model.{Snapshot}
use demobot.V2.SnapshotStore.Sqlite.{Table, find_at, greatest, get_at_or_before, get_latest, put}
use demobot.Base.{
  All, Bool, Option, String, [], none, some, true, ℕ, ◌∷◌, ◌≡◌, ◌≢◌, ◌≤◌, All-map, Bool-cases,
  arith, eq_iff, false, if◌then◌else◌, inl, inr, leb, ltb, refl, str_eq, ◌&&◌, ◌++◌, ◌==◌,
}
use native.Mathlib.Nat.{le_trans}

-- a row of the session that `keep` lets through
abbrev pub IsCandidate : (ℕ → Bool) → String → Snapshot → Type 0
IsCandidate keep sid s = (s.session_id ≡ sid) × (keep s.version ≡ true)

-- `best` is a candidate of the table, and no candidate has a greater version; without one there is
-- no candidate.
abbrev IsGreatest : (ℕ → Bool) → String → Table → Option Snapshot → Type 0
IsGreatest keep sid t none = All (λ s. ¬ (IsCandidate keep sid s)) t
IsGreatest keep sid t (some best) =
    IsCandidate keep sid best
    × (find_at sid best.version t ≢ none)
    × All (λ s. IsCandidate keep sid s → s.version ≤ best.version) t

-- one round of `greatest`, from the answer for the rest of the table
abbrev pick : Bool → Snapshot → Option Snapshot → Option Snapshot
pick false s best = best
pick true s none = some s
pick true s (some best) = if ltb s.version best.version then some best else some s

greatest-cons :
    (keep : ℕ → Bool) (sid : String) (s : Snapshot) (t : Table)
    → greatest keep sid (s ∷ t)
      ≡ pick (str_eq s.session_id sid && keep s.version) s (greatest keep sid t)
unfolding greatest
greatest-cons keep sid s t = ground arith

find_at-cons :
    (sid : String) (v : ℕ) (s : Snapshot) (t : Table)
    → find_at sid v t ≢ none
    → find_at sid v (s ∷ t) ≢ none
unfolding find_at
find_at-cons sid v s t h = ground arith

find_at_here : (s : Snapshot) (t : Table) → find_at s.session_id s.version (s ∷ t) ≢ none
unfolding find_at
find_at_here s t = ground (arith, eq_refl s.session_id)

module _ (keep : ℕ → Bool) (sid : String) (s : Snapshot) (t : Table) where
  pick_skipped :
      (o : Option Snapshot)
      → ¬ (IsCandidate keep sid s)
      → IsGreatest keep sid t o
      → IsGreatest keep sid (s ∷ t) o
  pick_skipped none no_s h = (no_s, h)
  pick_skipped (some best) no_s (c, f, h) =
      (c, find_at-cons sid best.version s t f, ((λ k. absurd (no_s k)), h))

  pick_taken :
      (o : Option Snapshot)
      → IsCandidate keep sid s
      → IsGreatest keep sid t o
      → IsGreatest keep sid (s ∷ t) (pick true s o)
  pick_taken none c h = (
    c,
    subst (λ k. find_at k s.version (s ∷ t) ≢ none) c.0 (find_at_here s t),
    ((λ _. omega arith), All-map t (λ x no_x k. absurd (no_x k)) h),
  )
  pick_taken (some best) c (cb, f, h) = elim (Bool-cases (ltb s.version best.version)) [
    | inl l ↦ rw l (cb, find_at-cons sid best.version s t f, ((λ _. ground arith), h))
    | inr l ↦
        let up : best.version ≤ s.version = ground arith in
        rw l (
          c,
          subst (λ k. find_at k s.version (s ∷ t) ≢ none) c.0 (find_at_here s t),
          ((λ _. omega arith), All-map t (λ x le_best k. le_trans (le_best k) up) h),
        )
  ]

greatest-IsGreatest :
    (keep : ℕ → Bool) (sid : String) (t : Table) → IsGreatest keep sid t (greatest keep sid t)
unfolding greatest
greatest-IsGreatest keep sid [] = tt
greatest-IsGreatest keep sid (s ∷ t) =
    elim (Bool-cases (str_eq s.session_id sid && keep s.version)) [
      | inl h ↦
          rw (greatest-cons keep sid s t, h)
            (pick_taken keep sid s t (greatest keep sid t) (ground (arith, eq_iff s.session_id sid))
              (greatest-IsGreatest keep sid t))
      | inr h ↦
          rw (greatest-cons keep sid s t, h)
            (pick_skipped keep sid s t (greatest keep sid t)
              (λ c. ground (arith, eq_iff s.session_id sid)) (greatest-IsGreatest keep sid t))
    ]

-- `get_at_or_before` returns a row of the session at or before the version asked for, and no such
-- row has a greater version; it returns nothing only when there is no such row.
get_at_or_before-IsGreatest :
    (sid : String) (v : ℕ) (t : Table) → IsGreatest (λ k. leb k v) sid t (get_at_or_before sid v t)
unfolding get_at_or_before
get_at_or_before-IsGreatest sid v t = greatest-IsGreatest (λ k. leb k v) sid t

-- `get_latest` returns a row of the session of the greatest version, and nothing only when the
-- session has no row.
get_latest-IsGreatest : (sid : String) (t : Table) → IsGreatest (λ _. true) sid t (get_latest sid t)
unfolding get_latest
get_latest-IsGreatest sid t = greatest-IsGreatest (λ _. true) sid t

find_at_single :
    (snap : Snapshot) (sid : String) (v : ℕ)
    → find_at sid v (snap ∷ [])
      ≡ (if str_eq snap.session_id sid && snap.version == v then some snap else none)
unfolding find_at
find_at_single snap sid v = refl

find_at-append :
    (sid : String) (v : ℕ) (t u : Table)
    → find_at sid v (t ++ u) ≡ elim (find_at sid v t) [ none ↦ find_at sid v u | some s ↦ some s ]
unfolding find_at
find_at-append sid v [] u = refl
find_at-append sid v (s ∷ t) u = ground (arith, find_at-append sid v t u)

-- Snapshots are immutable: after a `put`, a version that was taken holds what it held, the version
-- that is put is taken by the new snapshot if it was free, and no other version is touched.
pub put_first_wins :
    (snap : Snapshot) (t : Table) (sid : String) (v : ℕ)
    → find_at sid v (put snap t) ≡ elim (find_at sid v t) [
      | some s ↦ some s
      | none ↦ if str_eq snap.session_id sid && snap.version == v then some snap else none
    ]
unfolding put
put_first_wins snap t sid v = ground (
  arith,
  find_at-append sid v t (snap ∷ []),
  find_at_single snap sid v,
  eq_iff snap.session_id sid,
)
