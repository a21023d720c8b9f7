-- ===== src/V2/SnapshotPolicy/Cadence.antt =====
-- The cadence of core/v2/snapshot_policy.py over a session whose versions rise one by one, each
-- snapshot being saved when the policy asks for it.
use demobot.V2.SnapshotPolicy.{should_snapshot}
use demobot.Base.{
  Bool-cases, Option, arith, inl, inr, leb, none, some, suc, true, zero, ℕ, ◌%◌, ◌*◌, ◌+◌, ◌<◌,
  ◌==◌, ◌≡◌, ◌≤◌, false, ltb, ltb→lt,
}
use native.Mathlib.Nat.{mod_self}

-- the version of the last snapshot, after `next` has been applied
abbrev saved : ℕ → Option ℕ → ℕ → Option ℕ
saved n last next = elim (should_snapshot n last next) [
  | some (true, some target) ↦ some target
  | _ ↦ last
]

pub last_after : ℕ → ℕ → Option ℕ
last_after n zero = none
last_after n (suc k) = saved n (last_after n k) (suc k)

-- The last of the multiples of `n` up to `k`, if there is a positive one.
abbrev pub IsLastMultiple : ℕ → ℕ → Option ℕ → Type 0
IsLastMultiple n k none = k < n
IsLastMultiple n k (some v) = (m : ℕ) × (v ≡ suc m * n) × (v ≤ k) × (k < v + n)

saved_early : (n k : ℕ) → suc k < n → saved n none (suc k) ≡ none
unfolding should_snapshot
saved_early n k h = ground arith

saved_first : (n k : ℕ) → 0 < n → suc k ≡ n → saved n none (suc k) ≡ some (suc k)
unfolding should_snapshot
saved_first n k p e =
    let r : suc k % n ≡ 0 = rw e (mod_self n) in
    let q : (n == 0) ≡ false = ground arith in
    let l : leb n (suc k) ≡ true = ground arith in ground arith

saved_due : (n k v : ℕ) → suc k ≡ v + n → saved n (some v) (suc k) ≡ some (suc k)
unfolding should_snapshot
saved_due n k v e = ground arith

saved_between : (n k v : ℕ) → suc k < v + n → saved n (some v) (suc k) ≡ some v
unfolding should_snapshot
saved_between n k v h = ground arith

saved_step :
    (n k : ℕ) (last : Option ℕ)
    → 0 < n
    → IsLastMultiple n k last
    → IsLastMultiple n (suc k) (saved n last (suc k))
saved_step n k none p h = elim (Bool-cases (ltb (suc k) n)) [
  | inl a ↦ rw (saved_early n k (ltb→lt _ _ a)) (ltb→lt _ _ a)
  | inr a ↦
      let e : suc k ≡ n = ground arith in
      rw (saved_first n k p e) (0, omega arith, omega arith, omega arith)
]
saved_step n k (some v) p (m, e, lo, hi) = elim (Bool-cases (ltb (suc k) (v + n))) [
  | inl a ↦ rw (saved_between n k v (ltb→lt _ _ a)) (m, e, omega arith, ltb→lt _ _ a)
  | inr a ↦
      let d : suc k ≡ v + n = ground arith in
      rw (saved_due n k v d) (suc m, grind arith, omega arith, omega arith)
]

-- With a snapshot at every version that the policy names, the last snapshot after `k` versions is
-- the greatest positive multiple of `n` up to `k`; there is none before `n`.
pub last_after-IsLastMultiple : (n k : ℕ) → 0 < n → IsLastMultiple n k (last_after n k)
unfolding last_after
last_after-IsLastMultiple n zero p = p
last_after-IsLastMultiple n (suc k) p =
    saved_step n k (last_after n k) p (last_after-IsLastMultiple n k p)

-- The policy names the version that is being applied, or none.
pub should_snapshot_target :
    (n : ℕ) (last : Option ℕ) (next : ℕ) {target : Option ℕ}
    → should_snapshot n last next ≡ some (true, target)
    → target ≡ some next
unfolding should_snapshot
should_snapshot_target n none next h = ground arith
should_snapshot_target n (some v) next h = ground arith
