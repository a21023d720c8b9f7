-- ===== src/V2/SnapshotPolicy.antt =====
-- core/v2/snapshot_policy.py: when to take a snapshot.
pub mod Cadence
use demobot.Base.{Bool, Option, false, if◌then◌else◌, leb, none, some, true, ℕ, ◌%◌, ◌+◌, ◌==◌}

-- `EveryNSnapshotPolicy(n).should_snapshot`: `none` is the ZeroDivisionError of `% 0`.
unfoldable pub should_snapshot : ℕ → Option ℕ → ℕ → Option (Bool × Option ℕ)
should_snapshot n last next = if next == 0 then some (false, none) else elim last [
  | none ↦
      if leb n next
      then if n == 0
        then none
        else if next % n == 0
        then some (true, some next)
        else some (false, none)
      else some (false, none)
  | some v ↦ if next == v + n then some (true, some (v + n)) else some (false, none)
]
