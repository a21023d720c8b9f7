-- ===== src/V2/SnapshotStore.antt =====
-- core/v2/snapshot_store.py, the protocol `SnapshotStore`: what the orchestrator asks of it.
pub mod Memory
pub mod Sqlite
use demobot.Base.{Option, String}
use demobot.V2.Model.{Snapshot}

pub record SnapshotStore (T : Type 0) : Type 0 where
  pub save : Snapshot → T → T
  pub latest : String → T → Option Snapshot
