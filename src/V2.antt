-- ===== src/V2.antt =====
-- core/v2: the event-sourced runtime.
pub mod Model
pub mod Ordering
pub mod Fresh
pub mod EventStore
pub mod SnapshotPolicy
pub mod SnapshotStore
pub mod Replay
pub mod Orchestrator
mod Tests
