-- ===== src/Arbitrage.antt =====
-- core/arbitrage: the search for opportunities across venues, their lifecycle, the execution gate, the
-- scores, and the orchestrator of sessions.
pub mod Model
pub mod Fx
pub mod Engine
pub mod Lifecycle
pub mod Gate
pub mod Scoring
pub mod Orchestrator
pub mod Tests
