-- ===== src/V2/Orchestrator.antt =====
-- core/v2/orchestrator.py, `V2RuntimeOrchestrator`.
pub mod Building
pub mod Recovery
pub mod Loops
pub mod Runtime
pub mod Delta
pub mod Late
pub mod Ingestion
