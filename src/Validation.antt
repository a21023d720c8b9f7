-- ===== src/Validation.antt =====
-- core/validation: the checks of commands before they reach the runtime.
pub mod Errors
pub mod Registry
pub mod Idempotency
pub mod Sequence
pub mod Modes
pub mod Workflow
pub mod Scaffold
mod Tests
