-- ===== src/Treasury.antt =====
-- core/services, the limits of counterparties on hedges and the policy on their ratio.
pub mod Limits
pub mod Policy
mod Tests
