-- ===== src/Api.antt =====
-- api/v2: the requests of the HTTP layer, as far as they are checked without it.
pub mod GateB
pub mod Service
mod Tests
