-- ===== src/Portfolio.antt =====
-- core/portfolio/v2_reducer.py and v2_models.py: the portfolio that the events of a session add up to.
pub mod Model
pub mod Reducer
pub mod Positions
pub mod Upserts
pub mod Laws
mod Tests
