-- ===== src/Strategy.antt =====
-- core/strategy_detector.py and the legs of core/models.py: which strategy a list of option legs is.
pub mod Builders
pub mod Legs
pub mod Shapes
pub mod Detection
mod Tests
