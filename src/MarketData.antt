-- ===== src/MarketData.antt =====
-- core/market_data: what is looked up in a snapshot of the market.
pub mod DfLookup
mod Tests
