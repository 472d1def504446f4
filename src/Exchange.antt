-- ===== src/Exchange.antt =====
-- exchange/: what a venue keeps for one instrument.
pub mod TradedCredit
pub mod Reports
pub mod Symbol
pub mod Session
pub mod Requests
pub mod MarketEvents
