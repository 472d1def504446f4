-- ===== src/Common.antt =====
-- common/: the types that every component shares.
pub mod Enums
pub mod Reasons
pub mod Order
pub mod Messages
pub mod MarketData
