-- ===== src/Venues.antt =====
-- venues/: what is the venues' own logic.
pub mod Coinbase
pub mod Hyperliquid
pub mod L2Diff
pub mod Snapshot
