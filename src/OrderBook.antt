-- ===== src/OrderBook.antt =====
-- order_book/: one instrument's book of client orders and mirrored liquidity.
pub mod L3
pub mod Levels
pub mod State
pub mod Allocation
pub mod Operations
pub mod Mirror
pub mod Effects
pub mod Observers
