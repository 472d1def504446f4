-- ===== src/Examples.antt =====
-- Concrete inputs: tests of the definitions, and runs to which the theorems apply.
pub mod Book
pub mod Matching
pub mod Numbers
pub mod Gateway
pub mod Venue
pub mod Rings
pub mod Diff
pub mod Snapshot
pub mod Session
pub mod Market
pub mod Coinbase
pub mod Hyperliquid
pub mod Fix
