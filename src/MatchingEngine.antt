-- ===== src/MatchingEngine.antt =====
-- matching_engine/: the engines that fill an incoming order against the book.
pub mod Publish
pub mod SelfMatch
pub mod Prepare
pub mod Fill
pub mod Limit
pub mod Tape
pub mod Fills
pub mod Fifo
pub mod ProRata
