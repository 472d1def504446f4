-- ===== src/Utils.antt =====
-- utils/: prices, fills and the ring buffer.
pub mod Price
pub mod Execution
pub mod RingBuffer
