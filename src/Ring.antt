-- ===== src/Ring.antt =====
-- The single-producer single-consumer rings of the program, one module to a class, as the thread
-- that owns an index sees them: each call runs to its end. `Interleaved` has the two threads.
pub mod Window
pub mod Indices
pub mod RingBuffer
pub mod SpscRingBuffer
pub mod SpscRing
pub mod MaskedRing
pub mod SpscQueue
pub mod MarketDataQueue
pub mod WaitFreeSpscQueue
pub mod Interleaved
mod Tests
