-- ===== src/Ring/Interleaved.antt =====
-- `SPSCRingBuffer` of topics/concurrency/lockfree_spsc_ring_buffer.cpp with its two threads: each
-- step is one access of shared memory, and the threads' steps come in any order. Loads and stores
-- take effect at once (sequential consistency). The acquire and release orders of the program are
-- not modelled.
pub mod Defs
pub mod Steps
pub mod Order
