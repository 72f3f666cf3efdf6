-- ===== src/Blocking.antt =====
-- The classes of topics/concurrency that block on a mutex and condition variables. What a thread does
-- under the mutex is one step, and the steps of all threads come in one sequence.
pub mod Threads
pub mod ReaderWriterLock
pub mod BoundedBlockingQueue
pub mod ThreadPool
pub mod ThreadSafeQueue
pub mod Tests
