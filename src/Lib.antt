-- ===== src/Lib.antt =====
-- Learn-C++: the data structures and algorithms of the repository, modelled from their C++ source,
-- with the theorems that make them correct.
--
-- The repository is a collection of programs, each with its own classes. The modules follow them.
--
-- Prelude: names, Boolean tests, 64-bit addition, lists indexed by native numbers, and masks.
--
-- Fifo and Ring: the single-producer single-consumer rings. `Fifo` is what each of them promises, a
--   bounded queue, as a record that every class fills.
--   Ring.RingBuffer         topics/language/spsc_ring_buffer.cpp, RingBuffer
--   Ring.SpscRingBuffer     topics/concurrency/lockfree_spsc_ring_buffer.cpp, SPSCRingBuffer
--   Ring.Interleaved        the same class as two threads whose loads and stores interleave
--   Ring.SpscRing           topics/domain_sketches/hft_capstone_pipeline.cpp, SpscRing
--   Ring.MaskedRing         topics/concurrency/notes_spsc_bump_vs_double_ring.cpp, SPSCRing
--   Ring.SpscQueue          extras/latency/common.hpp, SPSCQueue
--   Ring.MarketDataQueue    topics/domain_sketches/market_data_message_queue.cpp, MarketDataQueue
--   Ring.WaitFreeSpscQueue  topics/concurrency/waitfree_spsc_queue.cpp, WaitFreeSPSCQueue
--   An atomic is its value. Where threads interleave, each load and store of an atomic and each
--   access of a slot is a step of its own, and the steps of both threads come in one sequence. The
--   weaker orders that `memory_order_acquire` and `memory_order_release` allow are not modelled.
--
-- Reconciler: extras/citadel_interview/main.cpp, classes that reconcile three feeds of executions.
--   `Interface` is what `runBench` uses of a class; `Agreement` relates the states of two classes.
--   VectorScan, UnorderedScan, UnorderedHeap, UnorderedHeapReserved, DirectIndexHeap,
--   DirectIndexWheel, FlatHashHeap and FlatHashWheel model the classes of those names with the prefix
--   `Reconciler`; `ExpiryHeap`, `DirectIndex` and `FlatHash` hold what several of them share; `Bench`
--   is `runBench`; `Calls` is any sequence of calls; `Verdict` compares what `runBench` returns.
--   `FlatHash` is the open-addressing table of the last two: `Probe` and `Keys` treat its searches,
--   `Insert` its insertions, `Models` and `Upsert` the map that it holds, `Capacity` its constructor,
--   `Endless` a table without an empty slot.
--   `uint64_t` sums wrap. `std::unordered_map` is an association list and `std::priority_queue` a
--   sorted list: no result depends on the order among equal elements. The type `double` and its `==`
--   are parameters. The loops of `runBench` take fuel, one more than the time that they run up to,
--   which `Bench.Returns` shows to be enough. The loop of the wheel's `onTimer` takes as much fuel as
--   there are ticks to run. A search of the flat hash table takes as much fuel as there are slots, and
--   the doubling in its constructor 64 rounds; the operations of the two classes return `none` where
--   that does not do, and `FlatHash` shows it to be enough while a slot is empty. `makeWorkload` (a
--   random engine) and `benchOne` (a clock) are not modelled.
--
-- OrderBook: topics/domain_sketches/order_book_matching_engine.cpp. `OrderBook` holds the code,
--   `Matching` the quantities, `Level` and `Invariant` the two sides, `Book` the whole book. The maps
--   are lists of levels from the best one on. Prices and quantities, `int64_t` in the source, are
--   natural numbers here: orders below zero are not modelled.
--
-- SmartContainer: topics/memory/smart_container/SmartContainer.h. `SmartContainer` holds the code,
--   `View` what each operation does to the list that a container holds, `Assign` the assignments,
--   `Contract` sequences of calls, `Iterator` the iterators and `Traversal` a loop over a container like
--   those of topics/memory/smart_container/demo.cpp. `std::size_t` wraps. The lifetimes of elements,
--   allocation failure and `const_iterator`, whose code is that of `iterator`, are not modelled.
--
-- Pool: the free lists of `MemoryPool` in extras/latency/common.hpp, `FixedSizePool` in
--   topics/memory/fixed_size_memory_pool.cpp and `SlabSlotPool` in topics/memory/slab_allocator.cpp,
--   whose code is that of `FixedSizePool`. `Pool` holds the code, `Chain` the list as pointers through
--   the blocks, `Blocks` and `Growth` which blocks are free. A block is its number; that a free
--   block's first bytes hold the pointer, and what its user writes there, is not modelled.
--
-- LruCache: topics/memory/lru_cache.cpp. `LruCache` holds the code, with nodes that have addresses and a map
--   from keys to addresses, `Links` how the two fit, `Recency` the cache as a list, `Calls` sequences of calls.
--   `none` is a call that is undefined in the source.
--
-- TimerWheel: topics/io/timer_wheel.cpp. `TimerWheel` holds the code, `Due` when a callback runs. A
--   division by zero is `none`. The mutex, the clock, and negative delays and intervals are not modelled.
--
-- Sorting and Searching: topics/appendix/classic_algorithms, sort.cpp and search.cpp. Where elements are
--   only compared, a natural number stands for an `int` in the same order; where they are added, an
--   `int` is its bit pattern and sums wrap. `Sorting.Occurrences` counts elements, `Sorting.Sorted` has
--   `bubbleSort` and `insertionSort`, `Sorting.Selection` `selectionSort`. The binary searches take a number of rounds.
--
-- Factors: topics/concurrency/parallel_math/lib.h. `Division` and `Primes` are about `get_factors`, whose
--   loops take as many rounds as the number; `Common` is about `get_common_factors`. The programs
--   main.cpp and main2.cpp, which run both on threads, are not modelled.
--
-- Blocking: classes of topics/concurrency with a mutex and condition variables. What a thread does under
--   the mutex is one step; a thread that waits is asleep until a notification or a spurious wakeup makes it
--   test its predicate again. `Threads` counts threads and models `notify_one`.
--   Blocking.ReaderWriterLock      reader_writer_lock.cpp, ReaderWriterLock
--   Blocking.BoundedBlockingQueue  bounded_blocking_queue.cpp, BoundedBlockingQueue
--   Blocking.ThreadSafeQueue       thread_safe_queue.cpp, ThreadSafeQueue
--   Blocking.ThreadPool            thread_pool.cpp, ThreadPool, whose calls of `submit` and of the destructor
--     notify in a step of its own, after the mutex
--
-- HotLoop: topics/microarchitecture/hot_loop_optimization.cpp. `_mm_add_epi32` adds lanes that wrap.
--
-- Particles: topics/microarchitecture/aos_vs_soa_particles.cpp. `Particles` holds the three systems on
--   the vector of structs and on the struct of vectors, `Agree` the two next to each other. `float`, its
--   sum and product and the weights of the renderer are parameters.
--
-- OpenAddressing: topics/microarchitecture/cache_friendly_hash_table.cpp, OpenAddressingHashTable.
--   `OpenAddressing` holds the code, `Search` the loop of `find`, `Place` the loop of `insert`, `Valid`,
--   `Put` and `Update` what an insertion does to a table with room, `Rehash` and `Insert` the whole of
--   `insert`. `std::hash` and `==` on keys are parameters. `insert` and `rehash` call each other: the
--   depth of those calls is fuel, and two is enough. A capacity of 0, by which the source divides, is
--   not considered.
--
-- Not modelled: the other programs of topics/microarchitecture, which measure time, system calls (topics/io
-- servers, extras/latency servers, fork and mmap), demonstrations of language features
-- (topics/language, snippets), and the Python tools. The other classes of topics/concurrency and
-- topics/io are left out too.
pub mod Prelude
pub mod Fifo
pub mod Ring
pub mod Reconciler
pub mod OrderBook
pub mod SmartContainer
pub mod OpenAddressing
pub mod Particles
pub mod Pool
pub mod TimerWheel
pub mod Sorting
pub mod Searching
pub mod Factors
pub mod Blocking
pub mod HotLoop
pub mod LruCache
