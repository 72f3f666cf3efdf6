-- ===== src/Reconciler/Verdict.antt =====
-- What `benchOne` of extras/citadel_interview/main.cpp prints as `alerts=`, class against class.
use learn_cpp.Prelude.{◌+◌, ◌<◌, ◌^◌, ℕ, ◌≡◌, Bool, List}
use learn_cpp.Reconciler.Bench.{Event, run_bench}
use learn_cpp.Reconciler.Bench.Equal.{run_bench-Agreement, all_allowed, AllAllowed}
use learn_cpp.Reconciler.DirectIndexHeap
use learn_cpp.Reconciler.DirectIndexHeap.Agrees.{direct_index_heap, direct_index_heap-Agreement}
use learn_cpp.Reconciler.UnorderedHeap
use learn_cpp.Reconciler.UnorderedHeap.Agrees.{unordered_heap, unordered_heap-Agreement}
use learn_cpp.Reconciler.UnorderedHeapReserved
use learn_cpp.Reconciler.UnorderedHeapReserved.Agrees.{
  unordered_heap_reserved, unordered_heap_reserved-Agreement,
}
use learn_cpp.Reconciler.UnorderedScan
use learn_cpp.Reconciler.VectorScan
use learn_cpp.Reconciler.VectorScan.Agrees.{vector_scan, unordered_scan, vector_scan-Agreement}

module _ {D : Type 0} (price_eq : D → D → Bool) (window_width : ℕ) where
  -- The sorted vector with a full scan raises as many alerts as the hash map with a full scan, for
  -- any comparison of prices, any window width and any events.
  pub vector_scan_alerts :
      (events : List (Event D))
      → run_bench (vector_scan price_eq) window_width events (VectorScan.init window_width)
        ≡ run_bench (unordered_scan price_eq) window_width events (UnorderedScan.init window_width)
  vector_scan_alerts events =
      run_bench-Agreement (vector_scan-Agreement price_eq) window_width events _ _
        (all_allowed (vector_scan-Agreement price_eq) window_width (λ exec. tt) events)
        (learn_cpp.Reconciler.VectorScan.Agrees.init-Same window_width)

  -- The hash map with a heap of expiry times raises as many alerts as the hash map with a full scan,
  -- for any comparison of prices, any window width and any events.
  pub unordered_heap_alerts :
      (events : List (Event D))
      → run_bench (unordered_heap price_eq) window_width events (UnorderedHeap.init window_width)
        ≡ run_bench (unordered_scan price_eq) window_width events (UnorderedScan.init window_width)
  unordered_heap_alerts events =
      run_bench-Agreement (unordered_heap-Agreement price_eq) window_width events _ _
        (all_allowed (unordered_heap-Agreement price_eq) window_width (λ exec. tt) events)
        (learn_cpp.Reconciler.UnorderedHeap.Agrees.init-Same window_width)

  -- The reserved hash map with a heap of expiry times raises as many alerts as the hash map with a
  -- full scan, for any comparison of prices, any window width, any expected number of ids and any
  -- events.
  unordered_heap_reserved_alerts :
      (expected_ids : ℕ) (events : List (Event D))
      → run_bench
          (unordered_heap_reserved price_eq)
          window_width
          events
          (UnorderedHeapReserved.init window_width expected_ids)
        ≡ run_bench (unordered_scan price_eq) window_width events (UnorderedScan.init window_width)
  unordered_heap_reserved_alerts expected_ids events =
      run_bench-Agreement (unordered_heap_reserved-Agreement price_eq) window_width events _ _
        (all_allowed (unordered_heap_reserved-Agreement price_eq) window_width (λ exec. tt) events)
        (learn_cpp.Reconciler.UnorderedHeapReserved.Agrees.init-Same window_width expected_ids)

  -- The vector of entries with a heap of expiry times raises as many alerts as the hash map with a
  -- full scan, for any comparison of prices and any window width, when the vector's size fits in 64
  -- bits, every id is at most its bound, and no execution arrives at time 0.
  pub direct_index_heap_alerts :
      (max_id : ℕ) (events : List (Event D))
      → max_id + 1 < 2 ^ 64
      → AllAllowed (direct_index_heap-Agreement max_id price_eq) window_width events
      → run_bench
          (direct_index_heap max_id price_eq)
          window_width
          events
          (DirectIndexHeap.init window_width max_id)
        ≡ run_bench (unordered_scan price_eq) window_width events (UnorderedScan.init window_width)
  direct_index_heap_alerts max_id events small ok =
      run_bench-Agreement (direct_index_heap-Agreement max_id price_eq) window_width events _ _ ok
        (learn_cpp.Reconciler.DirectIndexHeap.Agrees.init-Same max_id window_width small)
