-- ===== src/Reconciler/Tests.antt =====
-- The reconciler classes on a few executions, with natural numbers as prices.
use learn_cpp.Prelude.{
  zero, suc, true, false, inl, inr, ℕ, ◌≡◌, refl, Option, none, some, List, [], ◌∷◌, ◌==◌, Bool,
  arith,
}
use learn_cpp.Reconciler.Common.{Feed}
use learn_cpp.Reconciler.Bench.{Event, run_bench}
use learn_cpp.Reconciler.Bench.Returns.{run_bench_returns}
use learn_cpp.Reconciler.Calls.{Call, feed, timer, calls, try_calls}
use learn_cpp.Reconciler.DirectIndexHeap
use learn_cpp.Reconciler.DirectIndexHeap.Agrees.{direct_index_heap}
use learn_cpp.Reconciler.DirectIndexWheel
use learn_cpp.Reconciler.DirectIndexWheel.Agrees.{direct_index_wheel, direct_index_wheel_alerts}
use learn_cpp.Reconciler.FlatHash.{Table, find_from, insert_from}
use learn_cpp.Reconciler.FlatHash.Endless.{Crowded, search-endless}
use learn_cpp.Reconciler.FlatHash.Probe.{Sized}
use learn_cpp.Reconciler.UnorderedHeap.{fresh}
use learn_cpp.Reconciler.FlatHashHeap
use learn_cpp.Reconciler.FlatHashHeap.{FlatHashHeap}
use learn_cpp.Reconciler.FlatHashHeap.Agrees.{flat_hash_heap_alerts}
use learn_cpp.Reconciler.FlatHashWheel
use learn_cpp.Reconciler.FlatHashWheel.{FlatHashWheel}
use learn_cpp.Reconciler.FlatHashWheel.Agrees.{flat_hash_wheel_alerts}
use learn_cpp.Reconciler.UnorderedHeap
use learn_cpp.Reconciler.UnorderedHeap.Agrees.{unordered_heap}
use learn_cpp.Reconciler.UnorderedScan
use learn_cpp.Reconciler.VectorScan
use learn_cpp.Reconciler.VectorScan.Agrees.{vector_scan, unordered_scan}
use learn_cpp.Reconciler.Verdict.{
  vector_scan_alerts, unordered_heap_alerts, direct_index_heap_alerts,
}

abbrev same_price : ℕ → ℕ → Bool
same_price a b = a == b

abbrev event : Feed → ℕ → ℕ → ℕ → Event ℕ
event f id price ts = record {
  feed = f;
  exec = record { id = id; price = price; size = 1; ts = ts };
}

-- Id 4 differs between two feeds inside a window of 10; id 5 differs only across two windows.
abbrev events : List (Event ℕ)
events =
    event Feed.one 4 100 1
    ∷ event Feed.two 4 101 3
    ∷ event Feed.one 5 100 4
    ∷ event Feed.three 4 100 6
    ∷ event Feed.two 5 102 21
    ∷ []

one_alert : run_bench (unordered_scan same_price) 10 events (UnorderedScan.init 10) ≡ some 1
unfolding run_bench UnorderedScan.init UnorderedScan.on_feed UnorderedScan.on_timer
    UnorderedScan.receive learn_cpp.Reconciler.IdMap.find learn_cpp.Reconciler.IdMap.erase_if
    learn_cpp.Reconciler.IdMap.set
one_alert = refl

vector_scan_alerts_example :
    run_bench (vector_scan same_price) 10 events (VectorScan.init 10)
    ≡ run_bench (unordered_scan same_price) 10 events (UnorderedScan.init 10)
vector_scan_alerts_example = vector_scan_alerts same_price 10 events

unordered_heap_alerts_example :
    run_bench (unordered_heap same_price) 10 events (UnorderedHeap.init 10)
    ≡ run_bench (unordered_scan same_price) 10 events (UnorderedScan.init 10)
unordered_heap_alerts_example = unordered_heap_alerts same_price 10 events

run_bench_returns_example :
    (n : ℕ) × (run_bench (unordered_scan same_price) 10 events (UnorderedScan.init 10) ≡ some n)
run_bench_returns_example =
    run_bench_returns (unordered_scan same_price) 10 21 events (UnorderedScan.init 10) (omega arith)
      (omega arith) (omega arith, (omega arith, (omega arith, (omega arith, (omega arith, tt)))))

direct_index_heap_alerts_example :
    run_bench (direct_index_heap 9 same_price) 10 events (DirectIndexHeap.init 10 9)
    ≡ run_bench (unordered_scan same_price) 10 events (UnorderedScan.init 10)
direct_index_heap_alerts_example =
    direct_index_heap_alerts same_price 10 9 events (omega arith) (omega arith)

abbrev some_calls : List (Call ℕ)
some_calls =
    feed Feed.one (record { id = 4; price = 100; size = 1; ts = 1 })
    ∷ feed Feed.two (record { id = 4; price = 101; size = 1; ts = 3 })
    ∷ timer 10
    ∷ feed Feed.two (record { id = 5; price = 100; size = 1; ts = 12 })
    ∷ timer 20
    ∷ timer 30
    ∷ feed Feed.one (record { id = 5; price = 102; size = 1; ts = 31 })
    ∷ []

wheel_alert :
    (calls
      (direct_index_wheel 9 32 same_price (omega arith))
      some_calls
      (DirectIndexWheel.init 10 9 32)).alerts
    ≡ 1
unfolding calls DirectIndexWheel.init DirectIndexWheel.on_feed DirectIndexWheel.on_timer
wheel_alert = refl

direct_index_wheel_alerts_example :
    (calls
      (direct_index_wheel 9 32 same_price (omega arith))
      some_calls
      (DirectIndexWheel.init 10 9 32)).alerts
    ≡ (calls (unordered_scan same_price) some_calls (UnorderedScan.init 10)).alerts
direct_index_wheel_alerts_example =
    direct_index_wheel_alerts 9 32 same_price (omega arith) 10 some_calls (omega arith)
      (omega arith)

flat_hash_heap_alerts_example :
    (h r : FlatHashHeap ℕ) × ((FlatHashHeap.init 10 8 ≡ some h)
      × (try_calls (FlatHashHeap.on_feed same_price) FlatHashHeap.on_timer some_calls h ≡ some r)
      × (r.alerts ≡ (calls (unordered_scan same_price) some_calls (UnorderedScan.init 10)).alerts))
flat_hash_heap_alerts_example =
    flat_hash_heap_alerts same_price 10 8 some_calls (omega arith) (omega arith)
      (omega arith, (omega arith, (omega arith, (omega arith, tt))))

run_flat_hash_heap : Option (FlatHashHeap ℕ) → Option ℕ
unfolding try_calls FlatHashHeap.on_feed FlatHashHeap.on_timer
run_flat_hash_heap none = none
run_flat_hash_heap (some h) =
    elim (try_calls (FlatHashHeap.on_feed same_price) FlatHashHeap.on_timer some_calls h) [
      | none ↦ none
      | some r ↦ some r.alerts
    ]

flat_hash_heap_alert : run_flat_hash_heap (FlatHashHeap.init 10 8) ≡ some 1
unfolding run_flat_hash_heap FlatHashHeap.init learn_cpp.Reconciler.ExpiryHeap.push
flat_hash_heap_alert = refl

flat_hash_wheel_alerts_example :
    (h r : FlatHashWheel ℕ) × ((FlatHashWheel.init 10 8 32 ≡ some h)
      × (try_calls (FlatHashWheel.on_feed same_price) FlatHashWheel.on_timer some_calls h ≡ some r)
      × (r.alerts ≡ (calls (unordered_scan same_price) some_calls (UnorderedScan.init 10)).alerts))
flat_hash_wheel_alerts_example =
    flat_hash_wheel_alerts 9 32 same_price (omega arith) 10 8 some_calls (omega arith) (omega arith)
      (omega arith) (omega arith, (omega arith, (omega arith, (omega arith, tt)))) (omega arith)

run_flat_hash_wheel : Option (FlatHashWheel ℕ) → Option ℕ
unfolding try_calls FlatHashWheel.on_feed FlatHashWheel.on_timer
run_flat_hash_wheel none = none
run_flat_hash_wheel (some h) =
    elim (try_calls (FlatHashWheel.on_feed same_price) FlatHashWheel.on_timer some_calls h) [
      | none ↦ none
      | some r ↦ some r.alerts
    ]

flat_hash_wheel_alert : run_flat_hash_wheel (FlatHashWheel.init 10 8 32) ≡ some 1
unfolding run_flat_hash_wheel FlatHashWheel.init
flat_hash_wheel_alert = refl

-- Id 1 is the key of a tombstone: the table does not find its entry again.
abbrev calls_of_id_1 : List (Call ℕ)
calls_of_id_1 =
    feed Feed.one (record { id = 1; price = 100; size = 1; ts = 1 })
    ∷ feed Feed.two (record { id = 1; price = 101; size = 1; ts = 3 })
    ∷ []

abbrev alerts_of_id_1 : Option (FlatHashHeap ℕ) → Option ℕ
alerts_of_id_1 none = none
alerts_of_id_1 (some h) =
    elim (try_calls (FlatHashHeap.on_feed same_price) FlatHashHeap.on_timer calls_of_id_1 h) [
      | none ↦ none
      | some r ↦ some r.alerts
    ]

id_1_not_found : alerts_of_id_1 (FlatHashHeap.init 10 8) ≡ some 0
unfolding try_calls FlatHashHeap.init FlatHashHeap.on_feed FlatHashHeap.on_timer
    learn_cpp.Reconciler.ExpiryHeap.push
id_1_not_found = refl

id_1_alert : (calls (unordered_scan same_price) calls_of_id_1 (UnorderedScan.init 10)).alerts ≡ 1
unfolding calls UnorderedScan.init UnorderedScan.on_feed UnorderedScan.on_timer
    UnorderedScan.receive learn_cpp.Reconciler.IdMap.find learn_cpp.Reconciler.IdMap.erase_if
    learn_cpp.Reconciler.IdMap.set
id_1_alert = refl

-- Two slots, which have held other ids.
abbrev slots : Table ℕ
slots = record {
  keys = 1 ∷ 7 ∷ [];
  entries = fresh ∷ fresh ∷ [];
  used = false ∷ true ∷ [];
  mask = 1;
}

slots-Sized : Sized 1 (1 ∷ 7 ∷ [])
slots-Sized = record { power = 1; slots = refl; small = omega arith; len = refl }

slots-Crowded : Crowded 1 9 (1 ∷ 7 ∷ [])
slots-Crowded zero le = inl refl
slots-Crowded (suc zero) le = inr (omega arith, λ e. omega (arith, e))
slots-Crowded (suc (suc s)) le = absurd (omega arith)

search-endless_example :
    (find_from 100 1 9 (1 ∷ 7 ∷ []) 0 ≡ none) × (insert_from 100 9 slots 0 none ≡ none)
search-endless_example =
    search-endless 9 (omega arith) slots slots-Sized slots-Crowded 100 0 (omega arith)
