-- ===== src/Reconciler/FlatHashHeap/Agrees.antt =====
-- The open-addressing hash table with a heap of expiry times next to the hash map with such a heap.
use learn_cpp.Prelude.{
  ℕ, zero, suc, ◌-◌, ◌*◌, ◌≤◌, ◌<◌, ◌^◌, ◌≡◌, refl, sym, ◌∙◌, Bool, true, false, some, List, [],
  ◌∷◌, leb, add64, arith, inl, inr, Bool-cases,
}
use learn_cpp.Reconciler.Calls.{
  Call, feed, timer, calls, try_call, try_calls, try_calls-cons, feeds, ProperIds, calls-Agreement,
}
use learn_cpp.Reconciler.Common.{Execution, Feed}
use learn_cpp.Reconciler.FlatHash
use learn_cpp.Reconciler.FlatHash.{Table, find_index, find_or_insert, erase_at, write_at}
use learn_cpp.Reconciler.FlatHash.Capacity.{init_lem}
use learn_cpp.Reconciler.FlatHash.Upsert.{find_or_insert_lem}
use learn_cpp.Reconciler.FlatHash.Models.{Models_ext, weaken}
use learn_cpp.Reconciler.FlatHashHeap
use learn_cpp.Reconciler.FlatHashHeap.{FlatHashHeap}
use learn_cpp.Reconciler.IdMap
use learn_cpp.Reconciler.IdMap.{IdMap, find, find-set, find-erase}
use learn_cpp.Reconciler.UnorderedHeap
use learn_cpp.Reconciler.UnorderedHeap.Agrees.{unordered_heap, unordered_heap-Agreement}
use learn_cpp.Reconciler.UnorderedScan
use learn_cpp.Reconciler.VectorScan.Agrees.{unordered_scan}
use learn_cpp.Reconciler.UnorderedHeap.{HeapEntry, UnorderedHeap, fresh, entry_of, receive}
use learn_cpp.Reconciler.FlatHashHeap.Timer.{Same, on_timer-Same}

module _ {D : Type 0} (price_eq : D → D → Bool) where
  on_feed-late :
      (f : Feed) (exec : Execution D) (h : FlatHashHeap D)
      → leb (add64 exec.ts h.window_width) h.last_timer ≡ true
      → FlatHashHeap.on_feed price_eq f exec h ≡ some h
  unfolding FlatHashHeap.on_feed
  on_feed-late f exec h late = rw late refl

  on_feed-slot :
      (f : Feed) (exec : Execution D) (h : FlatHashHeap D) (idx : ℕ) (tb : Table D)
      → leb (add64 exec.ts h.window_width) h.last_timer ≡ false
      → find_or_insert exec.id h.table ≡ some (idx, tb)
      → FlatHashHeap.on_feed price_eq f exec h
        ≡ some (FlatHashHeap.feed_slot price_eq f exec h idx tb)
  unfolding FlatHashHeap.on_feed
  on_feed-slot f exec h idx tb early run = rw (early, FlatHashHeap.on_feed, run) refl

  on_feed-Same :
      (room : ℕ) (f : Feed) (exec : Execution D) (h : FlatHashHeap D) (u : UnorderedHeap D)
      → 2 ≤ exec.id
      → Same (suc room) h u
      → (r : FlatHashHeap D) × ((FlatHashHeap.on_feed price_eq f exec h ≡ some r)
          × Same room r (UnorderedHeap.on_feed price_eq f exec u))
  unfolding UnorderedHeap.on_feed FlatHashHeap.feed_slot
  on_feed-Same room f exec h u two s =
      elim (Bool-cases (leb (add64 exec.ts u.window_width) u.last_timer)) [
        | inl late ↦ (
          h,
          (
            on_feed-late f exec h (rw (s.window, s.timer) late),
            rw late (record {
              window = s.window;
              timer = s.timer;
              alerts = s.alerts;
              expiry = s.expiry;
              holds = weaken room (suc room) h.table _ (omega arith) s.holds;
            }),
          ),
        )
        | inr early ↦
            let (idx, (tb, up)) =
              find_or_insert_lem room exec.id h.table (λ j. find j u.by_id) two s.holds in
            let e : HeapEntry D × Bool =
              receive price_eq u.window_width f exec (entry_of (find exec.id u.by_id)) in
            (
              FlatHashHeap.feed_slot price_eq f exec h idx tb,
              (
                on_feed-slot f exec h idx tb (rw (s.window, s.timer) early) up.returns,
                rw (early, up.reads, s.window, s.expiry, s.alerts)
                    (record {
                      window = refl;
                      timer = s.timer;
                      alerts = refl;
                      expiry = refl;
                      holds =
                          Models_ext (write_at idx e.0 tb) _
                            (λ j. find j (IdMap.set exec.id e.0 u.by_id))
                            (λ j. sym (find-set exec.id j e.0 u.by_id)) (up.writes e.0);
                    }),
              ),
            )
      ]

  calls-Same :
      (cs : List (Call D)) (room : ℕ) (h : FlatHashHeap D) (u : UnorderedHeap D)
      → feeds cs ≤ room
      → ProperIds cs
      → Same room h u
      → (r : FlatHashHeap D) × ((try_calls
              (FlatHashHeap.on_feed price_eq)
              FlatHashHeap.on_timer
              cs
              h
            ≡ some r)
          × (r.alerts ≡ (calls (unordered_heap price_eq) cs u).alerts))
  unfolding try_calls try_call calls
  calls-Same [] room h u le ids s = (h, (refl, s.alerts))
  calls-Same (feed f exec ∷ cs) zero h u le ids s = absurd (omega arith)
  calls-Same (feed f exec ∷ cs) (suc room) h u le (two, ids) s =
      let (h', (run, s')) = on_feed-Same room f exec h u two s in
      let (r, (rest, same)) = calls-Same cs room h' _ (omega arith) ids s' in
      (r, (try_calls-cons _ _ (feed f exec) cs h h' run ∙ rest, same))
  calls-Same (timer now ∷ cs) room h u le ids s =
      let (h', (run, s')) = on_timer-Same room now h u s in
      let (r, (rest, same)) = calls-Same cs room h' _ le ids s' in
      (r, (try_calls-cons _ _ (timer now) cs h h' run ∙ rest, same))

  unordered_heap-calls :
      (w : ℕ) (cs : List (Call D))
      → (calls (unordered_heap price_eq) cs (UnorderedHeap.init w)).alerts
        ≡ (calls (unordered_scan price_eq) cs (UnorderedScan.init w)).alerts
  unordered_heap-calls w cs =
      calls-Agreement (unordered_heap-Agreement price_eq) (λ exec. tt) cs _ _
        (learn_cpp.Reconciler.UnorderedHeap.Agrees.init-Same w)

  init_eq :
      (w expected_ids : ℕ) (tb : Table D)
      → FlatHash.init expected_ids ≡ some tb
      → FlatHashHeap.init w expected_ids ≡ some (FlatHashHeap.with_table w tb)
  unfolding FlatHashHeap.init
  init_eq w expected_ids tb h = rw (FlatHashHeap.init, h) refl

  init-Same :
      (w expected_ids : ℕ)
      → expected_ids ≤ 2 ^ 62
      → (h : FlatHashHeap D) × ((FlatHashHeap.init w expected_ids ≡ some h)
          × Same (expected_ids * 2 - 1) h (UnorderedHeap.init w))
  unfolding UnorderedHeap.init find
  init-Same w expected_ids small =
      let (tb, made) = init_lem expected_ids small in
      (
        FlatHashHeap.with_table w tb,
        (
          init_eq w expected_ids tb made.returns,
          record { window = refl; timer = refl; alerts = refl; expiry = refl; holds = made.takes },
        ),
      )

  -- The class with the open-addressing table and the heap: when the constructor is told to expect at
  -- most 2^62 ids, the calls bring fewer executions than twice that many, and no id is 0 or 1, then
  -- the constructor and every call return, and the alerts are those of the hash map with a full scan.
  pub flat_hash_heap_alerts :
      (w expected_ids : ℕ) (cs : List (Call D))
      → expected_ids ≤ 2 ^ 62
      → feeds cs < expected_ids * 2
      → ProperIds cs
      → (h r : FlatHashHeap D) × ((FlatHashHeap.init w expected_ids ≡ some h)
          × (try_calls (FlatHashHeap.on_feed price_eq) FlatHashHeap.on_timer cs h ≡ some r)
          × (r.alerts ≡ (calls (unordered_scan price_eq) cs (UnorderedScan.init w)).alerts))
  flat_hash_heap_alerts w expected_ids cs small few ids =
      let (h, (made, s)) = init-Same w expected_ids small in
      let (r, (run, same)) = calls-Same cs (expected_ids * 2 - 1) h _ (omega arith) ids s in
      (h, r, (made, run, same ∙ unordered_heap-calls w cs))
