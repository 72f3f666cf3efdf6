-- ===== src/Reconciler/UnorderedHeapReserved/Agrees.antt =====
-- The reserved hash map behaves as the one that grows.
use learn_cpp.Prelude.{ℕ, ◌≡◌, refl, Bool, not, ◌&&◌, List, [], ◌∷◌, ltb, Bool-cases, inl, inr}
use learn_cpp.Reconciler.Common.{Execution, Feed, any_mismatch}
use learn_cpp.Reconciler.ExpiryHeap.{Exp}
use learn_cpp.Reconciler.IdMap
use learn_cpp.Reconciler.IdMap.{IdMap}
use learn_cpp.Reconciler.Interface.{Reconciler, Agreement}
use learn_cpp.Reconciler.UnorderedHeap
use learn_cpp.Reconciler.UnorderedHeap.{HeapEntry, UnorderedHeap, entry_of}
use learn_cpp.Reconciler.UnorderedHeap.Agrees.{unordered_heap, unordered_heap-Agreement, Same}
use learn_cpp.Reconciler.UnorderedHeapReserved
use learn_cpp.Reconciler.UnorderedScan
use learn_cpp.Reconciler.UnorderedScan.{UnorderedScan}
use learn_cpp.Reconciler.VectorScan.Agrees.{unordered_scan}

module _ {D : Type 0} where
  drain_eq :
      (now : ℕ) (h : List Exp) (m : IdMap (HeapEntry D))
      → UnorderedHeapReserved.drain now h m ≡ UnorderedHeap.drain now h m
  unfolding UnorderedHeapReserved.drain UnorderedHeap.drain UnorderedHeap.drop_due
  drain_eq now [] m = refl
  drain_eq now (x ∷ h) m = rw (drain_eq now h (UnorderedHeap.drop_due x m)) refl

  pub on_timer_eq :
      (now : ℕ) (h : UnorderedHeap D)
      → UnorderedHeapReserved.on_timer now h ≡ UnorderedHeap.on_timer now h
  unfolding UnorderedHeapReserved.on_timer UnorderedHeap.on_timer
  on_timer_eq now h = rw (drain_eq now h.expiry h.by_id) refl

  pub init-Same : (w n : ℕ) → Same {D = D} (UnorderedHeapReserved.init w n) (UnorderedScan.init w)
  unfolding UnorderedHeapReserved.init UnorderedHeap.init
  init-Same w n = learn_cpp.Reconciler.UnorderedHeap.Agrees.init-Same w

  module _ (price_eq : D → D → Bool) where
    pub on_feed_eq :
        (f : Feed) (exec : Execution D) (h : UnorderedHeap D)
        → UnorderedHeapReserved.on_feed price_eq f exec h ≡ UnorderedHeap.on_feed price_eq f exec h
    unfolding UnorderedHeapReserved.on_feed UnorderedHeap.on_feed UnorderedHeap.receive
    on_feed_eq f exec h =
        let e : HeapEntry D =
          UnorderedHeap.store f exec
            (UnorderedHeap.touch h.window_width exec.ts (entry_of (IdMap.find exec.id h.by_id))) in
        elim (Bool-cases
          (not e.alerted && any_mismatch price_eq e.one e.two e.three && ltb exec.ts e.expire_at)) [
            | inl hit ↦ rw hit refl
            | inr miss ↦ rw miss refl
          ]

    abbrev pub unordered_heap_reserved : Reconciler D (UnorderedHeap D)
    unordered_heap_reserved = record {
      on_feed = UnorderedHeapReserved.on_feed price_eq;
      on_timer = UnorderedHeapReserved.on_timer;
      alerts = λ r. r.alerts;
    }

    abbrev pub unordered_heap_reserved-Agreement :
        Agreement unordered_heap_reserved (unordered_scan price_eq)
    unordered_heap_reserved-Agreement =
        let heap = unordered_heap-Agreement price_eq in
        record {
          Related = Same;
          Allowed = λ exec. Unit;
          feed = λ f exec h u a s. rw (on_feed_eq f exec h) (heap.feed f exec h u a s);
          timer = λ now h u s. rw (on_timer_eq now h) (heap.timer now h u s);
          same_alerts = λ h u s. s.alerts;
        }
