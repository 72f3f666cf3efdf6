-- ===== src/Reconciler/UnorderedHeapReserved.antt =====
-- `ReconcilerUnorderedHeapReserved` of extras/citadel_interview/main.cpp: the code of
-- `ReconcilerUnorderedHeap` with a larger hash map at the start, which no result depends on.
pub mod Agrees
use learn_cpp.Prelude.{
  ℕ, ◌≡◌, Bool, true, false, not, ◌&&◌, Option, none, some, List, [], ◌∷◌, if◌then◌else◌, ◌==◌, leb,
  ltb, add64,
}
use learn_cpp.Reconciler.Common.{Execution, Feed, any_mismatch}
use learn_cpp.Reconciler.ExpiryHeap
use learn_cpp.Reconciler.ExpiryHeap.{Exp}
use learn_cpp.Reconciler.IdMap
use learn_cpp.Reconciler.IdMap.{IdMap}
use learn_cpp.Reconciler.UnorderedHeap.{HeapEntry, UnorderedHeap, entry_of, touch, store}

module _ {D : Type 0} where
  -- `reserve` and `max_load_factor` change how the map is stored and nothing that it answers.
  unfoldable pub init : ℕ → ℕ → UnorderedHeap D
  init window_width expected_ids = record {
    window_width = window_width;
    by_id = [];
    expiry = [];
    alerts = 0;
    last_timer = 0;
  }

  unfoldable pub drain : ℕ → List Exp → IdMap (HeapEntry D) → List Exp × IdMap (HeapEntry D)
  drain now [] m = ([], m)
  drain now (top ∷ rest) m =
      let left : IdMap (HeapEntry D) = elim (IdMap.find top.id m) [
        | none ↦ m
        | some ent ↦ if ent.expire_at == top.expire_at then IdMap.erase top.id m else m
      ] in
      let popped = drain now rest left in if ltb now top.expire_at then (top ∷ rest, m) else popped

  unfoldable pub on_timer : ℕ → UnorderedHeap D → UnorderedHeap D
  on_timer now r =
      let (expiry, by_id) = drain now r.expiry r.by_id in
      record r { last_timer = now; expiry = expiry; by_id = by_id }

  module _ (price_eq : D → D → Bool) where
    unfoldable pub on_feed : Feed → Execution D → UnorderedHeap D → UnorderedHeap D
    unfolding touch store any_mismatch
    on_feed f exec r =
        if leb (add64 exec.ts r.window_width) r.last_timer
        then r
        else (let e =
              store f exec (touch r.window_width exec.ts (entry_of (IdMap.find exec.id r.by_id))) in
            let hit =
              not e.alerted
              && any_mismatch price_eq e.one e.two e.three
              && ltb exec.ts e.expire_at in
            record r {
              by_id = IdMap.set exec.id (if hit then record e { alerted = true } else e) r.by_id;
              expiry = ExpiryHeap.push (record { expire_at = e.expire_at; id = exec.id }) r.expiry;
              alerts = if hit then add64 r.alerts 1 else r.alerts;
            })
