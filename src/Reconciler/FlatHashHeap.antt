-- ===== src/Reconciler/FlatHashHeap.antt =====
-- `ReconcilerFlatHashHeap` of extras/citadel_interview/main.cpp: an open-addressing hash table, and
-- the heap of expiry times. Each operation returns `none` where a loop of the table does not end.
pub mod Timer
pub mod Agrees
use learn_cpp.Prelude.{
  ℕ, ◌≡◌, Bool, true, false, ◌&&◌, Option, none, some, List, [], ◌∷◌, if◌then◌else◌, ◌==◌, leb, ltb,
  add64, get_or,
}
use learn_cpp.Reconciler.Common.{Execution, Feed}
use learn_cpp.Reconciler.ExpiryHeap
use learn_cpp.Reconciler.ExpiryHeap.{Exp}
use learn_cpp.Reconciler.FlatHash
use learn_cpp.Reconciler.FlatHash.{Table, find_index, find_or_insert, erase_at, write_at}
use learn_cpp.Reconciler.UnorderedHeap.{HeapEntry, fresh, receive}

pub record FlatHashHeap (D : Type 0) : Type 0 where
  pub window_width : ℕ
  pub table : Table D
  pub expiry : List Exp
  pub alerts : ℕ
  pub last_timer : ℕ

module _ {D : Type 0} where
  abbrev pub with_table : ℕ → Table D → FlatHashHeap D
  with_table window_width table = record {
    window_width = window_width;
    table = table;
    expiry = [];
    alerts = 0;
    last_timer = 0;
  }

  unfoldable pub init : ℕ → ℕ → Option (FlatHashHeap D)
  unfolding FlatHash.init
  init window_width expected_ids = elim (FlatHash.init expected_ids) [
    | none ↦ none
    | some table ↦ some (with_table window_width table)
  ]

  -- What the loop of `onTimer` does with an item that it has popped.
  unfoldable pub drop_due : Exp → Table D → Option (Table D)
  unfolding find_index erase_at
  drop_due top tb = elim (find_index top.id tb) [
    | none ↦ none
    | some none ↦ some tb
    | some (some idx) ↦ some (
        if get_or tb.used idx false && (get_or tb.entries idx fresh).expire_at == top.expire_at
        then erase_at idx tb
        else tb)
  ]

  -- The loop of `onTimer`.
  unfoldable pub drain : ℕ → List Exp → Table D → Option (List Exp × Table D)
  unfolding drop_due
  drain now [] tb = some ([], tb)
  drain now (top ∷ rest) tb =
      let popped : Option (List Exp × Table D) = elim (drop_due top tb) [
        | none ↦ none
        | some left ↦ drain now rest left
      ] in
      if ltb now top.expire_at then some (top ∷ rest, tb) else popped

  unfoldable pub on_timer : ℕ → FlatHashHeap D → Option (FlatHashHeap D)
  unfolding drain
  on_timer now r = elim (drain now r.expiry r.table) [
    | none ↦ none
    | some (expiry, table) ↦ some (record r { last_timer = now; expiry = expiry; table = table })
  ]

  module _ (price_eq : D → D → Bool) where
    -- What `onFeed` does with the slot that `findOrInsert` gives.
    unfoldable pub feed_slot : Feed → Execution D → FlatHashHeap D → ℕ → Table D → FlatHashHeap D
    unfolding receive write_at
    feed_slot f exec r idx tb =
        let (ent, hit) = receive price_eq r.window_width f exec (get_or tb.entries idx fresh) in
        record r {
          table = write_at idx ent tb;
          expiry = ExpiryHeap.push (record { expire_at = ent.expire_at; id = exec.id }) r.expiry;
          alerts = if hit then add64 r.alerts 1 else r.alerts;
        }

    unfoldable pub on_feed : Feed → Execution D → FlatHashHeap D → Option (FlatHashHeap D)
    unfolding find_or_insert feed_slot
    on_feed f exec r =
        let fed : Option (FlatHashHeap D) = elim (find_or_insert exec.id r.table) [
          | none ↦ none
          | some (idx, tb) ↦ some (feed_slot f exec r idx tb)
        ] in
        if leb (add64 exec.ts r.window_width) r.last_timer then some r else fed
