-- ===== src/Reconciler/UnorderedHeap.antt =====
-- `ReconcilerUnorderedHeap` of extras/citadel_interview/main.cpp: a hash map, and a heap of expiry
-- times in place of the full scan.
pub mod Drain
pub mod Agrees
use learn_cpp.Prelude.{
  ℕ, ◌≡◌, Bool, true, false, not, ◌&&◌, Option, none, some, List, [], ◌∷◌, if◌then◌else◌, ◌==◌, leb,
  ltb, add64,
}
use learn_cpp.Reconciler.Common.{Execution, Feed, any_mismatch}
use learn_cpp.Reconciler.ExpiryHeap
use learn_cpp.Reconciler.ExpiryHeap.{Exp}
use learn_cpp.Reconciler.IdMap
use learn_cpp.Reconciler.IdMap.{IdMap}

pub record HeapEntry (D : Type 0) : Type 0 where
  pub first_ts : ℕ
  pub last_ts : ℕ
  pub expire_at : ℕ
  pub one : Option (Execution D)
  pub two : Option (Execution D)
  pub three : Option (Execution D)
  pub alerted : Bool

pub record UnorderedHeap (D : Type 0) : Type 0 where
  pub window_width : ℕ
  pub by_id : IdMap (HeapEntry D)
  pub expiry : List Exp
  pub alerts : ℕ
  pub last_timer : ℕ

module _ {D : Type 0} where
  unfoldable pub init : ℕ → UnorderedHeap D
  init window_width = record {
    window_width = window_width;
    by_id = [];
    expiry = [];
    alerts = 0;
    last_timer = 0;
  }

  -- What the loop of `onTimer` does with an item that it has popped.
  unfoldable pub drop_due : Exp → IdMap (HeapEntry D) → IdMap (HeapEntry D)
  drop_due top m = elim (IdMap.find top.id m) [
    | none ↦ m
    | some ent ↦ if ent.expire_at == top.expire_at then IdMap.erase top.id m else m
  ]

  -- The loop of `onTimer`.
  unfoldable pub drain : ℕ → List Exp → IdMap (HeapEntry D) → List Exp × IdMap (HeapEntry D)
  drain now [] m = ([], m)
  drain now (top ∷ rest) m =
      let popped = drain now rest (drop_due top m) in
      if ltb now top.expire_at then (top ∷ rest, m) else popped

  unfoldable pub on_timer : ℕ → UnorderedHeap D → UnorderedHeap D
  on_timer now r =
      let (expiry, by_id) = drain now r.expiry r.by_id in
      record r { last_timer = now; expiry = expiry; by_id = by_id }

  abbrev pub fresh : HeapEntry D
  fresh = record {
    first_ts = 0;
    last_ts = 0;
    expire_at = 0;
    one = none;
    two = none;
    three = none;
    alerted = false;
  }

  abbrev pub entry_of : Option (HeapEntry D) → HeapEntry D
  entry_of none = fresh
  entry_of (some e) = e

  unfoldable pub touch : ℕ → ℕ → HeapEntry D → HeapEntry D
  touch window_width ts ent =
      let first : ℕ = if ent.first_ts == 0 && ent.last_ts == 0 then ts else ent.first_ts in
      record ent { first_ts = first; last_ts = ts; expire_at = add64 first window_width }

  unfoldable pub store : Feed → Execution D → HeapEntry D → HeapEntry D
  store Feed.one exec ent = record ent { one = some exec }
  store Feed.two exec ent = record ent { two = some exec }
  store Feed.three exec ent = record ent { three = some exec }

  module _ (price_eq : D → D → Bool) where
    unfoldable pub receive : ℕ → Feed → Execution D → HeapEntry D → HeapEntry D × Bool
    unfolding touch store any_mismatch
    receive window_width f exec ent =
        let e = store f exec (touch window_width exec.ts ent) in
        if not e.alerted && any_mismatch price_eq e.one e.two e.three && ltb exec.ts e.expire_at
        then (record e { alerted = true }, true)
        else (e, false)

    unfoldable pub on_feed : Feed → Execution D → UnorderedHeap D → UnorderedHeap D
    on_feed f exec r =
        if leb (add64 exec.ts r.window_width) r.last_timer
        then r
        else (let (ent, hit) =
              receive r.window_width f exec (entry_of (IdMap.find exec.id r.by_id)) in
            record r {
              by_id = IdMap.set exec.id ent r.by_id;
              expiry =
                  ExpiryHeap.push (record { expire_at = ent.expire_at; id = exec.id }) r.expiry;
              alerts = if hit then add64 r.alerts 1 else r.alerts;
            })
