-- ===== src/Reconciler/FlatHashWheel.antt =====
-- `ReconcilerFlatHashWheel` of extras/citadel_interview/main.cpp: an open-addressing hash table, and
-- a wheel of buckets. Each operation returns `none` where a loop of the table does not end.
pub mod Receive
pub mod Expire
pub mod Steps
pub mod Agrees
use learn_cpp.Prelude.{
  ℕ, zero, suc, ◌-◌, ◌%◌, ◌≡◌, Bool, true, false, not, ◌&&◌, Option, none, some, List, [], ◌∷◌,
  ◌++◌, if◌then◌else◌, ◌==◌, leb, ltb, add64, get_or, set, replicate,
}
use learn_cpp.Reconciler.Common.{Execution, Feed, any_mismatch}
use learn_cpp.Reconciler.FlatHash
use learn_cpp.Reconciler.FlatHash.{Table, find_index, find_or_insert, erase_at, write_at}
use learn_cpp.Reconciler.UnorderedHeap.{HeapEntry, fresh, store}

pub record FlatHashWheel (D : Type 0) : Type 0 where
  pub window_width : ℕ
  pub tick_mod : ℕ
  pub table : Table D
  pub wheel : List (List ℕ)
  pub last_timer : ℕ
  pub alerts : ℕ

unfoldable pub schedule : ℕ → ℕ → ℕ → List (List ℕ) → List (List ℕ)
schedule tick_mod id expire_at wheel =
    let slot = expire_at % tick_mod in set wheel slot (get_or wheel slot [] ++ (id ∷ []))

module _ {D : Type 0} where
  abbrev pub with_table : ℕ → ℕ → Table D → FlatHashWheel D
  with_table window_width tick_mod table = record {
    window_width = window_width;
    tick_mod = tick_mod;
    table = table;
    wheel = replicate tick_mod [];
    last_timer = 0;
    alerts = 0;
  }

  unfoldable pub init : ℕ → ℕ → ℕ → Option (FlatHashWheel D)
  unfolding FlatHash.init
  init window_width expected_ids tick_mod = elim (FlatHash.init expected_ids) [
    | none ↦ none
    | some table ↦ some (with_table window_width tick_mod table)
  ]

  -- One id of a bucket.
  unfoldable pub expire_id : ℕ → ℕ → Table D → Option (Table D)
  unfolding find_index erase_at
  expire_id t id tb = elim (find_index id tb) [
    | none ↦ none
    | some none ↦ some tb
    | some (some idx) ↦ some (
        if get_or tb.used idx false && leb (get_or tb.entries idx fresh).expire_at t
        then erase_at idx tb
        else tb)
  ]

  -- The loop over a bucket.
  unfoldable pub expire_bucket : ℕ → List ℕ → Table D → Option (Table D)
  unfolding expire_id
  expire_bucket t [] tb = some tb
  expire_bucket t (id ∷ bucket) tb = elim (expire_id t id tb) [
    | none ↦ none
    | some left ↦ expire_bucket t bucket left
  ]

  -- The body of the loop over the ticks: the wheel and the table.
  unfoldable pub expire_tick : ℕ → ℕ → List (List ℕ) × Table D → Option (List (List ℕ) × Table D)
  unfolding expire_bucket
  expire_tick tick_mod t (wheel, tb) = elim (expire_bucket t (get_or wheel (t % tick_mod) []) tb) [
    | none ↦ none
    | some left ↦ some (set wheel (t % tick_mod) [], left)
  ]

  -- `for (t = ...; t <= now; ++t)` with a number of rounds left.
  unfoldable pub expire_ticks :
      ℕ → ℕ → ℕ → List (List ℕ) × Table D → Option (List (List ℕ) × Table D)
  unfolding expire_tick
  expire_ticks tick_mod zero t s = some s
  expire_ticks tick_mod (suc n) t s = elim (expire_tick tick_mod t s) [
    | none ↦ none
    | some left ↦ expire_ticks tick_mod n (add64 t 1) left
  ]

  -- Where `now` is the largest 64-bit number the source does not leave its loop.
  unfoldable pub on_timer : ℕ → FlatHashWheel D → Option (FlatHashWheel D)
  unfolding expire_ticks
  on_timer now r =
      let first = add64 r.last_timer 1 in
      elim (expire_ticks r.tick_mod (suc now - first) first (r.wheel, r.table)) [
        | none ↦ none
        | some (wheel, table) ↦ some (record r { last_timer = now; wheel = wheel; table = table })
      ]

  -- `ent.first_ts == 0 && ent.last_ts == 0`
  abbrev pub untouched : HeapEntry D → Bool
  untouched ent = ent.first_ts == 0 && ent.last_ts == 0

  -- What `onFeed` sets before its `switch`.
  unfoldable pub touch : ℕ → ℕ → HeapEntry D → HeapEntry D
  touch window_width ts ent =
      if untouched ent
      then record ent { first_ts = ts; expire_at = add64 ts window_width; last_ts = ts }
      else record ent { last_ts = ts }

  module _ (price_eq : D → D → Bool) where
    unfoldable pub receive : ℕ → Feed → Execution D → HeapEntry D → HeapEntry D × Bool
    unfolding touch store any_mismatch
    receive window_width f exec ent =
        let e = store f exec (touch window_width exec.ts ent) in
        if not e.alerted && any_mismatch price_eq e.one e.two e.three && ltb exec.ts e.expire_at
        then (record e { alerted = true }, true)
        else (e, false)

    -- What `onFeed` does with the slot that `findOrInsert` gives.
    unfoldable pub feed_slot : Feed → Execution D → FlatHashWheel D → ℕ → Table D → FlatHashWheel D
    unfolding receive schedule write_at
    feed_slot f exec r idx tb =
        let ent = get_or tb.entries idx fresh in
        let (e, hit) = receive r.window_width f exec ent in
        record r {
          table = write_at idx e tb;
          wheel =
              if untouched ent
              then schedule r.tick_mod exec.id (add64 exec.ts r.window_width) r.wheel
              else r.wheel;
          alerts = if hit then add64 r.alerts 1 else r.alerts;
        }

    unfoldable pub on_feed : Feed → Execution D → FlatHashWheel D → Option (FlatHashWheel D)
    unfolding find_or_insert feed_slot
    on_feed f exec r =
        let fed : Option (FlatHashWheel D) = elim (find_or_insert exec.id r.table) [
          | none ↦ none
          | some (idx, tb) ↦ some (feed_slot f exec r idx tb)
        ] in
        if leb (add64 exec.ts r.window_width) r.last_timer then some r else fed
