-- ===== src/Reconciler/UnorderedScan.antt =====
-- `ReconcilerUnorderedScan` of extras/citadel_interview/main.cpp: a hash map, and a full scan at
-- each timer. The other classes are compared with it.
use learn_cpp.Prelude.{
  ℕ, Bool, true, false, not, ◌&&◌, Option, none, some, [], if◌then◌else◌, ◌==◌, leb, add64,
}
use learn_cpp.Reconciler.Common.{Execution, Feed, Entry, fresh, store, any_mismatch}
use learn_cpp.Reconciler.IdMap
use learn_cpp.Reconciler.IdMap.{IdMap}

pub record UnorderedScan (D : Type 0) : Type 0 where
  pub window_width : ℕ
  pub by_id : IdMap (Entry D)
  pub alerts : ℕ
  pub last_timer : ℕ

module _ {D : Type 0} where
  unfoldable pub init : ℕ → UnorderedScan D
  init window_width = record { window_width = window_width; by_id = []; alerts = 0; last_timer = 0 }

  unfoldable pub is_expired : ℕ → Entry D → ℕ → Bool
  is_expired window_width e now = leb (add64 e.first_ts window_width) now

  unfoldable pub on_timer : ℕ → UnorderedScan D → UnorderedScan D
  unfolding is_expired
  on_timer now r = record r {
    last_timer = now;
    by_id = IdMap.erase_if (λ e. is_expired r.window_width e now) r.by_id;
  }

  -- `by_id_[id]`: a missing id gets a new entry.
  abbrev pub entry_of : Option (Entry D) → Entry D
  entry_of none = fresh
  entry_of (some e) = e

  unfoldable pub touch : ℕ → Entry D → Entry D
  touch ts ent =
      let first : ℕ = if ent.first_ts == 0 && ent.last_ts == 0 then ts else ent.first_ts in
      record ent { first_ts = first; last_ts = ts }

  module _ (price_eq : D → D → Bool) where
    -- The entry after an execution has come in, and whether it raises an alert.
    unfoldable pub receive : ℕ → Feed → Execution D → Entry D → Entry D × Bool
    unfolding touch store is_expired any_mismatch
    receive window_width f exec ent =
        let e = store f exec (touch exec.ts ent) in
        if not e.alerted
          && any_mismatch price_eq e.one e.two e.three
          && not (is_expired window_width e exec.ts)
        then (record e { alerted = true }, true)
        else (e, false)

    unfoldable pub on_feed : Feed → Execution D → UnorderedScan D → UnorderedScan D
    on_feed f exec r =
        if leb (add64 exec.ts r.window_width) r.last_timer
        then r
        else (let (ent, hit) =
              receive r.window_width f exec (entry_of (IdMap.find exec.id r.by_id)) in
            record r {
              by_id = IdMap.set exec.id ent r.by_id;
              alerts = if hit then add64 r.alerts 1 else r.alerts;
            })
