-- ===== src/Reconciler/DirectIndexWheel.antt =====
-- `ReconcilerDirectIndexWheel` of extras/citadel_interview/main.cpp: a vector of entries indexed by
-- id, and a wheel of buckets in place of the heap of expiry times.
pub mod Buckets
pub mod Schedule
pub mod Agrees
use learn_cpp.Prelude.{
  ℕ, zero, suc, ◌+◌, ◌-◌, ◌%◌, ◌≡◌, Bool, true, false, not, ◌&&◌, List, [], ◌∷◌, ◌++◌,
  if◌then◌else◌, leb, ltb, add64, get_or, set, replicate,
}
use learn_cpp.Reconciler.Common.{Execution, Feed}
use learn_cpp.Reconciler.DirectIndex.{DirectEntry, blank, receive}

pub record DirectIndexWheel (D : Type 0) : Type 0 where
  pub window_width : ℕ
  pub max_id : ℕ
  pub tick_mod : ℕ
  pub entries : List (DirectEntry D)
  pub wheel : List (List ℕ)
  pub last_timer : ℕ
  pub alerts : ℕ

unfoldable pub schedule_expiry : ℕ → ℕ → ℕ → List (List ℕ) → List (List ℕ)
schedule_expiry tick_mod id expire_at wheel =
    let slot = expire_at % tick_mod in set wheel slot (get_or wheel slot [] ++ (id ∷ []))

module _ {D : Type 0} where
  unfoldable pub init : ℕ → ℕ → ℕ → DirectIndexWheel D
  init window_width max_id tick_mod = record {
    window_width = window_width;
    max_id = max_id;
    tick_mod = tick_mod;
    entries = replicate (add64 max_id 1) blank;
    wheel = replicate tick_mod [];
    last_timer = 0;
    alerts = 0;
  }

  -- The loop over a bucket.
  unfoldable pub expire_bucket : ℕ → ℕ → List ℕ → List (DirectEntry D) → List (DirectEntry D)
  expire_bucket max_id t [] entries = entries
  expire_bucket max_id t (id ∷ bucket) entries =
      let ent = get_or entries id blank in
      expire_bucket max_id t bucket (
        if leb id max_id && ent.active && leb ent.expire_at t
        then set entries id blank
        else entries)

  -- The body of the loop over the ticks: the wheel and the entries.
  unfoldable pub expire_tick :
      ℕ → ℕ → ℕ → List (List ℕ) × List (DirectEntry D) → List (List ℕ) × List (DirectEntry D)
  unfolding expire_bucket
  expire_tick max_id tick_mod t (wheel, entries) =
      (set wheel (t % tick_mod) [], expire_bucket max_id t (get_or wheel (t % tick_mod) []) entries)

  -- `for (t = ...; t <= now; ++t)` with a number of rounds left.
  unfoldable pub expire_ticks :
      ℕ → ℕ → ℕ → ℕ → List (List ℕ) × List (DirectEntry D) → List (List ℕ) × List (DirectEntry D)
  unfolding expire_tick
  expire_ticks max_id tick_mod zero t s = s
  expire_ticks max_id tick_mod (suc n) t s =
      expire_ticks max_id tick_mod n (add64 t 1) (expire_tick max_id tick_mod t s)

  -- Where `now` is the largest 64-bit number the source does not leave its loop.
  unfoldable pub on_timer : ℕ → DirectIndexWheel D → DirectIndexWheel D
  unfolding expire_ticks
  on_timer now r =
      let first = add64 r.last_timer 1 in
      let (wheel, entries) =
        expire_ticks r.max_id r.tick_mod (suc now - first) first (r.wheel, r.entries) in
      record r { last_timer = now; wheel = wheel; entries = entries }

  module _ (price_eq : D → D → Bool) where
    unfoldable pub on_feed : Feed → Execution D → DirectIndexWheel D → DirectIndexWheel D
    unfolding receive schedule_expiry
    on_feed f exec r =
        let ent = get_or r.entries exec.id blank in
        let (e, hit) = receive price_eq r.window_width f exec ent in
        if leb (add64 exec.ts r.window_width) r.last_timer
        then r
        else if ltb r.max_id exec.id
        then r
        else record r {
          entries = set r.entries exec.id e;
          wheel =
              if ent.active
              then r.wheel
              else schedule_expiry r.tick_mod exec.id e.expire_at r.wheel;
          alerts = if hit then add64 r.alerts 1 else r.alerts;
        }
