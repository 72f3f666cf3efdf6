-- ===== src/Reconciler/DirectIndexHeap.antt =====
-- `ReconcilerDirectIndexHeap` of extras/citadel_interview/main.cpp: a vector of entries indexed by id,
-- and a heap of expiry times.
pub mod Agrees
use learn_cpp.Prelude.{
  ℕ, suc, ◌+◌, ◌≡◌, Bool, true, false, ◌&&◌, List, [], ◌∷◌, if◌then◌else◌, ◌==◌, leb, ltb, add64,
  get_or, set, replicate,
}
use learn_cpp.Reconciler.Common.{Execution, Feed}
use learn_cpp.Reconciler.DirectIndex.{DirectEntry, blank, receive}
use learn_cpp.Reconciler.ExpiryHeap
use learn_cpp.Reconciler.ExpiryHeap.{Exp}

pub record DirectIndexHeap (D : Type 0) : Type 0 where
  pub window_width : ℕ
  pub max_id : ℕ
  pub entries : List (DirectEntry D)
  pub expiry : List Exp
  pub alerts : ℕ
  pub last_timer : ℕ

module _ {D : Type 0} where
  unfoldable pub init : ℕ → ℕ → DirectIndexHeap D
  init window_width max_id = record {
    window_width = window_width;
    max_id = max_id;
    entries = replicate (add64 max_id 1) blank;
    expiry = [];
    alerts = 0;
    last_timer = 0;
  }

  -- What the loop of `onTimer` does with an item that it has popped.
  unfoldable pub drop_due : ℕ → Exp → List (DirectEntry D) → List (DirectEntry D)
  drop_due max_id top entries =
      let ent = get_or entries top.id blank in
      if ltb max_id top.id
      then entries
      else if ent.active && ent.expire_at == top.expire_at
      then set entries top.id blank
      else entries

  -- The loop of `onTimer`.
  unfoldable pub drain : ℕ → ℕ → List Exp → List (DirectEntry D) → List Exp × List (DirectEntry D)
  drain max_id now [] entries = ([], entries)
  drain max_id now (top ∷ rest) entries =
      let popped = drain max_id now rest (drop_due max_id top entries) in
      if ltb now top.expire_at then (top ∷ rest, entries) else popped

  unfoldable pub on_timer : ℕ → DirectIndexHeap D → DirectIndexHeap D
  on_timer now r =
      let (expiry, entries) = drain r.max_id now r.expiry r.entries in
      record r { last_timer = now; expiry = expiry; entries = entries }

  module _ (price_eq : D → D → Bool) where
    unfoldable pub on_feed : Feed → Execution D → DirectIndexHeap D → DirectIndexHeap D
    unfolding receive
    on_feed f exec r =
        let ent = get_or r.entries exec.id blank in
        let (e, hit) = receive price_eq r.window_width f exec ent in
        if leb (add64 exec.ts r.window_width) r.last_timer
        then r
        else if ltb r.max_id exec.id
        then r
        else record r {
          entries = set r.entries exec.id e;
          expiry =
              if ent.active
              then r.expiry
              else ExpiryHeap.push (record { expire_at = e.expire_at; id = exec.id }) r.expiry;
          alerts = if hit then add64 r.alerts 1 else r.alerts;
        }
