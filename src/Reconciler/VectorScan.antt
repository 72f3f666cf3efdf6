-- ===== src/Reconciler/VectorScan.antt =====
-- `ReconcilerVectorScan` of extras/citadel_interview/main.cpp: a vector sorted by id.
pub mod Items
pub mod Agrees
use learn_cpp.Prelude.{
  ℕ, zero, suc, ◌≡◌, Bool, true, false, not, ◌&&◌, ◌||◌, Option, none, some, List, [], ◌∷◌,
  if◌then◌else◌, ◌==◌, leb, ltb, add64, length, get_elem?, set,
}
use learn_cpp.Reconciler.Common.{Execution, Feed, Entry, fresh, store, any_mismatch}

pub record Item (D : Type 0) : Type 0 where
  pub id : ℕ
  pub entry : Entry D

pub record VectorScan (D : Type 0) : Type 0 where
  pub window_width : ℕ
  pub by_id : List (Item D)
  pub alerts : ℕ
  pub last_timer : ℕ

-- `std::remove_if` with `erase`
unfoldable pub remove_if {ℓ} : {A : Type ℓ} → (A → Bool) → List A → List A
remove_if gone [] = []
remove_if gone (x ∷ xs) = if gone x then remove_if gone xs else x ∷ remove_if gone xs

-- `vector::insert` before an index
unfoldable pub insert_at {ℓ} : {A : Type ℓ} → ℕ → A → List A → List A
insert_at zero v xs = v ∷ xs
insert_at (suc i) v [] = v ∷ []
insert_at (suc i) v (x ∷ xs) = x ∷ insert_at i v xs

module _ {D : Type 0} where
  unfoldable pub init : ℕ → VectorScan D
  init window_width = record { window_width = window_width; by_id = []; alerts = 0; last_timer = 0 }

  unfoldable pub is_expired : ℕ → Entry D → ℕ → Bool
  is_expired window_width e now = leb (add64 e.first_ts window_width) now

  unfoldable pub on_timer : ℕ → VectorScan D → VectorScan D
  unfolding is_expired
  on_timer now r = record r {
    last_timer = now;
    by_id = remove_if (λ (it : Item D). is_expired r.window_width it.entry now) r.by_id;
  }

  -- `std::lower_bound`: the first index whose id is not below the key.
  unfoldable pub lower_bound : ℕ → List (Item D) → ℕ
  lower_bound key [] = 0
  lower_bound key (it ∷ items) = if ltb it.id key then suc (lower_bound key items) else 0

  -- The test `it == end() || it->id != id`
  unfoldable pub is_missing : ℕ → Option (Item D) → Bool
  is_missing id none = true
  is_missing id (some it) = not (it.id == id)

  -- The index of the id's item, and the vector that holds it.
  unfoldable pub get_or_create : ℕ → List (Item D) → ℕ × List (Item D)
  unfolding is_missing
  get_or_create id items =
      let at = lower_bound id items in
      if is_missing id (get_elem? items at)
      then (at, insert_at at (record { id = id; entry = fresh }) items)
      else (at, items)

  unfoldable pub touch : ℕ → Entry D → Entry D
  touch ts ent =
      if ent.first_ts == 0 && ent.last_ts == 0
      then record ent { first_ts = ts; last_ts = ts }
      else record ent { last_ts = ts }

  -- A write through the reference: the item at the index gets a new entry.
  unfoldable pub write_entry : ℕ → Entry D → Option (Item D) → List (Item D) → List (Item D)
  write_entry at e none items = items
  write_entry at e (some it) items = set items at (record it { entry = e })

  abbrev pub entry_at : Option (Item D) → Entry D
  entry_at none = fresh
  entry_at (some it) = it.entry

  module _ (price_eq : D → D → Bool) where
    unfoldable pub receive : ℕ → Feed → Execution D → Entry D → Entry D × Bool
    unfolding touch store is_expired any_mismatch
    receive window_width f exec ent =
        let e = store f exec (touch exec.ts ent) in
        if not e.alerted
          && any_mismatch price_eq e.one e.two e.three
          && not (is_expired window_width e exec.ts)
        then (record e { alerted = true }, true)
        else (e, false)

    unfoldable pub on_feed : Feed → Execution D → VectorScan D → VectorScan D
    on_feed f exec r =
        if leb (add64 exec.ts r.window_width) r.last_timer
        then r
        else (let (at, items) = get_or_create exec.id r.by_id in
            let (ent, hit) = receive r.window_width f exec (entry_at (get_elem? items at)) in
            record r {
              by_id = write_entry at ent (get_elem? items at) items;
              alerts = if hit then add64 r.alerts 1 else r.alerts;
            })
