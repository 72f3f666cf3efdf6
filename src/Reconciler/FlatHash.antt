-- ===== src/Reconciler/FlatHash.antt =====
-- The open-addressing hash table of `ReconcilerFlatHashHeap` and `ReconcilerFlatHashWheel` in
-- extras/citadel_interview/main.cpp: three vectors, linear probing and tombstones.
pub mod Probe
pub mod Insert
pub mod Keys
pub mod Models
pub mod Upsert
pub mod Capacity
pub mod Endless
use Prim.Native.Nat.{bit_xor}
use learn_cpp.Prelude.{
  ℕ, zero, suc, ◌+◌, ◌-◌, ◌*◌, ◌/◌, ◌%◌, ◌^◌, Bool, true, false, not, ◌&&◌, Option, none, some,
  List, if◌then◌else◌, ◌==◌, ltb, add64, bit_and, get_or, set, replicate,
}
use learn_cpp.Reconciler.UnorderedHeap.{HeapEntry, fresh}

pub record Table (D : Type 0) : Type 0 where
  pub keys : List ℕ
  pub entries : List (HeapEntry D)
  pub used : List Bool
  pub mask : ℕ

-- `while (cap < want) cap <<= 1`, with a number of rounds left; `none` is the loop that goes on.
unfoldable pub round_up : ℕ → ℕ → ℕ → Option ℕ
round_up zero want cap = none
round_up (suc n) want cap =
    let rest = round_up n want (cap * 2 % 2 ^ 64) in if ltb cap want then rest else some cap

unfoldable pub mix : ℕ → ℕ
mix id =
    let x = add64 id 0x9e3779b97f4a7c15 in
    let y = bit_xor x (x / 2 ^ 30) * 0xbf58476d1ce4e5b9 % 2 ^ 64 in
    let z = bit_xor y (y / 2 ^ 27) * 0x94d049bb133111eb % 2 ^ 64 in bit_xor z (z / 2 ^ 31)

unfoldable pub probe : ℕ → ℕ → ℕ
unfolding mix
probe mask id = bit_and (mix id) mask

-- `(idx + 1) & mask_`
unfoldable pub next : ℕ → ℕ → ℕ
next mask idx = bit_and (add64 idx 1) mask

-- The loop of `findIndex` with a number of rounds left: `none` is the loop that goes on, and
-- `some none` is `npos`. The keys 0 and 1 are `kEmpty` and `kTomb`.
unfoldable pub find_from : ℕ → ℕ → ℕ → List ℕ → ℕ → Option (Option ℕ)
unfolding next
find_from zero mask id keys idx = none
find_from (suc n) mask id keys idx =
    let rest = find_from n mask id keys (next mask idx) in
    let k = get_or keys idx 0 in
    if k == 0 then some none else if not (k == 1) && k == id then some (some idx) else rest

abbrev pub slot_or : ℕ → Option ℕ → ℕ
slot_or idx none = idx
slot_or idx (some t) = t

module _ {D : Type 0} where
  unfoldable pub empty_table : ℕ → Table D
  empty_table cap = record {
    keys = replicate cap 0;
    entries = replicate cap fresh;
    used = replicate cap false;
    mask = cap - 1;
  }

  -- What both constructors do; `none` where the doubling does not end.
  unfoldable pub init : ℕ → Option (Table D)
  unfolding round_up empty_table
  init expected_ids = elim (round_up 64 (expected_ids * 2 % 2 ^ 64) 1) [
    | none ↦ none
    | some cap ↦ some (empty_table cap)
  ]

  -- As many rounds as there are slots.
  unfoldable pub find_index : ℕ → Table D → Option (Option ℕ)
  unfolding find_from probe
  find_index id tb = find_from (suc tb.mask) tb.mask id tb.keys (probe tb.mask id)

  -- What `findOrInsert` writes where it finds no key.
  unfoldable pub insert_at : ℕ → ℕ → Table D → Table D
  insert_at idx id tb = record tb {
    keys = set tb.keys idx id;
    used = set tb.used idx true;
    entries = set tb.entries idx fresh;
  }

  -- The loop of `findOrInsert`, with `first_tomb` (`none` is `npos`): the index and the table.
  unfoldable pub insert_from : ℕ → ℕ → Table D → ℕ → Option ℕ → Option (ℕ × Table D)
  unfolding insert_at next
  insert_from zero id tb idx first_tomb = none
  insert_from (suc n) id tb idx first_tomb =
      let k = get_or tb.keys idx 0 in
      let tomb : Option ℕ = if k == 1 then some (slot_or idx first_tomb) else first_tomb in
      let rest = insert_from n id tb (next tb.mask idx) tomb in
      let free = slot_or idx first_tomb in
      if k == 0
      then some (free, insert_at free id tb)
      else if k == 1
      then rest
      else if k == id
      then some (idx, tb)
      else rest

  unfoldable pub find_or_insert : ℕ → Table D → Option (ℕ × Table D)
  unfolding insert_from probe
  find_or_insert id tb = insert_from (suc tb.mask) id tb (probe tb.mask id) none

  unfoldable pub erase_at : ℕ → Table D → Table D
  erase_at idx tb = record tb {
    keys = set tb.keys idx 1;
    used = set tb.used idx false;
    entries = set tb.entries idx fresh;
  }

  -- A write through the reference `entries_[idx]`.
  unfoldable pub write_at : ℕ → HeapEntry D → Table D → Table D
  write_at idx ent tb = record tb { entries = set tb.entries idx ent }
