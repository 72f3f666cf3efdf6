-- ===== src/OpenAddressing.antt =====
-- `OpenAddressingHashTable` of topics/microarchitecture/cache_friendly_hash_table.cpp: linear probing in
-- one array that doubles. `std::hash` and `==` on keys are parameters.
pub mod Search
pub mod Place
pub mod Valid
pub mod Put
pub mod Update
pub mod Rehash
pub mod Insert
mod Tests
use learn_cpp.Prelude.{
  ℕ, zero, suc, ◌+◌, ◌*◌, ◌%◌, ◌^◌, Bool, true, false, Option, none, some, List, [], ◌∷◌,
  if◌then◌else◌, leb, add64, length, get_or, set, replicate,
}

abbrev pub Cells : Type 0 → Type 0 → Type 0
Cells K V = List (Option (K × V))

pub record HashTable (K V : Type 0) : Type 0 where
  pub cells : Cells K V
  pub size : ℕ

module _ {K V : Type 0} where
  unfoldable pub init : ℕ → HashTable K V
  init capacity = record { cells = replicate capacity none; size = 0 }

  abbrev pub cell : Cells K V → ℕ → Option (K × V)
  cell cells idx = get_or cells idx none

  module _ (hash : K → ℕ) (eq : K → K → Bool) where
    -- Where the capacity is 0 the source divides by it.
    unfoldable pub index : K → Cells K V → ℕ
    index key cells = hash key % length cells

    -- The loop of `find` from j on, with a number of rounds left.
    unfoldable pub find_loop : ℕ → ℕ → K → Cells K V → ℕ → Option V
    find_loop zero j key cells i = none
    find_loop (suc n) j key cells i =
        let rest = find_loop n (add64 j 1) key cells i in
        elim (cell cells (add64 i j % length cells)) [
          | none ↦ none
          | some (k, v) ↦ if eq k key then some v else rest
        ]

    unfoldable pub find : K → HashTable K V → Option V
    unfolding find_loop index
    find key t = find_loop (length t.cells) 0 key t.cells (index key t.cells)

    -- The body of the loop of `insert` at a cell, with what comes of the next rounds.
    unfoldable pub place :
        K → V → HashTable K V → ℕ → Option (K × V) → Option (HashTable K V) → Option (HashTable K V)
    place key value t idx none rest =
        some (record { cells = set t.cells idx (some (key, value)); size = add64 t.size 1 })
    place key value t idx (some (k, v)) rest =
        if eq k key then some (record t { cells = set t.cells idx (some (k, value)) }) else rest

    -- The loop of `insert`; `none` where it ends without a place.
    unfoldable pub insert_loop : ℕ → ℕ → K → V → HashTable K V → ℕ → Option (HashTable K V)
    unfolding place
    insert_loop zero j key value t i = none
    insert_loop (suc n) j key value t i =
        let rest = insert_loop n (add64 j 1) key value t i in
        let idx = add64 i j % length t.cells in place key value t idx (cell t.cells idx) rest

    -- The loop of `rehash` over the old cells, with what it calls for `insert`.
    unfoldable pub reinsert :
        (K → V → HashTable K V → Option (HashTable K V))
        → Cells K V
        → HashTable K V
        → Option (HashTable K V)
    reinsert ins [] t = some t
    reinsert ins (none ∷ old) t = reinsert ins old t
    reinsert ins (some (k, v) ∷ old) t = elim (ins k v t) [
      | none ↦ none
      | some t' ↦ reinsert ins old t'
    ]

    unfoldable pub rehash :
        (K → V → HashTable K V → Option (HashTable K V)) → HashTable K V → Option (HashTable K V)
    unfolding reinsert
    rehash ins t =
        reinsert ins t.cells
          (record { cells = replicate (length t.cells * 2 % 2 ^ 64) none; size = 0 })

    -- `insert`, with the depth of calls that is left; `none` is a depth that was not enough.
    unfoldable pub insert : ℕ → K → V → HashTable K V → Option (HashTable K V)
    unfolding rehash insert_loop index
    insert zero key value t = none
    insert (suc depth) key value t =
        let ins = insert depth in
        let ready : Option (HashTable K V) =
          if leb (length t.cells) (t.size * 2 % 2 ^ 64) then rehash ins t else some t in
        elim ready [
          | none ↦ none
          | some t' ↦ elim (insert_loop (length t'.cells) 0 key value t' (index key t'.cells)) [
            | some done ↦ some done
            | none ↦ elim (rehash ins t') [ none ↦ none | some t'' ↦ ins key value t'' ]
          ]
        ]
