-- ===== src/LruCache.antt =====
-- `LRUCache` of topics/memory/lru_cache.cpp. A node of the list has an address, which is what the map
-- holds as its iterator; `fresh` is the address of the next node. Keys are natural numbers. `none`
-- stands for undefined behaviour: `back()` and `pop_back()` of an empty list, for a capacity of 0.
pub mod Links
pub mod Recency
pub mod Calls
pub mod Tests
use learn_cpp.Prelude.{
  ℕ, suc, ◌+◌, ◌≡◌, Bool, true, false, Option, none, some, List, [], ◌∷◌, if◌then◌else◌, ◌==◌, leb,
  length,
}

pub record Node (V : Type 0) : Type 0 where
  pub address : ℕ
  pub key : ℕ
  pub value : V

pub record LruCache (V : Type 0) : Type 0 where
  pub cap : ℕ
  pub list : List (Node V)
  pub index : List (ℕ × ℕ)
  pub fresh : ℕ

-- `map_.find`
abbrev pub find : ℕ → List (ℕ × ℕ) → Option ℕ
find key [] = none
find key ((k, it) ∷ index) = if k == key then some it else find key index

-- `map_.erase`
abbrev pub erase : ℕ → List (ℕ × ℕ) → List (ℕ × ℕ)
erase key [] = []
erase key ((k, it) ∷ index) = if k == key then erase key index else (k, it) ∷ erase key index

abbrev pub drop_last {ℓ} : {A : Type ℓ} → List A → List A
drop_last [] = []
drop_last (x ∷ []) = []
drop_last (x ∷ y ∷ xs) = x ∷ drop_last (y ∷ xs)

module _ {V : Type 0} where
  abbrev pub node_at : ℕ → List (Node V) → Option (Node V)
  node_at it [] = none
  node_at it (n ∷ ns) = if n.address == it then some n else node_at it ns

  abbrev pub unlink : ℕ → List (Node V) → List (Node V)
  unlink it [] = []
  unlink it (n ∷ ns) = if n.address == it then ns else n ∷ unlink it ns

  -- `list_.splice(list_.begin(), list_, it)`
  unfoldable pub splice : ℕ → List (Node V) → List (Node V)
  splice it ns = elim (node_at it ns) [ none ↦ ns | some n ↦ n ∷ unlink it ns ]

  -- `it->second = value`
  abbrev pub assign : ℕ → V → List (Node V) → List (Node V)
  assign it value [] = []
  assign it value (n ∷ ns) =
      if n.address == it then record n { value = value } ∷ ns else n ∷ assign it value ns

  abbrev pub back : List (Node V) → Option (Node V)
  back [] = none
  back (n ∷ []) = some n
  back (n ∷ m ∷ ns) = back (m ∷ ns)

  unfoldable pub init : ℕ → LruCache V
  init cap = record { cap = cap; list = []; index = []; fresh = 0 }

  unfoldable pub get : ℕ → LruCache V → Option V × LruCache V
  unfolding splice
  get key c = elim (find key c.index) [
    | none ↦ (none, c)
    | some it ↦
        let list = splice it c.list in
        (elim (node_at it list) [ none ↦ none | some n ↦ some n.value ], record c { list = list })
  ]

  -- `if (list_.size() >= cap_)` and its body.
  unfoldable pub make_room : LruCache V → Option (LruCache V)
  make_room c =
      if leb c.cap (length c.list)
      then elim (back c.list) [
        | none ↦ none
        | some n ↦ some (record c { index = erase n.key c.index; list = drop_last c.list })
      ]
      else some c

  unfoldable pub put : ℕ → V → LruCache V → Option (LruCache V)
  unfolding splice make_room
  put key value c = elim (find key c.index) [
    | some it ↦ some (record c { list = splice it (assign it value c.list) })
    | none ↦ elim (make_room c) [
      | none ↦ none
      | some c' ↦ some (record c' {
        list = record { address = c'.fresh; key = key; value = value } ∷ c'.list;
        index = (key, c'.fresh) ∷ c'.index;
        fresh = c'.fresh + 1;
      })
    ]
  ]
