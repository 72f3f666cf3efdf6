-- ===== src/Reconciler/VectorScan/Items.antt =====
-- The sorted vector of `ReconcilerVectorScan` as a map from ids.
use learn_cpp.Prelude.{
  ℕ, suc, ◌<◌, ◌≤◌, ◌≡◌, refl, Bool, true, false, Option, none, some, List, [], ◌∷◌, map,
  if◌then◌else◌, ◌==◌, ltb, get_elem?, arith, Bool-cases, inl, inr,
}
use learn_cpp.Reconciler.Common.{Entry}
use learn_cpp.Reconciler.IdMap.{IdMap, find, erase_if, Unique}
use learn_cpp.Reconciler.UnorderedScan.{entry_of}
use learn_cpp.Reconciler.VectorScan.{
  Item, remove_if, insert_at, lower_bound, get_or_create, write_entry, entry_at,
}

module _ {D : Type 0} where
  abbrev pub pairs : List (Item D) → IdMap (Entry D)
  pairs = map (λ (it : Item D). (it.id, it.entry))

  abbrev pub Above : ℕ → List (Item D) → Type 0
  Above k [] = Unit
  Above k (it ∷ items) = (k < it.id) × Above k items

  -- Ids ascend, none twice.
  abbrev pub IsSorted : List (Item D) → Type 0
  IsSorted [] = Unit
  IsSorted (it ∷ items) = Above it.id items × IsSorted items

  find-Above :
      (k j : ℕ) (items : List (Item D)) → Above k items → j ≤ k → find j (pairs items) ≡ none
  unfolding find
  find-Above k j [] a le = refl
  find-Above k j (it ∷ items) (lt, a) le = ground (arith, find-Above k j items a le)

  pub pairs-Unique : (items : List (Item D)) → IsSorted items → Unique (pairs items)
  pairs-Unique [] s = tt
  pairs-Unique (it ∷ items) (a, s) =
      (find-Above it.id it.id items a (omega arith), pairs-Unique items s)

  -- What `get_or_create` and the write through its reference come to.
  pub upsert : ℕ → Entry D → List (Item D) → List (Item D)
  upsert id e [] = record { id = id; entry = e } ∷ []
  upsert id e (it ∷ items) =
      if ltb it.id id
      then it ∷ upsert id e items
      else (if it.id == id
          then record it { entry = e } ∷ items
          else record { id = id; entry = e } ∷ it ∷ items)

  get_or_create_step :
      (id : ℕ) (it : Item D) (items : List (Item D))
      → ltb it.id id ≡ true
      → get_or_create id (it ∷ items)
        ≡ (suc (get_or_create id items).0, it ∷ (get_or_create id items).1)
  unfolding get_or_create lower_bound insert_at
  get_or_create_step id it items h = ground arith

  write_entry_step :
      (at : ℕ) (e : Entry D) (o : Option (Item D)) (it : Item D) (items : List (Item D))
      → write_entry (suc at) e o (it ∷ items) ≡ it ∷ write_entry at e o items
  unfolding write_entry
  write_entry_step at e none it items = refl
  write_entry_step at e (some x) it items = refl

  pub write_entry-upsert :
      (id : ℕ) (e : Entry D) (items : List (Item D))
      → let (at, items') = get_or_create id items in
        write_entry at e (get_elem? items' at) items' ≡ upsert id e items
  unfolding upsert
  write_entry-upsert id e [] = unfold get_or_create lower_bound insert_at write_entry in refl
  write_entry-upsert id e (it ∷ items) = elim (Bool-cases (ltb it.id id)) [
    | inl before ↦ rw (
      get_or_create_step id it items before,
      write_entry_step,
      before,
      write_entry-upsert id e items,
    )
    | inr after ↦ unfold get_or_create lower_bound insert_at write_entry in ground arith
  ]

  pub entry_at-find :
      (id : ℕ) (items : List (Item D))
      → IsSorted items
      → let (at, items') = get_or_create id items in
        entry_at (get_elem? items' at) ≡ entry_of (find id (pairs items))
  unfolding find
  entry_at-find id [] s = unfold get_or_create lower_bound insert_at in refl
  entry_at-find id (it ∷ items) (a, s) = elim (Bool-cases (ltb it.id id)) [
    | inl before ↦
        let other : (it.id == id) ≡ false = ground arith in
        rw (get_or_create_step id it items before, other) (entry_at-find id items s)
    | inr after ↦
        unfold get_or_create lower_bound insert_at in ground (arith, find-Above it.id id items a)
  ]

  pub find-upsert :
      (id j : ℕ) (e : Entry D) (items : List (Item D))
      → find j (pairs (upsert id e items)) ≡ (if id == j then some e else find j (pairs items))
  unfolding find upsert
  find-upsert id j e [] = refl
  find-upsert id j e (it ∷ items) = ground (arith, find-upsert id j e items)

  Above-trans : (k l : ℕ) (items : List (Item D)) → k ≤ l → Above l items → Above k items
  Above-trans k l [] le a = tt
  Above-trans k l (it ∷ items) le (lt, a) = (omega arith, Above-trans k l items le a)

  upsert-Above :
      (k id : ℕ) (e : Entry D) (items : List (Item D))
      → k < id
      → Above k items
      → Above k (upsert id e items)
  unfolding upsert
  upsert-Above k id e [] lt a = (lt, tt)
  upsert-Above k id e (it ∷ items) lt (b, a) = elim (Bool-cases (ltb it.id id)) [
    | inl before ↦ rw before (b, upsert-Above k id e items lt a)
    | inr after ↦ elim (Bool-cases (it.id == id)) [
      | inl same ↦ rw (after, same) (b, a)
      | inr other ↦ rw (after, other) (lt, (b, a))
    ]
  ]

  pub upsert-IsSorted :
      (id : ℕ) (e : Entry D) (items : List (Item D)) → IsSorted items → IsSorted (upsert id e items)
  unfolding upsert
  upsert-IsSorted id e [] s = (tt, tt)
  upsert-IsSorted id e (it ∷ items) (a, s) = elim (Bool-cases (ltb it.id id)) [
    | inl before ↦
        rw before (upsert-Above it.id id e items (ground arith) a, upsert-IsSorted id e items s)
    | inr after ↦ elim (Bool-cases (it.id == id)) [
      | inl same ↦ rw (after, same) (a, s)
      | inr other ↦
          let lt : id < it.id = ground arith in
          rw (after, other) ((lt, Above-trans id it.id items (ground arith) a), (a, s))
    ]
  ]

  pub pairs-remove_if :
      (gone : Entry D → Bool) (items : List (Item D))
      → pairs (remove_if (λ it. gone it.entry) items) ≡ erase_if gone (pairs items)
  unfolding remove_if erase_if
  pairs-remove_if gone [] = refl
  pairs-remove_if gone (it ∷ items) = ground (arith, pairs-remove_if gone items)

  remove_if-Above :
      (k : ℕ) (gone : Entry D → Bool) (items : List (Item D))
      → Above k items
      → Above k (remove_if (λ it. gone it.entry) items)
  unfolding remove_if
  remove_if-Above k gone [] a = tt
  remove_if-Above k gone (it ∷ items) (lt, a) = elim (Bool-cases (gone it.entry)) [
    | inl old ↦ rw old (remove_if-Above k gone items a)
    | inr young ↦ rw young (lt, remove_if-Above k gone items a)
  ]

  pub remove_if-IsSorted :
      (gone : Entry D → Bool) (items : List (Item D))
      → IsSorted items
      → IsSorted (remove_if (λ it. gone it.entry) items)
  unfolding remove_if
  remove_if-IsSorted gone [] s = tt
  remove_if-IsSorted gone (it ∷ items) (a, s) = elim (Bool-cases (gone it.entry)) [
    | inl old ↦ rw old (remove_if-IsSorted gone items s)
    | inr young ↦ rw young (remove_if-Above it.id gone items a, remove_if-IsSorted gone items s)
  ]
