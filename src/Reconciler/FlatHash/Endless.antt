-- ===== src/Reconciler/FlatHash/Endless.antt =====
-- The searches of the hash table when no slot is empty.
use learn_cpp.Prelude.{ℕ, zero, suc, ◌≤◌, ◌≡◌, refl, ◌∙◌, inl, inr, Option, none, some, List}
use learn_cpp.Reconciler.FlatHash.{Table, find_from, insert_from, next, slot_or}
use learn_cpp.Reconciler.FlatHash.Insert.{insert_from-tomb, insert_from-passes}
use learn_cpp.Reconciler.FlatHash.Probe.{key, On, Sized, next_le, find_from-passes}

-- Every slot holds a tombstone or the key of another id.
abbrev pub Crowded : ℕ → ℕ → List ℕ → Type 0
Crowded mask id keys = (s : ℕ) → s ≤ mask → On (key keys s) id

find_from-none :
    (n mask id : ℕ) (keys : List ℕ) (idx : ℕ)
    → Sized mask keys
    → idx ≤ mask
    → Crowded mask id keys
    → find_from n mask id keys idx ≡ none
find_from-none zero mask id keys idx z le c = unfold find_from in refl
find_from-none (suc n) mask id keys idx z le c =
    find_from-passes n mask id keys idx (c idx le)
    ∙ find_from-none n mask id keys (next mask idx) z (next_le idx z le) c

module _ {D : Type 0} (id : ℕ) (two : 2 ≤ id) (tb : Table D) (z : Sized tb.mask tb.keys)
    (c : Crowded tb.mask id tb.keys) where
  insert_from-none :
      (n idx : ℕ) (first : Option ℕ) → idx ≤ tb.mask → insert_from n id tb idx first ≡ none
  insert_from-none zero idx first le = unfold insert_from in refl
  insert_from-none (suc n) idx first le = elim (c idx le) [
    | inl tomb ↦
        insert_from-tomb id two tb z n idx first tomb
        ∙ insert_from-none n (next tb.mask idx) (some (slot_or idx first)) (next_le idx z le)
    | inr (big, other) ↦
        insert_from-passes id two tb z n idx first big other
        ∙ insert_from-none n (next tb.mask idx) first (next_le idx z le)
  ]

  -- When every slot holds a tombstone or the key of another id, neither the loop of `findIndex` nor
  -- that of `findOrInsert` ends for an id of at least 2, in any number of rounds.
  pub search-endless :
      (n idx : ℕ)
      → idx ≤ tb.mask
      → (find_from n tb.mask id tb.keys idx ≡ none) × (insert_from n id tb idx none ≡ none)
  search-endless n idx le =
      (find_from-none n tb.mask id tb.keys idx z le c, insert_from-none n idx none le)
