-- ===== src/OpenAddressing/Rehash.antt =====
-- `rehash`, and `insert` and `find` with it.
use learn_cpp.Prelude.{
  ℕ, zero, suc, ◌+◌, ◌*◌, ◌%◌, ◌^◌, ◌≤◌, ◌<◌, ◌≡◌, ◌≢◌, refl, sym, ap, ◌∙◌, Bool, true, false, inl,
  inr, Option, none, some, [], ◌∷◌, if◌then◌else◌, leb, length, length-replicate, replicate, arith,
  Bool-cases, Option-cases,
}
use learn_cpp.OpenAddressing.{Cells, HashTable, cell, index, insert, insert_loop, rehash, reinsert}
use learn_cpp.OpenAddressing.Put.{Valid, slot-key, first_of}
use learn_cpp.OpenAddressing.Place.{KeyEq}
use learn_cpp.OpenAddressing.Search.{value_at_full, look}
use learn_cpp.OpenAddressing.Update.{insert_loop_lem}
use learn_cpp.OpenAddressing.Valid.{occupied, slot, lookup, Sound}

module _ {K V : Type 0} where
  cell-lt : (cells : Cells K V) (p : ℕ) (c : K × V) → cell cells p ≡ some c → p < length cells
  cell-lt [] p c e = absurd (ground arith)
  cell-lt (x ∷ cells) zero c e = omega arith
  cell-lt (x ∷ cells) (suc p) c e = omega (arith, cell-lt cells p c e)

abbrev pub blanks : (K V : Type 0) → ℕ → Cells K V
blanks K V n = replicate n none

abbrev pub blank : (K V : Type 0) → ℕ → HashTable K V
blank K V n = record { cells = blanks K V n; size = 0 }

module _ (K V : Type 0) where
  cell-replicate : (n p : ℕ) → cell (blanks K V n) p ≡ none
  cell-replicate zero p = refl
  cell-replicate (suc n) zero = refl
  cell-replicate (suc n) (suc p) = cell-replicate n p

  pub occupied-replicate : (n : ℕ) → occupied (blanks K V n) ≡ 0
  occupied-replicate zero = refl
  occupied-replicate (suc n) = occupied-replicate n

module _ {K V : Type 0} (hash : K → ℕ) (eq : K → K → Bool) (law : KeyEq eq) where
  -- An array of empty cells.
  pub blank-Valid : (n : ℕ) → Valid hash eq law (blank K V n)
  blank-Valid n = record {
    counted = sym (occupied-replicate K V n);
    sound = λ s k v lt e. absurd (let c = sym (cell-replicate K V n s) ∙ e in ground arith);
  }

  pub blank-lookup : (n : ℕ) (k : K) → 0 < n → lookup hash eq law k (blanks K V n) ≡ none
  blank-lookup n k pos = elim (Option-cases (slot hash eq law k (blanks K V n))) [
    | inl nowhere ↦ ap (look eq (blanks K V n)) nowhere
    | inr (p, there) ↦
        let (lt, (v, full)) =
          slot-key hash eq law k (blanks K V n) p
            (rw (length-replicate {A = Option (K × V)} n none) pos) there in
        absurd (let c = sym (cell-replicate K V n p) ∙ full in ground arith)
  ]

  abbrev second : Option (K × V) → Option V
  second none = none
  second (some (k, v)) = some v

  -- The value that the last cell with the key brings.
  abbrev pub last : K → Cells K V → Option V → Option V
  last k [] d = d
  last k (none ∷ cells) d = last k cells d
  last k (some (k', v) ∷ cells) d = last k cells (if eq k' k then some v else d)

  last_absent :
      (k : K) (cells : Cells K V) (d : Option V)
      → ((p : ℕ) (k' : K) (v : V) → cell cells p ≡ some (k', v) → eq k' k ≡ false)
      → last k cells d ≡ d
  last_absent k [] d differs = refl
  last_absent k (none ∷ cells) d differs = last_absent k cells d (λ p. differs (suc p))
  last_absent k (some (k', v) ∷ cells) d differs =
      last_absent k cells _ (λ p. differs (suc p))
      ∙ ap (λ b. if b then some v else d) (differs 0 k' v refl)

  last_there :
      (k : K) (v : V) (cells : Cells K V) (p : ℕ) (d : Option V)
      → cell cells p ≡ some (k, v)
      → ((q : ℕ) (k' : K) (w : V) → cell cells q ≡ some (k', w) → q ≢ p → eq k' k ≡ false)
      → last k cells d ≡ some v
  last_there k v [] p d there only = absurd (ground arith)
  last_there k v (none ∷ cells) zero d there only = absurd (ground arith)
  last_there k v (some (k', w) ∷ cells) zero d there only =
      let same : k' ≡ k = ap (first_of hash eq law k') there in
      last_absent k cells _ (λ q k'' w' e. only (suc q) k'' w' e (λ c. omega (arith, c)))
      ∙ ap (λ b. if b then some w else d) (ap (λ x. eq x k) same ∙ law.self k)
      ∙ ap second there
  last_there k v (none ∷ cells) (suc p) d there only =
      last_there k v cells p d there
        (λ q k' w e ne. only (suc q) k' w e (λ c. ne (omega (arith, c))))
  last_there k v (some (k', w) ∷ cells) (suc p) d there only =
      last_there k v cells p _ there
        (λ q k'' w' e ne. only (suc q) k'' w' e (λ c. ne (omega (arith, c))))

  pub last-lookup :
      (k : K) (cells : Cells K V)
      → 0 < length cells
      → Sound hash eq law cells
      → last k cells none ≡ lookup hash eq law k cells
  last-lookup k cells pos sound = elim (Option-cases (slot hash eq law k cells)) [
    | inl nowhere ↦
        last_absent k cells none (λ p k' v e. elim (Bool-cases (eq k' k)) [
          | inr other ↦ other
          | inl same ↦
              let at = sound p k' v (cell-lt cells p (k', v) e) e in
              let here = ap (λ q. slot hash eq law q cells) (law.sound k' k same) in
              absurd (ground (arith, at, here, nowhere))
        ])
        ∙ sym (ap (look eq cells) nowhere)
    | inr (p, there) ↦
        let (lt, (v, full)) = slot-key hash eq law k cells p pos there in
        last_there k v cells p none full (λ q k' w e ne. elim (Bool-cases (eq k' k)) [
          | inr other ↦ other
          | inl same ↦
              let at = sound q k' w (cell-lt cells q (k', w) e) e in
              let here = ap (λ x. slot hash eq law x cells) (law.sound k' k same) in
              absurd (ne (ground (arith, at, here, there)))
        ])
        ∙ sym (ap (look eq cells) there ∙ value_at_full eq cells p k v full)
  ]

  pub insert-roomy :
      (depth : ℕ) (key : K) (value : V) (t t' : HashTable K V)
      → leb (length t.cells) (t.size * 2 % 2 ^ 64) ≡ false
      → insert_loop hash eq (length t.cells) 0 key value t (index hash eq key t.cells) ≡ some t'
      → insert hash eq (suc depth) key value t ≡ some t'
  unfolding insert
  insert-roomy depth key value t t' calm run = rw (insert, calm, run) refl

  pub insert-rehash :
      (depth : ℕ) (key : K) (value : V) (t t' t'' : HashTable K V)
      → leb (length t.cells) (t.size * 2 % 2 ^ 64) ≡ true
      → rehash hash eq (insert hash eq depth) t ≡ some t'
      → insert_loop hash eq (length t'.cells) 0 key value t' (index hash eq key t'.cells) ≡ some t''
      → insert hash eq (suc depth) key value t ≡ some t''
  unfolding insert
  insert-rehash depth key value t t' t'' crowded ready run =
      rw (insert, crowded, ready) (rw run refl)

  -- Reinserting old cells into a table with room for all of them.
  pub record Moved (t t' : HashTable K V) (old : Cells K V) : Type 0 where
    pub valid : Valid hash eq law t'
    pub same_capacity : length t'.cells ≡ length t.cells
    pub fuller : occupied t'.cells ≤ occupied t.cells + occupied old
    pub lookups :
        (k : K) → lookup hash eq law k t'.cells ≡ last k old (lookup hash eq law k t.cells)

  pub reinsert_lem :
      (depth : ℕ) (old : Cells K V) (t : HashTable K V)
      → Valid hash eq law t
      → (occupied t.cells + occupied old) * 2 ≤ length t.cells
      → length t.cells < 2 ^ 62
      → (t' : HashTable K V) × ((reinsert hash eq (insert hash eq (suc depth)) old t ≡ some t')
          × Moved t t' old)
  unfolding reinsert
  reinsert_lem depth [] t valid room small = (
    t,
    (
      refl,
      record { valid = valid; same_capacity = refl; fuller = omega arith; lookups = λ k. refl },
    ),
  )
  reinsert_lem depth (none ∷ old) t valid room small =
      let (t', (run, m)) = reinsert_lem depth old t valid room small in
      (
        t',
        (
          run,
          record {
            valid = m.valid;
            same_capacity = m.same_capacity;
            fuller = m.fuller;
            lookups = m.lookups;
          },
        ),
      )
  reinsert_lem depth (some (k, v) ∷ old) t valid room small =
      let (t₁, (run, i)) = insert_loop_lem hash eq law k v t valid (omega (arith, room)) small in
      let calm : leb (length t.cells) (t.size * 2 % 2 ^ 64) ≡ false =
        ground (arith, room, valid.counted, small) in
      let (t', (rest, m)) =
        reinsert_lem depth old t₁ i.valid (omega (arith, room, i.fuller, i.same_capacity))
          (omega (arith, small, i.same_capacity)) in
      (
        t',
        (
          rw (reinsert, insert-roomy depth k v t t₁ calm run) rest,
          record {
            valid = m.valid;
            same_capacity = m.same_capacity ∙ i.same_capacity;
            fuller = omega (arith, m.fuller, i.fuller);
            lookups = λ q. m.lookups q ∙ ap (last q old) (i.lookups q);
          },
        ),
      )
