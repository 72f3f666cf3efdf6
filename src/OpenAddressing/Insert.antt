-- ===== src/OpenAddressing/Insert.antt =====
-- `insert` and `find` of a whole table.
use learn_cpp.Prelude.{
  ℕ, suc, ◌*◌, ◌%◌, ◌^◌, ◌≤◌, ◌<◌, ◌≡◌, sym, ap, ◌∙◌, Bool, inl, inr, Option, none, some,
  if◌then◌else◌, leb, length, length-replicate, arith, Bool-cases,
}
use native.Mathlib.Nat.{mod-lt}
use learn_cpp.OpenAddressing.{HashTable, find, index, init, insert, rehash, reinsert}
use learn_cpp.OpenAddressing.Put.{Valid}
use learn_cpp.OpenAddressing.Rehash.{
  blanks, blank, blank-Valid, blank-lookup, occupied-replicate, last, last-lookup, insert-roomy,
  insert-rehash, reinsert_lem,
}
use learn_cpp.OpenAddressing.Place.{KeyEq}
use learn_cpp.OpenAddressing.Search.{find_loop-search}
use learn_cpp.OpenAddressing.Update.{insert_loop_lem}
use learn_cpp.OpenAddressing.Valid.{occupied, occupied-le, lookup}

module _ {K V : Type 0} (hash : K → ℕ) (eq : K → K → Bool) (law : KeyEq eq) where
  find-lookup :
      (k : K) (t : HashTable K V)
      → 0 < length t.cells
      → length t.cells < 2 ^ 62
      → find hash eq k t ≡ lookup hash eq law k t.cells
  unfolding find index
  find-lookup k t pos small =
      let start = mod-lt (hash k) pos in
      find_loop-search eq hash (length t.cells) 0 k t.cells (hash k % length t.cells)
        (omega (arith, start, small))

  -- The table doubles and keeps what it holds.
  record Doubled (t t' : HashTable K V) : Type 0 where
    valid : Valid hash eq law t'
    capacity : length t'.cells ≡ length t.cells * 2
    fuller : occupied t'.cells ≤ occupied t.cells
    lookups : (k : K) → lookup hash eq law k t'.cells ≡ lookup hash eq law k t.cells

  rehash_lem :
      (depth : ℕ) (t : HashTable K V)
      → Valid hash eq law t
      → 0 < length t.cells
      → length t.cells * 2 < 2 ^ 62
      → (t' : HashTable K V) × ((rehash hash eq (insert hash eq (suc depth)) t ≡ some t')
          × Doubled t t')
  unfolding rehash
  rehash_lem depth t valid pos small =
      let n : ℕ = length t.cells * 2 in
      let wrap : length t.cells * 2 % 2 ^ 64 ≡ n = omega (arith, small) in
      let size : length (blanks K V n) ≡ n = length-replicate {A = Option (K × V)} n none in
      let (t', (run, m)) =
        reinsert_lem hash eq law depth t.cells (blank K V n) (blank-Valid hash eq law n)
          (omega (arith, occupied-replicate K V n, occupied-le t.cells, size))
          (omega (arith, size, small)) in
      (
        t',
        (
          ap (λ (m : ℕ). reinsert hash eq (insert hash eq (suc depth)) t.cells (blank K V m)) wrap
              ∙ run,
          record {
            valid = m.valid;
            capacity = m.same_capacity ∙ size;
            fuller = omega (arith, m.fuller, occupied-replicate K V n);
            lookups = λ k.
                m.lookups k
                ∙ ap (last hash eq law k t.cells)
                    (blank-lookup hash eq law n k (omega (arith, pos)))
                ∙ last-lookup hash eq law k t.cells pos valid.sound;
          },
        ),
      )

  -- A table of at least one cell, in which every key is found where it stands and the size is right.
  pub record Ready (t : HashTable K V) : Type 0 where
    pub valid : Valid hash eq law t
    pub pos : 0 < length t.cells

  pub init-Ready : (capacity : ℕ) → 0 < capacity → Ready (init capacity)
  unfolding init
  init-Ready capacity pos = record {
    valid = blank-Valid hash eq law capacity;
    pos = rw (length-replicate {A = Option (K × V)} capacity none) pos;
  }

  -- Two calls deep, `insert` of a table with at least one cell and fewer than 2^60 returns; the table
  -- that it leaves is again one where every key is found where it stands and the size is the number of
  -- keys; it finds the new value for the new key, and for the other keys what was found before.
  pub insert-find :
      (key : K) (value : V) (t : HashTable K V)
      → Ready t
      → length t.cells < 2 ^ 60
      → (t' : HashTable K V) × ((insert hash eq 2 key value t ≡ some t')
          × Ready t'
          × ((k : K) → find hash eq k t' ≡ (if eq key k then some value else find hash eq k t)))
  insert-find key value t ready small =
      elim (Bool-cases (leb (length t.cells) (t.size * 2 % 2 ^ 64))) [
        | inr calm ↦
            let room : occupied t.cells < length t.cells =
              ground (arith, calm, ready.valid.counted, occupied-le t.cells, small) in
            let (t', (run, i)) =
              insert_loop_lem hash eq law key value t ready.valid room (omega (arith, small)) in
            (
              t',
              (
                insert-roomy hash eq law 1 key value t t' calm run,
                record { valid = i.valid; pos = rw i.same_capacity ready.pos },
                λ k.
                    find-lookup k t' (rw i.same_capacity ready.pos)
                      (omega (arith, small, i.same_capacity))
                    ∙ i.lookups k
                    ∙ ap (λ o. if eq key k then some value else o)
                        (sym (find-lookup k t ready.pos (omega (arith, small)))),
              ),
            )
        | inl crowded ↦
            let (t₁, (again, d)) = rehash_lem 0 t ready.valid ready.pos (omega (arith, small)) in
            let pos₁ : 0 < length t₁.cells = omega (arith, d.capacity, ready.pos) in
            let room : occupied t₁.cells < length t₁.cells =
              omega (arith, d.fuller, occupied-le t.cells, d.capacity, ready.pos) in
            let (t', (run, i)) =
              insert_loop_lem hash eq law key value t₁ d.valid room
                (omega (arith, small, d.capacity)) in
            (
              t',
              (
                insert-rehash hash eq law 1 key value t t₁ t' crowded again run,
                record { valid = i.valid; pos = rw i.same_capacity pos₁ },
                λ k.
                    find-lookup k t' (rw i.same_capacity pos₁)
                      (omega (arith, small, i.same_capacity, d.capacity))
                    ∙ i.lookups k
                    ∙ ap (λ o. if eq key k then some value else o)
                        (d.lookups k ∙ sym (find-lookup k t ready.pos (omega (arith, small)))),
              ),
            )
      ]
