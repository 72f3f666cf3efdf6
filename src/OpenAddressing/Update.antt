-- ===== src/OpenAddressing/Update.antt =====
-- `insert` of a key that is there, and `insert` into a table that has room.
use learn_cpp.Prelude.{
  ℕ, zero, suc, ◌+◌, ◌%◌, ◌^◌, ◌<◌, ◌≡◌, ◌≢◌, refl, sym, ap, ◌∙◌, subst, Bool, false, inl, inr,
  none, some, ◌==◌, add64, length, length-set, get_or-set_ne, set, arith, Bool-cases, Option-cases,
  ==→eq, ==→ne,
}
use native.Mathlib.Nat.{mod-lt}
use learn_cpp.OpenAddressing.{Cells, HashTable, cell, index, insert_loop}
use learn_cpp.OpenAddressing.Put.{
  Valid, Inserted, slot-set, slot-key, first_of, eq_false, put-Inserted,
}
use learn_cpp.OpenAddressing.Place.{KeyEq, insert_loop-found, insert_loop-new, wrote}
use learn_cpp.OpenAddressing.Search.{
  search, Hit, Miss, round, search-empty, search-Hit, search-Miss, value_at_full, look,
}
use learn_cpp.OpenAddressing.Valid.{
  occupied, occupied-update, empty_cell, slot, lookup, Sound, not-Full,
}

module _ {K V : Type 0} (hash : K → ℕ) (eq : K → K → Bool) (law : KeyEq eq) where
  module _ (key : K) (value old : V) (cells : Cells K V) (s : ℕ)
      (full : cell cells s ≡ some (key, old)) (lt : s < length cells) where
    abbrev now : Cells K V
    now = set cells s (some (key, value))

    -- A cell keeps its key.
    kept :
        (p : ℕ) (k : K) (v : V) → cell cells p ≡ some (k, v) → (w : V) × (cell now p ≡ some (k, w))
    kept p k v there = elim (Bool-cases (s == p)) [
      | inl same ↦
          let mine : some (key, old) ≡ some (k, v) =
            sym full ∙ ap (cell cells) (==→eq s p same) ∙ there in
          (
            value,
            subst (λ (q : ℕ). cell now q ≡ some (k, value)) (==→eq s p same)
                (wrote hash eq law cells s (some (key, value)) lt
                  ∙ ap (λ q. some (q, value)) (ap (first_of hash eq law key) mine)),
          )
      | inr away ↦ (v, get_or-set_ne cells s p (some (key, value)) none (==→ne s p away) ∙ there)
    ]

    kept_empty : (p : ℕ) → cell cells p ≡ none → cell now p ≡ none
    kept_empty p there = elim (Bool-cases (s == p)) [
      | inl same ↦
          absurd (let both = sym full ∙ ap (cell cells) (==→eq s p same) ∙ there in ground arith)
      | inr away ↦ get_or-set_ne cells s p (some (key, value)) none (==→ne s p away) ∙ there
    ]

    same_length : length cells ≡ length now
    same_length = sym (length-set cells s (some (key, value)))

    search-update : (n j : ℕ) (k : K) (i : ℕ) → search eq n j k now i ≡ search eq n j k cells i
    search-update zero j k i = unfold search in refl
    search-update (suc n) j k i =
        let p : ℕ = (i + j) % length cells in
        let q : ℕ = (i + j) % length now in
        let at : p ≡ q = ap (λ (m : ℕ). (i + j) % m) same_length in
        elim (round eq k cells p) [
          | inl empty ↦
              search-empty eq n j k now i (subst (λ m. cell now m ≡ none) at (kept_empty p empty))
              ∙ sym (search-empty eq n j k cells i empty)
          | inr (inl (k', (v, (there, hit)))) ↦
              let (w, there') = kept p k' v there in
              search-Hit eq n j k now i (subst (λ m. Hit eq k now m) at (k', (w, (there', hit))))
              ∙ ap some (sym at)
              ∙ sym (search-Hit eq n j k cells i (k', (v, (there, hit))))
          | inr (inr (k', (v, (there, miss)))) ↦
              let (w, there') = kept p k' v there in
              search-Miss eq n j k now i (subst (λ m. Miss eq k now m) at (k', (w, (there', miss))))
              ∙ search-update n (suc j) k i
              ∙ sym (search-Miss eq n j k cells i (k', (v, (there, miss))))
        ]

    slot-update : (k : K) → slot hash eq law k now ≡ slot hash eq law k cells
    slot-update k =
        slot-set hash eq law k cells s (some (key, value))
        ∙ search-update (length cells) 0 k (hash k % length cells)

    look_here : slot hash eq law key cells ≡ some s → lookup hash eq law key now ≡ some value
    look_here there =
        ap (look eq now) (slot-update key ∙ there)
        ∙ value_at_full eq now s key value (wrote hash eq law cells s (some (key, value)) lt)

    look_other :
        (k : K)
        → 0 < length cells
        → eq key k ≡ false
        → lookup hash eq law k now ≡ lookup hash eq law k cells
    look_other k pos other =
        ap (look eq now) (slot-update k) ∙ elim (Option-cases (slot hash eq law k cells)) [
          | inl nowhere ↦ ap (look eq now) nowhere ∙ sym (ap (look eq cells) nowhere)
          | inr (p, there) ↦
              let (lt', (v, full')) = slot-key hash eq law k cells p pos there in
              let away : s ≢ p = λ e.
                eq_false eq law key k other
                  (ap (first_of hash eq law key) (sym full ∙ ap (cell cells) e ∙ full')) in
              ap (look eq now) there
              ∙ value_at_full eq now p k v
                  (get_or-set_ne cells s p (some (key, value)) none away ∙ full')
              ∙ sym (value_at_full eq cells p k v full')
              ∙ sym (ap (look eq cells) there)
        ]

    now-Sound : Sound hash eq law cells → Sound hash eq law now
    now-Sound sound p k v lt' there =
        let p_lt : p < length cells = subst (λ (m : ℕ). p < m) (sym same_length) lt' in
        slot-update k ∙ elim (Option-cases (cell cells p)) [
          | inl empty ↦ absurd (let both = sym there ∙ kept_empty p empty in ground arith)
          | inr ((k', w), was) ↦
              let (u, here) = kept p k' w was in
              let same : k' ≡ k = ap (first_of hash eq law key) (sym here ∙ there) in
              subst (λ q. slot hash eq law q cells ≡ some p) same (sound p k' w p_lt was)
        ]

  update-Inserted :
      (key : K) (value old : V) (t : HashTable K V) (s : ℕ)
      → Valid hash eq law t
      → 0 < length t.cells
      → slot hash eq law key t.cells ≡ some s
      → cell t.cells s ≡ some (key, old)
      → s < length t.cells
      → Inserted hash eq law key value t (record t { cells = set t.cells s (some (key, value)) })
  update-Inserted key value old t s valid pos there full lt = record {
    valid = record {
      counted = valid.counted ∙ sym (occupied-update t.cells s (key, value) (key, old) full);
      sound = now-Sound key value old t.cells s full lt valid.sound;
    };
    same_capacity = length-set t.cells s (some (key, value));
    fuller = omega (arith, occupied-update t.cells s (key, value) (key, old) full);
    lookups = λ k. elim (Bool-cases (eq key k)) [
      | inl same ↦ rw same (
          subst (λ q. lookup hash eq law q (set t.cells s (some (key, value))) ≡ some value)
            (law.sound key k same) (look_here key value old t.cells s full lt there))
      | inr other ↦ rw other (look_other key value old t.cells s full lt k pos other)
    ];
  }

  -- The loop of `insert` in a table with an empty cell.
  pub insert_loop_lem :
      (key : K) (value : V) (t : HashTable K V)
      → Valid hash eq law t
      → occupied t.cells < length t.cells
      → length t.cells < 2 ^ 62
      → (t' : HashTable K V) × ((insert_loop hash eq
              (length t.cells)
              0
              key
              value
              t
              (index hash eq key t.cells)
            ≡ some t')
          × Inserted hash eq law key value t t')
  unfolding index
  insert_loop_lem key value t valid room small =
      let n : ℕ = length t.cells in
      let pos : 0 < n = omega (arith, room) in
      let i : ℕ = hash key % n in
      let start : i < n = mod-lt (hash key) pos in
      let fits : i + 0 + n < 2 ^ 64 = omega (arith, start, small) in
      elim (Option-cases (slot hash eq law key t.cells)) [
        | inr (s, there) ↦
            let (lt, (old, full)) = slot-key hash eq law key t.cells s pos there in
            (
              record t { cells = set t.cells s (some (key, value)) },
              (
                insert_loop-found hash eq law n 0 key value t i s fits there,
                update-Inserted key value old t s valid pos there full lt,
              ),
            )
        | inl absent ↦ elim (insert_loop-new hash eq law n 0 key value t i fits pos absent) [
          | inl full ↦
              let (s, (lt, empty)) = empty_cell t.cells room in
              absurd (not-Full hash eq law t.cells i s start lt empty full)
          | inr (s, put) ↦ (
            record { cells = set t.cells s (some (key, value)); size = add64 t.size 1 },
            (
              put.returns,
              put-Inserted hash eq law key value t s valid pos put.in_range put.was_empty absent
                  put.found small,
            ),
          )
        ]
      ]
