-- ===== src/OpenAddressing/Put.antt =====
-- `insert` of a key that is not there, and of one that is.
use learn_cpp.Prelude.{
  ℕ, suc, ◌%◌, ◌^◌, ◌≤◌, ◌<◌, ◌≡◌, ◌≢◌, sym, ap, ◌∙◌, subst, Bool, false, inl, inr, Option, none,
  some, if◌then◌else◌, ◌==◌, add64, length, length-set, get_or-set_ne, set, arith, Bool-cases,
  Option-cases, ==→eq, ==→ne,
}
use learn_cpp.OpenAddressing.{Cells, HashTable, cell}
use learn_cpp.OpenAddressing.Place.{KeyEq, wrote}
use learn_cpp.OpenAddressing.Search.{search, search-key, value_at_full, look}
use learn_cpp.OpenAddressing.Valid.{
  occupied, occupied-le, occupied-put, slot, lookup, Sound, search-put,
}

module _ {K : Type 0} (eq : K → K → Bool) (law : KeyEq eq) where
  pub eq_false : (a b : K) → eq a b ≡ false → a ≢ b
  eq_false a b h e =
      let same : eq a a ≡ false = subst (λ q. eq a q ≡ false) (sym e) h in
      let self = law.self a in ground arith

module _ {K V : Type 0} (hash : K → ℕ) (eq : K → K → Bool) (law : KeyEq eq) where
  abbrev slot_of : K → Cells K V → Option ℕ
  slot_of = slot hash eq law

  abbrev looked : K → Cells K V → Option V
  looked = lookup hash eq law

  pub record Valid (t : HashTable K V) : Type 0 where
    pub counted : t.size ≡ occupied t.cells
    pub sound : Sound hash eq law t.cells

  -- What one insertion does, to a table of the same capacity.
  pub record Inserted (key : K) (value : V) (t t' : HashTable K V) : Type 0 where
    pub valid : Valid t'
    pub same_capacity : length t'.cells ≡ length t.cells
    pub fuller : occupied t'.cells ≤ suc (occupied t.cells)
    pub lookups : (k : K) → looked k t'.cells ≡ (if eq key k then some value else looked k t.cells)

  abbrev pub first_of : K → Option (K × V) → K
  first_of k none = k
  first_of k (some (k', v)) = k'

  pub slot-set :
      (k : K) (cells : Cells K V) (s : ℕ) (c : Option (K × V))
      → slot_of k (set cells s c)
        ≡ search eq (length cells) 0 k (set cells s c) (hash k % length cells)
  slot-set k cells s c =
      ap (λ (q : ℕ). search eq q 0 k (set cells s c) (hash k % q)) (length-set cells s c)

  pub slot-key :
      (k : K) (cells : Cells K V) (s : ℕ)
      → 0 < length cells
      → slot_of k cells ≡ some s
      → (s < length cells) × ((v : V) × (cell cells s ≡ some (k, v)))
  slot-key k cells s pos h =
      let (lt, (k', (v, (full, hit)))) =
        search-key eq (length cells) 0 k cells (hash k % length cells) s pos h in
      (lt, (v, full ∙ ap (λ q. some (q, v)) (law.sound k' k hit)))

  module _ (key : K) (value : V) (t : HashTable K V) (s : ℕ) (valid : Valid t)
      (pos : 0 < length t.cells) (lt : s < length t.cells) (empty : cell t.cells s ≡ none)
      (absent : slot_of key t.cells ≡ none)
      (found : search eq
          (length t.cells)
          0
          key
          (set t.cells s (some (key, value)))
          (hash key % length t.cells)
        ≡ some s) where
    abbrev new : Cells K V
    new = set t.cells s (some (key, value))

    slot_key : slot_of key new ≡ some s
    slot_key = slot-set key t.cells s (some (key, value)) ∙ found

    slot_kept : (k : K) (p : ℕ) → slot_of k t.cells ≡ some p → slot_of k new ≡ some p
    slot_kept k p h =
        slot-set k t.cells s (some (key, value))
        ∙ search-put hash eq law (length t.cells) 0 k t.cells (hash k % length t.cells) s p
            (key, value) lt empty h

    apart : (p : ℕ) (k : K) (v : V) → cell t.cells p ≡ some (k, v) → s ≢ p
    apart p k v full e = let both = sym empty ∙ ap (cell t.cells) e ∙ full in ground arith

    slot_other : (k : K) → eq key k ≡ false → slot_of k new ≡ slot_of k t.cells
    slot_other k other = elim (Option-cases (slot_of k t.cells)) [
      | inr (p, there) ↦ slot_kept k p there ∙ sym there
      | inl nowhere ↦ elim (Option-cases (slot_of k new)) [
        | inl still ↦ still ∙ sym nowhere
        | inr (p, there) ↦
            let (lt', (v, full)) =
              slot-key k new p (rw (length-set t.cells s (some (key, value))) pos) there in
            elim (Bool-cases (s == p)) [
              | inl same ↦
                  let mine =
                    sym (wrote hash eq law t.cells s (some (key, value)) lt)
                    ∙ ap (cell new) (==→eq s p same)
                    ∙ full in
                  absurd (eq_false eq law key k other (ap (first_of key) mine))
              | inr away ↦
                  let was : cell t.cells p ≡ some (k, v) =
                    sym (get_or-set_ne t.cells s p (some (key, value)) none (==→ne s p away))
                    ∙ full in
                  absurd (
                    let before =
                      valid.sound p k v
                        (subst (λ (q : ℕ). p < q) (length-set t.cells s (some (key, value))) lt')
                        was in
                    ground (arith, before, nowhere))
            ]
      ]
    ]

    look_other : (k : K) → eq key k ≡ false → looked k new ≡ looked k t.cells
    look_other k other =
        ap (look eq new) (slot_other k other) ∙ elim (Option-cases (slot_of k t.cells)) [
          | inl nowhere ↦ ap (look eq new) nowhere ∙ sym (ap (look eq t.cells) nowhere)
          | inr (p, there) ↦
              let (lt', (v, full)) = slot-key k t.cells p pos there in
              let full' : cell new p ≡ some (k, v) =
                get_or-set_ne t.cells s p (some (key, value)) none (apart p k v full) ∙ full in
              ap (look eq new) there
              ∙ value_at_full eq new p k v full'
              ∙ sym (value_at_full eq t.cells p k v full)
              ∙ sym (ap (look eq t.cells) there)
        ]

    look_key : looked key new ≡ some value
    look_key =
        ap (look eq new) slot_key
        ∙ value_at_full eq new s key value (wrote hash eq law t.cells s (some (key, value)) lt)

    new-Sound : Sound hash eq law new
    new-Sound p k v lt' full = elim (Bool-cases (s == p)) [
      | inl same ↦
          let mine : some (key, value) ≡ some (k, v) =
            sym (wrote hash eq law t.cells s (some (key, value)) lt)
            ∙ ap (cell new) (==→eq s p same)
            ∙ full in
          subst (λ q. slot_of q new ≡ some p) (ap (first_of key) mine)
            (slot_key ∙ ap some (==→eq s p same))
      | inr away ↦
          let was : cell t.cells p ≡ some (k, v) =
            sym (get_or-set_ne t.cells s p (some (key, value)) none (==→ne s p away)) ∙ full in
          slot_kept k p (
            valid.sound p k v
              (subst (λ (q : ℕ). p < q) (length-set t.cells s (some (key, value))) lt') was)
    ]

    pub put-Inserted :
        length t.cells < 2 ^ 62
        → Inserted key value t (record { cells = new; size = add64 t.size 1 })
    put-Inserted small = record {
      valid = record {
        counted = omega (
          arith,
          valid.counted,
          occupied-le t.cells,
          occupied-put t.cells s (key, value) lt empty,
        );
        sound = new-Sound;
      };
      same_capacity = length-set t.cells s (some (key, value));
      fuller = omega (arith, occupied-put t.cells s (key, value) lt empty);
      lookups = λ k. elim (Bool-cases (eq key k)) [
        | inl same ↦
            rw same (subst (λ q. looked q new ≡ some value) (law.sound key k same) look_key)
        | inr other ↦ rw other (look_other k other)
      ];
    }
