-- ===== src/OpenAddressing/Search.antt =====
-- The slot that the loop of `find` stops at, and how a write to one cell changes it.
use native.Mathlib.Nat.{mod-lt}
use learn_cpp.Prelude.{
  ℕ, zero, suc, ◌+◌, ◌%◌, ◌^◌, ◌<◌, ◌≡◌, refl, sym, ap, ◌∙◌, subst, Bool, true, false, ◌⊎◌, inl,
  inr, Option, none, some, if◌then◌else◌, add64, length, arith, Bool-cases, Option-cases,
}
use learn_cpp.OpenAddressing.{Cells, cell, find_loop}

module _ {K V : Type 0} (eq : K → K → Bool) where
  -- The slot that the loop of `find` stops at with a value.
  unfoldable pub search : ℕ → ℕ → K → Cells K V → ℕ → Option ℕ
  search zero j key cells i = none
  search (suc n) j key cells i =
      let rest = search n (suc j) key cells i in
      let idx = (i + j) % length cells in
      elim (cell cells idx) [ none ↦ none | some (k, v) ↦ if eq k key then some idx else rest ]

  -- How a round of the search goes.
  abbrev pub Hit : K → Cells K V → ℕ → Type 0
  Hit key cells s = (k : K) × ((v : V) × ((cell cells s ≡ some (k, v)) × (eq k key ≡ true)))

  abbrev pub Miss : K → Cells K V → ℕ → Type 0
  Miss key cells s = (k : K) × ((v : V) × ((cell cells s ≡ some (k, v)) × (eq k key ≡ false)))

  pub round :
      (key : K) (cells : Cells K V) (s : ℕ)
      → (cell cells s ≡ none) ⊎ Hit key cells s ⊎ Miss key cells s
  round key cells s = elim (Option-cases (cell cells s)) [
    | inl empty ↦ inl empty
    | inr ((k, v), full) ↦ elim (Bool-cases (eq k key)) [
      | inl hit ↦ inr (inl (k, (v, (full, hit))))
      | inr miss ↦ inr (inr (k, (v, (full, miss))))
    ]
  ]

  module _ (n j : ℕ) (key : K) (cells : Cells K V) (i : ℕ) where
    abbrev at : ℕ
    at = (i + j) % length cells

    pub search-empty : cell cells at ≡ none → search (suc n) j key cells i ≡ none
    unfolding search
    search-empty e = rw (search, e) refl

    pub search-Hit : Hit key cells at → search (suc n) j key cells i ≡ some at
    unfolding search
    search-Hit (k, (v, (e, hit))) = rw (search, e, hit) refl

    pub search-Miss :
        Miss key cells at → search (suc n) j key cells i ≡ search n (suc j) key cells i
    unfolding search
    search-Miss (k, (v, (e, miss))) = rw (search, e, miss) refl

  -- What the search finds is a cell with the key.
  pub search-key :
      (n j : ℕ) (key : K) (cells : Cells K V) (i s : ℕ)
      → 0 < length cells
      → search n j key cells i ≡ some s
      → (s < length cells) × Hit key cells s
  search-key zero j key cells i s pos h = unfold search in ground arith
  search-key (suc n) j key cells i s pos h =
      let p : ℕ = (i + j) % length cells in
      elim (round key cells p) [
        | inl empty ↦ absurd (let e = search-empty n j key cells i empty in ground arith)
        | inr (inl hit) ↦
            let e = search-Hit n j key cells i hit in
            let here : p ≡ s = ground arith in
            (rw (sym here) (mod-lt (i + j) pos), subst (Hit key cells) here hit)
        | inr (inr miss) ↦
            search-key n (suc j) key cells i s pos (sym (search-Miss n j key cells i miss) ∙ h)
      ]

  -- What the loops of `find` and `insert` do, where no sum wraps.
  abbrev pub value_at : Cells K V → ℕ → Option V
  value_at cells s = elim (cell cells s) [ none ↦ none | some (k, v) ↦ some v ]

  pub value_at_full :
      (cells : Cells K V) (s : ℕ) (k : K) (v : V)
      → cell cells s ≡ some (k, v)
      → value_at cells s ≡ some v
  value_at_full cells s k v full =
      ap
        (λ (c : Option (K × V)). elim c as (λ x. Option V) [
          | none ↦ none
          | some (k', v') ↦ some v'
        ])
        full

  abbrev pub look : Cells K V → Option ℕ → Option V
  look cells none = none
  look cells (some s) = value_at cells s

  module _ (hash : K → ℕ) where
    pub find_loop-search :
        (n j : ℕ) (key : K) (cells : Cells K V) (i : ℕ)
        → i + j + n < 2 ^ 64
        → find_loop hash eq n j key cells i ≡ look cells (search n j key cells i)
    unfolding find_loop search
    find_loop-search zero j key cells i small = refl
    find_loop-search (suc n) j key cells i small =
        let next : add64 j 1 ≡ suc j = omega arith in
        let there : add64 i j ≡ i + j = omega arith in
        elim (round key cells ((i + j) % length cells)) [
          | inl empty ↦ rw (find_loop, search, there, empty) refl
          | inr (inl (k, (v, (full, hit)))) ↦
              rw (find_loop, search, there, full, hit) (sym (value_at_full cells _ k v full))
          | inr (inr (k, (v, (full, miss)))) ↦
              rw (find_loop, search, there, full, miss, next)
                (find_loop-search n (suc j) key cells i (omega arith))
        ]
