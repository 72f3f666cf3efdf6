-- ===== src/OpenAddressing/Valid.antt =====
-- Tables in which every key is found where it stands, and `insert` into one that has room.
use learn_cpp.Prelude.{
  ℕ, zero, suc, ◌+◌, ◌-◌, ◌%◌, ◌≤◌, ◌<◌, ◌≡◌, refl, sym, ap, ◌∙◌, subst, Bool, inl, inr, Option,
  none, some, [], ◌∷◌, if◌then◌else◌, ◌==◌, leb, length, length-set, get_or-set_ne, set, arith,
  Bool-cases, ==→eq, ==→ne,
}
use learn_cpp.OpenAddressing.{Cells, cell}
use learn_cpp.OpenAddressing.Place.{KeyEq, Full, Miss-set}
use learn_cpp.OpenAddressing.Search.{
  search, Hit, Miss, round, search-empty, search-Hit, search-Miss, look,
}

module _ {K V : Type 0} where
  -- How many cells hold something.
  abbrev pub occupied : Cells K V → ℕ
  occupied [] = 0
  occupied (none ∷ cells) = occupied cells
  occupied (some c ∷ cells) = suc (occupied cells)

  pub occupied-le : (cells : Cells K V) → occupied cells ≤ length cells
  occupied-le [] = omega arith
  occupied-le (none ∷ cells) = omega (arith, occupied-le cells)
  occupied-le (some c ∷ cells) = omega (arith, occupied-le cells)

  pub empty_cell :
      (cells : Cells K V)
      → occupied cells < length cells
      → (s : ℕ) × ((s < length cells) × (cell cells s ≡ none))
  empty_cell [] lt = absurd (omega arith)
  empty_cell (none ∷ cells) lt = (0, (omega arith, refl))
  empty_cell (some c ∷ cells) lt =
      let (s, (le, e)) = empty_cell cells (omega arith) in (suc s, (omega arith, e))

  pub occupied-put :
      (cells : Cells K V) (s : ℕ) (c : K × V)
      → s < length cells
      → cell cells s ≡ none
      → occupied (set cells s (some c)) ≡ suc (occupied cells)
  occupied-put [] s c lt e = absurd (omega arith)
  occupied-put (none ∷ cells) zero c lt e = refl
  occupied-put (some d ∷ cells) zero c lt e = absurd (ground arith)
  occupied-put (none ∷ cells) (suc s) c lt e = occupied-put cells s c (omega arith) e
  occupied-put (some d ∷ cells) (suc s) c lt e = ap suc (occupied-put cells s c (omega arith) e)

  pub occupied-update :
      (cells : Cells K V) (s : ℕ) (c d : K × V)
      → cell cells s ≡ some d
      → occupied (set cells s (some c)) ≡ occupied cells
  occupied-update [] s c d e = refl
  occupied-update (none ∷ cells) zero c d e = absurd (ground arith)
  occupied-update (some x ∷ cells) zero c d e = refl
  occupied-update (none ∷ cells) (suc s) c d e = occupied-update cells s c d e
  occupied-update (some x ∷ cells) (suc s) c d e = ap suc (occupied-update cells s c d e)

  module _ (hash : K → ℕ) (eq : K → K → Bool) (law : KeyEq eq) where
    abbrev pub slot : K → Cells K V → Option ℕ
    slot key cells = search eq (length cells) 0 key cells (hash key % length cells)

    abbrev pub lookup : K → Cells K V → Option V
    lookup key cells = look eq cells (slot key cells)

    -- Every key is found where it stands.
    abbrev pub Sound : Cells K V → Type 0
    Sound cells =
        (s : ℕ) (k : K) (v : V)
        → s < length cells
        → cell cells s ≡ some (k, v)
        → slot k cells ≡ some s

    -- A search that starts in the array meets an empty cell.
    pub not-Full :
        (cells : Cells K V) (i s : ℕ)
        → i < length cells
        → s < length cells
        → cell cells s ≡ none
        → Full hash eq law (length cells) 0 cells i
        → ⊥
    not-Full cells i s start lt empty full =
        let n : ℕ = length cells in
        let m : ℕ = if leb i s then s - i else s + n - i in
        let near : m < n = ground (arith, start, lt) in
        let back : (i + (0 + m)) % n ≡ s = elim (Bool-cases (leb i s)) [
          | inl before ↦ rw before (grind arith)
          | inr after ↦ rw after (grind arith)
        ] in
        full m near (ap (cell cells) back ∙ empty)

    Hit-set :
        (key : K) (cells : Cells K V) (s p : ℕ) (c : Option (K × V))
        → s < length cells
        → cell cells s ≡ none
        → Hit eq key cells p
        → Hit eq key (set cells s c) p
    Hit-set key cells s p c lt empty (k, (v, (full, hit))) = elim (Bool-cases (s == p)) [
      | inl same ↦
          absurd (let both = sym empty ∙ ap (cell cells) (==→eq s p same) ∙ full in ground arith)
      | inr other ↦ (k, (v, (get_or-set_ne cells s p c none (==→ne s p other) ∙ full, hit)))
    ]

    -- A search that ends at a value does so after a new key has been put elsewhere.
    pub search-put :
        (n j : ℕ) (key : K) (cells : Cells K V) (i s t : ℕ) (c : K × V)
        → s < length cells
        → cell cells s ≡ none
        → search eq n j key cells i ≡ some t
        → search eq n j key (set cells s (some c)) i ≡ some t
    search-put zero j key cells i s t c lt empty h = unfold search in ground arith
    search-put (suc n) j key cells i s t c lt empty h =
        let new : Cells K V = set cells s (some c) in
        let p : ℕ = (i + j) % length cells in
        let same : length cells ≡ length new = sym (length-set cells s (some c)) in
        elim (round eq key cells p) [
          | inl none_there ↦
              absurd (let e = search-empty eq n j key cells i none_there in ground arith)
          | inr (inl hit) ↦
              let e = search-Hit eq n j key cells i hit in
              search-Hit eq n j key new i (
                subst (λ (q : ℕ). Hit eq key new ((i + j) % q)) same
                  (Hit-set key cells s p (some c) lt empty hit))
              ∙ ap (λ (q : ℕ). some ((i + j) % q)) (sym same)
              ∙ sym e
              ∙ h
          | inr (inr miss) ↦
              search-Miss eq n j key new i (
                subst (λ (q : ℕ). Miss eq key new ((i + j) % q)) same
                  (Miss-set hash eq law key cells s p (some c) lt empty miss))
              ∙ search-put n (suc j) key cells i s t c lt empty
                  (sym (search-Miss eq n j key cells i miss) ∙ h)
        ]
