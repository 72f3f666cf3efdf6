-- ===== src/OpenAddressing/Place.antt =====
-- What the loop of `insert` does to the cells, next to the loop of `find`.
use native.Mathlib.Nat.{mod-lt}
use learn_cpp.Prelude.{
  ℕ, zero, suc, ◌+◌, ◌-◌, ◌%◌, ◌^◌, ◌<◌, ◌≡◌, ◌≢◌, sym, ap, ◌∙◌, subst, Bool, true, ◌⊎◌, inl, inr,
  Option, none, some, if◌then◌else◌, ◌==◌, add64, length, length-set, get_or-set_ne,
  get_or-set_self, set, arith, Bool-cases, ==→eq, ==→ne,
}
use learn_cpp.OpenAddressing.{Cells, HashTable, cell, insert_loop, place}
use learn_cpp.OpenAddressing.Search.{
  search, Hit, Miss, round, search-empty, search-Hit, search-Miss,
}

-- Equal keys are those that `==` says are.
pub record KeyEq {K : Type 0} (eq : K → K → Bool) : Type 0 where
  pub sound : (a b : K) → eq a b ≡ true → a ≡ b
  pub self : (a : K) → eq a a ≡ true

module _ {K V : Type 0} (hash : K → ℕ) (eq : K → K → Bool) (law : KeyEq eq) where
  pub cell-set :
      (cells : Cells K V) (s p : ℕ) (c : Option (K × V))
      → s < length cells
      → cell (set cells s c) p ≡ (if s == p then c else cell cells p)
  cell-set cells s p c lt = elim (Bool-cases (s == p)) [
    | inl same ↦ rw same (
        subst (λ q. cell (set cells s c) q ≡ c) (==→eq s p same)
          (get_or-set_self cells s c none lt))
    | inr other ↦ rw other (get_or-set_ne cells s p c none (==→ne s p other))
  ]

  module _ (n j : ℕ) (key : K) (value : V) (t : HashTable K V) (i p : ℕ)
      (at : add64 i j % length t.cells ≡ p) where
    insert_loop-place :
        insert_loop hash eq (suc n) j key value t i
        ≡ place hash eq key value t p
            (cell t.cells p)
            (insert_loop hash eq n (add64 j 1) key value t i)
    unfolding insert_loop
    insert_loop-place =
        ap
          (λ q.
            place hash eq key value t q (cell t.cells q)
              (insert_loop hash eq n (add64 j 1) key value t i))
          at

    insert_loop-cell :
        (c : Option (K × V))
        → cell t.cells p ≡ c
        → insert_loop hash eq (suc n) j key value t i
          ≡ place hash eq key value t p c (insert_loop hash eq n (add64 j 1) key value t i)
    insert_loop-cell c e =
        insert_loop-place
        ∙ ap (λ d. place hash eq key value t p d (insert_loop hash eq n (add64 j 1) key value t i))
            e

    insert_loop-empty :
        cell t.cells p ≡ none
        → insert_loop hash eq (suc n) j key value t i
          ≡ some (record { cells = set t.cells p (some (key, value)); size = add64 t.size 1 })
    unfolding place
    insert_loop-empty e = insert_loop-cell none e

    insert_loop-Hit :
        Hit eq key t.cells p
        → insert_loop hash eq (suc n) j key value t i
          ≡ some (record t { cells = set t.cells p (some (key, value)) })
    unfolding place
    insert_loop-Hit (k, (v, (full, hit))) =
        insert_loop-cell (some (k, v)) full
        ∙ ap
            (λ b.
              if b
              then some (record t { cells = set t.cells p (some (k, value)) })
              else insert_loop hash eq n (add64 j 1) key value t i)
            hit
        ∙ ap (λ q. some (record t { cells = set t.cells p (some (q, value)) }))
            (law.sound k key hit)

    insert_loop-Miss :
        Miss eq key t.cells p
        → j + 1 < 2 ^ 64
        → insert_loop hash eq (suc n) j key value t i ≡ insert_loop hash eq n (suc j) key value t i
    unfolding place
    insert_loop-Miss (k, (v, (full, miss))) small =
        let next : add64 j 1 ≡ suc j = omega arith in
        insert_loop-cell (some (k, v)) full
        ∙ ap
            (λ b.
              if b
              then some (record t { cells = set t.cells p (some (k, value)) })
              else insert_loop hash eq n (add64 j 1) key value t i)
            miss
        ∙ ap (λ q. insert_loop hash eq n q key value t i) next

  -- What the loop of `insert` does where the loop of `find` stops at a value.
  pub insert_loop-found :
      (n j : ℕ) (key : K) (value : V) (t : HashTable K V) (i s : ℕ)
      → i + j + n < 2 ^ 64
      → search eq n j key t.cells i ≡ some s
      → insert_loop hash eq n j key value t i
        ≡ some (record t { cells = set t.cells s (some (key, value)) })
  insert_loop-found zero j key value t i s small h = unfold search in ground arith
  insert_loop-found (suc n) j key value t i s small h =
      let p : ℕ = (i + j) % length t.cells in
      let at : add64 i j % length t.cells ≡ p = ap (λ (q : ℕ). q % length t.cells) (omega arith) in
      elim (round eq key t.cells p) [
        | inl empty ↦ absurd (let e = search-empty eq n j key t.cells i empty in ground arith)
        | inr (inl hit) ↦
            let e = search-Hit eq n j key t.cells i hit in
            let here : p ≡ s = ground arith in
            insert_loop-Hit n j key value t i p at hit
            ∙ ap (λ q. some (record t { cells = set t.cells q (some (key, value)) })) here
        | inr (inr miss) ↦
            insert_loop-Miss n j key value t i p at miss (omega arith)
            ∙ insert_loop-found n (suc j) key value t i s (omega arith)
                (sym (search-Miss eq n j key t.cells i miss) ∙ h)
      ]

  -- The cells that the loop looks at from j on all hold something.
  abbrev pub Full : ℕ → ℕ → Cells K V → ℕ → Type 0
  Full n j cells i = (m : ℕ) → m < n → cell cells ((i + (j + m)) % length cells) ≢ none

  -- What the loop of `insert` does for a new key, which is found afterwards.
  pub record Put (n j : ℕ) (key : K) (value : V) (t : HashTable K V) (i s : ℕ) : Type 0 where
    pub returns :
        insert_loop hash eq n j key value t i
        ≡ some (record { cells = set t.cells s (some (key, value)); size = add64 t.size 1 })
    pub in_range : s < length t.cells
    pub was_empty : cell t.cells s ≡ none
    pub found : search eq n j key (set t.cells s (some (key, value))) i ≡ some s

  pub wrote :
      (cells : Cells K V) (s : ℕ) (c : Option (K × V))
      → s < length cells
      → cell (set cells s c) s ≡ c
  wrote cells s c lt = get_or-set_self cells s c none lt

  put-found :
      (n j : ℕ) (key : K) (value : V) (cells : Cells K V) (i : ℕ)
      → let p = (i + j) % length cells in
        p < length cells → search eq (suc n) j key (set cells p (some (key, value))) i ≡ some p
  put-found n j key value cells i lt =
      let p : ℕ = (i + j) % length cells in
      let new : Cells K V = set cells p (some (key, value)) in
      let size : length new ≡ length cells = length-set cells p (some (key, value)) in
      let same : (i + j) % length new ≡ p = ap (λ (q : ℕ). (i + j) % q) size in
      search-Hit eq n j key new i
        (key, (value, (ap (cell new) same ∙ wrote cells p (some (key, value)) lt, law.self key)))
      ∙ ap some same

  Full-suc :
      (n j : ℕ) (key : K) (cells : Cells K V) (i : ℕ)
      → Miss eq key cells ((i + j) % length cells)
      → Full n (suc j) cells i
      → Full (suc n) j cells i
  Full-suc n j key cells i (k, (v, (full, miss))) rest m lt = elim (Bool-cases (m == 0)) [
    | inl first ↦
        let here : j + m ≡ j = omega (arith, ==→eq m 0 first) in
        λ e.
          let seen =
            sym full ∙ ap (λ (q : ℕ). cell cells ((i + q) % length cells)) (sym here) ∙ e in
          ground arith
    | inr later ↦
        let step : j + m ≡ suc j + (m - 1) = omega (arith, ==→ne m 0 later) in
        λ e.
          rest (m - 1) (omega (arith, ==→ne m 0 later))
            (ap (λ (q : ℕ). cell cells ((i + q) % length cells)) (sym step) ∙ e)
  ]

  -- A search that passes a cell passes it after a write to an empty one.
  pub Miss-set :
      (key : K) (cells : Cells K V) (s p : ℕ) (c : Option (K × V))
      → s < length cells
      → cell cells s ≡ none
      → Miss eq key cells p
      → Miss eq key (set cells s c) p
  Miss-set key cells s p c lt empty (k, (v, (full, miss))) = elim (Bool-cases (s == p)) [
    | inl same ↦
        absurd (let both = sym empty ∙ ap (cell cells) (==→eq s p same) ∙ full in ground arith)
    | inr other ↦ (k, (v, (get_or-set_ne cells s p c none (==→ne s p other) ∙ full, miss)))
  ]

  found_on :
      (n j : ℕ) (key : K) (value : V) (cells : Cells K V) (i s : ℕ)
      → Miss eq key cells ((i + j) % length cells)
      → s < length cells
      → cell cells s ≡ none
      → search eq n (suc j) key (set cells s (some (key, value))) i ≡ some s
      → search eq (suc n) j key (set cells s (some (key, value))) i ≡ some s
  found_on n j key value cells i s miss lt empty h =
      let new : Cells K V = set cells s (some (key, value)) in
      let same : length cells ≡ length new = sym (length-set cells s (some (key, value))) in
      search-Miss eq n j key new i (
        subst (λ (q : ℕ). Miss eq key new ((i + j) % q)) same
          (Miss-set key cells s ((i + j) % length cells) (some (key, value)) lt empty miss))
      ∙ h

  pub insert_loop-new :
      (n j : ℕ) (key : K) (value : V) (t : HashTable K V) (i : ℕ)
      → i + j + n < 2 ^ 64
      → 0 < length t.cells
      → search eq n j key t.cells i ≡ none
      → Full n j t.cells i ⊎ ((s : ℕ) × Put n j key value t i s)
  insert_loop-new zero j key value t i small pos h = inl (λ m lt. absurd (omega arith))
  insert_loop-new (suc n) j key value t i small pos h =
      let p : ℕ = (i + j) % length t.cells in
      let lt : p < length t.cells = mod-lt (i + j) pos in
      let at : add64 i j % length t.cells ≡ p = ap (λ (q : ℕ). q % length t.cells) (omega arith) in
      elim (round eq key t.cells p) [
        | inl empty ↦ inr (
          p,
          record {
            returns = insert_loop-empty n j key value t i p at empty;
            in_range = lt;
            was_empty = empty;
            found = put-found n j key value t.cells i lt;
          },
        )
        | inr (inl hit) ↦ absurd (let e = search-Hit eq n j key t.cells i hit in ground arith)
        | inr (inr miss) ↦
            let ih =
              insert_loop-new n (suc j) key value t i (omega arith) pos
                (sym (search-Miss eq n j key t.cells i miss) ∙ h) in
            elim ih [
              | inl rest ↦ inl (Full-suc n j key t.cells i miss rest)
              | inr (s, put) ↦ inr (
                s,
                record {
                  returns =
                      insert_loop-Miss n j key value t i p at miss (omega arith) ∙ put.returns;
                  in_range = put.in_range;
                  was_empty = put.was_empty;
                  found =
                      found_on n j key value t.cells i s miss put.in_range put.was_empty put.found;
                },
              )
            ]
      ]
