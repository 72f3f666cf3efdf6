-- ===== src/Reconciler/FlatHash/Insert.antt =====
-- The loop of `findOrInsert` next to that of `findIndex`.
use learn_cpp.Prelude.{
  ℕ, zero, suc, ◌≤◌, ◌<◌, ◌≡◌, ◌≢◌, refl, sym, ap, ◌∙◌, ==_refl, ◌⊎◌, inl, inr, Option, none, some,
  ◌==◌, set, arith, Bool-cases, ==→eq,
}
use learn_cpp.Reconciler.FlatHash.{Table, find_from, insert_at, insert_from, next, slot_or}
use learn_cpp.Reconciler.FlatHash.Probe.{
  key, key-set, Sized, next_le, round, find_from-empty, find_from-here, find_from-passes,
}

module _ {D : Type 0} (id : ℕ) (two : 2 ≤ id) (tb : Table D) (z : Sized tb.mask tb.keys) where
  abbrev k : ℕ → ℕ
  k = key tb.keys

  module _ (n idx : ℕ) (first : Option ℕ) where
    insert_from-empty :
        k idx ≡ 0
        → insert_from (suc n) id tb idx first
          ≡ some (slot_or idx first, insert_at (slot_or idx first) id tb)
    unfolding insert_from
    insert_from-empty e = rw e refl

    pub insert_from-tomb :
        k idx ≡ 1
        → insert_from (suc n) id tb idx first
          ≡ insert_from n id tb (next tb.mask idx) (some (slot_or idx first))
    unfolding insert_from
    insert_from-tomb e = rw e refl

    insert_from-here : k idx ≡ id → insert_from (suc n) id tb idx first ≡ some (idx, tb)
    unfolding insert_from
    insert_from-here e = ground (arith, e, two)

    pub insert_from-passes :
        2 ≤ k idx
        → k idx ≢ id
        → insert_from (suc n) id tb idx first ≡ insert_from n id tb (next tb.mask idx) first
    unfolding insert_from
    insert_from-passes big ne = ground (arith, big, ne)

  -- Where `findIndex` finds the key, so does `findOrInsert`.
  pub insert_from-found :
      (n idx s : ℕ) (first : Option ℕ)
      → idx ≤ tb.mask
      → find_from n tb.mask id tb.keys idx ≡ some (some s)
      → insert_from n id tb idx first ≡ some (s, tb)
  insert_from-found zero idx s first le h = unfold find_from in ground arith
  insert_from-found (suc n) idx s first le h = elim (round (k idx) id) [
    | inl empty ↦ absurd (let e = find_from-empty n tb.mask id tb.keys idx empty in ground arith)
    | inr (inl (big, same)) ↦
        let e = find_from-here n tb.mask id tb.keys idx big same in
        let here : idx ≡ s = ground arith in
        insert_from-here n idx first same ∙ ap (λ i. some (i, tb)) here
    | inr (inr on) ↦
        let rest = sym (find_from-passes n tb.mask id tb.keys idx on) ∙ h in
        elim on [
          | inl tomb ↦
              insert_from-tomb n idx first tomb
              ∙ insert_from-found n (next tb.mask idx) s (some (slot_or idx first))
                  (next_le idx z le) rest
          | inr (big, ne) ↦
              insert_from-passes n idx first big ne
              ∙ insert_from-found n (next tb.mask idx) s first (next_le idx z le) rest
        ]
  ]

  -- The slot that a new key gets: the first tombstone, or else where the search from here ends.
  abbrev Placed : ℕ → ℕ → Option ℕ → ℕ → Type 0
  Placed n idx first s =
      (insert_from n id tb idx first ≡ some (s, insert_at s id tb))
      × ((first ≡ some s)
          ⊎ ((first ≡ none)
              × (s ≤ tb.mask)
              × (k s < 2)
              × (find_from n tb.mask id (set tb.keys s id) idx ≡ some (some s))))

  abbrev Slot : ℕ → ℕ → Option ℕ → Type 0
  Slot n idx first = (s : ℕ) × Placed n idx first s

  wrote : (idx : ℕ) → idx ≤ tb.mask → key (set tb.keys idx id) idx ≡ id
  wrote idx le = key-set tb.keys idx idx id (omega (arith, z.len)) ∙ rw (==_refl idx) refl

  taken :
      (n idx : ℕ)
      → idx ≤ tb.mask
      → find_from (suc n) tb.mask id (set tb.keys idx id) idx ≡ some (some idx)
  taken n idx le =
      find_from-here n tb.mask id (set tb.keys idx id) idx (rw (wrote idx le) two) (wrote idx le)

  Placed-empty : (n idx : ℕ) (first : Option ℕ) → idx ≤ tb.mask → k idx ≡ 0 → Slot (suc n) idx first
  Placed-empty n idx none le e =
      (idx, (insert_from-empty n idx none e, inr (refl, le, omega (arith, e), taken n idx le)))
  Placed-empty n idx (some t) le e = (t, (insert_from-empty n idx (some t) e, inl refl))

  Placed-tomb :
      (n idx : ℕ) (first : Option ℕ)
      → idx ≤ tb.mask
      → k idx ≡ 1
      → Slot n (next tb.mask idx) (some (slot_or idx first))
      → Slot (suc n) idx first
  Placed-tomb n idx none le e (s, (run, inl same)) =
      let here : idx ≡ s = ground arith in
      (
        idx,
        (
          insert_from-tomb n idx none e ∙ run ∙ ap (λ i. some (i, insert_at i id tb)) (sym here),
          inr (refl, le, omega (arith, e), taken n idx le),
        ),
      )
  Placed-tomb n idx none le e (s, (run, inr away)) = absurd (let same = away.0 in ground arith)
  Placed-tomb n idx (some t) le e (s, (run, inl same)) =
      (s, (insert_from-tomb n idx (some t) e ∙ run, inl same))
  Placed-tomb n idx (some t) le e (s, (run, inr away)) = absurd (let same = away.0 in ground arith)

  Placed-passes :
      (n idx : ℕ) (first : Option ℕ)
      → 2 ≤ k idx
      → k idx ≢ id
      → Slot n (next tb.mask idx) first
      → Slot (suc n) idx first
  Placed-passes n idx first big ne (s, (run, inl same)) =
      (s, (insert_from-passes n idx first big ne ∙ run, inl same))
  Placed-passes n idx first big ne (s, (run, inr (same, le, small, found))) =
      let kept : key (set tb.keys s id) idx ≡ k idx = elim (Bool-cases (s == idx)) [
        | inl hit ↦ absurd (omega (arith, ap k (==→eq s idx hit), small, big))
        | inr miss ↦ key-set tb.keys s idx id (omega (arith, z.len, le)) ∙ rw miss refl
      ] in
      (
        s,
        (
          insert_from-passes n idx first big ne ∙ run,
          inr (
            same,
            le,
            small,
            find_from-passes n tb.mask id (set tb.keys s id) idx (inr (rw kept (big, ne))) ∙ found,
          ),
        ),
      )

  -- Where `findIndex` finds no key, `findOrInsert` writes it to a slot where it will be found.
  pub insert_from-new :
      (n idx : ℕ) (first : Option ℕ)
      → idx ≤ tb.mask
      → find_from n tb.mask id tb.keys idx ≡ some none
      → Slot n idx first
  insert_from-new zero idx first le h = unfold find_from in ground arith
  insert_from-new (suc n) idx first le h = elim (round (k idx) id) [
    | inl empty ↦ Placed-empty n idx first le empty
    | inr (inl (big, same)) ↦
        absurd (let e = find_from-here n tb.mask id tb.keys idx big same in ground arith)
    | inr (inr on) ↦
        let rest = sym (find_from-passes n tb.mask id tb.keys idx on) ∙ h in
        let ih = λ (f : Option ℕ). insert_from-new n (next tb.mask idx) f (next_le idx z le) rest in
        elim on [
          | inl tomb ↦ Placed-tomb n idx first le tomb (ih (some (slot_or idx first)))
          | inr (big, ne) ↦ Placed-passes n idx first big ne (ih first)
        ]
  ]
