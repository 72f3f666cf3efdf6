-- ===== src/Reconciler/FlatHash/Keys.antt =====
-- The keys of the hash table: where a search finds them, before and after a write.
use learn_cpp.Prelude.{
  ℕ, zero, suc, ◌≤◌, ◌<◌, ◌≡◌, ◌≢◌, refl, sym, ap, ◌∙◌, true, false, ◌⊎◌, inl, inr, Option, none,
  some, List, [], ◌∷◌, if◌then◌else◌, ◌==◌, leb, length, length-set, set, count, arith, Bool-cases,
  Option-cases, ==→eq, ==→ne,
}
use learn_cpp.Reconciler.FlatHash.{find_from, probe}
use learn_cpp.Reconciler.FlatHash.Probe.{
  key, key-set, On, Sized, probe_le, find_from-key, find_from_ends, find_from-set,
}

-- The search of `findIndex`.
abbrev pub search : ℕ → List ℕ → ℕ → Option (Option ℕ)
search mask keys id = find_from (suc mask) mask id keys (probe mask id)

-- Every key is found where it stands.
abbrev pub Sound : ℕ → List ℕ → Type 0
Sound mask keys =
    (s : ℕ) → s ≤ mask → 2 ≤ key keys s → search mask keys (key keys s) ≡ some (some s)

empty_slot : (keys : List ℕ) → 0 < count 0 keys → (s : ℕ) × ((s < length keys) × (key keys s ≡ 0))
empty_slot [] h = absurd (omega arith)
empty_slot (zero ∷ keys) h = (0, (omega arith, refl))
empty_slot (suc k ∷ keys) h =
    let (s, (lt, e)) = empty_slot keys (ground arith) in (suc s, (omega arith, e))

pub count-set : (keys : List ℕ) (s v : ℕ) → 0 < v → count 0 keys ≤ suc (count 0 (set keys s v))
count-set [] s v pos = omega arith
count-set (k ∷ keys) zero v pos = ground arith
count-set (k ∷ keys) (suc s) v pos = ground (arith, count-set keys s v pos)

pub count-set_used :
    (keys : List ℕ) (s v : ℕ) → 0 < v → 0 < key keys s → count 0 keys ≤ count 0 (set keys s v)
count-set_used [] s v pos old = omega arith
count-set_used (k ∷ keys) zero v pos old = ground arith
count-set_used (k ∷ keys) (suc s) v pos old = ground (arith, count-set_used keys s v pos old)

module _ {mask : ℕ} {keys : List ℕ} (z : Sized mask keys) where
  pub set-Sized : (s v : ℕ) → Sized mask (set keys s v)
  set-Sized s v = record {
    power = z.power;
    slots = z.slots;
    small = z.small;
    len = length-set keys s v ∙ z.len;
  }

  pub ends : (id : ℕ) → 0 < count 0 keys → (o : Option ℕ) × (search mask keys id ≡ some o)
  ends id room =
      let (s, (lt, e)) = empty_slot keys room in
      find_from_ends mask id keys (probe mask id) s z (probe_le id z) (omega (arith, z.len)) e

module _ {mask : ℕ} {keys : List ℕ} (z : Sized mask keys) (sound : Sound mask keys) (s v : ℕ)
    (le : s ≤ mask) (room : 0 < count 0 (set keys s v)) where
  now : (j : ℕ) → key (set keys s v) j ≡ (if s == j then v else key keys j)
  now j = key-set keys s j v (omega (arith, z.len, le))

  pub wrote : (j : ℕ) → (s == j) ≡ true → key (set keys s v) j ≡ v
  wrote j hit = now j ∙ rw hit refl

  pub kept : (j : ℕ) → (s == j) ≡ false → key (set keys s v) j ≡ key keys j
  kept j miss = now j ∙ rw miss refl

  -- A write that no search for `id` stops at leaves what the search finds.
  pub search-set :
      (id : ℕ) (o : Option ℕ)
      → On v id
      → (key keys s < 2) ⊎ (key keys s ≢ id)
      → search mask keys id ≡ some o
      → search mask (set keys s v) id ≡ some o
  search-set id (some t) new old h =
      find_from-set (suc mask) mask id keys (probe mask id) s v t z (probe_le id z) le new old h
  search-set id none new old h =
      let (o, after) = ends (set-Sized z s v) id room in
      elim (Option-cases o) [
        | inl absent ↦ after ∙ ap some absent
        | inr (t, found) ↦
            let (there, two, in_range) =
              find_from-key (suc mask) mask id (set keys s v) (probe mask id) t (set-Sized z s v)
                (probe_le id z) (after ∙ ap some found) in
            let was : key keys t ≡ id = elim (Bool-cases (s == t)) [
              | inl hit ↦ absurd (elim new [
                | inl tomb ↦ omega (arith, there, wrote t hit, tomb, two)
                | inr (big, ne) ↦ ne (sym (wrote t hit) ∙ there)
              ])
              | inr miss ↦ sym (kept t miss) ∙ there
            ] in
            absurd (let before = sound t in_range (rw was two) in ground (arith, was))
      ]

  -- No two slots have one key.
  only_there :
      (t : ℕ) → t ≤ mask → 2 ≤ key keys t → s ≢ t → (key keys s < 2) ⊎ (key keys s ≢ key keys t)
  only_there t in_range two ne = elim (Bool-cases (leb 2 (key keys s))) [
    | inr low ↦ inl (ground (arith, low))
    | inl high ↦ inr (λ e.
        let here = sound s le (ground (arith, high)) in
        let there = sound t in_range two in
        ne (ground (arith, ap (search mask keys) e, here, there)))
  ]

  -- The tombstone, or a new key that is found where it is written.
  abbrev pub Writable : Type 0
  Writable =
      (v ≡ 1)
      ⊎ ((2 ≤ v)
          × (search mask keys v ≡ some none)
          × (search mask (set keys s v) v ≡ some (some s)))

  passed : (t : ℕ) → t ≤ mask → 2 ≤ key keys t → Writable → On v (key keys t)
  passed t in_range two (inl tomb) = inl tomb
  passed t in_range two (inr (big, absent, found)) = inr (
    big,
    λ e. let there = sound t in_range two in ground (arith, ap (search mask keys) e, there, absent),
  )

  pub set-Sound : Writable → Sound mask (set keys s v)
  set-Sound w t in_range two = elim (Bool-cases (s == t)) [
    | inr miss ↦
        let two' : 2 ≤ key keys t = omega (arith, kept t miss, two) in
        rw (kept t miss) (
          search-set (key keys t) (some t) (passed t in_range two' w)
            (only_there t in_range two' (==→ne s t miss)) (sound t in_range two'))
    | inl hit ↦ elim w [
      | inl tomb ↦ absurd (omega (arith, wrote t hit, tomb, two))
      | inr (big, absent, found) ↦
          rw (wrote t hit) (found ∙ ap (λ i. some (some i)) (==→eq s t hit))
    ]
  ]

  -- The key of the slot that becomes a tombstone.
  pub search-erase : v ≡ 1 → 2 ≤ key keys s → search mask (set keys s v) (key keys s) ≡ some none
  search-erase tomb two =
      let id : ℕ = key keys s in
      let (o, after) = ends (set-Sized z s v) id room in
      elim (Option-cases o) [
        | inl absent ↦ after ∙ ap some absent
        | inr (t, found) ↦
            let (there, big, in_range) =
              find_from-key (suc mask) mask id (set keys s v) (probe mask id) t (set-Sized z s v)
                (probe_le id z) (after ∙ ap some found) in
            absurd (elim (Bool-cases (s == t)) [
              | inl hit ↦ omega (arith, wrote t hit, there, tomb, two)
              | inr miss ↦
                  let same : key keys t ≡ id = sym (kept t miss) ∙ there in
                  elim (only_there t in_range (rw same two) (==→ne s t miss)) [
                    | inl small ↦ omega (arith, small, two)
                    | inr ne ↦ ne (sym same)
                  ]
            ])
      ]
