-- ===== src/Reconciler/FlatHash/Probe.antt =====
-- What the loop of `findIndex` finds, when it ends, and how a write to one key changes it.
use native.Mathlib.Nat.{mod-lt, mod-add-mod}
use learn_cpp.Prelude.{
  ℕ, zero, suc, ◌+◌, ◌-◌, ◌%◌, ◌^◌, ◌≤◌, ◌<◌, ◌≡◌, ◌≢◌, refl, sym, ap, ◌∙◌, subst, ◌⊎◌, inl, inr,
  Option, none, some, List, if◌then◌else◌, ◌==◌, add64, bit_and, leb, bit_and-pred, length, get_or,
  get_or-set_ne, get_or-set_self, set, arith, Bool-cases, Option-cases, ==→eq, ==→ne,
}
use learn_cpp.Reconciler.FlatHash.{find_from, next, probe, mix}

abbrev pub key : List ℕ → ℕ → ℕ
key keys s = get_or keys s 0

pub key-set :
    (keys : List ℕ) (s j v : ℕ)
    → s < length keys
    → key (set keys s v) j ≡ (if s == j then v else key keys j)
key-set keys s j v lt = elim (Bool-cases (s == j)) [
  | inl same ↦
      rw same
        (subst (λ i. key (set keys s v) i ≡ v) (==→eq s j same) (get_or-set_self keys s v 0 lt))
  | inr other ↦ rw other (get_or-set_ne keys s j v 0 (==→ne s j other))
]

-- A power of two slots, and the mask of that many.
pub record Sized (mask : ℕ) (keys : List ℕ) : Type 0 where
  pub power : ℕ
  pub slots : suc mask ≡ 2 ^ power
  pub small : suc mask < 2 ^ 64
  pub len : length keys ≡ suc mask

masked : {mask : ℕ} {keys : List ℕ} (a : ℕ) → Sized mask keys → bit_and a mask ≡ a % suc mask
masked {mask} a z =
    let pred : mask ≡ suc mask - 1 = omega arith in
    ap (bit_and a) pred ∙ bit_and-pred (suc mask) z.power a z.slots

pub next_eq :
    {mask : ℕ} {keys : List ℕ} (idx : ℕ)
    → Sized mask keys
    → idx ≤ mask
    → next mask idx ≡ suc idx % suc mask
unfolding next
next_eq {mask} idx z le =
    let fits : add64 idx 1 ≡ suc idx = omega (arith, z.small) in
    masked (add64 idx 1) z ∙ ap (λ (t : ℕ). t % suc mask) fits

pub next_le :
    {mask : ℕ} {keys : List ℕ} (idx : ℕ) → Sized mask keys → idx ≤ mask → next mask idx ≤ mask
next_le {mask} idx z le =
    let lt : suc idx % suc mask < suc mask = mod-lt (suc idx) (omega arith) in
    omega (arith, next_eq idx z le, lt)

pub probe_le : {mask : ℕ} {keys : List ℕ} (id : ℕ) → Sized mask keys → probe mask id ≤ mask
unfolding probe
probe_le {mask} id z =
    let lt : mix id % suc mask < suc mask = mod-lt (mix id) (omega arith) in
    omega (arith, masked (mix id) z, lt)

-- A key that a search for `id` passes.
abbrev pub On : ℕ → ℕ → Type 0
On k id = (k ≡ 1) ⊎ ((2 ≤ k) × (k ≢ id))

-- The three ways a round of `findIndex` goes.
abbrev pub Round : ℕ → ℕ → Type 0
Round k id = (k ≡ 0) ⊎ ((2 ≤ k) × (k ≡ id)) ⊎ On k id

pub round : (k id : ℕ) → Round k id
round zero id = inl refl
round (suc zero) id = inr (inr (inl refl))
round (suc (suc k)) id = elim (Bool-cases (suc (suc k) == id)) [
  | inl same ↦ inr (inl (omega arith, ==→eq (suc (suc k)) id same))
  | inr other ↦ inr (inr (inr (omega arith, ==→ne (suc (suc k)) id other)))
]

On-pos : (k id : ℕ) → On k id → 0 < k
On-pos k id (inl tomb) = omega arith
On-pos k id (inr (big, ne)) = omega arith

module _ (n mask id : ℕ) (keys : List ℕ) (idx : ℕ) where
  pub find_from-empty : key keys idx ≡ 0 → find_from (suc n) mask id keys idx ≡ some none
  unfolding find_from
  find_from-empty e = ground (arith, e)

  pub find_from-here :
      2 ≤ key keys idx → key keys idx ≡ id → find_from (suc n) mask id keys idx ≡ some (some idx)
  unfolding find_from
  find_from-here two e = ground (arith, e)

  pub find_from-passes :
      On (key keys idx) id
      → find_from (suc n) mask id keys idx ≡ find_from n mask id keys (next mask idx)
  unfolding find_from
  find_from-passes (inl tomb) = ground (arith, tomb)
  find_from-passes (inr (big, ne)) = ground (arith, big, ne)

-- What the search finds is a slot with the key.
pub find_from-key :
    (n mask id : ℕ) (keys : List ℕ) (idx s : ℕ)
    → Sized mask keys
    → idx ≤ mask
    → find_from n mask id keys idx ≡ some (some s)
    → (key keys s ≡ id) × (2 ≤ id) × (s ≤ mask)
find_from-key zero mask id keys idx s z le h = unfold find_from in ground arith
find_from-key (suc n) mask id keys idx s z le h = elim (round (key keys idx) id) [
  | inl empty ↦ absurd (let e = find_from-empty n mask id keys idx empty in ground arith)
  | inr (inl (two, same)) ↦
      let e = find_from-here n mask id keys idx two same in
      let here : idx ≡ s = ground arith in rw (sym here) (same, omega (arith, same), le)
  | inr (inr on) ↦
      find_from-key n mask id keys (next mask idx) s z (next_le idx z le)
        (sym (find_from-passes n mask id keys idx on) ∙ h)
]

-- A search that does not end in n rounds has seen n keys that are not 0.
seen :
    (n mask id : ℕ) (keys : List ℕ) (idx k : ℕ)
    → Sized mask keys
    → idx ≤ mask
    → find_from n mask id keys idx ≡ none
    → k < n
    → 0 < key keys ((idx + k) % suc mask)
seen zero mask id keys idx k z le h lt = absurd (omega arith)
seen (suc n) mask id keys idx k z le h lt = elim (round (key keys idx) id) [
  | inl empty ↦ absurd (let e = find_from-empty n mask id keys idx empty in ground arith)
  | inr (inl (two, same)) ↦
      absurd (let e = find_from-here n mask id keys idx two same in ground arith)
  | inr (inr on) ↦
      let rest = sym (find_from-passes n mask id keys idx on) ∙ h in
      elim (Bool-cases (k == 0)) [
        | inl first ↦
            let here : (idx + k) % suc mask ≡ idx = rw (==→eq k 0 first) (grind arith) in
            rw here (On-pos (key keys idx) id on)
        | inr later ↦
            let ih =
              seen n mask id keys (next mask idx) (k - 1) z (next_le idx z le) rest
                (omega (arith, ==→ne k 0 later)) in
            let step : (next mask idx + (k - 1)) % suc mask ≡ (idx + k) % suc mask =
              ap (λ (t : ℕ). (t + (k - 1)) % suc mask) (next_eq idx z le)
              ∙ mod-add-mod (suc idx) (suc mask) (k - 1)
              ∙ ap (λ (t : ℕ). t % suc mask) (omega (arith, ==→ne k 0 later)) in
            omega (arith, ih, ap (key keys) step)
      ]
]

-- With an empty slot the search ends.
pub find_from_ends :
    (mask id : ℕ) (keys : List ℕ) (idx s : ℕ)
    → Sized mask keys
    → idx ≤ mask
    → s ≤ mask
    → key keys s ≡ 0
    → (o : Option ℕ) × (find_from (suc mask) mask id keys idx ≡ some o)
find_from_ends mask id keys idx s z le in_range empty =
    elim (Option-cases (find_from (suc mask) mask id keys idx)) [
      | inr found ↦ found
      | inl endless ↦
          let k : ℕ = if leb idx s then s - idx else s + suc mask - idx in
          let near : k < suc mask = ground (arith, le, in_range) in
          let back : (idx + k) % suc mask ≡ s = elim (Bool-cases (leb idx s)) [
            | inl before ↦ rw before (grind arith)
            | inr after ↦ rw after (grind arith)
          ] in
          absurd (
            omega (
              arith,
              seen (suc mask) mask id keys idx k z le endless near,
              ap (key keys) back,
              empty,
            ))
    ]

-- What a search finds it finds after a write of another key to a slot that did not have its own.
pub find_from-set :
    (n mask id : ℕ) (keys : List ℕ) (idx s v t : ℕ)
    → Sized mask keys
    → idx ≤ mask
    → s ≤ mask
    → On v id
    → (key keys s < 2) ⊎ (key keys s ≢ id)
    → find_from n mask id keys idx ≡ some (some t)
    → find_from n mask id (set keys s v) idx ≡ some (some t)
find_from-set zero mask id keys idx s v t z le in_range new old h = unfold find_from in ground arith
find_from-set (suc n) mask id keys idx s v t z le in_range new old h =
    let now : key (set keys s v) idx ≡ (if s == idx then v else key keys idx) =
      key-set keys s idx v (omega (arith, z.len)) in
    let ih =
      find_from-set n mask id keys (next mask idx) s v t z (next_le idx z le) in_range new old in
    elim (round (key keys idx) id) [
      | inl empty ↦ absurd (let e = find_from-empty n mask id keys idx empty in ground arith)
      | inr (inl (two, same)) ↦
          let e = find_from-here n mask id keys idx two same in
          elim (Bool-cases (s == idx)) [
            | inl hit ↦
                let there : key keys s ≡ id = ap (key keys) (==→eq s idx hit) ∙ same in
                elim old [
                  | inl small ↦ absurd (omega (arith, there, same))
                  | inr ne ↦ absurd (ne there)
                ]
            | inr miss ↦
                let kept : key (set keys s v) idx ≡ key keys idx = now ∙ rw miss refl in
                find_from-here n mask id (set keys s v) idx (rw kept two) (kept ∙ same) ∙ sym e ∙ h
          ]
      | inr (inr on) ↦
          let rest = sym (find_from-passes n mask id keys idx on) ∙ h in
          elim (Bool-cases (s == idx)) [
            | inl hit ↦
                let wrote : key (set keys s v) idx ≡ v = now ∙ rw hit refl in
                find_from-passes n mask id (set keys s v) idx (rw wrote new) ∙ ih rest
            | inr miss ↦
                let kept : key (set keys s v) idx ≡ key keys idx = now ∙ rw miss refl in
                find_from-passes n mask id (set keys s v) idx (rw kept on) ∙ ih rest
          ]
    ]
