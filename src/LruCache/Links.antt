-- ===== src/LruCache/Links.antt =====
-- The map of `LRUCache` and the nodes of its list.
use learn_cpp.Prelude.{
  ℕ, ◌≡◌, ◌≢◌, refl, sym, ◌∙◌, ap, subst, inl, inr, Bool-cases, ==→eq, ==→ne, true, false, Option,
  none, some, List, [], ◌∷◌, if◌then◌else◌, ◌==◌, arith,
}
use learn_cpp.LruCache.{Node, find, erase, node_at, unlink, assign, back, drop_last}

module _ {V : Type 0} where
  -- The list without its addresses, most recent first.
  abbrev pub entries : List (Node V) → List (ℕ × V)
  entries [] = []
  entries (n ∷ ns) = (n.key, n.value) ∷ entries ns

  abbrev pub lookup : ℕ → List (ℕ × V) → Option V
  lookup key [] = none
  lookup key ((k, v) ∷ es) = if k == key then some v else lookup key es

  abbrev pub without : ℕ → List (ℕ × V) → List (ℕ × V)
  without key [] = []
  without key ((k, v) ∷ es) = if k == key then es else (k, v) ∷ without key es

  -- The address of the node with a key.
  abbrev pub address_of : ℕ → List (Node V) → Option ℕ
  address_of key [] = none
  address_of key (n ∷ ns) = if n.key == key then some n.address else address_of key ns

  -- No address and no key comes twice.
  abbrev pub Distinct : List (Node V) → Type 0
  Distinct [] = Unit
  Distinct (n ∷ ns) = (node_at n.address ns ≡ none) × (address_of n.key ns ≡ none) × Distinct ns

  pub address_of-none :
      (key : ℕ) (ns : List (Node V)) → address_of key ns ≡ none → lookup key (entries ns) ≡ none
  address_of-none key [] e = refl
  address_of-none key (n ∷ ns) e = elim (Bool-cases (n.key == key)) [
    | inl t ↦ ground arith
    | inr f ↦ rw f (address_of-none key ns (ground arith))
  ]

  -- What is at the address of a key.
  pub record Located (key it : ℕ) (ns : List (Node V)) (n : Node V) : Type 0 where
    pub here : node_at it ns ≡ some n
    pub same_key : n.key ≡ key
    pub same_address : n.address ≡ it
    pub value : lookup key (entries ns) ≡ some n.value
    pub others : entries (unlink it ns) ≡ without key (entries ns)
    pub assigned : (v : V) → node_at it (assign it v ns) ≡ some (record n { value = v })
    pub kept : (v : V) → unlink it (assign it v ns) ≡ unlink it ns
    pub gone_key : address_of key (unlink it ns) ≡ none
    pub gone_address : node_at it (unlink it ns) ≡ none
    pub other_keys : (k : ℕ) → k ≢ key → address_of k (unlink it ns) ≡ address_of k ns
    pub other_addresses : (a : ℕ) → node_at a ns ≡ none → node_at a (unlink it ns) ≡ none
    pub distinct : Distinct (unlink it ns)

  address-there :
      (key it : ℕ) (ns : List (Node V)) → address_of key ns ≡ some it → node_at it ns ≢ none
  address-there key it [] e m = ground arith
  address-there key it (n ∷ ns) e m = elim (Bool-cases (n.key == key)) [
    | inl t ↦ grind arith
    | inr f ↦ address-there key it ns (ground arith) (grind arith)
  ]

  pub locate :
      (key it : ℕ) (ns : List (Node V))
      → address_of key ns ≡ some it
      → Distinct ns
      → (n : Node V) × Located key it ns n
  locate key it [] e d = ground arith
  locate key it (n ∷ ns) e (da, dk, d) = elim (Bool-cases (n.key == key)) [
    | inl t ↦
        let same : n.address ≡ it = grind arith in
        let key_here = ==→eq n.key key t in
        let s : (n.address == it) ≡ true = ground arith in
        (
          n,
          record {
            here = rw s refl;
            same_key = key_here;
            same_address = same;
            value = rw t refl;
            others = rw (s, t) refl;
            assigned = λ v. rw s (rw s refl);
            kept = λ v. rw s (rw s refl);
            gone_key = rw s (subst (λ k. address_of k ns ≡ none) key_here dk);
            gone_address = rw s (subst (λ a. node_at a ns ≡ none) same da);
            other_keys =
                λ k ne. let other : (n.key == k) ≡ false = ground arith in rw (s, other) refl;
            other_addresses = λ a m. rw s (grind arith);
            distinct = rw s d;
          },
        )
    | inr f ↦
        let e' : address_of key ns ≡ some it = ground arith in
        let (m, l) = locate key it ns e' d in
        let s : (n.address == it) ≡ false = elim (Bool-cases (n.address == it)) [
          | inl t ↦
              let clash : none ≡ some m =
                sym da ∙ ap (λ a. node_at a ns) (==→eq n.address it t) ∙ l.here in
              ground (arith, clash)
          | inr g ↦ g
        ] in
        (
          m,
          record {
            here = rw s l.here;
            same_key = l.same_key;
            same_address = l.same_address;
            value = rw f l.value;
            others = rw (s, f) (ap (λ es. (n.key, n.value) ∷ es) l.others);
            assigned = λ v. rw (s, s) (l.assigned v);
            kept = λ v. rw (s, s) (ap (λ xs. n ∷ xs) (l.kept v));
            gone_key = rw (s, f) l.gone_key;
            gone_address = rw (s, s) l.gone_address;
            other_keys = λ k ne. rw s (
                ap {B = Option ℕ} (λ o. if n.key == k then some n.address else o)
                  (l.other_keys k ne));
            other_addresses = λ a h. rw s (elim (Bool-cases (n.address == a)) [
              | inl t ↦ grind arith
              | inr g ↦ rw g (l.other_addresses a (grind arith))
            ]);
            distinct = rw s (
              l.other_addresses n.address da,
              l.other_keys n.key (==→ne n.key key f) ∙ dk,
              l.distinct,
            );
          },
        )
  ]

  -- What is left without the node at the back.
  pub record Trimmed (n : Node V) (ns : List (Node V)) : Type 0 where
    pub seen : entries (drop_last ns) ≡ drop_last (entries ns)
    pub gone_key : address_of n.key (drop_last ns) ≡ none
    pub other_keys : (k : ℕ) → k ≢ n.key → address_of k (drop_last ns) ≡ address_of k ns
    pub absent_keys : (k : ℕ) → address_of k ns ≡ none → address_of k (drop_last ns) ≡ none
    pub absent_addresses : (a : ℕ) → node_at a ns ≡ none → node_at a (drop_last ns) ≡ none
    pub distinct : Distinct (drop_last ns)

  back-there : (n : Node V) (ns : List (Node V)) → back ns ≡ some n → address_of n.key ns ≢ none
  back-there n [] e h = ground arith
  back-there n (m ∷ []) e h =
      let same : m ≡ n = ap (λ o. elim o [ none ↦ m | some x ↦ x ]) e in
      let key_same = ap {B = ℕ} (λ x. x.key) same in grind arith
  back-there n (m ∷ p ∷ ns) e h = back-there n (p ∷ ns) e (grind arith)

  pub trim : (n : Node V) (ns : List (Node V)) → back ns ≡ some n → Distinct ns → Trimmed n ns
  trim n [] e d = ground arith
  trim n (m ∷ []) e d =
      let same : m ≡ n = ap (λ o. elim o [ none ↦ m | some x ↦ x ]) e in
      let key_same = ap {B = ℕ} (λ x. x.key) same in
      record {
        seen = refl;
        gone_key = refl;
        other_keys = λ k ne. let g : (m.key == k) ≡ false = ground arith in rw g refl;
        absent_keys = λ k h. refl;
        absent_addresses = λ a h. refl;
        distinct = tt;
      }
  trim n (m ∷ p ∷ ns) e (da, dk, d) =
      let t = trim n (p ∷ ns) e d in
      record {
        seen = ap (λ es. (m.key, m.value) ∷ es) t.seen;
        gone_key = elim (Bool-cases (m.key == n.key)) [
          | inl g ↦ absurd (
              back-there n (p ∷ ns) e
                (ap (λ k. address_of k (p ∷ ns)) (sym (==→eq m.key n.key g)) ∙ dk))
          | inr g ↦ rw g t.gone_key
        ];
        other_keys = λ k ne.
            ap {B = Option ℕ} (λ o. if m.key == k then some m.address else o) (t.other_keys k ne);
        absent_keys = λ k h. elim (Bool-cases (m.key == k)) [
          | inl g ↦ grind arith
          | inr g ↦ rw g (t.absent_keys k (grind arith))
        ];
        absent_addresses = λ a h. elim (Bool-cases (m.address == a)) [
          | inl g ↦ grind arith
          | inr g ↦ rw g (t.absent_addresses a (grind arith))
        ];
        distinct = (t.absent_addresses m.address da, t.absent_keys m.key dk, t.distinct);
      }

pub find-erase :
    (k key : ℕ) (index : List (ℕ × ℕ))
    → find k (erase key index) ≡ (if k == key then none else find k index)
find-erase k key [] = ground arith
find-erase k key ((j, it) ∷ index) = let rest = find-erase k key index in grind arith
