-- ===== src/Reconciler/IdMap.antt =====
-- `std::unordered_map` from ids, as an association list in the order of iteration. `set` stands for
-- a write through the reference that `operator[]` returns, which adds a missing key.
use learn_cpp.Prelude.{
  ℕ, ◌≡◌, refl, Bool, Option, none, some, List, [], ◌∷◌, if◌then◌else◌, ◌==◌, arith, Bool-cases,
  inl, inr, ==→eq,
}

abbrev pub IdMap : Type 0 → Type 0
IdMap V = List (ℕ × V)

module _ {V : Type 0} where
  unfoldable pub find : ℕ → IdMap V → Option V
  find k [] = none
  find k ((j, v) ∷ m) = if j == k then some v else find k m

  unfoldable pub set : ℕ → V → IdMap V → IdMap V
  set k v [] = (k, v) ∷ []
  set k v ((j, w) ∷ m) = if j == k then (k, v) ∷ m else (j, w) ∷ set k v m

  unfoldable pub erase : ℕ → IdMap V → IdMap V
  erase k [] = []
  erase k ((j, w) ∷ m) = if j == k then erase k m else (j, w) ∷ erase k m

  -- The scan `for (it = begin; it != end;)` that erases where `gone` holds.
  unfoldable pub erase_if : (V → Bool) → IdMap V → IdMap V
  erase_if gone [] = []
  erase_if gone ((j, w) ∷ m) = if gone w then erase_if gone m else (j, w) ∷ erase_if gone m

  -- Each key stands once.
  abbrev pub Unique : IdMap V → Type 0
  Unique [] = Unit
  Unique ((j, w) ∷ m) = (find j m ≡ none) × Unique m

  abbrev pub keep : (V → Bool) → Option V → Option V
  keep gone none = none
  keep gone (some v) = if gone v then none else some v

  pub find-set :
      (k j : ℕ) (v : V) (m : IdMap V) → find j (set k v m) ≡ (if k == j then some v else find j m)
  unfolding find set
  find-set k j v [] = refl
  find-set k j v ((i, w) ∷ m) = ground (arith, find-set k j v m)

  pub find-erase :
      (k j : ℕ) (m : IdMap V) → find j (erase k m) ≡ (if k == j then none else find j m)
  unfolding find erase
  find-erase k j [] = ground arith
  find-erase k j ((i, w) ∷ m) = ground (arith, find-erase k j m)

  pub find-erase_if :
      (gone : V → Bool) (j : ℕ) (m : IdMap V)
      → Unique m
      → find j (erase_if gone m) ≡ keep gone (find j m)
  unfolding find erase_if
  find-erase_if gone j [] u = refl
  find-erase_if gone j ((i, w) ∷ m) u = ground (arith, find-erase_if gone j m u.1, u.0)

  pub set-Unique : (k : ℕ) (v : V) (m : IdMap V) → Unique m → Unique (set k v m)
  unfolding set find
  set-Unique k v [] u = (refl, tt)
  set-Unique k v ((i, w) ∷ m) (absent, u) = elim (Bool-cases (i == k)) [
    | inl same ↦ rw same (rw (==→eq i k same) at absent, u)
    | inr other ↦ rw other (ground (arith, find-set k i v m), set-Unique k v m u)
  ]

  pub erase_if-Unique : (gone : V → Bool) (m : IdMap V) → Unique m → Unique (erase_if gone m)
  unfolding erase_if
  erase_if-Unique gone [] u = tt
  erase_if-Unique gone ((i, w) ∷ m) (absent, u) = elim (Bool-cases (gone w)) [
    | inl old ↦ rw old (erase_if-Unique gone m u)
    | inr young ↦ rw young (ground (arith, find-erase_if gone i m u), erase_if-Unique gone m u)
  ]
