-- ===== src/Sorting/Occurrences.antt =====
-- How often a value occurs in a list, and what writes do to it.
use learn_cpp.Prelude.{
  ℕ, zero, suc, ◌+◌, ◌<◌, ◌≡◌, refl, ap, ◌∙◌, List, [], ◌∷◌, if◌then◌else◌, ◌==◌, length, set,
  one_if, count, length-set, arith,
}
use learn_cpp.Sorting.{at, swap}

-- The lists hold the same values, each as often.
abbrev pub Permuted : List ℕ → List ℕ → Type 0
Permuted xs ys = (length xs ≡ length ys) × ((v : ℕ) → count v xs ≡ count v ys)

pub count-set :
    (v x : ℕ) (xs : List ℕ) (i : ℕ)
    → i < length xs
    → count v (set xs i x) + one_if v (at xs i) ≡ count v xs + one_if v x
count-set v x [] i h = absurd (omega arith)
count-set v x (y ∷ xs) zero h = omega arith
count-set v x (y ∷ xs) (suc i) h = omega (arith, count-set v x xs i (omega arith))

pub Permuted-refl : (xs : List ℕ) → Permuted xs xs
Permuted-refl xs = (refl, λ v. refl)

pub Permuted-trans : (xs ys zs : List ℕ) → Permuted xs ys → Permuted ys zs → Permuted xs zs
Permuted-trans xs ys zs p q = (p.0 ∙ q.0, λ v. p.1 v ∙ q.1 v)

pub at-set :
    (xs : List ℕ) (i v k : ℕ) → i < length xs → at (set xs i v) k ≡ (if k == i then v else at xs k)
at-set [] i v k h = absurd (omega arith)
at-set (x ∷ xs) zero v zero h = refl
at-set (x ∷ xs) zero v (suc k) h = ground arith
at-set (x ∷ xs) (suc i) v zero h = ground arith
at-set (x ∷ xs) (suc i) v (suc k) h = at-set xs i v k (omega arith) ∙ ground arith

pub at-set_either : (xs : List ℕ) (i j : ℕ) → i < length xs → at (set xs i (at xs j)) j ≡ at xs j
at-set_either xs i j h = let e = at-set xs i (at xs j) j h in ground arith

pub length-swap : (i j : ℕ) (xs : List ℕ) → length (swap i j xs) ≡ length xs
unfolding swap
length-swap i j xs = length-set (set xs i (at xs j)) j (at xs i) ∙ length-set xs i (at xs j)

pub at-swap :
    (i j : ℕ) (xs : List ℕ) (k : ℕ)
    → i < length xs
    → j < length xs
    → at (swap i j xs) k ≡ (if k == j then at xs i else if k == i then at xs j else at xs k)
unfolding swap
at-swap i j xs k hi hj =
    let l = length-set xs i (at xs j) in
    let outer = at-set (set xs i (at xs j)) j (at xs i) k (omega arith) in
    let inner = at-set xs i (at xs j) k hi in ground arith

pub swap-Permuted :
    (i j : ℕ) (xs : List ℕ) → i < length xs → j < length xs → Permuted (swap i j xs) xs
unfolding swap
swap-Permuted i j xs hi hj =
    let l = length-set xs i (at xs j) in
    let same : at (set xs i (at xs j)) j ≡ at xs j = at-set_either xs i j hi in
    (
      length-swap i j xs,
      λ v.
          let outer = count-set v (at xs i) (set xs i (at xs j)) j (omega arith) in
          let inner = count-set v (at xs j) xs i hi in
          let moved = ap (one_if v) same in omega arith,
    )
