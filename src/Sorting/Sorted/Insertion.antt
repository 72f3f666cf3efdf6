-- ===== src/Sorting/Sorted/Insertion.antt =====
-- The loops of `insertionSort`, by the first i elements.
use learn_cpp.Prelude.{
  ℕ, zero, suc, ◌+◌, ◌-◌, ◌<◌, ◌≤◌, ◌≡◌, ◌≢◌, ap, ◌∙◌, Bool-cases, inl, inr, List, [], ◌∷◌, subst,
  if◌then◌else◌, ltb, ◌==◌, length, set, count, one_if, length-set, arith,
}
use learn_cpp.Sorting.{at, shift, insertion_loop, insertion_sort}
use learn_cpp.Sorting.Occurrences.{
  Permuted, Permuted-refl, Permuted-trans, count-set, at-set, at-set_either,
}
use learn_cpp.Sorting.Sorted.{SortedTo, Sorts}

-- The first n elements but the one at j, which is to be overwritten with `base`, are in order, and
-- those behind j are not below `base`.
record Hole (base j n : ℕ) (xs : List ℕ) : Type 0 where
  ordered : (a b : ℕ) → a < b → b < n → a ≢ j → b ≢ j → at xs a ≤ at xs b
  above : (b : ℕ) → j < b → b < n → base ≤ at xs b
  inside : j < n
  fits : n ≤ length xs

move-Hole :
    (base j n : ℕ) (xs : List ℕ)
    → Hole base (suc j) n xs
    → base < at xs j
    → Hole base j n (set xs (suc j) (at xs j))
move-Hole base j n xs h lt =
    let inside = h.inside in
    let fits = h.fits in
    let read : (k : ℕ)
        → at (set xs (suc j) (at xs j)) k ≡ (if k == suc j then at xs j else at xs k) =
      λ k. at-set xs (suc j) (at xs j) k (omega arith) in
    record {
      ordered = λ a b ab bn na nb.
          grind (arith, read a, read b, h.ordered a b, h.ordered j b, h.ordered a j);
      above = λ b jb bn. grind (arith, read b, h.above b);
      inside = omega arith;
      fits = omega (arith, length-set xs (suc j) (at xs j));
    }

fill-Hole :
    (base j n : ℕ) (xs : List ℕ)
    → Hole base j n xs
    → ((a : ℕ) → a < j → at xs a ≤ base)
    → SortedTo n (set xs j base)
fill-Hole base j n xs h below a b ab bn =
    let inside = h.inside in
    let fits = h.fits in
    let ra = at-set xs j base a (omega arith) in
    let rb = at-set xs j base b (omega arith) in grind (arith, h.ordered a b, h.above b, below a)

start-Hole : (i : ℕ) (xs : List ℕ) → i < length xs → SortedTo i xs → Hole (at xs i) i (suc i) xs
start-Hole i xs h s = record {
  ordered = λ a b ab bi na nb. s a b ab (omega arith);
  above = λ b l m. absurd (omega arith);
  inside = omega arith;
  fits = omega arith;
}

shift-Sorted : (base j n : ℕ) (xs : List ℕ) → Hole base j n xs → SortedTo n (shift base j xs)
unfolding shift
shift-Sorted base zero n xs h = fill-Hole base 0 n xs h (λ a l. absurd (omega arith))
shift-Sorted base (suc j) n xs h = elim (Bool-cases (ltb base (at xs j))) [
  | inl e ↦
      rw e
        (shift-Sorted base j n (set xs (suc j) (at xs j)) (move-Hole base j n xs h (ground arith)))
  | inr e ↦
      let inside = h.inside in
      rw e (fill-Hole base (suc j) n xs h λ a l. grind (arith, h.ordered a j))
]

-- The moved elements are as before, with `base` in place of the one at j.
shift-Permuted :
    (base j : ℕ) (xs : List ℕ)
    → j < length xs
    → (length (shift base j xs) ≡ length xs)
      × ((v : ℕ) → count v (shift base j xs) + one_if v (at xs j) ≡ count v xs + one_if v base)
unfolding shift
shift-Permuted base zero xs h = (length-set xs 0 base, λ v. count-set v base xs 0 h)
shift-Permuted base (suc j) xs h =
    let rest =
      shift-Permuted base j (set xs (suc j) (at xs j))
        (omega (arith, length-set xs (suc j) (at xs j))) in
    elim (Bool-cases (ltb base (at xs j))) [
      | inl e ↦ rw e (
        rest.0 ∙ length-set xs (suc j) (at xs j),
        λ v.
            let kept = ap (one_if v) (at-set_either xs (suc j) j h) in
            let read = count-set v (at xs j) xs (suc j) h in let moved = rest.1 v in omega arith,
      )
      | inr e ↦ rw e (length-set xs (suc j) base, λ v. count-set v base xs (suc j) h)
    ]

insertion_loop-Sorts :
    (n i : ℕ) (xs : List ℕ) → i + n ≡ length xs → SortedTo i xs → Sorts (insertion_loop n i xs) xs
unfolding insertion_loop
insertion_loop-Sorts zero i xs e s = (subst (λ k. SortedTo k xs) (omega arith) s, Permuted-refl xs)
insertion_loop-Sorts (suc n) i xs e s =
    let placed = shift-Permuted (at xs i) i xs (omega arith) in
    let kept : Permuted (shift (at xs i) i xs) xs = (placed.0, λ v. omega (arith, placed.1 v)) in
    let rest =
      insertion_loop-Sorts n (suc i) (shift (at xs i) i xs) (omega (arith, placed.0))
        (shift-Sorted (at xs i) i (suc i) xs (start-Hole i xs (omega arith) s)) in
    (rest.0, Permuted-trans _ _ _ rest.1 kept)

-- `insertionSort` brings the elements in order and keeps each as often as it was there.
pub insertion_sort-Sorts : (xs : List ℕ) → Sorts (insertion_sort xs) xs
unfolding insertion_sort
insertion_sort-Sorts [] = ((λ a b ab b0. absurd (omega arith)), Permuted-refl [])
insertion_sort-Sorts (x ∷ xs) =
    insertion_loop-Sorts (suc (length xs) - 1) 1 (x ∷ xs) (omega arith)
      (λ a b ab b1. absurd (omega arith))
