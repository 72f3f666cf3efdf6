-- ===== src/Sorting/Sorted/Bubble.antt =====
-- The loops of `bubbleSort`, by what stands behind index i.
use learn_cpp.Prelude.{
  ℕ, zero, suc, ◌+◌, ◌-◌, ◌<◌, ◌≤◌, ◌≡◌, Bool, Bool-cases, inl, inr, List, [], ◌∷◌, subst, true,
  false, ltb, length, arith,
}
use learn_cpp.Sorting.{at, swap, bubble, bubble_loop, bubble_sort}
use learn_cpp.Sorting.Occurrences.{
  Permuted, Permuted-refl, Permuted-trans, at-swap, length-swap, swap-Permuted,
}
use learn_cpp.Sorting.Sorted.{SortedTo, Sorts}

-- What stands behind index i is in order, and not below what stands before.
abbrev Top : ℕ → List ℕ → Type 0
Top i xs = (a b : ℕ) → a < b → i < b → b < length xs → at xs a ≤ at xs b

-- None of the elements before index j is greater than the one at j.
abbrev Highest : ℕ → List ℕ → Type 0
Highest j xs = (a : ℕ) → a < j → at xs a ≤ at xs j

-- Where no pair has been exchanged, the elements up to index j are in order.
abbrev Flat : Bool → ℕ → List ℕ → Type 0
Flat flag j xs = flag ≡ false → SortedTo (suc j) xs

swap-Top : (i j : ℕ) (xs : List ℕ) → j < i → i < length xs → Top i xs → Top i (swap j (suc j) xs)
swap-Top i j xs ji il top a b ab ib bl =
    let l = length-swap j (suc j) xs in
    let ra = at-swap j (suc j) xs a (omega arith) (omega arith) in
    let rb = at-swap j (suc j) xs b (omega arith) (omega arith) in
    let top_a = top a b ab ib (omega arith) in
    let top_j = top j b (omega arith) ib (omega arith) in
    let top_next = top (suc j) b (omega arith) ib (omega arith) in ground arith

swap-Highest :
    (j : ℕ) (xs : List ℕ)
    → suc j < length xs
    → at xs (suc j) < at xs j
    → Highest j xs
    → Highest (suc j) (swap j (suc j) xs)
swap-Highest j xs jl lt high a aj =
    let ra = at-swap j (suc j) xs a (omega arith) (omega arith) in
    let rj = at-swap j (suc j) xs (suc j) (omega arith) (omega arith) in grind (arith, high a)

next-Highest : (j : ℕ) (xs : List ℕ) → at xs j ≤ at xs (suc j) → Highest j xs → Highest (suc j) xs
next-Highest j xs le high a aj = grind (arith, high a)

next-Flat :
    (flag : Bool) (j : ℕ) (xs : List ℕ)
    → at xs j ≤ at xs (suc j)
    → Highest j xs
    → Flat flag j xs
    → Flat flag (suc j) xs
next-Flat flag j xs le high flat e a b ab bj = grind (arith, high a, flat e a b)

-- What the loop over j leaves when it has run up to index i.
record Bubbled (i : ℕ) (flag : Bool) (ys xs : List ℕ) : Type 0 where
  top : Top i ys
  highest : Highest i ys
  flat : Flat flag i ys
  permuted : Permuted ys xs

bubble-Bubbled :
    (n j i : ℕ) (flag : Bool) (xs : List ℕ)
    → j + n ≡ i
    → i < length xs
    → Top i xs
    → Highest j xs
    → Flat flag j xs
    → Bubbled i (bubble n j flag xs).0 (bubble n j flag xs).1 xs
unfolding bubble
bubble-Bubbled zero j i flag xs e il top high flat = record {
  top = top;
  highest = subst (λ k. Highest k xs) (omega arith) high;
  flat = subst (λ k. Flat flag k xs) (omega arith) flat;
  permuted = Permuted-refl xs;
}
bubble-Bubbled (suc n) j i flag xs e il top high flat =
    elim (Bool-cases (ltb (at xs (suc j)) (at xs j))) [
      | inl g ↦
          let l = length-swap j (suc j) xs in
          let rest =
            bubble-Bubbled n (suc j) i true (swap j (suc j) xs) (omega arith) (omega arith)
              (swap-Top i j xs (omega arith) il top)
              (swap-Highest j xs (omega arith) (ground arith) high) (λ t. ground arith) in
          rw (g, bubble)
            (record {
              top = rest.top;
              highest = rest.highest;
              flat = rest.flat;
              permuted =
                  Permuted-trans _ _ _ rest.permuted
                    (swap-Permuted j (suc j) xs (omega arith) (omega arith));
            })
      | inr g ↦
          let le : at xs j ≤ at xs (suc j) = ground arith in
          rw (g, bubble)
            (bubble-Bubbled n (suc j) i flag xs (omega arith) il top (next-Highest j xs le high)
              (next-Flat flag j xs le high flat))
    ]

-- One index less is left when the loop over j has run.
lower-Top : (i : ℕ) (xs : List ℕ) → Top (suc i) xs → Highest (suc i) xs → Top i xs
lower-Top i xs top high a b ab ib bl = grind (arith, top a b, high a)

-- What is in order up to i and behind i is in order.
flat-SortedTo : (i : ℕ) (xs : List ℕ) → Top i xs → SortedTo (suc i) xs → SortedTo (length xs) xs
flat-SortedTo i xs top s a b ab bl = grind (arith, top a b, s a b)

bubble_loop-Sorts : (i : ℕ) (xs : List ℕ) → i < length xs → Top i xs → Sorts (bubble_loop i xs) xs
unfolding bubble_loop
bubble_loop-Sorts zero xs il top = ((λ a b ab bl. top a b ab (omega arith) bl), Permuted-refl xs)
bubble_loop-Sorts (suc i) xs il top =
    let run =
      bubble-Bubbled (suc i) 0 (suc i) false xs (omega arith) il top (λ a l. absurd (omega arith))
        (λ e a b ab b1. absurd (omega arith)) in
    let ys = (bubble (suc i) 0 false xs).1 in
    elim (Bool-cases (bubble (suc i) 0 false xs).0) [
      | inl e ↦
          let rest =
            bubble_loop-Sorts i ys (omega (arith, run.permuted.0))
              (lower-Top i ys run.top run.highest) in
          rw e (rest.0, Permuted-trans _ _ _ rest.1 run.permuted)
      | inr e ↦ rw e (flat-SortedTo (suc i) ys run.top (run.flat e), run.permuted)
    ]

-- `bubbleSort` brings the elements in order and keeps each as often as it was there.
pub bubble_sort-Sorts : (xs : List ℕ) → Sorts (bubble_sort xs) xs
unfolding bubble_sort
bubble_sort-Sorts [] = ((λ a b ab b0. absurd (omega arith)), Permuted-refl [])
bubble_sort-Sorts (x ∷ xs) =
    bubble_loop-Sorts (suc (length xs) - 1) (x ∷ xs) (omega arith)
      (λ a b ab ib bl. absurd (omega arith))
