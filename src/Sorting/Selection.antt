-- ===== src/Sorting/Selection.antt =====
-- What `selectionSort`, which exchanges in the inner loop, does to the elements.
use learn_cpp.Prelude.{
  ℕ, zero, suc, ◌+◌, ◌-◌, ◌<◌, ◌≡◌, List, [], ◌∷◌, if◌then◌else◌, ltb, length, arith,
}
use learn_cpp.Sorting.{at, swap, select, selection_loop, selection_sort}
use learn_cpp.Sorting.Occurrences.{Permuted, Permuted-refl, Permuted-trans, swap-Permuted}

select-Permuted :
    (n i j k : ℕ) (xs : List ℕ)
    → i < length xs
    → k < length xs
    → j + n ≡ length xs
    → Permuted (select n i j k xs) xs
unfolding select
select-Permuted zero i j k xs hi hk e = Permuted-refl xs
select-Permuted (suc n) i j k xs hi hk e =
    let smallest = if ltb (at xs j) (at xs k) then j else k in
    let small : smallest < length xs = ground arith in
    let swapped = swap-Permuted i smallest xs hi small in
    Permuted-trans _ _ _
      (select-Permuted n i (suc j) smallest (swap i smallest xs) (omega (arith, swapped.0))
        (omega (arith, swapped.0, small)) (omega (arith, swapped.0)))
      swapped

selection_loop-Permuted :
    (n i : ℕ) (xs : List ℕ) → i + n < length xs → Permuted (selection_loop n i xs) xs
unfolding selection_loop
selection_loop-Permuted zero i xs h = Permuted-refl xs
selection_loop-Permuted (suc n) i xs h =
    let round =
      select-Permuted (length xs - suc i) i (suc i) i xs (omega arith) (omega arith)
        (omega arith) in
    Permuted-trans _ _ _ (selection_loop-Permuted n (suc i) _ (omega (arith, round.0))) round

-- `selectionSort` keeps each element as often as it was there, whether or not it brings them in order.
selection_sort-Permuted : (xs : List ℕ) → Permuted (selection_sort xs) xs
unfolding selection_sort
selection_sort-Permuted [] = Permuted-refl []
selection_sort-Permuted (x ∷ xs) =
    selection_loop-Permuted (suc (length xs) - 1) 0 (x ∷ xs) (omega arith)
