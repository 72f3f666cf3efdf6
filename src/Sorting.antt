-- ===== src/Sorting.antt =====
-- The sorts of topics/appendix/classic_algorithms/sort.cpp. The elements, `int` in the source, are
-- only compared and moved: a natural number n stands for n - 2^31. Indices do not go out of range;
-- a vector has fewer than 2^31 elements, so that an `int` holds its size.
pub mod Occurrences
pub mod Sorted
pub mod Selection
pub mod Tests
use learn_cpp.Prelude.{
  ℕ, zero, suc, ◌+◌, ◌-◌, ◌≡◌, Bool, true, false, List, if◌then◌else◌, ltb, length, get_or, set,
}

abbrev pub at : List ℕ → ℕ → ℕ
at nums i = get_or nums i 0

unfoldable pub swap : ℕ → ℕ → List ℕ → List ℕ
swap i j nums = set (set nums i (at nums j)) j (at nums i)

-- The loop over j of `selectionSort` with the rounds left, j and k.
unfoldable pub select : ℕ → ℕ → ℕ → ℕ → List ℕ → List ℕ
unfolding swap
select zero i j k nums = nums
select (suc n) i j k nums =
    let smallest = if ltb (at nums j) (at nums k) then j else k in
    select n i (suc j) smallest (swap i smallest nums)

unfoldable pub selection_loop : ℕ → ℕ → List ℕ → List ℕ
unfolding select
selection_loop zero i nums = nums
selection_loop (suc n) i nums =
    selection_loop n (suc i) (select (length nums - suc i) i (suc i) i nums)

unfoldable pub selection_sort : List ℕ → List ℕ
unfolding selection_loop
selection_sort nums = selection_loop (length nums - 1) 0 nums

-- The loop over j of `bubbleSort` with the rounds left, j and flag.
unfoldable pub bubble : ℕ → ℕ → Bool → List ℕ → Bool × List ℕ
unfolding swap
bubble zero j flag nums = (flag, nums)
bubble (suc n) j flag nums =
    let greater = ltb (at nums (suc j)) (at nums j) in
    bubble n (suc j) (if greater then true else flag)
      (if greater then swap j (suc j) nums else nums)

-- The loop over i of `bubbleSort`, downwards.
unfoldable pub bubble_loop : ℕ → List ℕ → List ℕ
unfolding bubble
bubble_loop zero nums = nums
bubble_loop (suc i) nums =
    let (flag, bubbled) = bubble (suc i) 0 false nums in
    let rest = bubble_loop i bubbled in if flag then rest else bubbled

unfoldable pub bubble_sort : List ℕ → List ℕ
unfolding bubble_loop
bubble_sort nums = bubble_loop (length nums - 1) nums

-- The `while` of `insertionSort` and the write after it; the second argument is j + 1.
unfoldable pub shift : ℕ → ℕ → List ℕ → List ℕ
shift base zero nums = set nums 0 base
shift base (suc j) nums =
    let rest = shift base j (set nums (suc j) (at nums j)) in
    if ltb base (at nums j) then rest else set nums (suc j) base

unfoldable pub insertion_loop : ℕ → ℕ → List ℕ → List ℕ
unfolding shift
insertion_loop zero i nums = nums
insertion_loop (suc n) i nums = insertion_loop n (suc i) (shift (at nums i) i nums)

unfoldable pub insertion_sort : List ℕ → List ℕ
unfolding insertion_loop
insertion_sort nums = insertion_loop (length nums - 1) 1 nums
