-- ===== src/Searching.antt =====
-- The searches of topics/appendix/classic_algorithms/search.cpp. The two binary searches only compare
-- elements: a natural number n stands for the `int` n - 2^31. `twoSumHashTable` adds them: there an
-- `int` is its bit pattern, a number below 2^32, and sums wrap where C++ leaves them undefined.
-- A vector has fewer than 2^31 elements, so that an `int` holds its size.
pub mod Endless
pub mod TwoSum
pub mod Tests
use learn_cpp.Prelude.{
  ℕ, zero, suc, ◌+◌, ◌-◌, ◌/◌, ◌%◌, ◌^◌, ◌≡◌, Option, none, some, List, [], ◌∷◌, if◌then◌else◌, leb,
  ltb, ◌==◌, length, get_or,
}

abbrev pub at : List ℕ → ℕ → ℕ
at nums i = get_or nums i 0

-- The loop of `BinarySearch` with a number of rounds, i and j + 1. The result is `none` when no round
-- is left, `some none` for -1. Where j falls below -1, j + 1 is 0 here: the loop ends in both cases.
unfoldable pub search_loop : ℕ → ℕ → ℕ → List ℕ → ℕ → Option (Option ℕ)
search_loop zero i j_next nums target = none
search_loop (suc n) i j_next nums target =
    let m = (i + (j_next - 1 - i)) / 2 in
    let right = search_loop n (suc m) j_next nums target in
    let left = search_loop n i (suc m - i) nums target in
    if leb j_next i
    then some none
    else if ltb (at nums m) target
    then right
    else if ltb target (at nums m)
    then left
    else some (some m)

unfoldable pub binary_search : ℕ → List ℕ → ℕ → Option (Option ℕ)
unfolding search_loop
binary_search rounds nums target = search_loop rounds 0 (length nums) nums target

-- The loop of `BinarySearchInsertion`, with the same arguments.
unfoldable pub insertion_loop : ℕ → ℕ → ℕ → List ℕ → ℕ → Option ℕ
insertion_loop zero i j_next nums target = none
insertion_loop (suc n) i j_next nums target =
    let m = (i + (j_next - 1 - i)) / 2 in
    let right = insertion_loop n (suc m) j_next nums target in
    let left = insertion_loop n i m nums target in
    if leb j_next i then some i else if ltb (at nums m) target then right else left

unfoldable pub binary_search_insertion : ℕ → List ℕ → ℕ → Option ℕ
unfolding insertion_loop
binary_search_insertion rounds nums target = insertion_loop rounds 0 (length nums) nums target

-- `std::unordered_map<int, int>`.
abbrev pub lookup : ℕ → List (ℕ × ℕ) → Option ℕ
lookup key [] = none
lookup key ((k, i) ∷ dict) = if key == k then some i else lookup key dict

-- `emplace` leaves a key that is there as it is.
unfoldable pub emplace : ℕ → ℕ → List (ℕ × ℕ) → List (ℕ × ℕ)
emplace key i dict = elim (lookup key dict) [ none ↦ (key, i) ∷ dict | some j ↦ dict ]

-- `target - nums[i]`.
abbrev pub sub32 : ℕ → ℕ → ℕ
sub32 a b = (a + 2 ^ 32 - b) % 2 ^ 32

-- The loop of `twoSumHashTable` with the rounds left and i.
unfoldable pub two_sum_loop : ℕ → ℕ → List (ℕ × ℕ) → List ℕ → ℕ → Option (ℕ × ℕ)
unfolding emplace
two_sum_loop zero i dict nums target = none
two_sum_loop (suc n) i dict nums target =
    let rest = two_sum_loop n (suc i) (emplace (at nums i) i dict) nums target in
    elim (lookup (sub32 target (at nums i)) dict) [ some a ↦ some (a, i) | none ↦ rest ]

unfoldable pub two_sum_hash_table : List ℕ → ℕ → Option (ℕ × ℕ)
unfolding two_sum_loop
two_sum_hash_table nums target = two_sum_loop (length nums) 0 [] nums target
