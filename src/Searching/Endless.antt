-- ===== src/Searching/Endless.antt =====
-- The binary searches on a target that stands above the middle.
use learn_cpp.Prelude.{ℕ, zero, suc, ◌+◌, ◌-◌, ◌/◌, ◌<◌, ◌≤◌, ◌≡◌, refl, none, List, length, arith}
use learn_cpp.Searching.{at, search_loop, binary_search, insertion_loop, binary_search_insertion}

-- The middle does not depend on i.
middle : (i n : ℕ) → i < n → (i + (n - 1 - i)) / 2 ≡ (n - 1) / 2
middle i n h = omega arith

search_loop-endless :
    (rounds i n : ℕ) (nums : List ℕ) (target : ℕ)
    → i < n
    → suc ((n - 1) / 2) < n
    → at nums ((n - 1) / 2) < target
    → search_loop rounds i n nums target ≡ none
unfolding search_loop
search_loop-endless zero i n nums target h two below = refl
search_loop-endless (suc rounds) i n nums target h two below =
    rw (middle i n h)
      let rest = search_loop-endless rounds (suc ((n - 1) / 2)) n nums target two two below in
        grind arith

insertion_loop-endless :
    (rounds i n : ℕ) (nums : List ℕ) (target : ℕ)
    → i < n
    → suc ((n - 1) / 2) < n
    → at nums ((n - 1) / 2) < target
    → insertion_loop rounds i n nums target ≡ none
unfolding insertion_loop
insertion_loop-endless zero i n nums target h two below = refl
insertion_loop-endless (suc rounds) i n nums target h two below =
    rw (middle i n h)
      let rest = insertion_loop-endless rounds (suc ((n - 1) / 2)) n nums target two two below in
        grind arith

-- On two elements or more, when the element in the middle is less than the target, neither
-- `BinarySearch` nor `BinarySearchInsertion` returns after any number of rounds.
pub binary_search-endless :
    (rounds : ℕ) (nums : List ℕ) (target : ℕ)
    → 2 ≤ length nums
    → at nums ((length nums - 1) / 2) < target
    → (binary_search rounds nums target ≡ none)
      × (binary_search_insertion rounds nums target ≡ none)
unfolding binary_search binary_search_insertion
binary_search-endless rounds nums target two below = (
  search_loop-endless rounds 0 (length nums) nums target (omega arith) (omega arith) below,
  insertion_loop-endless rounds 0 (length nums) nums target (omega arith) (omega arith) below,
)
