-- ===== src/Sorting/Tests.antt =====
-- Runs of the sorts.
use learn_cpp.Prelude.{ℕ, ◌≡◌, refl, List, [], ◌∷◌}
use learn_cpp.Sorting.{selection_sort, bubble_sort, insertion_sort}
use learn_cpp.Sorting.Sorted.{Sorts}
use learn_cpp.Sorting.Sorted.Insertion.{insertion_sort-Sorts}
use learn_cpp.Sorting.Sorted.Bubble.{bubble_sort-Sorts}

abbrev some_nums : List ℕ
some_nums = 3 ∷ 1 ∷ 2 ∷ 3 ∷ 0 ∷ []

bubbled : bubble_sort some_nums ≡ 0 ∷ 1 ∷ 2 ∷ 3 ∷ 3 ∷ []
unfolding bubble_sort
bubbled = refl

inserted : insertion_sort some_nums ≡ 0 ∷ 1 ∷ 2 ∷ 3 ∷ 3 ∷ []
unfolding insertion_sort
inserted = refl

-- The vector 2, 1, 3 is left as it is.
unsorted : selection_sort (2 ∷ 1 ∷ 3 ∷ []) ≡ 2 ∷ 1 ∷ 3 ∷ []
unfolding selection_sort
unsorted = refl

insertion_sort-Sorts_example : Sorts (insertion_sort some_nums) some_nums
insertion_sort-Sorts_example = insertion_sort-Sorts some_nums

bubble_sort-Sorts_example : Sorts (bubble_sort some_nums) some_nums
bubble_sort-Sorts_example = bubble_sort-Sorts some_nums
