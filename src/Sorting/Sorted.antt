-- ===== src/Sorting/Sorted.antt =====
-- When a list is in order.
pub mod Bubble
pub mod Insertion
use learn_cpp.Prelude.{ℕ, ◌<◌, ◌≤◌, ◌≡◌, List, length}
use learn_cpp.Sorting.{at}
use learn_cpp.Sorting.Occurrences.{Permuted}

-- The first n elements are in order.
abbrev pub SortedTo : ℕ → List ℕ → Type 0
SortedTo n xs = (a b : ℕ) → a < b → b < n → at xs a ≤ at xs b

-- `ys` is `xs` in order.
abbrev pub Sorts : List ℕ → List ℕ → Type 0
Sorts ys xs = SortedTo (length ys) ys × Permuted ys xs
