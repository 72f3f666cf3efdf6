-- ===== src/Factors.antt =====
-- `get_factors` and `get_common_factors` of topics/concurrency/parallel_math/lib.h. A vector that grows
-- by `push_back` is the list of what is pushed.
pub mod Division
pub mod Primes
pub mod Common
pub mod Tests
use learn_cpp.Prelude.{
  ℕ, zero, suc, ◌+◌, ◌/◌, ◌%◌, ◌≡◌, Option, none, some, List, [], ◌∷◌, ◌++◌, if◌then◌else◌, ltb,
  ◌==◌,
}

-- `while (num % i == 0)`: what it pushes and what is left of `num`.
unfoldable pub divide_out : ℕ → ℕ → ℕ → Option (List ℕ × ℕ)
divide_out zero i num = none
divide_out (suc n) i num =
    let rest = divide_out n i (num / i) in
    if num % i == 0
    then elim rest [ none ↦ none | some (factors, left) ↦ some (i ∷ factors, left) ]
    else some ([], num)

-- `for (i = 2; i <= num; ++i)`, with the rounds that each loop may take.
unfoldable pub factor_loop : ℕ → ℕ → ℕ → ℕ → Option (List ℕ)
unfolding divide_out
factor_loop zero inner i num = none
factor_loop (suc n) inner i num = if ltb num i then some [] else elim (divide_out inner i num) [
  | none ↦ none
  | some (factors, left) ↦
      let rest = factor_loop n inner (suc i) left in
      if left == 1
      then some factors
      else elim rest [ none ↦ none | some more ↦ some (factors ++ more) ]
]

unfoldable pub get_factors : ℕ → ℕ → Option (List ℕ)
unfolding factor_loop
get_factors rounds num = factor_loop rounds rounds 2 num

-- `std::find` and, where the element is found, `erase`.
unfoldable pub find_erase : ℕ → List ℕ → Option (List ℕ)
find_erase elem [] = none
find_erase elem (x ∷ xs) =
    let rest = find_erase elem xs in
    if elem == x then some xs else elim rest [ none ↦ none | some ys ↦ some (x ∷ ys) ]

unfoldable pub get_common_factors : List ℕ → List ℕ → List ℕ
unfolding find_erase
get_common_factors [] list2 = []
get_common_factors (elem ∷ list1) list2 = elim (find_erase elem list2) [
  | none ↦ get_common_factors list1 list2
  | some left ↦ elem ∷ get_common_factors list1 left
]
