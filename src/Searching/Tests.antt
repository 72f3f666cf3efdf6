-- ===== src/Searching/Tests.antt =====
-- Runs of the searches.
use learn_cpp.Prelude.{ℕ, zero, suc, ◌≡◌, refl, none, some, List, [], ◌∷◌, arith}
use learn_cpp.Searching.{binary_search, binary_search_insertion, two_sum_hash_table}
use learn_cpp.Searching.Endless.{binary_search-endless}
use learn_cpp.Searching.TwoSum.{Answers, Words, two_sum_hash_table-Answers}

abbrev some_nums : List ℕ
some_nums = 2 ∷ 7 ∷ 11 ∷ 15 ∷ []

found : binary_search 10 some_nums 7 ≡ some (some 1)
unfolding binary_search
found = refl

not_found : binary_search 10 (2 ∷ []) 5 ≡ some none
unfolding binary_search
not_found = refl

binary_search-endless_example :
    (binary_search 20 some_nums 11 ≡ none) × (binary_search_insertion 20 some_nums 11 ≡ none)
binary_search-endless_example = binary_search-endless 20 some_nums 11 (omega arith) (omega arith)

abbrev some_nums-Words : Words some_nums
some_nums-Words zero = omega arith
some_nums-Words (suc zero) = omega arith
some_nums-Words (suc (suc zero)) = omega arith
some_nums-Words (suc (suc (suc zero))) = omega arith
some_nums-Words (suc (suc (suc (suc i)))) = omega arith

-- The target 26 is 11 + 15; the pattern 2^32 - 3 is that of -3.
pair : two_sum_hash_table some_nums 26 ≡ some (2, 3)
unfolding two_sum_hash_table
pair = refl

negative_pair : two_sum_hash_table (4294967293 ∷ 5 ∷ []) 2 ≡ some (0, 1)
unfolding two_sum_hash_table
negative_pair = refl

two_sum_hash_table-Answers_example : Answers some_nums 26 (two_sum_hash_table some_nums 26)
two_sum_hash_table-Answers_example =
    two_sum_hash_table-Answers some_nums 26 some_nums-Words (omega arith)
