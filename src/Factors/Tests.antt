-- ===== src/Factors/Tests.antt =====
-- Runs of `get_factors` and `get_common_factors`.
use learn_cpp.Prelude.{ℕ, ◌≡◌, refl, min, some, List, [], ◌∷◌, count, arith}
use learn_cpp.Factors.{get_factors, get_common_factors}
use learn_cpp.Factors.Common.{count-get_common_factors}
use learn_cpp.Factors.Primes.{Found, get_factors-Found}

factors_of_60 : get_factors 60 60 ≡ some (2 ∷ 2 ∷ 3 ∷ 5 ∷ [])
unfolding get_factors
factors_of_60 = refl

common : get_common_factors (2 ∷ 2 ∷ 3 ∷ 5 ∷ []) (2 ∷ 3 ∷ 3 ∷ []) ≡ 2 ∷ 3 ∷ []
unfolding get_common_factors
common = refl

get_factors-Found_example : (ps : List ℕ) × (get_factors 12 12 ≡ some ps) × Found 2 12 ps
get_factors-Found_example = get_factors-Found 12 (omega arith)

count-get_common_factors_example :
    count 2 (get_common_factors (2 ∷ 2 ∷ 3 ∷ []) (2 ∷ 5 ∷ []))
    ≡ min (count 2 (2 ∷ 2 ∷ 3 ∷ [])) (count 2 (2 ∷ 5 ∷ []))
count-get_common_factors_example = count-get_common_factors 2 (2 ∷ 2 ∷ 3 ∷ []) (2 ∷ 5 ∷ [])
