-- ===== src/HotLoop/Tests.antt =====
-- The sums of a few elements.
use learn_cpp.Prelude.{ℕ, ◌≡◌, refl, List, [], ◌∷◌, arith}
use learn_cpp.HotLoop.{sum_naive, sum_cache_friendly, sum_simd}
use learn_cpp.HotLoop.Agree.{total, sums_agree}

abbrev some_elements : List ℕ
some_elements = 1 ∷ 2 ∷ 3 ∷ 4 ∷ 5 ∷ 6 ∷ []

sums_agree_example :
    (sum_cache_friendly some_elements ≡ total some_elements)
    × (sum_simd some_elements ≡ total some_elements)
    × (sum_naive some_elements ≡ total some_elements)
sums_agree_example = sums_agree some_elements (omega arith)

-- Eight elements of 2^29 sum to 2^32, of which the lanes keep 0.
too_large :
    sum_simd (
      536870912 ∷ 536870912 ∷ 536870912 ∷ 536870912 ∷ 536870912 ∷ 536870912 ∷ 536870912 ∷ 536870912
      ∷ [])
    ≡ 0
unfolding sum_simd
too_large = refl
