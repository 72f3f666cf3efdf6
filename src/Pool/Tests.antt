-- ===== src/Pool/Tests.antt =====
-- The pools at a few blocks.
use learn_cpp.Prelude.{ℕ, ◌≡◌, refl, none, some, List, [], ◌∷◌}
use learn_cpp.Pool.{Pool, init, alloc, free, allocate, deallocate, links}
use learn_cpp.Pool.Chain.{range}
use learn_cpp.Pool.Blocks.{Balanced, alloc-Taken}
use learn_cpp.Pool.Growth.{Given, init-Balanced, allocate-Given, deallocate-Balanced}

-- Blocks come in the order of their addresses, and a block given back is the next to be taken.
given_back : (alloc (free 0 (alloc (alloc (init 3)).1).1)).0 ≡ some 0
unfolding alloc free init links
given_back = refl

-- An empty pool grows.
grown : (allocate 2 (record { next = []; free_head = none })).0 ≡ some 0
unfolding allocate
grown = refl

abbrev start : Pool
start = init 3

one_taken : (rest : List ℕ) × Balanced (record start { free_head = some 1 }) rest (0 ∷ [])
unfolding alloc init links
one_taken = let t = alloc-Taken (init 3) (range 0 3) [] (init-Balanced 2) in (t.1.0, t.1.2)

allocate-Given_example : Given [] (allocate 2 (init 3)).0 (allocate 2 (init 3)).1
allocate-Given_example = allocate-Given 1 (init 3) (range 0 3) [] (init-Balanced 2)

deallocate-Balanced_example :
    Balanced (deallocate (some 0) (record start { free_head = some 1 })) (0 ∷ one_taken.0) []
deallocate-Balanced_example =
    deallocate-Balanced 0 (record start { free_head = some 1 }) one_taken.0 (0 ∷ []) refl
      one_taken.1
