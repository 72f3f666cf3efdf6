-- ===== src/LruCache/Tests.antt =====
-- The calls of `main` in topics/memory/lru_cache.cpp.
use learn_cpp.Prelude.{ℕ, ◌≡◌, refl, none, some, List, [], ◌∷◌, arith}
use learn_cpp.LruCache.{init, get, put}
use learn_cpp.LruCache.Calls.{Call, read, write, answers, expected, answers-expected}

abbrev calls : List (Call ℕ)
calls = write 1 11 ∷ write 2 22 ∷ write 3 33 ∷ read 1 ∷ write 4 44 ∷ read 2 ∷ read 1 ∷ read 4 ∷ []

-- The key 2 is the one that was not used for the longest time.
run : answers calls (init 3) ≡ some (some 11 ∷ none ∷ some 11 ∷ some 44 ∷ [])
unfolding answers init get put
run = refl

-- With a capacity of 0 the first `put` reads the back of an empty list.
no_room : put {V = ℕ} 1 11 (init 0) ≡ none
unfolding init put
no_room = refl

answers-expected_example : answers calls (init 3) ≡ some (expected 3 calls [])
answers-expected_example = answers-expected 3 calls (omega arith)
