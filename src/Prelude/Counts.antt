-- ===== src/Prelude/Counts.antt =====
-- How often a number occurs in a list.
use Prim.Native.Nat.{ℕ, ◌+◌}
use mathlib.Core.List.{List, [], ◌∷◌}
use learn_cpp.Prelude.Tests.{if◌then◌else◌, ◌==◌}

abbrev pub one_if : ℕ → ℕ → ℕ
one_if v x = if v == x then 1 else 0

abbrev pub count : ℕ → List ℕ → ℕ
count v [] = 0
count v (x ∷ xs) = one_if v x + count v xs
