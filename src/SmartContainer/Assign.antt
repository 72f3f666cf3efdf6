-- ===== src/SmartContainer/Assign.antt =====
-- Constructors, assignments and `swap` of SmartContainer.h.
use learn_cpp.Prelude.{◌+◌, ◌*◌, ◌^◌, ◌<◌, List, [], length}
use learn_cpp.SmartContainer.{SmartContainer, swap, move, move_assign, copy_assign}
use learn_cpp.SmartContainer.View.{Holds, empty-Holds, copy-Holds}

module _ {A : Type 0} where
  -- Between containers that hold two lists, `swap` exchanges the lists; moving, by the constructor or
  -- by assignment, takes the list over and leaves the source empty; and copy assignment, for a list
  -- of less than 2^63 - 1 elements, makes the target hold the source's list.
  pub assignments-Holds :
      (blank : A) (c other : SmartContainer A) (xs ys : List A)
      → Holds c xs
      → Holds other ys
      → 2 * length ys + 2 < 2 ^ 64
      → (Holds (swap c other).0 ys × Holds (swap c other).1 xs)
        × (Holds (move other).0 ys × Holds (move other).1 [])
        × (Holds (move_assign c other).0 ys × Holds (move_assign c other).1 [])
        × Holds (copy_assign blank c other) ys
  unfolding swap move move_assign copy_assign
  assignments-Holds blank c other xs ys h k small =
      ((k, h), (k, empty-Holds), (k, empty-Holds), copy-Holds blank other ys k small)
