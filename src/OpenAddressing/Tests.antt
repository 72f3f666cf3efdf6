-- ===== src/OpenAddressing/Tests.antt =====
-- A table from numbers to numbers that hashes a number to itself.
use learn_cpp.Prelude.{
  ℕ, ◌≡◌, refl, Bool, Option, none, some, if◌then◌else◌, ◌==◌, ==→eq, ==_refl, arith,
}
use learn_cpp.OpenAddressing.{HashTable, init, insert, find}
use learn_cpp.OpenAddressing.Insert.{Ready, init-Ready, insert-find}
use learn_cpp.OpenAddressing.Place.{KeyEq}

abbrev hash : ℕ → ℕ
hash n = n

abbrev same : ℕ → ℕ → Bool
same a b = a == b

abbrev same-KeyEq : KeyEq same
same-KeyEq = record { sound = ==→eq; self = ==_refl }

insert_two : Option (HashTable ℕ ℕ)
insert_two = elim (insert hash same 2 1 10 (init 2)) [
  | none ↦ none
  | some t ↦ elim (insert hash same 2 3 30 t) [ none ↦ none | some u ↦ insert hash same 2 5 50 u ]
]

find_in : ℕ → Option (HashTable ℕ ℕ) → Option ℕ
find_in k none = none
find_in k (some t) = find hash same k t

found : find_in 3 insert_two ≡ some 30
unfolding find_in insert_two find insert init
found = refl

insert-find_example :
    (t' : HashTable ℕ ℕ) × ((insert hash same 2 1 10 (init 2) ≡ some t')
      × Ready hash same same-KeyEq t'
      × ((k : ℕ) → find hash same k t' ≡ (if same 1 k then some 10 else find hash same k (init 2))))
insert-find_example =
    insert-find hash same same-KeyEq 1 10 (init 2) (init-Ready hash same same-KeyEq 2 (omega arith))
      (unfold init in omega arith)
