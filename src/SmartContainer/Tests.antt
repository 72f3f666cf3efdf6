-- ===== src/SmartContainer/Tests.antt =====
-- SmartContainer on concrete elements.
use learn_cpp.Prelude.{ℕ, suc, ◌≡◌, refl, some, List, [], ◌∷◌, arith}
use learn_cpp.SmartContainer.{
  SmartContainer, empty_container, from_list, swap, move, move_assign, copy_assign,
}
use learn_cpp.SmartContainer.Iterator.{pos, plus, minus, distance, begin, end, visit}
use learn_cpp.SmartContainer.Iterator.Traversal.{minus-plus, visit-begin-end}
use learn_cpp.SmartContainer.Assign.{assignments-Holds}
use learn_cpp.SmartContainer.View.{Holds, empty-Holds, from_list-Holds}
use learn_cpp.SmartContainer.Contract.{
  Op, push, pop, look, wipe, shrink, done, got, out_of_range, calls, expects, calls-expects,
}

abbrev script : List (Op ℕ)
script = push 7 ∷ push 8 ∷ push 9 ∷ pop ∷ look 1 ∷ look 2 ∷ shrink ∷ wipe ∷ pop ∷ []

script-expects :
    expects script []
    ≡ done ∷ done ∷ done ∷ done ∷ got 8 ∷ out_of_range ∷ done ∷ done ∷ out_of_range ∷ []
unfolding expects
script-expects = refl

calls-expects_example : calls 0 script empty_container ≡ expects script []
calls-expects_example = calls-expects 0 script empty_container [] empty-Holds (omega arith)

abbrev three : SmartContainer ℕ
three = from_list 0 (4 ∷ 5 ∷ 6 ∷ [])

assignments-Holds_example :
    (Holds (swap empty_container three).0 (4 ∷ 5 ∷ 6 ∷ [])
      × Holds (swap empty_container three).1 [])
    × (Holds (move three).0 (4 ∷ 5 ∷ 6 ∷ []) × Holds (move three).1 [])
    × (Holds (move_assign empty_container three).0 (4 ∷ 5 ∷ 6 ∷ [])
        × Holds (move_assign empty_container three).1 [])
    × Holds (copy_assign 0 empty_container three) (4 ∷ 5 ∷ 6 ∷ [])
assignments-Holds_example =
    assignments-Holds 0 empty_container three [] (4 ∷ 5 ∷ 6 ∷ []) empty-Holds
      (from_list-Holds 0 (4 ∷ 5 ∷ 6 ∷ []) (omega arith)) (omega arith)

-- An iterator at 1 plus 2, minus 2, in an array of three slots.
minus-plus_example :
    (minus 3 (record { ptr_ = 3 }) (pos 2) ≡ some (record { ptr_ = 1 }))
    × (distance (record { ptr_ = 3 }) (record { ptr_ = 1 }) ≡ pos 2)
unfolding plus
minus-plus_example =
    minus-plus 3 (record { ptr_ = 1 }) (record { ptr_ = 3 }) (pos 2) (omega arith) refl

visit-begin-end_example :
    visit three.data_ (suc three.size_) (begin three) (end three) ≡ some (4 ∷ 5 ∷ 6 ∷ [])
visit-begin-end_example =
    visit-begin-end three (4 ∷ 5 ∷ 6 ∷ []) (from_list-Holds 0 (4 ∷ 5 ∷ 6 ∷ []) (omega arith))
