-- ===== src/Factors/Common.antt =====
-- How often a number occurs in what `get_common_factors` returns.
use learn_cpp.Prelude.{
  ℕ, ◌+◌, ◌≡◌, refl, ap, min, inl, inr, none, some, Option-cases, List, [], ◌∷◌, one_if, count,
  ◌==◌, arith, Bool-cases, ==→eq,
}
use learn_cpp.Factors.{find_erase, get_common_factors}

find_erase-some :
    (elem v : ℕ) (xs ys : List ℕ)
    → find_erase elem xs ≡ some ys
    → count v xs ≡ one_if v elem + count v ys
unfolding find_erase
find_erase-some elem v [] ys e = ground arith
find_erase-some elem v (x ∷ xs) ys e = elim (Option-cases (find_erase elem xs)) [
  | inl n ↦ grind arith
  | inr (zs, z) ↦ let rest = find_erase-some elem v xs zs z in grind arith
]

find_erase-none : (elem : ℕ) (xs : List ℕ) → find_erase elem xs ≡ none → count elem xs ≡ 0
unfolding find_erase
find_erase-none elem [] e = refl
find_erase-none elem (x ∷ xs) e = elim (Option-cases (find_erase elem xs)) [
  | inl n ↦ let rest = find_erase-none elem xs n in grind arith
  | inr (zs, z) ↦ grind arith
]

-- A number occurs among the common factors as often as in the list that has it less often.
pub count-get_common_factors :
    (v : ℕ) (list1 list2 : List ℕ)
    → count v (get_common_factors list1 list2) ≡ min (count v list1) (count v list2)
unfolding get_common_factors
count-get_common_factors v [] list2 = omega arith
count-get_common_factors v (elem ∷ list1) list2 = elim (Option-cases (find_erase elem list2)) [
  | inl e ↦
      rw (e, get_common_factors)
        let rest = count-get_common_factors v list1 list2 in
          let absent = find_erase-none elem list2 e in
          elim (Bool-cases (v == elem)) [
            | inl t ↦ let none_left = ap (λ k. count k list2) (==→eq v elem t) in ground arith
            | inr f ↦ ground arith
          ]
  | inr (left, e) ↦
      rw (e, get_common_factors)
        let rest = count-get_common_factors v list1 left in
          let erased = find_erase-some elem v list2 left e in ground arith
]
