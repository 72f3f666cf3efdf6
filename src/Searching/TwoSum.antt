-- ===== src/Searching/TwoSum.antt =====
-- What `twoSumHashTable` returns, by what its dictionary holds.
use learn_cpp.Prelude.{
  ℕ, zero, suc, ◌+◌, ◌%◌, ◌^◌, ◌<◌, ◌≡◌, ◌≢◌, ◌⊎◌, sym, ◌∙◌, ap, subst, inl, inr, Option-cases,
  Option, none, some, List, [], ◌∷◌, length, ◌==◌, arith, Bool-cases, ==→eq,
}
use learn_cpp.Searching.{at, lookup, emplace, sub32, two_sum_loop, two_sum_hash_table}

-- The elements at a and b sum to the target in 32 bits.
abbrev Sums : List ℕ → ℕ → ℕ → ℕ → Type 0
Sums nums target a b = (at nums a + at nums b) % 2 ^ 32 ≡ target

-- The indices of a pair that sums to the target, or nothing and there is no such pair.
abbrev pub Answers : List ℕ → ℕ → Option (ℕ × ℕ) → Type 0
Answers nums target (some (a, b)) = (a < b) × (b < length nums) × Sums nums target a b
Answers nums target none = (a b : ℕ) → a < b → b < length nums → Sums nums target a b → ⊥

-- The elements are bit patterns.
abbrev pub Words : List ℕ → Type 0
Words nums = (i : ℕ) → at nums i < 2 ^ 32

-- The dictionary holds the elements before i, each with an index of it.
record Seen (nums : List ℕ) (i : ℕ) (dict : List (ℕ × ℕ)) : Type 0 where
  sound : (key a : ℕ) → lookup key dict ≡ some a → (a < i) × (at nums a ≡ key)
  complete : (a : ℕ) → a < i → lookup (at nums a) dict ≢ none

sub32-sum :
    (x y target : ℕ) → x < 2 ^ 32 → target < 2 ^ 32 → y ≡ sub32 target x → (y + x) % 2 ^ 32 ≡ target
sub32-sum x y target hx ht e = omega arith

sum-sub32 :
    (x y target : ℕ) → x < 2 ^ 32 → y < 2 ^ 32 → (y + x) % 2 ^ 32 ≡ target → y ≡ sub32 target x
sum-sub32 x y target hx hy e = omega arith

-- What a dictionary with one more item holds.
lookup-cons :
    (key k i a : ℕ) (dict : List (ℕ × ℕ))
    → lookup key ((k, i) ∷ dict) ≡ some a
    → ((i ≡ a) × (k ≡ key)) ⊎ (lookup key dict ≡ some a)
lookup-cons key k i a dict found = ground arith

lookup-cons_none :
    (key k i : ℕ) (dict : List (ℕ × ℕ))
    → lookup key ((k, i) ∷ dict) ≡ none
    → (key ≢ k) × (lookup key dict ≡ none)
lookup-cons_none key k i dict missing = ground arith

some-none : {A : Type 0} (o : Option A) (a : A) → o ≡ some a → o ≡ none → ⊥
some-none o a e n = ground (arith, e, n)

emplace-Seen :
    (nums : List ℕ) (i : ℕ) (dict : List (ℕ × ℕ))
    → Seen nums i dict
    → Seen nums (suc i) (emplace (at nums i) i dict)
unfolding emplace
emplace-Seen nums i dict seen = elim (Option-cases (lookup (at nums i) dict)) [
  | inl e ↦
      rw (e, emplace)
        (record {
          sound = λ key a found. elim (lookup-cons key (at nums i) i a dict found) [
            | inl (here, same) ↦ (omega arith, ap (at nums) (sym here) ∙ same)
            | inr old ↦ let s = seen.sound key a old in (omega arith, s.1)
          ];
          complete = λ a h missing.
              let m = lookup-cons_none (at nums a) (at nums i) i dict missing in
              elim (Bool-cases (a == i)) [
                | inl t ↦ m.0 (ap (at nums) (==→eq a i t))
                | inr f ↦ seen.complete a (ground arith) m.1
              ];
        })
  | inr (j, e) ↦
      rw (e, emplace)
        (record {
          sound = λ key a found. let s = seen.sound key a found in (omega arith, s.1);
          complete = λ a h missing. elim (Bool-cases (a == i)) [
            | inl t ↦
                some-none _ j e (ap (λ k. lookup (at nums k) dict) (sym (==→eq a i t)) ∙ missing)
            | inr f ↦ seen.complete a (ground arith) missing
          ];
        })
]

two_sum_loop-Answers :
    (n i : ℕ) (dict : List (ℕ × ℕ)) (nums : List ℕ) (target : ℕ)
    → Words nums
    → target < 2 ^ 32
    → i + n ≡ length nums
    → Seen nums i dict
    → ((a b : ℕ) → a < b → b < i → Sums nums target a b → ⊥)
    → Answers nums target (two_sum_loop n i dict nums target)
unfolding two_sum_loop
two_sum_loop-Answers zero i dict nums target words small e seen before =
    λ a b ab bl. before a b ab (omega arith)
two_sum_loop-Answers (suc n) i dict nums target words small e seen before =
    elim (Option-cases (lookup (sub32 target (at nums i)) dict)) [
      | inl missing ↦
          rw (missing, two_sum_loop)
            (two_sum_loop-Answers n (suc i) _ nums target words small (omega arith)
              (emplace-Seen nums i dict seen)
              (λ a b ab bl s. elim (Bool-cases (b == i)) [
                | inl t ↦
                    let last = ==→eq b i t in
                    let here : (at nums a + at nums i) % 2 ^ 32 ≡ target =
                      subst (λ k. Sums nums target a k) last s in
                    let need = sum-sub32 (at nums i) (at nums a) target (words i) (words a) here in
                    seen.complete a (omega arith) (ap (λ k. lookup k dict) need ∙ missing)
                | inr f ↦ before a b ab (ground arith) s
              ]))
      | inr (a, found) ↦
          let s = seen.sound _ a found in
          rw (found, two_sum_loop)
            (s.0, omega arith, sub32-sum (at nums i) (at nums a) target (words i) small s.1)
    ]

-- When the elements and the target are 32-bit patterns, `twoSumHashTable` returns the indices of two
-- elements that sum to the target, the smaller one first, or no index and there are no such elements.
pub two_sum_hash_table-Answers :
    (nums : List ℕ) (target : ℕ)
    → Words nums
    → target < 2 ^ 32
    → Answers nums target (two_sum_hash_table nums target)
unfolding two_sum_hash_table
two_sum_hash_table-Answers nums target words small =
    two_sum_loop-Answers (length nums) 0 [] nums target words small (omega arith)
      (record { sound = λ key a found. ground arith; complete = λ a h. absurd (omega arith) })
      (λ a b ab bl. absurd (omega arith))
