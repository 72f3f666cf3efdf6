-- ===== src/SmartContainer/Contract.antt =====
-- Sequences of calls on a SmartContainer answer as on a list, and `operator==` compares the lists.
use learn_cpp.Prelude.{
  ℕ, zero, suc, ◌+◌, ◌-◌, ◌*◌, ◌^◌, ◌≤◌, ◌<◌, ◌≡◌, refl, ap, ap₂, sym, Bool, true, false, Option,
  none, some, List, [], ◌∷◌, ◌++◌, if◌then◌else◌, ◌==◌, length, take, get_elem?, length-append,
  length-take, arith, Bool-cases, inl, inr,
}
use learn_cpp.SmartContainer.{
  SmartContainer, at, pop_back, clear, shrink_to_fit, push_back, is_empty, copy, eq_elements,
  equals,
}
use learn_cpp.SmartContainer.View.{
  Holds, at_lem, clear-Holds, pop-Holds, shrink_to_fit-Holds, push_back-Holds, copy-Holds,
}

pub data Op (A : Type 0) : Type 0 where
  push : A → Op A
  pop : Op A
  look : ℕ → Op A
  wipe : Op A
  shrink : Op A

-- What a call answers: nothing, an element, or an exception.
pub data Answer (A : Type 0) : Type 0 where
  done : Answer A
  got : A → Answer A
  out_of_range : Answer A

module _ {A : Type 0} where
  abbrev pub looked : Option A → Answer A
  looked none = out_of_range
  looked (some x) = got x

  abbrev pub popped : SmartContainer A → Option (SmartContainer A) → Answer A × SmartContainer A
  popped c none = (out_of_range, c)
  popped c (some c') = (done, c')

  unfoldable pub call : A → Op A → SmartContainer A → Answer A × SmartContainer A
  unfolding push_back pop_back at clear shrink_to_fit
  call blank (push v) c = (done, push_back blank v c)
  call blank pop c = popped c (pop_back c)
  call blank (look pos) c = (looked (at c pos), c)
  call blank wipe c = (done, clear c)
  call blank shrink c = (done, shrink_to_fit blank c)

  unfoldable pub expect : Op A → List A → Answer A × List A
  expect (push v) xs = (done, xs ++ (v ∷ []))
  expect pop xs = if length xs == 0 then (out_of_range, xs) else (done, take (length xs - 1) xs)
  expect (look pos) xs = (looked (get_elem? xs pos), xs)
  expect wipe xs = (done, [])
  expect shrink xs = (done, xs)

  unfoldable pub calls : A → List (Op A) → SmartContainer A → List (Answer A)
  unfolding call
  calls blank [] c = []
  calls blank (op ∷ ops) c = let (answer, c') = call blank op c in answer ∷ calls blank ops c'

  unfoldable pub expects : List (Op A) → List A → List (Answer A)
  unfolding expect
  expects [] xs = []
  expects (op ∷ ops) xs = let (answer, ys) = expect op xs in answer ∷ expects ops ys

  length-expect : (op : Op A) (xs : List A) → length (expect op xs).1 ≤ length xs + 1
  unfolding expect
  length-expect (push v) xs = omega (arith, length-append xs (v ∷ []))
  length-expect pop xs = elim (Bool-cases (length xs == 0)) [
    | inl empty ↦ rw empty (omega arith)
    | inr held ↦ rw held (omega (arith, length-take (length xs - 1) xs))
  ]
  length-expect (look pos) xs = omega arith
  length-expect wipe xs = omega arith
  length-expect shrink xs = omega arith

  call-Holds :
      (blank : A) (op : Op A) (c : SmartContainer A) (xs : List A)
      → Holds c xs
      → 2 * length xs + 2 < 2 ^ 64
      → ((call blank op c).0 ≡ (expect op xs).0) × Holds (call blank op c).1 (expect op xs).1
  unfolding call expect
  call-Holds blank (push v) c xs h small = (refl, push_back-Holds blank v c xs h small)
  call-Holds blank pop c xs h small = elim (Bool-cases (c.size_ == 0)) [
    | inl empty ↦
        let empty' : (length xs == 0) ≡ true = ground (arith, h.size) in
        unfold pop_back is_empty in rw (empty, empty') (refl, h)
    | inr held ↦
        let held' : (length xs == 0) ≡ false = ground (arith, h.size) in
        unfold pop_back is_empty in rw (held, held') (refl, pop-Holds c xs h (ground arith))
  ]
  call-Holds blank (look pos) c xs h small = (ap looked (at_lem c xs pos h), h)
  call-Holds blank wipe c xs h small = (refl, clear-Holds c xs h)
  call-Holds blank shrink c xs h small = (refl, (shrink_to_fit-Holds blank c xs h).0)

  -- A container that holds a list answers every sequence of push_back, pop_back, at, clear and
  -- shrink_to_fit as the list does, exceptions included, as long as the list can grow by the number
  -- of calls without twice its length reaching 2^64.
  pub calls-expects :
      (blank : A) (ops : List (Op A)) (c : SmartContainer A) (xs : List A)
      → Holds c xs
      → 2 * (length xs + length ops) + 2 < 2 ^ 64
      → calls blank ops c ≡ expects ops xs
  unfolding calls expects
  calls-expects blank [] c xs h small = refl
  calls-expects blank (op ∷ ops) c xs h small =
      let step = call-Holds blank op c xs h (omega arith) in
      ap₂ (λ a rest. a ∷ rest) step.0
        (calls-expects blank ops (call blank op c).1 (expect op xs).1 step.1
          (omega (arith, length-expect op xs)))

  module _ (eq : A → A → Bool) (eq_refl : (x : A) → eq x x ≡ true) where
    eq_elements-take : (n : ℕ) (xs : List A) → eq_elements eq (take n xs) xs ≡ true
    unfolding eq_elements
    eq_elements-take zero xs = refl
    eq_elements-take (suc n) [] = refl
    eq_elements-take (suc n) (x ∷ xs) = rw (eq_refl x) (eq_elements-take n xs)

    -- A copy is equal to its source by `operator==`, when the elements' `==` is reflexive and the
    -- source holds a list of less than 2^63 - 1 elements.
    equals-copy :
        (blank : A) (other : SmartContainer A) (xs : List A)
        → Holds other xs
        → 2 * length xs + 2 < 2 ^ 64
        → equals eq (copy blank other) other ≡ true
    unfolding equals
    equals-copy blank other xs h small =
        let k = copy-Holds blank other xs h small in
        let same : ((copy blank other).size_ == other.size_) ≡ true =
          ground (arith, h.size, k.size) in
        rw (same, k.view, sym h.view) (eq_elements-take other.size_ other.data_)
