-- ===== src/SmartContainer/Iterator/Traversal.antt =====
-- Moves of an iterator and back, and a loop over a container.
use learn_cpp.Prelude.{
  ℕ, zero, suc, ◌+◌, ◌-◌, ◌<◌, ◌≤◌, ◌≡◌, refl, ◌∙◌, ap, Bool-cases, inl, inr, true, Option, none,
  some, List, [], ◌∷◌, leb, ◌==◌, length, get_elem?, take, drop, arith,
}
use learn_cpp.SmartContainer.{SmartContainer}
use learn_cpp.SmartContainer.View.{Holds}
use learn_cpp.SmartContainer.Iterator.{
  ℤ, pos, negsuc, neg_ℤ, Iterator, offset, plus, minus, distance, deref, begin, end, visit,
  increment, equal, at_pointer,
}

-- A pointer that has been moved by n stays in the array and comes back by -n.
offset-back :
    (size ptr next : ℕ) (n : ℤ)
    → ptr ≤ size
    → offset size ptr n ≡ some next
    → (next ≤ size) × (offset size next (neg_ℤ n) ≡ some ptr)
unfolding offset
offset-back size ptr next (pos zero) h e = (grind arith, grind arith)
offset-back size ptr next (pos (suc n)) h e = (grind arith, grind arith)
offset-back size ptr next (negsuc n) h e = (grind arith, grind arith)

-- The distance from a pointer to where it has been moved.
distance-offset :
    (size ptr next : ℕ) (n : ℤ)
    → offset size ptr n ≡ some next
    → distance (record { ptr_ = next }) (record { ptr_ = ptr }) ≡ n
unfolding offset distance
distance-offset size ptr next (pos n) e =
    let there : next ≡ ptr + n = grind arith in rw there (grind arith)
distance-offset size ptr next (negsuc n) e =
    let there : ptr ≡ next + suc n = grind arith in rw there (grind arith)

at_pointer-some : (o : Option ℕ) (it : Iterator) → at_pointer o ≡ some it → o ≡ some it.ptr_
at_pointer-some none it e = ground arith
at_pointer-some (some ptr) it e =
    ap some (ap {B = ℕ} (λ i. elim i [ none ↦ ptr | some next ↦ next.ptr_ ]) e)

-- When an iterator in an array plus n is in the array, that minus n is the iterator, and the distance
-- from the iterator to it is n.
pub minus-plus :
    (size : ℕ) (it next : Iterator) (n : ℤ)
    → it.ptr_ ≤ size
    → plus size it n ≡ some next
    → (minus size next n ≡ some it) × (distance next it ≡ n)
unfolding plus minus distance offset
minus-plus size it next n h e =
    let moved = at_pointer-some (offset size it.ptr_ n) next e in
    let back = offset-back size it.ptr_ next.ptr_ n h moved in
    (ap at_pointer back.1, distance-offset size it.ptr_ next.ptr_ n moved)

drop-get :
    {A : Type 0} (xs : List A) (i : ℕ)
    → i < length xs
    → (x : A) × (get_elem? xs i ≡ some x) × (drop i xs ≡ x ∷ drop (suc i) xs)
drop-get [] i h = absurd (omega arith)
drop-get (x ∷ xs) zero h = (x, refl, refl)
drop-get (x ∷ xs) (suc i) h = drop-get xs i (omega arith)

visit-drop :
    {A : Type 0} (n i : ℕ) (slots : List A) (last : ℕ)
    → i ≤ last
    → i + n ≡ suc last
    → last ≤ length slots
    → visit slots n (record { ptr_ = i }) (record { ptr_ = last })
      ≡ some (take (last - i) (drop i slots))
unfolding visit equal deref increment offset
visit-drop zero i slots last h e fits = absurd (omega arith)
visit-drop (suc n) i slots last h e fits = elim (Bool-cases (i == last)) [
  | inl t ↦ let none_left : last - i ≡ 0 = ground arith in rw (t, none_left) refl
  | inr f ↦
      let (x, here, split) = drop-get slots i (ground arith) in
      let room : leb (i + 1) (length slots) ≡ true = ground arith in
      let rest = visit-drop n (suc i) slots last (ground arith) (omega arith) fits in
      let one_more : last - i ≡ suc (last - suc i) = ground arith in
      let next : i + 1 ≡ suc i = omega arith in rw (f, here, room, next, rest, one_more, split) refl
]

-- A loop from `begin` to `end` visits the elements that the container holds, in order, and returns.
pub visit-begin-end :
    {A : Type 0} (c : SmartContainer A) (xs : List A)
    → Holds c xs
    → visit c.data_ (suc c.size_) (begin c) (end c) ≡ some xs
unfolding begin end
visit-begin-end c xs held =
    let slots = held.slots in
    let fits = held.fits in
    let all : c.size_ - 0 ≡ c.size_ = omega arith in
    visit-drop (suc c.size_) 0 c.data_ c.size_ (omega arith) (omega arith) (omega arith)
    ∙ ap (λ n. some (take n c.data_)) all
    ∙ ap some held.view
