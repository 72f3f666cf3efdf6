-- ===== src/SmartContainer/Iterator.antt =====
-- The iterators of topics/memory/smart_container/SmartContainer.h. `iterator` wraps a pointer, which is
-- its offset from the start of the array here; an operation that leaves the array or the place behind
-- its last slot, undefined in the source, is `none`. `const_iterator` has the same operations.
pub mod Traversal
use Prim.Native.Nat.{compare, Ordering}
use learn_cpp.Prelude.{
  ℕ, zero, suc, ◌+◌, ◌-◌, ◌≡◌, Bool, true, false, Option, none, some, List, [], ◌∷◌, if◌then◌else◌,
  leb, length, get_elem?,
}
use learn_cpp.SmartContainer.{SmartContainer}

-- `difference_type`
pub data ℤ : Type 0 where
  pos : ℕ → ℤ
  negsuc : ℕ → ℤ

abbrev pub neg_ℤ : ℤ → ℤ
neg_ℤ (pos zero) = pos zero
neg_ℤ (pos (suc n)) = negsuc n
neg_ℤ (negsuc n) = pos (suc n)

pub record Iterator : Type 0 where
  pub ptr_ : ℕ

-- `ptr_ + n` in an array of `size` slots.
unfoldable pub offset : ℕ → ℕ → ℤ → Option ℕ
offset size ptr (pos n) = if leb (ptr + n) size then some (ptr + n) else none
offset size ptr (negsuc n) = if leb (suc n) ptr then some (ptr - suc n) else none

abbrev pub at_pointer : Option ℕ → Option Iterator
at_pointer none = none
at_pointer (some ptr) = some (record { ptr_ = ptr })

-- `operator++()`
unfoldable pub increment : ℕ → Iterator → Option Iterator
unfolding offset
increment size it = at_pointer (offset size it.ptr_ (pos 1))

-- `operator++(int)`: what it returns and the iterator after it.
unfoldable pub post_increment : ℕ → Iterator → Option (Iterator × Iterator)
unfolding increment
post_increment size it = elim (increment size it) [ none ↦ none | some next ↦ some (it, next) ]

-- `operator--()`
unfoldable pub decrement : ℕ → Iterator → Option Iterator
unfolding offset
decrement size it = at_pointer (offset size it.ptr_ (negsuc 0))

-- `operator--(int)`
unfoldable pub post_decrement : ℕ → Iterator → Option (Iterator × Iterator)
unfolding decrement
post_decrement size it = elim (decrement size it) [ none ↦ none | some next ↦ some (it, next) ]

-- `operator+=`
unfoldable pub add_assign : ℕ → Iterator → ℤ → Option Iterator
unfolding offset
add_assign size it n = at_pointer (offset size it.ptr_ n)

-- `operator-=`
unfoldable pub sub_assign : ℕ → Iterator → ℤ → Option Iterator
unfolding offset
sub_assign size it n = at_pointer (offset size it.ptr_ (neg_ℤ n))

-- `operator+`
unfoldable pub plus : ℕ → Iterator → ℤ → Option Iterator
unfolding offset
plus size it n = at_pointer (offset size it.ptr_ n)

-- `operator-` of a number
unfoldable pub minus : ℕ → Iterator → ℤ → Option Iterator
unfolding offset
minus size it n = at_pointer (offset size it.ptr_ (neg_ℤ n))

-- `operator-` of an iterator
unfoldable pub distance : Iterator → Iterator → ℤ
distance it rhs =
    if leb rhs.ptr_ it.ptr_ then pos (it.ptr_ - rhs.ptr_) else negsuc (rhs.ptr_ - it.ptr_ - 1)

-- `operator<=>`
unfoldable pub three_way : Iterator → Iterator → Ordering
three_way it rhs = compare it.ptr_ rhs.ptr_

-- `operator==`, which `operator<=>` brings along.
unfoldable pub equal : Iterator → Iterator → Bool
unfolding three_way
equal it rhs = elim (three_way it rhs) [ Ordering.eq ↦ true | _ ↦ false ]

module _ {A : Type 0} where
  -- `operator*`
  unfoldable pub deref : List A → Iterator → Option A
  deref slots it = get_elem? slots it.ptr_

  unfoldable pub begin : SmartContainer A → Iterator
  begin c = record { ptr_ = 0 }

  unfoldable pub end : SmartContainer A → Iterator
  end c = record { ptr_ = c.size_ }

  -- What a loop over a range of iterators sees, with a number of rounds.
  unfoldable pub visit : List A → ℕ → Iterator → Iterator → Option (List A)
  unfolding deref increment equal
  visit slots zero it last = none
  visit slots (suc n) it last =
      let more : Option (List A) = elim (deref slots it) [
        | none ↦ none
        | some x ↦ elim (increment (length slots) it) [
          | none ↦ none
          | some next ↦ elim (visit slots n next last) [ none ↦ none | some xs ↦ some (x ∷ xs) ]
        ]
      ] in
      if equal it last then some [] else more
