-- ===== src/SmartContainer.antt =====
-- topics/memory/smart_container/SmartContainer.h: a dynamic array over `std::unique_ptr<T[]>`.
-- The array is a list of `capacity_` slots, empty for a null pointer; `blank` is the value of the
-- slots that `new T[n]` makes. Access past the array, undefined in the source, is `none` here.
pub mod View
pub mod Contract
pub mod Assign
pub mod Iterator
pub mod Tests
use learn_cpp.Prelude.{
  ℕ, zero, suc, ◌+◌, ◌-◌, ◌*◌, ◌%◌, ◌^◌, ◌≡◌, Bool, true, false, not, ◌&&◌, Option, none, some,
  List, [], ◌∷◌, if◌then◌else◌, ◌==◌, leb, ltb, add64, length, get_elem?, set, replicate, take,
}

pub record SmartContainer (A : Type 0) : Type 0 where
  pub data_ : List A
  pub size_ : ℕ
  pub capacity_ : ℕ

module _ {A : Type 0} where
  abbrev pub empty_container : SmartContainer A
  empty_container = record { data_ = []; size_ = 0; capacity_ = 0 }

  -- The elements of the first list over the front of the second.
  unfoldable pub copy_to : List A → List A → List A
  copy_to [] slots = slots
  copy_to (x ∷ xs) [] = []
  copy_to (x ∷ xs) (s ∷ slots) = x ∷ copy_to xs slots

  unfoldable pub is_empty : SmartContainer A → Bool
  is_empty c = c.size_ == 0

  -- `operator[]`
  unfoldable pub index : SmartContainer A → ℕ → Option A
  index c pos = get_elem? c.data_ pos

  -- `none` is `std::out_of_range`.
  unfoldable pub at : SmartContainer A → ℕ → Option A
  at c pos = if leb c.size_ pos then none else get_elem? c.data_ pos

  unfoldable pub front : SmartContainer A → Option A
  front c = get_elem? c.data_ 0

  unfoldable pub back : SmartContainer A → Option A
  back c = get_elem? c.data_ (c.size_ - 1)

  -- `none` is `std::out_of_range`.
  unfoldable pub pop_back : SmartContainer A → Option (SmartContainer A)
  unfolding is_empty
  pop_back c = if is_empty c then none else some (record c { size_ = c.size_ - 1 })

  unfoldable pub clear : SmartContainer A → SmartContainer A
  clear c = record c { size_ = 0 }

  -- `swap` of both containers.
  unfoldable pub swap : SmartContainer A → SmartContainer A → SmartContainer A × SmartContainer A
  swap c other = (
    record { data_ = other.data_; size_ = other.size_; capacity_ = other.capacity_ },
    record { data_ = c.data_; size_ = c.size_; capacity_ = c.capacity_ },
  )

  -- The move constructor: the new container and the one that it was made from.
  unfoldable pub move : SmartContainer A → SmartContainer A × SmartContainer A
  move other = (
    record { data_ = other.data_; size_ = other.size_; capacity_ = other.capacity_ },
    record { data_ = []; size_ = 0; capacity_ = 0 },
  )

  -- Move assignment from another container: this one and the other one.
  unfoldable pub move_assign :
      SmartContainer A → SmartContainer A → SmartContainer A × SmartContainer A
  move_assign c other = (
    record c { data_ = other.data_; size_ = other.size_; capacity_ = other.capacity_ },
    record { data_ = []; size_ = 0; capacity_ = 0 },
  )

  module _ (blank : A) where
    unfoldable pub reserve : ℕ → SmartContainer A → SmartContainer A
    unfolding copy_to
    reserve new_cap c = if leb new_cap c.capacity_ then c else record c {
      data_ = copy_to (take c.size_ c.data_) (replicate new_cap blank);
      capacity_ = new_cap;
    }

    unfoldable pub shrink_to_fit : SmartContainer A → SmartContainer A
    unfolding copy_to
    shrink_to_fit c =
        if ltb c.size_ c.capacity_
        then record c {
          data_ = copy_to (take c.size_ c.data_) (replicate c.size_ blank);
          capacity_ = c.size_;
        }
        else c

    -- Both `push_back` overloads and `emplace_back`, which differ in how the value is made.
    unfoldable pub push_back : A → SmartContainer A → SmartContainer A
    unfolding reserve
    push_back value c =
        let grown : ℕ = if c.capacity_ == 0 then 1 else c.capacity_ * 2 % 2 ^ 64 in
        let r = if c.size_ == c.capacity_ then reserve grown c else c in
        record r { data_ = set r.data_ r.size_ value; size_ = add64 r.size_ 1 }

    unfoldable pub push_all : List A → SmartContainer A → SmartContainer A
    unfolding push_back
    push_all [] c = c
    push_all (x ∷ xs) c = push_all xs (push_back x c)

    -- The constructor from an initializer list.
    unfoldable pub from_list : List A → SmartContainer A
    unfolding reserve push_all
    from_list ilist = push_all ilist (reserve (length ilist) empty_container)

    -- The loop `for (i = 0; i < other.size_; ++i) push_back(other.data_[i])`
    unfoldable pub copy : SmartContainer A → SmartContainer A
    unfolding reserve push_all
    copy other = push_all (take other.size_ other.data_) (reserve other.size_ empty_container)

    -- Copy assignment from another container, by copy and swap. From itself it does nothing.
    unfoldable pub copy_assign : SmartContainer A → SmartContainer A → SmartContainer A
    unfolding copy swap
    copy_assign c other = (swap c (copy other)).0

  module _ (eq : A → A → Bool) where
    unfoldable pub eq_elements : List A → List A → Bool
    eq_elements [] ys = true
    eq_elements (x ∷ xs) [] = false
    eq_elements (x ∷ xs) (y ∷ ys) = if eq x y then eq_elements xs ys else false

    -- `operator==`
    unfoldable pub equals : SmartContainer A → SmartContainer A → Bool
    unfolding eq_elements
    equals c rhs =
        if c.size_ == rhs.size_ then eq_elements (take c.size_ c.data_) rhs.data_ else false
