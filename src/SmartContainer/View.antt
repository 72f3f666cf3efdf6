-- ===== src/SmartContainer/View.antt =====
-- A container holds a list: what each operation of SmartContainer.h does to it.
use learn_cpp.Prelude.{
  ℕ, zero, suc, ◌+◌, ◌-◌, ◌*◌, ◌%◌, ◌^◌, ◌≤◌, ◌<◌, ◌≡◌, refl, ap, sym, ◌∙◌, subst, none, List, [],
  ◌∷◌, ◌++◌, if◌then◌else◌, ◌==◌, leb, ltb, add64, length, get_elem?, set, replicate, take,
  length-set, length-replicate, length-take, length-append, append_assoc, append-nil, arith,
  Bool-cases, ==→eq, inl, inr,
}
use learn_cpp.SmartContainer.{
  SmartContainer, empty_container, copy_to, at, clear, reserve, shrink_to_fit, push_back, push_all,
  from_list, copy,
}

grown_room :
    (size cap : ℕ)
    → size ≡ cap
    → 2 * size + 2 < 2 ^ 64
    → size < (if cap == 0 then 1 else cap * 2 % 2 ^ 64)
grown_room size cap e small = ground arith

module _ {A : Type 0} where
  length-copy_to : (xs slots : List A) → length (copy_to xs slots) ≡ length slots
  unfolding copy_to
  length-copy_to [] slots = refl
  length-copy_to (x ∷ xs) [] = refl
  length-copy_to (x ∷ xs) (s ∷ slots) = ap suc (length-copy_to xs slots)

  take-copy_to :
      (xs slots : List A) → length xs ≤ length slots → take (length xs) (copy_to xs slots) ≡ xs
  unfolding copy_to
  take-copy_to [] slots le = refl
  take-copy_to (x ∷ xs) [] le = absurd (omega arith)
  take-copy_to (x ∷ xs) (s ∷ slots) le = ap (λ ys. x ∷ ys) (take-copy_to xs slots (omega arith))

  take-set :
      (i : ℕ) (xs : List A) (v : A)
      → i < length xs
      → take (suc i) (set xs i v) ≡ take i xs ++ (v ∷ [])
  take-set i [] v lt = absurd (omega arith)
  take-set zero (x ∷ xs) v lt = refl
  take-set (suc i) (x ∷ xs) v lt = ap (λ ys. x ∷ ys) (take-set i xs v (omega arith))

  take-take : (m n : ℕ) (xs : List A) → m ≤ n → take m (take n xs) ≡ take m xs
  take-take zero n xs le = refl
  take-take (suc m) zero xs le = absurd (omega arith)
  take-take (suc m) (suc n) [] le = refl
  take-take (suc m) (suc n) (x ∷ xs) le = ap (λ ys. x ∷ ys) (take-take m n xs (omega arith))

  get_elem?-take : (n i : ℕ) (xs : List A) → i < n → get_elem? (take n xs) i ≡ get_elem? xs i
  get_elem?-take zero i xs lt = absurd (omega arith)
  get_elem?-take (suc n) i [] lt = refl
  get_elem?-take (suc n) zero (x ∷ xs) lt = refl
  get_elem?-take (suc n) (suc i) (x ∷ xs) lt = get_elem?-take n i xs (omega arith)

  get_elem?-end : (xs : List A) (i : ℕ) → length xs ≤ i → get_elem? xs i ≡ none
  get_elem?-end [] i le = refl
  get_elem?-end (x ∷ xs) zero le = absurd (omega arith)
  get_elem?-end (x ∷ xs) (suc i) le = get_elem?-end xs i (omega arith)

  -- The array has its capacity, the size fits, and the first elements are the list.
  pub record Holds (c : SmartContainer A) (xs : List A) : Type 0 where
    pub slots : length c.data_ ≡ c.capacity_
    pub fits : c.size_ ≤ c.capacity_
    pub size : c.size_ ≡ length xs
    pub view : take c.size_ c.data_ ≡ xs

  pub empty-Holds : Holds empty_container []
  empty-Holds = record { slots = refl; fits = omega arith; size = refl; view = refl }

  pub at_lem :
      (c : SmartContainer A) (xs : List A) (pos : ℕ) → Holds c xs → at c pos ≡ get_elem? xs pos
  unfolding at
  at_lem c xs pos h = elim (Bool-cases (leb c.size_ pos)) [
    | inl out ↦ rw out (sym (get_elem?-end xs pos (ground (arith, h.size))))
    | inr inside ↦ rw inside (
        sym (get_elem?-take c.size_ pos c.data_ (ground arith))
        ∙ ap (λ ys. get_elem? ys pos) h.view)
  ]

  pub clear-Holds : (c : SmartContainer A) (xs : List A) → Holds c xs → Holds (clear c) []
  unfolding clear
  clear-Holds c xs h = record { slots = h.slots; fits = omega arith; size = refl; view = refl }

  pub pop-Holds :
      (c : SmartContainer A) (xs : List A)
      → Holds c xs
      → 0 < c.size_
      → Holds (record c { size_ = c.size_ - 1 }) (take (length xs - 1) xs)
  pop-Holds c xs h pos = record {
    slots = h.slots;
    fits = omega (arith, h.fits);
    size = omega (arith, h.size, length-take (length xs - 1) xs);
    view =
        sym (take-take (c.size_ - 1) c.size_ c.data_ (omega arith))
        ∙ ap (take (c.size_ - 1)) h.view
        ∙ ap (λ n. take (n - 1) xs) h.size;
  }

  module _ (blank : A) where
    relocated :
        (c : SmartContainer A) (xs : List A) (n : ℕ)
        → Holds c xs
        → c.size_ ≤ n
        → Holds
            (record c { data_ = copy_to (take c.size_ c.data_) (replicate n blank); capacity_ = n })
            xs
    relocated c xs n h le = record {
      slots = length-copy_to (take c.size_ c.data_) (replicate n blank) ∙ length-replicate n blank;
      fits = le;
      size = h.size;
      view =
          rw (h.view, h.size)
            (take-copy_to xs (replicate n blank) (omega (arith, length-replicate n blank, h.size)));
    }

    pub reserve-Holds :
        (n : ℕ) (c : SmartContainer A) (xs : List A)
        → Holds c xs
        → Holds (reserve blank n c) xs
          × ((reserve blank n c).size_ ≡ c.size_)
          × (n ≤ (reserve blank n c).capacity_)
    unfolding reserve
    reserve-Holds n c xs h = elim (Bool-cases (leb n c.capacity_)) [
      | inl enough ↦ rw enough (h, refl, ground arith)
      | inr short ↦
          let le : c.size_ ≤ n = ground (arith, h.fits) in
          rw short (relocated c xs n h le, refl, omega arith)
    ]

    pub shrink_to_fit-Holds :
        (c : SmartContainer A) (xs : List A)
        → Holds c xs
        → Holds (shrink_to_fit blank c) xs × ((shrink_to_fit blank c).capacity_ ≡ length xs)
    unfolding shrink_to_fit
    shrink_to_fit-Holds c xs h = elim (Bool-cases (ltb c.size_ c.capacity_)) [
      | inl slack ↦ rw slack (relocated c xs c.size_ h (omega arith), h.size)
      | inr tight ↦ rw tight (h, ground (arith, h.fits, h.size))
    ]

    written :
        (c : SmartContainer A) (xs : List A) (v : A)
        → Holds c xs
        → c.size_ < c.capacity_
        → c.size_ + 1 < 2 ^ 64
        → Holds
            (record c { data_ = set c.data_ c.size_ v; size_ = add64 c.size_ 1 })
            (xs ++ (v ∷ []))
    written c xs v h room small =
        let next : add64 c.size_ 1 ≡ suc c.size_ = omega arith in
        rw next (record {
          slots = length-set c.data_ c.size_ v ∙ h.slots;
          fits = omega arith;
          size = omega (arith, h.size, length-append xs (v ∷ []));
          view =
              take-set c.size_ c.data_ v (omega (arith, h.slots))
              ∙ ap (λ ys. ys ++ (v ∷ [])) h.view;
        })

    pub push_back-Holds :
        (v : A) (c : SmartContainer A) (xs : List A)
        → Holds c xs
        → 2 * length xs + 2 < 2 ^ 64
        → Holds (push_back blank v c) (xs ++ (v ∷ []))
    unfolding push_back
    push_back-Holds v c xs h small =
        let grown : ℕ = if c.capacity_ == 0 then 1 else c.capacity_ * 2 % 2 ^ 64 in
        elim (Bool-cases (c.size_ == c.capacity_)) [
          | inl full ↦
              let got = reserve-Holds grown c xs h in
              rw full (
                written (reserve blank grown c) xs v got.0
                  (omega (
                    arith,
                    got.1,
                    got.2,
                    grown_room c.size_ c.capacity_ (==→eq c.size_ c.capacity_ full)
                        (omega (arith, h.size)),
                  ))
                  (omega (arith, got.1, h.size)))
          | inr room ↦ rw room (written c xs v h (ground (arith, h.fits)) (omega (arith, h.size)))
        ]

    pub push_all-Holds :
        (ys : List A) (c : SmartContainer A) (xs : List A)
        → Holds c xs
        → 2 * (length xs + length ys) + 2 < 2 ^ 64
        → Holds (push_all blank ys c) (xs ++ ys)
    unfolding push_all
    push_all-Holds [] c xs h small = rw (append-nil xs) h
    push_all-Holds (y ∷ ys) c xs h small =
        subst (Holds (push_all blank ys (push_back blank y c))) (append_assoc xs (y ∷ []) ys) (
          push_all-Holds ys (push_back blank y c) (xs ++ (y ∷ []))
            (push_back-Holds y c xs h (omega arith)) (omega (arith, length-append xs (y ∷ []))))

    pub from_list-Holds :
        (ilist : List A) → 2 * length ilist + 2 < 2 ^ 64 → Holds (from_list blank ilist) ilist
    unfolding from_list
    from_list-Holds ilist small =
        push_all-Holds ilist _ [] (reserve-Holds (length ilist) empty_container [] empty-Holds).0
          (omega arith)

    -- The copy holds what the source holds.
    pub copy-Holds :
        (other : SmartContainer A) (xs : List A)
        → Holds other xs
        → 2 * length xs + 2 < 2 ^ 64
        → Holds (copy blank other) xs
    unfolding copy
    copy-Holds other xs h small = rw h.view (
        push_all-Holds xs _ [] (reserve-Holds other.size_ empty_container [] empty-Holds).0
          (omega arith))
