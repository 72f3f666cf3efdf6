-- ===== src/Ring/Indices.antt =====
-- A ring with two indices and one slot kept free: its queue, and that a push and a pop which take
-- the remainder by the capacity keep it. The classes below `Ring` are proved from this.
use learn_cpp.Prelude.{
  ℕ, suc, ◌+◌, ◌-◌, ◌%◌, ◌^◌, ◌<◌, ◌≡◌, refl, sym, ap, ◌∙◌, Bool-cases, inl, inr, Bool, true, false,
  Option, none, List, [], ◌∷◌, ◌++◌, arith, if◌then◌else◌, ◌==◌, length, get_elem?, set, length-set,
  replicate, length-replicate, length-append, add64, ltb,
}
use learn_cpp.Fifo.{offer, poll}
use learn_cpp.Ring.Window.{Along, Along-push, next_slot, first_slot, slot-ne, slot_here, slot_turn}

-- The array, and the two atomic indices.
pub record Ring {ℓ} (A : Type ℓ) : Type ℓ where
  pub slots : List A
  pub write : ℕ
  pub read : ℕ

module _ {ℓ} {A : Type ℓ} (c : ℕ) where
  unfoldable pub push : A → Ring A → Bool × Ring A
  push x s =
      let next = add64 s.write 1 % c in
      if next == s.read
      then (false, s)
      else (true, record s { slots = set s.slots s.write x; write = next })

  unfoldable pub pop : Ring A → Bool × Option A × Ring A
  pop s =
      if s.read == s.write
      then (false, none, s)
      else (true, get_elem? s.slots s.read, record s { read = add64 s.read 1 % c })

  -- The ring holds the items of `q`, oldest first.
  pub record Models (s : Ring A) (q : List A) : Type ℓ where
    pub sized : length s.slots ≡ c
    pub small : c < 2 ^ 64
    pub read_in : s.read < c
    pub write_at : s.write ≡ (s.read + length q) % c
    pub room : length q < c
    pub stored : Along (λ (x y : A). y ≡ x) c s.slots s.read q

  pub next_write :
      (s : Ring A) (q : List A) → Models s q → add64 s.write 1 % c ≡ (s.read + suc (length q)) % c
  next_write s q m =
      let plain : add64 s.write 1 ≡ s.write + 1 = omega (arith, m.write_at, m.small, m.read_in) in
      rw (plain, m.write_at) (next_slot s.read (length q) c (omega arith))

  pub write_in : (s : Ring A) (q : List A) → Models s q → s.write < c
  write_in s q m = omega (arith, m.write_at, m.read_in)

  -- A full ring refuses.
  push_full :
      (x : A) (s : Ring A) (q : List A) → Models s q → suc (length q) ≡ c → push x s ≡ (false, s)
  unfolding push
  push_full x s q m e =
      let met : (add64 s.write 1 % c == s.read) ≡ true =
        ground (arith, next_write s q m, e, slot_turn s.read c m.read_in) in
      rw met

  push_room :
      (x : A) (s : Ring A) (q : List A)
      → Models s q
      → suc (length q) < c
      → push x s ≡ (true, record s { slots = set s.slots s.write x; write = add64 s.write 1 % c })
  unfolding push
  push_room x s q m lt =
      let apart : (add64 s.write 1 % c == s.read) ≡ false =
        ground (arith, next_write s q m, slot-ne s.read (length q) c m.read_in lt) in
      rw apart

  pushed :
      (x : A) (s : Ring A) (q : List A)
      → Models s q
      → suc (length q) < c
      → Models
          (record s { slots = set s.slots s.write x; write = add64 s.write 1 % c })
          (q ++ x ∷ [])
  pushed x s q m lt = record {
    sized = length-set s.slots s.write x ∙ m.sized;
    small = m.small;
    read_in = m.read_in;
    write_at =
        next_write s q m
        ∙ ap (λ (t : ℕ). (s.read + t) % c) (omega (arith, length-append q (x ∷ [])));
    room = omega (arith, length-append q (x ∷ []));
    stored =
        Along-push (λ (x y : A). y ≡ x) c s.slots m.sized q s.read s.write x x m.read_in m.write_at
          m.room refl m.stored;
  }

  pub push-Models :
      (x : A) (s : Ring A) (q : List A)
      → Models s q
      → ((push x s).0 ≡ (offer (c - 1) x q).0) × Models (push x s).1 (offer (c - 1) x q).1
  push-Models x s q m = elim (Bool-cases (ltb (length q) (c - 1))) [
    | inl fits ↦
        let lt : suc (length q) < c = ground arith in
        rw (fits, push_room x s q m lt) (refl, pushed x s q m lt)
    | inr full ↦
        let e : suc (length q) ≡ c = ground (arith, m.room) in
        rw (full, push_full x s q m e) (refl, m)
  ]

  pub pop-Models :
      (s : Ring A) (q : List A)
      → Models s q
      → ((pop s).0 ≡ (poll q).0) × ((pop s).1 ≡ (poll q).1) × Models (pop s).2 (poll q).2
  unfolding pop
  pop-Models s [] m =
      let met : (s.read == s.write) ≡ true =
        ground (arith, m.write_at, slot_here s.read c m.read_in) in
      rw met (refl, refl, m)
  pop-Models s (x ∷ q) m =
      let ((y, at, e), rest) = m.stored in
      let apart : (s.read == s.write) ≡ false =
        ground (arith, m.write_at, slot-ne s.read (length q) c m.read_in m.room) in
      let plain : add64 s.read 1 ≡ s.read + 1 = omega (arith, m.small, m.read_in) in
      rw (apart, at, e, plain)
        (
          refl,
          refl,
          record {
            sized = m.sized;
            small = m.small;
            read_in = omega (arith, m.read_in);
            write_at = m.write_at ∙ sym (first_slot s.read (length q) c);
            room = omega (arith, m.room);
            stored = rest;
          },
        )

  -- A new ring, its slots filled with `d`, is empty.
  pub fresh-Models :
      (d : A)
      → 0 < c
      → c < 2 ^ 64
      → Models (record { slots = replicate c d; write = 0; read = 0 }) []
  fresh-Models d pos small = record {
    sized = length-replicate c d;
    small = small;
    read_in = pos;
    write_at = sym (slot_here 0 c pos);
    room = pos;
    stored = tt;
  }
