-- ===== src/Ring/WaitFreeSpscQueue.antt =====
-- `WaitFreeSPSCQueue` of topics/concurrency/waitfree_spsc_queue.cpp: a flag in each slot says
-- whether it is taken, so no slot has to stay free.
use native.Mathlib.Nat.{mod-add-mod}
use learn_cpp.Prelude.{
  ℕ, zero, suc, ◌+◌, ◌-◌, ◌%◌, ◌^◌, ◌≤◌, ◌<◌, ◌≡◌, refl, sym, ap, ◌∙◌, subst, Bool, true, false,
  Option, none, some, List, [], ◌∷◌, ◌++◌, arith, if◌then◌else◌, ltb, length, length-set,
  length-append, get_elem?, set, replicate, length-replicate, add64, Bool-cases, inl, inr,
}
use learn_cpp.Fifo.{Fifo, Op, offer, poll, run, replies, run-replies}
use learn_cpp.Ring.Indices.{Ring}
use learn_cpp.Ring.Window.{
  Along, Along-set, Along-push, Along-all, next_slot, first_slot, slot_turn, slot_here,
}

pub record Slot {ℓ} (A : Type ℓ) : Type ℓ where
  pub ready : Bool
  pub value : A

abbrev free : ℕ → List (Unit {0})
free n = replicate n tt

free_snoc : (n : ℕ) → free n ++ tt ∷ [] ≡ free (suc n)
free_snoc zero = refl
free_snoc (suc n) = ap (◌∷◌ tt) (free_snoc n)

-- Taking `n` slots and then the others is a full turn.
turn : (i n c : ℕ) → i < c → n ≤ c → i ≡ ((i + n) % c + (c - n)) % c
turn i n c h le =
    sym (mod-add-mod (i + n) c (c - n) ∙ ap (λ (t : ℕ). t % c) (omega arith) ∙ slot_turn i c h)

get_elem?-replicate {ℓ} :
    {A : Type ℓ} (n i : ℕ) (a : A) → i < n → get_elem? (replicate n a) i ≡ some a
get_elem?-replicate zero i a h = elim h [ ]
get_elem?-replicate (suc n) zero a h = refl
get_elem?-replicate (suc n) (suc i) a h = get_elem?-replicate n i a (omega arith)

module _ {ℓ} {A : Type ℓ} where
  -- A slot behind the reader, which the writer may take.
  abbrev IsFree : Unit {0} → Slot A → Type 0
  IsFree _ slot = slot.ready ≡ false

  abbrev HoldsItem : A → Slot A → Type ℓ
  HoldsItem x slot = (slot.ready ≡ true) × (slot.value ≡ x)

  -- The test of the flag, on the slot at the index (`none` is an index out of the vector, which the
  -- program never reads).
  enqueue_at : Option (Slot A) → ℕ → A → Ring (Slot A) → Bool × Ring (Slot A)
  enqueue_at none next value s = (false, s)
  enqueue_at (some slot) next value s = if slot.ready then (false, s) else (
    true,
    record s { slots = set s.slots s.write (record { ready = true; value = value }); write = next },
  )

  dequeue_at : Option (Slot A) → ℕ → Ring (Slot A) → Bool × Option A × Ring (Slot A)
  dequeue_at none next s = (false, none, s)
  dequeue_at (some slot) next s =
      if slot.ready
      then (
        true,
        some slot.value,
        record s { slots = set s.slots s.read (record slot { ready = false }); read = next },
      )
      else (false, none, s)

  -- `c` is the template's `Capacity`.
  module _ (c : ℕ) where
    pub init : A → Ring (Slot A)
    init d = record {
      slots = replicate c (record { ready = false; value = d });
      write = 0;
      read = 0;
    }

    pub enqueue : A → Ring (Slot A) → Bool × Ring (Slot A)
    unfolding enqueue_at
    enqueue value s = let w = s.write in enqueue_at (get_elem? s.slots w) (add64 w 1 % c) value s

    pub dequeue : Ring (Slot A) → Bool × Option A × Ring (Slot A)
    unfolding dequeue_at
    dequeue s = let r = s.read in dequeue_at (get_elem? s.slots r) (add64 r 1 % c) s

    pub record Models (s : Ring (Slot A)) (q : List A) : Type ℓ where
      pub sized : length s.slots ≡ c
      pub small : c < 2 ^ 64
      pub read_in : s.read < c
      pub write_at : s.write ≡ (s.read + length q) % c
      pub room : length q ≤ c
      pub taken : Along HoldsItem c s.slots s.read q
      pub open_slots : Along IsFree c s.slots s.write (free (c - length q))

    -- The slot that the reader leaves is free, and follows the other free slots.
    freed :
        (s : Ring (Slot A)) (n : ℕ)
        → length s.slots ≡ c
        → s.read < c
        → s.write ≡ (s.read + suc n) % c
        → suc n ≤ c
        → (v : Slot A) → v.ready ≡ false
        → Along IsFree c s.slots s.write (free (c - suc n))
        → Along IsFree c (set s.slots s.read v) s.write (free (c - n))
    freed s n sized read_in write_at room v idle a =
        subst (Along IsFree c (set s.slots s.read v) s.write)
          (free_snoc (c - suc n) ∙ ap free {x = suc (c - suc n)} (omega arith))
          (Along-push IsFree c s.slots sized (free (c - suc n)) s.write s.read tt v
            (omega (arith, write_at, read_in))
            (rw (write_at, length-replicate) (turn s.read (suc n) c read_in room))
            (omega (arith, length-replicate {0} (c - suc n) tt)) idle a)

    enqueued :
        (x : A) (s : Ring (Slot A)) (q : List A)
        → Models s q
        → length q < c
        → add64 s.write 1 ≡ s.write + 1
        → Along IsFree c s.slots ((s.write + 1) % c) (free (c - suc (length q)))
        → Models
            (record s {
              slots = set s.slots s.write (record { ready = true; value = x });
              write = add64 s.write 1 % c;
            })
            (q ++ x ∷ [])
    enqueued x s q m lt plain rest =
        let n : ℕ = length q in
        let longer : length (q ++ x ∷ []) ≡ suc n = omega (arith, length-append q (x ∷ [])) in
        let fewer : c - suc n ≤ c - 1 = omega arith in
        record {
          sized = length-set s.slots s.write _ ∙ m.sized;
          small = m.small;
          read_in = m.read_in;
          write_at = rw (plain, longer, m.write_at) (next_slot s.read n c (omega arith));
          room = omega (arith, longer);
          taken =
              Along-push HoldsItem c s.slots m.sized q s.read s.write x _ m.read_in m.write_at lt
                (refl, refl) m.taken;
          open_slots =
              rw (plain, longer)
                (Along-set IsFree c s.slots m.sized (free (c - suc n)) ((s.write + 1) % c) s.write
                  (c - 1) _ (omega (arith, m.write_at))
                  (turn s.write 1 c (omega (arith, m.write_at)) (omega arith))
                  (rw length-replicate fewer) (omega arith) rest);
        }

    opened :
        (s : Ring (Slot A)) (q : List A)
        → Models s q
        → (k : ℕ) → c - length q ≡ suc k
        → Along IsFree c s.slots s.write (free (suc k))
    opened s q m k e = subst (λ n. Along IsFree c s.slots s.write (free n)) e m.open_slots

    -- In a full queue the writer meets the oldest item.
    blocked :
        (s : Ring (Slot A)) (q : List A)
        → Models s q
        → length q ≡ c
        → (slot : Slot A) × (get_elem? s.slots s.write ≡ some slot) × (slot.ready ≡ true)
    blocked s [] m e = absurd (omega (arith, m.read_in))
    blocked s (x ∷ q) m e =
        let ((slot, at, (set_flag, _)), rest) = m.taken in
        let back : s.write ≡ s.read =
          m.write_at ∙ ap (λ (t : ℕ). (s.read + t) % c) e ∙ slot_turn s.read c m.read_in in
        (slot, ap (get_elem? s.slots) back ∙ at, set_flag)

    enqueue-Models :
        (x : A) (s : Ring (Slot A)) (q : List A)
        → Models s q
        → ((enqueue x s).0 ≡ (offer c x q).0) × Models (enqueue x s).1 (offer c x q).1
    unfolding enqueue
    enqueue-Models x s q m = elim (Bool-cases (ltb (length q) c)) [
      | inl fits ↦
          let k : ℕ = c - suc (length q) in
          let ((slot, at, idle), rest) = opened s q m k (ground arith) in
          let plain : add64 s.write 1 ≡ s.write + 1 =
            omega (arith, m.write_at, m.small, m.read_in) in
          rw (fits, at, enqueue_at, idle) (refl, enqueued x s q m (ground arith) plain rest)
      | inr full ↦
          let (slot, at, busy) = blocked s q m (ground (arith, m.room)) in
          rw (full, at, enqueue_at, busy) (refl, m)
    ]

    dequeued :
        (x : A) (s : Ring (Slot A)) (q : List A)
        → Models s (x ∷ q)
        → (slot : Slot A) → add64 s.read 1 ≡ s.read + 1
        → Along HoldsItem c s.slots ((s.read + 1) % c) q
        → Models
            (record s {
              slots = set s.slots s.read (record slot { ready = false });
              read = add64 s.read 1 % c;
            })
            q
    dequeued x s q m slot plain rest =
        let n : ℕ = length q in
        let pos : 0 < c = omega (arith, m.read_in) in
        let v : Slot A = record slot { ready = false } in
        record {
          sized = length-set s.slots s.read _ ∙ m.sized;
          small = m.small;
          read_in = omega (arith, pos);
          write_at = rw plain (m.write_at ∙ sym (first_slot s.read n c));
          room = omega (arith, m.room);
          taken = rw plain (
              Along-set HoldsItem c s.slots m.sized q ((s.read + 1) % c) s.read (c - 1) v
                (omega (arith, pos)) (turn s.read 1 c m.read_in pos) (omega (arith, m.room))
                (omega arith) rest);
          open_slots = freed s n m.sized m.read_in m.write_at m.room v refl m.open_slots;
        }

    dequeue-Models :
        (s : Ring (Slot A)) (q : List A)
        → Models s q
        → ((dequeue s).0 ≡ (poll q).0)
          × ((dequeue s).1 ≡ (poll q).1)
          × Models (dequeue s).2 (poll q).2
    unfolding dequeue
    dequeue-Models s [] m =
        let ((slot, at, idle), rest) = opened s [] m (c - 1) (omega (arith, m.read_in)) in
        let same : s.read ≡ s.write = sym (m.write_at ∙ slot_here s.read c m.read_in) in
        rw (ap (get_elem? s.slots) same ∙ at, dequeue_at, idle) (refl, refl, m)
    dequeue-Models s (x ∷ q) m =
        let ((slot, at, (busy, e)), rest) = m.taken in
        let plain : add64 s.read 1 ≡ s.read + 1 = omega (arith, m.small, m.read_in) in
        rw (at, dequeue_at, busy) (refl, ap some e, dequeued x s q m slot plain rest)

    pub fifo : Fifo A (Ring (Slot A))
    fifo = record {
      room = c;
      push = enqueue;
      pop = dequeue;
      Models = Models;
      push_offer = enqueue-Models;
      pop_poll = dequeue-Models;
    }

    -- With a capacity from 1 to 2^64 - 1, from a new queue no sequence of `enqueue` and `dequeue` can be
    -- told from a queue of Capacity items: all slots are used, unlike in the rings that compare their
    -- indices.
    pub run-wait_free_queue :
        (d : A) (ops : List (Op A)) → 0 < c → c < 2 ^ 64 → run fifo ops (init d) ≡ replies c ops []
    unfolding fifo init
    run-wait_free_queue d ops pos small = run-replies fifo ops (init d) [] (record {
      sized = length-replicate c _;
      small = small;
      read_in = pos;
      write_at = sym (slot_here 0 c pos);
      room = omega arith;
      taken = tt;
      open_slots =
          Along-all IsFree c _ (free (c - 0)) 0 (λ j b h. (_, get_elem?-replicate c j _ h, refl))
            pos;
    })
