-- ===== src/Ring/RingBuffer.antt =====
-- `RingBuffer` of topics/language/spsc_ring_buffer.cpp. The acquire and release orders of the
-- atomic indices are left out: within one thread a load reads the last store.
use learn_cpp.Prelude.{
  ℕ, ◌-◌, ◌%◌, ◌^◌, ◌<◌, ◌≡◌, refl, ◌∙◌, Bool, true, false, Option, none, List, [], arith,
  if◌then◌else◌, ◌==◌, get_elem?, set, replicate, add64,
}
use learn_cpp.Fifo.{Fifo, Op, run, replies, run-replies}
use learn_cpp.Ring.Indices
use learn_cpp.Ring.Indices.{Ring, Models, push-Models, pop-Models, fresh-Models}

pub record RingBuffer {ℓ} (A : Type ℓ) : Type ℓ where
  pub buffer : List A
  pub capacity : ℕ
  pub head : ℕ
  pub tail : ℕ

module _ {ℓ} {A : Type ℓ} where
  -- The constructor; `d` is the default value that fills the vector.
  pub init : ℕ → A → RingBuffer A
  init capacity d = record {
    buffer = replicate capacity d;
    capacity = capacity;
    head = 0;
    tail = 0;
  }

  pub push : A → RingBuffer A → Bool × RingBuffer A
  push value r =
      let next = add64 r.head 1 % r.capacity in
      if next == r.tail
      then (false, r)
      else (true, record r { buffer = set r.buffer r.head value; head = next })

  pub pop : RingBuffer A → Bool × Option A × RingBuffer A
  pop r =
      if r.tail == r.head
      then (false, none, r)
      else (true, get_elem? r.buffer r.tail, record r { tail = add64 r.tail 1 % r.capacity })

  -- The pair that the monitor prints.
  pub indices : RingBuffer A → ℕ × ℕ
  indices r = (r.tail, r.head)

  abbrev ring : RingBuffer A → Ring A
  ring r = record { slots = r.buffer; write = r.head; read = r.tail }

  module _ (c : ℕ) where
    abbrev Holds : RingBuffer A → List A → Type ℓ
    Holds r q = (r.capacity ≡ c) × Models c (ring r) q

    push_ring :
        (x : A) (r : RingBuffer A)
        → r.capacity ≡ c
        → ((push x r).0 ≡ (Indices.push c x (ring r)).0)
          × (ring (push x r).1 ≡ (Indices.push c x (ring r)).1)
          × ((push x r).1.capacity ≡ c)
    unfolding push Indices.push
    push_ring x r e = ground arith

    pop_ring :
        (r : RingBuffer A)
        → r.capacity ≡ c
        → ((pop r).0 ≡ (Indices.pop c (ring r)).0)
          × ((pop r).1 ≡ (Indices.pop c (ring r)).1)
          × (ring (pop r).2 ≡ (Indices.pop c (ring r)).2)
          × ((pop r).2.capacity ≡ c)
    unfolding pop Indices.pop
    pop_ring r e = ground arith

    pub fifo : Fifo A (RingBuffer A)
    fifo = record {
      room = c - 1;
      push = push;
      pop = pop;
      Models = Holds;
      push_offer = λ x r q (e, m).
          let (b, s, k) = push_ring x r e in
          let (b', m') = push-Models c x (ring r) q m in (b ∙ b', (k, rw s m'));
      pop_poll = λ r q (e, m).
          let (b, o, s, k) = pop_ring r e in
          let (b', o', m') = pop-Models c (ring r) q m in (b ∙ b', o ∙ o', (k, rw s m'));
    }

  -- From a new buffer no sequence of pushes and pops can be told from a queue of capacity - 1 items.
  run-ring_buffer :
      (c : ℕ) (d : A) (ops : List (Op A))
      → 0 < c
      → c < 2 ^ 64
      → run (fifo c) ops (init c d) ≡ replies (c - 1) ops []
  unfolding fifo init
  run-ring_buffer c d ops pos small =
      run-replies (fifo c) ops (init c d) [] (refl, fresh-Models c d pos small)
