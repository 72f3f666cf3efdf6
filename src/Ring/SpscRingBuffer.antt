-- ===== src/Ring/SpscRingBuffer.antt =====
-- `SPSCRingBuffer` of topics/concurrency/lockfree_spsc_ring_buffer.cpp.
use learn_cpp.Prelude.{
  ℕ, ◌-◌, ◌%◌, ◌^◌, ◌<◌, ◌≡◌, ◌↔◌, refl, Bool, true, false, Option, none, List, [], ◌∷◌, length,
  arith, if◌then◌else◌, ◌==◌, get_elem?, set, replicate, add64,
}
use learn_cpp.Fifo.{Fifo, Op, run, replies, run-replies}
use learn_cpp.Ring.Indices
use learn_cpp.Ring.Window.{slot-ne, slot_here}
use learn_cpp.Ring.Indices.{Ring, Models, push-Models, pop-Models, fresh-Models}

-- `c` is the template's `Capacity`.
module _ {ℓ} {A : Type ℓ} (c : ℕ) where
  unfoldable pub init : A → Ring A
  init d = record { slots = replicate c d; write = 0; read = 0 }

  pub push : A → Ring A → Bool × Ring A
  push value s =
      let w = s.write in
      let next = add64 w 1 % c in
      if next == s.read
      then (false, s)
      else (true, record s { slots = set s.slots w value; write = next })

  pub pop : Ring A → Bool × Option A × Ring A
  pop s =
      let r = s.read in
      if r == s.write
      then (false, none, s)
      else (true, get_elem? s.slots r, record s { read = add64 r 1 % c })

  pub empty : Ring A → Bool
  empty s = s.read == s.write

  pub fifo : Fifo A (Ring A)
  unfolding push pop Indices.push Indices.pop
  fifo = record {
    room = c - 1;
    push = push;
    pop = pop;
    Models = Models c;
    push_offer = push-Models c;
    pop_poll = pop-Models c;
  }

  -- From a new ring no sequence of pushes and pops can be told from a queue of Capacity - 1 items.
  run-spsc_ring_buffer :
      (d : A) (ops : List (Op A))
      → 0 < c
      → c < 2 ^ 64
      → run fifo ops (init d) ≡ replies (c - 1) ops []
  unfolding fifo init
  run-spsc_ring_buffer d ops pos small =
      run-replies fifo ops (init d) [] (fresh-Models c d pos small)

  -- `empty` answers whether the queue that the ring holds is empty.
  pub empty-Models : (s : Ring A) (q : List A) → Models c s q → (empty s ≡ true) ↔ (q ≡ [])
  unfolding empty
  empty-Models s [] m = (λ _. refl, λ _. ground (arith, m.write_at, slot_here s.read c m.read_in))
  empty-Models s (x ∷ q) m = (
    λ h. absurd (ground (arith, m.write_at, slot-ne s.read (length q) c m.read_in m.room)),
    λ e. cc,
  )
