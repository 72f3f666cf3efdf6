-- ===== src/Ring/SpscQueue.antt =====
-- `SPSCQueue` of extras/latency/common.hpp: the masked ring over pointers. `A` is the type of the
-- pointers that are not null; `pop` returns null, here `none`, on an empty queue.
use native.Mathlib.Nat.{one-le-pow}
use learn_cpp.Prelude.{
  ℕ, ◌-◌, ◌^◌, ◌<◌, bit_and, ◌≡◌, refl, ap, ◌∙◌, Bool, true, false, Option, none, some, List, [],
  ◌∷◌, arith, if◌then◌else◌, ◌==◌, get_elem?, set, replicate, add64, bit_and-pred,
}
use learn_cpp.Fifo.{Fifo, Op, offer, poll, run, replies, run-replies}
use learn_cpp.Ring.Indices
use learn_cpp.Ring.Indices.{Ring, Models, push-Models, pop-Models, fresh-Models}

-- `n` is the template's `N`, and `mask_` is `N - 1`.
module _ {ℓ} {A : Type ℓ} (n : ℕ) where
  pub init : A → Ring A
  init d = record { slots = replicate n d; write = 0; read = 0 }

  pub push : A → Ring A → Bool × Ring A
  push item s =
      let w = s.write in
      let next_w = bit_and (add64 w 1) (n - 1) in
      if next_w == s.read
      then (false, s)
      else (true, record s { slots = set s.slots w item; write = next_w })

  pub pop : Ring A → Option A × Ring A
  pop s =
      let r = s.read in
      if r == s.write
      then (none, s)
      else (get_elem? s.slots r, record s { read = bit_and (add64 r 1) (n - 1) })

  -- A caller of `pop` takes a pointer that is not null for an item.
  abbrev is_some : Option A → Bool
  is_some none = false
  is_some (some x) = true

  is_some-poll : (q : List A) → is_some (poll q).1 ≡ (poll q).0
  is_some-poll [] = refl
  is_some-poll (x ∷ q) = refl

  abbrev receive : Ring A → Bool × Option A × Ring A
  receive s = let (item, s') = pop s in (is_some item, item, s')

  module _ (k : ℕ) (pow : n ≡ 2 ^ k) where
    push_offer :
        (x : A) (s : Ring A) (q : List A)
        → Models n s q
        → ((push x s).0 ≡ (offer (n - 1) x q).0) × Models n (push x s).1 (offer (n - 1) x q).1
    unfolding push Indices.push
    push_offer x s q m = rw (bit_and-pred n k (add64 s.write 1) pow) (push-Models n x s q m)

    pop_indices :
        (s : Ring A) → ((pop s).0 ≡ (Indices.pop n s).1) × ((pop s).1 ≡ (Indices.pop n s).2)
    unfolding pop Indices.pop
    pop_indices s = rw (bit_and-pred n k (add64 s.read 1) pow) (ground arith, ground arith)

    -- A null pointer comes exactly from an empty queue, and then nothing moves.
    pub pop_poll :
        (s : Ring A) (q : List A)
        → Models n s q
        → ((receive s).0 ≡ (poll q).0)
          × ((receive s).1 ≡ (poll q).1)
          × Models n (receive s).2 (poll q).2
    pop_poll s q m =
        let (item, left) = pop_indices s in
        let (b, o, m') = pop-Models n s q m in
        (ap is_some (item ∙ o) ∙ is_some-poll q, item ∙ o, rw left m')

    pub fifo : Fifo A (Ring A)
    fifo = record {
      room = n - 1;
      push = push;
      pop = receive;
      Models = Models n;
      push_offer = push_offer;
      pop_poll = pop_poll;
    }

    -- With N a power of two, no sequence of pushes and pops on a new queue can be told from a
    -- queue of N - 1 pointers; `pop` returns null exactly when it is empty.
    run-spsc_queue :
        (d : A) (ops : List (Op A)) → n < 2 ^ 64 → run fifo ops (init d) ≡ replies (n - 1) ops []
    unfolding fifo init
    run-spsc_queue d ops small =
        run-replies fifo ops (init d) []
          (fresh-Models n d (omega (arith, pow, one-le-pow k 2)) small)
