-- ===== src/Ring/MaskedRing.antt =====
-- `SPSCRing` of topics/concurrency/notes_spsc_bump_vs_double_ring.cpp, whose capacity is a power of
-- two and whose indices go round by a mask, with its batch operations.
use learn_cpp.Prelude.{
  ℕ, zero, suc, ◌+◌, ◌-◌, ◌^◌, ◌<◌, bit_and, min, ◌≡◌, sym, ◌∙◌, Bool, true, false, Option, none,
  some, List, [], ◌∷◌, ◌++◌, map, arith, if◌then◌else◌, ◌==◌, length, take, drop, append-nil,
  append_assoc, length-append, length-take, ltb, get_elem?, set, replicate, add64, bit_and-pred,
}
use native.Mathlib.Nat.{one-le-pow}
use learn_cpp.Fifo.{Fifo, Op, offer, poll, run, replies, run-replies}
use learn_cpp.Ring.Indices
use learn_cpp.Ring.Indices.{Ring, Models, push-Models, pop-Models, fresh-Models}

-- `c` is the template's `Capacity`, and `mask` is `Capacity - 1`.
module _ {ℓ} {A : Type ℓ} (c : ℕ) where
  pub init : A → Ring A
  init d = record { slots = replicate c d; write = 0; read = 0 }

  pub push : A → Ring A → Bool × Ring A
  push v s =
      let head = s.write in
      let next = bit_and (add64 head 1) (c - 1) in
      if next == s.read
      then (false, s)
      else (true, record s { slots = set s.slots head v; write = next })

  pub pop : Ring A → Bool × Option A × Ring A
  pop s =
      let tail = s.read in
      if tail == s.write
      then (false, none, s)
      else (true, get_elem? s.slots tail, record s { read = bit_and (add64 tail 1) (c - 1) })

  -- The loop of `pop_batch` with `n` places of the span left; the list is what it has written.
  pop_loop : ℕ → ℕ → List (Option A) → Ring A → ℕ × List (Option A) × Ring A
  pop_loop zero count out s = (count, out, s)
  pop_loop (suc n) count out s =
      let (popped, v, s') = pop s in
      let rest = pop_loop n (count + 1) (out ++ v ∷ []) s' in
      if popped then rest else (count, out, s')

  pub pop_batch : ℕ → Ring A → ℕ × List (Option A) × Ring A
  unfolding pop_loop
  pop_batch size s = pop_loop size 0 [] s

  push_loop : List A → ℕ → Ring A → ℕ × Ring A
  push_loop [] count s = (count, s)
  push_loop (v ∷ vs) count s =
      let (pushed, s') = push v s in
      let rest = push_loop vs (count + 1) s' in if pushed then rest else (count, s')

  pub push_batch : List A → Ring A → ℕ × Ring A
  unfolding push_loop
  push_batch vs s = push_loop vs 0 s

  module _ (k : ℕ) (pow : c ≡ 2 ^ k) where
    -- Masking is the remainder that the other rings take.
    push_modular : (x : A) (s : Ring A) → push x s ≡ Indices.push c x s
    unfolding push Indices.push
    push_modular x s = rw (bit_and-pred c k (add64 s.write 1) pow)

    pop_modular : (s : Ring A) → pop s ≡ Indices.pop c s
    unfolding pop Indices.pop
    pop_modular s = rw (bit_and-pred c k (add64 s.read 1) pow)

    push_offer :
        (x : A) (s : Ring A) (q : List A)
        → Models c s q
        → ((push x s).0 ≡ (offer (c - 1) x q).0) × Models c (push x s).1 (offer (c - 1) x q).1
    push_offer x s q m = rw push_modular (push-Models c x s q m)

    pop_poll :
        (s : Ring A) (q : List A)
        → Models c s q
        → ((pop s).0 ≡ (poll q).0) × ((pop s).1 ≡ (poll q).1) × Models c (pop s).2 (poll q).2
    pop_poll s q m = rw pop_modular (pop-Models c s q m)

    pub fifo : Fifo A (Ring A)
    fifo = record {
      room = c - 1;
      push = push;
      pop = pop;
      Models = Models c;
      push_offer = push_offer;
      pop_poll = pop_poll;
    }

    -- With a capacity that is a power of two below 2^64, no sequence of pushes and pops on a new ring
    -- can be told from a queue of Capacity - 1 items.
    pub run-masked_ring :
        (d : A) (ops : List (Op A)) → c < 2 ^ 64 → run fifo ops (init d) ≡ replies (c - 1) ops []
    unfolding fifo init
    run-masked_ring d ops small =
        run-replies fifo ops (init d) []
          (fresh-Models c d (omega (arith, pow, one-le-pow k 2)) small)

    push_loop-Models :
        (vs : List A) (r n : ℕ) (s : Ring A) (q : List A)
        → Models c s q
        → length q + r ≡ c - 1
        → ((push_loop vs n s).0 ≡ n + length (take r vs))
          × Models c (push_loop vs n s).1 (q ++ take r vs)
    unfolding push_loop
    push_loop-Models [] zero n s q m e = (omega arith, rw append-nil m)
    push_loop-Models [] (suc r) n s q m e = (omega arith, rw append-nil m)
    push_loop-Models (v ∷ vs) zero n s q m e =
        let full : ltb (length q) (c - 1) ≡ false = ground arith in
        let (b, m') = rw full at (push_offer v s q m) in rw b (omega arith, rw append-nil m')
    push_loop-Models (v ∷ vs) (suc r) n s q m e =
        let fits : ltb (length q) (c - 1) ≡ true = ground arith in
        let (b, m') = rw fits at (push_offer v s q m) in
        let (count, m'') =
          push_loop-Models vs r (n + 1) _ (q ++ v ∷ []) m'
            (omega (arith, length-append q (v ∷ []))) in
        rw b (omega (arith, count), rw append_assoc at m'')

    -- With a capacity that is a power of two, a batch push on a ring that holds a queue stores the
    -- longest prefix that fits behind it, in order, and returns its length.
    pub push_batch-Models :
        (vs : List A) (s : Ring A) (q : List A)
        → Models c s q
        → ((push_batch vs s).0 ≡ min (length vs) (c - 1 - length q))
          × Models c (push_batch vs s).1 (q ++ take (c - 1 - length q) vs)
    unfolding push_batch
    push_batch-Models vs s q m =
        let (count, m') = push_loop-Models vs (c - 1 - length q) 0 s q m (omega (arith, m.room)) in
        (omega (arith, count, length-take (c - 1 - length q) vs), m')

    pop_loop-Models :
        (size n : ℕ) (out : List (Option A)) (s : Ring A) (q : List A)
        → Models c s q
        → ((pop_loop size n out s).0 ≡ n + length (take size q))
          × ((pop_loop size n out s).1 ≡ out ++ map some (take size q))
          × Models c (pop_loop size n out s).2 (drop size q)
    unfolding pop_loop
    pop_loop-Models zero n out s q m = (omega arith, sym (append-nil out), m)
    pop_loop-Models (suc size) n out s [] m =
        let (b, o, m') = pop_poll s [] m in rw b (omega arith, sym (append-nil out), m')
    pop_loop-Models (suc size) n out s (x ∷ q) m =
        let (b, o, m') = pop_poll s (x ∷ q) m in
        let (count, written, m'') = pop_loop-Models size (n + 1) (out ++ some x ∷ []) _ q m' in
        rw (b, o) (omega (arith, count), written ∙ append_assoc out (some x ∷ []) _, m'')

    -- With a capacity that is a power of two, a batch pop on a ring that holds a queue writes the oldest
    -- items, in order, as many as there are up to the span's size, takes them off and returns how many.
    pub pop_batch-Models :
        (size : ℕ) (s : Ring A) (q : List A)
        → Models c s q
        → ((pop_batch size s).0 ≡ min size (length q))
          × ((pop_batch size s).1 ≡ map some (take size q))
          × Models c (pop_batch size s).2 (drop size q)
    unfolding pop_batch
    pop_batch-Models size s q m =
        let (count, written, m') = pop_loop-Models size 0 [] s q m in
        (omega (arith, count, length-take size q), written, m')
