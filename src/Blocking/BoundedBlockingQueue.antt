-- ===== src/Blocking/BoundedBlockingQueue.antt =====
-- `BoundedBlockingQueue` of topics/concurrency/bounded_blocking_queue.cpp, and threads that push and pop.
pub mod Wakes
pub mod Invariant
use learn_cpp.Prelude.{
  ℕ, ◌+◌, ◌≡◌, Bool, true, false, Option, none, some, List, [], ◌∷◌, ◌++◌, if◌then◌else◌, ltb,
  length, get_elem?, set,
}
use learn_cpp.Blocking.Threads.{Notified}

-- Where a thread stands: outside, asleep in a wait, or awake to test its predicate again.
pub data Thread (A : Type 0) : Type 0 where
  outside : Thread A
  push_asleep : A → Thread A
  push_awake : A → Thread A
  pop_asleep : Thread A
  pop_awake : Thread A

-- The queue, the threads, and what was pushed and popped so far.
pub record System (A : Type 0) : Type 0 where
  pub queue : List A
  pub threads : List (Thread A)
  pub pushed : List A
  pub popped : List A

module _ {A : Type 0} where
  -- What `push` does to the queue, or nothing when it waits.
  unfoldable pub push : ℕ → A → List A → Option (List A)
  push max_size value queue =
      if ltb (length queue) max_size then some (queue ++ value ∷ []) else none

  -- What `pop` takes and leaves, or nothing when it waits.
  unfoldable pub pop : List A → Option (A × List A)
  pop [] = none
  pop (value ∷ queue) = some (value, queue)

  abbrev pub is_push_asleep : Thread A → Bool
  is_push_asleep (push_asleep v) = true
  is_push_asleep t = false

  abbrev pub is_pop_asleep : Thread A → Bool
  is_pop_asleep pop_asleep = true
  is_pop_asleep t = false

  abbrev pub wake_push : Thread A → Thread A
  wake_push (push_asleep v) = push_awake v
  wake_push t = t

  abbrev pub wake_pop : Thread A → Thread A
  wake_pop pop_asleep = pop_awake
  wake_pop t = t

  -- A thread that calls `push v`, or has woken up in it.
  pub data Pushing (v : A) : Thread A → Type 0 where
    called : Pushing v outside
    woken : Pushing v (push_awake v)

  pub data Popping : Thread A → Type 0 where
    called : Popping outside
    woken : Popping pop_awake

  pub data Step (max_size : ℕ) (s : System A) : System A → Type 0 where
    push_done :
        (t : ℕ) (x : Thread A) (v : A) (queue : List A) (threads : List (Thread A))
        → get_elem? s.threads t ≡ some x
        → Pushing v x
        → push max_size v s.queue ≡ some queue
        → Notified is_pop_asleep wake_pop (set s.threads t outside) threads
        → Step max_size s
            (record s { queue = queue; threads = threads; pushed = s.pushed ++ v ∷ [] })
    push_waits :
        (t : ℕ) (x : Thread A) (v : A)
        → get_elem? s.threads t ≡ some x
        → Pushing v x
        → push max_size v s.queue ≡ none
        → Step max_size s (record s { threads = set s.threads t (push_asleep v) })
    pop_done :
        (t : ℕ) (x : Thread A) (v : A) (queue : List A) (threads : List (Thread A))
        → get_elem? s.threads t ≡ some x
        → Popping x
        → pop s.queue ≡ some (v, queue)
        → Notified is_push_asleep wake_push (set s.threads t outside) threads
        → Step max_size s
            (record s { queue = queue; threads = threads; popped = s.popped ++ v ∷ [] })
    pop_waits :
        (t : ℕ) (x : Thread A)
        → get_elem? s.threads t ≡ some x
        → Popping x
        → pop s.queue ≡ none
        → Step max_size s (record s { threads = set s.threads t pop_asleep })
    -- a wait may end without a notification
    push_spurious :
        (t : ℕ) (v : A)
        → get_elem? s.threads t ≡ some (push_asleep v)
        → Step max_size s (record s { threads = set s.threads t (push_awake v) })
    pop_spurious :
        (t : ℕ)
        → get_elem? s.threads t ≡ some pop_asleep
        → Step max_size s (record s { threads = set s.threads t pop_awake })
