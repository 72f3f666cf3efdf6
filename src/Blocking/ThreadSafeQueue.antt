-- ===== src/Blocking/ThreadSafeQueue.antt =====
-- `ThreadSafeQueue` of topics/concurrency/thread_safe_queue.cpp: consumers in `wait_and_pop`, and calls of
-- the other operations by any thread.
pub mod Invariant
use learn_cpp.Prelude.{
  ℕ, ◌≡◌, Bool, true, false, Option, none, some, List, [], ◌∷◌, ◌++◌, map, if◌then◌else◌, get_elem?,
  set, length,
}
use learn_cpp.Blocking.Threads.{Notified}

-- Where a consumer stands: outside, asleep in the wait, or awake to test its predicate again.
pub data Consumer : Type 0 where
  outside : Consumer
  asleep : Consumer
  awake : Consumer

-- The queue, the consumers, and what was pushed and popped so far.
pub record System (A : Type 0) : Type 0 where
  pub queue : List A
  pub done : Bool
  pub consumers : List Consumer
  pub pushed : List A
  pub popped : List A

-- What `wait_and_pop` does under the mutex: it waits, returns false, or pops.
pub data Outcome (A : Type 0) : Type 0 where
  waits : Outcome A
  refuses : Outcome A
  pops : A → List A → Outcome A

abbrev pub is_asleep : Consumer → Bool
is_asleep asleep = true
is_asleep c = false

abbrev pub wake : Consumer → Consumer
wake asleep = awake
wake c = c

-- A consumer that calls `wait_and_pop`, or has woken up in it.
pub data Waiting : Consumer → Type 0 where
  called : Waiting outside
  woken : Waiting awake

module _ {A : Type 0} where
  unfoldable pub push : A → List A → List A
  push value queue = queue ++ value ∷ []

  -- `none` is `false`.
  unfoldable pub try_pop : List A → Option (A × List A)
  try_pop [] = none
  try_pop (value ∷ queue) = some (value, queue)

  unfoldable pub wait_and_pop : Bool → List A → Outcome A
  wait_and_pop done [] = if done then refuses else waits
  wait_and_pop done (value ∷ queue) = pops value queue

  unfoldable pub size : System A → ℕ
  size s = length s.queue

  unfoldable pub set_done : System A → System A
  set_done s = record s { done = true; consumers = map wake s.consumers }

  pub data Step (s : System A) : System A → Type 0 where
    pushes :
        (value : A) (consumers : List Consumer)
        → Notified is_asleep wake s.consumers consumers
        → Step s (record s {
          queue = push value s.queue;
          consumers = consumers;
          pushed = s.pushed ++ value ∷ [];
        })
    tries :
        (value : A) (queue : List A)
        → try_pop s.queue ≡ some (value, queue)
        → Step s (record s { queue = queue; popped = s.popped ++ value ∷ [] })
    sleeps :
        (t : ℕ) (x : Consumer)
        → get_elem? s.consumers t ≡ some x
        → Waiting x
        → wait_and_pop s.done s.queue ≡ waits
        → Step s (record s { consumers = set s.consumers t asleep })
    returns_false :
        (t : ℕ) (x : Consumer)
        → get_elem? s.consumers t ≡ some x
        → Waiting x
        → wait_and_pop s.done s.queue ≡ refuses
        → Step s (record s { consumers = set s.consumers t outside })
    returns_true :
        (t : ℕ) (x : Consumer) (value : A) (queue : List A)
        → get_elem? s.consumers t ≡ some x
        → Waiting x
        → wait_and_pop s.done s.queue ≡ pops value queue
        → Step s (record s {
          queue = queue;
          consumers = set s.consumers t outside;
          popped = s.popped ++ value ∷ [];
        })
    finishes : Step s (set_done s)
    -- a wait may end without a notification
    spurious :
        (t : ℕ)
        → get_elem? s.consumers t ≡ some asleep
        → Step s (record s { consumers = set s.consumers t awake })
