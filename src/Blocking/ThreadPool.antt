-- ===== src/Blocking/ThreadPool.antt =====
-- `ThreadPool` of topics/concurrency/thread_pool.cpp: its workers, and threads that submit tasks and
-- destroy the pool. A task is a value; what it does is not modelled.
pub mod Invariant
use learn_cpp.Prelude.{
  ℕ, suc, ◌≡◌, Bool, true, false, Option, none, some, List, [], ◌∷◌, ◌++◌, map, if◌then◌else◌,
  get_elem?, set,
}
use learn_cpp.Blocking.Threads.{Notified}

-- Where a worker stands: before the wait, asleep in it, awake to test its predicate again, in a task, or
-- at its end.
pub data Worker (A : Type 0) : Type 0 where
  ready : Worker A
  asleep : Worker A
  awake : Worker A
  running : A → Worker A
  finished : Worker A

-- The pool, the calls of `submit` and of the destructor that are about to notify, and what was submitted
-- and taken so far.
pub record System (A : Type 0) : Type 0 where
  pub stop : Bool
  pub tasks : List A
  pub workers : List (Worker A)
  pub notices : ℕ
  pub closing : Bool
  pub submitted : List A
  pub taken : List A

-- What a worker does under the mutex.
pub data Fetch (A : Type 0) : Type 0 where
  waits : Fetch A
  returns : Fetch A
  takes : A → List A → Fetch A

module _ {A : Type 0} where
  -- The wait and the lines behind it.
  unfoldable pub fetch : Bool → List A → Fetch A
  fetch stop [] = if stop then returns else waits
  fetch stop (task ∷ tasks) = takes task tasks

  -- What `submit` does to the queue, or nothing when it throws.
  unfoldable pub submit : A → Bool → List A → Option (List A)
  submit task stop tasks = if stop then none else some (tasks ++ task ∷ [])

  abbrev pub is_asleep : Worker A → Bool
  is_asleep asleep = true
  is_asleep w = false

  abbrev pub wake : Worker A → Worker A
  wake asleep = awake
  wake w = w

  -- A worker that comes to the wait, or has woken up in it.
  pub data Fetching : Worker A → Type 0 where
    called : Fetching ready
    woken : Fetching awake

  pub data Step (s : System A) : System A → Type 0 where
    submit_queues :
        (task : A) (tasks : List A)
        → submit task s.stop s.tasks ≡ some tasks
        → Step s (record s {
          tasks = tasks;
          notices = suc s.notices;
          submitted = s.submitted ++ task ∷ [];
        })
    submit_notifies :
        (notices : ℕ) (workers : List (Worker A))
        → s.notices ≡ suc notices
        → Notified is_asleep wake s.workers workers
        → Step s (record s { notices = notices; workers = workers })
    worker_waits :
        (t : ℕ) (x : Worker A)
        → get_elem? s.workers t ≡ some x
        → Fetching x
        → fetch s.stop s.tasks ≡ waits
        → Step s (record s { workers = set s.workers t asleep })
    worker_takes :
        (t : ℕ) (x : Worker A) (task : A) (tasks : List A)
        → get_elem? s.workers t ≡ some x
        → Fetching x
        → fetch s.stop s.tasks ≡ takes task tasks
        → Step s (record s {
          tasks = tasks;
          workers = set s.workers t (running task);
          taken = s.taken ++ task ∷ [];
        })
    worker_returns :
        (t : ℕ) (x : Worker A)
        → get_elem? s.workers t ≡ some x
        → Fetching x
        → fetch s.stop s.tasks ≡ returns
        → Step s (record s { workers = set s.workers t finished })
    worker_done :
        (t : ℕ) (task : A)
        → get_elem? s.workers t ≡ some (running task)
        → Step s (record s { workers = set s.workers t ready })
    destroy_stops : s.stop ≡ false → Step s (record s { stop = true; closing = true })
    destroy_notifies :
        s.closing ≡ true → Step s (record s { closing = false; workers = map wake s.workers })
    -- a wait may end without a notification
    spurious :
        (t : ℕ)
        → get_elem? s.workers t ≡ some asleep
        → Step s (record s { workers = set s.workers t awake })
