-- ===== src/Blocking/ReaderWriterLock.antt =====
-- `ReaderWriterLock` of topics/concurrency/reader_writer_lock.cpp, and threads that lock and unlock it.
pub mod Invariant
use learn_cpp.Prelude.{
  ℕ, ◌+◌, ◌-◌, ◌≡◌, Bool, true, false, not, ◌&&◌, Option, none, some, List, map, if◌then◌else◌,
  ◌==◌, get_elem?, set,
}

pub record Lock : Type 0 where
  pub readers : ℕ
  pub writing : Bool

-- `lock_read` or `lock_write`.
pub data Mode : Type 0 where
  read : Mode
  write : Mode

-- The predicate of the wait.
unfoldable pub may_enter : Mode → Lock → Bool
may_enter read l = not l.writing
may_enter write l = not l.writing && l.readers == 0

-- What follows the wait.
unfoldable pub enter : Mode → Lock → Lock
enter read l = record l { readers = l.readers + 1 }
enter write l = record l { writing = true }

-- `unlock_read` or `unlock_write`, and whether it notifies all. `readers_` is not 0 in `unlock_read`.
unfoldable pub unlock : Mode → Lock → Lock × Bool
unlock read l = (record l { readers = l.readers - 1 }, l.readers - 1 == 0)
unlock write l = (record l { writing = false }, true)

-- Where a thread stands: outside, asleep in the wait, awake to test the predicate again, or inside.
pub data Thread : Type 0 where
  outside : Thread
  asleep : Mode → Thread
  awake : Mode → Thread
  inside : Mode → Thread

pub record System : Type 0 where
  pub lock : Lock
  pub threads : List Thread

-- The test of the predicate under the mutex: the thread enters or falls asleep.
unfoldable pub attempt : Mode → ℕ → System → System
unfolding may_enter enter
attempt m t s =
    if may_enter m s.lock
    then record { lock = enter m s.lock; threads = set s.threads t (inside m) }
    else record s { threads = set s.threads t (asleep m) }

abbrev pub wake : Thread → Thread
wake outside = outside
wake (asleep m) = awake m
wake (awake m) = awake m
wake (inside m) = inside m

unfoldable pub leave : Mode → ℕ → System → System
unfolding unlock
leave m t s =
    let (lock, notify) = unlock m s.lock in
    let threads = set s.threads t outside in
    record { lock = lock; threads = if notify then map wake threads else threads }

pub data Step (s : System) : System → Type 0 where
  call : (t : ℕ) (m : Mode) → get_elem? s.threads t ≡ some outside → Step s (attempt m t s)
  retry : (t : ℕ) (m : Mode) → get_elem? s.threads t ≡ some (awake m) → Step s (attempt m t s)
  exit : (t : ℕ) (m : Mode) → get_elem? s.threads t ≡ some (inside m) → Step s (leave m t s)
  -- a wait may end without a notification
  spurious :
      (t : ℕ) (m : Mode)
      → get_elem? s.threads t ≡ some (asleep m)
      → Step s (record s { threads = set s.threads t (awake m) })
