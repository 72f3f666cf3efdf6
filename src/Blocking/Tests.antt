-- ===== src/Blocking/Tests.antt =====
-- Threads that use the classes that block.
use learn_cpp.Prelude.{ℕ, ◌≤◌, ◌≡◌, refl, ◌⊎◌, true, false, [], ◌∷◌, ◌+◌, length}
use learn_cpp.Blocking.Threads.{Notified, Reach, tally}
use learn_cpp.Blocking.BoundedBlockingQueue as BoundedBlockingQueue
use learn_cpp.Blocking.BoundedBlockingQueue.{push, pop}
use learn_cpp.Blocking.BoundedBlockingQueue.Invariant.{bounded-Sound}
use learn_cpp.Blocking.BoundedBlockingQueue.Invariant as Queue
use learn_cpp.Blocking.ThreadSafeQueue as ThreadSafeQueue
use learn_cpp.Blocking.ThreadSafeQueue.{wait_and_pop}
use learn_cpp.Blocking.ThreadSafeQueue.Invariant as Waiters
use learn_cpp.Blocking.ThreadSafeQueue.Invariant.{waiting-Sound}
use learn_cpp.Blocking.ThreadPool as ThreadPool
use learn_cpp.Blocking.ThreadPool.{submit, fetch}
use learn_cpp.Blocking.ThreadPool.Invariant as Pool
use learn_cpp.Blocking.ThreadPool.Invariant.{tasks_taken}
use learn_cpp.Blocking.ReaderWriterLock as ReaderWriterLock
use learn_cpp.Blocking.ReaderWriterLock.{attempt, leave, may_enter, Mode}
use learn_cpp.Blocking.ReaderWriterLock.Invariant.{
  is_reading, is_writing, is_reader_asleep, is_writer_asleep, writers_exclude, no_one_oversleeps,
}
use learn_cpp.Blocking.ReaderWriterLock.Invariant as Lock

-- Thread 0 reads, thread 1 sleeps until it leaves, and writes.
abbrev writing : ReaderWriterLock.System
writing =
    attempt Mode.write 1
      (leave Mode.read 0 (attempt Mode.write 1 (attempt Mode.read 0 (Lock.start 2))))

abbrev writing-Reach : Reach ReaderWriterLock.Step (Lock.start 2) writing
unfolding attempt leave
writing-Reach =
    Reach.later
      (Reach.later
        (Reach.later (Reach.later Reach.here (ReaderWriterLock.Step.call 0 Mode.read refl))
          (ReaderWriterLock.Step.call 1 Mode.write refl))
        (ReaderWriterLock.Step.exit 0 Mode.read refl))
      (ReaderWriterLock.Step.retry 1 Mode.write refl)

one_writer : tally is_writing writing.threads ≡ 1
unfolding attempt leave
one_writer = refl

writers_exclude_example :
    (tally is_writing writing.threads ≤ 1)
    × ((tally is_writing writing.threads ≡ 0) ⊎ (tally is_reading writing.threads ≡ 0))
writers_exclude_example = writers_exclude 2 writing writing-Reach

no_one_oversleeps_example :
    ((tally is_reader_asleep writing.threads ≡ 0) ⊎ (may_enter Mode.read writing.lock ≡ false))
    × ((tally is_writer_asleep writing.threads ≡ 0) ⊎ (may_enter Mode.write writing.lock ≡ false))
no_one_oversleeps_example = no_one_oversleeps 2 writing writing-Reach

-- Thread 0 pops and sleeps; thread 1 pushes and wakes it.
abbrev handed : BoundedBlockingQueue.System ℕ
handed = record {
  queue = 7 ∷ [];
  threads = BoundedBlockingQueue.Thread.pop_awake ∷ BoundedBlockingQueue.Thread.outside ∷ [];
  pushed = 7 ∷ [];
  popped = [];
}

abbrev handed-Reach : Reach (BoundedBlockingQueue.Step 3) (Queue.start 3 2) handed
unfolding push pop
handed-Reach =
    Reach.later
      (Reach.later Reach.here (
        BoundedBlockingQueue.Step.pop_waits 0 BoundedBlockingQueue.Thread.outside refl
          BoundedBlockingQueue.Popping.called refl))
      (BoundedBlockingQueue.Step.push_done 1 BoundedBlockingQueue.Thread.outside 7 (7 ∷ []) _ refl
        BoundedBlockingQueue.Pushing.called refl
        (Notified.somebody 0 BoundedBlockingQueue.Thread.pop_asleep refl refl))

bounded-Sound_example : Queue.Sound 3 handed
bounded-Sound_example = bounded-Sound 3 2 handed handed-Reach

-- A task is submitted, the worker takes it, the pool is destroyed, and the worker returns.
abbrev ended : ThreadPool.System ℕ
ended = record {
  stop = true;
  tasks = [];
  workers = ThreadPool.Worker.finished ∷ [];
  notices = 1;
  closing = true;
  submitted = 5 ∷ [];
  taken = 5 ∷ [];
}

abbrev ended-Reach : Reach ThreadPool.Step (Pool.start 1) ended
unfolding submit fetch
ended-Reach =
    Reach.later
      (Reach.later
        (Reach.later
          (Reach.later (Reach.later Reach.here (ThreadPool.Step.submit_queues 5 (5 ∷ []) refl)) (
            ThreadPool.Step.worker_takes 0 ThreadPool.Worker.ready 5 [] refl
              ThreadPool.Fetching.called refl))
          (ThreadPool.Step.worker_done 0 5 refl))
        (ThreadPool.Step.destroy_stops refl))
      (ThreadPool.Step.worker_returns 0 ThreadPool.Worker.ready refl ThreadPool.Fetching.called
        refl)

tasks_taken_example :
    ((tally Pool.is_finished ended.workers ≡ 0) ⊎ (ended.taken ≡ ended.submitted))
    × ((tally ThreadPool.is_asleep ended.workers ≡ 0)
        ⊎ (ended.closing ≡ true)
        ⊎ ((ended.stop ≡ false)
            × (length ended.tasks ≤ tally Pool.is_awake ended.workers + ended.notices)))
tasks_taken_example = tasks_taken 1 ended ended-Reach

-- A consumer sleeps, an item comes, and the consumer takes it.
abbrev delivered : ThreadSafeQueue.System ℕ
delivered = record {
  queue = [];
  done = false;
  consumers = ThreadSafeQueue.Consumer.outside ∷ [];
  pushed = 9 ∷ [];
  popped = 9 ∷ [];
}

abbrev delivered-Reach : Reach ThreadSafeQueue.Step (Waiters.start 1) delivered
unfolding ThreadSafeQueue.push wait_and_pop
delivered-Reach =
    Reach.later
      (Reach.later
        (Reach.later Reach.here (
          ThreadSafeQueue.Step.sleeps 0 ThreadSafeQueue.Consumer.outside refl
            ThreadSafeQueue.Waiting.called refl))
        (ThreadSafeQueue.Step.pushes 9 _
          (Notified.somebody 0 ThreadSafeQueue.Consumer.asleep refl refl)))
      (ThreadSafeQueue.Step.returns_true 0 ThreadSafeQueue.Consumer.awake 9 [] refl
        ThreadSafeQueue.Waiting.woken refl)

waiting-Sound_example : Waiters.Sound delivered
waiting-Sound_example = waiting-Sound 1 delivered delivered-Reach
