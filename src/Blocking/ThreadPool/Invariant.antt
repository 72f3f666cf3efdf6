-- ===== src/Blocking/ThreadPool/Invariant.antt =====
-- The invariant of `ThreadPool`: the tasks that were taken, and who sleeps.
use learn_cpp.Prelude.{
  ℕ, ◌+◌, ◌≤◌, ◌≡◌, refl, sym, ◌∙◌, ap, ◌⊎◌, inl, inr, Bool, true, false, some, List, [], ◌∷◌, ◌++◌,
  append-nil, append_assoc, replicate, length, length-append, arith,
}
use learn_cpp.Blocking.Threads.{
  tally, tally-set, tally-set_same, tally-set_le, tally-map, tally-map_none, tally-replicate,
  Notified-same, Notified-wakes, Reach, Reach-keep,
}
use learn_cpp.Blocking.ThreadPool.{
  Worker, System, Fetch, fetch, submit, is_asleep, wake, Fetching, Step,
}

module _ {A : Type 0} where
  abbrev pub is_awake : Worker A → Bool
  is_awake Worker.awake = true
  is_awake w = false

  abbrev pub is_finished : Worker A → Bool
  is_finished Worker.finished = true
  is_finished w = false

  -- What was taken and then what is queued is what was submitted; no worker sleeps, or the destructor is
  -- about to notify, or the pool is open and for each task a worker is awake or a notification to come; no
  -- worker is at its end, or the pool is stopped and its queue is empty.
  pub record Sound (s : System A) : Type 0 where
    pub order : s.taken ++ s.tasks ≡ s.submitted
    pub asleep :
        (tally is_asleep s.workers ≡ 0)
        ⊎ (s.closing ≡ true)
        ⊎ ((s.stop ≡ false) × (length s.tasks ≤ tally is_awake s.workers + s.notices))
    pub finished : (tally is_finished s.workers ≡ 0) ⊎ ((s.stop ≡ true) × (length s.tasks ≡ 0))

  fetch-waits :
      (stop : Bool) (tasks : List A)
      → fetch stop tasks ≡ Fetch.waits
      → (stop ≡ false) × (length tasks ≡ 0)
  unfolding fetch
  fetch-waits stop [] e = (ground arith, refl)
  fetch-waits stop (x ∷ tasks) e = ground arith

  fetch-returns :
      (stop : Bool) (tasks : List A)
      → fetch stop tasks ≡ Fetch.returns
      → (stop ≡ true) × (length tasks ≡ 0)
  unfolding fetch
  fetch-returns stop [] e = (ground arith, refl)
  fetch-returns stop (x ∷ tasks) e = ground arith

  fetch-takes :
      (stop : Bool) (tasks rest : List A) (task : A)
      → fetch stop tasks ≡ Fetch.takes task rest
      → tasks ≡ task ∷ rest
  unfolding fetch
  fetch-takes stop [] rest task e = ground arith
  fetch-takes stop (x ∷ tasks) rest task e =
      ap (λ o. elim o [ Fetch.takes a q ↦ a ∷ q | _ ↦ x ∷ tasks ]) e

  submit-some :
      (task : A) (stop : Bool) (tasks more : List A)
      → submit task stop tasks ≡ some more
      → (stop ≡ false) × (tasks ++ task ∷ [] ≡ more)
  unfolding submit
  submit-some task stop tasks more e = (grind arith, grind arith)

  Fetching-free : (x : Worker A) → Fetching x → (is_asleep x ≡ false) × (is_finished x ≡ false)
  Fetching-free _ Fetching.called = (refl, refl)
  Fetching-free _ Fetching.woken = (refl, refl)

  wake-is_finished : (x : Worker A) → is_finished (wake x) ≡ is_finished x
  wake-is_finished Worker.ready = refl
  wake-is_finished Worker.asleep = refl
  wake-is_finished Worker.awake = refl
  wake-is_finished (Worker.running task) = refl
  wake-is_finished Worker.finished = refl

  wake-is_asleep : (x : Worker A) → is_asleep (wake x) ≡ false
  wake-is_asleep Worker.ready = refl
  wake-is_asleep Worker.asleep = refl
  wake-is_asleep Worker.awake = refl
  wake-is_asleep (Worker.running task) = refl
  wake-is_asleep Worker.finished = refl

  wake-woken :
      (x : Worker A)
      → is_asleep x ≡ true
      → (is_asleep (wake x) ≡ false) × (is_awake x ≡ false) × (is_awake (wake x) ≡ true)
  wake-woken Worker.ready e = ground arith
  wake-woken Worker.asleep e = (refl, refl, refl)
  wake-woken Worker.awake e = ground arith
  wake-woken (Worker.running task) e = ground arith
  wake-woken Worker.finished e = ground arith

  step-Sound : (s u : System A) → Step s u → Sound s → Sound u
  step-Sound s _ (Step.submit_queues task tasks e) sound =
      let queued = submit-some task s.stop s.tasks tasks e in
      let longer = ap length queued.1 in
      let size = length-append s.tasks (task ∷ []) in
      record {
        order =
            ap (λ q. s.taken ++ q) (sym queued.1)
            ∙ sym (append_assoc s.taken s.tasks (task ∷ []))
            ∙ ap (λ q. q ++ task ∷ []) sound.order;
        asleep = ground (arith, longer, size, sound.asleep);
        finished = ground (arith, queued.0, sound.finished);
      }
  step-Sound s _ (Step.submit_notifies notices workers e notified) sound =
      let same =
        Notified-same is_asleep is_finished wake s.workers workers wake-is_finished notified in
      let woken = Notified-wakes is_asleep is_awake wake s.workers workers wake-woken notified in
      record {
        order = sound.order;
        asleep = ground (arith, woken, e, sound.asleep);
        finished = ground (arith, same, sound.finished);
      }
  step-Sound s _ (Step.worker_waits t x h f e) sound =
      let idle = fetch-waits s.stop s.tasks e in
      let same = tally-set_same is_finished s.workers t x Worker.asleep h (Fetching-free x f).1 in
      record {
        order = sound.order;
        asleep = inr (inr (idle.0, omega (arith, idle.1)));
        finished = ground (arith, same, sound.finished);
      }
  step-Sound s _ (Step.worker_takes t x task tasks h f e) sound =
      let free = Fetching-free x f in
      let queued = fetch-takes s.stop s.tasks tasks task e in
      let shorter = ap length queued in
      let asleep = tally-set_same is_asleep s.workers t x (Worker.running task) h free.0 in
      let awake = tally-set_le is_awake s.workers t x (Worker.running task) h in
      let same = tally-set_same is_finished s.workers t x (Worker.running task) h free.1 in
      record {
        order =
            append_assoc s.taken (task ∷ []) tasks
            ∙ ap (λ q. s.taken ++ q) (sym queued)
            ∙ sound.order;
        asleep = ground (arith, shorter, asleep, awake, sound.asleep);
        finished = ground (arith, shorter, same, sound.finished);
      }
  step-Sound s _ (Step.worker_returns t x h f e) sound =
      let done = fetch-returns s.stop s.tasks e in
      let asleep = tally-set_same is_asleep s.workers t x Worker.finished h (Fetching-free x f).0 in
      record {
        order = sound.order;
        asleep = ground (arith, done.0, asleep, sound.asleep);
        finished = inr done;
      }
  step-Sound s _ (Step.worker_done t task h) sound =
      let asleep = tally-set is_asleep s.workers t (Worker.running task) Worker.ready h in
      let awake = tally-set is_awake s.workers t (Worker.running task) Worker.ready h in
      let same = tally-set is_finished s.workers t (Worker.running task) Worker.ready h in
      record {
        order = sound.order;
        asleep = ground (arith, asleep, awake, sound.asleep);
        finished = ground (arith, same, sound.finished);
      }
  step-Sound s _ (Step.destroy_stops e) sound = record {
    order = sound.order;
    asleep = inr (inl refl);
    finished = ground (arith, e, sound.finished);
  }
  step-Sound s _ (Step.destroy_notifies e) sound =
      let same = tally-map is_finished is_finished wake s.workers wake-is_finished in
      record {
        order = sound.order;
        asleep = inl (tally-map_none is_asleep wake s.workers wake-is_asleep);
        finished = ground (arith, same, sound.finished);
      }
  step-Sound s _ (Step.spurious t h) sound =
      let asleep = tally-set is_asleep s.workers t Worker.asleep Worker.awake h in
      let awake = tally-set is_awake s.workers t Worker.asleep Worker.awake h in
      let same = tally-set is_finished s.workers t Worker.asleep Worker.awake h in
      record {
        order = sound.order;
        asleep = ground (arith, asleep, awake, sound.asleep);
        finished = ground (arith, same, sound.finished);
      }

  -- A pool of n workers without tasks.
  abbrev pub start : ℕ → System A
  start n = record {
    stop = false;
    tasks = [];
    workers = replicate n Worker.ready;
    notices = 0;
    closing = false;
    submitted = [];
    taken = [];
  }

  start-Sound : (n : ℕ) → Sound (start n)
  start-Sound n = record {
    order = refl;
    asleep = inl (tally-replicate is_asleep n Worker.ready refl);
    finished = inl (tally-replicate is_finished n Worker.ready refl);
  }

  reached-Sound : (n : ℕ) (s : System A) → Reach Step (start n) s → Sound s
  reached-Sound n s r = Reach-keep Step Sound step-Sound (start n) s r (start-Sound n)

  none_left : (tasks : List A) → length tasks ≡ 0 → tasks ≡ []
  none_left [] e = refl
  none_left (x ∷ tasks) e = absurd (omega arith)

  -- In every state that a pool of n workers reaches: no worker is at its end, or every task that was
  -- submitted has been taken, in the order of the submissions; and no worker sleeps, or the destructor is
  -- about to notify all, or the pool is open and for each queued task a worker is awake in the wait or a
  -- `submit` is about to notify.
  pub tasks_taken :
      (n : ℕ) (s : System A)
      → Reach Step (start n) s
      → ((tally is_finished s.workers ≡ 0) ⊎ (s.taken ≡ s.submitted))
        × ((tally is_asleep s.workers ≡ 0)
            ⊎ (s.closing ≡ true)
            ⊎ ((s.stop ≡ false) × (length s.tasks ≤ tally is_awake s.workers + s.notices)))
  tasks_taken n s r =
      let sound = reached-Sound n s r in
      (
        elim sound.finished [
          | inl none_there ↦ inl none_there
          | inr (stopped, e) ↦ inr (
              sym (append-nil s.taken)
              ∙ ap (λ q. s.taken ++ q) (sym (none_left s.tasks e))
              ∙ sound.order)
        ],
        sound.asleep,
      )
