-- ===== src/Blocking/BoundedBlockingQueue/Invariant.antt =====
-- The invariant of `BoundedBlockingQueue`: its bound, its order, and who sleeps.
use learn_cpp.Prelude.{
  ℕ, ◌+◌, ◌<◌, ◌≤◌, ◌≡◌, refl, sym, ◌∙◌, ap, ◌⊎◌, inl, inr, none, some, List, [], ◌∷◌, ◌++◌,
  append_assoc, replicate, length, length-append, get_elem?, set, arith,
}
use learn_cpp.Blocking.Threads.{
  tally, tally-set, tally-replicate, tally-set_same, tally-set_le, Notified, Notified-same,
  Notified-wakes, Reach, Reach-keep,
}
use learn_cpp.Blocking.BoundedBlockingQueue.{
  Thread, System, push, pop, is_push_asleep, is_pop_asleep, wake_push, wake_pop, Pushing, Popping,
  Step,
}
use learn_cpp.Blocking.BoundedBlockingQueue.Wakes.{
  is_push_awake, is_pop_awake, Pushing-free, Popping-free, wake_pop-kept, wake_push-kept,
  wake_pop-woken, wake_push-woken,
}

module _ {A : Type 0} where
  module _ (max_size : ℕ) where
    -- The bound, the order, and: no `push` sleeps or as many are awake as there is room for, and no `pop`
    -- sleeps or as many are awake as there are items.
    pub record Sound (s : System A) : Type 0 where
      pub fits : length s.queue ≤ max_size
      pub order : s.popped ++ s.queue ≡ s.pushed
      pub pushes :
          (tally is_push_asleep s.threads ≡ 0)
          ⊎ (max_size ≤ length s.queue + tally is_push_awake s.threads)
      pub pops :
          (tally is_pop_asleep s.threads ≡ 0) ⊎ (length s.queue ≤ tally is_pop_awake s.threads)

    push-some :
        (v : A) (queue more : List A)
        → push max_size v queue ≡ some more
        → (length queue < max_size) × (queue ++ v ∷ [] ≡ more)
    unfolding push
    push-some v queue more e = grind arith

    push-none : (v : A) (queue : List A) → push max_size v queue ≡ none → max_size ≤ length queue
    unfolding push
    push-none v queue e = ground arith

    pop-none : (queue : List A) → pop queue ≡ none → length queue ≡ 0
    unfolding pop
    pop-none [] e = refl
    pop-none (x ∷ queue) e = ground arith

    pop-some : (v : A) (queue rest : List A) → pop queue ≡ some (v, rest) → queue ≡ v ∷ rest
    unfolding pop
    pop-some v [] rest e = ground arith
    pop-some v (x ∷ queue) rest e = ap (λ o. elim o [ none ↦ x ∷ queue | some (a, q) ↦ a ∷ q ]) e

    push_done-Sound :
        (s : System A) (t : ℕ) (x : Thread A) (v : A) (queue : List A) (threads : List (Thread A))
        → get_elem? s.threads t ≡ some x
        → Pushing v x
        → push max_size v s.queue ≡ some queue
        → Notified is_pop_asleep wake_pop (set s.threads t Thread.outside) threads
        → Sound s
        → Sound (record s { queue = queue; threads = threads; pushed = s.pushed ++ v ∷ [] })
    push_done-Sound s t x v queue threads h p e notified sound =
        let free = Pushing-free v x p in
        let pushed = push-some v s.queue queue e in
        let size = length-append s.queue (v ∷ []) in
        let longer = ap length pushed.1 in
        let asleep = tally-set_same is_push_asleep s.threads t x Thread.outside h free.0 in
        let awake = tally-set_le is_push_awake s.threads t x Thread.outside h in
        let pop_asleep' = tally-set_same is_pop_asleep s.threads t x Thread.outside h free.1 in
        let pop_awake' = tally-set_same is_pop_awake s.threads t x Thread.outside h free.2 in
        let same_asleep =
          Notified-same is_pop_asleep is_push_asleep wake_pop _ threads (λ y. (wake_pop-kept y).0)
            notified in
        let same_awake =
          Notified-same is_pop_asleep is_push_awake wake_pop _ threads (λ y. (wake_pop-kept y).1)
            notified in
        let woken =
          Notified-wakes is_pop_asleep is_pop_awake wake_pop _ threads wake_pop-woken notified in
        record {
          fits = omega (arith, longer, size, pushed.0);
          order =
              ap (λ q. s.popped ++ q) (sym pushed.1)
              ∙ sym (append_assoc s.popped s.queue (v ∷ []))
              ∙ ap (λ q. q ++ v ∷ []) sound.order;
          pushes =
              ground (arith, longer, size, asleep, awake, same_asleep, same_awake, sound.pushes);
          pops = ground (arith, longer, size, pop_asleep', pop_awake', woken, sound.pops);
        }

    pop_done-Sound :
        (s : System A) (t : ℕ) (x : Thread A) (v : A) (queue : List A) (threads : List (Thread A))
        → get_elem? s.threads t ≡ some x
        → Popping x
        → pop s.queue ≡ some (v, queue)
        → Notified is_push_asleep wake_push (set s.threads t Thread.outside) threads
        → Sound s
        → Sound (record s { queue = queue; threads = threads; popped = s.popped ++ v ∷ [] })
    pop_done-Sound s t x v queue threads h p e notified sound =
        let free = Popping-free x p in
        let taken = pop-some v s.queue queue e in
        let shorter = ap length taken in
        let asleep = tally-set_same is_pop_asleep s.threads t x Thread.outside h free.1 in
        let awake = tally-set_le is_pop_awake s.threads t x Thread.outside h in
        let push_asleep' = tally-set_same is_push_asleep s.threads t x Thread.outside h free.0 in
        let push_awake' = tally-set_same is_push_awake s.threads t x Thread.outside h free.2 in
        let same_asleep =
          Notified-same is_push_asleep is_pop_asleep wake_push _ threads (λ y. (wake_push-kept y).0)
            notified in
        let same_awake =
          Notified-same is_push_asleep is_pop_awake wake_push _ threads (λ y. (wake_push-kept y).1)
            notified in
        let woken =
          Notified-wakes is_push_asleep is_push_awake wake_push _ threads wake_push-woken
            notified in
        record {
          fits = omega (arith, shorter, sound.fits);
          order =
              append_assoc s.popped (v ∷ []) queue
              ∙ ap (λ q. s.popped ++ q) (sym taken)
              ∙ sound.order;
          pushes = ground (arith, shorter, push_asleep', push_awake', woken, sound.pushes);
          pops = ground (arith, shorter, asleep, awake, same_asleep, same_awake, sound.pops);
        }

    push_waits-Sound :
        (s : System A) (t : ℕ) (x : Thread A) (v : A)
        → get_elem? s.threads t ≡ some x
        → Pushing v x
        → push max_size v s.queue ≡ none
        → Sound s
        → Sound (record s { threads = set s.threads t (Thread.push_asleep v) })
    push_waits-Sound s t x v h p e sound =
        let free = Pushing-free v x p in
        let full = push-none v s.queue e in
        let asleep = tally-set_same is_pop_asleep s.threads t x (Thread.push_asleep v) h free.1 in
        let awake = tally-set_same is_pop_awake s.threads t x (Thread.push_asleep v) h free.2 in
        record {
          fits = sound.fits;
          order = sound.order;
          pushes = inr (omega (arith, full));
          pops = ground (arith, asleep, awake, sound.pops);
        }

    pop_waits-Sound :
        (s : System A) (t : ℕ) (x : Thread A)
        → get_elem? s.threads t ≡ some x
        → Popping x
        → pop s.queue ≡ none
        → Sound s
        → Sound (record s { threads = set s.threads t Thread.pop_asleep })
    pop_waits-Sound s t x h p e sound =
        let free = Popping-free x p in
        let empty = pop-none s.queue e in
        let asleep = tally-set_same is_push_asleep s.threads t x Thread.pop_asleep h free.0 in
        let awake = tally-set_same is_push_awake s.threads t x Thread.pop_asleep h free.2 in
        record {
          fits = sound.fits;
          order = sound.order;
          pushes = ground (arith, asleep, awake, sound.pushes);
          pops = inr (omega (arith, empty));
        }

    push_spurious-Sound :
        (s : System A) (t : ℕ) (v : A)
        → get_elem? s.threads t ≡ some (Thread.push_asleep v)
        → Sound s
        → Sound (record s { threads = set s.threads t (Thread.push_awake v) })
    push_spurious-Sound s t v h sound =
        let asleep = tally-set is_push_asleep s.threads t _ (Thread.push_awake v) h in
        let awake = tally-set is_push_awake s.threads t _ (Thread.push_awake v) h in
        let pop_asleep' = tally-set is_pop_asleep s.threads t _ (Thread.push_awake v) h in
        let pop_awake' = tally-set is_pop_awake s.threads t _ (Thread.push_awake v) h in
        record {
          fits = sound.fits;
          order = sound.order;
          pushes = ground (arith, asleep, awake, sound.pushes);
          pops = ground (arith, pop_asleep', pop_awake', sound.pops);
        }

    pop_spurious-Sound :
        (s : System A) (t : ℕ)
        → get_elem? s.threads t ≡ some Thread.pop_asleep
        → Sound s
        → Sound (record s { threads = set s.threads t Thread.pop_awake })
    pop_spurious-Sound s t h sound =
        let asleep = tally-set is_push_asleep s.threads t _ Thread.pop_awake h in
        let awake = tally-set is_push_awake s.threads t _ Thread.pop_awake h in
        let pop_asleep' = tally-set is_pop_asleep s.threads t _ Thread.pop_awake h in
        let pop_awake' = tally-set is_pop_awake s.threads t _ Thread.pop_awake h in
        record {
          fits = sound.fits;
          order = sound.order;
          pushes = ground (arith, asleep, awake, sound.pushes);
          pops = ground (arith, pop_asleep', pop_awake', sound.pops);
        }

    step-Sound : (s u : System A) → Step max_size s u → Sound s → Sound u
    step-Sound s _ (Step.push_done t x v queue threads h p e n) sound =
        push_done-Sound s t x v queue threads h p e n sound
    step-Sound s _ (Step.push_waits t x v h p e) sound = push_waits-Sound s t x v h p e sound
    step-Sound s _ (Step.pop_done t x v queue threads h p e n) sound =
        pop_done-Sound s t x v queue threads h p e n sound
    step-Sound s _ (Step.pop_waits t x h p e) sound = pop_waits-Sound s t x h p e sound
    step-Sound s _ (Step.push_spurious t v h) sound = push_spurious-Sound s t v h sound
    step-Sound s _ (Step.pop_spurious t h) sound = pop_spurious-Sound s t h sound

    -- The queue is empty and all of n threads are outside.
    abbrev pub start : ℕ → System A
    start n = record { queue = []; threads = replicate n Thread.outside; pushed = []; popped = [] }

    start-Sound : (n : ℕ) → Sound (start n)
    start-Sound n = record {
      fits = omega arith;
      order = refl;
      pushes = inl (tally-replicate is_push_asleep n Thread.outside refl);
      pops = inl (tally-replicate is_pop_asleep n Thread.outside refl);
    }

    -- In every state that n threads reach by pushing and popping, the queue holds at most its maximum, what
    -- was popped and then what it holds is what was pushed, in order, and no notification is lost: no push
    -- sleeps or as many are awake as there is room for, no pop sleeps or as many are awake as there are items.
    pub bounded-Sound : (n : ℕ) (s : System A) → Reach (Step max_size) (start n) s → Sound s
    bounded-Sound n s r = Reach-keep (Step max_size) Sound step-Sound (start n) s r (start-Sound n)
