-- ===== src/Blocking/ThreadSafeQueue/Invariant.antt =====
-- The invariant of `ThreadSafeQueue`: the order of its items, and who sleeps.
use learn_cpp.Prelude.{
  ℕ, ◌≤◌, ◌≡◌, refl, sym, ◌∙◌, ap, ◌⊎◌, inl, inr, Bool, true, false, none, some, List, [], ◌∷◌,
  ◌++◌, append_assoc, replicate, length, length-append, arith,
}
use learn_cpp.Blocking.Threads.{
  tally, tally-set, tally-set_same, tally-set_le, tally-map_none, tally-replicate, Notified-wakes,
  Reach, Reach-keep,
}
use learn_cpp.Blocking.ThreadSafeQueue.{
  Consumer, System, Outcome, is_asleep, wake, Waiting, push, try_pop, wait_and_pop, set_done, Step,
}

abbrev pub is_awake : Consumer → Bool
is_awake Consumer.awake = true
is_awake c = false

wake-woken :
    (x : Consumer)
    → is_asleep x ≡ true
    → (is_asleep (wake x) ≡ false) × (is_awake x ≡ false) × (is_awake (wake x) ≡ true)
wake-woken Consumer.outside e = ground arith
wake-woken Consumer.asleep e = (refl, refl, refl)
wake-woken Consumer.awake e = ground arith

wake-is_asleep : (x : Consumer) → is_asleep (wake x) ≡ false
wake-is_asleep Consumer.outside = refl
wake-is_asleep Consumer.asleep = refl
wake-is_asleep Consumer.awake = refl

Waiting-free : (x : Consumer) → Waiting x → is_asleep x ≡ false
Waiting-free _ Waiting.called = refl
Waiting-free _ Waiting.woken = refl

module _ {A : Type 0} where
  -- What was popped and then what is queued is what was pushed; no consumer sleeps, or the queue is not
  -- done and as many consumers are awake in the wait as there are items.
  pub record Sound (s : System A) : Type 0 where
    pub order : s.popped ++ s.queue ≡ s.pushed
    pub asleep :
        (tally is_asleep s.consumers ≡ 0)
        ⊎ ((s.done ≡ false) × (length s.queue ≤ tally is_awake s.consumers))

  wait-waits :
      (done : Bool) (queue : List A)
      → wait_and_pop done queue ≡ Outcome.waits
      → (done ≡ false) × (length queue ≡ 0)
  unfolding wait_and_pop
  wait-waits done [] e = (ground arith, refl)
  wait-waits done (x ∷ queue) e = ground arith

  wait-refuses :
      (done : Bool) (queue : List A) → wait_and_pop done queue ≡ Outcome.refuses → done ≡ true
  unfolding wait_and_pop
  wait-refuses done [] e = ground arith
  wait-refuses done (x ∷ queue) e = ground arith

  wait-pops :
      (done : Bool) (queue rest : List A) (value : A)
      → wait_and_pop done queue ≡ Outcome.pops value rest
      → queue ≡ value ∷ rest
  unfolding wait_and_pop
  wait-pops done [] rest value e = ground arith
  wait-pops done (x ∷ queue) rest value e =
      ap (λ o. elim o [ Outcome.pops a q ↦ a ∷ q | _ ↦ x ∷ queue ]) e

  try_pop-some :
      (queue rest : List A) (value : A) → try_pop queue ≡ some (value, rest) → queue ≡ value ∷ rest
  unfolding try_pop
  try_pop-some [] rest value e = ground arith
  try_pop-some (x ∷ queue) rest value e =
      ap (λ o. elim o [ none ↦ x ∷ queue | some (a, q) ↦ a ∷ q ]) e

  popped-order :
      (s : System A) (value : A) (rest : List A)
      → s.queue ≡ value ∷ rest
      → s.popped ++ s.queue ≡ s.pushed
      → (s.popped ++ value ∷ []) ++ rest ≡ s.pushed
  popped-order s value rest e order =
      append_assoc s.popped (value ∷ []) rest ∙ ap (λ q. s.popped ++ q) (sym e) ∙ order

  step-Sound : (s u : System A) → Step s u → Sound s → Sound u
  unfolding push set_done
  step-Sound s _ (Step.pushes value consumers notified) sound =
      let longer = length-append s.queue (value ∷ []) in
      let woken =
        Notified-wakes is_asleep is_awake wake s.consumers consumers wake-woken notified in
      record {
        order =
            sym (append_assoc s.popped s.queue (value ∷ []))
            ∙ ap (λ q. q ++ value ∷ []) sound.order;
        asleep = ground (arith, longer, woken, sound.asleep);
      }
  step-Sound s _ (Step.tries value queue e) sound =
      let taken = try_pop-some s.queue queue value e in
      let shorter = ap length taken in
      record {
        order = popped-order s value queue taken sound.order;
        asleep = ground (arith, shorter, sound.asleep);
      }
  step-Sound s _ (Step.sleeps t x h w e) sound =
      let idle = wait-waits s.done s.queue e in
      record { order = sound.order; asleep = inr (idle.0, omega (arith, idle.1)) }
  step-Sound s _ (Step.returns_false t x h w e) sound =
      let done = wait-refuses s.done s.queue e in
      let same = tally-set_same is_asleep s.consumers t x Consumer.outside h (Waiting-free x w) in
      record { order = sound.order; asleep = ground (arith, done, same, sound.asleep) }
  step-Sound s _ (Step.returns_true t x value queue h w e) sound =
      let taken = wait-pops s.done s.queue queue value e in
      let shorter = ap length taken in
      let same = tally-set_same is_asleep s.consumers t x Consumer.outside h (Waiting-free x w) in
      let awake = tally-set_le is_awake s.consumers t x Consumer.outside h in
      record {
        order = popped-order s value queue taken sound.order;
        asleep = ground (arith, shorter, same, awake, sound.asleep);
      }
  step-Sound s _ Step.finishes sound = record {
    order = sound.order;
    asleep = inl (tally-map_none is_asleep wake s.consumers wake-is_asleep);
  }
  step-Sound s _ (Step.spurious t h) sound =
      let asleep = tally-set is_asleep s.consumers t Consumer.asleep Consumer.awake h in
      let awake = tally-set is_awake s.consumers t Consumer.asleep Consumer.awake h in
      record { order = sound.order; asleep = ground (arith, asleep, awake, sound.asleep) }

  -- An empty queue and n consumers outside.
  abbrev pub start : ℕ → System A
  start n = record {
    queue = [];
    done = false;
    consumers = replicate n Consumer.outside;
    pushed = [];
    popped = [];
  }

  -- In every state that n consumers reach, what was popped and then what is queued is what was pushed, in
  -- order; and no consumer sleeps, or the queue is not done and as many consumers are awake in the wait as
  -- there are items: no notification is lost.
  pub waiting-Sound : (n : ℕ) (s : System A) → Reach Step (start n) s → Sound s
  waiting-Sound n s r =
      Reach-keep Step Sound step-Sound (start n) s r
        (record { order = refl; asleep = inl (tally-replicate is_asleep n Consumer.outside refl) })
