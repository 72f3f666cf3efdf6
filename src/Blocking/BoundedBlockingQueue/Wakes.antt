-- ===== src/Blocking/BoundedBlockingQueue/Wakes.antt =====
-- Who sleeps and who is awake in `BoundedBlockingQueue`, and what notifications do to that.
use learn_cpp.Prelude.{◌≡◌, refl, Bool, true, false, arith}
use learn_cpp.Blocking.BoundedBlockingQueue.{
  Thread, is_push_asleep, is_pop_asleep, wake_push, wake_pop, Pushing, Popping,
}

module _ {A : Type 0} where
  abbrev pub is_push_awake : Thread A → Bool
  is_push_awake (Thread.push_awake v) = true
  is_push_awake t = false

  abbrev pub is_pop_awake : Thread A → Bool
  is_pop_awake Thread.pop_awake = true
  is_pop_awake t = false

  pub Pushing-free :
      (v : A) (x : Thread A)
      → Pushing v x
      → (is_push_asleep x ≡ false) × (is_pop_asleep x ≡ false) × (is_pop_awake x ≡ false)
  Pushing-free v _ Pushing.called = (refl, refl, refl)
  Pushing-free v _ Pushing.woken = (refl, refl, refl)

  pub Popping-free :
      (x : Thread A)
      → Popping x
      → (is_push_asleep x ≡ false) × (is_pop_asleep x ≡ false) × (is_push_awake x ≡ false)
  Popping-free _ Popping.called = (refl, refl, refl)
  Popping-free _ Popping.woken = (refl, refl, refl)

  pub wake_pop-kept :
      (x : Thread A)
      → (is_push_asleep (wake_pop x) ≡ is_push_asleep x)
        × (is_push_awake (wake_pop x) ≡ is_push_awake x)
  wake_pop-kept Thread.outside = (refl, refl)
  wake_pop-kept (Thread.push_asleep v) = (refl, refl)
  wake_pop-kept (Thread.push_awake v) = (refl, refl)
  wake_pop-kept Thread.pop_asleep = (refl, refl)
  wake_pop-kept Thread.pop_awake = (refl, refl)

  pub wake_push-kept :
      (x : Thread A)
      → (is_pop_asleep (wake_push x) ≡ is_pop_asleep x)
        × (is_pop_awake (wake_push x) ≡ is_pop_awake x)
  wake_push-kept Thread.outside = (refl, refl)
  wake_push-kept (Thread.push_asleep v) = (refl, refl)
  wake_push-kept (Thread.push_awake v) = (refl, refl)
  wake_push-kept Thread.pop_asleep = (refl, refl)
  wake_push-kept Thread.pop_awake = (refl, refl)

  pub wake_pop-woken :
      (x : Thread A)
      → is_pop_asleep x ≡ true
      → (is_pop_asleep (wake_pop x) ≡ false)
        × (is_pop_awake x ≡ false)
        × (is_pop_awake (wake_pop x) ≡ true)
  wake_pop-woken Thread.outside e = ground arith
  wake_pop-woken (Thread.push_asleep v) e = ground arith
  wake_pop-woken (Thread.push_awake v) e = ground arith
  wake_pop-woken Thread.pop_asleep e = (refl, refl, refl)
  wake_pop-woken Thread.pop_awake e = ground arith

  pub wake_push-woken :
      (x : Thread A)
      → is_push_asleep x ≡ true
      → (is_push_asleep (wake_push x) ≡ false)
        × (is_push_awake x ≡ false)
        × (is_push_awake (wake_push x) ≡ true)
  wake_push-woken Thread.outside e = ground arith
  wake_push-woken (Thread.push_asleep v) e = (refl, refl, refl)
  wake_push-woken (Thread.push_awake v) e = ground arith
  wake_push-woken Thread.pop_asleep e = ground arith
  wake_push-woken Thread.pop_awake e = ground arith
