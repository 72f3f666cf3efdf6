-- ===== src/TimerWheel/Tests.antt =====
-- The timer wheel of `main` in topics/io/timer_wheel.cpp, with fewer slots.
use learn_cpp.Prelude.{ℕ, ◌≡◌, refl, Option, none, some, List, [], ◌∷◌, ◌++◌, arith}
use learn_cpp.TimerWheel.{Wheel, init, schedule_after, runs}
use learn_cpp.TimerWheel.Due.{schedule_after_due}

abbrev wheel : Wheel ℕ
wheel = init 8 50

abbrev runs_after : ℕ → ℕ → ℕ → Wheel ℕ → Option (List ℕ)
runs_after k delay cb w = elim (schedule_after delay cb w) [ none ↦ none | some w' ↦ runs k w' ]

-- 100 ms are two ticks of 50 ms.
second_tick : runs_after 1 100 7 wheel ≡ some (7 ∷ [])
unfolding runs schedule_after init
second_tick = refl

-- A delay of nine ticks on eight slots runs in the first tick.
early : runs_after 0 450 7 wheel ≡ some (7 ∷ [])
unfolding runs schedule_after init
early = refl

-- An interval of 0 divides by zero.
no_interval : schedule_after 100 7 (init {C = ℕ} 8 0) ≡ none
unfolding schedule_after init
no_interval = refl

schedule_after_due_example :
    (old : List ℕ) × (w' : Wheel ℕ) × ((runs 1 wheel ≡ some old)
      × (schedule_after 100 7 wheel ≡ some w')
      × (runs 1 w' ≡ some (old ++ (7 ∷ []))))
unfolding init
schedule_after_due_example =
    schedule_after_due 100 1 7 wheel (omega arith, omega arith) (omega arith) (omega arith)
      (omega arith)
