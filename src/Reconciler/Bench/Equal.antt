-- ===== src/Reconciler/Bench/Equal.antt =====
-- Classes that agree give the same result in `runBench`.
use learn_cpp.Prelude.{
  ℕ, zero, suc, ◌≡◌, refl, sym, ap, Option, none, some, List, [], ◌∷◌, leb, add64, Bool-cases, inl,
  inr,
}
use learn_cpp.Reconciler.Common.{Execution}
use learn_cpp.Reconciler.Interface.{Reconciler, Agreement}
use learn_cpp.Reconciler.Bench.{
  Event, Timed, fire_timers, loop, and_then, flush, alerts_of, flush_to, later, run_bench,
}

module _ {D S T : Type 0} {a : Reconciler D S} {b : Reconciler D T} (ag : Agreement a b)
    (window_width : ℕ) where
  abbrev Alike : Option (Timed S) → Option (Timed T) → Type 0
  Alike none none = Unit
  Alike none (some y) = ⊥
  Alike (some x) none = ⊥
  Alike (some (n, s)) (some (m, t)) = (n ≡ m) × ag.Related s t

  abbrev LoopAlike : Option (ℕ × Timed S) → Option (ℕ × Timed T) → Type 0
  LoopAlike none none = Unit
  LoopAlike none (some y) = ⊥
  LoopAlike (some x) none = ⊥
  LoopAlike (some (now, x)) (some (now', y)) = (now ≡ now') × Alike (some x) (some y)

  fire_timers-Alike :
      (fuel limit next : ℕ) (s : S) (t : T)
      → ag.Related s t
      → Alike
          (fire_timers a window_width fuel limit (next, s))
          (fire_timers b window_width fuel limit (next, t))
  unfolding fire_timers
  fire_timers-Alike zero limit next s t r = tt
  fire_timers-Alike (suc fuel) limit next s t r = elim (Bool-cases (leb next limit)) [
    | inl due ↦ rw due (
        fire_timers-Alike fuel limit (add64 next window_width) (a.on_timer next s)
          (b.on_timer next t) (ag.timer next s t r))
    | inr not_due ↦ rw not_due (refl, r)
  ]

  fire_timers-Alike_at :
      (fuel limit : ℕ) (x : Timed S) (y : Timed T)
      → Alike (some x) (some y)
      → Alike (fire_timers a window_width fuel limit x) (fire_timers b window_width fuel limit y)
  fire_timers-Alike_at fuel limit (n, s) (m, t) (e, r) =
      rw (sym e) (fire_timers-Alike fuel limit n s t r)

  and_then-LoopAlike :
      (x : Option (Timed S)) (y : Option (Timed T)) (f : Timed S → Option (ℕ × Timed S))
      (g : Timed T → Option (ℕ × Timed T))
      → Alike x y
      → ((n : ℕ) (s : S) (t : T) → ag.Related s t → LoopAlike (f (n, s)) (g (n, t)))
      → LoopAlike (and_then a window_width x f) (and_then b window_width y g)
  and_then-LoopAlike none none f g r k = tt
  and_then-LoopAlike none (some y) f g r k = elim r [ ]
  and_then-LoopAlike (some x) none f g r k = elim r [ ]
  and_then-LoopAlike (some (n, s)) (some (m, t)) f g (e, r) k = rw (sym e) (k n s t r)

  abbrev pub AllAllowed : List (Event D) → Type 0
  AllAllowed [] = Unit
  AllAllowed (ev ∷ events) = ag.Allowed ev.exec × AllAllowed events

  pub all_allowed :
      ((exec : Execution D) → ag.Allowed exec) → (events : List (Event D)) → AllAllowed events
  all_allowed ok [] = tt
  all_allowed ok (ev ∷ events) = (ok ev.exec, all_allowed ok events)

  loop-Alike :
      (now : ℕ) (events : List (Event D)) (x : Timed S) (y : Timed T)
      → AllAllowed events
      → Alike (some x) (some y)
      → LoopAlike (loop a window_width now events x) (loop b window_width now events y)
  unfolding loop
  loop-Alike now [] x y ok r = (refl, r)
  loop-Alike now (ev ∷ events) x y (here, ok) r =
      let now' = later a window_width now ev.exec.ts in
      and_then-LoopAlike _ _ _ _ (fire_timers-Alike_at (suc now') now' x y r)
        (λ n s t r'. loop-Alike now' events _ _ ok (refl, ag.feed ev.feed ev.exec s t here r'))

  flush-Alike :
      (x : Option (ℕ × Timed S)) (y : Option (ℕ × Timed T))
      → LoopAlike x y
      → Alike (flush a window_width x) (flush b window_width y)
  unfolding flush
  flush-Alike none none r = tt
  flush-Alike none (some y) r = elim r [ ]
  flush-Alike (some x) none r = elim r [ ]
  flush-Alike (some (now, x)) (some (now', y)) (e, r) =
      rw (sym e) (
        fire_timers-Alike_at (suc (flush_to a window_width now)) (flush_to a window_width now) x y
          r)

  alerts_of-Alike :
      (x : Option (Timed S)) (y : Option (Timed T))
      → Alike x y
      → alerts_of a window_width x ≡ alerts_of b window_width y
  unfolding alerts_of
  alerts_of-Alike none none r = refl
  alerts_of-Alike none (some y) r = elim r [ ]
  alerts_of-Alike (some x) none r = elim r [ ]
  alerts_of-Alike (some (n, s)) (some (m, t)) (e, r) = ap some (ag.same_alerts s t r)

  -- From states that the agreement relates, `run_bench` returns the same for both classes, for any
  -- events that they may be given and any window width.
  pub run_bench-Agreement :
      (events : List (Event D)) (s : S) (t : T)
      → AllAllowed events
      → ag.Related s t
      → run_bench a window_width events s ≡ run_bench b window_width events t
  unfolding run_bench
  run_bench-Agreement events s t ok r =
      alerts_of-Alike _ _ (flush-Alike _ _ (loop-Alike 0 events _ _ ok (refl, r)))
