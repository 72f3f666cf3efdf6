-- ===== src/Reconciler/Bench/Returns.antt =====
-- `runBench` returns: the timers of a positive window width catch up with the clock.
use native.Mathlib.Nat.{mod-le, mul-le-mul_right, div-mul-le_self}
use learn_cpp.Prelude.{
  ℕ, zero, suc, ◌+◌, ◌*◌, ◌/◌, ◌^◌, ◌≤◌, ◌<◌, ◌≡◌, refl, Option, none, some, List, [], ◌∷◌, leb,
  add64, Bool-cases, inl, inr, arith,
}
use learn_cpp.Reconciler.Interface.{Reconciler}
use learn_cpp.Reconciler.Bench.{
  Event, Timed, fire_timers, loop, and_then, flush, alerts_of, flush_to, later, run_bench,
}

module _ {D S : Type 0} (r : Reconciler D S) (window_width : ℕ) where
  -- All arrival times are at most the bound.
  abbrev pub Before : ℕ → List (Event D) → Type 0
  Before bound [] = Unit
  Before bound (ev ∷ events) = (ev.exec.ts ≤ bound) × Before bound events

  abbrev Fired : ℕ → Option (Timed S) → Type 0
  Fired limit none = ⊥
  Fired limit (some (next, s)) = limit < next

  abbrev Looped : ℕ → Option (ℕ × Timed S) → Type 0
  Looped bound none = ⊥
  Looped bound (some (now, (next, s))) = (now ≤ bound) × (1 ≤ next)

  fire_timers-Fired :
      (fuel limit next : ℕ) (s : S)
      → 0 < window_width
      → limit + window_width < 2 ^ 64
      → 1 ≤ fuel
      → limit + 2 ≤ next + fuel
      → Fired limit (fire_timers r window_width fuel limit (next, s))
  unfolding fire_timers
  fire_timers-Fired zero limit next s pos fits one enough = absurd (omega arith)
  fire_timers-Fired (suc fuel) limit next s pos fits one enough =
      elim (Bool-cases (leb next limit)) [
        | inl due ↦
            let le : next ≤ limit = ground arith in
            rw due (
              fire_timers-Fired fuel limit (add64 next window_width) (r.on_timer next s) pos fits
                (omega arith) (omega arith))
        | inr not_due ↦ rw not_due (ground arith)
      ]

  and_then-Looped :
      (bound now : ℕ) (x : Option (Timed S)) (f : Timed S → Option (ℕ × Timed S))
      → Fired now x
      → ((next : ℕ) (s : S) → 1 ≤ next → Looped bound (f (next, s)))
      → Looped bound (and_then r window_width x f)
  and_then-Looped bound now none f fired k = elim fired [ ]
  and_then-Looped bound now (some (next, s)) f fired k = k next s (omega arith)

  loop-Looped :
      (bound now next : ℕ) (events : List (Event D)) (s : S)
      → 0 < window_width
      → bound + window_width < 2 ^ 64
      → now ≤ bound
      → 1 ≤ next
      → Before bound events
      → Looped bound (loop r window_width now events (next, s))
  unfolding loop
  loop-Looped bound now next [] s pos fits le one b = (le, one)
  loop-Looped bound now next (ev ∷ events) s pos fits le one (ts, b) =
      let now' = later r window_width now ev.exec.ts in
      let le' : now' ≤ bound = ground arith in
      and_then-Looped bound now' _ _
        (fire_timers-Fired (suc now') now' next s pos (omega arith) (omega arith) (omega arith))
        (λ next' s' one'. loop-Looped bound now' next' events _ pos fits le' one' b)

  flush_to_bound :
      (now : ℕ) → 0 < window_width → flush_to r window_width now ≤ now + 3 * window_width
  flush_to_bound now pos =
      let q : ℕ = now / window_width in
      omega (
        arith,
        mod-le (add64 q 3 * window_width) (2 ^ 64),
        mul-le-mul_right window_width (mod-le (q + 3) (2 ^ 64)),
        div-mul-le_self now window_width,
      )

  alerts_of_returns :
      (limit : ℕ) (x : Option (Timed S))
      → Fired limit x
      → (n : ℕ) × (alerts_of r window_width x ≡ some n)
  unfolding alerts_of
  alerts_of_returns limit none f = elim f [ ]
  alerts_of_returns limit (some (next, s)) f = (r.alerts s, refl)

  flush-Fired :
      (bound : ℕ) (x : Option (ℕ × Timed S))
      → 0 < window_width
      → bound + 4 * window_width < 2 ^ 64
      → Looped bound x
      → (n : ℕ) × (alerts_of r window_width (flush r window_width x) ≡ some n)
  unfolding flush
  flush-Fired bound none pos fits l = elim l [ ]
  flush-Fired bound (some (now, (next, s))) pos fits (le, one) = alerts_of_returns _ _ (
      fire_timers-Fired (suc (flush_to r window_width now)) (flush_to r window_width now) next s pos
        (omega (arith, flush_to_bound now pos)) (omega arith) (omega arith))

  -- With a positive window width, and arrival times at most a bound that leaves room for four
  -- windows below 2^64, `run_bench` returns a number of alerts, whatever the class does.
  pub run_bench_returns :
      (bound : ℕ) (events : List (Event D)) (s : S)
      → 0 < window_width
      → bound + 4 * window_width < 2 ^ 64
      → Before bound events
      → (n : ℕ) × (run_bench r window_width events s ≡ some n)
  unfolding run_bench
  run_bench_returns bound events s pos fits b =
      flush-Fired bound _ pos fits
        (loop-Looped bound 0 window_width events s pos (omega arith) (omega arith) pos b)
