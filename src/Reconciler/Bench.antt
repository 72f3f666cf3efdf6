-- ===== src/Reconciler/Bench.antt =====
-- `runBench` of extras/citadel_interview/main.cpp: events through a reconciler class, with a timer
-- at the end of each window. A result of `none` is a loop that takes more rounds than its fuel.
pub mod Equal
pub mod Returns
use learn_cpp.Prelude.{
  ℕ, zero, suc, ◌+◌, ◌*◌, ◌/◌, ◌%◌, ◌^◌, ◌≤◌, ◌<◌, ◌≡◌, refl, ap, Bool, true, false, Option, none,
  some, List, [], ◌∷◌, if◌then◌else◌, leb, ltb, add64, arith, Bool-cases, inl, inr,
}
use learn_cpp.Reconciler.Common.{Execution, Feed}
use learn_cpp.Reconciler.Interface.{Reconciler, Agreement}

pub record Event (D : Type 0) : Type 0 where
  pub feed : Feed
  pub exec : Execution D

-- `next_timer` and the reconciler
abbrev pub Timed : Type 0 → Type 0
Timed S = ℕ × S

module _ {D S : Type 0} (r : Reconciler D S) (window_width : ℕ) where
  -- `while (limit >= next_timer)`, on fuel.
  unfoldable pub fire_timers : ℕ → ℕ → Timed S → Option (Timed S)
  fire_timers zero limit (next, s) = none
  fire_timers (suc fuel) limit (next, s) =
      let rest = fire_timers fuel limit (add64 next window_width, r.on_timer next s) in
      if leb next limit then rest else some (next, s)

  abbrev pub later : ℕ → ℕ → ℕ
  later now ts = if ltb now ts then ts else now

  abbrev pub and_then : Option (Timed S) → (Timed S → Option (ℕ × Timed S)) → Option (ℕ × Timed S)
  and_then none rest = none
  and_then (some t) rest = rest t

  -- The loop over the events: the time, `next_timer` and the reconciler after it.
  unfoldable pub loop : ℕ → List (Event D) → Timed S → Option (ℕ × Timed S)
  unfolding fire_timers
  loop now [] t = some (now, t)
  loop now (ev ∷ events) t =
      let now' = later now ev.exec.ts in
      and_then (fire_timers (suc now') now' t)
        (λ t'. loop now' events (t'.0, r.on_feed ev.feed ev.exec t'.1))

  -- `((now / window_width) + 3) * window_width`
  abbrev pub flush_to : ℕ → ℕ
  flush_to now = add64 (now / window_width) 3 * window_width % 2 ^ 64

  unfoldable pub flush : Option (ℕ × Timed S) → Option (Timed S)
  unfolding fire_timers
  flush none = none
  flush (some (now, t)) = fire_timers (suc (flush_to now)) (flush_to now) t

  unfoldable pub alerts_of : Option (Timed S) → Option ℕ
  alerts_of none = none
  alerts_of (some (next, s)) = some (r.alerts s)

  unfoldable pub run_bench : List (Event D) → S → Option ℕ
  unfolding loop flush alerts_of
  run_bench events s = alerts_of (flush (loop 0 events (window_width, s)))
