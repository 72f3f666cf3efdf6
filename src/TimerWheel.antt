-- ===== src/TimerWheel.antt =====
-- topics/io/timer_wheel.cpp, `TimerWheel`: one list of callbacks for each slot. Callbacks are values
-- of a type; what a tick runs is a result. Delays and the tick interval are whole milliseconds, not
-- negative. `none` stands for a division by zero: by a tick interval of 0, or by the size of a wheel
-- without slots.
pub mod Due
mod Tests
use learn_cpp.Prelude.{
  ℕ, zero, suc, ◌/◌, ◌%◌, if◌then◌else◌, ◌==◌, add64, Option, none, some, List, [], ◌∷◌, ◌++◌,
  length, get_or, set, replicate,
}

pub record Wheel (C : Type 0) : Type 0 where
  pub slots : List (List C)
  pub tick_interval : ℕ
  pub current_slot : ℕ

module _ {C : Type 0} where
  unfoldable pub init : ℕ → ℕ → Wheel C
  init num_slots tick_ms = record {
    slots = replicate num_slots [];
    tick_interval = tick_ms;
    current_slot = 0;
  }

  -- `delay.count() / tick_interval_.count()`, and 1 for 0, when the interval is not 0.
  abbrev pub whole_ticks : ℕ → Wheel C → ℕ
  whole_ticks delay w = let ticks : ℕ = delay / w.tick_interval in if ticks == 0 then 1 else ticks

  unfoldable pub ticks_of : ℕ → Wheel C → Option ℕ
  ticks_of delay w = if w.tick_interval == 0 then none else some (whole_ticks delay w)

  -- `(current_slot_ + steps) % slots_.size()`
  unfoldable pub slot_after : ℕ → Wheel C → Option ℕ
  slot_after steps w =
      let size : ℕ = length w.slots in
      if size == 0 then none else some (add64 w.current_slot steps % size)

  unfoldable pub schedule_after : ℕ → C → Wheel C → Option (Wheel C)
  unfolding ticks_of slot_after
  schedule_after delay cb w = elim (ticks_of delay w) [
    | none ↦ none
    | some ticks ↦ elim (slot_after ticks w) [
      | none ↦ none
      | some slot ↦
          some (record w { slots = set w.slots slot (get_or w.slots slot [] ++ (cb ∷ [])) })
    ]
  ]

  -- What runs, and the wheel afterwards.
  unfoldable pub tick : Wheel C → Option (List C × Wheel C)
  unfolding slot_after
  tick w = elim (slot_after 1 w) [
    | none ↦ none
    | some current ↦ some (
      get_or w.slots current [],
      record w { current_slot = current; slots = set w.slots current [] },
    )
  ]

  -- The wheel after a number of ticks.
  unfoldable pub ticks : ℕ → Wheel C → Option (Wheel C)
  unfolding tick
  ticks zero w = some w
  ticks (suc k) w = elim (ticks k w) [
    | none ↦ none
    | some v ↦ elim (tick v) [ none ↦ none | some after ↦ some after.1 ]
  ]

  -- What the next tick runs after a number of ticks.
  unfoldable pub runs : ℕ → Wheel C → Option (List C)
  unfolding tick ticks
  runs k w = elim (ticks k w) [
    | none ↦ none
    | some v ↦ elim (tick v) [ none ↦ none | some after ↦ some after.0 ]
  ]
