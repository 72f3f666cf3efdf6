-- ===== src/TimerWheel/Due.antt =====
-- When a scheduled callback runs.
use native.Mathlib.Nat.{mod-lt, mod-eq_of_lt, mod-eq-sub-mod}
use learn_cpp.Ring.Window.{next_slot, slot_here}
use learn_cpp.Prelude.{
  get_or-set_ne, get_or-set_self, ltb, Bool-cases, inl, inr, ◌⊎◌, ◌-◌, ==→eq, ==→ne, ℕ, zero, suc,
  ◌+◌, ◌*◌, ◌%◌, ◌^◌, ◌≤◌, ◌<◌, ◌≡◌, refl, ap, sym, ◌∙◌, subst, ◌≢◌, List, [], ◌∷◌, ◌++◌, length,
  length-set, get_or, set, add64, some, false, arith, if◌then◌else◌, ◌==◌,
}
use learn_cpp.TimerWheel.{
  Wheel, whole_ticks, ticks_of, slot_after, schedule_after, tick, ticks, runs,
}

wrapped : (n a : ℕ) → a < 2 * n → ((a < n) × (a % n ≡ a)) ⊎ ((n ≤ a) × (a % n ≡ a - n))
wrapped n a lt = elim (Bool-cases (ltb a n)) [
  | inl below ↦ inl (ground arith, mod-eq_of_lt (ground arith))
  | inr above ↦
      let le : n ≤ a = ground arith in inr (le, mod-eq-sub-mod le ∙ mod-eq_of_lt (omega arith))
]

-- Steps round a circle that are less than its size apart come to different places.
apart_on_circle : (n c i j : ℕ) → c < n → i < j → j ≤ n → j < i + n → (c + i) % n ≢ (c + j) % n
apart_on_circle n c i j lt ij jn near e = elim (wrapped n (c + i) (omega arith)) [
  | inl low ↦ elim (wrapped n (c + j) (omega arith)) [
    | inl low' ↦ absurd (omega (arith, low.1, low'.1, e))
    | inr high' ↦ absurd (omega (arith, low.1, high'.0, high'.1, e))
  ]
  | inr high ↦ elim (wrapped n (c + j) (omega arith)) [
    | inl low' ↦ absurd (omega (arith, high.0, low'.0))
    | inr high' ↦ absurd (omega (arith, high.0, high.1, high'.1, e))
  ]
]

module _ {C : Type 0} where
  -- `tick` and `ticks` on a wheel with slots.
  unfoldable turn : Wheel C → List C × Wheel C
  turn w =
      let current = add64 w.current_slot 1 % length w.slots in
      (
        get_or w.slots current [],
        record w { current_slot = current; slots = set w.slots current [] },
      )

  unfoldable turns : ℕ → Wheel C → Wheel C
  unfolding turn
  turns zero w = w
  turns (suc k) w = (turn (turns k w)).1

  length-turns : (k : ℕ) (w : Wheel C) → length (turns k w).slots ≡ length w.slots
  unfolding turns turn
  length-turns zero w = refl
  length-turns (suc k) w = length-set (turns k w).slots _ [] ∙ length-turns k w

  -- A wheel at one of its slots, fewer than 2^63.
  abbrev pub IsWheel : Wheel C → Type 0
  IsWheel w = (w.current_slot < length w.slots) × (length w.slots < 2 ^ 63)

  following :
      (w : Wheel C) (k : ℕ) (v : Wheel C)
      → IsWheel w
      → length v.slots ≡ length w.slots
      → v.current_slot ≡ (w.current_slot + k) % length w.slots
      → add64 v.current_slot 1 % length v.slots ≡ (w.current_slot + suc k) % length w.slots
  following w k v (lt, small) size at =
      let n : ℕ = length w.slots in
      let under : v.current_slot < n = rw at (mod-lt (w.current_slot + k) (omega arith)) in
      let next : add64 v.current_slot 1 ≡ v.current_slot + 1 = mod-eq_of_lt (omega arith) in
      ap (λ (m : ℕ). add64 v.current_slot 1 % m) size
      ∙ ap (λ (m : ℕ). m % n) next
      ∙ ap (λ (m : ℕ). (m + 1) % n) at
      ∙ next_slot w.current_slot k n (omega arith)

  current-turns :
      (k : ℕ) (w : Wheel C)
      → IsWheel w
      → (turns k w).current_slot ≡ (w.current_slot + k) % length w.slots
  unfolding turns turn
  current-turns zero w g = sym (slot_here w.current_slot (length w.slots) g.0)
  current-turns (suc k) w g = following w k (turns k w) g (length-turns k w) (current-turns k w g)

  next-turns :
      (k : ℕ) (w : Wheel C)
      → IsWheel w
      → add64 (turns k w).current_slot 1 % length (turns k w).slots
        ≡ (w.current_slot + suc k) % length w.slots
  next-turns k w g = following w k (turns k w) g (length-turns k w) (current-turns k w g)

  -- A slot is as it was until the wheel comes to it.
  untouched :
      (k j : ℕ) (w : Wheel C)
      → IsWheel w
      → k ≤ j
      → j < length w.slots
      → get_or (turns k w).slots ((w.current_slot + suc j) % length w.slots) []
        ≡ get_or w.slots ((w.current_slot + suc j) % length w.slots) []
  unfolding turns turn
  untouched zero j w g le lt = refl
  untouched (suc k) j w g le lt =
      get_or-set_ne (turns k w).slots _ _ [] [] (λ e.
        apart_on_circle (length w.slots) w.current_slot (suc k) (suc j) g.0 (omega arith)
          (omega arith) (omega arith) (sym (next-turns k w g) ∙ e))
      ∙ untouched k j w g (omega arith) lt

  -- In the first round, a tick runs what was in its slot at the start.
  turn-turns :
      (k : ℕ) (w : Wheel C)
      → IsWheel w
      → k < length w.slots
      → (turn (turns k w)).0 ≡ get_or w.slots ((w.current_slot + suc k) % length w.slots) []
  unfolding turn
  turn-turns k w g lt =
      ap (λ i. get_or (turns k w).slots i []) (next-turns k w g)
      ∙ untouched k k w g (omega arith) lt

  scheduled_turn :
      (k t : ℕ) (cb : C) (w : Wheel C)
      → IsWheel w
      → k < length w.slots
      → 1 ≤ t
      → t ≤ length w.slots
      → let n = length w.slots in
        let slot = (w.current_slot + t) % n in
        get_or
          (set w.slots slot (get_or w.slots slot [] ++ (cb ∷ [])))
          ((w.current_slot + suc k) % n)
          []
        ≡ (if suc k == t
            then get_or w.slots ((w.current_slot + suc k) % n) [] ++ (cb ∷ [])
            else get_or w.slots ((w.current_slot + suc k) % n) [])
  scheduled_turn k t cb w g lt one le =
      let n : ℕ = length w.slots in
      let c : ℕ = w.current_slot in
      elim (Bool-cases (suc k == t)) [
        | inl same ↦ rw same (
            subst
              (λ u.
                get_or (set w.slots ((c + u) % n) (get_or w.slots ((c + u) % n) [] ++ (cb ∷ [])))
                  ((c + suc k) % n) []
                ≡ get_or w.slots ((c + suc k) % n) [] ++ (cb ∷ []))
              (==→eq (suc k) t same)
              (get_or-set_self w.slots ((c + suc k) % n) _ [] (mod-lt (c + suc k) (omega arith))))
        | inr other ↦ rw other (
            get_or-set_ne w.slots _ _ _ [] (elim (Bool-cases (ltb t (suc k))) [
              | inl before ↦
                  apart_on_circle n c t (suc k) g.0 (ground arith) (omega arith) (omega arith)
              | inr after ↦ λ e.
                  apart_on_circle n c (suc k) t g.0 (ground (arith, ==→ne (suc k) t other)) le
                    (omega arith) (sym e)
            ]))
      ]

  slot_after-lem :
      (steps : ℕ) (w : Wheel C)
      → 0 < length w.slots
      → slot_after steps w ≡ some (add64 w.current_slot steps % length w.slots)
  unfolding slot_after
  slot_after-lem steps w positive =
      let some_slots : (length w.slots == 0) ≡ false = ground arith in
      rw (some_slots, slot_after) refl

  tick-turn : (w : Wheel C) → 0 < length w.slots → tick w ≡ some (turn w)
  unfolding tick turn
  tick-turn w positive = rw (slot_after-lem 1 w positive, tick, turn) refl

  ticks-turns : (k : ℕ) (w : Wheel C) → 0 < length w.slots → ticks k w ≡ some (turns k w)
  unfolding ticks turns
  ticks-turns zero w positive = refl
  ticks-turns (suc k) w positive =
      let before = ticks-turns k w positive in
      let size = length-turns k w in
      let last = tick-turn (turns k w) (omega (arith, size)) in rw (before, last) refl

  runs-turns : (k : ℕ) (w : Wheel C) → 0 < length w.slots → runs k w ≡ some (turn (turns k w)).0
  unfolding runs
  runs-turns k w positive =
      let before = ticks-turns k w positive in
      let size = length-turns k w in
      let last = tick-turn (turns k w) (omega (arith, size)) in rw (before, last, runs) refl

  -- On a wheel of fewer than 2^63 slots at one of them, with a positive tick interval, scheduling is
  -- defined, and so are the ticks of a round before and after it. A callback whose delay comes to at
  -- most one round runs in the tick in which it is due, behind those that were there, and in no other
  -- tick of the round; what else the ticks run does not change.
  pub schedule_after_due :
      (delay k : ℕ) (cb : C) (w : Wheel C)
      → IsWheel w
      → 0 < w.tick_interval
      → k < length w.slots
      → whole_ticks delay w ≤ length w.slots
      → (old : List C) × (w' : Wheel C) × ((runs k w ≡ some old)
          × (schedule_after delay cb w ≡ some w')
          × (runs k w' ≡ some (if suc k == whole_ticks delay w then old ++ (cb ∷ []) else old)))
  unfolding schedule_after ticks_of
  schedule_after_due delay k cb w g interval lt le =
      let n : ℕ = length w.slots in
      let c : ℕ = w.current_slot in
      let t : ℕ = whole_ticks delay w in
      let slot : ℕ = add64 c t % n in
      let put : List C = get_or w.slots slot [] ++ (cb ∷ []) in
      let w' : Wheel C = record w { slots = set w.slots slot put } in
      let size : length w'.slots ≡ n = length-set w.slots slot put in
      let here : slot ≡ (c + t) % n = ap (λ (m : ℕ). m % n) (mod-eq_of_lt (omega arith)) in
      let runs_now : (turn (turns k w')).0
          ≡ (if suc k == t then (turn (turns k w)).0 ++ (cb ∷ []) else (turn (turns k w)).0) =
        turn-turns k w' (omega (arith, size), omega (arith, size)) (omega (arith, size))
        ∙ ap (λ (m : ℕ). get_or w'.slots ((c + suc k) % m) []) size
        ∙ ap
            (λ (i : ℕ).
              get_or (set w.slots i (get_or w.slots i [] ++ (cb ∷ []))) ((c + suc k) % n) [])
            here
        ∙ scheduled_turn k t cb w g lt (ground arith) le
        ∙ ap (λ l. if suc k == t then l ++ (cb ∷ []) else l) (sym (turn-turns k w g lt)) in
      let ticking : (w.tick_interval == 0) ≡ false = ground arith in
      let there = slot_after-lem t w (omega arith) in
      (
        (turn (turns k w)).0,
        w',
        (
          runs-turns k w (omega arith),
          rw (ticking, there, schedule_after) refl,
          runs-turns k w' (omega (arith, size)) ∙ ap some runs_now,
        ),
      )
