-- ===== src/Reconciler/DirectIndexWheel/Agrees.antt =====
-- The vector of entries with a wheel of buckets next to the hash map with a full scan.
use learn_cpp.Prelude.{
  ℕ, suc, ◌+◌, ◌-◌, ◌≤◌, ◌<◌, ◌^◌, ◌≡◌, refl, ap, ◌∙◌, Bool, true, false, none, List, [], ◌∷◌, ◌==◌,
  leb, ltb, add64, length, length-replicate, replicate, arith, inl, inr, Bool-cases,
}
use learn_cpp.Reconciler.Calls.{Call, feed, timer, calls}
use learn_cpp.Reconciler.Common.{Execution, Feed, Entry}
use learn_cpp.Reconciler.DirectIndex.{DirectEntry, blank, receive}
use learn_cpp.Reconciler.DirectIndex.View.{
  live, at, look, Matches, look-blank, look-set, keep-Matches,
}
use learn_cpp.Reconciler.DirectIndex.Receive.{
  receive-Tracks, write-Matches, receive_time, receive_start,
}
use learn_cpp.Reconciler.DirectIndexWheel
use learn_cpp.Reconciler.DirectIndexWheel.{DirectIndexWheel, expire_ticks, schedule_expiry}
use learn_cpp.Reconciler.DirectIndexWheel.Buckets.{Placed, expire_ticks_lem}
use learn_cpp.Reconciler.DirectIndexWheel.Schedule.{write-Placed}
use learn_cpp.Reconciler.IdMap.{Unique, find, find-set, set-Unique, find-erase_if, erase_if-Unique}
use learn_cpp.Reconciler.Interface.{Reconciler}
use learn_cpp.Reconciler.UnorderedScan
use learn_cpp.Reconciler.UnorderedScan.{UnorderedScan, entry_of}
use learn_cpp.Reconciler.VectorScan.Agrees.{unordered_scan}

module _ {D : Type 0} (max_id tick_mod : ℕ) where
  pub record Same (d : DirectIndexWheel D) (u : UnorderedScan D) : Type 0 where
    pub bound : d.max_id ≡ max_id
    pub modulus : d.tick_mod ≡ tick_mod
    pub window : d.window_width ≡ u.window_width
    pub timer : d.last_timer ≡ u.last_timer
    pub alerts : d.alerts ≡ u.alerts
    pub unique : Unique u.by_id
    pub placed : Placed max_id tick_mod u.last_timer d.wheel d.entries
    pub entries : (id : ℕ) → Matches u.window_width (look id d.entries) (find id u.by_id)

  look-replicate : (n id : ℕ) → look id (replicate n (blank {D = D})) ≡ none
  unfolding look
  look-replicate n id = ap live (look-blank n id)

  pub init-Same :
      (w : ℕ)
      → max_id + 1 < 2 ^ 64
      → Same (DirectIndexWheel.init w max_id tick_mod) (UnorderedScan.init w)
  unfolding DirectIndexWheel.init UnorderedScan.init find
  init-Same w small = record {
    bound = refl;
    modulus = refl;
    window = refl;
    timer = refl;
    alerts = refl;
    unique = tt;
    placed = record {
      sized = length-replicate tick_mod [];
      good = (
        length-replicate (add64 max_id 1) blank ∙ omega arith,
        λ id off. look-blank (add64 max_id 1) id,
      );
      window = λ id. rw (look-replicate (add64 max_id 1) id) tt;
    };
    entries = λ id. rw (look-replicate (add64 max_id 1) id) tt;
  }

  pub on_timer-Same :
      (now : ℕ) (d : DirectIndexWheel D) (u : UnorderedScan D)
      → u.last_timer ≤ now
      → now + 1 < 2 ^ 64
      → Same d u
      → Same (DirectIndexWheel.on_timer now d) (UnorderedScan.on_timer now u)
  unfolding DirectIndexWheel.on_timer UnorderedScan.on_timer
  on_timer-Same now d u le small s =
      let p : ℕ = u.last_timer in
      let n : ℕ = now - p in
      let run =
        expire_ticks_lem max_id tick_mod n p now d.wheel d.entries (omega arith) small s.placed in
      let first : add64 d.last_timer 1 ≡ suc p = omega (arith, s.timer) in
      let rounds : suc now - suc p ≡ n = omega arith in
      rw (s.bound, s.modulus, first, rounds)
        (record {
          bound = refl;
          modulus = refl;
          window = s.window;
          timer = refl;
          alerts = s.alerts;
          unique = erase_if-Unique _ u.by_id s.unique;
          placed = run.0;
          entries = λ id.
              rw
                (
                  run.1 id,
                  find-erase_if (λ (e : Entry D). leb (add64 e.first_ts u.window_width) now) id
                      u.by_id s.unique,
                )
                (keep-Matches now u.window_width (look id d.entries) (find id u.by_id)
                  (s.entries id));
        })

  -- The executions that the wheel may be given: their expiry time is at most a round ahead.
  abbrev pub Fits : ℕ → ℕ → Execution D → Type 0
  Fits w last exec = (0 < exec.ts) × (exec.id ≤ max_id) × (add64 exec.ts w ≤ last + tick_mod)

  -- Calls in which time does not go back.
  abbrev pub Timely : ℕ → ℕ → List (Call D) → Type 0
  Timely w last [] = Unit
  Timely w last (feed f exec ∷ cs) = Fits w last exec × Timely w last cs
  Timely w last (timer now ∷ cs) = ((last ≤ now) × (now + 1 < 2 ^ 64)) × Timely w now cs

  module _ (price_eq : D → D → Bool) (pos_mod : 0 < tick_mod) where
    pub on_feed-Same :
        (f : Feed) (exec : Execution D) (d : DirectIndexWheel D) (u : UnorderedScan D)
        → Fits u.window_width u.last_timer exec
        → Same d u
        → Same
            (DirectIndexWheel.on_feed price_eq f exec d)
            (UnorderedScan.on_feed price_eq f exec u)
    unfolding DirectIndexWheel.on_feed UnorderedScan.on_feed
    on_feed-Same f exec d u fits s =
        elim (Bool-cases (leb (add64 exec.ts d.window_width) d.last_timer)) [
          | inl late ↦
              let late' : leb (add64 exec.ts u.window_width) u.last_timer ≡ true =
                ground (arith, s.window, s.timer) in
              rw (late, late') s
          | inr early ↦
              let early' : leb (add64 exec.ts u.window_width) u.last_timer ≡ false =
                ground (arith, s.window, s.timer) in
              let in_range : ltb d.max_id exec.id ≡ false = ground (arith, s.bound, fits.1) in
              let id : ℕ = exec.id in
              let ent : DirectEntry D = at id d.entries in
              let w : ℕ = u.window_width in
              let e : DirectEntry D × Bool = receive price_eq w f exec ent in
              let v : Entry D × Bool =
                UnorderedScan.receive price_eq w f exec (entry_of (find id u.by_id)) in
              let seen : Matches w (live ent) (find id u.by_id) = unfold look in s.entries id in
              let got =
                receive-Tracks price_eq w f exec ent (find id u.by_id) fits.0 (s.placed.good.1 id)
                  seen in
              let lt : id < length d.entries = omega (arith, s.placed.good.0, fits.1) in
              rw (early, early', in_range, s.window, s.modulus)
                (record {
                  bound = s.bound;
                  modulus = refl;
                  window = refl;
                  timer = s.timer;
                  alerts = rw (got.0, s.alerts) refl;
                  unique = set-Unique id v.0 u.by_id s.unique;
                  placed =
                      write-Placed max_id tick_mod u.last_timer id e.0 d.wheel d.entries pos_mod
                        fits.1 got.1.active (λ on. receive_time price_eq w f exec ent on)
                        (λ off.
                          let start = receive_start price_eq w f exec ent off in
                          (ground (arith, start), omega (arith, start, fits.2)))
                        s.placed;
                  entries = λ j.
                      rw (look-set id j e.0 d.entries lt, find-set id j v.0 u.by_id)
                        (write-Matches w (id == j) e.0 v.0 _ _ got.1 (s.entries j));
                })
        ]

    abbrev pub direct_index_wheel : Reconciler D (DirectIndexWheel D)
    direct_index_wheel = record {
      on_feed = DirectIndexWheel.on_feed price_eq;
      on_timer = DirectIndexWheel.on_timer;
      alerts = λ r. r.alerts;
    }

    pub on_feed_timer :
        (f : Feed) (exec : Execution D) (u : UnorderedScan D)
        → ((UnorderedScan.on_feed price_eq f exec u).last_timer ≡ u.last_timer)
          × ((UnorderedScan.on_feed price_eq f exec u).window_width ≡ u.window_width)
    unfolding UnorderedScan.on_feed
    on_feed_timer f exec u = elim (Bool-cases (leb (add64 exec.ts u.window_width) u.last_timer)) [
      | inl late ↦ rw late (refl, refl)
      | inr early ↦ rw early (refl, refl)
    ]

    pub on_timer_timer :
        (now : ℕ) (u : UnorderedScan D)
        → ((UnorderedScan.on_timer now u).last_timer ≡ now)
          × ((UnorderedScan.on_timer now u).window_width ≡ u.window_width)
    unfolding UnorderedScan.on_timer
    on_timer_timer now u = (refl, refl)

    calls-Same :
        (w last : ℕ) (cs : List (Call D)) (d : DirectIndexWheel D) (u : UnorderedScan D)
        → u.window_width ≡ w
        → u.last_timer ≡ last
        → Timely w last cs
        → Same d u
        → Same (calls direct_index_wheel cs d) (calls (unordered_scan price_eq) cs u)
    unfolding calls
    calls-Same w last [] d u ew el t s = s
    calls-Same w last (feed f exec ∷ cs) d u ew el (fits, t) s =
        let kept = on_feed_timer f exec u in
        calls-Same w last cs _ _ (kept.1 ∙ ew) (kept.0 ∙ el) t
          (on_feed-Same f exec d u (rw (ew, el) fits) s)
    calls-Same w last (timer now ∷ cs) d u ew el (order, t) s =
        let kept = on_timer_timer now u in
        calls-Same w now cs _ _ (kept.1 ∙ ew) kept.0 t
          (on_timer-Same now d u (rw el order.0) order.1 s)

    -- The class with a wheel of `tick_mod` buckets, at least one, raises as many alerts as the hash map
    -- with a full scan in every sequence of calls where the ids are at most `max_id`, which is below
    -- 2^64 - 1, no execution has time 0, timers do not go back or reach 2^64 - 1, and no expiry time,
    -- the time of the execution and the window modulo 2^64, is more than `tick_mod` after the last
    -- timer before it.
    pub direct_index_wheel_alerts :
        (w : ℕ) (cs : List (Call D))
        → max_id + 1 < 2 ^ 64
        → Timely w 0 cs
        → (calls direct_index_wheel cs (DirectIndexWheel.init w max_id tick_mod)).alerts
          ≡ (calls (unordered_scan price_eq) cs (UnorderedScan.init w)).alerts
    unfolding UnorderedScan.init
    direct_index_wheel_alerts w cs small t =
        (calls-Same w 0 cs _ _ refl refl t (init-Same w small)).alerts
