-- ===== src/Reconciler/FlatHashWheel/Steps.antt =====
-- `onTimer` and `onFeed` of the open-addressing hash table with a wheel, next to those of the vector
-- with a wheel.
use learn_cpp.Prelude.{
  ℕ, suc, ◌-◌, ◌≤◌, ◌<◌, ◌≡◌, refl, sym, ap, ◌∙◌, Bool, true, false, Option, none, some, List,
  if◌then◌else◌, ◌==◌, leb, ltb, add64, length, arith, inl, inr, Bool-cases,
}
use learn_cpp.Reconciler.Common.{Execution, Feed}
use learn_cpp.Reconciler.DirectIndex
use learn_cpp.Reconciler.DirectIndex.{DirectEntry, blank}
use learn_cpp.Reconciler.DirectIndex.Receive.{receive_start}
use learn_cpp.Reconciler.DirectIndex.View.{at, live, look-set}
use learn_cpp.Reconciler.DirectIndexWheel
use learn_cpp.Reconciler.DirectIndexWheel.{DirectIndexWheel}
use learn_cpp.Reconciler.DirectIndexWheel.Buckets.{Good}
use learn_cpp.Reconciler.FlatHash.{Table, find_or_insert}
use learn_cpp.Reconciler.FlatHash.Upsert.{find_or_insert_lem}
use learn_cpp.Reconciler.FlatHash.Models.{weaken}
use learn_cpp.Reconciler.FlatHashWheel
use learn_cpp.Reconciler.FlatHashWheel.{FlatHashWheel, receive, untouched}
use learn_cpp.Reconciler.FlatHashWheel.Expire.{Linked, expire_ticks-Linked}
use learn_cpp.Reconciler.FlatHashWheel.Receive.{
  direct, direct?, direct_or, Started, at_direct, first_of, receive-direct, untouched_started,
}
use learn_cpp.Reconciler.UnorderedHeap.{HeapEntry, entry_of}

module _ {D : Type 0} where
  pub record Same (room : ℕ) (h : FlatHashWheel D) (d : DirectIndexWheel D) : Type 0 where
    pub window : h.window_width ≡ d.window_width
    pub modulus : h.tick_mod ≡ d.tick_mod
    pub timer : h.last_timer ≡ d.last_timer
    pub alerts : h.alerts ≡ d.alerts
    pub wheel : h.wheel ≡ d.wheel
    pub linked : Linked room h.table d.entries

  on_timer-done :
      (now : ℕ) (h : FlatHashWheel D) (wheel : List (List ℕ)) (tb : Table D)
      → FlatHashWheel.expire_ticks h.tick_mod
          (suc now - add64 h.last_timer 1)
          (add64 h.last_timer 1)
          (h.wheel, h.table)
        ≡ some (wheel, tb)
      → FlatHashWheel.on_timer now h
        ≡ some (record h { last_timer = now; wheel = wheel; table = tb })
  unfolding FlatHashWheel.on_timer
  on_timer-done now h wheel tb run = rw (FlatHashWheel.on_timer, run) refl

  pub on_timer-Same :
      (room now : ℕ) (h : FlatHashWheel D) (d : DirectIndexWheel D)
      → Good d.max_id d.tick_mod d.entries
      → Same room h d
      → (r : FlatHashWheel D) × ((FlatHashWheel.on_timer now h ≡ some r)
          × Same room r (DirectIndexWheel.on_timer now d))
  unfolding DirectIndexWheel.on_timer
  on_timer-Same room now h d good s =
      let first : ℕ = add64 d.last_timer 1 in
      let (got, (run, l)) =
        expire_ticks-Linked room d.max_id d.tick_mod (suc now - first) first d.wheel h.table
          d.entries good s.linked in
      (
        _,
        (
          on_timer-done now h _ got (rw (s.modulus, s.timer, s.wheel) run),
          record {
            window = s.window;
            modulus = s.modulus;
            timer = refl;
            alerts = s.alerts;
            wheel = refl;
            linked = l;
          },
        ),
      )

  module _ (price_eq : D → D → Bool) where
    -- Both put the id into the bucket of the same time, or neither does.
    scheduled :
        (w tick_mod : ℕ) (f : Feed) (exec : Execution D) (wheel : List (List ℕ))
        (o : Option (HeapEntry D))
        → Started o
        → (if untouched (entry_of o)
            then FlatHashWheel.schedule tick_mod exec.id (add64 exec.ts w) wheel
            else wheel)
          ≡ (if (direct_or o).active
              then wheel
              else DirectIndexWheel.schedule_expiry tick_mod exec.id
                  (DirectIndex.receive price_eq w f exec (direct_or o)).0.expire_at
                  wheel)
    unfolding FlatHashWheel.schedule DirectIndexWheel.schedule_expiry
    scheduled w tick_mod f exec wheel none s = rw (receive_start price_eq w f exec blank refl) refl
    scheduled w tick_mod f exec wheel (some e) s = rw (untouched_started e s) refl

    first_pos : (ts : ℕ) (o : Option (HeapEntry D)) → 0 < ts → Started o → 0 < first_of ts o
    first_pos ts none pos s = pos
    first_pos ts (some e) pos s = s

    write-Started :
        (b : Bool) (e : HeapEntry D) (o : Option (HeapEntry D))
        → 0 < e.first_ts
        → Started o
        → Started (if b then some e else o)
    write-Started true e o pos s = pos
    write-Started false e o pos s = s

    direct-write :
        (b : Bool) (e : HeapEntry D) (o : Option (HeapEntry D))
        → direct? (if b then some e else o) ≡ (if b then live (direct e) else direct? o)
    direct-write true e o = refl
    direct-write false e o = refl

    on_feed-late :
        (f : Feed) (exec : Execution D) (h : FlatHashWheel D)
        → leb (add64 exec.ts h.window_width) h.last_timer ≡ true
        → FlatHashWheel.on_feed price_eq f exec h ≡ some h
    unfolding FlatHashWheel.on_feed
    on_feed-late f exec h late = rw late refl

    on_feed-slot :
        (f : Feed) (exec : Execution D) (h : FlatHashWheel D) (idx : ℕ) (tb : Table D)
        → leb (add64 exec.ts h.window_width) h.last_timer ≡ false
        → find_or_insert exec.id h.table ≡ some (idx, tb)
        → FlatHashWheel.on_feed price_eq f exec h
          ≡ some (FlatHashWheel.feed_slot price_eq f exec h idx tb)
    unfolding FlatHashWheel.on_feed
    on_feed-slot f exec h idx tb early run = rw (early, FlatHashWheel.on_feed, run) refl

    pub on_feed-Same :
        (room : ℕ) (f : Feed) (exec : Execution D) (h : FlatHashWheel D) (d : DirectIndexWheel D)
        → 2 ≤ exec.id
        → exec.id ≤ d.max_id
        → 0 < exec.ts
        → Good d.max_id d.tick_mod d.entries
        → Same (suc room) h d
        → (r : FlatHashWheel D) × ((FlatHashWheel.on_feed price_eq f exec h ≡ some r)
            × Same room r (DirectIndexWheel.on_feed price_eq f exec d))
    unfolding DirectIndexWheel.on_feed FlatHashWheel.feed_slot
    on_feed-Same room f exec h d two le pos (size, clean) s =
        let l = s.linked in
        let id : ℕ = exec.id in
        let w : ℕ = d.window_width in
        elim (Bool-cases (leb (add64 exec.ts w) d.last_timer)) [
          | inl late ↦ (
            h,
            (
              on_feed-late f exec h (rw (s.window, s.timer) late),
              rw late (record {
                window = s.window;
                modulus = s.modulus;
                timer = s.timer;
                alerts = s.alerts;
                wheel = s.wheel;
                linked = record {
                  held = l.held;
                  models = weaken room (suc room) h.table l.held (omega arith) l.models;
                  started = l.started;
                  same = l.same;
                };
              }),
            ),
          )
          | inr early ↦
              let (idx, (tb, up)) = find_or_insert_lem room id h.table l.held two l.models in
              let o : Option (HeapEntry D) = l.held id in
              let e : HeapEntry D × Bool = receive price_eq w f exec (entry_of o) in
              let v : DirectEntry D × Bool = DirectIndex.receive price_eq w f exec (direct_or o) in
              let got = receive-direct price_eq w f exec o (l.started id) in
              let there : at id d.entries ≡ direct_or o =
                at_direct id d.entries o clean (l.same id) in
              let within : ltb d.max_id id ≡ false = ground (arith, le) in
              let lt : id < length d.entries = omega (arith, size) in
              (
                FlatHashWheel.feed_slot price_eq f exec h idx tb,
                (
                  on_feed-slot f exec h idx tb (rw (s.window, s.timer) early) up.returns,
                  rw (early, within, there, up.reads, s.window, s.modulus, s.wheel, s.alerts)
                      (record {
                        window = refl;
                        modulus = refl;
                        timer = s.timer;
                        alerts = ap (λ b. if b then add64 d.alerts 1 else d.alerts) got.hit;
                        wheel = scheduled w d.tick_mod f exec d.wheel o (l.started id);
                        linked = record {
                          held = λ j. if id == j then some e.0 else l.held j;
                          models = up.writes e.0;
                          started = λ j.
                              write-Started (id == j) e.0 (l.held j)
                                (rw got.start (first_pos exec.ts o pos (l.started id)))
                                (l.started j);
                          same = λ j.
                              direct-write (id == j) e.0 (l.held j)
                              ∙ ap (λ x. if id == j then live x else direct? (l.held j)) got.same
                              ∙ ap (λ x. if id == j then live v.0 else x) (l.same j)
                              ∙ sym (look-set id j v.0 d.entries lt);
                        };
                      }),
                ),
              )
        ]
