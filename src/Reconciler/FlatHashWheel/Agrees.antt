-- ===== src/Reconciler/FlatHashWheel/Agrees.antt =====
-- The open-addressing hash table with a wheel of buckets next to the vector with such a wheel.
use learn_cpp.Prelude.{
  ℕ, zero, suc, ◌+◌, ◌-◌, ◌*◌, ◌≤◌, ◌<◌, ◌^◌, ◌≡◌, refl, sym, ap, ◌∙◌, Bool, Option, none, some,
  List, [], ◌∷◌, add64, arith,
}
use learn_cpp.Reconciler.Calls.{
  Call, feed, timer, calls, try_call, try_calls, try_calls-cons, feeds, ProperIds,
}
use learn_cpp.Reconciler.DirectIndex.View.{live, look, look-blank}
use learn_cpp.Reconciler.DirectIndexWheel
use learn_cpp.Reconciler.DirectIndexWheel.{DirectIndexWheel}
use learn_cpp.Reconciler.DirectIndexWheel.Agrees.{
  Fits, Timely, direct_index_wheel, direct_index_wheel_alerts, on_feed_timer, on_timer_timer,
}
use learn_cpp.Reconciler.DirectIndexWheel.Agrees as Vector
use learn_cpp.Reconciler.DirectIndexWheel.Buckets.{Good}
use learn_cpp.Reconciler.FlatHash
use learn_cpp.Reconciler.FlatHash.{Table, find_or_insert, write_at}
use learn_cpp.Reconciler.FlatHash.Capacity.{init_lem}
use learn_cpp.Reconciler.FlatHashWheel
use learn_cpp.Reconciler.FlatHashWheel.{FlatHashWheel, receive, untouched}
use learn_cpp.Reconciler.UnorderedScan
use learn_cpp.Reconciler.UnorderedScan.{UnorderedScan}
use learn_cpp.Reconciler.VectorScan.Agrees.{unordered_scan}
use learn_cpp.Reconciler.FlatHashWheel.Steps.{Same, on_timer-Same, on_feed-Same}

module _ {D : Type 0} where
  init_eq :
      (w expected_ids tick_mod : ℕ) (tb : Table D)
      → FlatHash.init expected_ids ≡ some tb
      → FlatHashWheel.init w expected_ids tick_mod ≡ some (FlatHashWheel.with_table w tick_mod tb)
  unfolding FlatHashWheel.init
  init_eq w expected_ids tick_mod tb h = rw (FlatHashWheel.init, h) refl

  init-Same :
      (w expected_ids max_id tick_mod : ℕ)
      → expected_ids ≤ 2 ^ 62
      → (h : FlatHashWheel D) × ((FlatHashWheel.init w expected_ids tick_mod ≡ some h)
          × Same (expected_ids * 2 - 1) h (DirectIndexWheel.init w max_id tick_mod))
  unfolding DirectIndexWheel.init look
  init-Same w expected_ids max_id tick_mod small =
      let (tb, made) = init_lem expected_ids small in
      (
        FlatHashWheel.with_table w tick_mod tb,
        (
          init_eq w expected_ids tick_mod tb made.returns,
          record {
            window = refl;
            modulus = refl;
            timer = refl;
            alerts = refl;
            wheel = refl;
            linked = record {
              held = λ id. none;
              models = made.takes;
              started = λ id. tt;
              same = λ id. sym (ap live (look-blank (add64 max_id 1) id));
            };
          },
        ),
      )

  module _ (max_id tick_mod : ℕ) (price_eq : D → D → Bool) (pos_mod : 0 < tick_mod) where
    abbrev on_wheel : List (Call D) → FlatHashWheel D → Option (FlatHashWheel D)
    on_wheel = try_calls (FlatHashWheel.on_feed price_eq) FlatHashWheel.on_timer

    abbrev on_vector : List (Call D) → DirectIndexWheel D → DirectIndexWheel D
    on_vector = calls (direct_index_wheel max_id tick_mod price_eq pos_mod)

    abbrev Step : ℕ → ℕ → ℕ → FlatHashWheel D → DirectIndexWheel D → UnorderedScan D → Type 0
    Step room w last h d u =
        (u.window_width ≡ w)
        × (u.last_timer ≡ last)
        × Same room h d
        × Vector.Same max_id tick_mod d u

    Same-Good :
        (d : DirectIndexWheel D) (u : UnorderedScan D)
        → Vector.Same max_id tick_mod d u
        → Good d.max_id d.tick_mod d.entries
    Same-Good d u v = rw (v.bound) v.placed.good

    calls-Same :
        (cs : List (Call D)) (room w last : ℕ) (h : FlatHashWheel D) (d : DirectIndexWheel D)
        (u : UnorderedScan D)
        → feeds cs ≤ room
        → ProperIds cs
        → Timely max_id tick_mod w last cs
        → Step room w last h d u
        → (r : FlatHashWheel D) × ((on_wheel cs h ≡ some r) × (r.alerts ≡ (on_vector cs d).alerts))
    unfolding try_calls try_call calls
    calls-Same [] room w last h d u le ids t (ew, el, s, v) = (h, (refl, s.alerts))
    calls-Same (feed f exec ∷ cs) zero w last h d u le ids t step = absurd (omega arith)
    calls-Same (feed f exec ∷ cs) (suc room) w last h d u le (two, ids) (fits, t) (ew, el, s, v) =
        let kept = on_feed_timer max_id tick_mod price_eq pos_mod f exec u in
        let (h', (run, s')) =
          on_feed-Same price_eq room f exec h d two (rw v.bound fits.1) fits.0 (Same-Good d u v)
            s in
        let v' =
          Vector.on_feed-Same max_id tick_mod price_eq pos_mod f exec d u (rw (ew, el) fits) v in
        let (r, (rest, same)) =
          calls-Same cs room w last h' _ _ (omega arith) ids t (kept.1 ∙ ew, kept.0 ∙ el, s', v') in
        (r, (try_calls-cons _ _ (feed f exec) cs h h' run ∙ rest, same))
    calls-Same (timer now ∷ cs) room w last h d u le ids (order, t) (ew, el, s, v) =
        let kept = on_timer_timer max_id tick_mod price_eq pos_mod now u in
        let (h', (run, s')) = on_timer-Same room now h d (Same-Good d u v) s in
        let v' = Vector.on_timer-Same max_id tick_mod now d u (rw el order.0) order.1 v in
        let (r, (rest, same)) =
          calls-Same cs room w now h' _ _ le ids t (kept.1 ∙ ew, kept.0, s', v') in
        (r, (try_calls-cons _ _ (timer now) cs h h' run ∙ rest, same))

    -- The class with the open-addressing table and the wheel: when the constructor is told to expect
    -- at most 2^62 ids, the calls bring fewer executions than twice that many, the ids are at least 2
    -- and at most some bound below 2^64 - 1, `tick_mod` is positive, no execution has time 0, timers do
    -- not go back or reach 2^64 - 1, and no expiry time, the time of the execution and the window
    -- modulo 2^64, is more than `tick_mod` after the last timer before it, then the constructor and
    -- every call return, and the alerts are those of the hash map with a full scan.
    pub flat_hash_wheel_alerts :
        (w expected_ids : ℕ) (cs : List (Call D))
        → expected_ids ≤ 2 ^ 62
        → max_id + 1 < 2 ^ 64
        → feeds cs < expected_ids * 2
        → ProperIds cs
        → Timely max_id tick_mod w 0 cs
        → (h r : FlatHashWheel D) × ((FlatHashWheel.init w expected_ids tick_mod ≡ some h)
            × (try_calls (FlatHashWheel.on_feed price_eq) FlatHashWheel.on_timer cs h ≡ some r)
            × (r.alerts ≡ (calls (unordered_scan price_eq) cs (UnorderedScan.init w)).alerts))
    unfolding UnorderedScan.init
    flat_hash_wheel_alerts w expected_ids cs fits small few ids t =
        let (h, (made, s)) = init-Same w expected_ids max_id tick_mod fits in
        let (r, (run, same)) =
          calls-Same cs (expected_ids * 2 - 1) w 0 h _ (UnorderedScan.init w) (omega arith) ids t
            (refl, refl, s, Vector.init-Same max_id tick_mod w small) in
        (
          h,
          r,
          (
            made,
            run,
            same ∙ direct_index_wheel_alerts max_id tick_mod price_eq pos_mod w cs small t,
          ),
        )
