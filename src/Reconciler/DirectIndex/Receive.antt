-- ===== src/Reconciler/DirectIndex/Receive.antt =====
-- `receive` on an entry of the vector, next to what the full scan does to its entry.
use learn_cpp.Prelude.{
  ℕ, ◌<◌, ◌≡◌, refl, sym, ap, ◌∙◌, subst, Bool, true, false, not, ◌&&◌, Option, none, some,
  if◌then◌else◌, ◌==◌, leb, ltb, add64, arith, inl, inr, Bool-cases,
}
use learn_cpp.Reconciler.Common.{Execution, Feed, Entry, any_mismatch}
use learn_cpp.Reconciler.DirectIndex.{DirectEntry, blank, activate, store, receive}
use learn_cpp.Reconciler.UnorderedScan
use learn_cpp.Reconciler.UnorderedScan.{entry_of}
use learn_cpp.Reconciler.DirectIndex.View.{live, Tracks, Matches}

module _ {D : Type 0} where
  activate_on : (w ts : ℕ) (e : DirectEntry D) → e.active ≡ true → activate w ts e ≡ e
  unfolding activate
  activate_on w ts e on = rw on

  activate_off :
      (w ts : ℕ) (e : DirectEntry D) → e.active ≡ false → (activate w ts e).expire_at ≡ add64 ts w
  unfolding activate
  activate_off w ts e off = rw off

  touch_started :
      (ts : ℕ) (u : Entry D) → 0 < u.first_ts → UnorderedScan.touch ts u ≡ record u { last_ts = ts }
  unfolding UnorderedScan.touch
  touch_started ts u pos = let started : (u.first_ts == 0) ≡ false = ground arith in rw started

  live_on :
      (w : ℕ) (e : DirectEntry D) (p : Option (Entry D))
      → e.active ≡ true
      → Matches w (live e) p
      → Matches w (some e) p
  live_on w e p on m = subst (λ b. Matches w (if b then some e else none) p) on m

  live_off :
      (w : ℕ) (e : DirectEntry D) (p : Option (Entry D))
      → e.active ≡ false
      → Matches w (live e) p
      → Matches w none p
  live_off w e p off m = subst (λ b. Matches w (if b then some e else none) p) off m

  activate-Tracks :
      (w ts : ℕ) (e : DirectEntry D) (p : Option (Entry D))
      → 0 < ts
      → (e.active ≡ false → e ≡ blank)
      → Matches w (live e) p
      → Tracks w (activate w ts e) (UnorderedScan.touch ts (entry_of p))
  unfolding activate UnorderedScan.touch
  activate-Tracks w ts e none pos clean m = elim (Bool-cases e.active) [
    | inl on ↦ elim (live_on w e none on m) [ ]
    | inr off ↦ rw (clean off) (record {
      active = refl;
      first = refl;
      expire = refl;
      positive = pos;
      one = refl;
      two = refl;
      three = refl;
      alerted = refl;
    })
  ]
  activate-Tracks w ts e (some u) pos clean m = elim (Bool-cases e.active) [
    | inl on ↦
        let t : Tracks w e u = live_on w e (some u) on m in
        rw (activate_on w ts e on, touch_started ts u t.positive)
          (record {
            active = t.active;
            first = t.first;
            expire = t.expire;
            positive = t.positive;
            one = t.one;
            two = t.two;
            three = t.three;
            alerted = t.alerted;
          })
    | inr off ↦ elim (live_off w e (some u) off m) [ ]
  ]

  store-Tracks :
      (w : ℕ) (f : Feed) (exec : Execution D) (e : DirectEntry D) (u : Entry D)
      → Tracks w e u
      → Tracks w (store f exec e) (learn_cpp.Reconciler.Common.store f exec u)
  unfolding store learn_cpp.Reconciler.Common.store
  store-Tracks w Feed.one exec e u t = record {
    active = t.active;
    first = t.first;
    expire = t.expire;
    positive = t.positive;
    one = refl;
    two = t.two;
    three = t.three;
    alerted = t.alerted;
  }
  store-Tracks w Feed.two exec e u t = record {
    active = t.active;
    first = t.first;
    expire = t.expire;
    positive = t.positive;
    one = t.one;
    two = refl;
    three = t.three;
    alerted = t.alerted;
  }
  store-Tracks w Feed.three exec e u t = record {
    active = t.active;
    first = t.first;
    expire = t.expire;
    positive = t.positive;
    one = t.one;
    two = t.two;
    three = refl;
    alerted = t.alerted;
  }

  pub live-some : (e : DirectEntry D) → e.active ≡ true → live e ≡ some e
  live-some e on = ap (λ b. if b then some e else none) on

  pub write-Matches :
      (w : ℕ) (b : Bool) (e : DirectEntry D) (u : Entry D) (o : Option (DirectEntry D))
      (p : Option (Entry D))
      → Tracks w e u
      → Matches w o p
      → Matches w (if b then live e else o) (if b then some u else p)
  write-Matches w true e u o p t m =
      subst (λ q. Matches w q (some u)) (sym (live-some e t.active)) t
  write-Matches w false e u o p t m = m

  store_time :
      (f : Feed) (exec : Execution D) (e : DirectEntry D) → (store f exec e).expire_at ≡ e.expire_at
  unfolding store
  store_time Feed.one exec e = refl
  store_time Feed.two exec e = refl
  store_time Feed.three exec e = refl

  module _ (price_eq : D → D → Bool) where
    judged :
        (w ts : ℕ) (e : DirectEntry D) (u : Entry D)
        → Tracks w e u
        → let got : DirectEntry D × Bool =
            if not e.alerted && any_mismatch price_eq e.one e.two e.three && ltb ts e.expire_at
            then (record e { alerted = true }, true)
            else (e, false) in
          let want : Entry D × Bool =
            if not u.alerted
              && any_mismatch price_eq u.one u.two u.three
              && not (leb (add64 u.first_ts w) ts)
            then (record u { alerted = true }, true)
            else (u, false) in
          (got.1 ≡ want.1) × Tracks w got.0 want.0
    judged w ts e u t =
        let fits : ltb ts e.expire_at ≡ not (leb (add64 u.first_ts w) ts) =
          ground (arith, t.expire) in
        elim (Bool-cases (
          not u.alerted
          && any_mismatch price_eq u.one u.two u.three
          && not (leb (add64 u.first_ts w) ts))) [
            | inl hit ↦
                rw (t.alerted, t.one, t.two, t.three, fits, hit)
                  (
                    refl,
                    record {
                      active = t.active;
                      first = t.first;
                      expire = t.expire;
                      positive = t.positive;
                      one = refl;
                      two = refl;
                      three = refl;
                      alerted = refl;
                    },
                  )
            | inr miss ↦
                rw (t.alerted, t.one, t.two, t.three, fits, miss)
                  (
                    refl,
                    record {
                      active = t.active;
                      first = t.first;
                      expire = t.expire;
                      positive = t.positive;
                      one = refl;
                      two = refl;
                      three = refl;
                      alerted = refl;
                    },
                  )
          ]

    -- Both classes make the same of an execution.
    pub receive-Tracks :
        (w : ℕ) (f : Feed) (exec : Execution D) (e : DirectEntry D) (p : Option (Entry D))
        → 0 < exec.ts
        → (e.active ≡ false → e ≡ blank)
        → Matches w (live e) p
        → let got = receive price_eq w f exec e in
          let want = UnorderedScan.receive price_eq w f exec (entry_of p) in
          (got.1 ≡ want.1) × Tracks w got.0 want.0
    unfolding receive UnorderedScan.receive
    receive-Tracks w f exec e p pos clean m =
        judged w exec.ts (store f exec (activate w exec.ts e))
          (learn_cpp.Reconciler.Common.store f exec (UnorderedScan.touch exec.ts (entry_of p)))
          (store-Tracks w f exec _ _ (activate-Tracks w exec.ts e p pos clean m))

    -- An active entry keeps its expiry time.
    pub receive_time :
        (w : ℕ) (f : Feed) (exec : Execution D) (e : DirectEntry D)
        → e.active ≡ true
        → (receive price_eq w f exec e).0.expire_at ≡ e.expire_at
    unfolding receive
    receive_time w f exec e on =
        let a : DirectEntry D = store f exec (activate w exec.ts e) in
        let time : a.expire_at ≡ e.expire_at =
          store_time f exec (activate w exec.ts e)
          ∙ ap (λ (x : DirectEntry D). x.expire_at) (activate_on w exec.ts e on) in
        elim (Bool-cases
          (not a.alerted && any_mismatch price_eq a.one a.two a.three && ltb exec.ts a.expire_at)) [
            | inl hit ↦ rw hit time
            | inr miss ↦ rw miss time
          ]

    -- An entry that was inactive starts its window at the execution.
    pub receive_start :
        (w : ℕ) (f : Feed) (exec : Execution D) (e : DirectEntry D)
        → e.active ≡ false
        → (receive price_eq w f exec e).0.expire_at ≡ add64 exec.ts w
    unfolding receive
    receive_start w f exec e off =
        let a : DirectEntry D = store f exec (activate w exec.ts e) in
        let time : a.expire_at ≡ add64 exec.ts w =
          store_time f exec (activate w exec.ts e) ∙ activate_off w exec.ts e off in
        elim (Bool-cases
          (not a.alerted && any_mismatch price_eq a.one a.two a.three && ltb exec.ts a.expire_at)) [
            | inl hit ↦ rw hit time
            | inr miss ↦ rw miss time
          ]
