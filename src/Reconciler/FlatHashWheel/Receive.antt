-- ===== src/Reconciler/FlatHashWheel/Receive.antt =====
-- What `onFeed` makes of an entry of the hash table, next to what it makes of an entry of the vector.
use learn_cpp.Prelude.{
  ℕ, ◌<◌, ◌≡◌, refl, sym, ap, ◌∙◌, Bool, true, false, not, ◌&&◌, Option, none, some, List,
  if◌then◌else◌, ltb, add64, arith, inl, inr, Bool-cases,
}
use learn_cpp.Reconciler.Common.{Execution, Feed, any_mismatch}
use learn_cpp.Reconciler.DirectIndex
use learn_cpp.Reconciler.DirectIndex.{DirectEntry, blank}
use learn_cpp.Reconciler.DirectIndex.View.{at, look, Clean}
use learn_cpp.Reconciler.DirectIndex.Receive.{live-some}
use learn_cpp.Reconciler.FlatHashWheel.{touch, receive, untouched}
use learn_cpp.Reconciler.UnorderedHeap
use learn_cpp.Reconciler.UnorderedHeap.{HeapEntry, fresh, entry_of}

module _ {D : Type 0} where
  -- The entry of the vector that tells the same.
  abbrev pub direct : HeapEntry D → DirectEntry D
  direct e = record {
    active = true;
    alerted = e.alerted;
    first_ts = e.first_ts;
    expire_at = e.expire_at;
    one = e.one;
    two = e.two;
    three = e.three;
  }

  abbrev pub direct? : Option (HeapEntry D) → Option (DirectEntry D)
  direct? none = none
  direct? (some e) = some (direct e)

  abbrev pub direct_or : Option (HeapEntry D) → DirectEntry D
  direct_or none = blank
  direct_or (some e) = direct e

  abbrev pub Started : Option (HeapEntry D) → Type 0
  Started none = Unit
  Started (some e) = 0 < e.first_ts

  abbrev the : Option (DirectEntry D) → DirectEntry D
  the none = blank
  the (some e) = e

  pub at_direct :
      (id : ℕ) (es : List (DirectEntry D)) (o : Option (HeapEntry D))
      → Clean es
      → direct? o ≡ look id es
      → at id es ≡ direct_or o
  unfolding look
  at_direct id es none clean h = elim (Bool-cases (at id es).active) [
    | inl on ↦ absurd (let seen = h ∙ live-some (at id es) on in ground arith)
    | inr off ↦ clean id off
  ]
  at_direct id es (some e) clean h = elim (Bool-cases (at id es).active) [
    | inl on ↦ ap the (sym (live-some (at id es) on) ∙ sym h)
    | inr off ↦
        absurd (let seen = h ∙ ap (λ b. if b then some (at id es) else none) off in ground arith)
  ]

  abbrev begun : ℕ → ℕ → HeapEntry D
  begun w ts = record fresh { first_ts = ts; expire_at = add64 ts w; last_ts = ts }

  touch-fresh : (w ts : ℕ) → touch w ts fresh ≡ begun w ts
  unfolding touch
  touch-fresh w ts = refl

  pub untouched_started : (e : HeapEntry D) → 0 < e.first_ts → untouched e ≡ false
  untouched_started e pos = ground arith

  touch_started :
      (w ts : ℕ) (e : HeapEntry D) → 0 < e.first_ts → touch w ts e ≡ record e { last_ts = ts }
  unfolding touch
  touch_started w ts e pos = rw (touch, untouched_started e pos) refl

  abbrev pub first_of : ℕ → Option (HeapEntry D) → ℕ
  first_of ts none = ts
  first_of ts (some e) = e.first_ts

  module _ (price_eq : D → D → Bool) where
    -- What both make of the entry after the `switch`.
    pub record Judged (got : HeapEntry D × Bool) (want : DirectEntry D × Bool) (first : ℕ)
        : Type 0 where
      pub hit : got.1 ≡ want.1
      pub same : direct got.0 ≡ want.0
      pub start : got.0.first_ts ≡ first

    abbrev bad : ℕ → HeapEntry D → Bool
    bad ts e = not e.alerted && any_mismatch price_eq e.one e.two e.three && ltb ts e.expire_at

    abbrev judge : ℕ → HeapEntry D → HeapEntry D × Bool
    judge ts e = if bad ts e then (record e { alerted = true }, true) else (e, false)

    receive_touched :
        (w : ℕ) (f : Feed) (exec : Execution D) (e x : HeapEntry D)
        → touch w exec.ts e ≡ x
        → receive price_eq w f exec e ≡ judge exec.ts (UnorderedHeap.store f exec x)
    unfolding receive
    receive_touched w f exec e x h = ap (λ t. judge exec.ts (UnorderedHeap.store f exec t)) h

    judged :
        (ts : ℕ) (e : HeapEntry D)
        → Judged
            (judge ts e)
            (if bad ts e then (record (direct e) { alerted = true }, true) else (direct e, false))
            e.first_ts
    judged ts e = elim (Bool-cases (bad ts e)) [
      | inl hit ↦ rw hit (record { hit = refl; same = refl; start = refl })
      | inr miss ↦ rw miss (record { hit = refl; same = refl; start = refl })
    ]

    pub receive-direct :
        (w : ℕ) (f : Feed) (exec : Execution D) (o : Option (HeapEntry D))
        → Started o
        → Judged
            (receive price_eq w f exec (entry_of o))
            (DirectIndex.receive price_eq w f exec (direct_or o))
            (first_of exec.ts o)
    unfolding DirectIndex.receive DirectIndex.activate UnorderedHeap.store DirectIndex.store
    receive-direct w Feed.one exec none s =
        rw (receive_touched w Feed.one exec fresh _ (touch-fresh w exec.ts))
          (judged exec.ts (UnorderedHeap.store Feed.one exec (begun w exec.ts)))
    receive-direct w Feed.two exec none s =
        rw (receive_touched w Feed.two exec fresh _ (touch-fresh w exec.ts))
          (judged exec.ts (UnorderedHeap.store Feed.two exec (begun w exec.ts)))
    receive-direct w Feed.three exec none s =
        rw (receive_touched w Feed.three exec fresh _ (touch-fresh w exec.ts))
          (judged exec.ts (UnorderedHeap.store Feed.three exec (begun w exec.ts)))
    receive-direct w Feed.one exec (some e) s =
        rw (receive_touched w Feed.one exec e _ (touch_started w exec.ts e s))
          (judged exec.ts (UnorderedHeap.store Feed.one exec (record e { last_ts = exec.ts })))
    receive-direct w Feed.two exec (some e) s =
        rw (receive_touched w Feed.two exec e _ (touch_started w exec.ts e s))
          (judged exec.ts (UnorderedHeap.store Feed.two exec (record e { last_ts = exec.ts })))
    receive-direct w Feed.three exec (some e) s =
        rw (receive_touched w Feed.three exec e _ (touch_started w exec.ts e s))
          (judged exec.ts (UnorderedHeap.store Feed.three exec (record e { last_ts = exec.ts })))
