-- ===== src/Reconciler/UnorderedHeap/Agrees.antt =====
-- The hash map with a heap of expiry times raises the alerts of the hash map with a full scan.
use learn_cpp.Prelude.{
  ℕ, ◌≡◌, refl, sym, ap, ◌∙◌, subst, Bool, true, false, not, ◌&&◌, Option, none, some, List,
  if◌then◌else◌, ◌==◌, leb, ltb, add64, arith, inl, inr, Bool-cases, ==→eq,
}
use learn_cpp.Reconciler.Common.{Execution, Feed, Entry}
use learn_cpp.Reconciler.ExpiryHeap.{
  Exp, Due, push, IsSorted, Due-push, Due-push_self, push-IsSorted,
}
use learn_cpp.Reconciler.IdMap.{
  IdMap, Unique, find, keep, find-set, set-Unique, find-erase_if, erase_if-Unique,
}
use learn_cpp.Reconciler.Interface.{Reconciler, Agreement}
use learn_cpp.Reconciler.UnorderedHeap
use learn_cpp.Reconciler.UnorderedHeap.{HeapEntry, UnorderedHeap, drain, entry_of}
use learn_cpp.Reconciler.UnorderedHeap.Drain.{
  is_due, Scheduled, drain-find, drain-IsSorted, drain-Due,
}
use learn_cpp.Reconciler.UnorderedScan
use learn_cpp.Reconciler.UnorderedScan.{UnorderedScan}
use learn_cpp.Reconciler.VectorScan.Agrees.{unordered_scan}

module _ {D : Type 0} where
  -- The entry without the expiry time that it caches.
  abbrev pub base : HeapEntry D → Entry D
  base e = record {
    first_ts = e.first_ts;
    last_ts = e.last_ts;
    one = e.one;
    two = e.two;
    three = e.three;
    alerted = e.alerted;
  }

  abbrev pub base? : Option (HeapEntry D) → Option (Entry D)
  base? none = none
  base? (some e) = some (base e)

  -- The cached time is the one that the scan computes.
  abbrev pub Cached : ℕ → Option (HeapEntry D) → Type 0
  Cached w none = Unit
  Cached w (some e) = e.expire_at ≡ add64 e.first_ts w

  base-entry_of : (o : Option (HeapEntry D)) → base (entry_of o) ≡ UnorderedScan.entry_of (base? o)
  base-entry_of none = refl
  base-entry_of (some e) = refl

  base?-keep :
      (now w : ℕ) (o : Option (HeapEntry D))
      → Cached w o
      → base? (keep (is_due now) o) ≡ keep (λ e. leb (add64 e.first_ts w) now) (base? o)
  base?-keep now w none c = refl
  base?-keep now w (some e) c = rw c (ground arith)

  keep-Cached : (now w : ℕ) (o : Option (HeapEntry D)) → Cached w o → Cached w (keep (is_due now) o)
  keep-Cached now w none c = tt
  keep-Cached now w (some e) c = elim (Bool-cases (leb e.expire_at now)) [
    | inl due ↦ rw due tt
    | inr later ↦ rw later c
  ]

  keep-Scheduled :
      (now id : ℕ) (h : List Exp) (m : IdMap (HeapEntry D)) (o : Option (HeapEntry D))
      → Scheduled h id o
      → Scheduled (drain now h m).0 id (keep (is_due now) o)
  keep-Scheduled now id h m none d = tt
  keep-Scheduled now id h m (some e) d = elim (Bool-cases (leb e.expire_at now)) [
    | inl due ↦ rw due tt
    | inr later ↦ rw later (drain-Due now e.expire_at id h m (ground arith) d)
  ]

  push-Scheduled :
      (x : Exp) (id : ℕ) (h : List Exp) (o : Option (HeapEntry D))
      → Scheduled h id o
      → Scheduled (push x h) id o
  push-Scheduled x id h none d = tt
  push-Scheduled x id h (some e) d = Due-push e.expire_at id x h d

  write-Cached :
      (w : ℕ) (b : Bool) (e : HeapEntry D) (o : Option (HeapEntry D))
      → Cached w (some e)
      → Cached w o
      → Cached w (if b then some e else o)
  write-Cached w true e o new old = new
  write-Cached w false e o new old = old

  write-Scheduled :
      (id j : ℕ) (e : HeapEntry D) (h : List Exp) (o : Option (HeapEntry D))
      → Scheduled h j o
      → Scheduled
          (push (record { expire_at = e.expire_at; id = id }) h)
          j
          (if id == j then some e else o)
  write-Scheduled id j e h o d =
      let x : Exp = record { expire_at = e.expire_at; id = id } in
      elim (Bool-cases (id == j)) [
        | inl same ↦
            rw same
              (subst (λ k. Due e.expire_at k (push x h)) (==→eq id j same) (Due-push_self x h))
        | inr other ↦ rw other (push-Scheduled x j h o d)
      ]

  base?-write :
      (b : Bool) (e : HeapEntry D) (o : Option (HeapEntry D))
      → base? (if b then some e else o) ≡ (if b then some (base e) else base? o)
  base?-write true e o = refl
  base?-write false e o = refl

  pub record Same (h : UnorderedHeap D) (u : UnorderedScan D) : Type 0 where
    pub window : h.window_width ≡ u.window_width
    pub timer : h.last_timer ≡ u.last_timer
    pub alerts : h.alerts ≡ u.alerts
    pub sorted : IsSorted h.expiry
    pub unique : Unique u.by_id
    pub cached : (id : ℕ) → Cached h.window_width (find id h.by_id)
    pub scheduled : (id : ℕ) → Scheduled h.expiry id (find id h.by_id)
    pub entries : (id : ℕ) → base? (find id h.by_id) ≡ find id u.by_id

  pub init-Same : (w : ℕ) → Same (UnorderedHeap.init w) (UnorderedScan.init w)
  unfolding UnorderedHeap.init UnorderedScan.init find
  init-Same w = record {
    window = refl;
    timer = refl;
    alerts = refl;
    sorted = tt;
    unique = tt;
    cached = λ id. tt;
    scheduled = λ id. tt;
    entries = λ id. refl;
  }

  pub on_timer-Same :
      (now : ℕ) (h : UnorderedHeap D) (u : UnorderedScan D)
      → Same h u
      → Same (UnorderedHeap.on_timer now h) (UnorderedScan.on_timer now u)
  unfolding UnorderedHeap.on_timer UnorderedScan.on_timer
  on_timer-Same now h u s =
      let left : (id : ℕ)
          → find id (drain now h.expiry h.by_id).1 ≡ keep (is_due now) (find id h.by_id) =
        λ id. drain-find now h.expiry id h.by_id s.sorted (s.scheduled id) in
      record {
        window = s.window;
        timer = refl;
        alerts = s.alerts;
        sorted = drain-IsSorted now h.expiry h.by_id s.sorted;
        unique = erase_if-Unique _ u.by_id s.unique;
        cached =
            λ id. rw (left id) (keep-Cached now h.window_width (find id h.by_id) (s.cached id));
        scheduled = λ id.
            rw (left id)
              (keep-Scheduled now id h.expiry h.by_id (find id h.by_id) (s.scheduled id));
        entries = λ id.
            ap base? (left id)
            ∙ base?-keep now h.window_width (find id h.by_id) (s.cached id)
            ∙ ap (keep (λ (e : Entry D). leb (add64 e.first_ts h.window_width) now)) (s.entries id)
            ∙ ap (λ (w : ℕ). keep (λ (e : Entry D). leb (add64 e.first_ts w) now) (find id u.by_id))
                s.window
            ∙ sym (find-erase_if _ id u.by_id s.unique);
      }

  module _ (price_eq : D → D → Bool) where
    abbrev bare : HeapEntry D × Bool → Entry D × Bool
    bare (e, hit) = (base e, hit)

    abbrev judge : ℕ → HeapEntry D → Bool → HeapEntry D × Bool
    judge ts e bad =
        if not e.alerted && bad && ltb ts e.expire_at
        then (record e { alerted = true }, true)
        else (e, false)

    abbrev scan_judge : ℕ → ℕ → Entry D → Bool → Entry D × Bool
    scan_judge w ts e bad =
        if not e.alerted && bad && not (leb (add64 e.first_ts w) ts)
        then (record e { alerted = true }, true)
        else (e, false)

    judged :
        (w ts : ℕ) (e : HeapEntry D) (bad : Bool)
        → Cached w (some e)
        → (bare (judge ts e bad) ≡ scan_judge w ts (base e) bad)
          × Cached w (some (judge ts e bad).0)
    judged w ts e bad c =
        let fits : ltb ts e.expire_at ≡ not (leb (add64 e.first_ts w) ts) = ground (arith, c) in
        elim (Bool-cases (not e.alerted && bad && not (leb (add64 e.first_ts w) ts))) [
          | inl hit ↦ rw (fits, hit) (refl, c)
          | inr miss ↦ rw (fits, miss) (refl, c)
        ]

    -- Both classes make the same of an execution, and the new entry caches its time.
    receive-base :
        (w : ℕ) (f : Feed) (exec : Execution D) (ent : HeapEntry D)
        → let got = UnorderedHeap.receive price_eq w f exec ent in
          (bare got ≡ UnorderedScan.receive price_eq w f exec (base ent)) × Cached w (some got.0)
    unfolding UnorderedHeap.receive UnorderedScan.receive
    receive-base w Feed.one exec ent =
        judged w exec.ts (UnorderedHeap.store Feed.one exec (UnorderedHeap.touch w exec.ts ent)) _
          refl
    receive-base w Feed.two exec ent =
        judged w exec.ts (UnorderedHeap.store Feed.two exec (UnorderedHeap.touch w exec.ts ent)) _
          refl
    receive-base w Feed.three exec ent =
        judged w exec.ts (UnorderedHeap.store Feed.three exec (UnorderedHeap.touch w exec.ts ent)) _
          refl

    received :
        (f : Feed) (exec : Execution D) (h : UnorderedHeap D) (u : UnorderedScan D)
        → Same h u
        → bare
            (UnorderedHeap.receive price_eq h.window_width f exec (entry_of (find exec.id h.by_id)))
          ≡ UnorderedScan.receive price_eq u.window_width f exec
              (UnorderedScan.entry_of (find exec.id u.by_id))
    received f exec h u s =
        (receive-base h.window_width f exec _).0
        ∙ ap (UnorderedScan.receive price_eq h.window_width f exec)
            (base-entry_of (find exec.id h.by_id) ∙ ap UnorderedScan.entry_of (s.entries exec.id))
        ∙ ap
            (λ w.
              UnorderedScan.receive price_eq w f exec
                (UnorderedScan.entry_of (find exec.id u.by_id)))
            s.window

    pub on_feed-Same :
        (f : Feed) (exec : Execution D) (h : UnorderedHeap D) (u : UnorderedScan D)
        → Same h u
        → Same (UnorderedHeap.on_feed price_eq f exec h) (UnorderedScan.on_feed price_eq f exec u)
    unfolding UnorderedHeap.on_feed UnorderedScan.on_feed
    on_feed-Same f exec h u s =
        elim (Bool-cases (leb (add64 exec.ts h.window_width) h.last_timer)) [
          | inl late ↦
              let late' : leb (add64 exec.ts u.window_width) u.last_timer ≡ true =
                ground (arith, s.window, s.timer) in
              rw (late, late') s
          | inr early ↦
              let early' : leb (add64 exec.ts u.window_width) u.last_timer ≡ false =
                ground (arith, s.window, s.timer) in
              let got = received f exec h u s in
              let e : HeapEntry D × Bool =
                UnorderedHeap.receive price_eq h.window_width f exec
                  (entry_of (find exec.id h.by_id)) in
              let x : Exp = record { expire_at = e.0.expire_at; id = exec.id } in
              rw (early, early', sym got)
                (record {
                  window = s.window;
                  timer = s.timer;
                  alerts = ap (λ n. if e.1 then add64 n 1 else n) s.alerts;
                  sorted = push-IsSorted x h.expiry s.sorted;
                  unique = set-Unique exec.id (base e.0) u.by_id s.unique;
                  cached = λ id. rw (find-set exec.id id e.0 h.by_id) (
                      write-Cached h.window_width (exec.id == id) e.0 _
                        (receive-base h.window_width f exec _).1 (s.cached id));
                  scheduled = λ id.
                      rw (find-set exec.id id e.0 h.by_id)
                        (write-Scheduled exec.id id e.0 h.expiry _ (s.scheduled id));
                  entries = λ id.
                      ap base? (find-set exec.id id e.0 h.by_id)
                      ∙ base?-write (exec.id == id) e.0 (find id h.by_id)
                      ∙ ap (λ o. if exec.id == id then some (base e.0) else o) (s.entries id)
                      ∙ sym (find-set exec.id id (base e.0) u.by_id);
                })
        ]

    abbrev pub unordered_heap : Reconciler D (UnorderedHeap D)
    unordered_heap = record {
      on_feed = UnorderedHeap.on_feed price_eq;
      on_timer = UnorderedHeap.on_timer;
      alerts = λ r. r.alerts;
    }

    abbrev pub unordered_heap-Agreement : Agreement unordered_heap (unordered_scan price_eq)
    unordered_heap-Agreement = record {
      Related = Same;
      Allowed = λ exec. Unit;
      feed = λ f exec v u a s. on_feed-Same f exec v u s;
      timer = on_timer-Same;
      same_alerts = λ v u s. s.alerts;
    }
