-- ===== src/Reconciler/DirectIndexHeap/Agrees.antt =====
-- The vector of entries with a heap of expiry times next to the hash map with a full scan.
use learn_cpp.Prelude.{
  ℕ, suc, ◌+◌, ◌≤◌, ◌<◌, ◌^◌, ◌≡◌, refl, sym, ap, ◌∙◌, subst, Bool, true, false, ◌&&◌, Option, none,
  some, List, [], ◌∷◌, if◌then◌else◌, ◌==◌, leb, ltb, add64, length, length-set, length-replicate,
  set, replicate, arith, inl, inr, Bool-cases, ==→eq,
}
use learn_cpp.Reconciler.Common.{Execution, Feed, Entry}
use learn_cpp.Reconciler.DirectIndex.{DirectEntry, blank, receive}
use learn_cpp.Reconciler.DirectIndex.View.{
  live, at, look, Clean, Matches, look-blank, look-set, set-Clean, keep-Matches, at_end,
}
use learn_cpp.Reconciler.DirectIndex.Receive.{
  receive-Tracks, live-some, write-Matches, receive_time,
}
use learn_cpp.Reconciler.DirectIndexHeap
use learn_cpp.Reconciler.DirectIndexHeap.{DirectIndexHeap, drop_due, drain}
use learn_cpp.Reconciler.ExpiryHeap.{Exp, Due, push, IsSorted, Due-push_self, push-IsSorted}
use learn_cpp.Reconciler.ExpiryHeap.Drain as Heap
use learn_cpp.Reconciler.IdMap.{
  Unique, find, keep, find-set, set-Unique, find-erase_if, erase_if-Unique,
}
use learn_cpp.Reconciler.Interface.{Reconciler, Agreement}
use learn_cpp.Reconciler.UnorderedScan
use learn_cpp.Reconciler.UnorderedScan.{UnorderedScan, entry_of}
use learn_cpp.Reconciler.VectorScan.Agrees.{unordered_scan}

module _ {D : Type 0} (max_id : ℕ) where
  abbrev time_of : DirectEntry D → ℕ
  time_of e = e.expire_at

  abbrev Scheduled : List Exp → ℕ → Option (DirectEntry D) → Type 0
  Scheduled = Heap.Scheduled time_of look (drop_due max_id)

  abbrev Good : List (DirectEntry D) → Type 0
  Good es = (length es ≡ suc max_id) × Clean es

  drop_due-Good : (x : Exp) (es : List (DirectEntry D)) → Good es → Good (drop_due max_id x es)
  unfolding drop_due
  drop_due-Good x es (size, c) =
      let e : DirectEntry D = at x.id es in
      elim (Bool-cases (ltb max_id x.id)) [
        | inl out ↦ rw out (size, c)
        | inr within ↦ elim (Bool-cases (e.active && e.expire_at == x.expire_at)) [
          | inl due ↦
              rw (within, due)
                (
                  length-set es x.id blank ∙ size,
                  set-Clean x.id blank es (ground (arith, size)) (λ off. refl) c,
                )
          | inr stays ↦ rw (within, stays) (size, c)
        ]
      ]

  keep-live :
      (t : ℕ) (e : DirectEntry D)
      → keep (λ v. v.expire_at == t) (live e)
        ≡ (if e.active && e.expire_at == t then none else live e)
  keep-live t e = ground arith

  drop_due_self :
      (x : Exp) (es : List (DirectEntry D))
      → Good es
      → look x.id (drop_due max_id x es) ≡ keep (λ v. v.expire_at == x.expire_at) (look x.id es)
  unfolding drop_due
  drop_due_self x es (size, c) =
      let e : DirectEntry D = at x.id es in
      elim (Bool-cases (ltb max_id x.id)) [
        | inl out ↦
            let none_there : look x.id es ≡ none =
              unfold look in ap live (at_end x.id es (ground (arith, size))) in
            rw (out, none_there) refl
        | inr within ↦
            let lt : x.id < length es = ground (arith, size) in
            let here : look x.id (set es x.id blank) ≡ none =
              look-set x.id x.id blank es lt ∙ ground arith in
            elim (Bool-cases (e.active && e.expire_at == x.expire_at)) [
              | inl due ↦
                  let gone : keep (λ v. v.expire_at == x.expire_at) (look x.id es) ≡ none =
                    unfold look in keep-live x.expire_at e ∙ rw due in
                  rw (within, due) (here ∙ sym gone)
              | inr stays ↦
                  let left : keep (λ v. v.expire_at == x.expire_at) (look x.id es) ≡ look x.id es =
                    unfold look in keep-live x.expire_at e ∙ rw stays in
                  rw (within, stays) (sym left)
            ]
      ]

  drop_due_ne :
      (x : Exp) (j : ℕ) (es : List (DirectEntry D))
      → Good es
      → (x.id == j) ≡ false
      → look j (drop_due max_id x es) ≡ look j es
  unfolding drop_due
  drop_due_ne x j es (size, c) other =
      let e : DirectEntry D = at x.id es in
      elim (Bool-cases (ltb max_id x.id)) [
        | inl out ↦ rw out refl
        | inr within ↦ elim (Bool-cases (e.active && e.expire_at == x.expire_at)) [
          | inl due ↦ rw (within, due) (look-set x.id j blank es (ground (arith, size)) ∙ rw other)
          | inr stays ↦ rw (within, stays) refl
        ]
      ]

  look-drop_due :
      (x : Exp) (j : ℕ) (es : List (DirectEntry D))
      → Good es
      → look j (drop_due max_id x es) ≡ Heap.dropped time_of look (drop_due max_id) x j (look j es)
  look-drop_due x j es g = elim (Bool-cases (x.id == j)) [
    | inl same ↦ rw same (
        subst
          (λ k. look k (drop_due max_id x es) ≡ keep (λ v. v.expire_at == x.expire_at) (look k es))
          (==→eq x.id j same) (drop_due_self x es g))
    | inr other ↦ rw other (drop_due_ne x j es g other)
  ]

  drain_eq :
      (now : ℕ) (h : List Exp) (es : List (DirectEntry D))
      → drain max_id now h es ≡ Heap.drain time_of look (drop_due max_id) now h es
  unfolding drain Heap.drain
  drain_eq now [] es = refl
  drain_eq now (x ∷ h) es = rw (drain_eq now h (drop_due max_id x es))

  pub record Same (d : DirectIndexHeap D) (u : UnorderedScan D) : Type 0 where
    pub bound : d.max_id ≡ max_id
    pub window : d.window_width ≡ u.window_width
    pub timer : d.last_timer ≡ u.last_timer
    pub alerts : d.alerts ≡ u.alerts
    pub sorted : IsSorted d.expiry
    pub unique : Unique u.by_id
    pub good : Good d.entries
    pub scheduled : (id : ℕ) → Scheduled d.expiry id (look id d.entries)
    pub entries : (id : ℕ) → Matches u.window_width (look id d.entries) (find id u.by_id)

  look-replicate : (n id : ℕ) → look id (replicate n (blank {D = D})) ≡ none
  unfolding look
  look-replicate n id = ap live (look-blank n id)

  pub init-Same :
      (w : ℕ) → max_id + 1 < 2 ^ 64 → Same (DirectIndexHeap.init w max_id) (UnorderedScan.init w)
  unfolding DirectIndexHeap.init UnorderedScan.init find
  init-Same w small = record {
    bound = refl;
    window = refl;
    timer = refl;
    alerts = refl;
    sorted = tt;
    unique = tt;
    good = (
      length-replicate (add64 max_id 1) blank ∙ omega arith,
      λ id off. look-blank (add64 max_id 1) id,
    );
    scheduled = λ id. rw (look-replicate (add64 max_id 1) id) tt;
    entries = λ id. rw (look-replicate (add64 max_id 1) id) tt;
  }

  pub on_timer-Same :
      (now : ℕ) (d : DirectIndexHeap D) (u : UnorderedScan D)
      → Same d u
      → Same (DirectIndexHeap.on_timer now d) (UnorderedScan.on_timer now u)
  unfolding DirectIndexHeap.on_timer UnorderedScan.on_timer
  on_timer-Same now d u s =
      let drop : Exp → List (DirectEntry D) → List (DirectEntry D) = drop_due max_id in
      let h : List Exp = d.expiry in
      let es : List (DirectEntry D) = d.entries in
      let run : drain d.max_id now h es ≡ Heap.drain time_of look drop now h es =
        ap (λ m. drain m now h es) s.bound ∙ drain_eq now h es in
      rw run (record {
        bound = s.bound;
        window = s.window;
        timer = refl;
        alerts = s.alerts;
        sorted = Heap.drain-IsSorted time_of look drop now h es s.sorted;
        unique = erase_if-Unique _ u.by_id s.unique;
        good = Heap.drain-Good time_of look drop Good drop_due-Good look-drop_due now h es s.good;
        scheduled = λ id.
            Heap.drain-Scheduled time_of look drop Good drop_due-Good look-drop_due now h id es
              s.good s.sorted (s.scheduled id);
        entries = λ id.
            rw
              (
                Heap.look-drain time_of look drop Good drop_due-Good look-drop_due now h id es
                    s.good s.sorted (s.scheduled id),
                find-erase_if (λ (e : Entry D). leb (add64 e.first_ts u.window_width) now) id
                    u.by_id s.unique,
              )
              (keep-Matches now u.window_width (look id es) (find id u.by_id) (s.entries id));
      })

  write-Scheduled :
      (id j : ℕ) (e : DirectEntry D) (h : List Exp) (o : Option (DirectEntry D)) (known : Bool)
      → e.active ≡ true
      → (known ≡ true → Due e.expire_at id h)
      → Scheduled h j o
      → Scheduled
          (if known then h else push (record { expire_at = e.expire_at; id = id }) h)
          j
          (if id == j then live e else o)
  write-Scheduled id j e h o true on there d = elim (Bool-cases (id == j)) [
    | inl same ↦ rw (same, on) (subst (λ k. Due e.expire_at k h) (==→eq id j same) (there refl))
    | inr other ↦ rw other d
  ]
  write-Scheduled id j e h o false on there d =
      let x : Exp = record { expire_at = e.expire_at; id = id } in
      elim (Bool-cases (id == j)) [
        | inl same ↦
            rw (same, on)
              (subst (λ k. Due e.expire_at k (push x h)) (==→eq id j same) (Due-push_self x h))
        | inr other ↦ rw other (Heap.push-Scheduled time_of look (drop_due max_id) x j h o d)
      ]

  module _ (price_eq : D → D → Bool) where
    abbrev pub Allowed : Execution D → Type 0
    Allowed exec = (0 < exec.ts) × (exec.id ≤ max_id)

    pub on_feed-Same :
        (f : Feed) (exec : Execution D) (d : DirectIndexHeap D) (u : UnorderedScan D)
        → Allowed exec
        → Same d u
        → Same (DirectIndexHeap.on_feed price_eq f exec d) (UnorderedScan.on_feed price_eq f exec u)
    unfolding DirectIndexHeap.on_feed UnorderedScan.on_feed
    on_feed-Same f exec d u (pos, within) s =
        elim (Bool-cases (leb (add64 exec.ts d.window_width) d.last_timer)) [
          | inl late ↦
              let late' : leb (add64 exec.ts u.window_width) u.last_timer ≡ true =
                ground (arith, s.window, s.timer) in
              rw (late, late') s
          | inr early ↦
              let early' : leb (add64 exec.ts u.window_width) u.last_timer ≡ false =
                ground (arith, s.window, s.timer) in
              let in_range : ltb d.max_id exec.id ≡ false = ground (arith, s.bound) in
              let id : ℕ = exec.id in
              let ent : DirectEntry D = at id d.entries in
              let w : ℕ = u.window_width in
              let e : DirectEntry D × Bool = receive price_eq w f exec ent in
              let v : Entry D × Bool =
                UnorderedScan.receive price_eq w f exec (entry_of (find id u.by_id)) in
              let got =
                receive-Tracks price_eq w f exec ent (find id u.by_id) pos (s.good.1 id)
                  (unfold look in s.entries id) in
              let lt : id < length d.entries = omega (arith, s.good.0) in
              let there : ent.active ≡ true → Due e.0.expire_at id d.expiry = λ on.
                let seen : look id d.entries ≡ some ent = unfold look in live-some ent on in
                rw (receive_time price_eq w f exec ent on)
                  (subst (Scheduled d.expiry id) seen (s.scheduled id)) in
              rw (early, early', in_range, s.window)
                (record {
                  bound = s.bound;
                  window = refl;
                  timer = s.timer;
                  alerts = rw (got.0, s.alerts) refl;
                  sorted = elim (Bool-cases ent.active) [
                    | inl on ↦ rw on s.sorted
                    | inr off ↦ rw off (push-IsSorted _ d.expiry s.sorted)
                  ];
                  unique = set-Unique id v.0 u.by_id s.unique;
                  good = (
                    length-set d.entries id e.0 ∙ s.good.0,
                    set-Clean id e.0 d.entries lt
                        (λ off. absurd (ground (arith, off, got.1.active))) s.good.1,
                  );
                  scheduled = λ j. rw (look-set id j e.0 d.entries lt) (
                      write-Scheduled id j e.0 d.expiry (look j d.entries) ent.active got.1.active
                        there (s.scheduled j));
                  entries = λ j.
                      rw (look-set id j e.0 d.entries lt, find-set id j v.0 u.by_id)
                        (write-Matches w (id == j) e.0 v.0 _ _ got.1 (s.entries j));
                })
        ]

    abbrev pub direct_index_heap : Reconciler D (DirectIndexHeap D)
    direct_index_heap = record {
      on_feed = DirectIndexHeap.on_feed price_eq;
      on_timer = DirectIndexHeap.on_timer;
      alerts = λ r. r.alerts;
    }

    abbrev pub direct_index_heap-Agreement : Agreement direct_index_heap (unordered_scan price_eq)
    direct_index_heap-Agreement = record {
      Related = Same;
      Allowed = Allowed;
      feed = on_feed-Same;
      timer = on_timer-Same;
      same_alerts = λ d u s. s.alerts;
    }
