-- ===== src/Reconciler/ExpiryHeap/Drain.antt =====
-- The loop that the `onTimer` of the heap classes share, over any store of entries: it pops the items
-- that are due and drops the entries whose time they name.
use learn_cpp.Prelude.{
  ℕ, ◌≤◌, ◌<◌, ◌≡◌, refl, ap, ◌∙◌, subst, Bool, true, Option, none, some, List, [], ◌∷◌,
  if◌then◌else◌, ◌==◌, leb, ltb, arith, inl, inr, Bool-cases, Option-cases,
}
use learn_cpp.Reconciler.ExpiryHeap.{Exp, Due, NotBefore, IsSorted, Due-NotBefore, push, Due-push}
use learn_cpp.Reconciler.IdMap.{keep}

-- `E` are the entries, `M` the stores; `Good` is what a store keeps.
module _ {E M : Type 0} (time_of : E → ℕ) (look : ℕ → M → Option E) (drop : Exp → M → M) where
  unfoldable pub drain : ℕ → List Exp → M → List Exp × M
  drain now [] m = ([], m)
  drain now (top ∷ rest) m =
      let popped = drain now rest (drop top m) in
      if ltb now top.expire_at then (top ∷ rest, m) else popped

  abbrev pub is_due : ℕ → E → Bool
  is_due now e = leb (time_of e) now

  -- An entry that is there has its time in the heap.
  abbrev pub Scheduled : List Exp → ℕ → Option E → Type 0
  Scheduled h id none = Unit
  Scheduled h id (some e) = Due (time_of e) id h

  -- What an item does to the entry at an id.
  abbrev pub dropped : Exp → ℕ → Option E → Option E
  dropped x j o = if x.id == j then keep (λ e. time_of e == x.expire_at) o else o

  not_due :
      (now t : ℕ) (h : List Exp) (j : ℕ) (o : Option E)
      → now < t
      → NotBefore t h
      → Scheduled h j o
      → o ≡ keep (is_due now) o
  not_due now t h j none lt n d = refl
  not_due now t h j (some e) lt n d = ground (arith, Due-NotBefore t (time_of e) j h n d)

  Scheduled-dropped :
      (x : Exp) (h : List Exp) (j : ℕ) (o : Option E)
      → Scheduled (x ∷ h) j o
      → Scheduled h j (dropped x j o)
  Scheduled-dropped x h j none d = elim (Bool-cases (x.id == j)) [
    | inl same ↦ rw same tt
    | inr other ↦ rw other tt
  ]
  Scheduled-dropped x h j (some e) (inl here) =
      let same : (x.id == j) ≡ true = ground (arith, here.1) in
      let now : (time_of e == x.expire_at) ≡ true = ground (arith, here.0) in rw (same, now) tt
  Scheduled-dropped x h j (some e) (inr there) = elim (Bool-cases (x.id == j)) [
    | inl same ↦ rw same (elim (Bool-cases (time_of e == x.expire_at)) [
      | inl now ↦ rw now tt
      | inr later ↦ rw later there
    ])
    | inr other ↦ rw other there
  ]

  keep-dropped :
      (now : ℕ) (x : Exp) (j : ℕ) (o : Option E)
      → x.expire_at ≤ now
      → keep (is_due now) (dropped x j o) ≡ keep (is_due now) o
  keep-dropped now x j none le = ground arith
  keep-dropped now x j (some e) le = ground arith

  keep-Scheduled :
      (now id : ℕ) (h h' : List Exp) (o : Option E)
      → ((t : ℕ) → now < t → Due t id h → Due t id h')
      → Scheduled h id o
      → Scheduled h' id (keep (is_due now) o)
  keep-Scheduled now id h h' none f d = tt
  keep-Scheduled now id h h' (some e) f d = elim (Bool-cases (leb (time_of e) now)) [
    | inl due ↦ rw due tt
    | inr later ↦ rw later (f (time_of e) (ground arith) d)
  ]

  pub push-Scheduled :
      (x : Exp) (id : ℕ) (h : List Exp) (o : Option E)
      → Scheduled h id o
      → Scheduled (push x h) id o
  push-Scheduled x id h none d = tt
  push-Scheduled x id h (some e) d = Due-push (time_of e) id x h d

  pub drain-IsSorted : (now : ℕ) (h : List Exp) (m : M) → IsSorted h → IsSorted (drain now h m).0
  unfolding drain
  drain-IsSorted now [] m s = tt
  drain-IsSorted now (x ∷ h) m (n, s) = elim (Bool-cases (ltb now x.expire_at)) [
    | inl stop ↦ rw stop (n, s)
    | inr go ↦ rw go (drain-IsSorted now h (drop x m) s)
  ]

  pub drain-Due :
      (now t id : ℕ) (h : List Exp) (m : M) → now < t → Due t id h → Due t id (drain now h m).0
  unfolding drain
  drain-Due now t id [] m lt d = d
  drain-Due now t id (x ∷ h) m lt d = elim (Bool-cases (ltb now x.expire_at)) [
    | inl stop ↦ rw stop d
    | inr go ↦ rw go (elim d [
      | inl here ↦ absurd (ground (arith, here.0))
      | inr there ↦ drain-Due now t id h (drop x m) lt there
    ])
  ]

  module _ (Good : M → Type 0) (drop_good : (x : Exp) (m : M) → Good m → Good (drop x m))
      (look_drop : (x : Exp) (j : ℕ) (m : M)
        → Good m
        → look j (drop x m) ≡ dropped x j (look j m)) where
    pub drain-Good : (now : ℕ) (h : List Exp) (m : M) → Good m → Good (drain now h m).1
    unfolding drain
    drain-Good now [] m g = g
    drain-Good now (x ∷ h) m g = elim (Bool-cases (ltb now x.expire_at)) [
      | inl stop ↦ rw stop g
      | inr go ↦ rw go (drain-Good now h (drop x m) (drop_good x m g))
    ]

    -- The entries that are left are those that are not due.
    pub look-drain :
        (now : ℕ) (h : List Exp) (j : ℕ) (m : M)
        → Good m
        → IsSorted h
        → Scheduled h j (look j m)
        → look j (drain now h m).1 ≡ keep (is_due now) (look j m)
    unfolding drain
    look-drain now [] j m g s d = elim (Option-cases (look j m)) [
      | inl absent ↦ rw absent refl
      | inr (e, present) ↦ elim (subst (Scheduled [] j) present d) [ ]
    ]
    look-drain now (x ∷ h) j m g (n, s) d = elim (Bool-cases (ltb now x.expire_at)) [
      | inl stop ↦
          rw stop (not_due now x.expire_at (x ∷ h) j (look j m) (ground arith) (omega arith, n) d)
      | inr go ↦
          let step = look_drop x j m g in
          rw go (
            look-drain now h j (drop x m) (drop_good x m g) s
              (rw step (Scheduled-dropped x h j (look j m) d))
            ∙ ap (keep (is_due now)) step
            ∙ keep-dropped now x j (look j m) (ground arith))
    ]

    -- The entries that are left still have their times in the heap.
    pub drain-Scheduled :
        (now : ℕ) (h : List Exp) (j : ℕ) (m : M)
        → Good m
        → IsSorted h
        → Scheduled h j (look j m)
        → Scheduled (drain now h m).0 j (look j (drain now h m).1)
    drain-Scheduled now h j m g s d = rw (look-drain now h j m g s d) (
        keep-Scheduled now j h (drain now h m).0 (look j m)
          (λ t lt due. drain-Due now t j h m lt due) d)
