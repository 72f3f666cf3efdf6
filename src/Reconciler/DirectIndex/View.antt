-- ===== src/Reconciler/DirectIndex/View.antt =====
-- The vector of entries as a map from ids, and when it follows the map of the full scan.
use learn_cpp.Prelude.{
  ℕ, zero, suc, ◌<◌, ◌≤◌, ◌≡◌, refl, ap, ◌∙◌, Bool, true, false, Option, none, some, List, [], ◌∷◌,
  if◌then◌else◌, ◌==◌, leb, add64, length, get_or, set, replicate, arith, inl, inr, Bool-cases,
}
use learn_cpp.Reconciler.Common.{Entry}
use learn_cpp.Reconciler.DirectIndex.{DirectEntry, blank}
use learn_cpp.Reconciler.IdMap.{keep}

module _ {D : Type 0} where
  abbrev pub live : DirectEntry D → Option (DirectEntry D)
  live e = if e.active then some e else none

  abbrev pub at : ℕ → List (DirectEntry D) → DirectEntry D
  at id es = get_or es id blank

  unfoldable pub look : ℕ → List (DirectEntry D) → Option (DirectEntry D)
  look id es = live (at id es)

  -- An inactive entry is as new.
  abbrev pub Clean : List (DirectEntry D) → Type 0
  Clean es = (id : ℕ) → (at id es).active ≡ false → at id es ≡ blank

  -- The active entry and that of the scan tell the same.
  pub record Tracks (w : ℕ) (e : DirectEntry D) (u : Entry D) : Type 0 where
    pub active : e.active ≡ true
    pub first : e.first_ts ≡ u.first_ts
    pub expire : e.expire_at ≡ add64 u.first_ts w
    pub positive : 0 < u.first_ts
    pub one : e.one ≡ u.one
    pub two : e.two ≡ u.two
    pub three : e.three ≡ u.three
    pub alerted : e.alerted ≡ u.alerted

  abbrev pub Matches : ℕ → Option (DirectEntry D) → Option (Entry D) → Type 0
  Matches w none none = Unit
  Matches w none (some u) = ⊥
  Matches w (some e) none = ⊥
  Matches w (some e) (some u) = Tracks w e u

  pub at_end : (id : ℕ) (es : List (DirectEntry D)) → length es ≤ id → at id es ≡ blank
  at_end id [] le = refl
  at_end zero (e ∷ es) le = absurd (omega arith)
  at_end (suc id) (e ∷ es) le = at_end id es (omega arith)

  pub look-blank : (n id : ℕ) → at id (replicate n (blank {D = D})) ≡ blank
  look-blank zero id = refl
  look-blank (suc n) zero = refl
  look-blank (suc n) (suc id) = look-blank n id

  pub at-set :
      (k id : ℕ) (e : DirectEntry D) (es : List (DirectEntry D))
      → k < length es
      → at id (set es k e) ≡ (if k == id then e else at id es)
  at-set k id e [] lt = absurd (omega arith)
  at-set zero zero e (x ∷ es) lt = refl
  at-set zero (suc id) e (x ∷ es) lt = ground arith
  at-set (suc k) zero e (x ∷ es) lt = ground arith
  at-set (suc k) (suc id) e (x ∷ es) lt = at-set k id e es (omega arith) ∙ ground arith

  live_if :
      (b : Bool) (e f : DirectEntry D) → live (if b then e else f) ≡ (if b then live e else live f)
  live_if true e f = refl
  live_if false e f = refl

  pub look-set :
      (k id : ℕ) (e : DirectEntry D) (es : List (DirectEntry D))
      → k < length es
      → look id (set es k e) ≡ (if k == id then live e else look id es)
  unfolding look
  look-set k id e es lt = ap live (at-set k id e es lt) ∙ live_if (k == id) e (at id es)

  pub set-Clean :
      (k : ℕ) (e : DirectEntry D) (es : List (DirectEntry D))
      → k < length es
      → (e.active ≡ false → e ≡ blank)
      → Clean es
      → Clean (set es k e)
  set-Clean k e es lt h c id = elim (Bool-cases (k == id)) [
    | inl same ↦ rw (at-set k id e es lt, same) h
    | inr other ↦ rw (at-set k id e es lt, other) (c id)
  ]

  pub keep-Matches :
      (now w : ℕ) (o : Option (DirectEntry D)) (p : Option (Entry D))
      → Matches w o p
      → Matches w (keep (λ e. leb e.expire_at now) o) (keep (λ u. leb (add64 u.first_ts w) now) p)
  keep-Matches now w none none m = tt
  keep-Matches now w none (some u) m = elim m [ ]
  keep-Matches now w (some e) none m = elim m [ ]
  keep-Matches now w (some e) (some u) m = elim (Bool-cases (leb (add64 u.first_ts w) now)) [
    | inl gone ↦
        let gone' : leb e.expire_at now ≡ true = ground (arith, m.expire) in rw (gone, gone') tt
    | inr left ↦
        let left' : leb e.expire_at now ≡ false = ground (arith, m.expire) in rw (left, left') m
  ]
