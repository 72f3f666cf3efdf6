-- ===== src/Reconciler/ExpiryHeap.antt =====
-- `std::priority_queue<Exp, std::vector<Exp>, ExpMin>`: its top has the least `expire_at`. It is a
-- list in the order in which the items are popped; a new item goes behind those of its own time.
pub mod Drain
use learn_cpp.Prelude.{
  ℕ, ◌≤◌, ◌≡◌, refl, List, [], ◌∷◌, if◌then◌else◌, leb, arith, ◌⊎◌, inl, inr, Bool-cases,
}

pub record Exp : Type 0 where
  pub expire_at : ℕ
  pub id : ℕ

unfoldable pub push : Exp → List Exp → List Exp
push x [] = x ∷ []
push x (y ∷ h) = if leb y.expire_at x.expire_at then y ∷ push x h else x ∷ y ∷ h

-- Some item is due at the time for the id.
abbrev pub Due : ℕ → ℕ → List Exp → Type 0
Due t id [] = ⊥
Due t id (x ∷ h) = ((x.expire_at ≡ t) × (x.id ≡ id)) ⊎ Due t id h

abbrev pub NotBefore : ℕ → List Exp → Type 0
NotBefore t [] = Unit
NotBefore t (x ∷ h) = (t ≤ x.expire_at) × NotBefore t h

abbrev pub IsSorted : List Exp → Type 0
IsSorted [] = Unit
IsSorted (x ∷ h) = NotBefore x.expire_at h × IsSorted h

pub Due-NotBefore : (s t id : ℕ) (h : List Exp) → NotBefore s h → Due t id h → s ≤ t
Due-NotBefore s t id [] n d = elim d [ ]
Due-NotBefore s t id (x ∷ h) (le, n) (inl here) = omega (arith, here.0)
Due-NotBefore s t id (x ∷ h) (le, n) (inr there) = Due-NotBefore s t id h n there

NotBefore-trans : (s t : ℕ) (h : List Exp) → s ≤ t → NotBefore t h → NotBefore s h
NotBefore-trans s t [] le n = tt
NotBefore-trans s t (x ∷ h) le (a, n) = (omega arith, NotBefore-trans s t h le n)

NotBefore-push :
    (s : ℕ) (x : Exp) (h : List Exp) → s ≤ x.expire_at → NotBefore s h → NotBefore s (push x h)
unfolding push
NotBefore-push s x [] le n = (le, tt)
NotBefore-push s x (y ∷ h) le (a, n) = elim (Bool-cases (leb y.expire_at x.expire_at)) [
  | inl before ↦ rw before (a, NotBefore-push s x h le n)
  | inr after ↦ rw after (le, (a, n))
]

pub push-IsSorted : (x : Exp) (h : List Exp) → IsSorted h → IsSorted (push x h)
unfolding push
push-IsSorted x [] s = (tt, tt)
push-IsSorted x (y ∷ h) (n, s) = elim (Bool-cases (leb y.expire_at x.expire_at)) [
  | inl before ↦ rw before (NotBefore-push y.expire_at x h (ground arith) n, push-IsSorted x h s)
  | inr after ↦
      let le : x.expire_at ≤ y.expire_at = ground arith in
      rw after ((le, NotBefore-trans x.expire_at y.expire_at h le n), (n, s))
]

pub Due-push_self : (x : Exp) (h : List Exp) → Due x.expire_at x.id (push x h)
unfolding push
Due-push_self x [] = inl (refl, refl)
Due-push_self x (y ∷ h) = elim (Bool-cases (leb y.expire_at x.expire_at)) [
  | inl before ↦ rw before (inr (Due-push_self x h))
  | inr after ↦ rw after (inl (refl, refl))
]

Due-cons :
    (t id : ℕ) (y : Exp) (h k : List Exp)
    → (Due t id h → Due t id k)
    → Due t id (y ∷ h)
    → Due t id (y ∷ k)
Due-cons t id y h k f (inl here) = inl here
Due-cons t id y h k f (inr there) = inr (f there)

pub Due-push : (t id : ℕ) (x : Exp) (h : List Exp) → Due t id h → Due t id (push x h)
unfolding push
Due-push t id x [] d = elim d [ ]
Due-push t id x (y ∷ h) d = elim (Bool-cases (leb y.expire_at x.expire_at)) [
  | inl before ↦ rw before (Due-cons t id y h (push x h) (Due-push t id x h) d)
  | inr after ↦ rw after (inr d)
]
