-- ===== src/Blocking/Threads.antt =====
-- Threads that share an object: how many of them stand somewhere, and sequences of steps.
use learn_cpp.Prelude.{
  ℕ, zero, suc, ◌+◌, ◌≤◌, ◌≡◌, refl, ap, ◌⊎◌, inl, inr, Bool, true, false, none, some, List, [],
  ◌∷◌, map, if◌then◌else◌, get_elem?, set, replicate, arith,
}

module _ {ℓ} {A : Type ℓ} where
  -- How many elements pass a test.
  abbrev pub tally : (A → Bool) → List A → ℕ
  tally p [] = 0
  tally p (x ∷ xs) = (if p x then 1 else 0) + tally p xs

  -- A thread that moves from x to y.
  pub tally-set :
      (p : A → Bool) (xs : List A) (t : ℕ) (x y : A)
      → get_elem? xs t ≡ some x
      → tally p (set xs t y) + (if p x then 1 else 0) ≡ tally p xs + (if p y then 1 else 0)
  tally-set p [] t x y h = ground arith
  tally-set p (z ∷ xs) zero x y h =
      let same : z ≡ x = ap (λ o. elim o [ none ↦ z | some a ↦ a ]) h in
      let e = ap {B = ℕ} (λ a. if p a then 1 else 0) same in omega (arith, e)
  tally-set p (z ∷ xs) (suc t) x y h = let rest = tally-set p xs t x y h in omega arith

  -- A thread that moves without a change of the test.
  pub tally-set_same :
      (p : A → Bool) (xs : List A) (t : ℕ) (x y : A)
      → get_elem? xs t ≡ some x
      → p x ≡ p y
      → tally p (set xs t y) ≡ tally p xs
  tally-set_same p xs t x y h e =
      let moved = tally-set p xs t x y h in
      let same = ap {B = ℕ} (λ b. if b then 1 else 0) e in omega (arith, moved, same)

  -- A thread that may have passed the test moves.
  pub tally-set_le :
      (p : A → Bool) (xs : List A) (t : ℕ) (x y : A)
      → get_elem? xs t ≡ some x
      → tally p xs ≤ tally p (set xs t y) + 1
  tally-set_le p xs t x y h =
      let moved = tally-set p xs t x y h in
      let one_at_most : (if p x then 1 else 0) ≤ 1 = ground arith in
      omega (arith, moved, one_at_most)

  pub tally-map :
      (p q : A → Bool) (f : A → A) (xs : List A)
      → ((x : A) → p (f x) ≡ q x)
      → tally p (map f xs) ≡ tally q xs
  tally-map p q f [] h = omega arith
  tally-map p q f (x ∷ xs) h = let rest = tally-map p q f xs h in rw (h x) omega arith

  pub tally-map_none :
      (p : A → Bool) (f : A → A) (xs : List A)
      → ((x : A) → p (f x) ≡ false)
      → tally p (map f xs) ≡ 0
  tally-map_none p f [] h = refl
  tally-map_none p f (x ∷ xs) h =
      let rest = tally-map_none p f xs h in rw (h x) (omega (arith, rest))

  pub tally-replicate : (p : A → Bool) (n : ℕ) (x : A) → p x ≡ false → tally p (replicate n x) ≡ 0
  tally-replicate p zero x h = refl
  tally-replicate p (suc n) x h = let rest = tally-replicate p n x h in rw h (omega (arith, rest))

  -- `notify_one` on the threads that pass the test p: one of them does f, if there is one.
  pub data Notified (p : A → Bool) (f : A → A) (ts : List A) : List A → Type ℓ where
    nobody : tally p ts ≡ 0 → Notified p f ts ts
    somebody :
        (t : ℕ) (x : A) → get_elem? ts t ≡ some x → p x ≡ true → Notified p f ts (set ts t (f x))

  -- Threads that f does not touch are counted as before.
  pub Notified-same :
      (p q : A → Bool) (f : A → A) (ts us : List A)
      → ((x : A) → q (f x) ≡ q x)
      → Notified p f ts us
      → tally q us ≡ tally q ts
  Notified-same p q f ts _ same (nobody none_there) = refl
  Notified-same p q f ts _ same (somebody t x h e) =
      let moved = tally-set q ts t x (f x) h in
      let kept = ap {B = ℕ} (λ b. if b then 1 else 0) (same x) in omega (arith, moved, kept)

  -- One thread less passes p and one more passes q, or none passes p.
  pub Notified-wakes :
      (p q : A → Bool) (f : A → A) (ts us : List A)
      → ((x : A) → p x ≡ true → (p (f x) ≡ false) × (q x ≡ false) × (q (f x) ≡ true))
      → Notified p f ts us
      → ((tally p us ≡ 0) × (tally q us ≡ tally q ts))
        ⊎ ((tally p us + 1 ≡ tally p ts) × (tally q us ≡ tally q ts + 1))
  Notified-wakes p q f ts _ wakes (nobody none_there) = inl (none_there, refl)
  Notified-wakes p q f ts _ wakes (somebody t x h e) =
      let moved = tally-set q ts t x (f x) h in
      let w = wakes x e in
      let before = ap {B = ℕ} (λ b. if b then 1 else 0) w.1 in
      let after = ap {B = ℕ} (λ b. if b then 1 else 0) w.2 in
      let left = tally-set p ts t x (f x) h in
      let slept = ap {B = ℕ} (λ b. if b then 1 else 0) e in
      let woke = ap {B = ℕ} (λ b. if b then 1 else 0) w.0 in
      inr (omega (arith, left, slept, woke), omega (arith, moved, before, after))

-- Any number of steps.
pub data Reach {ℓ} {S : Type ℓ} (Step : S → S → Type ℓ) (s : S) : S → Type ℓ where
  here : Reach Step s s
  later : {t u : S} → Reach Step s t → Step t u → Reach Step s u

-- What every step keeps holds in every state that is reached.
pub Reach-keep {ℓ} :
    {S : Type ℓ} (Step : S → S → Type ℓ) (Holds : S → Type ℓ)
    → ((t u : S) → Step t u → Holds t → Holds u)
    → (s u : S) → Reach Step s u
    → Holds s
    → Holds u
Reach-keep Step Holds keep s _ here h = h
Reach-keep Step Holds keep s _ (later {t} {u} r step) h =
    keep t u step (Reach-keep Step Holds keep s t r h)
