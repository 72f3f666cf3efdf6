-- ===== src/Pool/Blocks.antt =====
-- Which blocks are free and which are in use: no pool hands out a block that is in use.
use learn_cpp.Prelude.{
  ℕ, ◌≤◌, ◌<◌, ◌≡◌, refl, ap, sym, subst, inl, inr, Bool, true, false, Option, none, some, List, [],
  ◌∷◌, if◌then◌else◌, ◌==◌, length, get_elem?, get_elem?-set_self, set, length-set, arith,
  Bool-cases, ==→ne, ==→eq,
}
use learn_cpp.Pool.{Pool, take_head, alloc, free, pointer}
use learn_cpp.Pool.Chain.{Chain, NotIn, Chain-set}

abbrev pub Distinct : List ℕ → Type 0
Distinct [] = Unit
Distinct (i ∷ s) = NotIn i s × Distinct s

abbrev pub Under : ℕ → List ℕ → Type 0
Under n [] = Unit
Under n (i ∷ s) = (i < n) × Under n s

abbrev pub Apart : List ℕ → List ℕ → Type 0
Apart [] s = Unit
Apart (u ∷ used) s = NotIn u s × Apart used s

-- The free list is a chain through the blocks `spare`, all of them and those in use are different
-- blocks of the pool.
pub record Balanced (p : Pool) (spare used : List ℕ) : Type 0 where
  pub chain : Chain p.next p.free_head spare
  pub spare_distinct : Distinct spare
  pub used_distinct : Distinct used
  pub apart : Apart used spare
  pub spare_under : Under (length p.next) spare
  pub used_under : Under (length p.next) used

Apart-tail : (i : ℕ) (used s : List ℕ) → Apart used (i ∷ s) → NotIn i used × Apart used s
Apart-tail i [] s a = (tt, tt)
Apart-tail i (u ∷ used) s ((ne, out), a) =
    let rest = Apart-tail i used s a in ((λ e. ne (sym e), rest.0), (out, rest.1))

-- What a pool answers: a block that was not in use and now is, or nothing when none is free.
abbrev pub Taken : List ℕ → List ℕ → Option ℕ → Pool → Type 0
Taken spare used none p = (spare ≡ []) × Balanced p spare used
Taken spare used (some i) p =
    NotIn i used × ((rest : List ℕ) × (spare ≡ i ∷ rest) × Balanced p rest (i ∷ used))

pub take_head-Taken :
    (p : Pool) (spare used : List ℕ) (o : Option ℕ)
    → p.free_head ≡ o
    → Balanced p spare used
    → Taken spare used (take_head p o).0 (take_head p o).1
take_head-Taken p [] used none e b = (refl, b)
take_head-Taken p (j ∷ s) used none e b = elim (subst (λ h. Chain p.next h (j ∷ s)) e b.chain) [ ]
take_head-Taken p [] used (some i) e b = elim (subst (λ h. Chain p.next h []) e b.chain) [ ]
take_head-Taken p (j ∷ s) used (some i) e b =
    let c : Chain p.next (some i) (j ∷ s) = subst (λ h. Chain p.next h (j ∷ s)) e b.chain in
    let here : j ≡ i = sym c.0 in
    let split = Apart-tail j used s b.apart in
    let head : pointer (get_elem? p.next i) ≡ c.1.0 = ap pointer c.1.1 in
    (
      subst (λ k. NotIn k used) here split.0,
      (
        s,
        ap (λ k. k ∷ s) here,
        record {
          chain = rw head c.1.2;
          spare_distinct = b.spare_distinct.1;
          used_distinct = (subst (λ k. NotIn k used) here split.0, b.used_distinct);
          apart = (subst (λ k. NotIn k s) here b.spare_distinct.0, split.1);
          spare_under = b.spare_under.1;
          used_under = (subst (λ k. k < length p.next) here b.spare_under.0, b.used_under);
        },
      ),
    )

-- `alloc` of a pool returns a block that was not in use, or a null pointer when every block is.
pub alloc-Taken :
    (p : Pool) (spare used : List ℕ)
    → Balanced p spare used
    → Taken spare used (alloc p).0 (alloc p).1
unfolding alloc
alloc-Taken p spare used b = take_head-Taken p spare used p.free_head refl b

abbrev pub has : ℕ → List ℕ → Bool
has p [] = false
has p (u ∷ used) = if u == p then true else has p used

abbrev pub without : ℕ → List ℕ → List ℕ
without p [] = []
without p (u ∷ used) = if u == p then used else u ∷ without p used

NotIn-without : (i p : ℕ) (used : List ℕ) → NotIn i used → NotIn i (without p used)
NotIn-without i p [] n = tt
NotIn-without i p (u ∷ used) (ne, n) = elim (Bool-cases (u == p)) [
  | inl here ↦ rw here n
  | inr there ↦ rw there (ne, NotIn-without i p used n)
]

without-Distinct : (p : ℕ) (used : List ℕ) → Distinct used → Distinct (without p used)
without-Distinct p [] d = tt
without-Distinct p (u ∷ used) (n, d) = elim (Bool-cases (u == p)) [
  | inl here ↦ rw here d
  | inr there ↦ rw there (NotIn-without u p used n, without-Distinct p used d)
]

without-Under : (n p : ℕ) (used : List ℕ) → Under n used → Under n (without p used)
without-Under n p [] d = tt
without-Under n p (u ∷ used) (lt, d) = elim (Bool-cases (u == p)) [
  | inl here ↦ rw here d
  | inr there ↦ rw there (lt, without-Under n p used d)
]

-- A block in use is in the pool, and not free.
has-Apart :
    (n p : ℕ) (used spare : List ℕ)
    → has p used ≡ true
    → Apart used spare
    → Under n used
    → NotIn p spare × (p < n)
has-Apart n p [] spare h a d = absurd (ground arith)
has-Apart n p (u ∷ used) spare h (out, a) (lt, d) = elim (Bool-cases (u == p)) [
  | inl here ↦
      let e : u ≡ p = ==→eq u p here in (subst (λ k. NotIn k spare) e out, subst (λ k. k < n) e lt)
  | inr there ↦ has-Apart n p used spare (rw there at h) a d
]

Apart-extend :
    (p : ℕ) (used spare : List ℕ) → NotIn p used → Apart used spare → Apart used (p ∷ spare)
Apart-extend p [] spare n a = tt
Apart-extend p (u ∷ used) spare (ne, n) (out, a) =
    ((λ e. ne (sym e), out), Apart-extend p used spare n a)

Apart-without :
    (p : ℕ) (used spare : List ℕ)
    → Distinct used
    → Apart used spare
    → Apart (without p used) (p ∷ spare)
Apart-without p [] spare d a = tt
Apart-without p (u ∷ used) spare (n, d) (out, a) = elim (Bool-cases (u == p)) [
  | inl here ↦ rw here (Apart-extend p used spare (subst (λ k. NotIn k used) (==→eq u p here) n) a)
  | inr there ↦ rw there ((==→ne u p there, out), Apart-without p used spare d a)
]

pub Under-length : (m n : ℕ) (s : List ℕ) → m ≤ n → Under m s → Under n s
Under-length m n [] le d = tt
Under-length m n (i ∷ s) le (lt, d) = (omega arith, Under-length m n s le d)

-- `free` of a block in use keeps the pool balanced: the block is free, and no longer in use.
pub free-Balanced :
    (i : ℕ) (p : Pool) (spare used : List ℕ)
    → has i used ≡ true
    → Balanced p spare used
    → Balanced (free i p) (i ∷ spare) (without i used)
unfolding free
free-Balanced i p spare used h b =
    let out = has-Apart (length p.next) i used spare h b.apart b.used_under in
    let same : length (set p.next i p.free_head) ≡ length p.next =
      length-set p.next i p.free_head in
    record {
      chain = (
        refl,
        (
          p.free_head,
          get_elem?-set_self p.next i p.free_head out.1,
          Chain-set p.next i p.free_head p.free_head spare out.0 b.chain,
        ),
      );
      spare_distinct = (out.0, b.spare_distinct);
      used_distinct = without-Distinct i used b.used_distinct;
      apart = Apart-without i used spare b.used_distinct b.apart;
      spare_under = subst (λ k. Under k (i ∷ spare)) (sym same) (out.1, b.spare_under);
      used_under =
          subst (λ k. Under k (without i used)) (sym same)
            (without-Under (length p.next) i used b.used_under);
    }
