-- ===== src/Pool/Growth.antt =====
-- New blocks: a pool that starts or grows has them free.
use learn_cpp.Prelude.{
  ℕ, zero, suc, ◌+◌, ◌<◌, ◌≡◌, refl, ap, sym, subst, Option, none, some, true, List, [], ◌∷◌, ◌++◌,
  length, length-append, append-nil, arith,
}
use learn_cpp.Pool.{Pool, links, init, take_head, grow, grow_if_empty, allocate, deallocate, free}
use learn_cpp.Pool.Chain.{Chain, NotIn, Chain-append, range, links-Chain}
use learn_cpp.Pool.Blocks.{
  Balanced, Distinct, Under, Apart, Taken, Under-length, take_head-Taken, free-Balanced, has,
  without,
}

range-NotIn : (i base n : ℕ) → i < base → NotIn i (range base n)
range-NotIn i base zero lt = tt
range-NotIn i base (suc n) lt =
    (λ e. absurd (omega (arith, e)), range-NotIn i (suc base) n (omega arith))

range-Distinct : (base n : ℕ) → Distinct (range base n)
range-Distinct base zero = tt
range-Distinct base (suc n) =
    (range-NotIn base (suc base) n (omega arith), range-Distinct (suc base) n)

range-Under : (base n : ℕ) → Under (base + n) (range base n)
range-Under base zero = tt
range-Under base (suc n) = (
  omega arith,
  Under-length (suc base + n) (base + suc n) _ (omega arith) (range-Under (suc base) n),
)

range-Apart : (base n : ℕ) (used : List ℕ) → Under base used → Apart used (range base n)
range-Apart base n [] d = tt
range-Apart base n (u ∷ used) (lt, d) = (range-NotIn u base n lt, range-Apart base n used d)

length-links : (n base : ℕ) (last : Option ℕ) → length (links base n last) ≡ n
unfolding links
length-links zero base last = refl
length-links (suc zero) base last = refl
length-links (suc (suc n)) base last = ap suc (length-links (suc n) (suc base) last)

-- A pool with no free block that grows has the new blocks free.
pub grow-Balanced :
    (n : ℕ) (p : Pool) (used : List ℕ)
    → p.free_head ≡ none
    → Balanced p [] used
    → Balanced (grow (suc n) p) (range (length p.next) (suc n)) used
unfolding grow
grow-Balanced n p used e b =
    let base : ℕ = length p.next in
    let more : List (Option ℕ) = links base (suc n) p.free_head in
    let size : length (p.next ++ more) ≡ base + suc n =
      omega (arith, length-append p.next more, length-links (suc n) base p.free_head) in
    record {
      chain = subst (Chain (p.next ++ more) (some base)) (append-nil (range base (suc n))) (
          links-Chain n p.next (p.next ++ more) p.free_head [] refl
            (Chain-append p.next more p.free_head [] b.chain));
      spare_distinct = range-Distinct base (suc n);
      used_distinct = b.used_distinct;
      apart = range-Apart base (suc n) used b.used_under;
      spare_under = subst (λ k. Under k (range base (suc n))) (sym size) (range-Under base (suc n));
      used_under =
          subst (λ k. Under k used) (sym size)
            (Under-length base (base + suc n) used (omega arith) b.used_under);
    }

-- A new `MemoryPool` of a positive capacity has every block free.
pub init-Balanced : (n : ℕ) → Balanced (init (suc n)) (range 0 (suc n)) []
unfolding init
init-Balanced n =
    let next : List (Option ℕ) = links 0 (suc n) none in
    record {
      chain =
          subst (Chain next (some 0)) (append-nil (range 0 (suc n)))
            (links-Chain n [] next none [] refl tt);
      spare_distinct = range-Distinct 0 (suc n);
      used_distinct = tt;
      apart = tt;
      spare_under =
          subst (λ k. Under k (range 0 (suc n))) (omega (arith, length-links (suc n) 0 none))
            (range-Under 0 (suc n));
      used_under = tt;
    }

grow_if_empty-Balanced :
    (n : ℕ) (p : Pool) (spare used : List ℕ) (o : Option ℕ)
    → p.free_head ≡ o
    → Balanced p spare used
    → (j : ℕ) × ((rest : List ℕ) × Balanced (grow_if_empty (suc n) p o) (j ∷ rest) used)
grow_if_empty-Balanced n p [] used none e b =
    (length p.next, (range (suc (length p.next)) n, grow-Balanced n p used e b))
grow_if_empty-Balanced n p (j ∷ s) used none e b =
    elim (subst (λ h. Chain p.next h (j ∷ s)) e b.chain) [ ]
grow_if_empty-Balanced n p [] used (some i) e b =
    elim (subst (λ h. Chain p.next h []) e b.chain) [ ]
grow_if_empty-Balanced n p (j ∷ s) used (some i) e b = (j, (s, b))

-- An answer with a block, which was not in use and now is.
abbrev pub Given : List ℕ → Option ℕ → Pool → Type 0
Given used none p = ⊥
Given used (some i) p = NotIn i used × ((spare : List ℕ) × Balanced p spare (i ∷ used))

Taken-Given :
    (j : ℕ) (rest used : List ℕ) (o : Option ℕ) (p : Pool)
    → Taken (j ∷ rest) used o p
    → Given used o p
Taken-Given j rest used none p (e, b) = absurd (ground (arith, ap length e))
Taken-Given j rest used (some i) p (out, (s, e, b)) = (out, (s, b))

-- `allocate` of a pool that grows by a positive number of blocks always returns a block, one that
-- was not in use.
pub allocate-Given :
    (n : ℕ) (p : Pool) (spare used : List ℕ)
    → Balanced p spare used
    → Given used (allocate (suc n) p).0 (allocate (suc n) p).1
unfolding allocate
allocate-Given n p spare used b =
    let q = grow_if_empty (suc n) p p.free_head in
    let more = grow_if_empty-Balanced n p spare used p.free_head refl b in
    Taken-Given more.0 more.1.0 used (take_head q q.free_head).0 (take_head q q.free_head).1
      (take_head-Taken q (more.0 ∷ more.1.0) used q.free_head refl more.1.1)

-- `deallocate` of a block in use keeps the pool balanced: the block is free, and no longer in use.
pub deallocate-Balanced :
    (i : ℕ) (p : Pool) (spare used : List ℕ)
    → has i used ≡ true
    → Balanced p spare used
    → Balanced (deallocate (some i) p) (i ∷ spare) (without i used)
unfolding deallocate free
deallocate-Balanced = free-Balanced
