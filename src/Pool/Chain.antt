-- ===== src/Pool/Chain.antt =====
-- The free list as the chain of pointers through the blocks.
use learn_cpp.Prelude.{
  ℕ, zero, suc, ◌≡◌, refl, ap, sym, ◌∙◌, subst, ◌≢◌, Option, none, some, List, [], ◌∷◌, ◌++◌,
  length, get_elem?, set, get_elem?-set_ne, length-append, append_assoc, arith,
}
use learn_cpp.Pool.{links}

abbrev pub Chain : List (Option ℕ) → Option ℕ → List ℕ → Type 0
Chain next none [] = Unit
Chain next none (j ∷ s) = ⊥
Chain next (some i) [] = ⊥
Chain next (some i) (j ∷ s) =
    (i ≡ j) × ((n : Option ℕ) × (get_elem? next i ≡ some n) × Chain next n s)

abbrev pub NotIn : ℕ → List ℕ → Type 0
NotIn i [] = Unit
NotIn i (j ∷ s) = (i ≢ j) × NotIn i s

pub Chain-set :
    (next : List (Option ℕ)) (p : ℕ) (v o : Option ℕ) (s : List ℕ)
    → NotIn p s
    → Chain next o s
    → Chain (set next p v) o s
Chain-set next p v none [] out c = tt
Chain-set next p v none (j ∷ s) out c = elim c [ ]
Chain-set next p v (some i) [] out c = elim c [ ]
Chain-set next p v (some i) (j ∷ s) (ne, out) (e, (n, at, c)) =
    let other : p ≢ i = λ q. ne (q ∙ e) in
    (e, (n, get_elem?-set_ne next v other ∙ at, Chain-set next p v n s out c))

get_elem?-append :
    (xs ys : List (Option ℕ)) (i : ℕ) (n : Option ℕ)
    → get_elem? xs i ≡ some n
    → get_elem? (xs ++ ys) i ≡ some n
get_elem?-append [] ys i n e = absurd (ground arith)
get_elem?-append (x ∷ xs) ys zero n e = e
get_elem?-append (x ∷ xs) ys (suc i) n e = get_elem?-append xs ys i n e

pub Chain-append :
    (next more : List (Option ℕ)) (o : Option ℕ) (s : List ℕ)
    → Chain next o s
    → Chain (next ++ more) o s
Chain-append next more none [] c = tt
Chain-append next more none (j ∷ s) c = elim c [ ]
Chain-append next more (some i) [] c = elim c [ ]
Chain-append next more (some i) (j ∷ s) (e, (n, at, c)) =
    (e, (n, get_elem?-append next more i n at, Chain-append next more n s c))

get_elem?-middle :
    (xs ys : List (Option ℕ)) (x : Option ℕ) → get_elem? (xs ++ (x ∷ ys)) (length xs) ≡ some x
get_elem?-middle [] ys x = refl
get_elem?-middle (z ∷ xs) ys x = get_elem?-middle xs ys x

abbrev pub range : ℕ → ℕ → List ℕ
range base zero = []
range base (suc n) = base ∷ range (suc base) n

-- New blocks behind the old ones are a chain in the order of their addresses, and then `last`.
pub links-Chain :
    (n : ℕ) (pre next : List (Option ℕ)) (last : Option ℕ) (s : List ℕ)
    → next ≡ pre ++ links (length pre) (suc n) last
    → Chain next last s
    → Chain next (some (length pre)) (range (length pre) (suc n) ++ s)
unfolding links
links-Chain zero pre next last s e c =
    let at : get_elem? next (length pre) ≡ some last =
      ap (λ l. get_elem? l (length pre)) e ∙ get_elem?-middle pre [] last in
    (refl, (last, at, c))
links-Chain (suc n) pre next last s e c =
    let b : ℕ = length pre in
    let more : List (Option ℕ) = pre ++ (some (suc b) ∷ []) in
    let longer : length more ≡ suc b = omega (arith, length-append pre (some (suc b) ∷ [])) in
    let e' : next ≡ more ++ links (length more) (suc n) last =
      rw longer (e ∙ sym (append_assoc pre (some (suc b) ∷ []) (links (suc b) (suc n) last))) in
    let at : get_elem? next b ≡ some (some (suc b)) =
      ap (λ l. get_elem? l b) e
      ∙ get_elem?-middle pre (links (suc b) (suc n) last) (some (suc b)) in
    let ih : Chain next (some (suc b)) (range (suc b) (suc n) ++ s) =
      subst (λ k. Chain next (some k) (range k (suc n) ++ s)) longer
        (links-Chain n more next last s e' c) in
    (refl, (some (suc b), at, ih))
