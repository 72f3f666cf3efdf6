-- ===== src/Factors/Primes.antt =====
-- `get_factors` and primes.
use Prim.Native.Nat.{◌∣◌}
use native.Mathlib.Nat.{dvd_trans, dvd-mul_left, dvd_refl, le_of_dvd}
use learn_cpp.Prelude.{
  ℕ, zero, suc, ◌+◌, ◌*◌, ◌<◌, ◌≤◌, ◌≡◌, ◌≢◌, refl, sym, ◌∙◌, ap, subst, inl, inr, some, List, [],
  ◌∷◌, ◌++◌, Bool-cases, ltb, ◌==◌, ==→eq, ==→ne, replicate, append-nil, arith,
}
use learn_cpp.Factors.{factor_loop, get_factors}
use learn_cpp.Factors.Division.{product, product-append, DividedOut, divide_out-DividedOut}

-- No number from 2 on below i divides num.
abbrev pub Rough : ℕ → ℕ → Type 0
Rough i num = (d : ℕ) → 2 ≤ d → d < i → d ∣ num → ⊥

abbrev pub IsPrime : ℕ → Type 0
IsPrime p = (2 ≤ p) × Rough p p

-- Primes in ascending order, none below i.
abbrev pub PrimesFrom : ℕ → List ℕ → Type 0
PrimesFrom i [] = Unit
PrimesFrom i (p ∷ ps) = (i ≤ p) × IsPrime p × PrimesFrom p ps

weaken-PrimesFrom : (i j : ℕ) (ps : List ℕ) → i ≤ j → PrimesFrom j ps → PrimesFrom i ps
weaken-PrimesFrom i j [] h ps = tt
weaken-PrimesFrom i j (p ∷ ps) h (le, prime, rest) = (omega arith, prime, rest)

replicate-PrimesFrom :
    (k i : ℕ) (ps : List ℕ)
    → (0 < k → IsPrime i)
    → PrimesFrom i ps
    → PrimesFrom i (replicate k i ++ ps)
replicate-PrimesFrom zero i ps prime h = h
replicate-PrimesFrom (suc k) i ps prime h =
    let p = prime (omega arith) in (omega arith, p, replicate-PrimesFrom k i ps (λ t. p) h)

-- A number whose divisors below i are out, and that i divides, has i as a prime factor.
divisor-IsPrime : (i num : ℕ) → 2 ≤ i → Rough i num → i ∣ num → IsPrime i
divisor-IsPrime i num two rough h = (two, λ d td di e. rough d td di (dvd_trans d e h))

left-dvd : (i num k left : ℕ) → DividedOut i num k left → left ∣ num
left-dvd i num k left out =
    subst (λ x. left ∣ x) out.total (dvd-mul_left left (product (replicate k i)))

left-Rough : (i num k left : ℕ) → Rough i num → DividedOut i num k left → Rough (suc i) left
left-Rough i num k left rough out d two less e = elim (Bool-cases (d == i)) [
  | inl t ↦ out.stop (subst (λ x. x ∣ left) (==→eq d i t) e)
  | inr f ↦ rough d two (ground arith) (dvd_trans d e (left-dvd i num k left out))
]

Rough-one : (i num : ℕ) → 0 < num → num < i → Rough i num → num ≡ 1
Rough-one i num h less rough = elim (Bool-cases (num == 1)) [
  | inl t ↦ ==→eq num 1 t
  | inr f ↦ absurd (rough num (ground arith) less (dvd_refl num))
]

Rough-above : (i left : ℕ) → 0 < left → left ≢ 1 → Rough (suc i) left → i < left
Rough-above i left h ne rough = elim (Bool-cases (ltb i left)) [
  | inl t ↦ ground arith
  | inr f ↦ absurd (ne (Rough-one (suc i) left h (ground arith) rough))
]

-- What `get_factors` finds from i on.
abbrev pub Found : ℕ → ℕ → List ℕ → Type 0
Found i num ps = (product ps ≡ num) × PrimesFrom i ps

factor_loop-Found :
    (n inner i num : ℕ)
    → 1 ≤ n
    → 2 ≤ i
    → 0 < num
    → num ≤ inner
    → suc num < i + n
    → Rough i num
    → (ps : List ℕ) × (factor_loop n inner i num ≡ some ps) × Found i num ps
unfolding factor_loop
factor_loop-Found zero inner i num hn two h fits fuel rough = absurd (omega arith)
factor_loop-Found (suc n) inner i num hn two h fits fuel rough =
    let (k, left, run, out) = divide_out-DividedOut inner i num two h fits in
    let positive = out.positive in
    let prime : 0 < k → IsPrime i = λ t. divisor-IsPrime i num two rough (out.divides t) in
    let rough' = left-Rough i num k left rough out in
    elim (Bool-cases (ltb num i)) [
      | inl t ↦ ([], rw (t, factor_loop) refl, (sym (Rough-one i num h (ground arith) rough), tt))
      | inr f ↦ elim (Bool-cases (left == 1)) [
        | inl one ↦ (
          replicate k i,
          rw (f, run, one) refl,
          (
            omega (arith, ap (λ l. product (replicate k i) * l) (==→eq left 1 one), out.total),
            subst (PrimesFrom i) (append-nil (replicate k i))
                (replicate-PrimesFrom k i [] prime tt),
          ),
        )
        | inr more ↦
            let small = le_of_dvd h (left-dvd i num k left out) in
            let above = Rough-above i left positive (==→ne left 1 more) rough' in
            let (ps, rest, (total, ascending)) =
              factor_loop-Found n inner (suc i) left (omega arith) (omega arith) positive
                (omega arith) (omega arith) rough' in
            (
              replicate k i ++ ps,
              rw (f, run, more, rest) refl,
              (
                product-append (replicate k i) ps
                    ∙ ap (λ q. product (replicate k i) * q) total
                    ∙ out.total,
                replicate-PrimesFrom k i ps prime
                    (weaken-PrimesFrom i (suc i) ps (omega arith) ascending),
              ),
            )
      ]
    ]

-- For a positive number, `get_factors` returns within as many rounds as the number, and what it returns
-- are primes in ascending order whose product is the number.
pub get_factors-Found :
    (num : ℕ) → 0 < num → (ps : List ℕ) × (get_factors num num ≡ some ps) × Found 2 num ps
unfolding get_factors
get_factors-Found num h =
    factor_loop-Found num num 2 num h (omega arith) h (omega arith) (omega arith)
      (λ d two less e. absurd (omega arith))
