-- ===== src/Factors/Division.antt =====
-- Divisors, products and `while (num % i == 0)`.
use Prim.Native.Nat.{◌∣◌}
use native.Mathlib.Nat.{
  mul_assoc, mul-div_cancel', div-lt_self, mod-eq-zero_of_dvd, dvd_of_mod-eq-zero,
}
use learn_cpp.Prelude.{
  ℕ, zero, suc, ◌*◌, ◌/◌, ◌%◌, ◌<◌, ◌≤◌, ◌≡◌, refl, sym, ◌∙◌, ap, inl, inr, some, List, [], ◌∷◌,
  ◌++◌, Bool-cases, ◌==◌, ==→eq, ==→ne, replicate, arith,
}
use learn_cpp.Factors.{divide_out}

abbrev pub product : List ℕ → ℕ
product [] = 1
product (x ∷ xs) = x * product xs

pub product-append : (xs ys : List ℕ) → product (xs ++ ys) ≡ product xs * product ys
product-append [] ys = omega arith
product-append (x ∷ xs) ys =
    ap (λ k. x * k) (product-append xs ys) ∙ sym (mul_assoc x (product xs) (product ys))

-- The loop pushes k copies of i and leaves a number that i does not divide.
pub record DividedOut (i num k left : ℕ) : Type 0 where
  pub total : product (replicate k i) * left ≡ num
  pub divides : 0 < k → i ∣ num
  pub positive : 0 < left
  pub stop : i ∣ left → ⊥

quotient_pos : (i num : ℕ) → 0 < num → i * (num / i) ≡ num → 0 < num / i
quotient_pos i num h e = elim (Bool-cases (num / i == 0)) [
  | inl z ↦ absurd (omega (arith, ap (λ q. i * q) (==→eq _ _ z), e))
  | inr z ↦ ground arith
]

pub divide_out-DividedOut :
    (n i num : ℕ)
    → 2 ≤ i
    → 0 < num
    → num ≤ n
    → (k : ℕ) × (left : ℕ) × (divide_out n i num ≡ some (replicate k i, left))
      × DividedOut i num k left
unfolding divide_out
divide_out-DividedOut zero i num two h fuel = absurd (omega arith)
divide_out-DividedOut (suc n) i num two h fuel = elim (Bool-cases (num % i == 0)) [
  | inl z ↦
      let d = dvd_of_mod-eq-zero i (==→eq _ _ z) in
      let e = mul-div_cancel' i d in
      let less = div-lt_self h two in
      let (k, left, run, out) =
        divide_out-DividedOut n i (num / i) two (quotient_pos i num h e) (omega arith) in
      (
        suc k,
        left,
        rw (z, run) refl,
        record {
          total = mul_assoc i (product (replicate k i)) left ∙ ap (λ q. i * q) out.total ∙ e;
          divides = λ t. d;
          positive = out.positive;
          stop = out.stop;
        },
      )
  | inr z ↦ (
    0,
    num,
    rw z refl,
    record {
      total = omega arith;
      divides = λ t. absurd (omega arith);
      positive = h;
      stop = λ d. ==→ne _ _ z (mod-eq-zero_of_dvd i d);
    },
  )
]
