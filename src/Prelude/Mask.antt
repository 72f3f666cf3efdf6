-- ===== src/Prelude/Mask.antt =====
-- `x & (2^k - 1)` is `x % 2^k`, for every k: the masks of the rings and of the flat hash tables.
use Prim.Native.Nat.{
  ℕ, zero, suc, ◌+◌, ◌-◌, ◌*◌, ◌/◌, ◌%◌, ◌^◌, ◌≤◌, ◌<◌, min, bit_and, digits, bit_and-bitwise,
}
use mathlib.Core.Path.{◌≡◌, refl, ap, ◌∙◌}
use native.Mathlib.Nat.{pow-suc}
use native.Mathlib.Omega.{arith}

-- k ones
abbrev ones : ℕ → ℕ
ones zero = 0
ones (suc k) = 2 * ones k + 1

two_pow : (k : ℕ) → 2 ^ k ≡ ones k + 1
two_pow zero = refl
two_pow (suc k) = omega (arith, pow-suc 2 k, two_pow k)

mod_double : (a m : ℕ) → 0 < m → a % (2 * m) ≡ a / 2 % m * 2 + a % 2
mod_double a m h = grind arith

double : (o : ℕ) → 2 * (o + 1) ≡ 2 * o + 1 + 1
double o = omega arith

-- What `bit_and` computes against a mask, digit by digit, for any fuel that reaches the number.
digits-ones : (k fuel a : ℕ) → a ≤ fuel → digits (λ y. 0) min fuel a (ones k) ≡ a % (ones k + 1)
digits-ones k zero zero enough = omega arith
digits-ones k zero (suc a) enough = absurd (omega arith)
digits-ones k (suc fuel) zero enough = omega arith
digits-ones zero (suc fuel) (suc a) enough =
    omega (arith, digits-ones zero fuel (suc a / 2) (omega arith))
digits-ones (suc k) (suc fuel) (suc a) enough =
    let half : (2 * ones k + 1) / 2 ≡ ones k = omega arith in
    let low : (2 * ones k + 1) % 2 ≡ 1 = omega arith in
    rw (half, low, digits-ones k fuel (suc a / 2) (omega arith))
      (omega (
        arith,
        mod_double (suc a) (ones k + 1) (omega arith),
        ap (λ (t : ℕ). suc a % t) (double (ones k)),
      ))

bit_and-mask : (k a : ℕ) → bit_and a (2 ^ k - 1) ≡ a % 2 ^ k
bit_and-mask k a =
    let mask : 2 ^ k - 1 ≡ ones k = omega (arith, two_pow k) in
    rw (mask, two_pow k) (bit_and-bitwise a (ones k) ∙ digits-ones k a a (omega arith))

-- For a power of two `& (c - 1)` is the remainder by it.
pub bit_and-pred : (c k a : ℕ) → c ≡ 2 ^ k → bit_and a (c - 1) ≡ a % c
bit_and-pred c k a e = rw e (bit_and-mask k a)
