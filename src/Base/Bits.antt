-- ===== src/Base/Bits.antt =====
-- `|` of disjoint bit fields and `&` with a low mask, as sums and remainders.
use Prim.Native.Nat.{
  ℕ, zero, suc, ◌+◌, ◌*◌, ◌/◌, ◌%◌, ◌^◌, ◌≤◌, ◌<◌, min, max, bit_and, bit_or, digits,
}
use Prim.Native.Nat.{bit_and-bitwise, bit_or-bitwise}
use mathlib.Core.Path.{◌≡◌, refl, ap}
use native.Mathlib.Nat.{pow-suc, one-le-pow}
use native.Mathlib.Numerals.{towards_suc}
use native.Mathlib.Omega.{arith}

-- Any fuel above the first number gives the same digits.
digits_fuel :
    (g : ℕ → ℕ) (h : ℕ → ℕ → ℕ) (n m a b : ℕ) → a ≤ n → a ≤ m → digits g h n a b ≡ digits g h m a b
digits_fuel g h zero zero a b p q = refl
digits_fuel g h zero (suc m) zero b p q = refl
digits_fuel g h zero (suc m) (suc a) b p q = absurd (omega arith)
digits_fuel g h (suc n) zero zero b p q = refl
digits_fuel g h (suc n) zero (suc a) b p q = absurd (omega arith)
digits_fuel g h (suc n) (suc m) zero b p q = refl
digits_fuel g h (suc n) (suc m) (suc a) b p q =
    ap (λ k. k * 2 + h (suc a % 2) (b % 2))
      (digits_fuel g h n m (suc a / 2) (b / 2) (omega arith) (omega arith))

-- The lowest digit apart from the others.
bit_or_halves : (a b : ℕ) → bit_or a b ≡ bit_or (a / 2) (b / 2) * 2 + max (a % 2) (b % 2)
bit_or_halves zero b = simp bit_or-bitwise (omega arith)
bit_or_halves (suc a) b = omega (
  arith,
  bit_or-bitwise (suc a) b,
  bit_or-bitwise (suc a / 2) (b / 2),
  digits_fuel (λ y. y) max a (suc a / 2) (suc a / 2) (b / 2) (omega arith) (omega arith),
)

bit_and_halves : (a b : ℕ) → bit_and a b ≡ bit_and (a / 2) (b / 2) * 2 + min (a % 2) (b % 2)
bit_and_halves zero b = simp bit_and-bitwise (omega arith)
bit_and_halves (suc a) b = omega (
  arith,
  bit_and-bitwise (suc a) b,
  bit_and-bitwise (suc a / 2) (b / 2),
  digits_fuel (λ y. zero) min a (suc a / 2) (suc a / 2) (b / 2) (omega arith) (omega arith),
)

bit_or-zero_below : (n a : ℕ) → a ≤ n → bit_or a 0 ≡ a
bit_or-zero_below n zero h = refl
bit_or-zero_below zero (suc a) h = absurd (omega arith)
bit_or-zero_below (suc n) (suc a) h =
    omega (arith, bit_or_halves (suc a) 0, bit_or-zero_below n (suc a / 2) (omega arith))

bit_and-zero_below : (n a : ℕ) → a ≤ n → bit_and a 0 ≡ 0
bit_and-zero_below n zero h = refl
bit_and-zero_below zero (suc a) h = absurd (omega arith)
bit_and-zero_below (suc n) (suc a) h =
    omega (arith, bit_and_halves (suc a) 0, bit_and-zero_below n (suc a / 2) (omega arith))

bit_and-zero : (a : ℕ) → bit_and a 0 ≡ 0
bit_and-zero a = bit_and-zero_below a a (omega arith)

double-pow : (q k : ℕ) → q * 2 ^ suc k ≡ 2 * (q * 2 ^ k)
double-pow q k = omega (arith, ap (λ (t : ℕ). q * t) (pow-suc 2 k))

-- A number shifted left by `k`, joined by `|` to one below `2 ^ k`, is their sum.
pub bit_or-shifted : (k q r : ℕ) → r < 2 ^ k → bit_or (q * 2 ^ k) r ≡ q * 2 ^ k + r
bit_or-shifted zero q r h = ground (arith, bit_or-zero_below q q)
bit_or-shifted (suc k) q r h = ground (
  arith,
  double-pow q k,
  bit_or_halves (q * 2 ^ suc k) r,
  bit_or-shifted k q (r / 2) (omega (arith, pow-suc 2 k)),
)

-- One more byte below a number of whole bytes.
pub bit_or-byte_below :
    (k q b : ℕ) → b < 256 → bit_or (q * 2 ^ (k + 8)) (b * 2 ^ k) ≡ (q * 256 + b) * 2 ^ k
bit_or-byte_below k q b h =
    let wide : 2 ^ (k + 8) ≡ 256 * 2 ^ k = simp towards_suc (omega arith) in
    let below : b * 2 ^ k < 2 ^ (k + 8) = grind (arith, one-le-pow k 2) in
    omega (arith, bit_or-shifted (k + 8) q (b * 2 ^ k) below, ap (λ (t : ℕ). q * t) wide)

mask_step : (a m : ℕ) → bit_and a (2 * m + 1) ≡ bit_and (a / 2) m * 2 + a % 2
mask_step a m =
    let e : (2 * m + 1) / 2 ≡ m = omega arith in
    omega (arith, bit_and_halves a (2 * m + 1), ap (bit_and (a / 2)) e)

bit_and-three : (a : ℕ) → bit_and a 3 ≡ a % 4
bit_and-three a = omega (arith, mask_step a 1, mask_step (a / 2) 0, bit_and-zero (a / 2 / 2))

-- `x & 0xf`, four bits of `x`, and `x & 0xff`, a byte of it.
pub bit_and-nibble : (a : ℕ) → bit_and a 0xf ≡ a % 16
bit_and-nibble a = omega (arith, mask_step a 7, mask_step (a / 2) 3, bit_and-three (a / 2 / 2))

pub bit_and-byte : (a : ℕ) → bit_and a 0xff ≡ a % 256
bit_and-byte a = omega (
  arith,
  mask_step a 127,
  mask_step (a / 2) 63,
  mask_step (a / 2 / 2) 31,
  mask_step (a / 2 / 2 / 2) 15,
  bit_and-nibble (a / 2 / 2 / 2 / 2),
)
