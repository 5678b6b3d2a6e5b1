-- ===== src/Prelude/Bits.antt =====
-- Masks and disjoint fields of a word as arithmetic, at every width.
use Prim.Native.Nat.{
  ℕ, zero, suc, ◌+◌, ◌-◌, ◌*◌, ◌/◌, ◌%◌, ◌^◌, ◌≤◌, ◌<◌, min, max, digits, bit_and, bit_or,
  bit_and-bitwise, bit_or-bitwise,
}
use mathlib.Core.Path.{◌≡◌, refl, ap}
use native.Mathlib.Nat.{pow-suc, one-le-pow}
use native.Mathlib.Omega.{arith}

-- The native operations recur on binary digits with fuel; any fuel above the first number serves.
digits_fuel :
    (z : ℕ → ℕ) (f : ℕ → ℕ → ℕ) (n m a b : ℕ) → a ≤ n → a ≤ m → digits z f n a b ≡ digits z f m a b
digits_fuel z f zero zero zero b p q = refl
digits_fuel z f zero zero (suc a) b p q = absurd (omega arith)
digits_fuel z f zero (suc m) zero b p q = refl
digits_fuel z f zero (suc m) (suc a) b p q = absurd (omega arith)
digits_fuel z f (suc n) zero zero b p q = refl
digits_fuel z f (suc n) zero (suc a) b p q = absurd (omega arith)
digits_fuel z f (suc n) (suc m) zero b p q = refl
digits_fuel z f (suc n) (suc m) (suc a) b p q =
    rw (digits_fuel z f n m (suc a / 2) (b / 2) (omega arith) (omega arith))

-- One equation for the lowest digit.
or_step : (a b : ℕ) → bit_or a b ≡ bit_or (a / 2) (b / 2) * 2 + max (a % 2) (b % 2)
or_step zero b = omega (arith, bit_or-bitwise 0 b, bit_or-bitwise 0 (b / 2))
or_step (suc a) b = omega (
  arith,
  bit_or-bitwise (suc a) b,
  bit_or-bitwise (suc a / 2) (b / 2),
  digits_fuel (λ y. y) max a (suc a / 2) (suc a / 2) (b / 2) (omega arith) (omega arith),
)

and_step : (a b : ℕ) → bit_and a b ≡ bit_and (a / 2) (b / 2) * 2 + min (a % 2) (b % 2)
and_step zero b = omega (arith, bit_and-bitwise 0 b, bit_and-bitwise 0 (b / 2))
and_step (suc a) b = omega (
  arith,
  bit_and-bitwise (suc a) b,
  bit_and-bitwise (suc a / 2) (b / 2),
  digits_fuel (λ y. 0) min a (suc a / 2) (suc a / 2) (b / 2) (omega arith) (omega arith),
)

zero-or : (b : ℕ) → bit_or 0 b ≡ b
zero-or b = omega (arith, bit_or-bitwise 0 b)

or_zero_fuel : (n a : ℕ) → a ≤ n → bit_or a 0 ≡ a
or_zero_fuel n zero h = refl
or_zero_fuel zero (suc a) h = absurd (omega arith)
or_zero_fuel (suc n) (suc a) h =
    omega (arith, or_step (suc a) 0, or_zero_fuel n (suc a / 2) (omega arith))

or-zero : (a : ℕ) → bit_or a 0 ≡ a
or-zero a = or_zero_fuel a a (omega arith)

and_zero_fuel : (n a : ℕ) → a ≤ n → bit_and a 0 ≡ 0
and_zero_fuel n zero h = refl
and_zero_fuel zero (suc a) h = absurd (omega arith)
and_zero_fuel (suc n) (suc a) h =
    omega (arith, and_step (suc a) 0, and_zero_fuel n (suc a / 2) (omega arith))

doubled : (q k : ℕ) → q * 2 ^ suc k ≡ 2 * (q * 2 ^ k)
doubled q k = omega (arith, ap (λ (t : ℕ). q * t) (pow-suc 2 k))

-- `low | (high << k)` and `(high << k) | low` are sums when `low` fits `k` bits.
pub or_high : (k low high : ℕ) → low < 2 ^ k → bit_or low (high * 2 ^ k) ≡ low + high * 2 ^ k
or_high zero low high h = ground (arith, zero-or high)
or_high (suc k) low high h = ground (
  arith,
  or_step low (high * 2 ^ suc k),
  doubled high k,
  pow-suc 2 k,
  or_high k (low / 2) high (omega arith),
)

pub or_low : (k low high : ℕ) → low < 2 ^ k → bit_or (high * 2 ^ k) low ≡ high * 2 ^ k + low
or_low zero low high h = ground (arith, or-zero high)
or_low (suc k) low high h = ground (
  arith,
  or_step (high * 2 ^ suc k) low,
  doubled high k,
  pow-suc 2 k,
  or_low k (low / 2) high (omega arith),
)

and_fields : (k high low : ℕ) → low < 2 ^ k → bit_and (high * 2 ^ k + low) (2 ^ k - 1) ≡ low
and_fields zero high low h =
    omega (arith, and_zero_fuel (high * 1 + low) (high * 1 + low) (omega arith))
and_fields (suc k) high low h = ground (
  arith,
  and_step (high * 2 ^ suc k + low) (2 ^ suc k - 1),
  doubled high k,
  pow-suc 2 k,
  one-le-pow k 2,
  and_fields k high (low / 2) (omega arith),
)

-- A mask of `k` ones is the remainder by `2 ^ k`.
pub and_mask : (k a : ℕ) → bit_and a (2 ^ k - 1) ≡ a % 2 ^ k
and_mask k a = ground (arith, one-le-pow k 2, and_fields k (a / 2 ^ k) (a % 2 ^ k))

and_le_fuel : (n a b : ℕ) → a ≤ n → bit_and a b ≤ b
and_le_fuel zero zero b h = omega (arith, bit_and-bitwise 0 b)
and_le_fuel zero (suc a) b h = absurd (omega arith)
and_le_fuel (suc n) zero b h = omega (arith, bit_and-bitwise 0 b)
and_le_fuel (suc n) (suc a) b h =
    omega (arith, and_step (suc a) b, and_le_fuel n (suc a / 2) (b / 2) (omega arith))

pub bit_and-le : (a b : ℕ) → bit_and a b ≤ b
bit_and-le a b = and_le_fuel a a b (omega arith)
