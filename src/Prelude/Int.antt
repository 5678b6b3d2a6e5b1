-- ===== src/Prelude/Int.antt =====
-- Signed integers over the native numbers, with the Rust operations that the components use.
use Prim.Native.Nat.{ℕ, zero, suc, ◌+◌, ◌-◌, ◌*◌, ◌/◌, ◌^◌, min, max}
use mathlib.Core.Path.{◌≡◌, refl, ap}
use mathlib.Core.Bool.{Bool, true, false}
use mathlib.Core.Option.{Option, none, some}
use rust_desk_enhanced.Prelude.Tests.{if◌then◌else◌, leb, ◌==◌}

-- `negsuc n` is `-(n + 1)`.
pub data ℤ : Type 0 where
  pos negsuc : ℕ → ℤ

unfoldable pub unsigned_abs : ℤ → ℕ
unsigned_abs (pos n) = n
unsigned_abs (negsuc n) = suc n

unfoldable pub neg : ℤ → ℤ
neg (pos zero) = pos 0
neg (pos (suc n)) = negsuc n
neg (negsuc n) = pos (suc n)

-- `i32::checked_neg`: the least number has no negation.
unfoldable pub checked_neg : ℤ → Option ℤ
unfolding neg
checked_neg (pos n) = some (neg (pos n))
checked_neg (negsuc n) = if n == 2 ^ 31 - 1 then none else some (neg (negsuc n))

-- The arithmetic shift `>>`.
unfoldable pub shr : ℤ → ℕ → ℤ
shr (pos n) k = pos (n / 2 ^ k)
shr (negsuc n) k = negsuc (n / 2 ^ k)

-- `as u32`
unfoldable pub to_u32 : ℤ → ℕ
to_u32 (pos n) = n
to_u32 (negsuc n) = 2 ^ 32 - 1 - n

unfoldable pub is_negative : ℤ → Bool
is_negative (pos n) = false
is_negative (negsuc n) = true

minus_nat : ℕ → ℕ → ℤ
minus_nat a b = if leb b a then pos (a - b) else negsuc (b - a - 1)

infixl 60 ◌-ℤ◌
unfoldable pub ◌-ℤ◌ : ℤ → ℤ → ℤ
unfolding minus_nat
pos a -ℤ pos b = minus_nat a b
pos a -ℤ negsuc b = pos (a + suc b)
negsuc a -ℤ pos b = negsuc (a + b)
negsuc a -ℤ negsuc b = minus_nat b a

-- `.max(1)` and `.clamp(0, high)`, whose values are natural.
unfoldable pub at_least_one : ℤ → ℕ
at_least_one (pos n) = max n 1
at_least_one (negsuc n) = 1

unfoldable pub clamp : ℤ → ℕ → ℕ
clamp (pos n) high = min n high
clamp (negsuc n) high = 0

magnitude : ℤ → ℕ
magnitude (pos n) = n
magnitude (negsuc n) = n

pub pos-injective : {a b : ℕ} → pos a ≡ pos b → a ≡ b
unfolding magnitude
pos-injective p = ap magnitude p

pub neg-neg : (z : ℤ) → neg (neg z) ≡ z
unfolding neg
neg-neg (pos zero) = refl
neg-neg (pos (suc n)) = refl
neg-neg (negsuc n) = refl

pub unsigned_abs-neg : (z : ℤ) → unsigned_abs (neg z) ≡ unsigned_abs z
unfolding neg unsigned_abs
unsigned_abs-neg (pos zero) = refl
unsigned_abs-neg (pos (suc n)) = refl
unsigned_abs-neg (negsuc n) = refl

infixl 60 ◌+ℤ◌
unfoldable pub ◌+ℤ◌ : ℤ → ℤ → ℤ
unfolding minus_nat
pos a +ℤ pos b = pos (a + b)
pos a +ℤ negsuc b = minus_nat a (suc b)
negsuc a +ℤ pos b = minus_nat b (suc a)
negsuc a +ℤ negsuc b = negsuc (suc (a + b))

infixl 70 ◌*ℤ◌
unfoldable pub ◌*ℤ◌ : ℤ → ℤ → ℤ
unfolding neg
pos a *ℤ pos b = pos (a * b)
pos a *ℤ negsuc b = neg (pos (a * suc b))
negsuc a *ℤ pos b = neg (pos (suc a * b))
negsuc a *ℤ negsuc b = pos (suc a * suc b)

-- `a <= b`
unfoldable pub leb_int : ℤ → ℤ → Bool
leb_int (pos a) (pos b) = leb a b
leb_int (pos a) (negsuc b) = false
leb_int (negsuc a) (pos b) = true
leb_int (negsuc a) (negsuc b) = leb b a
