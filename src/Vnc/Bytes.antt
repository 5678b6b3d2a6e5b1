-- ===== src/Vnc/Bytes.antt =====
-- Big-endian numbers, and reading from a list of bytes.
use rust_desk_enhanced.Prelude.{
  ℕ, ◌+◌, ◌-◌, ◌*◌, ◌/◌, ◌%◌, ◌^◌, ◌<◌, List, [], ◌∷◌, ◌++◌, length, take, drop, ltb, if◌then◌else◌,
  Result, ok, err, sym, le→ltb_false, lt→ltb, take-append, drop-append, length-append, ◌≡◌, refl,
  ap, arith, ℤ, pos, negsuc, to_u32,
}
use rust_desk_enhanced.Vnc.{VncError, io}

abbrev pub u16_be : ℕ → List ℕ
u16_be n = n / 256 ∷ n % 256 ∷ []

abbrev pub u32_be : ℕ → List ℕ
u32_be n = n / 16777216 ∷ n / 65536 % 256 ∷ n / 256 % 256 ∷ n % 256 ∷ []

abbrev pub from_u16_be : ℕ → ℕ → ℕ
from_u16_be a b = a * 256 + b

abbrev pub from_u32_be : ℕ → ℕ → ℕ → ℕ → ℕ
from_u32_be a b c d = ((a * 256 + b) * 256 + c) * 256 + d

-- `as i32`
unfoldable pub to_i32 : ℕ → ℤ
to_i32 n = if ltb n (2 ^ 31) then pos n else negsuc (2 ^ 32 - 1 - n)

-- `read_exact` on a buffer of `n` bytes: the bytes and what is left of the stream.
unfoldable pub read_exact : ℕ → List ℕ → Result VncError (List ℕ × List ℕ)
read_exact n reader = if ltb (length reader) n then err io else ok (take n reader, drop n reader)

pub read_exact-append :
    (xs ys : List ℕ) (n : ℕ) → length xs ≡ n → read_exact n (xs ++ ys) ≡ ok (xs, ys)
unfolding read_exact
read_exact-append xs ys n h =
    rw
      (
        sym h,
        le→ltb_false (length (xs ++ ys)) (length xs) (omega (arith, length-append xs ys)),
        take-append xs ys,
        drop-append xs ys,
      )
      refl

pub u16_round : (n : ℕ) → from_u16_be (n / 256) (n % 256) ≡ n
u16_round n = omega arith

pub u32_round : (n : ℕ) → from_u32_be (n / 16777216) (n / 65536 % 256) (n / 256 % 256) (n % 256) ≡ n
u32_round n = omega arith

-- The codes of an `i32`.
abbrev pub IsI32 : ℤ → Type 0
IsI32 (pos n) = n < 2 ^ 31
IsI32 (negsuc n) = n < 2 ^ 31

pub to_i32-to_u32 : (z : ℤ) → IsI32 z → to_i32 (to_u32 z) ≡ z
unfolding to_i32 to_u32
to_i32-to_u32 (pos n) h = rw (lt→ltb n (2 ^ 31) h) refl
to_i32-to_u32 (negsuc n) h =
    rw (le→ltb_false (2 ^ 32 - 1 - n) (2 ^ 31) (omega arith)) (ap negsuc (omega arith))
