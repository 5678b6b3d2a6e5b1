-- ===== src/Input/Desktop.antt =====
-- crates/rd-engine/src/input.rs: a desktop point in the absolute range of `SendInput`.
use rust_desk_enhanced.Prelude.{
  ℕ, suc, ◌+◌, ◌*◌, ◌/◌, ◌≤◌, ◌<◌, min, max, ◌≡◌, arith, ℤ, pos, negsuc, ◌-ℤ◌, at_least_one, clamp,
}
use native.Mathlib.Nat.{
  mul_comm, suc-mul, div-mul-le_self, zero-div, mul-le-mul_right, div-le_of_le-mul,
  le-div_iff_mul-le, mul-div_cancel,
}

abbrev pub absolute_max : ℕ
absolute_max = 65535

-- One axis: the span of the desktop, the offset kept inside it, and the scaled offset.
unfoldable pub axis : ℤ → ℤ → ℤ → ℕ
axis x origin width =
    let span = at_least_one (width -ℤ pos 1) in
    let rel = clamp (x -ℤ origin) span in (rel * absolute_max) / span

unfoldable pub normalize_absolute : (x y origin_x origin_y width height : ℤ) → ℕ × ℕ
normalize_absolute x y origin_x origin_y width height =
    (axis x origin_x width, axis y origin_y height)

span_positive : (z : ℤ) → 1 ≤ at_least_one z
unfolding at_least_one
span_positive (pos n) = omega arith
span_positive (negsuc n) = omega arith

clamp-le : (z : ℤ) (high : ℕ) → clamp z high ≤ high
unfolding clamp
clamp-le (pos n) high = omega arith
clamp-le (negsuc n) high = omega arith

axis-le : (x origin width : ℤ) → axis x origin width ≤ 65535
unfolding axis
axis-le x origin width =
    div-le_of_le-mul (at_least_one (width -ℤ pos 1))
      (mul-le-mul_right 65535 (clamp-le (x -ℤ origin) (at_least_one (width -ℤ pos 1))))

-- Every point lands in the range of `SendInput`, wherever it is and however large the desktop.
pub normalize_absolute-le :
    (x y origin_x origin_y width height : ℤ)
    → ((normalize_absolute x y origin_x origin_y width height).0 ≤ 65535)
      × ((normalize_absolute x y origin_x origin_y width height).1 ≤ 65535)
unfolding normalize_absolute
normalize_absolute-le x y origin_x origin_y width height =
    (axis-le x origin_x width, axis-le y origin_y height)

-- A quotient grows when the dividend grows by the divisor.
quotient_grows : (a b s : ℕ) → 1 ≤ s → a + s ≤ b → a / s < b / s
quotient_grows a b s p h =
    (le-div_iff_mul-le {k = s} p).1 (omega (arith, h, div-mul-le_self a s, suc-mul (a / s) s))

inside : (s k l : ℕ) → 1 ≤ s → s ≤ 65535 → k < l → (k * 65535) / s < (l * 65535) / s
inside s k l p q h = quotient_grows (k * 65535) (l * 65535) s p (omega arith)

at_span : (s : ℕ) → 1 ≤ s → (s * 65535) / s ≡ 65535
at_span s p = rw (mul_comm s 65535) (mul-div_cancel 65535 p)

-- Points of a desktop of at most 65,536 columns keep their order: a column further right lands
-- strictly further right.
pub axis-ordered :
    (x x' origin width : ℤ) (k l s : ℕ)
    → width -ℤ pos 1 ≡ pos s
    → x -ℤ origin ≡ pos k
    → x' -ℤ origin ≡ pos l
    → k < l
    → l ≤ s
    → s ≤ 65535
    → axis x origin width < axis x' origin width
unfolding axis at_least_one clamp
axis-ordered x x' origin width k l s e f g p q r =
    rw (e, f, g)
      (inside (max s 1) (min k (max s 1)) (min l (max s 1)) (omega arith) (omega arith)
        (omega arith))

at_edge : (n s : ℕ) → suc s ≤ n → (min n (max (suc s) 1) * 65535) / max (suc s) 1 ≡ 65535
at_edge n s l =
    let p : max (suc s) 1 ≡ suc s = omega arith in
    let q : min n (suc s) ≡ suc s = omega arith in rw (p, q) (at_span (suc s) (omega arith))

-- A point left of the desktop lands on the edge 0, and one at or past the last column on 65535: none wraps.
pub axis-clamps :
    (x x' origin width : ℤ) (n k s : ℕ)
    → width -ℤ pos 1 ≡ pos (suc s)
    → x -ℤ origin ≡ negsuc n
    → x' -ℤ origin ≡ pos k
    → suc s ≤ k
    → (axis x origin width ≡ 0) × (axis x' origin width ≡ 65535)
unfolding axis at_least_one clamp
axis-clamps x x' origin width n k s e f g l =
    (rw (e, f) (zero-div (max (suc s) 1)), rw (e, g) (at_edge k s l))
