-- ===== src/Vnc/PixelBounds.antt =====
-- crates/rd-engine/src/vnc/protocol.rs: what `PixelFormat::decode_pixel` returns.
use rust_desk_enhanced.Prelude.{
  ℕ, zero, suc, ◌+◌, ◌*◌, ◌/◌, ◌%◌, ◌^◌, ◌≤◌, ◌<◌, max, bit_and, false, List, [], ◌∷◌, length, take,
  ltb, ◌==◌, ok, ◌≡◌, refl, ap, ◌∙◌, arith, inl, inr, Bool-cases,
}
use rust_desk_enhanced.Prelude.Bits.{or_low, and_mask, bit_and-le}
use native.Mathlib.Nat.{div-le_of_le-mul, mul-le-mul_right, mul-div_cancel}
use rust_desk_enhanced.Vnc.Pixel.{
  PixelFormat, preferred_pixel_format, bytes_per_pixel, fold_bytes, pixel_value, grey_mask,
  grey_level, component, pack, colour_of, decode_pixel,
}

scaled : (x most : ℕ) → x ≤ most → (x * 255) / most ≤ 255
scaled x most h = div-le_of_le-mul most (mul-le-mul_right 255 h)

component-le : (value most shift : ℕ) → component value most shift ≤ 255
unfolding component
component-le value zero shift = omega arith
component-le value (suc most) shift =
    let nonzero : (suc most == 0) ≡ false = ground arith in
    rw nonzero (
      scaled (bit_and (value / 2 ^ (shift % 32)) (suc most)) (suc most)
        (bit_and-le (value / 2 ^ (shift % 32)) (suc most)))

grey_level-le : (value mask : ℕ) → grey_level value mask ≤ 255
unfolding grey_level
grey_level-le value mask =
    scaled (bit_and value mask) (max mask 1) (omega (arith, bit_and-le value mask))

-- Three bytes packed.
pack_sum : (r g b : ℕ) → r ≤ 255 → g ≤ 255 → b ≤ 255 → pack r g b ≡ r * 65536 + g * 256 + b
unfolding pack
pack_sum r g b p q s =
    let e : r * 65536 + g * 256 ≡ (r * 256 + g) * 256 = omega arith in
    rw (or_low 16 (g * 256) r (omega arith), e, or_low 8 b (r * 256 + g) (omega arith))
      (omega arith)

pack-le : (r g b : ℕ) → r ≤ 255 → g ≤ 255 → b ≤ 255 → pack r g b ≤ 0xffffff
pack-le r g b p q s = omega (arith, p, q, s, pack_sum r g b p q s)

colour_of-le : (f : PixelFormat) (value : ℕ) → colour_of f value ≤ 0xffffff
unfolding colour_of
colour_of-le f value =
    let level = grey_level value (grey_mask f.bits_per_pixel) in
    let l = grey_level-le value (grey_mask f.bits_per_pixel) in
    elim (Bool-cases f.true_colour) [
      | inl t ↦ rw t (
          pack-le (component value f.red_max f.red_shift)
            (component value f.green_max f.green_shift) (component value f.blue_max f.blue_shift)
            (component-le value f.red_max f.red_shift)
            (component-le value f.green_max f.green_shift)
            (component-le value f.blue_max f.blue_shift))
      | inr t ↦ rw t (pack-le level level level l l l)
    ]

-- Whatever the format and the bytes, a decoded pixel is a colour 0xRRGGBB: it has 24 bits.
pub decode_pixel-le :
    (f : PixelFormat) (bytes : List ℕ) (colour : ℕ)
    → decode_pixel f bytes ≡ ok colour
    → colour ≤ 0xffffff
unfolding decode_pixel
decode_pixel-le f bytes colour h =
    ground (arith, h, colour_of-le f (pixel_value f.big_endian (take (bytes_per_pixel f) bytes)))

preferred_component : (v shift r : ℕ) → v / 2 ^ (shift % 32) % 256 ≡ r → component v 255 shift ≡ r
unfolding component
preferred_component v shift r h =
    rw (and_mask 8 (v / 2 ^ (shift % 32)), h) (mul-div_cancel r (omega arith))

fold_step :
    (acc b : ℕ) (bs : List ℕ)
    → acc < 2 ^ 24
    → b ≤ 255
    → fold_bytes acc (b ∷ bs) ≡ fold_bytes (acc * 256 + b) bs
unfolding fold_bytes
fold_step acc b bs h l =
    let e : acc * 256 % 2 ^ 32 ≡ acc * 256 = omega arith in
    rw (e, or_low 8 b acc (omega arith)) refl

last : (n : ℕ) → fold_bytes n [] ≡ n
unfolding fold_bytes
last n = refl

long_enough : (n : ℕ) → ltb (suc (suc (suc (suc n)))) 4 ≡ false
long_enough n = ground arith

little_endian :
    (b g r x : ℕ)
    → b ≤ 255
    → g ≤ 255
    → r ≤ 255
    → x ≤ 255
    → pixel_value false (b ∷ g ∷ r ∷ x ∷ []) ≡ ((x * 256 + r) * 256 + g) * 256 + b
unfolding pixel_value
little_endian b g r x p q s t =
    fold_step 0 x (r ∷ g ∷ b ∷ []) (omega arith) t
    ∙ ap (λ (n : ℕ). fold_bytes n (r ∷ g ∷ b ∷ [])) (omega arith)
    ∙ fold_step x r (g ∷ b ∷ []) (omega arith) s
    ∙ fold_step (x * 256 + r) g (b ∷ []) (omega arith) q
    ∙ fold_step ((x * 256 + r) * 256 + g) b [] (omega arith) p
    ∙ last (((x * 256 + r) * 256 + g) * 256 + b)

preferred_colour :
    (b g r x : ℕ)
    → b ≤ 255
    → g ≤ 255
    → r ≤ 255
    → x ≤ 255
    → colour_of preferred_pixel_format (((x * 256 + r) * 256 + g) * 256 + b)
      ≡ r * 65536 + g * 256 + b
unfolding colour_of
preferred_colour b g r x p q s t =
    let v = ((x * 256 + r) * 256 + g) * 256 + b in
    rw
      (
        preferred_component v 16 r (omega arith),
        preferred_component v 8 g (omega arith),
        preferred_component v 0 b (omega arith),
      )
      (pack_sum r g b s q p)

-- In the format that the client asks for, the bytes blue, green, red and padding are the colour 0xRRGGBB.
pub decode_pixel-preferred_pixel_format :
    (b g r x : ℕ) (rest : List ℕ)
    → b ≤ 255
    → g ≤ 255
    → r ≤ 255
    → x ≤ 255
    → decode_pixel preferred_pixel_format (b ∷ g ∷ r ∷ x ∷ rest) ≡ ok (r * 65536 + g * 256 + b)
unfolding decode_pixel bytes_per_pixel
decode_pixel-preferred_pixel_format b g r x rest p q s t =
    rw (long_enough (length rest), little_endian b g r x p q s t, preferred_colour b g r x p q s t)
      refl
