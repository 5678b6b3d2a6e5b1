-- ===== src/Vnc/Pixel.antt =====
-- crates/rd-engine/src/vnc/protocol.rs: `PixelFormat`.
use rust_desk_enhanced.Prelude.{
  ℕ, ◌+◌, ◌-◌, ◌*◌, ◌/◌, ◌%◌, ◌^◌, max, bit_and, bit_or, Bool, true, false, not, List, [], ◌∷◌,
  ◌++◌, reverse, length, take, get_or, ltb, leb, ◌==◌, if◌then◌else◌, Result, ok, err,
}
use rust_desk_enhanced.Vnc.{VncError, protocol}
use rust_desk_enhanced.Vnc.Bytes.{u16_be, from_u16_be}

pub record PixelFormat : Type 0 where
  pub bits_per_pixel : ℕ
  pub depth : ℕ
  pub big_endian : Bool
  pub true_colour : Bool
  pub red_max : ℕ
  pub green_max : ℕ
  pub blue_max : ℕ
  pub red_shift : ℕ
  pub green_shift : ℕ
  pub blue_shift : ℕ

abbrev pub preferred_pixel_format : PixelFormat
preferred_pixel_format = record {
  bits_per_pixel = 32;
  depth = 24;
  big_endian = false;
  true_colour = true;
  red_max = 255;
  green_max = 255;
  blue_max = 255;
  red_shift = 16;
  green_shift = 8;
  blue_shift = 0;
}

-- `u8::from`
abbrev pub from_bool : Bool → ℕ
from_bool true = 1
from_bool false = 0

unfoldable pub encode : PixelFormat → List ℕ
encode f =
    f.bits_per_pixel
    ∷ f.depth
    ∷ from_bool f.big_endian
    ∷ from_bool f.true_colour
    ∷ (u16_be f.red_max
        ++ u16_be f.green_max
        ++ u16_be f.blue_max
        ++ (f.red_shift ∷ f.green_shift ∷ f.blue_shift ∷ 0 ∷ 0 ∷ 0 ∷ []))

unfoldable pub decode : List ℕ → Result VncError PixelFormat
decode bytes =
    if ltb (length bytes) 16
    then err protocol
    else ok (record {
      bits_per_pixel = get_or bytes 0 0;
      depth = get_or bytes 1 0;
      big_endian = not (get_or bytes 2 0 == 0);
      true_colour = not (get_or bytes 3 0 == 0);
      red_max = from_u16_be (get_or bytes 4 0) (get_or bytes 5 0);
      green_max = from_u16_be (get_or bytes 6 0) (get_or bytes 7 0);
      blue_max = from_u16_be (get_or bytes 8 0) (get_or bytes 9 0);
      red_shift = get_or bytes 10 0;
      green_shift = get_or bytes 11 0;
      blue_shift = get_or bytes 12 0;
    })

-- `div_ceil`
abbrev pub div_ceil : ℕ → ℕ → ℕ
div_ceil a b = if b == 0 then 0 else (a + (b - 1)) / b

unfoldable pub bytes_per_pixel : PixelFormat → ℕ
bytes_per_pixel f = div_ceil f.bits_per_pixel 8

-- `fold(0u32, |acc, byte| (acc << 8) | u32::from(byte))`
unfoldable pub fold_bytes : ℕ → List ℕ → ℕ
fold_bytes acc [] = acc
fold_bytes acc (b ∷ bs) = fold_bytes (bit_or (acc * 256 % 2 ^ 32) b) bs

unfoldable pub pixel_value : Bool → List ℕ → ℕ
pixel_value big_endian bytes =
    if big_endian then fold_bytes 0 bytes else fold_bytes 0 (reverse bytes)

-- The colour-map branch: the index as a grey level.
unfoldable pub grey_mask : ℕ → ℕ
grey_mask bits_per_pixel = if leb 8 bits_per_pixel then 0xff else 2 ^ bits_per_pixel - 1

unfoldable pub grey_level : ℕ → ℕ → ℕ
grey_level value mask = (bit_and value mask * 255) / max mask 1

-- The closure `component`; a release build takes the shift modulo 32.
unfoldable pub component : ℕ → ℕ → ℕ → ℕ
component value most shift =
    if most == 0 then 0 else (bit_and (value / 2 ^ (shift % 32)) most * 255) / most

unfoldable pub pack : ℕ → ℕ → ℕ → ℕ
pack red green blue = bit_or (bit_or (red * 2 ^ 16) (green * 2 ^ 8)) blue

unfoldable pub colour_of : PixelFormat → ℕ → ℕ
colour_of f value =
    let level = grey_level value (grey_mask f.bits_per_pixel) in
    if not f.true_colour
    then pack level level level
    else pack (component value f.red_max f.red_shift) (component value f.green_max f.green_shift)
        (component value f.blue_max f.blue_shift)

unfoldable pub decode_pixel : PixelFormat → List ℕ → Result VncError ℕ
decode_pixel f bytes =
    let step = bytes_per_pixel f in
    if ltb (length bytes) step
    then err protocol
    else ok (colour_of f (pixel_value f.big_endian (take step bytes)))
