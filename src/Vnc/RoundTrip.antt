-- ===== src/Vnc/RoundTrip.antt =====
-- crates/rd-engine/src/vnc/protocol.rs: framebuffer updates and clipboard text as a server writes them, read by the client.
use rust_desk_enhanced.Prelude.{
  ℕ, ◌*◌, Option, none, some, List, [], ◌∷◌, ◌++◌, length, length-append, ok, ◌≡◌, refl, arith,
  to_u32,
}
use native.Mathlib.Nat.{mul_assoc, mul_comm}
use rust_desk_enhanced.Vnc.{
  Encoding, raw, copy_rect, desktop_size, cursor, encoding, encoding_code, encoding_above,
  encoding_below, Rectangle, raw_rectangle, copy_rectangle, resize,
}
use rust_desk_enhanced.Vnc.Bytes.{u16_be, u32_be, to_i32, read_exact-append, u16_round, u32_round}
use rust_desk_enhanced.Vnc.Pixel.{PixelFormat, bytes_per_pixel, div_ceil}
use rust_desk_enhanced.Vnc.Update.{
  cursor_length, rectangle_body, rectangle_under, decode_rectangle, push,
}

-- What a server puts in an update, by sections 7.7 and 7.8 of RFC 6143.
pub data Sent : Type 0 where
  pixels_sent : (x y width height : ℕ) (pixels : List ℕ) → Sent
  copy_sent : (x y width height src_x src_y : ℕ) → Sent
  size_sent : (width height : ℕ) → Sent
  cursor_sent : (x y width height : ℕ) (pixels mask : List ℕ) → Sent

-- The twelve bytes over every rectangle.
abbrev pub header : (x y width height : ℕ) → Encoding → List ℕ
header x y width height e =
    u16_be x ++ u16_be y ++ u16_be width ++ u16_be height ++ u32_be (to_u32 (encoding_code e))

unfoldable pub content : Sent → List ℕ
content (pixels_sent x y width height pixels) = pixels
content (copy_sent x y width height src_x src_y) = u16_be src_x ++ u16_be src_y
content (size_sent width height) = []
content (cursor_sent x y width height pixels mask) = pixels ++ mask

unfoldable pub heading : Sent → List ℕ
heading (pixels_sent x y width height pixels) = header x y width height raw
heading (copy_sent x y width height src_x src_y) = header x y width height copy_rect
heading (size_sent width height) = header 0 0 width height desktop_size
heading (cursor_sent x y width height pixels mask) = header x y width height cursor

-- The lengths that the protocol gives each part. A row of a cursor's mask has whole bytes; here its width
-- is a multiple of eight.
unfoldable pub IsSent : PixelFormat → Sent → Type 0
IsSent f (pixels_sent x y width height pixels) = length pixels ≡ width * height * bytes_per_pixel f
IsSent f (copy_sent x y width height src_x src_y) = Unit {0}
IsSent f (size_sent width height) = Unit {0}
IsSent f (cursor_sent x y width height pixels mask) =
    (columns : ℕ) × (width ≡ columns * 8)
    × (length pixels ≡ width * height * bytes_per_pixel f)
    × (length mask ≡ columns * height)

-- What of it the client draws.
unfoldable pub drawn : Sent → Option Rectangle
drawn (pixels_sent x y width height pixels) = some (raw_rectangle x y width height pixels)
drawn (copy_sent x y width height src_x src_y) = some (copy_rectangle x y width height src_x src_y)
drawn (size_sent width height) = some (resize width height)
drawn (cursor_sent x y width height pixels mask) = none

pub under_header :
    (f : PixelFormat) (x y width height : ℕ) (e : Encoding) (rest : List ℕ)
    → encoding (to_i32 (to_u32 (encoding_code e))) ≡ e
    → decode_rectangle f (header x y width height e ++ rest)
      ≡ rectangle_body f e x y width height rest
unfolding decode_rectangle rectangle_under
under_header f x y width height e rest h =
    rw
      (
        read_exact-append (header x y width height e) rest 12 refl,
        u16_round x,
        u16_round y,
        u16_round width,
        u16_round height,
        u32_round (to_u32 (encoding_code e)),
        h,
      )
      refl

mask_length :
    (columns width height : ℕ)
    → width ≡ columns * 8
    → div_ceil (width * height) 8 ≡ columns * height
mask_length columns width height e =
    let p : columns * 8 * height ≡ columns * height * 8 =
      omega (arith, mul_assoc columns 8 height, mul_comm 8 height, mul_assoc columns height 8) in
    rw (e, p) (omega arith)

-- One rectangle read back.
pub rectangle_read :
    (f : PixelFormat) (s : Sent) (rest : List ℕ)
    → IsSent f s
    → decode_rectangle f (heading s ++ (content s ++ rest)) ≡ ok (drawn s, rest)
unfolding heading content drawn IsSent rectangle_body encoding encoding_above encoding_below
    encoding_code to_i32 to_u32
rectangle_read f (pixels_sent x y width height pixels) rest h =
    rw
      (
        under_header f x y width height raw (pixels ++ rest) refl,
        read_exact-append pixels rest (width * height * bytes_per_pixel f) h,
      )
      refl
rectangle_read f (copy_sent x y width height src_x src_y) rest h =
    rw
      (
        under_header f x y width height copy_rect (u16_be src_x ++ u16_be src_y ++ rest) refl,
        read_exact-append (u16_be src_x ++ u16_be src_y) rest 4 refl,
        u16_round src_x,
        u16_round src_y,
      )
      refl
rectangle_read f (size_sent width height) rest h =
    rw (under_header f 0 0 width height desktop_size rest refl) refl
rectangle_read f (cursor_sent x y width height pixels mask) rest (columns, p, q, r) =
    rw
      (
        under_header f x y width height cursor ((pixels ++ mask) ++ rest) refl,
        read_exact-append (pixels ++ mask) rest (cursor_length f width height)
            (omega (arith, length-append pixels mask, q, r, mask_length columns width height p)),
      )
      refl

abbrev pub written : List Sent → List ℕ
written [] = []
written (s ∷ ss) = heading s ++ (content s ++ written ss)

abbrev pub drawings : List Sent → List Rectangle
drawings [] = []
drawings (s ∷ ss) = push (drawn s) (drawings ss)

abbrev pub AllSent : PixelFormat → List Sent → Type 0
AllSent f [] = Unit {0}
AllSent f (s ∷ ss) = IsSent f s × AllSent f ss
