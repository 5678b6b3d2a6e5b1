-- ===== src/Vnc/Update.antt =====
-- crates/rd-engine/src/vnc/protocol.rs: the server's rectangles and clipboard, read from the stream.
-- Each function returns what it read with what is left of the stream.
use rust_desk_enhanced.Prelude.{
  ℕ, zero, suc, ◌+◌, ◌*◌, ◌^◌, Option, none, some, List, [], ◌∷◌, get_or, ltb, if◌then◌else◌,
  Result, ok, err, map_ok, and_then_ok,
}
use rust_desk_enhanced.Vnc.{
  VncError, protocol, unsupported_encoding, Encoding, raw, copy_rect, desktop_size, cursor,
  x_cursor, extended_desktop_size, zlib, zlib_hex, tight, tight_jpeg, other, encoding, Rectangle,
  raw_rectangle, copy_rectangle, resize,
}
use rust_desk_enhanced.Vnc.Bytes.{from_u16_be, from_u32_be, to_i32, read_exact}
use rust_desk_enhanced.Vnc.Pixel.{PixelFormat, bytes_per_pixel, div_ceil}

abbrev pub word : List ℕ → ℕ → ℕ
word bytes i = from_u16_be (get_or bytes i 0) (get_or bytes (suc i) 0)

-- The screens of an extended desktop size: four bytes, the last one the count of 16-byte records.
unfoldable pub skip_screens : List ℕ → Result VncError (List ℕ × List ℕ)
skip_screens reader =
    and_then_ok (read_exact 4 reader) (λ (count, rest). read_exact (get_or count 3 0 * 16) rest)

-- The bytes of a cursor's pixels and mask, and the six more of an `XCursor`.
abbrev pub cursor_length : PixelFormat → ℕ → ℕ → ℕ
cursor_length format width height =
    width * height * bytes_per_pixel format + div_ceil (width * height) 8

-- The `match encoding`; what draws nothing is `none`.
unfoldable pub rectangle_body :
    PixelFormat
    → Encoding
    → (x y width height : ℕ) → List ℕ
    → Result VncError (Option Rectangle × List ℕ)
rectangle_body format raw x y width height reader =
    map_ok (λ (pixels, rest). (some (raw_rectangle x y width height pixels), rest))
      (read_exact (width * height * bytes_per_pixel format) reader)
rectangle_body format copy_rect x y width height reader =
    map_ok
      (λ (source, rest).
        (some (copy_rectangle x y width height (word source 0) (word source 2)), rest))
      (read_exact 4 reader)
rectangle_body format desktop_size x y width height reader = ok (some (resize width height), reader)
rectangle_body format extended_desktop_size x y width height reader =
    map_ok (λ (screens, rest). (some (resize width height), rest)) (skip_screens reader)
rectangle_body format cursor x y width height reader =
    map_ok (λ (scratch, rest). (none, rest)) (read_exact (cursor_length format width height) reader)
rectangle_body format x_cursor x y width height reader =
    map_ok (λ (scratch, rest). (none, rest))
      (read_exact (cursor_length format width height + 6) reader)
rectangle_body format zlib x y width height reader = err (unsupported_encoding zlib)
rectangle_body format zlib_hex x y width height reader = err (unsupported_encoding zlib_hex)
rectangle_body format tight x y width height reader = err (unsupported_encoding tight)
rectangle_body format tight_jpeg x y width height reader = err (unsupported_encoding tight_jpeg)
rectangle_body format (other code) x y width height reader = err (unsupported_encoding (other code))

-- A rectangle under its header of 12 bytes.
unfoldable pub rectangle_under :
    PixelFormat → List ℕ → List ℕ → Result VncError (Option Rectangle × List ℕ)
rectangle_under format header reader =
    rectangle_body format
      (encoding (
        to_i32 (
          from_u32_be (get_or header 8 0) (get_or header 9 0) (get_or header 10 0)
            (get_or header 11 0))))
      (word header 0) (word header 2) (word header 4) (word header 6) reader

unfoldable pub decode_rectangle : PixelFormat → List ℕ → Result VncError (Option Rectangle × List ℕ)
decode_rectangle format reader =
    and_then_ok (read_exact 12 reader) (λ (header, rest). rectangle_under format header rest)

abbrev pub push : Option Rectangle → List Rectangle → List Rectangle
push none rectangles = rectangles
push (some r) rectangles = r ∷ rectangles

unfoldable pub decode_framebuffer_update :
    PixelFormat → ℕ → List ℕ → Result VncError (List Rectangle × List ℕ)
decode_framebuffer_update format zero reader = ok ([], reader)
decode_framebuffer_update format (suc count) reader =
    and_then_ok (decode_rectangle format reader) (λ (r, rest).
      map_ok (λ (rectangles, left). (push r rectangles, left))
        (decode_framebuffer_update format count rest))

abbrev pub max_cut_text : ℕ
max_cut_text = 2 ^ 20

unfoldable pub cut_text_body : ℕ → List ℕ → Result VncError (List ℕ × List ℕ)
cut_text_body length reader =
    if ltb max_cut_text length then err protocol else read_exact length reader

-- The bytes of the text; turning them into a string replaces what is no UTF-8.
unfoldable pub decode_server_cut_text : List ℕ → Result VncError (List ℕ × List ℕ)
decode_server_cut_text reader = and_then_ok (read_exact 4 reader) (λ (bytes, rest).
    cut_text_body
      (from_u32_be (get_or bytes 0 0) (get_or bytes 1 0) (get_or bytes 2 0) (get_or bytes 3 0))
      rest)
