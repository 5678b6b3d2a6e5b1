-- ===== src/Vnc/Client.antt =====
-- crates/rd-engine/src/vnc/protocol.rs: the messages that the client writes.
-- A text is its UTF-8 bytes.
use rust_desk_enhanced.Prelude.{
  ℕ, ◌-◌, ◌^◌, Bool, List, [], ◌∷◌, ◌++◌, length, ltb, if◌then◌else◌, Result, ok, err, to_u32,
}
use rust_desk_enhanced.Vnc.{VncError, protocol, Encoding, encoding_code}
use rust_desk_enhanced.Vnc.Bytes.{u16_be, u32_be}
use rust_desk_enhanced.Vnc.Pixel.{PixelFormat, encode, from_bool}

abbrev pub c2s_set_pixel_format : ℕ
c2s_set_pixel_format = 0

abbrev pub c2s_set_encodings : ℕ
c2s_set_encodings = 2

abbrev pub c2s_framebuffer_update_request : ℕ
c2s_framebuffer_update_request = 3

abbrev pub c2s_key_event : ℕ
c2s_key_event = 4

abbrev pub c2s_pointer_event : ℕ
c2s_pointer_event = 5

abbrev pub c2s_client_cut_text : ℕ
c2s_client_cut_text = 6

unfoldable pub encode_set_pixel_format : PixelFormat → List ℕ
encode_set_pixel_format format = c2s_set_pixel_format ∷ 0 ∷ 0 ∷ 0 ∷ encode format

-- One `i32` per encoding.
abbrev pub encoding_bytes : List Encoding → List ℕ
encoding_bytes [] = []
encoding_bytes (e ∷ es) = u32_be (to_u32 (encoding_code e)) ++ encoding_bytes es

unfoldable pub encode_set_encodings : List Encoding → Result VncError (List ℕ)
encode_set_encodings encodings =
    let count = length encodings in
    if ltb (2 ^ 16 - 1) count
    then err protocol
    else ok (c2s_set_encodings ∷ 0 ∷ (u16_be count ++ encoding_bytes encodings))

unfoldable pub encode_framebuffer_update_request : Bool → ℕ → ℕ → ℕ → ℕ → List ℕ
encode_framebuffer_update_request incremental x y width height =
    c2s_framebuffer_update_request
    ∷ from_bool incremental
    ∷ (u16_be x ++ u16_be y ++ u16_be width ++ u16_be height)

unfoldable pub encode_key_event : Bool → ℕ → List ℕ
encode_key_event down keysym = c2s_key_event ∷ from_bool down ∷ (u16_be 0 ++ u32_be keysym)

unfoldable pub encode_pointer_event : ℕ → ℕ → ℕ → List ℕ
encode_pointer_event buttons x y = c2s_pointer_event ∷ buttons ∷ (u16_be x ++ u16_be y)

unfoldable pub encode_client_cut_text : List ℕ → Result VncError (List ℕ)
encode_client_cut_text text =
    if ltb (2 ^ 32 - 1) (length text)
    then err protocol
    else ok (c2s_client_cut_text ∷ 0 ∷ 0 ∷ 0 ∷ (u32_be (length text) ++ text))
