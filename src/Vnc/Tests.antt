-- ===== src/Vnc/Tests.antt =====
-- Pixels, updates and clipboard texts, and the theorems at concrete inputs.
use rust_desk_enhanced.Prelude.{
  ◌+◌, ◌*◌, true, List, [], ◌∷◌, ◌++◌, drop, ok, err, ◌≡◌, refl, arith, to_u32,
}
use rust_desk_enhanced.Vnc.{
  unsupported_encoding, security_type, security_code, is_supported, tight, encoding, encoding_above,
  encoding_below, encoding_code,
}
use rust_desk_enhanced.Vnc.Bytes.{to_i32, read_exact}
use rust_desk_enhanced.Vnc.Pixel.{
  PixelFormat, preferred_pixel_format, encode, decode, decode_pixel, bytes_per_pixel, pixel_value,
  fold_bytes, colour_of, component, grey_level, grey_mask, pack,
}
use rust_desk_enhanced.Vnc.PixelFormats.{decode-encode_append}
use rust_desk_enhanced.Vnc.PixelBounds.{decode_pixel-preferred_pixel_format}
use rust_desk_enhanced.Vnc.{Encoding}
use rust_desk_enhanced.Vnc.Requests.{AllI32, codes, read_request, read_request-encode_set_encodings}
use rust_desk_enhanced.Vnc.Client.{encode_set_encodings, encode_client_cut_text}
use rust_desk_enhanced.Vnc.Update.{
  decode_framebuffer_update, decode_rectangle, rectangle_under, rectangle_body, skip_screens,
  decode_server_cut_text, cut_text_body,
}
use rust_desk_enhanced.Vnc.RoundTrip.{
  Sent, pixels_sent, cursor_sent, size_sent, header, heading, content, drawn, IsSent, AllSent,
  written, drawings,
}
use rust_desk_enhanced.Vnc.Stream.{
  decode_framebuffer_update-written, is_refused, decode_framebuffer_update-unsupported_encoding,
  decode_server_cut_text-encode_client_cut_text,
}

everything : Unit {0}
unfolding security_type security_code is_supported encoding encoding_above encoding_below
    encoding_code to_i32 to_u32 read_exact encode decode decode_pixel bytes_per_pixel pixel_value
    fold_bytes colour_of component grey_level grey_mask pack encode_client_cut_text
    decode_framebuffer_update decode_rectangle rectangle_under rectangle_body skip_screens
    decode_server_cut_text cut_text_body heading content drawn IsSent is_refused
everything = tt

-- 5-6-5, big-endian.
abbrev narrow : PixelFormat
narrow = record {
  bits_per_pixel = 16;
  depth = 16;
  big_endian = true;
  true_colour = true;
  red_max = 31;
  green_max = 63;
  blue_max = 31;
  red_shift = 11;
  green_shift = 5;
  blue_shift = 0;
}

narrow_red : decode_pixel narrow (0xf8 ∷ 0 ∷ []) ≡ ok 0xff0000
unfolding everything
narrow_red = refl

decode-encode_append_example : decode (encode narrow ++ (9 ∷ [])) ≡ ok narrow
decode-encode_append_example = decode-encode_append narrow (9 ∷ [])

decode_pixel-preferred_pixel_format_example :
    decode_pixel preferred_pixel_format (0x56 ∷ 0x34 ∷ 0x12 ∷ 0 ∷ [])
    ≡ ok (0x12 * 65536 + 0x34 * 256 + 0x56)
decode_pixel-preferred_pixel_format_example =
    decode_pixel-preferred_pixel_format 0x56 0x34 0x12 0 [] (omega arith) (omega arith)
      (omega arith) (omega arith)

-- A resize, a cursor of 8 by 1, and a pixel.
abbrev sent : List Sent
sent =
    size_sent 2 1
    ∷ cursor_sent 0 0 8 1 (1 ∷ 1 ∷ 2 ∷ 2 ∷ 3 ∷ 3 ∷ 4 ∷ 4 ∷ 5 ∷ 5 ∷ 6 ∷ 6 ∷ 7 ∷ 7 ∷ 8 ∷ 8 ∷ [])
        (255 ∷ [])
    ∷ pixels_sent 1 0 1 1 (0xf8 ∷ 0 ∷ [])
    ∷ []

sent-AllSent : AllSent narrow sent
unfolding everything
sent-AllSent = (tt, ((1, refl, refl, refl), (refl, tt)))

decode_framebuffer_update-written_example :
    decode_framebuffer_update narrow 3 (written sent ++ (2 ∷ [])) ≡ ok (drawings sent, 2 ∷ [])
decode_framebuffer_update-written_example =
    decode_framebuffer_update-written narrow sent (2 ∷ []) sent-AllSent

tight_refused : is_refused tight ≡ true
unfolding everything
tight_refused = refl

tight_known : encoding (to_i32 (to_u32 (encoding_code tight))) ≡ tight
unfolding everything
tight_known = refl

decode_framebuffer_update-unsupported_encoding_example :
    decode_framebuffer_update narrow (3 + 2) (written sent ++ (header 0 0 1 1 tight ++ (7 ∷ [])))
    ≡ err (unsupported_encoding tight)
decode_framebuffer_update-unsupported_encoding_example =
    decode_framebuffer_update-unsupported_encoding narrow sent 0 0 1 1 1 tight (7 ∷ []) sent-AllSent
      tight_refused tight_known

greeting_written :
    encode_client_cut_text (104 ∷ 105 ∷ []) ≡ ok (6 ∷ 0 ∷ 0 ∷ 0 ∷ 0 ∷ 0 ∷ 0 ∷ 2 ∷ 104 ∷ 105 ∷ [])
unfolding everything
greeting_written = refl

decode_server_cut_text-encode_client_cut_text_example :
    decode_server_cut_text (drop 4 (6 ∷ 0 ∷ 0 ∷ 0 ∷ 0 ∷ 0 ∷ 0 ∷ 2 ∷ 104 ∷ 105 ∷ []) ++ (3 ∷ []))
    ≡ ok (104 ∷ 105 ∷ [], 3 ∷ [])
decode_server_cut_text-encode_client_cut_text_example =
    decode_server_cut_text-encode_client_cut_text (104 ∷ 105 ∷ []) (3 ∷ [])
      (6 ∷ 0 ∷ 0 ∷ 0 ∷ 0 ∷ 0 ∷ 0 ∷ 2 ∷ 104 ∷ 105 ∷ []) (omega arith) greeting_written

abbrev asked : List Encoding
asked = tight ∷ Encoding.desktop_size ∷ []

asked-AllI32 : AllI32 asked
unfolding everything
asked-AllI32 = (omega arith, (omega arith, tt))

asked_written :
    encode_set_encodings asked ≡ ok (2 ∷ 0 ∷ 0 ∷ 2 ∷ 0 ∷ 0 ∷ 0 ∷ 7 ∷ 255 ∷ 255 ∷ 255 ∷ 33 ∷ [])
unfolding everything encode_set_encodings
asked_written = refl

read_request-encode_set_encodings_example :
    read_request (2 ∷ 0 ∷ 0 ∷ 2 ∷ 0 ∷ 0 ∷ 0 ∷ 7 ∷ 255 ∷ 255 ∷ 255 ∷ 33 ∷ []) ≡ codes asked
read_request-encode_set_encodings_example =
    read_request-encode_set_encodings asked
      (2 ∷ 0 ∷ 0 ∷ 2 ∷ 0 ∷ 0 ∷ 0 ∷ 7 ∷ 255 ∷ 255 ∷ 255 ∷ 33 ∷ []) asked-AllI32 asked_written
