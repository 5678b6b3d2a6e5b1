-- ===== src/Vnc/Stream.antt =====
-- crates/rd-engine/src/vnc/protocol.rs: whole updates and the clipboard, from the server's bytes to the client.
use rust_desk_enhanced.Prelude.{
  ℕ, suc, ◌+◌, ◌^◌, ◌≤◌, ◌<◌, Bool, true, false, List, [], ◌∷◌, ◌++◌, append_assoc, length, drop,
  ok, err, map_ok, ◌≡◌, refl, sym, arith, le→ltb_false, lt→ltb, to_u32,
}
use rust_desk_enhanced.Vnc.{
  protocol, unsupported_encoding, Encoding, encoding, encoding_code, raw, copy_rect, desktop_size,
  cursor, x_cursor, extended_desktop_size, zlib, zlib_hex, tight, tight_jpeg,
}
use rust_desk_enhanced.Vnc.Bytes.{u32_be, read_exact-append, u32_round, to_i32}
use rust_desk_enhanced.Vnc.Pixel.{PixelFormat}
use rust_desk_enhanced.Vnc.Client.{c2s_client_cut_text, encode_client_cut_text}
use rust_desk_enhanced.Vnc.Update.{
  rectangle_body, push, decode_framebuffer_update, cut_text_body, decode_server_cut_text,
}
use rust_desk_enhanced.Vnc.RoundTrip.{
  Sent, content, heading, header, IsSent, drawn, under_header, rectangle_read, written, drawings,
  AllSent,
}

-- The rectangles that are read before what follows them.
update_step :
    (f : PixelFormat) (s : Sent) (count : ℕ) (rest : List ℕ)
    → IsSent f s
    → decode_framebuffer_update f (suc count) (heading s ++ (content s ++ rest))
      ≡ map_ok
          (λ (rectangles, left). (push (drawn s) rectangles, left))
          (decode_framebuffer_update f count rest)
unfolding decode_framebuffer_update
update_step f s count rest h = rw (rectangle_read f s rest h) refl

regroup : (a b c d : List ℕ) → (a ++ (b ++ c)) ++ d ≡ a ++ (b ++ (c ++ d))
regroup a b c d = rw (append_assoc a (b ++ c) d, append_assoc b c d) refl

-- An update of raw, copied, desktop size and cursor rectangles as RFC 6143 lays them out, a cursor having a width that
-- is a multiple of eight, is read back whole: the client draws what was sent, in order, and stands right behind the update.
pub decode_framebuffer_update-written :
    (f : PixelFormat) (ss : List Sent) (rest : List ℕ)
    → AllSent f ss
    → decode_framebuffer_update f (length ss) (written ss ++ rest) ≡ ok (drawings ss, rest)
unfolding decode_framebuffer_update
decode_framebuffer_update-written f [] rest h = refl
decode_framebuffer_update-written f (s ∷ ss) rest (h, hs) =
    rw
      (
        regroup (heading s) (content s) (written ss) rest,
        update_step f s (length ss) (written ss ++ rest) h,
        decode_framebuffer_update-written f ss rest hs,
      )
      refl

-- The encodings that the client does not draw.
unfoldable pub is_refused : Encoding → Bool
is_refused zlib = true
is_refused zlib_hex = true
is_refused tight = true
is_refused tight_jpeg = true
is_refused (Encoding.other code) = true
is_refused e = false

refused_body :
    (f : PixelFormat) (e : Encoding) (x y width height : ℕ) (rest : List ℕ)
    → is_refused e ≡ true
    → rectangle_body f e x y width height rest ≡ err (unsupported_encoding e)
unfolding is_refused rectangle_body
refused_body f zlib x y width height rest h = refl
refused_body f zlib_hex x y width height rest h = refl
refused_body f tight x y width height rest h = refl
refused_body f tight_jpeg x y width height rest h = refl
refused_body f (Encoding.other code) x y width height rest h = refl
refused_body f raw x y width height rest h = absurd (ground (arith, h))
refused_body f copy_rect x y width height rest h = absurd (ground (arith, h))
refused_body f desktop_size x y width height rest h = absurd (ground (arith, h))
refused_body f cursor x y width height rest h = absurd (ground (arith, h))
refused_body f x_cursor x y width height rest h = absurd (ground (arith, h))
refused_body f extended_desktop_size x y width height rest h = absurd (ground (arith, h))

refused_first :
    (f : PixelFormat) (x y width height count : ℕ) (e : Encoding) (rest : List ℕ)
    → is_refused e ≡ true
    → encoding (to_i32 (to_u32 (encoding_code e))) ≡ e
    → decode_framebuffer_update f (suc count) (header x y width height e ++ rest)
      ≡ err (unsupported_encoding e)
unfolding decode_framebuffer_update
refused_first f x y width height count e rest r k =
    rw (under_header f x y width height e rest k, refused_body f e x y width height rest r) refl

-- After any raw, copied, desktop size and cursor rectangles (a cursor having a width that is a multiple of eight), a
-- rectangle of an encoding that the client cannot delimit stops the update with that encoding in the error, whatever
-- follows.
pub decode_framebuffer_update-unsupported_encoding :
    (f : PixelFormat) (ss : List Sent) (x y width height count : ℕ) (e : Encoding) (rest : List ℕ)
    → AllSent f ss
    → is_refused e ≡ true
    → encoding (to_i32 (to_u32 (encoding_code e))) ≡ e
    → decode_framebuffer_update f
        (length ss + suc count)
        (written ss ++ (header x y width height e ++ rest))
      ≡ err (unsupported_encoding e)
unfolding decode_framebuffer_update
decode_framebuffer_update-unsupported_encoding f [] x y width height count e rest h r k =
    let p : 0 + suc count ≡ suc count = omega arith in
    rw p (refused_first f x y width height count e rest r k)
decode_framebuffer_update-unsupported_encoding f (s ∷ ss) x y width height count e rest (h, hs) r
      k =
    let p : suc (length ss) + suc count ≡ suc (length ss + suc count) = omega arith in
    rw
      (
        p,
        regroup (heading s) (content s) (written ss) (header x y width height e ++ rest),
        update_step f s (length ss + suc count) (written ss ++ (header x y width height e ++ rest))
            h,
        decode_framebuffer_update-unsupported_encoding f ss x y width height count e rest hs r k,
      )
      refl

cut_text_read :
    (text rest : List ℕ)
    → length text ≤ 2 ^ 20
    → decode_server_cut_text (u32_be (length text) ++ (text ++ rest)) ≡ ok (text, rest)
unfolding decode_server_cut_text cut_text_body
cut_text_read text rest h =
    rw
      (
        read_exact-append (u32_be (length text)) (text ++ rest) 4 refl,
        u32_round (length text),
        le→ltb_false (2 ^ 20) (length text) h,
        read_exact-append text rest (length text) refl,
      )
      refl

message_form :
    (text message : List ℕ)
    → length text ≤ 2 ^ 20
    → encode_client_cut_text text ≡ ok message
    → (c2s_client_cut_text ∷ 0 ∷ 0 ∷ 0 ∷ (u32_be (length text) ++ text)) ≡ message
unfolding encode_client_cut_text
message_form text message h e = ground (arith, h, e)

-- The two directions of the clipboard have one layout: what the client writes behind its message type and padding
-- is a text that a reader takes back whole, when it has at most 1 MiB.
pub decode_server_cut_text-encode_client_cut_text :
    (text rest message : List ℕ)
    → length text ≤ 2 ^ 20
    → encode_client_cut_text text ≡ ok message
    → decode_server_cut_text (drop 4 message ++ rest) ≡ ok (text, rest)
decode_server_cut_text-encode_client_cut_text text rest message h e =
    rw (sym (message_form text message h e), append_assoc (u32_be (length text)) text rest)
      (cut_text_read text rest h)

-- A text that is announced with more than 1 MiB is refused on its length alone, before any buffer is made for it.
pub decode_server_cut_text_refuses :
    (n : ℕ) (rest : List ℕ) → 2 ^ 20 < n → decode_server_cut_text (u32_be n ++ rest) ≡ err protocol
unfolding decode_server_cut_text cut_text_body
decode_server_cut_text_refuses n rest h =
    rw (read_exact-append (u32_be n) rest 4 refl, u32_round n, lt→ltb (2 ^ 20) n h) refl
