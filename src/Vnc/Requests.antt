-- ===== src/Vnc/Requests.antt =====
-- crates/rd-engine/src/vnc/protocol.rs: the list of encodings that the client asks for, as a server reads it.
use rust_desk_enhanced.Prelude.{
  ℕ, suc, List, [], ◌∷◌, ◌++◌, length, drop, get_or, ok, ◌≡◌, refl, sym, arith, ℤ, to_u32,
}
use rust_desk_enhanced.Vnc.{Encoding, encoding_code}
use rust_desk_enhanced.Vnc.Bytes.{
  u16_be, from_u16_be, from_u32_be, to_i32, u16_round, u32_round, IsI32, to_i32-to_u32,
}
use rust_desk_enhanced.Vnc.Client.{c2s_set_encodings, encoding_bytes, encode_set_encodings}

-- A server's reading: the count in bytes 2 and 3, then so many big-endian numbers.
unfoldable pub read_codes : ℕ → List ℕ → List ℤ
read_codes (suc n) (a ∷ b ∷ c ∷ d ∷ rest) = to_i32 (from_u32_be a b c d) ∷ read_codes n rest
read_codes n bytes = []

unfoldable pub read_request : List ℕ → List ℤ
read_request message =
    read_codes (from_u16_be (get_or message 2 0) (get_or message 3 0)) (drop 4 message)

abbrev pub codes : List Encoding → List ℤ
codes [] = []
codes (e ∷ es) = encoding_code e ∷ codes es

abbrev pub AllI32 : List Encoding → Type 0
AllI32 [] = Unit {0}
AllI32 (e ∷ es) = IsI32 (encoding_code e) × AllI32 es

codes_read :
    (es : List Encoding) → AllI32 es → read_codes (length es) (encoding_bytes es) ≡ codes es
unfolding read_codes
codes_read [] h = refl
codes_read (e ∷ es) (h, hs) =
    rw (u32_round (to_u32 (encoding_code e)), to_i32-to_u32 (encoding_code e) h, codes_read es hs)
      refl

request_form :
    (es : List Encoding) (message : List ℕ)
    → encode_set_encodings es ≡ ok message
    → (c2s_set_encodings ∷ 0 ∷ (u16_be (length es) ++ encoding_bytes es)) ≡ message
unfolding encode_set_encodings
request_form es message h = ground (arith, h)

-- When the client's list of encodings is written, a server that takes the count and then so many 32-bit numbers reads
-- the numbers of exactly those encodings, in the client's order of preference.
pub read_request-encode_set_encodings :
    (es : List Encoding) (message : List ℕ)
    → AllI32 es
    → encode_set_encodings es ≡ ok message
    → read_request message ≡ codes es
unfolding read_request
read_request-encode_set_encodings es message h e =
    rw (sym (request_form es message e), u16_round (length es)) (codes_read es h)
