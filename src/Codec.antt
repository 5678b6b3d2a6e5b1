-- ===== src/Codec.antt =====
-- libs/hbb_common/src/bytes_codec.rs: the length-prefixed framing under every RustDesk connection.
-- A byte is a number below 256. `usize` has 64 bits.
pub mod Header
pub mod RoundTrip
pub mod Stream
mod Tests
use rust_desk_enhanced.Prelude.{
  ℕ, ◌+◌, ◌-◌, ◌*◌, ◌/◌, ◌%◌, ◌^◌, min, bit_and, bit_or, Bool, true, false, Option, none, some,
  List, [], ◌∷◌, ◌++◌, Result, ok, err, length, take, drop, get_or, is_empty, ltb, leb,
  if◌then◌else◌,
}

-- `DecodeState`; `body n` is the source's `Data(n)`.
pub data DecodeState : Type 0 where
  head : DecodeState
  body : ℕ → DecodeState

pub record BytesCodec : Type 0 where
  pub state : DecodeState
  pub raw : Bool
  pub max_packet_length : ℕ

-- The kinds of `io::Error` that the codec makes.
pub data Error : Type 0 where
  invalid_data invalid_input : Error

-- A `BytesMut`: its content, and how many bytes of room the codec asked the allocator for.
pub record Buffer : Type 0 where
  pub bytes : List ℕ
  pub reserved : ℕ

abbrev pub usize_max : ℕ
usize_max = 2 ^ 64 - 1

abbrev pub max_preallocated_payload_len : ℕ
max_preallocated_payload_len = 256 * 1024

unfoldable pub new : BytesCodec
new = record { state = head; raw = false; max_packet_length = usize_max }

unfoldable pub set_raw : BytesCodec → BytesCodec
set_raw c = record c { raw = true }

unfoldable pub set_max_packet_length : BytesCodec → ℕ → BytesCodec
set_max_packet_length c n = record c { max_packet_length = n }

abbrev pub advance : ℕ → Buffer → Buffer
advance n src = record src { bytes = drop n src.bytes }

abbrev pub reserve : ℕ → Buffer → Buffer
reserve n src = record src { reserved = src.reserved + n }

abbrev pub shl : ℕ → ℕ → ℕ
shl x k = x * 2 ^ k

-- The two low bits of the first byte count the further header bytes.
pub head_length : List ℕ → ℕ
head_length bytes = bit_and (get_or bytes 0 0) 0x3 + 1

-- The little-endian header with the two low bits shifted out.
pub head_value : ℕ → List ℕ → ℕ
head_value head_len bytes =
    let n0 = get_or bytes 0 0 in
    let n1 = if ltb 1 head_len then bit_or n0 (shl (get_or bytes 1 0) 8) else n0 in
    let n2 = if ltb 2 head_len then bit_or n1 (shl (get_or bytes 2 0) 16) else n1 in
    let n3 = if ltb 3 head_len then bit_or n2 (shl (get_or bytes 3 0) 24) else n2 in n3 / 2 ^ 2

unfoldable pub decode_head : BytesCodec → Buffer → Result Error (Option ℕ) × Buffer
unfolding head_length head_value
decode_head c src =
    let head_len = head_length src.bytes in
    let n = head_value head_len src.bytes in
    let rest = advance head_len src in
    if is_empty src.bytes
    then (ok none, src)
    else if ltb (length src.bytes) head_len
    then (ok none, src)
    else if ltb c.max_packet_length n
    then (err invalid_data, src)
    else (ok (some n), reserve (min (n - length rest.bytes) max_preallocated_payload_len) rest)

unfoldable pub decode_data : ℕ → Buffer → Option (List ℕ) × Buffer
decode_data n src =
    if ltb (length src.bytes) n then (none, src) else (some (take n src.bytes), advance n src)

-- What one call of `decode` returns, with the codec and the buffer that it leaves.
pub record Outcome : Type 0 where
  pub result : Result Error (Option (List ℕ))
  pub codec : BytesCodec
  pub src : Buffer

-- The `match` on what `decode_data` returned.
after_data : BytesCodec → Option (List ℕ) × Buffer → Outcome
after_data c (some payload, src) = record {
  result = ok (some payload);
  codec = record c { state = head };
  src = src;
}
after_data c (none, src) = record { result = ok none; codec = c; src = src }

-- The `match` on what `decode_head` returned: the state moves on before the payload is tried.
after_head : BytesCodec → Result Error (Option ℕ) × Buffer → Outcome
unfolding after_data decode_data
after_head c (ok (some n), src) = after_data (record c { state = body n }) (decode_data n src)
after_head c (ok none, src) = record { result = ok none; codec = c; src = src }
after_head c (err e, src) = record { result = err e; codec = c; src = src }

decode_from : DecodeState → BytesCodec → Buffer → Outcome
unfolding after_data after_head decode_data decode_head
decode_from (body n) c src = after_data c (decode_data n src)
decode_from head c src = after_head c (decode_head c src)

decode_raw : BytesCodec → Buffer → Outcome
decode_raw c src =
    if is_empty src.bytes then record { result = ok none; codec = c; src = src } else record {
      result = ok (some (take (length src.bytes) src.bytes));
      codec = c;
      src = advance (length src.bytes) src;
    }

unfoldable pub decode : BytesCodec → Buffer → Outcome
unfolding decode_raw decode_from
decode c src = if c.raw then decode_raw c src else decode_from c.state c src

-- `put_u8`, `put_u16_le` and `put_u32_le` of the `bytes` crate: little-endian digits.
abbrev pub put_u8 : ℕ → List ℕ
put_u8 n = n ∷ []

abbrev pub put_u16_le : ℕ → List ℕ
put_u16_le n = n % 256 ∷ n / 256 ∷ []

abbrev pub put_u32_le : ℕ → List ℕ
put_u32_le n = n % 256 ∷ n / 256 % 256 ∷ n / 65536 % 256 ∷ n / 16777216 ∷ []

-- `data.len() << 2` in a `usize`.
abbrev pub len_shl_two : ℕ → ℕ
len_shl_two n = shl n 2 % 2 ^ 64

-- The header that `encode` writes before a payload of `n` bytes; `none` when it does not fit.
pub encode_head : ℕ → Option (List ℕ)
encode_head n =
    let h = bit_or (len_shl_two n % 2 ^ 32) 0x2 in
    if leb n 0x3F
    then some (put_u8 (len_shl_two n % 2 ^ 8))
    else if leb n 0x3FFF
    then some (put_u16_le (bit_or (len_shl_two n % 2 ^ 16) 0x1))
    else if leb n 0x3FFFFF
    then some (put_u16_le (bit_and h 0xFFFF % 2 ^ 16) ++ put_u8 (h / 2 ^ 16 % 2 ^ 8))
    else if leb n 0x3FFFFFFF
    then some (put_u32_le (bit_or (len_shl_two n % 2 ^ 32) 0x3))
    else none

unfoldable pub encode : BytesCodec → List ℕ → Buffer → Result Error Buffer
unfolding encode_head
encode c payload buf =
    if c.raw
    then ok (record (reserve (length payload) buf) { bytes = buf.bytes ++ payload })
    else elim (encode_head (length payload)) [
      | some header ↦ ok (record buf { bytes = (buf.bytes ++ header) ++ payload })
      | none ↦ err invalid_input
    ]
