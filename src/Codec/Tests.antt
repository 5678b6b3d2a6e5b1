-- ===== src/Codec/Tests.antt =====
-- Runs of the codec, and its theorems at concrete inputs.
use rust_desk_enhanced.Prelude.{
  ℕ, ◌+◌, ◌≤◌, ◌<◌, ◌≡◌, ◌↔◌, refl, false, ok, err, none, List, [], ◌∷◌, ◌++◌, length, replicate,
  arith,
}
use rust_desk_enhanced.Codec.{
  BytesCodec, new, head, body, invalid_data, invalid_input, decode, encode,
  max_preallocated_payload_len,
}
use rust_desk_enhanced.Codec.RoundTrip.{
  buffer, decode-encode_oversized, encode_refuses, decode_reserves,
}
use rust_desk_enhanced.Codec.Stream.{read, read_chunks, read_chunks-read}
use rust_desk_enhanced.Codec.Stream.Frames.{encode_all, read_chunks-encode_all}
use mathlib.Core.List.{flatten}

-- A frame of 0x40 bytes takes the first two-byte header.
encode_two_byte_header :
    encode new (replicate 64 2) (buffer [] 0) ≡ ok (buffer (1 ∷ 1 ∷ replicate 64 2) 0)
unfolding encode new
encode_two_byte_header = refl

-- The announcement of `decode_large_frame_header_caps_preallocation`.
decode_huge_header : decode new (buffer (255 ∷ 255 ∷ 255 ∷ 255 ∷ []) 0) ≡ record {
  result = ok none;
  codec = record new { state = body 0x3FFFFFFF };
  src = buffer [] max_preallocated_payload_len;
}
unfolding decode new
decode_huge_header = refl

abbrev hello : List ℕ
hello = 104 ∷ 105 ∷ []

abbrev short_frames : BytesCodec
short_frames = record { state = head; raw = false; max_packet_length = 1 }

abbrev two_frames : List (List ℕ)
two_frames = hello ∷ [] ∷ []

-- The second frame is empty, and the first is cut inside its payload.
abbrev two_chunks : List (List ℕ)
two_chunks = (8 ∷ 104 ∷ []) ∷ (105 ∷ 0 ∷ []) ∷ []

decode-encode_oversized_example :
    (wire : List ℕ) × (encode new hello (buffer [] 0) ≡ ok (buffer wire 0))
    × (decode short_frames (buffer (wire ++ []) 0)
        ≡ record { result = err invalid_data; codec = short_frames; src = buffer (wire ++ []) 0 })
unfolding new
decode-encode_oversized_example =
    decode-encode_oversized new short_frames hello [] 0 refl refl refl (omega arith) (omega arith)

encode_refuses_example :
    (encode new hello (buffer [] 0) ≡ err invalid_input)
    ↔ ((new.raw ≡ false) × (0x3FFFFFFF < length hello))
encode_refuses_example = encode_refuses new hello (buffer [] 0)

decode_reserves_example :
    (decode new (buffer (255 ∷ 255 ∷ 255 ∷ 255 ∷ []) 0)).src.reserved
    ≤ 0 + max_preallocated_payload_len
decode_reserves_example = decode_reserves new (buffer (255 ∷ 255 ∷ 255 ∷ 255 ∷ []) 0)

read_chunks-read_example : read_chunks (read new []) two_chunks ≡ read new (flatten two_chunks)
unfolding new flatten
read_chunks-read_example = read_chunks-read new [] two_chunks refl

read_chunks-encode_all_example :
    (wire : List ℕ) × (encode_all new two_frames (buffer [] 0) ≡ ok (buffer wire 0))
    × ((chunks : List (List ℕ))
        → flatten chunks ≡ wire
        → read_chunks (read new []) chunks
          ≡ record { frames = two_frames; codec = new; pending = []; error = none })
unfolding new
read_chunks-encode_all_example =
    read_chunks-encode_all new new two_frames refl refl refl (omega arith)
