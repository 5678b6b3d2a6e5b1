-- ===== src/Codec/RoundTrip.antt =====
-- One frame: `decode` returns what `encode` framed, and asks for little memory on the way.
use rust_desk_enhanced.Prelude.{
  ℕ, ◌+◌, ◌-◌, ◌≤◌, ◌<◌, min, ◌≡◌, ◌↔◌, Bool-cases, refl, ap, List, [], ◌∷◌, ◌++◌, false, ok, err,
  some, length, arith, inl, inr, length-append, take-append, drop-append, append_assoc,
}
use rust_desk_enhanced.Codec.{
  BytesCodec, Buffer, Outcome, head, invalid_data, invalid_input, decode_head, decode_data, decode,
  encode, max_preallocated_payload_len, decode_from,
}
use native.Mathlib.Decide.{dec_le}
use rust_desk_enhanced.Codec.Header.{Announces, encode_head-Announces, encode_head_overflow}

abbrev pub buffer : List ℕ → ℕ → Buffer
buffer bytes reserved = record { bytes = bytes; reserved = reserved }

module _ (c : BytesCodec) (n : ℕ) where
  -- A whole header that the limit allows is taken off the buffer.
  pub decode_head-Announces :
      (h t : List ℕ) (k : ℕ)
      → Announces n h
      → n ≤ c.max_packet_length
      → decode_head c (buffer (h ++ t) k)
        ≡ (ok (some n), buffer t (k + min (n - length t) max_preallocated_payload_len))
  unfolding decode_head
  decode_head-Announces [] t k a fits = absurd (omega (arith, a.nonempty))
  decode_head-Announces (x ∷ h) t k a fits =
      rw (a.span t) (rw (a.value t) (ground (arith, length-append h t, drop-append h t)))

  decode_data_exact :
      (payload rest : List ℕ) (k : ℕ)
      → length payload ≡ n
      → decode_data n (buffer (payload ++ rest) k) ≡ (some payload, buffer rest k)
  unfolding decode_data
  decode_data_exact payload rest k len = rw (← len) (
      ground
        (arith, length-append payload rest, take-append payload rest, drop-append payload rest))

  -- From the head state one call reads the header and the payload behind it.
  pub decode-Announces :
      (h payload rest : List ℕ) (k : ℕ)
      → c.raw ≡ false
      → c.state ≡ head
      → Announces n h
      → length payload ≡ n
      → n ≤ c.max_packet_length
      → decode c (buffer (h ++ (payload ++ rest)) k) ≡ record {
        result = ok (some payload);
        codec = record c { state = head };
        src = buffer rest (k + min (n - length (payload ++ rest)) max_preallocated_payload_len);
      }
  unfolding decode
  decode-Announces h payload rest k cooked start a len fits =
      rw (cooked, decode)
        (rw (start, decode_from)
          (rw (decode_head-Announces h (payload ++ rest) k a fits)
            (rw (decode_data_exact payload rest _ len))))

  -- A header that announces more than the limit is refused, and nothing is taken off the buffer.
  pub decode_oversized :
      (h t : List ℕ) (k : ℕ)
      → c.raw ≡ false
      → c.state ≡ head
      → Announces n h
      → c.max_packet_length < n
      → decode c (buffer (h ++ t) k)
        ≡ record { result = err invalid_data; codec = c; src = buffer (h ++ t) k }
  unfolding decode
  decode_oversized [] t k cooked start a big = absurd (omega (arith, a.nonempty))
  decode_oversized (x ∷ h) t k cooked start a big =
      rw (cooked, decode)
        (rw (start, decode_from)
          (rw (a.span t) (rw (a.value t) (ground (arith, length-append h t)))))

-- A payload of at most 0x3FFFFFFF bytes, within the reader's limit, is framed without an error, and
-- a reader at a frame boundary decodes it back, whatever follows, and stands at the next boundary.
pub decode-encode :
    (e d : BytesCodec) (payload rest : List ℕ) (k : ℕ)
    → e.raw ≡ false
    → d.raw ≡ false
    → d.state ≡ head
    → length payload ≤ 0x3FFFFFFF
    → length payload ≤ d.max_packet_length
    → (wire : List ℕ) × (encode e payload (buffer [] 0) ≡ ok (buffer wire 0))
      × ((decode d (buffer (wire ++ rest) k)).result ≡ ok (some payload))
      × ((decode d (buffer (wire ++ rest) k)).codec ≡ record d { state = head })
      × ((decode d (buffer (wire ++ rest) k)).src.bytes ≡ rest)
unfolding encode
decode-encode e d payload rest k plain cooked start len fits =
    let (h, wrote, a) = encode_head-Announces (length payload) len in
    let whole = decode-Announces d (length payload) h payload rest k cooked start a refl fits in
    (
      h ++ payload,
      rw (plain, encode) (rw wrote),
      rw (append_assoc h payload rest) (ap (λ (o : Outcome). o.result) whole),
      rw (append_assoc h payload rest) (ap (λ (o : Outcome). o.codec) whole),
      rw (append_assoc h payload rest) (ap (λ (o : Outcome). o.src.bytes) whole),
    )

-- A framing codec refuses exactly the payloads above 0x3FFFFFFF bytes, and a raw one none.
pub encode_refuses :
    (c : BytesCodec) (payload : List ℕ) (buf : Buffer)
    → (encode c payload buf ≡ err invalid_input) ↔ ((c.raw ≡ false) × (0x3FFFFFFF < length payload))
unfolding encode
encode_refuses c payload buf = elim (Bool-cases c.raw) [
  | inl raw ↦ (λ e. cc (rw (raw, encode) at e), λ p. ground arith)
  | inr framing ↦ elim (dec_le (length payload) 0x3FFFFFFF) [
    | yes fits ↦
        let (h, wrote, _) = encode_head-Announces (length payload) fits in
        (λ e. ground (arith, wrote), λ p. absurd (omega arith))
    | no big ↦
        let e = encode_head_overflow (length payload) (omega arith) in
        (λ _. (framing, omega arith), λ _. rw (framing, encode) (rw e))
  ]
]

-- Whatever a peer announces, one call of `decode` asks the allocator for 256 KiB at most.
pub decode_reserves :
    (c : BytesCodec) (src : Buffer)
    → (decode c src).src.reserved ≤ src.reserved + max_preallocated_payload_len
unfolding decode
decode_reserves c src = ground arith

-- A payload that `encode` frames but that is longer than the reader's limit is refused on its header:
-- `decode` fails, and the codec and the buffer's content are as before.
pub decode-encode_oversized :
    (e d : BytesCodec) (payload rest : List ℕ) (k : ℕ)
    → e.raw ≡ false
    → d.raw ≡ false
    → d.state ≡ head
    → length payload ≤ 0x3FFFFFFF
    → d.max_packet_length < length payload
    → (wire : List ℕ) × (encode e payload (buffer [] 0) ≡ ok (buffer wire 0))
      × (decode d (buffer (wire ++ rest) k)
          ≡ record { result = err invalid_data; codec = d; src = buffer (wire ++ rest) k })
unfolding encode
decode-encode_oversized e d payload rest k plain cooked start len big =
    let (h, wrote, a) = encode_head-Announces (length payload) len in
    (
      h ++ payload,
      rw (plain, encode) (rw wrote),
      rw (append_assoc h payload rest)
          (decode_oversized d (length payload) h (payload ++ rest) k cooked start a big),
    )
