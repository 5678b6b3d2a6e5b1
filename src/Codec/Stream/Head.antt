-- ===== src/Codec/Stream/Head.antt =====
-- The header step on a buffer, and on the same buffer when more bytes have come.
use rust_desk_enhanced.Prelude.{
  ℕ, ◌+◌, ◌-◌, ◌≤◌, ◌<◌, min, ◌≡◌, refl, List, [], ◌∷◌, ◌++◌, ok, err, none, some, length, drop,
  arith, lt→ltb, length-append, length-drop, drop-append_le, get_or-append,
}
use rust_desk_enhanced.Codec.{
  BytesCodec, Buffer, invalid_data, max_preallocated_payload_len, decode_head, head_length,
  head_value,
}
use native.Mathlib.Decide.{dec_le}
use rust_desk_enhanced.Codec.RoundTrip.{buffer}

head_length-append :
    (x : ℕ) (bytes more : List ℕ) → head_length ((x ∷ bytes) ++ more) ≡ head_length (x ∷ bytes)
unfolding head_length
head_length-append x bytes more = refl

-- The value of a header that is all there does not see what follows it.
head_value-append :
    (k : ℕ) (bytes more : List ℕ)
    → k ≤ length bytes
    → 0 < length bytes
    → head_value k (bytes ++ more) ≡ head_value k bytes
unfolding head_value
head_value-append k bytes more h p = ground (
  arith,
  get_or-append 0 bytes more 0,
  get_or-append 1 bytes more 0,
  get_or-append 2 bytes more 0,
  get_or-append 3 bytes more 0,
)

abbrev pub extend : Buffer → List ℕ → Buffer
extend src more = record src { bytes = src.bytes ++ more }

-- `decode_head` where the header is all there, in terms of its length and value.
module _ (c : BytesCodec) (x : ℕ) (bytes : List ℕ) (k hl n : ℕ) where
  head_refuses :
      head_length (x ∷ bytes) ≡ hl
      → head_value hl (x ∷ bytes) ≡ n
      → hl ≤ length (x ∷ bytes)
      → c.max_packet_length < n
      → decode_head c (buffer (x ∷ bytes) k) ≡ (err invalid_data, buffer (x ∷ bytes) k)
  unfolding decode_head
  head_refuses span value whole big = rw span (rw value (ground arith))

  head_reads :
      head_length (x ∷ bytes) ≡ hl
      → head_value hl (x ∷ bytes) ≡ n
      → hl ≤ length (x ∷ bytes)
      → n ≤ c.max_packet_length
      → decode_head c (buffer (x ∷ bytes) k) ≡ (
        ok (some n),
        buffer
            (drop hl (x ∷ bytes))
            (k + min (n - length (drop hl (x ∷ bytes))) max_preallocated_payload_len),
      )
  unfolding decode_head
  head_reads span value whole fits = rw span (rw value (ground arith))

-- What `decode_head` does on a buffer, and on the same buffer when more bytes have come.
pub data HeadCase (c : BytesCodec) (bytes : List ℕ) (k : ℕ) (more : List ℕ) : Type 0 where
  waits : decode_head c (buffer bytes k) ≡ (ok none, buffer bytes k) → HeadCase c bytes k more
  refuses :
      decode_head c (buffer bytes k) ≡ (err invalid_data, buffer bytes k)
      → decode_head c (buffer (bytes ++ more) k) ≡ (err invalid_data, buffer (bytes ++ more) k)
      → HeadCase c bytes k more
  reads :
      (n : ℕ) (rest : List ℕ) (j j' : ℕ)
      → decode_head c (buffer bytes k) ≡ (ok (some n), buffer rest j)
      → decode_head c (buffer (bytes ++ more) k) ≡ (ok (some n), buffer (rest ++ more) j')
      → length rest < length bytes
      → HeadCase c bytes k more

head_waits :
    (c : BytesCodec) (x : ℕ) (bytes : List ℕ) (k : ℕ)
    → length (x ∷ bytes) < head_length (x ∷ bytes)
    → decode_head c (buffer (x ∷ bytes) k) ≡ (ok none, buffer (x ∷ bytes) k)
unfolding decode_head
head_waits c x bytes k short = rw (lt→ltb _ _ short)

head_length_pos : (bytes : List ℕ) → 0 < head_length bytes
unfolding head_length
head_length_pos bytes = omega arith

pub head_case : (c : BytesCodec) (bytes : List ℕ) (k : ℕ) (more : List ℕ) → HeadCase c bytes k more
head_case c [] k more = waits (unfold decode_head in refl)
head_case c (x ∷ bytes) k more = elim (dec_le hl (length (x ∷ bytes))) [
  | no short ↦ waits (head_waits c x bytes k (omega arith))
  | yes whole ↦ elim (dec_le n c.max_packet_length) [
    | no big ↦ refuses (head_refuses c x bytes k hl n refl refl whole (omega arith)) (
        head_refuses c x (bytes ++ more) k hl n (head_length-append x bytes more) (same whole)
          (longer whole) (omega arith))
    | yes fits ↦
        reads n (drop hl (x ∷ bytes)) _ _ (head_reads c x bytes k hl n refl refl whole fits)
          (rw (drop-append_le hl (x ∷ bytes) more whole) at (
            head_reads c x (bytes ++ more) k hl n (head_length-append x bytes more) (same whole)
              (longer whole) fits))
          (omega (arith, length-drop hl (x ∷ bytes), head_length_pos (x ∷ bytes)))
  ]
]
  where
    hl : ℕ
    hl = head_length (x ∷ bytes)

    n : ℕ
    n = head_value hl (x ∷ bytes)

    longer : hl ≤ length (x ∷ bytes) → hl ≤ length (x ∷ (bytes ++ more))
    longer h = omega (arith, length-append bytes more)

    same : hl ≤ length (x ∷ bytes) → head_value hl (x ∷ (bytes ++ more)) ≡ n
    same h = head_value-append hl (x ∷ bytes) more h (omega arith)
