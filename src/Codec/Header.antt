-- ===== src/Codec/Header.antt =====
-- The header of a frame: what `encode` writes is what `decode_head` reads.
use rust_desk_enhanced.Prelude.{
  ℕ, ◌+◌, ◌*◌, ◌/◌, ◌%◌, ◌^◌, ◌≤◌, ◌<◌, bit_and, bit_or, ◌≡◌, refl, List, [], ◌∷◌, ◌++◌, none, some,
  length, arith, le→leb, lt→leb_false,
}
use rust_desk_enhanced.Prelude.Bits.{or_high, or_low, and_mask}
use rust_desk_enhanced.Codec.{head_length, head_value, encode_head}
use native.Mathlib.Decide.{dec_le}
use native.Mathlib.Nat.{mod-eq_of_lt}

or_tag : (n tag : ℕ) → tag < 4 → bit_or (n * 4) tag ≡ 4 * n + tag
or_tag n tag t = omega (arith, or_low 2 tag n t)

-- The two low bits of the first byte.
head_length_lem : (b : ℕ) (bytes : List ℕ) → head_length (b ∷ bytes) ≡ b % 4 + 1
unfolding head_length
head_length_lem b bytes = omega (arith, and_mask 2 b)

-- Each byte enters the value in its place, as many as the header has.
head_value_one : (b0 : ℕ) (rest : List ℕ) → head_value 1 (b0 ∷ rest) ≡ b0 / 4
unfolding head_value
head_value_one b0 rest = refl

head_value_two :
    (b0 b1 : ℕ) (rest : List ℕ) → b0 < 256 → head_value 2 (b0 ∷ b1 ∷ rest) ≡ (b0 + b1 * 256) / 4
unfolding head_value
head_value_two b0 b1 rest h0 = rw (or_high 8 b0 b1 h0)

head_value_three :
    (b0 b1 b2 : ℕ) (rest : List ℕ)
    → b0 < 256
    → b1 < 256
    → head_value 3 (b0 ∷ b1 ∷ b2 ∷ rest) ≡ (b0 + b1 * 256 + b2 * 65536) / 4
unfolding head_value
head_value_three b0 b1 b2 rest h0 h1 =
    rw (or_high 8 b0 b1 h0) (rw (or_high 16 (b0 + b1 * 256) b2 (omega arith)))

head_value_four :
    (b0 b1 b2 b3 : ℕ) (rest : List ℕ)
    → b0 < 256
    → b1 < 256
    → b2 < 256
    → head_value 4 (b0 ∷ b1 ∷ b2 ∷ b3 ∷ rest) ≡ (b0 + b1 * 256 + b2 * 65536 + b3 * 16777216) / 4
unfolding head_value
head_value_four b0 b1 b2 b3 rest h0 h1 h2 = rw (or_high 8 b0 b1 h0) (
    rw (or_high 16 (b0 + b1 * 256) b2 (omega arith))
      (rw (or_high 24 (b0 + b1 * 256 + b2 * 65536) b3 (omega arith))))

-- `h` announces a payload of `n` bytes, whatever follows it.
pub record Announces (n : ℕ) (h : List ℕ) : Type 0 where
  pub nonempty : 0 < length h
  pub span : (rest : List ℕ) → head_length (h ++ rest) ≡ length h
  pub value : (rest : List ℕ) → head_value (length h) (h ++ rest) ≡ n

one_byte : (n : ℕ) → n ≤ 0x3F → Announces n (n * 4 % 2 ^ 64 % 256 ∷ [])
one_byte n h = record {
  nonempty = omega arith;
  span = λ rest. omega (arith, head_length_lem (n * 4 % 2 ^ 64 % 256) rest);
  value = λ rest. omega (arith, head_value_one (n * 4 % 2 ^ 64 % 256) rest);
}

two_bytes : (n w : ℕ) → n ≤ 0x3FFF → w ≡ 4 * n + 1 → Announces n (w % 256 ∷ w / 256 ∷ [])
two_bytes n w h e = record {
  nonempty = omega arith;
  span = λ rest. omega (arith, head_length_lem (w % 256) (w / 256 ∷ rest));
  value = λ rest. omega (arith, head_value_two (w % 256) (w / 256) rest (omega arith));
}

three_bytes :
    (n w : ℕ)
    → n ≤ 0x3FFFFF
    → w ≡ 4 * n + 2
    → Announces n (w % 65536 % 256 ∷ w % 65536 / 256 ∷ w / 65536 % 256 ∷ [])
three_bytes n w h e = record {
  nonempty = omega arith;
  span = λ rest.
      omega (arith, head_length_lem (w % 65536 % 256) (w % 65536 / 256 ∷ w / 65536 % 256 ∷ rest));
  value = λ rest. omega (
    arith,
    head_value_three (w % 65536 % 256) (w % 65536 / 256) (w / 65536 % 256) rest (omega arith)
        (omega arith),
  );
}

four_bytes :
    (n w : ℕ)
    → n ≤ 0x3FFFFFFF
    → w ≡ 4 * n + 3
    → Announces n (w % 256 ∷ w / 256 % 256 ∷ w / 65536 % 256 ∷ w / 16777216 ∷ [])
four_bytes n w h e = record {
  nonempty = omega arith;
  span = λ rest.
      omega
        (arith, head_length_lem (w % 256) (w / 256 % 256 ∷ w / 65536 % 256 ∷ w / 16777216 ∷ rest));
  value = λ rest. omega (
    arith,
    head_value_four (w % 256) (w / 256 % 256) (w / 65536 % 256) (w / 16777216) rest (omega arith)
        (omega arith) (omega arith),
  );
}

-- What each range of lengths writes.
module _ (n : ℕ) (fits : n ≤ 0x3FFFFFFF) where
  tagged : (w tag : ℕ) → n * 4 < w → tag < 4 → bit_or (n * 4 % 2 ^ 64 % w) tag ≡ 4 * n + tag
  tagged w tag big t =
      let e : n * 4 % 2 ^ 64 ≡ n * 4 = omega arith in rw e (rw (mod-eq_of_lt big) (or_tag n tag t))

  low_half : (w : ℕ) → bit_and w 0xFFFF % 2 ^ 16 ≡ w % 65536
  low_half w = rw (and_mask 16 w) (omega arith)

  wrote_one : n ≤ 0x3F → encode_head n ≡ some (n * 4 % 2 ^ 64 % 256 ∷ [])
  unfolding encode_head
  wrote_one p = rw (le→leb n 0x3F p)

  wrote_two :
      0x3F < n → n ≤ 0x3FFF → encode_head n ≡ some ((4 * n + 1) % 256 ∷ (4 * n + 1) / 256 ∷ [])
  unfolding encode_head
  wrote_two p q =
      rw (lt→leb_false n 0x3F p)
        (rw (le→leb n 0x3FFF q) (rw (tagged (2 ^ 16) 1 (omega arith) (omega arith))))

  wrote_three :
      0x3FFF < n
      → n ≤ 0x3FFFFF
      → encode_head n
        ≡ some
            ((4 * n + 2) % 65536 % 256 ∷ (4 * n + 2) % 65536 / 256 ∷ (4 * n + 2) / 65536 % 256 ∷ [])
  unfolding encode_head
  wrote_three p q = rw (lt→leb_false n 0x3F (omega arith)) (
      rw (lt→leb_false n 0x3FFF p) (
        rw (le→leb n 0x3FFFFF q)
          (rw (tagged (2 ^ 32) 2 (omega arith) (omega arith)) (rw (low_half (4 * n + 2))))))

  wrote_four :
      0x3FFFFF < n
      → encode_head n
        ≡ some (
            (4 * n + 3) % 256
            ∷ (4 * n + 3) / 256 % 256
            ∷ (4 * n + 3) / 65536 % 256
            ∷ (4 * n + 3) / 16777216
            ∷ [])
  unfolding encode_head
  wrote_four p = rw (lt→leb_false n 0x3F (omega arith)) (
      rw (lt→leb_false n 0x3FFF (omega arith)) (
        rw (lt→leb_false n 0x3FFFFF p)
          (rw (le→leb n 0x3FFFFFFF fits) (rw (tagged (2 ^ 32) 3 (omega arith) (omega arith))))))

-- Up to 0x3FFFFFFF bytes `encode` finds a header that announces the length.
pub encode_head-Announces :
    (n : ℕ) → n ≤ 0x3FFFFFFF → (h : List ℕ) × (encode_head n ≡ some h) × Announces n h
encode_head-Announces n h = elim (dec_le n 0x3F) [
  | yes p ↦ (_, wrote_one n h p, one_byte n p)
  | no p ↦ elim (dec_le n 0x3FFF) [
    | yes q ↦ (_, wrote_two n h (omega arith) q, two_bytes n (4 * n + 1) q refl)
    | no q ↦ elim (dec_le n 0x3FFFFF) [
      | yes r ↦ (_, wrote_three n h (omega arith) r, three_bytes n (4 * n + 2) r refl)
      | no r ↦ (_, wrote_four n h (omega arith), four_bytes n (4 * n + 3) h refl)
    ]
  ]
]

pub encode_head_overflow : (n : ℕ) → 0x3FFFFFFF < n → encode_head n ≡ none
unfolding encode_head
encode_head_overflow n h = rw (lt→leb_false n 0x3F (omega arith)) (
    rw (lt→leb_false n 0x3FFF (omega arith))
      (rw (lt→leb_false n 0x3FFFFF (omega arith)) (rw (lt→leb_false n 0x3FFFFFFF h))))
