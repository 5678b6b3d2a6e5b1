-- ===== src/Cipher/Tests.antt =====
-- Sealed records, and the theorems at concrete inputs.
use rust_desk_enhanced.Prelude.{ℕ, [], ◌∷◌, ◌++◌, replicate, ok, ◌≡◌, ◌≢◌, refl, arith}
use rust_desk_enhanced.Cipher.Toy.{toy_sodium}
use rust_desk_enhanced.Cipher.{get_nonce}
use rust_desk_enhanced.Cipher.Records.{enc_all, dec_all, dec_all-enc_all}

-- The counter stands in the first bytes.
nonce_bytes : get_nonce 258 ≡ (2 ∷ 1 ∷ 0 ∷ 0 ∷ 0 ∷ 0 ∷ 0 ∷ 0 ∷ []) ++ replicate 16 0
unfolding get_nonce
nonce_bytes = refl

dec_all-enc_all_example :
    dec_all toy_sodium
      (record { key = 7 ∷ []; sent = 3; received = 0 })
      (enc_all toy_sodium
        (record { key = 7 ∷ []; sent = 0; received = 9 })
        ((1 ∷ 2 ∷ []) ∷ [] ∷ []))
    ≡ ok ((1 ∷ 2 ∷ []) ∷ [] ∷ [])
dec_all-enc_all_example = dec_all-enc_all toy_sodium (7 ∷ []) 0 3 9 ((1 ∷ 2 ∷ []) ∷ [] ∷ [])

one_or_two : ◌≢◌ {A = ℕ} 1 2
one_or_two e = omega (arith, e)
