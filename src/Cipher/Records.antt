-- ===== src/Cipher/Records.antt =====
-- libs/hbb_common/src/tcp.rs: a stream of records sealed by one end and opened by the other.
use rust_desk_enhanced.Prelude.{
  ℕ, List, [], ◌∷◌, length, lt→leb_false, Result, ok, err, map_ok, ◌≡◌, refl, arith,
}
use rust_desk_enhanced.Cipher.{Sodium, Encrypt, get_nonce, DecryptionError, bump, opened, dec, enc}

-- The records that a sender writes for a list of payloads.
unfoldable pub enc_all : Sodium → Encrypt → List (List ℕ) → List (List ℕ)
enc_all sodium e [] = []
enc_all sodium e (plain ∷ rest) =
    let (bytes, e') = enc sodium e plain in bytes ∷ enc_all sodium e' rest

-- What a receiver makes of them, up to the first error.
dec_next :
    Result DecryptionError (List ℕ)
    → Result DecryptionError (List (List ℕ))
    → Result DecryptionError (List (List ℕ))
dec_next (ok plain) rest = map_ok (◌∷◌ plain) rest
dec_next (err e) rest = err e

unfoldable pub dec_all : Sodium → Encrypt → List (List ℕ) → Result DecryptionError (List (List ℕ))
unfolding dec_next
dec_all sodium e [] = ok []
dec_all sodium e (bytes ∷ rest) =
    let (result, e') = dec sodium e bytes in dec_next result (dec_all sodium e' rest)

pub dec_one :
    (sodium : Sodium) (key plain : List ℕ) (n m k : ℕ)
    → dec sodium
        (record { key = key; sent = m; received = n })
        (sodium.secret_seal plain (get_nonce (bump n)) key)
      ≡ (ok plain, record { key = key; sent = m; received = bump n })
unfolding dec opened
dec_one sodium key plain n m k =
    rw
      (
        lt→leb_false (length (sodium.secret_seal plain (get_nonce (bump n)) key)) 1
            (omega (arith, sodium.length-secret_seal plain (get_nonce (bump n)) key)),
        sodium.secret_open-seal plain (get_nonce (bump n)) key,
      )
      refl

-- Two ends that hold one key, the receiver having counted the records that the sender had sent, pass any payloads,
-- empty ones included: every record is opened, in order, to what was sealed.
pub dec_all-enc_all :
    (sodium : Sodium) (key : List ℕ) (n m k : ℕ) (payloads : List (List ℕ))
    → dec_all sodium
        (record { key = key; sent = m; received = n })
        (enc_all sodium (record { key = key; sent = n; received = k }) payloads)
      ≡ ok payloads
unfolding dec_all enc_all enc dec_next
dec_all-enc_all sodium key n m k [] = refl
dec_all-enc_all sodium key n m k (plain ∷ rest) =
    rw (dec_one sodium key plain n m k, dec_all-enc_all sodium key (bump n) m k rest) refl
