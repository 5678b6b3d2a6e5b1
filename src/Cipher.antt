-- ===== src/Cipher.antt =====
-- libs/hbb_common/src/tcp.rs: `Encrypt`, the record cipher of a connection.
-- `sodiumoxide` is a parameter with its documented laws; keys, nonces and records are lists of bytes.
pub mod Records
pub mod Toy
mod Tests
use rust_desk_enhanced.Prelude.{
  ℕ, zero, suc, ◌+◌, ◌/◌, ◌%◌, ◌^◌, ◌≤◌, Bool, not, Option, none, some, List, [], ◌∷◌, ◌++◌,
  replicate, length, leb, ◌==◌, if◌then◌else◌, Result, ok, err, ◌≡◌,
}

-- What the program takes of `secretbox`, `box_` and `sign`.
pub record Sodium : Type 0 where
  pub secret_seal : (plain nonce key : List ℕ) → List ℕ
  pub secret_open : (plain nonce key : List ℕ) → Option (List ℕ)
  pub box_public : (secret : List ℕ) → List ℕ
  pub box_seal : (plain nonce their_public our_secret : List ℕ) → List ℕ
  pub box_open : (plain nonce their_public our_secret : List ℕ) → Option (List ℕ)
  pub sign_public : (secret : List ℕ) → List ℕ
  pub sign : (plain secret : List ℕ) → List ℕ
  pub verify : (signed public : List ℕ) → Option (List ℕ)
  -- A sealed record opens under its nonce and key, and carries a tag of 16 bytes.
  pub secret_open-seal :
      (plain nonce key : List ℕ) → secret_open (secret_seal plain nonce key) nonce key ≡ some plain
  pub length-secret_seal :
      (plain nonce key : List ℕ) → length (secret_seal plain nonce key) ≡ length plain + 16
  -- What one party seals for the other's public key, the other opens with the first one's public key.
  pub box_open-seal :
      (plain nonce ours theirs : List ℕ)
      → box_open (box_seal plain nonce (box_public theirs) ours) nonce (box_public ours) theirs
        ≡ some plain
  pub length-box_public : (secret : List ℕ) → length (box_public secret) ≡ 32
  -- What was signed verifies under the signer's public key.
  pub verify-sign :
      (plain secret : List ℕ) → verify (sign plain secret) (sign_public secret) ≡ some plain

-- `Encrypt(key, sent, received)`
pub record Encrypt : Type 0 where
  pub key : List ℕ
  pub sent : ℕ
  pub received : ℕ

unfoldable pub new : List ℕ → Encrypt
new key = record { key = key; sent = 0; received = 0 }

-- `to_le_bytes` of the `n` low bytes.
abbrev pub le_bytes : ℕ → ℕ → List ℕ
le_bytes zero x = []
le_bytes (suc n) x = x % 256 ∷ le_bytes n (x / 256)

-- `FramedStream::get_nonce`: the counter in the first 8 of 24 bytes.
unfoldable pub get_nonce : ℕ → List ℕ
get_nonce seqnum = le_bytes 8 seqnum ++ replicate 16 0

-- `decryption error`
pub data DecryptionError : Type 0 where
  decryption_error : DecryptionError

-- A `u64` counter; a release build wraps.
unfoldable pub bump : ℕ → ℕ
bump n = suc n % 2 ^ 64

opened : Option (List ℕ) → Result DecryptionError (List ℕ)
opened (some res) = ok res
opened none = err decryption_error

unfoldable pub dec : Sodium → Encrypt → List ℕ → Result DecryptionError (List ℕ) × Encrypt
unfolding opened
dec sodium e bytes = if leb (length bytes) 1 then (ok bytes, e) else (
  opened (sodium.secret_open bytes (get_nonce (bump e.received)) e.key),
  record e { received = bump e.received },
)

unfoldable pub enc : Sodium → Encrypt → List ℕ → List ℕ × Encrypt
enc sodium e plain =
    (sodium.secret_seal plain (get_nonce (bump e.sent)) e.key, record e { sent = bump e.sent })

-- The errors of `Encrypt::decode`.
pub data KeyError : Type 0 where
  public_key_length box_failure secret_key_length : KeyError

unfoldable pub key_of : Option (List ℕ) → Result KeyError (List ℕ)
key_of none = err box_failure
key_of (some key) = if not (length key == 32) then err secret_key_length else ok key

-- `Encrypt::decode`: the record key that the peer sealed for us under a nonce of zeros.
unfoldable pub decode_key :
    Sodium → (symmetric_data their_public our_secret : List ℕ) → Result KeyError (List ℕ)
decode_key sodium symmetric_data their_public our_secret =
    if not (length their_public == 32)
    then err public_key_length
    else key_of (sodium.box_open symmetric_data (replicate 24 0) their_public our_secret)
