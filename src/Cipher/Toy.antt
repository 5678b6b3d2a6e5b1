-- ===== src/Cipher/Toy.antt =====
-- A stand-in for `sodiumoxide`, at which the theorems are tried: a tag of zeros, and no secrecy.
use rust_desk_enhanced.Prelude.{
  ℕ, ◌+◌, some, List, ◌++◌, replicate, drop, length, length-append, ◌≡◌, refl, arith,
}
use rust_desk_enhanced.Cipher.{Sodium}

pub tag_length : (plain : List ℕ) → length (replicate 16 0 ++ plain) ≡ length plain + 16
tag_length plain = omega (arith, length-append (replicate 16 0) plain)

abbrev pub toy_sodium : Sodium
toy_sodium = record {
  secret_seal = λ plain nonce key. replicate 16 0 ++ plain;
  secret_open = λ bytes nonce key. some (drop 16 bytes);
  box_public = λ secret. replicate 32 0;
  box_seal = λ plain nonce theirs ours. plain;
  box_open = λ bytes nonce theirs ours. some bytes;
  sign_public = λ secret. secret;
  sign = λ plain secret. plain;
  verify = λ signed public. some signed;
  secret_open-seal = λ plain nonce key. refl;
  length-secret_seal = λ plain nonce key. tag_length plain;
  box_open-seal = λ plain nonce ours theirs. refl;
  length-box_public = λ secret. refl;
  verify-sign = λ plain secret. refl;
}
