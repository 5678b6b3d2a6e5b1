-- ===== src/Auth/Credentials.antt =====
-- authentication.rs: the password response and its check. SHA-256, the constant-time comparison and
-- the bytes of a text come from outside.
use Prim.Native.String.{String}
use rust_desk_enhanced.Prelude.{
  ℕ, Bool, true, false, ◌||◌, List, [], ◌∷◌, ◌++◌, length, ◌==◌, ◌≡◌, ◌↔◌, if◌then◌else◌,
}
use rust_desk_enhanced.Messages.{Hash}

-- `sodiumoxide`'s hash and comparison, and `str::as_bytes`.
pub record Crypto : Type 0 where
  pub sha256 : List ℕ → List ℕ
  pub memcmp : List ℕ → List ℕ → Bool
  pub as_bytes : String → List ℕ
  pub memcmp_iff : (a b : List ℕ) → (memcmp a b ≡ true) ↔ (a ≡ b)

-- Two updates hash the concatenation.
unfoldable pub salted_password : Crypto → List ℕ → String → List ℕ
salted_password crypto password salt = crypto.sha256 (password ++ crypto.as_bytes salt)

unfoldable pub password_response : Crypto → List ℕ → String → List ℕ
password_response crypto h1 challenge = crypto.sha256 (h1 ++ crypto.as_bytes challenge)

-- The loop of `Passwords::verify`: no early exit.
unfoldable pub verify_loop : Crypto → List (List ℕ) → Hash → List ℕ → Bool → Bool
verify_loop crypto [] hash response valid = valid
verify_loop crypto (value ∷ values) hash response valid =
    verify_loop crypto values hash response
      (valid || crypto.memcmp (password_response crypto value hash.challenge) response)

unfoldable pub verify : Crypto → List (List ℕ) → Hash → List ℕ → Bool
unfolding verify_loop
verify crypto values hash response =
    if length response == 32 then verify_loop crypto values hash response false else false
