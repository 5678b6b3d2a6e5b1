-- ===== src/Vnc/Codes.antt =====
-- crates/rd-engine/src/vnc/protocol.rs: the numbers of security types and encodings.
use rust_desk_enhanced.Prelude.{ℕ, ◌==◌, ◌||◌, ◌≡◌, arith, ℤ, pos, negsuc}
use rust_desk_enhanced.Vnc.{
  security_type, security_code, is_supported, encoding, encoding_above, encoding_below,
  encoding_code,
}

security_kept : (code : ℕ) → security_code (security_type code) ≡ code
unfolding security_code security_type
security_kept code = ground arith

supported : (code : ℕ) → is_supported (security_type code) ≡ (code == 1 || code == 2)
unfolding is_supported security_type
supported code = ground arith

-- A security type keeps its number, whether the client has a name for it or not, and the types that it can
-- complete are exactly the numbers 1 and 2.
pub security_code-security_type :
    (code : ℕ)
    → (security_code (security_type code) ≡ code)
      × (is_supported (security_type code) ≡ (code == 1 || code == 2))
security_code-security_type code = (security_kept code, supported code)

above : (code : ℕ) → encoding_code (encoding_above code) ≡ pos code
unfolding encoding_code encoding_above
above code = ground arith

below : (n : ℕ) → encoding_code (encoding_below n) ≡ negsuc n
unfolding encoding_code encoding_below
below n = ground arith

-- An encoding keeps its number, whether the client has a name for it or not.
pub encoding_code-encoding : (code : ℤ) → encoding_code (encoding code) ≡ code
unfolding encoding
encoding_code-encoding (pos code) = above code
encoding_code-encoding (negsuc n) = below n
