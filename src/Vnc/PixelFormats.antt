-- ===== src/Vnc/PixelFormats.antt =====
-- crates/rd-engine/src/vnc/protocol.rs: `PixelFormat` on the wire and back.
use rust_desk_enhanced.Prelude.{ℕ, Bool, true, false, not, List, ◌++◌, ◌==◌, ok, ◌≡◌, refl, arith}
use rust_desk_enhanced.Vnc.Bytes.{u16_round}
use rust_desk_enhanced.Vnc.Pixel.{PixelFormat, encode, decode, from_bool}

flag_round : (b : Bool) → not (from_bool b == 0) ≡ b
flag_round true = refl
flag_round false = refl

-- Every pixel format is read back from its 16 bytes, whatever follows them.
pub decode-encode_append : (f : PixelFormat) (rest : List ℕ) → decode (encode f ++ rest) ≡ ok f
unfolding decode encode
decode-encode_append f rest =
    rw
      (
        flag_round f.big_endian,
        flag_round f.true_colour,
        u16_round f.red_max,
        u16_round f.green_max,
        u16_round f.blue_max,
      )
      (ground arith)
