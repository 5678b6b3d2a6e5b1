-- ===== src/Vnc.antt =====
-- crates/rd-engine/src/vnc/protocol.rs: the names and numbers of the RFB protocol.
-- A byte is a number below 256; the reader of a connection is the list of the bytes that it will give.
pub mod Bytes
pub mod DesTables
pub mod Des
mod DesTests
mod SessionTests
pub mod Pixel
pub mod PixelBounds
pub mod PixelFormats
pub mod Client
pub mod Update
pub mod RoundTrip
pub mod Codes
pub mod Stream
pub mod Requests
pub mod Negotiation
pub mod Connected
pub mod Running
pub mod Frame
pub mod FrameBounds
pub mod FrameTests
pub mod Banner
pub mod BannerText
pub mod Session
pub mod Messages
mod Tests
use rust_desk_enhanced.Prelude.{ℕ, Bool, true, false, List, if◌then◌else◌, ◌==◌, ℤ, pos, negsuc}

-- `None`, `VncAuthentication`, …, `Other`
pub data SecurityType : Type 0 where
  no_authentication vnc_authentication apple_remote_desktop apple_diffie_hellman : SecurityType
  other_type : (code : ℕ) → SecurityType

unfoldable pub security_type : ℕ → SecurityType
security_type code =
    if code == 1
    then no_authentication
    else if code == 2
    then vnc_authentication
    else if code == 30
    then apple_remote_desktop
    else if code == 33
    then apple_diffie_hellman
    else other_type code

unfoldable pub security_code : SecurityType → ℕ
security_code no_authentication = 1
security_code vnc_authentication = 2
security_code apple_remote_desktop = 30
security_code apple_diffie_hellman = 33
security_code (other_type code) = code

unfoldable pub is_supported : SecurityType → Bool
is_supported no_authentication = true
is_supported vnc_authentication = true
is_supported t = false

pub data Encoding : Type 0 where
  raw copy_rect desktop_size cursor x_cursor extended_desktop_size zlib zlib_hex tight tight_jpeg :
      Encoding
  other : ℤ → Encoding

unfoldable pub encoding_above : ℕ → Encoding
encoding_above code =
    if code == 0
    then raw
    else if code == 1
    then copy_rect
    else if code == 6
    then zlib
    else if code == 8
    then zlib_hex
    else if code == 7
    then tight
    else other (pos code)

-- The negative codes; `n` stands for `-(n + 1)`.
unfoldable pub encoding_below : ℕ → Encoding
encoding_below n =
    if n == 222
    then desktop_size
    else if n == 238
    then cursor
    else if n == 239
    then x_cursor
    else if n == 307
    then extended_desktop_size
    else if n == 31
    then tight_jpeg
    else other (negsuc n)

unfoldable pub encoding : ℤ → Encoding
encoding (pos code) = encoding_above code
encoding (negsuc n) = encoding_below n

unfoldable pub encoding_code : Encoding → ℤ
encoding_code raw = pos 0
encoding_code copy_rect = pos 1
encoding_code desktop_size = negsuc 222
encoding_code cursor = negsuc 238
encoding_code x_cursor = negsuc 239
encoding_code extended_desktop_size = negsuc 307
encoding_code zlib = pos 6
encoding_code zlib_hex = pos 8
encoding_code tight = pos 7
encoding_code tight_jpeg = negsuc 31
encoding_code (other code) = code

-- `VncError` without its texts. `panic` is no error of the source: the thread ends there.
pub data VncError : Type 0 where
  protocol io authentication_rejected geometry panic : VncError
  unsupported_encoding : Encoding → VncError
  unsupported_security : List SecurityType → VncError

pub data Rectangle : Type 0 where
  raw_rectangle : (x y width height : ℕ) (pixels : List ℕ) → Rectangle
  copy_rectangle : (x y width height src_x src_y : ℕ) → Rectangle
  solid : (x y width height : ℕ) (pixel : List ℕ) → Rectangle
  resize : (width height : ℕ) → Rectangle
