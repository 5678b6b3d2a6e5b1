-- ===== src/Vnc/Session.antt =====
-- crates/rd-engine/src/vnc/mod.rs: `VncSession` up to its initialisation.
-- The socket is the bytes that will arrive, the bytes written, and how many more writes it takes. After an error
-- the session is dropped by its callers, so an error carries none.
use rust_desk_enhanced.Prelude.{
  ℕ, zero, suc, ◌*◌, ◌%◌, Bool, true, false, not, ◌||◌, Option, none, some, List, [], ◌∷◌, ◌++◌,
  map, length, take, drop, get_or, is_some, ltb, ◌==◌, if◌then◌else◌, Result, ok, err, map_ok,
  and_then_ok,
}
use rust_desk_enhanced.Vnc.{
  VncError, protocol, io, authentication_rejected, geometry, unsupported_security, SecurityType,
  no_authentication, vnc_authentication, security_type, security_code, is_supported, Encoding, raw,
}
use rust_desk_enhanced.Vnc.Bytes.{from_u16_be, from_u32_be, read_exact}
use rust_desk_enhanced.Vnc.Pixel.{PixelFormat, preferred_pixel_format, decode}
use rust_desk_enhanced.Vnc.Client.{encode_set_pixel_format, encode_set_encodings}
use rust_desk_enhanced.Vnc.Des.{answer_challenge}
use rust_desk_enhanced.Vnc.Banner.{Utf8, parse_banner, answer_to, version_text}

pub record ServerInfo : Type 0 where
  pub version : List ℕ
  pub negotiated_version : List ℕ
  pub security : SecurityType
  pub width : ℕ
  pub height : ℕ
  pub name : List ℕ
  pub format : PixelFormat

pub record VncSession : Type 0 where
  pub incoming : List ℕ
  pub outgoing : List ℕ
  pub writes : ℕ
  pub info : ServerInfo
  pub encodings : List Encoding

unfoldable pub read : ℕ → VncSession → Result VncError (List ℕ × VncSession)
read n s = map_ok (λ (bytes, rest). (bytes, record s { incoming = rest })) (read_exact n s.incoming)

-- `write_all`
unfoldable pub write_to : ℕ → List ℕ → VncSession → Result VncError VncSession
write_to zero bytes s = err io
write_to (suc n) bytes s = ok (record s { outgoing = s.outgoing ++ bytes; writes = n })

unfoldable pub write : List ℕ → VncSession → Result VncError VncSession
write bytes s = write_to s.writes bytes s

abbrev pub number_of : List ℕ → ℕ
number_of bytes =
    from_u32_be (get_or bytes 0 0) (get_or bytes 1 0) (get_or bytes 2 0) (get_or bytes 3 0)

unfoldable pub read_reason : VncSession → Result VncError (List ℕ × VncSession)
read_reason s =
    and_then_ok (read 4 s) (λ (length, s).
      if ltb 4096 (number_of length) then err protocol else read (number_of length) s)

-- The reason is the text of the error, or a text of the client when it cannot be read.
unfoldable pub rejected : {A : Type 0} → Result VncError (List ℕ × VncSession) → Result VncError A
rejected (ok reason) = err authentication_rejected
rejected (err e) = err authentication_rejected

-- The `match value`, after the other byte order of a failure.
unfoldable pub on_result : ℕ → VncSession → Result VncError VncSession
on_result code s =
    let value = if code == 16777216 then 1 else code in
    if value == 0
    then ok s
    else if value == 1
    then err authentication_rejected
    else if value == 2
    then rejected (read_reason s)
    else err protocol

unfoldable pub read_security_result : VncSession → Result VncError VncSession
read_security_result s = and_then_ok (read 4 s) (λ (code, s). on_result (number_of code) s)

abbrev pub or_empty : Option (List ℕ) → List ℕ
or_empty none = []
or_empty (some password) = password

unfoldable pub vnc_authenticate : Option (List ℕ) → VncSession → Result VncError VncSession
vnc_authenticate password s = and_then_ok (read 16 s) (λ (challenge, s).
    and_then_ok (write (answer_challenge (or_empty password) challenge) s) read_security_result)

abbrev pub is_vnc : SecurityType → Bool
is_vnc vnc_authentication = true
is_vnc _ = false

abbrev pub is_none : SecurityType → Bool
is_none no_authentication = true
is_none _ = false

unfoldable pub find_type : (SecurityType → Bool) → List SecurityType → Option SecurityType
find_type test [] = none
find_type test (t ∷ types) = if test t then some t else find_type test types

-- 3.3: the server's choice.
unfoldable pub accept_choice :
    Option (List ℕ) → ℕ → VncSession → Result VncError (SecurityType × VncSession)
accept_choice password code s =
    let security = security_type (code % 256) in
    if not (code == security_code security)
    then err protocol
    else if not (is_supported security)
    then err (unsupported_security (security ∷ []))
    else if is_vnc security
    then map_ok (λ s. (security, s)) (vnc_authenticate password s)
    else ok (security, s)

-- What follows the client's choice.
unfoldable pub perform :
    Option (List ℕ)
    → List SecurityType
    → Option SecurityType
    → VncSession
    → Result VncError (SecurityType × VncSession)
perform password types none s = err (unsupported_security types)
perform password types (some chosen) s = and_then_ok (write (security_code chosen ∷ []) s) (λ s.
    map_ok (λ s. (chosen, s))
      (if is_vnc chosen then vnc_authenticate password s else read_security_result s))

unfoldable pub choose :
    Option (List ℕ) → List ℕ → VncSession → Result VncError (SecurityType × VncSession)
choose password offered s =
    let types = map security_type offered in
    perform password types (find_type (if is_some password then is_vnc else is_none) types) s

unfoldable pub on_count :
    Option (List ℕ) → ℕ → VncSession → Result VncError (SecurityType × VncSession)
on_count password count s =
    if count == 0
    then rejected (read_reason s)
    else and_then_ok (read count s) (λ (offered, s). choose password offered s)

unfoldable pub negotiate_security :
    ℕ → Option (List ℕ) → VncSession → Result VncError (SecurityType × VncSession)
negotiate_security server_minor password s =
    if ltb server_minor 7
    then and_then_ok (read 4 s) (λ (code, s). accept_choice password (number_of code) s)
    else and_then_ok (read 1 s) (λ (count, s). on_count password (get_or count 0 0) s)

abbrev pub max_framebuffer_pixels : ℕ
max_framebuffer_pixels = 16384 * 16384

-- The end of `initialise`.
unfoldable pub announce : ServerInfo → VncSession → Result VncError VncSession
announce info s =
    and_then_ok (write (encode_set_pixel_format preferred_pixel_format) (record s { info = info }))
      (λ s.
        and_then_ok (encode_set_encodings (raw ∷ []))
          (λ encodings. write encodings (record s { encodings = raw ∷ [] })))

module _ (utf8 : Utf8) where
  unfoldable pub on_format :
      (width height name_length : ℕ) → PixelFormat → VncSession → Result VncError VncSession
  on_format width height name_length format s =
      if ltb 4096 name_length
      then err protocol
      else and_then_ok (read name_length s) (λ (name, s).
        announce
          (record s.info {
            width = width;
            height = height;
            name = utf8.lossy name;
            format = format;
          })
          s)

  unfoldable pub on_header : List ℕ → VncSession → Result VncError VncSession
  on_header header s =
      let width = from_u16_be (get_or header 0 0) (get_or header 1 0) in
      let height = from_u16_be (get_or header 2 0) (get_or header 3 0) in
      if width == 0 || height == 0
      then err geometry
      else if ltb max_framebuffer_pixels (width * height)
      then err geometry
      else and_then_ok (decode (take 16 (drop 4 header)))
          (λ format. on_format width height (number_of (drop 20 header)) format s)

  unfoldable pub initialise : VncSession → Result VncError VncSession
  initialise s = and_then_ok (read 24 s) (λ (header, s). on_header header s)

  unfoldable pub on_version : Option (List ℕ) → List ℕ × ℕ → VncSession → Result VncError VncSession
  on_version password (version, minor) s = and_then_ok (write (answer_to minor) s) (λ s.
      and_then_ok
        (negotiate_security minor password (record s {
          info = record s.info {
            version = version;
            negotiated_version = version_text (answer_to minor);
          };
        }))
        (λ (security, s). initialise (record s { info = record s.info { security = security } })))

  unfoldable pub handshake : Option (List ℕ) → VncSession → Result VncError VncSession
  handshake password s =
      and_then_ok (read 12 s) (λ (banner, s).
        and_then_ok (parse_banner (utf8.lossy banner)) (λ v. on_version password v s))

  -- `connect_inner` on a socket.
  unfoldable pub connect_inner :
      (incoming : List ℕ) → (writes : ℕ) → Option (List ℕ) → Result VncError VncSession
  connect_inner incoming writes password = handshake password (record {
    incoming = incoming;
    outgoing = [];
    writes = writes;
    info = record {
      version = [];
      negotiated_version = [];
      security = no_authentication;
      width = 0;
      height = 0;
      name = [];
      format = preferred_pixel_format;
    };
    encodings = raw ∷ [];
  })
