-- ===== src/Vnc/SessionTests.antt =====
-- VNC sessions with scripted servers, and their theorems at concrete inputs.
use rust_desk_enhanced.Prelude.{
  ℕ, none, some, List, [], ◌∷◌, ◌++◌, take, drop, replicate, All, ok, err, ◌≡◌, ◌≢◌, refl, arith,
  to_u32,
}
use rust_desk_enhanced.Vnc.{
  panic, unsupported_security, no_authentication, security_type, security_code, raw, resize,
  encoding_code, encoding, encoding_below,
}
use rust_desk_enhanced.Vnc.Bytes.{read_exact, to_i32}
use rust_desk_enhanced.Vnc.Pixel.{preferred_pixel_format, encode, decode}
use rust_desk_enhanced.Vnc.Client.{
  encode_set_pixel_format, encode_set_encodings, encode_pointer_event,
}
use rust_desk_enhanced.Vnc.Banner.{
  Utf8, slice, starts_with, ends_with, parse_digits, parse_u32, numbers_of, parse_slices,
  checked_version, parse_version, parse_banner, answer_to, protocol_version_3_8,
}
use rust_desk_enhanced.Vnc.BannerText.{parse_banner-ascii, IsAscii}
use rust_desk_enhanced.Vnc.Session.{
  VncSession, read, write_to, write, read_reason, rejected, on_result, read_security_result,
  vnc_authenticate, find_type, accept_choice, perform, choose, on_count, negotiate_security,
  announce, on_format, on_header, initialise, on_version, handshake, connect_inner,
}
use rust_desk_enhanced.Vnc.Messages.{on_update, apply_resizes, on_kind, read_message, send_pointer}
use rust_desk_enhanced.Vnc.Update.{
  decode_framebuffer_update, decode_rectangle, rectangle_under, rectangle_body,
}
use rust_desk_enhanced.Vnc.Connected.{HasPixels}
use rust_desk_enhanced.Vnc.Running.{run, step, reads, points, run-HasPixels}

everything : Unit {0}
unfolding slice starts_with ends_with parse_digits parse_u32 numbers_of parse_slices checked_version
    parse_version parse_banner answer_to read write_to write read_reason rejected on_result
    read_security_result vnc_authenticate find_type accept_choice perform choose on_count
    negotiate_security announce on_format on_header initialise on_version handshake connect_inner
    on_update apply_resizes on_kind read_message send_pointer decode_framebuffer_update
    decode_rectangle rectangle_under rectangle_body read_exact security_type security_code encode
    decode encode_set_pixel_format encode_set_encodings encoding_code encode_pointer_event run step
    to_u32 encoding to_i32 encoding_below
everything = tt

-- For texts that are ASCII.
abbrev plain : Utf8
plain = record { lossy = λ bytes. bytes; lossy-ascii = λ bytes a. refl }

-- A server of version 3.8 that offers both types, with a framebuffer of 4 by 2.
abbrev server : List ℕ
server =
    protocol_version_3_8
    ++ (2 ∷ 1 ∷ 2 ∷ [])
    ++ replicate 4 0
    ++ (0 ∷ 4 ∷ 0 ∷ 2 ∷ encode preferred_pixel_format)
    ++ (0 ∷ 0 ∷ 0 ∷ 1 ∷ 65 ∷ [])

-- What the server sends later: a resize to 8 by 6.
abbrev resized : List ℕ
resized = 0 ∷ 0 ∷ 0 ∷ 1 ∷ 0 ∷ 0 ∷ 0 ∷ 0 ∷ 0 ∷ 8 ∷ 0 ∷ 6 ∷ 255 ∷ 255 ∷ 255 ∷ 33 ∷ []

abbrev connected : VncSession
connected = record {
  incoming = resized;
  outgoing =
      protocol_version_3_8
      ++ (1 ∷ [])
      ++ encode_set_pixel_format preferred_pixel_format
      ++ (2 ∷ 0 ∷ 0 ∷ 1 ∷ 0 ∷ 0 ∷ 0 ∷ 0 ∷ []);
  writes = 6;
  info = record {
    version = take 7 (drop 4 protocol_version_3_8);
    negotiated_version = take 7 (drop 4 protocol_version_3_8);
    security = no_authentication;
    width = 4;
    height = 2;
    name = 65 ∷ [];
    format = preferred_pixel_format;
  };
  encodings = raw ∷ [];
}

-- The client writes its version, its choice and its settings, and no ClientInit before the settings.
connects : connect_inner plain (server ++ resized) 10 none ≡ ok connected
unfolding everything
connects = refl

-- With a password it does not fall back to a server without authentication.
refuses_none :
    connect_inner plain (protocol_version_3_8 ++ (1 ∷ 1 ∷ [])) 10 (some (112 ∷ []))
    ≡ err (unsupported_security (no_authentication ∷ []))
unfolding everything
refuses_none = refl

-- `RFB 00\xFF.008\n`, with the replacement character: its slices cut through it.
panics :
    parse_banner (82 ∷ 70 ∷ 66 ∷ 32 ∷ 48 ∷ 48 ∷ 239 ∷ 191 ∷ 189 ∷ 46 ∷ 48 ∷ 48 ∷ 56 ∷ 10 ∷ [])
    ≡ err panic
unfolding everything
panics = refl

-- A resize beyond the limit of the first framebuffer is taken.
too_large :
    apply_resizes (resize 65535 65535 ∷ []) connected.info
    ≡ ok (record connected.info { width = 65535; height = 65535 })
unfolding everything
too_large = refl

abbrev bigger : VncSession
bigger = record connected {
  incoming = [];
  outgoing = connected.outgoing ++ encode_pointer_event 1 7 5;
  writes = 5;
  info = record connected.info { width = 8; height = 6 };
}

drawn : run connected (reads ∷ points 1 7 5 ∷ []) ≡ ok bigger
unfolding everything
drawn = refl

run-HasPixels_example : HasPixels bigger.info
run-HasPixels_example =
    run-HasPixels plain (server ++ resized) 10 none connected bigger (reads ∷ points 1 7 5 ∷ [])
      connects drawn

protocol_version_3_8-IsAscii : All IsAscii protocol_version_3_8
protocol_version_3_8-IsAscii = ground arith

parse_banner-ascii_example : parse_banner protocol_version_3_8 ≢ err panic
parse_banner-ascii_example =
    parse_banner-ascii plain protocol_version_3_8 refl protocol_version_3_8-IsAscii

abbrev long_password : List ℕ
long_password = replicate 9 97
