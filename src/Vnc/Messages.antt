-- ===== src/Vnc/Messages.antt =====
-- crates/rd-engine/src/vnc/mod.rs: the messages of a `VncSession` once it is initialised.
use rust_desk_enhanced.Prelude.{
  ℕ, ◌*◌, Bool, false, ◌||◌, List, [], ◌∷◌, get_or, leb, ◌==◌, if◌then◌else◌, Result, ok, err,
  map_ok, and_then_ok,
}
use rust_desk_enhanced.Vnc.{
  VncError, protocol, geometry, Rectangle, raw_rectangle, copy_rectangle, solid, resize,
}
use rust_desk_enhanced.Vnc.Bytes.{from_u16_be}
use rust_desk_enhanced.Vnc.Client.{
  encode_framebuffer_update_request, encode_pointer_event, encode_key_event, encode_client_cut_text,
}
use rust_desk_enhanced.Vnc.Update.{decode_framebuffer_update, decode_server_cut_text}
use rust_desk_enhanced.Vnc.Session.{ServerInfo, VncSession, read, write}

pub data ServerMessage : Type 0 where
  framebuffer_update : List Rectangle → ServerMessage
  colour_map_ignored : (entries : ℕ) → ServerMessage
  bell : ServerMessage
  clipboard : List ℕ → ServerMessage

-- The loop over the rectangles.
unfoldable pub apply_resizes : List Rectangle → ServerInfo → Result VncError ServerInfo
apply_resizes [] info = ok info
apply_resizes (resize width height ∷ rest) info =
    let later = apply_resizes rest (record info { width = width; height = height }) in
    if width == 0 || height == 0 then err geometry else later
apply_resizes (raw_rectangle x y width height pixels ∷ rest) info = apply_resizes rest info
apply_resizes (copy_rectangle x y width height src_x src_y ∷ rest) info = apply_resizes rest info
apply_resizes (solid x y width height pixel ∷ rest) info = apply_resizes rest info

unfoldable pub on_update : List ℕ → VncSession → Result VncError (ServerMessage × VncSession)
on_update header s =
    and_then_ok
      (decode_framebuffer_update s.info.format (from_u16_be (get_or header 1 0) (get_or header 2 0))
        s.incoming)
      (λ (rectangles, rest).
        map_ok (λ info. (framebuffer_update rectangles, record s { incoming = rest; info = info }))
          (apply_resizes rectangles s.info))

unfoldable pub on_colour_map : List ℕ → VncSession → Result VncError (ServerMessage × VncSession)
on_colour_map header s =
    let count = from_u16_be (get_or header 3 0) (get_or header 4 0) in
    map_ok (λ (entries, s). (colour_map_ignored count, s)) (read (count * 6) s)

unfoldable pub on_cut_text : VncSession → Result VncError (ServerMessage × VncSession)
on_cut_text s =
    map_ok (λ (text, rest). (clipboard text, record s { incoming = rest }))
      (decode_server_cut_text s.incoming)

-- The `match kind[0]`.
unfoldable pub on_kind : ℕ → VncSession → Result VncError (ServerMessage × VncSession)
on_kind kind s =
    if kind == 0
    then and_then_ok (read 3 s) (λ (header, s). on_update header s)
    else if kind == 1
    then and_then_ok (read 5 s) (λ (header, s). on_colour_map header s)
    else if kind == 2
    then ok (bell, s)
    else if kind == 3
    then and_then_ok (read 3 s) (λ (padding, s). on_cut_text s)
    else err protocol

unfoldable pub read_message : VncSession → Result VncError (ServerMessage × VncSession)
read_message s = and_then_ok (read 1 s) (λ (kind, s). on_kind (get_or kind 0 0) s)

unfoldable pub request_update :
    Bool → (x y width height : ℕ) → VncSession → Result VncError VncSession
request_update incremental x y width height s =
    write (encode_framebuffer_update_request incremental x y width height) s

unfoldable pub request_full_update : VncSession → Result VncError VncSession
request_full_update s = request_update false 0 0 s.info.width s.info.height s

unfoldable pub send_pointer : (buttons x y : ℕ) → VncSession → Result VncError VncSession
send_pointer buttons x y s =
    if leb s.info.width x || leb s.info.height y
    then err geometry
    else write (encode_pointer_event buttons x y) s

unfoldable pub send_key : Bool → ℕ → VncSession → Result VncError VncSession
send_key down keysym s = write (encode_key_event down keysym) s

unfoldable pub send_clipboard : List ℕ → VncSession → Result VncError VncSession
send_clipboard text s = and_then_ok (encode_client_cut_text text) (λ message. write message s)
