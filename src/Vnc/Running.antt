-- ===== src/Vnc/Running.antt =====
-- crates/rd-engine/src/vnc/mod.rs: the messages of a connected session, in any order.
use rust_desk_enhanced.Prelude.{
  ℕ, ◌*◌, Bool, ◌||◌, Option, List, [], ◌∷◌, get_or, leb, ◌==◌, Result, ok, map_ok, and_then_ok,
  ◌≡◌, sym, arith, if-both, OnOk, OnOk-ok, OnOk-and_then_ok, OnOk-map_ok, OnOk-any, OnOk-implies,
}
use mathlib.Core.Path.{subst}
use rust_desk_enhanced.Vnc.{VncError}
use rust_desk_enhanced.Vnc.Bytes.{from_u16_be}
use rust_desk_enhanced.Vnc.Banner.{Utf8}
use rust_desk_enhanced.Vnc.Session.{ServerInfo, VncSession, read, write, connect_inner}
use rust_desk_enhanced.Vnc.{Rectangle, raw_rectangle, copy_rectangle, solid, resize}
use rust_desk_enhanced.Vnc.Client.{encode_client_cut_text}
use rust_desk_enhanced.Vnc.Update.{decode_framebuffer_update, decode_server_cut_text}
use rust_desk_enhanced.Vnc.Negotiation.{SameInfo, SameRest, read-SameRest, write-SameInfo}
use rust_desk_enhanced.Vnc.Connected.{HasPixels, IsConnected, connect_inner-OnOk}
use rust_desk_enhanced.Vnc.Messages.{
  ServerMessage, apply_resizes, on_update, on_colour_map, on_cut_text, on_kind, read_message,
  request_update, request_full_update, send_pointer, send_key, send_clipboard,
}

apply_resizes-HasPixels :
    (rectangles : List Rectangle) (info : ServerInfo)
    → HasPixels info
    → OnOk HasPixels (apply_resizes rectangles info)
unfolding apply_resizes OnOk
apply_resizes-HasPixels [] info p = p
apply_resizes-HasPixels (resize width height ∷ rest) info p =
    if-both (OnOk HasPixels) (width == 0 || height == 0) (λ _. tt)
      (λ e.
        apply_resizes-HasPixels rest (record info { width = width; height = height })
          (ground (arith, e)))
apply_resizes-HasPixels (raw_rectangle x y width height pixels ∷ rest) info p =
    apply_resizes-HasPixels rest info p
apply_resizes-HasPixels (copy_rectangle x y width height src_x src_y ∷ rest) info p =
    apply_resizes-HasPixels rest info p
apply_resizes-HasPixels (solid x y width height pixel ∷ rest) info p =
    apply_resizes-HasPixels rest info p

-- The session that a message leaves has pixels.
Drawn : ServerMessage × VncSession → Type 0
Drawn (m, s) = HasPixels s.info

on_update-Drawn :
    (header : List ℕ) (s : VncSession) → HasPixels s.info → OnOk Drawn (on_update header s)
unfolding on_update Drawn
on_update-Drawn header s p =
    OnOk-and_then_ok (λ _. Unit {0}) Drawn
      (decode_framebuffer_update s.info.format (from_u16_be (get_or header 1 0) (get_or header 2 0))
        s.incoming)
      _
      (OnOk-any (
        decode_framebuffer_update s.info.format
          (from_u16_be (get_or header 1 0) (get_or header 2 0)) s.incoming))
      (λ (rectangles, rest) _.
        OnOk-map_ok HasPixels Drawn (apply_resizes rectangles s.info) _
          (apply_resizes-HasPixels rectangles s.info p) (λ info q. q))

-- A read keeps what is known of the framebuffer.
after_read :
    (n : ℕ) (s : VncSession)
    (f : List ℕ × VncSession → Result VncError (ServerMessage × VncSession))
    → HasPixels s.info
    → ((bytes : List ℕ) (s' : VncSession) → HasPixels s'.info → OnOk Drawn (f (bytes, s')))
    → OnOk Drawn (and_then_ok (read n s) f)
after_read n s f p k =
    OnOk-and_then_ok (SameRest s) Drawn (read n s) f (read-SameRest n s)
      (λ (bytes, s') e. k bytes s' (subst HasPixels (sym e) p))

on_kind-Drawn : (kind : ℕ) (s : VncSession) → HasPixels s.info → OnOk Drawn (on_kind kind s)
unfolding on_kind on_colour_map on_cut_text Drawn OnOk
on_kind-Drawn kind s p =
    if-both (OnOk Drawn) (kind == 0)
      (λ _. after_read 3 s _ p (λ header s' q. on_update-Drawn header s' q))
      (λ _.
        if-both (OnOk Drawn) (kind == 1)
          (λ _. after_read 5 s _ p (λ header s' q.
            OnOk-map_ok (SameRest s') Drawn
              (read (from_u16_be (get_or header 3 0) (get_or header 4 0) * 6) s') _
              (read-SameRest (from_u16_be (get_or header 3 0) (get_or header 4 0) * 6) s')
              (λ (entries, t) e. subst HasPixels (sym e) q)))
          (λ _.
            if-both (OnOk Drawn) (kind == 2) (λ _. p)
              (λ _.
                if-both (OnOk Drawn) (kind == 3)
                  (λ _. after_read 3 s _ p (λ padding s' q.
                    OnOk-map_ok (λ _. Unit {0}) Drawn (decode_server_cut_text s'.incoming) _
                      (OnOk-any (decode_server_cut_text s'.incoming)) (λ (text, rest) _. q)))
                  (λ _. tt))))

read_message-Drawn : (s : VncSession) → HasPixels s.info → OnOk Drawn (read_message s)
unfolding read_message
read_message-Drawn s p = after_read 1 s _ p (λ kind s' q. on_kind-Drawn (get_or kind 0 0) s' q)

-- What can be called on a session.
pub data Call : Type 0 where
  reads full_updates : Call
  updates : (incremental : Bool) (x y width height : ℕ) → Call
  points : (buttons x y : ℕ) → Call
  presses : (down : Bool) (keysym : ℕ) → Call
  pastes : List ℕ → Call

unfoldable pub step : VncSession → Call → Result VncError VncSession
step s reads = map_ok (λ (m, s'). s') (read_message s)
step s full_updates = request_full_update s
step s (updates incremental x y width height) = request_update incremental x y width height s
step s (points buttons x y) = send_pointer buttons x y s
step s (presses down keysym) = send_key down keysym s
step s (pastes text) = send_clipboard text s

-- The session ends with the first error.
unfoldable pub run : VncSession → List Call → Result VncError VncSession
run s [] = ok s
run s (c ∷ cs) = and_then_ok (step s c) (λ s'. run s' cs)

abbrev Shown : VncSession → Type 0
Shown s = HasPixels s.info

write-Shown : (bytes : List ℕ) (s : VncSession) → Shown s → OnOk Shown (write bytes s)
write-Shown bytes s p =
    OnOk-implies (SameInfo s) Shown (write bytes s) (write-SameInfo bytes s)
      (λ t e. subst HasPixels (sym e) p)

step-Shown : (s : VncSession) (c : Call) → Shown s → OnOk Shown (step s c)
unfolding step request_full_update request_update send_pointer send_key send_clipboard OnOk Drawn
step-Shown s reads p =
    OnOk-map_ok Drawn Shown (read_message s) _ (read_message-Drawn s p) (λ (m, t) q. q)
step-Shown s full_updates p = write-Shown _ s p
step-Shown s (updates incremental x y width height) p = write-Shown _ s p
step-Shown s (points buttons x y) p =
    if-both (OnOk Shown) (leb s.info.width x || leb s.info.height y) (λ _. tt)
      (λ _. write-Shown _ s p)
step-Shown s (presses down keysym) p = write-Shown _ s p
step-Shown s (pastes text) p =
    OnOk-and_then_ok (λ _. Unit {0}) Shown (encode_client_cut_text text) _
      (OnOk-any (encode_client_cut_text text)) (λ m _. write-Shown m s p)

run-Shown : (s : VncSession) (cs : List Call) → Shown s → OnOk Shown (run s cs)
unfolding run OnOk
run-Shown s [] p = p
run-Shown s (c ∷ cs) p =
    OnOk-and_then_ok Shown Shown (step s c) _ (step-Shown s c p) (λ s' q. run-Shown s' cs q)

-- Whatever a server sends, and whatever is called on a connected session, in whatever order: as long as no call has
-- failed, the framebuffer has pixels.
pub run-HasPixels :
    (utf8 : Utf8) (incoming : List ℕ) (writes : ℕ) (password : Option (List ℕ)) (s s' : VncSession)
    (cs : List Call)
    → connect_inner utf8 incoming writes password ≡ ok s
    → run s cs ≡ ok s'
    → HasPixels s'.info
unfolding IsConnected
run-HasPixels utf8 incoming writes password s s' cs c e =
    let (pixels, _, _) =
      OnOk-ok (IsConnected utf8 password) (connect_inner utf8 incoming writes password) s
        (connect_inner-OnOk utf8 incoming writes password) c in
    OnOk-ok Shown (run s cs) s' (run-Shown s cs pixels) e
