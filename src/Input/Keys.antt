-- ===== src/Input/Keys.antt =====
-- crates/rd-engine/src/input.rs: key events of the wire decoded into actions, and the message decoder.
-- A string is its UTF-8 bytes.
use rust_desk_enhanced.Prelude.{
  ℕ, ◌*◌, Bool, true, false, not, ◌&&◌, ◌||◌, Option, none, some, and_then, List, length, is_empty,
  ltb, leb, ◌==◌, if◌then◌else◌, map_option,
}
use rust_desk_enhanced.Messages.{MouseEvent}
use rust_desk_enhanced.Input.{MouseAction, decode_mouse}
use rust_desk_enhanced.Input.ControlKeys.{ControlKey, unknown, control_key}

-- `KeyboardMode`
pub data KeyboardMode : Type 0 where
  legacy map_mode translate auto : KeyboardMode

unfoldable pub keyboard_mode : ℕ → Option KeyboardMode
keyboard_mode code =
    if code == 0
    then some legacy
    else if code == 1
    then some map_mode
    else if code == 2
    then some translate
    else if code == 3
    then some auto
    else none

-- The `oneof` of a key event; the two that are refused keep no content.
pub data KeyUnion : Type 0 where
  seq : List ℕ → KeyUnion
  control : (code : ℕ) → KeyUnion
  chr : (code : ℕ) → KeyUnion
  unicode win2win_hotkey : KeyUnion

pub record KeyEvent : Type 0 where
  pub down : Bool
  pub press : Bool
  pub mode : ℕ
  pub union : Option KeyUnion

pub data KeyAction : Type 0 where
  text : List ℕ → KeyAction
  character : (character : ℕ) (down : Bool) → KeyAction
  control_action : (key : ControlKey) (down : Bool) → KeyAction

pub data InputAction : Type 0 where
  mouse : MouseAction → InputAction
  key : KeyAction → InputAction

abbrev pub max_text_bytes : ℕ
max_text_bytes = 64 * 1024

-- `char::from_u32`: a code point that is no surrogate.
unfoldable pub char_from_u32 : ℕ → Option ℕ
char_from_u32 code =
    if ltb code 0xD800 || (leb 0xE000 code && leb code 0x10FFFF) then some code else none

-- `char::is_control`: the category `Cc`.
unfoldable pub is_control : ℕ → Bool
is_control c = ltb c 0x20 || (leb 0x7F c && leb c 0x9F)

unfoldable pub is_unknown : ControlKey → Bool
is_unknown unknown = true
is_unknown k = false

unfoldable pub decode_seq : List ℕ → Option KeyAction
decode_seq bytes =
    if is_empty bytes || ltb max_text_bytes (length bytes) then none else some (text bytes)

unfoldable pub decode_control : ℕ → Bool → Option KeyAction
decode_control code down =
    and_then (control_key code) (λ k. if is_unknown k then none else some (control_action k down))

unfoldable pub decode_chr : ℕ → Bool → Option KeyAction
decode_chr code down =
    and_then (char_from_u32 code) (λ c. if is_control c then none else some (character c down))

unfoldable pub decode_union : Bool → KeyUnion → Option KeyAction
decode_union down (seq bytes) = decode_seq bytes
decode_union down (control code) = decode_control code down
decode_union down (chr code) = decode_chr code down
decode_union down unicode = none
decode_union down win2win_hotkey = none

unfoldable pub is_legacy : KeyboardMode → Bool
is_legacy legacy = true
is_legacy m = false

unfoldable pub decode_key : KeyEvent → Option KeyAction
decode_key event =
    let down = event.down || event.press in
    and_then (keyboard_mode event.mode)
      (λ mode. if not (is_legacy mode) then none else and_then event.union (decode_union down))

-- `message::Union`; what is no input has no content here.
pub data Union : Type 0 where
  mouse_event : MouseEvent → Union
  key_event : KeyEvent → Union
  other : Union

unfoldable pub decode_message : Union → Option InputAction
decode_message (mouse_event event) = map_option mouse (decode_mouse event)
decode_message (key_event event) = map_option key (decode_key event)
decode_message other = none
