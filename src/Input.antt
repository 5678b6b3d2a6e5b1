-- ===== src/Input.antt =====
-- crates/rd-engine/src/input.rs: pointer events of the wire decoded into actions.
-- An `i32` is an integer; the type does not bound it.
pub mod ControlKeys
pub mod VirtualKeys
pub mod WindowsKeys
pub mod Keys
pub mod KeyMeaning
pub mod Desktop
pub mod Flutter
pub mod Meaning
mod Tests
use rust_desk_enhanced.Prelude.{
  ℕ, ◌^◌, bit_and, Bool, ◌&&◌, ◌||◌, Option, none, some, and_then, leb, ltb, ◌==◌, if◌then◌else◌, ℤ,
  pos, negsuc, unsigned_abs, checked_neg, shr, to_u32, is_negative,
}
use rust_desk_enhanced.Messages.{MouseEvent}

abbrev pub mouse_type_move : ℕ
mouse_type_move = 0

abbrev pub mouse_type_down : ℕ
mouse_type_down = 1

abbrev pub mouse_type_up : ℕ
mouse_type_up = 2

abbrev pub mouse_type_wheel : ℕ
mouse_type_wheel = 3

abbrev pub mouse_type_trackpad : ℕ
mouse_type_trackpad = 4

abbrev pub mouse_type_move_relative : ℕ
mouse_type_move_relative = 5

abbrev pub mouse_type_mask : ℕ
mouse_type_mask = 0x7

abbrev pub mouse_button_left : ℕ
mouse_button_left = 0x01

abbrev pub mouse_button_right : ℕ
mouse_button_right = 0x02

abbrev pub mouse_button_wheel : ℕ
mouse_button_wheel = 0x04

abbrev pub mouse_button_back : ℕ
mouse_button_back = 0x08

abbrev pub mouse_button_forward : ℕ
mouse_button_forward = 0x10

abbrev pub max_absolute_coordinate : ℕ
max_absolute_coordinate = 2 ^ 20

abbrev pub max_wheel_delta : ℕ
max_wheel_delta = 2 ^ 14

abbrev pub max_button_bits : ℕ
max_button_bits = 0x1f

pub data MouseButton : Type 0 where
  left right middle back forward : MouseButton

pub data MouseAction : Type 0 where
  move_absolute : (x y : ℤ) → MouseAction
  move_relative : (dx dy : ℤ) → MouseAction
  button_down button_up : MouseButton → MouseAction
  wheel : (dx dy : ℤ) → MouseAction

-- `bool::then_some(())`
abbrev pub then_some : Bool → Option (Unit {0})
then_some b = if b then some tt else none

unfoldable pub check_absolute : ℤ → ℤ → Option (Unit {0})
check_absolute x y =
    then_some
      (leb (unsigned_abs x) max_absolute_coordinate && leb (unsigned_abs y) max_absolute_coordinate)

unfoldable pub check_delta : ℤ → Option (Unit {0})
check_delta value = then_some (leb (unsigned_abs value) max_wheel_delta)

unfoldable pub decode_button : ℤ → Option MouseButton
decode_button (negsuc bits) = none
decode_button (pos bits) =
    if bits == mouse_button_left
    then some left
    else if bits == mouse_button_right
    then some right
    else if bits == mouse_button_wheel
    then some middle
    else if bits == mouse_button_back
    then some back
    else if bits == mouse_button_forward
    then some forward
    else none

unfoldable pub decode_move : MouseEvent → Option MouseAction
decode_move event =
    and_then (check_absolute event.x event.y) (λ ok. some (move_absolute event.x event.y))

unfoldable pub decode_move_relative : MouseEvent → Option MouseAction
decode_move_relative event =
    and_then (check_delta event.x)
      (λ ok. and_then (check_delta event.y) (λ ok'. some (move_relative event.x event.y)))

unfoldable pub decode_transition : ℕ → ℤ → MouseEvent → Option MouseAction
decode_transition kind buttons event = and_then (decode_button buttons) (λ button.
    and_then (check_absolute event.x event.y)
      (λ ok. some (if kind == mouse_type_down then button_down button else button_up button)))

unfoldable pub decode_wheel : MouseEvent → Option MouseAction
decode_wheel event = and_then (checked_neg event.x) (λ dx.
    and_then (check_delta dx)
      (λ ok. and_then (check_delta event.y) (λ ok'. some (wheel dx event.y))))

-- The `match kind`.
unfoldable pub decode_kind : ℕ → ℤ → MouseEvent → Option MouseAction
decode_kind kind buttons event =
    if kind == mouse_type_move
    then decode_move event
    else if kind == mouse_type_move_relative
    then decode_move_relative event
    else if kind == mouse_type_down || kind == mouse_type_up
    then decode_transition kind buttons event
    else if kind == mouse_type_wheel || kind == mouse_type_trackpad
    then decode_wheel event
    else none

-- `buttons < 0 || buttons > MAX_BUTTON_BITS`
unfoldable pub out_of_range : ℤ → Bool
out_of_range buttons = is_negative buttons || ltb max_button_bits (unsigned_abs buttons)

unfoldable pub decode_mouse : MouseEvent → Option MouseAction
decode_mouse event =
    let kind = bit_and (to_u32 event.mask) mouse_type_mask in
    let buttons = shr event.mask 3 in
    if out_of_range buttons then none else decode_kind kind buttons event
