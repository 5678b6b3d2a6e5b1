-- ===== src/Input/Flutter.antt =====
-- crates/rd-engine/src/flutter_input.rs: the frontend's pointer payloads as wire events.
-- `serde_json` is a parameter. A string is read as its code points.
pub mod Sends
use Prim.Native.String.{String}
use package.text.Mathlib.Text.{◌==◌ as str_eq}
use rust_desk_enhanced.Prelude.{
  ℕ, zero, suc, ◌+◌, ◌-◌, ◌*◌, ◌/◌, ◌^◌, bit_and, bit_or, Bool, true, false, not, ◌&&◌, ◌||◌,
  Option, none, some, and_then, List, [], ◌∷◌, ◌++◌, ltb, leb, ◌==◌, if◌then◌else◌, ℤ, pos, negsuc,
  neg, unsigned_abs, to_u32, shr, is_negative,
}
use rust_desk_enhanced.Text.{chars, trim_start, trim_end, int_try_from, parse_int}
use rust_desk_enhanced.Messages.{MouseEvent}

-- What the code takes of a `Value` in a `match`.
pub data View (Number : Type 0) : Type 0 where
  text : String → View Number
  number : Number → View Number
  other : View Number

-- `serde_json::Value`, `serde_json::Number` and `f64`, as the adapter reads them.
pub record Json : Type 1 where
  pub Value : Type 0
  pub Number : Type 0
  pub Float : Type 0
  pub get : Value → String → Option Value
  pub as_str : Value → Option String
  pub view : Value → View Number
  pub as_f64 : Number → Option Float
  pub fract_is_zero : Float → Bool
  pub as_i64 : Number → Option ℤ

-- `i32::try_from`
unfoldable pub i32_try_from : ℤ → Option ℤ
i32_try_from z = int_try_from (2 ^ 31) z

-- `parse::<i32>`
unfoldable pub parse_i32 : List ℕ → Option ℤ
parse_i32 digits = parse_int (2 ^ 31) digits

unfoldable pub button_bits : String → Option ℕ
button_bits name =
    if str_eq name "left"
    then some 0x01
    else if str_eq name "right"
    then some 0x02
    else if str_eq name "wheel"
    then some 0x04
    else if str_eq name "back"
    then some 0x08
    else if str_eq name "forward"
    then some 0x10
    else none

-- `MOUSE_TYPE | (button_bits(button?)? << 3)`
unfoldable pub transition_mask : ℕ → Option String → Option ℕ
transition_mask kind button =
    and_then button
      (λ name. and_then (button_bits name) (λ bits. some (bit_or kind (bits * 2 ^ 3))))

-- The `match kind` that makes the mask.
unfoldable pub mask_of : String → Option String → Option ℕ
mask_of kind button =
    if str_eq kind "move" || str_eq kind "mousemove"
    then some 0
    else if str_eq kind "down" || str_eq kind "mousedown"
    then transition_mask 1 button
    else if str_eq kind "up" || str_eq kind "mouseup"
    then transition_mask 2 button
    else if str_eq kind "wheel"
    then some 3
    else if str_eq kind "trackpad"
    then some 4
    else if str_eq kind "move_relative"
    then some 5
    else none

abbrev pub unwrap_or {ℓ} : {A : Type ℓ} → Option A → A → A
unwrap_or none a = a
unwrap_or (some b) a = b

-- The guards of `decode_pointer` on an event.
unfoldable pub pointer_of : MouseEvent → Option (ℕ × ℕ)
pointer_of event =
    let kind = bit_and (to_u32 event.mask) 0x7 in
    let button = shr event.mask 3 in
    if is_negative button then none else some (kind, unsigned_abs button)

module _ (json : Json) where
  unfoldable pub coordinate_view : View json.Number → Option ℤ
  coordinate_view (text s) = parse_i32 (trim_end (trim_start (chars s)))
  coordinate_view (number n) = and_then (json.as_f64 n) (λ as_f64.
      if not (json.fract_is_zero as_f64) then none else and_then (json.as_i64 n) i32_try_from)
  coordinate_view other = none

  unfoldable pub coordinate : Option json.Value → Option ℤ
  coordinate value = and_then value (λ v. coordinate_view (json.view v))

  unfoldable pub mouse_event_from_json : json.Value → Option MouseEvent
  mouse_event_from_json payload = and_then (and_then (json.get payload "type") json.as_str) (λ kind.
      let button = and_then (json.get payload "buttons") json.as_str in
      let x = unwrap_or (coordinate (json.get payload "x")) (pos 0) in
      let y = unwrap_or (coordinate (json.get payload "y")) (pos 0) in
      and_then (mask_of kind button) (λ mask. some (record { mask = pos mask; x = x; y = y })))

  unfoldable pub decode_pointer : json.Value → Option (ℕ × ℕ)
  decode_pointer payload = and_then (mouse_event_from_json payload) pointer_of
