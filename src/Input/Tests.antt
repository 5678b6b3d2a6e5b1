-- ===== src/Input/Tests.antt =====
-- Decoded events, and the theorems at concrete inputs.
use Prim.Native.String.{String}
use package.text.Mathlib.Text.{◌==◌ as str_eq}
use rust_desk_enhanced.Prelude.{
  if◌then◌else◌, ◌<◌, true, false, Option, none, some, List, [], ◌∷◌, ◌≡◌, ◌↔◌, refl, arith, ℤ, pos,
  negsuc, ◌-ℤ◌, neg, unsigned_abs, checked_neg, shr, to_u32, is_negative,
}
use rust_desk_enhanced.Messages.{MouseEvent}
use rust_desk_enhanced.Input.{
  right, button_down, MouseAction, decode_mouse, decode_kind, decode_transition, decode_wheel,
  decode_button, check_absolute, check_delta, out_of_range, wheel,
}
use rust_desk_enhanced.Input.Meaning.{Means, IsStep, decode_mouse_iff}
use rust_desk_enhanced.Input.ControlKeys.{lock_screen, control_key}
use rust_desk_enhanced.Input.WindowsKeys.{windows_virtual_key}
use rust_desk_enhanced.Input.Keys.{
  KeyEvent, chr, character, decode_key, decode_union, decode_chr, char_from_u32, is_control,
  keyboard_mode, is_legacy,
}
use rust_desk_enhanced.Input.KeyMeaning.{KeyMeans, decode_key_iff}
use rust_desk_enhanced.Input.Desktop.{axis, normalize_absolute, axis-ordered}
use rust_desk_enhanced.Text.{
  parse_int, int_try_from, parse_nat, parse_digits, trim_start, trim_end, keep_end,
}
use rust_desk_enhanced.Input.Flutter.{
  Json, View, text, other, mouse_event_from_json, decode_pointer, coordinate, coordinate_view,
  parse_i32, i32_try_from, button_bits, transition_mask, mask_of, pointer_of,
}
use rust_desk_enhanced.Input.Flutter.Sends.{decode_mouse-mouse_event_from_json}

everything : Unit {0}
unfolding parse_int int_try_from decode_mouse decode_kind decode_transition decode_wheel
    decode_button check_absolute check_delta out_of_range neg unsigned_abs checked_neg shr to_u32
    is_negative ◌-ℤ◌ control_key windows_virtual_key decode_key decode_union decode_chr
    char_from_u32 is_control keyboard_mode is_legacy mouse_event_from_json decode_pointer coordinate
    coordinate_view parse_i32 parse_nat parse_digits trim_start trim_end keep_end i32_try_from
    button_bits transition_mask mask_of pointer_of axis normalize_absolute
everything = tt

-- The right button pressed at (10, -20).
abbrev press : MouseEvent
press = record { mask = pos 17; x = pos 10; y = negsuc 19 }

press_decodes : decode_mouse press ≡ some (button_down right)
unfolding everything
press_decodes = refl

-- The wheel's x is negated.
wheel_decodes :
    decode_mouse (record { mask = pos 3; x = pos 120; y = pos 0 })
    ≡ some (wheel (negsuc 119) (pos 0))
unfolding everything
wheel_decodes = refl

decode_mouse_iff_example :
    (decode_mouse press ≡ some (button_down right)) ↔ Means press (button_down right)
decode_mouse_iff_example = decode_mouse_iff press (button_down right)

abbrev typed : KeyEvent
typed = record { down = false; press = true; mode = 0; union = some (chr 65) }

typed_decodes : decode_key typed ≡ some (character 65 true)
unfolding everything
typed_decodes = refl

decode_key_iff_example :
    (decode_key typed ≡ some (character 65 true)) ↔ KeyMeans typed (character 65 true)
decode_key_iff_example = decode_key_iff typed (character 65 true)

lock_screen_known : control_key 101 ≡ some lock_screen
unfolding everything
lock_screen_known = refl

width_span : pos 3840 -ℤ pos 1 ≡ pos 3839
unfolding everything
width_span = refl

first_offset : negsuc 1899 -ℤ negsuc 1919 ≡ pos 20
unfolding everything
first_offset = refl

second_offset : pos 100 -ℤ negsuc 1919 ≡ pos 2020
unfolding everything
second_offset = refl

outside : negsuc 2000 -ℤ negsuc 1919 ≡ negsuc 80
unfolding everything
outside = refl

axis-ordered_example :
    axis (negsuc 1899) (negsuc 1919) (pos 3840) < axis (pos 100) (negsuc 1919) (pos 3840)
axis-ordered_example =
    axis-ordered (negsuc 1899) (pos 100) (negsuc 1919) (pos 3840) 20 2020 3839 width_span
      first_offset second_offset (omega arith) (omega arith) (omega arith)

past : pos 1920 -ℤ negsuc 1919 ≡ pos 3840
unfolding everything
past = refl

-- A stand-in for `serde_json`: a payload is a list of fields, and a number is an integer.
data ToyValue : Type 0 where
  field_list : List (String × String) → ToyValue
  leaf : String → ToyValue

abbrev find : String → List (String × String) → Option ToyValue
find key [] = none
find key ((name, value) ∷ rest) =
    let later = find key rest in if str_eq key name then some (leaf value) else later

abbrev get_toy : ToyValue → String → Option ToyValue
get_toy (field_list fields) key = find key fields
get_toy (leaf s) key = none

abbrev toy_str : ToyValue → Option String
toy_str (field_list fields) = none
toy_str (leaf s) = some s

abbrev toy_view : ToyValue → View ℤ
toy_view (field_list fields) = other
toy_view (leaf s) = text s

abbrev toy_json : Json
toy_json = record {
  Value = ToyValue;
  Number = ℤ;
  Float = ℤ;
  get = get_toy;
  as_str = toy_str;
  view = toy_view;
  as_f64 = some;
  fract_is_zero = λ z. true;
  as_i64 = some;
}

abbrev payload : ToyValue
payload = field_list (("type", "down") ∷ ("buttons", "right") ∷ ("x", " 10 ") ∷ ("y", "-20") ∷ [])

payload_event : mouse_event_from_json toy_json payload ≡ some press
unfolding everything
payload_event = refl

press-IsStep : IsStep press.x press.y
unfolding everything
press-IsStep = (omega arith, omega arith)

decode_mouse-mouse_event_from_json_example :
    (action : MouseAction) × (decode_mouse press ≡ some action)
decode_mouse-mouse_event_from_json_example =
    decode_mouse-mouse_event_from_json toy_json payload press payload_event press-IsStep
