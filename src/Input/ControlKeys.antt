-- ===== src/Input/ControlKeys.antt =====
-- The control keys of the wire: `ControlKey` of libs/hbb_common/protos/message.proto.
use rust_desk_enhanced.Prelude.{ℕ, List, [], ◌∷◌, Option, some, get_elem?, if◌then◌else◌, ◌==◌}

pub data ControlKey : Type 0 where
  unknown alt backspace caps_lock control delete down_arrow end_key escape f1 f10 f11 f12 f2 :
      ControlKey
  f3 f4 f5 f6 f7 f8 f9 home left_arrow meta option_key page_down page_up return_key : ControlKey
  right_arrow shift space tab up_arrow numpad0 numpad1 numpad2 numpad3 numpad4 numpad5 : ControlKey
  numpad6 numpad7 numpad8 numpad9 cancel clear menu pause kana hangul junja final hanja : ControlKey
  kanji convert select print execute snapshot insert help sleep separator scroll num_lock :
      ControlKey
  rwin apps multiply add subtract decimal divide equals numpad_enter rshift rcontrol ralt :
      ControlKey
  volume_mute volume_up volume_down power ctrl_alt_del lock_screen : ControlKey

-- The keys whose codes are 0 to 79, in order.
abbrev pub consecutive_keys : List ControlKey
consecutive_keys =
    unknown ∷ alt ∷ backspace ∷ caps_lock ∷ control ∷ delete ∷ down_arrow ∷ end_key ∷ escape ∷ f1
    ∷ f10 ∷ f11 ∷ f12 ∷ f2 ∷ f3 ∷ f4 ∷ f5 ∷ f6 ∷ f7 ∷ f8 ∷ f9 ∷ home ∷ left_arrow ∷ meta
    ∷ option_key ∷ page_down ∷ page_up ∷ return_key ∷ right_arrow ∷ shift ∷ space ∷ tab ∷ up_arrow
    ∷ numpad0 ∷ numpad1 ∷ numpad2 ∷ numpad3 ∷ numpad4 ∷ numpad5 ∷ numpad6 ∷ numpad7 ∷ numpad8
    ∷ numpad9 ∷ cancel ∷ clear ∷ menu ∷ pause ∷ kana ∷ hangul ∷ junja ∷ final ∷ hanja ∷ kanji
    ∷ convert ∷ select ∷ print ∷ execute ∷ snapshot ∷ insert ∷ help ∷ sleep ∷ separator ∷ scroll
    ∷ num_lock ∷ rwin ∷ apps ∷ multiply ∷ add ∷ subtract ∷ decimal ∷ divide ∷ equals ∷ numpad_enter
    ∷ rshift ∷ rcontrol ∷ ralt ∷ volume_mute ∷ volume_up ∷ volume_down ∷ power ∷ []

-- `EnumOrUnknown::enum_value`
unfoldable pub control_key : ℕ → Option ControlKey
control_key code =
    if code == 100
    then some ctrl_alt_del
    else if code == 101
    then some lock_screen
    else get_elem? consecutive_keys code
