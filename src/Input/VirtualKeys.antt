-- ===== src/Input/VirtualKeys.antt =====
-- crates/rd-engine/src/input.rs: the table of Windows virtual keys, `mod vk`.
use rust_desk_enhanced.Prelude.{ℕ}

abbrev pub vk_back : ℕ
vk_back = 0x08

abbrev pub vk_tab : ℕ
vk_tab = 0x09

abbrev pub vk_clear : ℕ
vk_clear = 0x0c

abbrev pub vk_return : ℕ
vk_return = 0x0d

abbrev pub vk_shift : ℕ
vk_shift = 0x10

abbrev pub vk_control : ℕ
vk_control = 0x11

abbrev pub vk_menu : ℕ
vk_menu = 0x12

abbrev pub vk_pause : ℕ
vk_pause = 0x13

abbrev pub vk_capital : ℕ
vk_capital = 0x14

abbrev pub vk_kana : ℕ
vk_kana = 0x15

abbrev pub vk_hangeul : ℕ
vk_hangeul = 0x15

abbrev pub vk_junja : ℕ
vk_junja = 0x17

abbrev pub vk_final : ℕ
vk_final = 0x18

abbrev pub vk_hanja : ℕ
vk_hanja = 0x19

abbrev pub vk_kanji : ℕ
vk_kanji = 0x19

abbrev pub vk_escape : ℕ
vk_escape = 0x1b

abbrev pub vk_space : ℕ
vk_space = 0x20

abbrev pub vk_prior : ℕ
vk_prior = 0x21

abbrev pub vk_next : ℕ
vk_next = 0x22

abbrev pub vk_end : ℕ
vk_end = 0x23

abbrev pub vk_home : ℕ
vk_home = 0x24

abbrev pub vk_left : ℕ
vk_left = 0x25

abbrev pub vk_up : ℕ
vk_up = 0x26

abbrev pub vk_right : ℕ
vk_right = 0x27

abbrev pub vk_down : ℕ
vk_down = 0x28

abbrev pub vk_select : ℕ
vk_select = 0x29

abbrev pub vk_print : ℕ
vk_print = 0x2a

abbrev pub vk_execute : ℕ
vk_execute = 0x2b

abbrev pub vk_snapshot : ℕ
vk_snapshot = 0x2c

abbrev pub vk_insert : ℕ
vk_insert = 0x2d

abbrev pub vk_delete : ℕ
vk_delete = 0x2e

abbrev pub vk_help : ℕ
vk_help = 0x2f

abbrev pub vk_lwin : ℕ
vk_lwin = 0x5b

abbrev pub vk_rwin : ℕ
vk_rwin = 0x5c

abbrev pub vk_apps : ℕ
vk_apps = 0x5d

abbrev pub vk_sleep : ℕ
vk_sleep = 0x5f

abbrev pub vk_numpad0 : ℕ
vk_numpad0 = 0x60

abbrev pub vk_numpad1 : ℕ
vk_numpad1 = 0x61

abbrev pub vk_numpad2 : ℕ
vk_numpad2 = 0x62

abbrev pub vk_numpad3 : ℕ
vk_numpad3 = 0x63

abbrev pub vk_numpad4 : ℕ
vk_numpad4 = 0x64

abbrev pub vk_numpad5 : ℕ
vk_numpad5 = 0x65

abbrev pub vk_numpad6 : ℕ
vk_numpad6 = 0x66

abbrev pub vk_numpad7 : ℕ
vk_numpad7 = 0x67

abbrev pub vk_numpad8 : ℕ
vk_numpad8 = 0x68

abbrev pub vk_numpad9 : ℕ
vk_numpad9 = 0x69

abbrev pub vk_multiply : ℕ
vk_multiply = 0x6a

abbrev pub vk_add : ℕ
vk_add = 0x6b

abbrev pub vk_separator : ℕ
vk_separator = 0x6c

abbrev pub vk_subtract : ℕ
vk_subtract = 0x6d

abbrev pub vk_decimal : ℕ
vk_decimal = 0x6e

abbrev pub vk_divide : ℕ
vk_divide = 0x6f

abbrev pub vk_f1 : ℕ
vk_f1 = 0x70

abbrev pub vk_f2 : ℕ
vk_f2 = 0x71

abbrev pub vk_f3 : ℕ
vk_f3 = 0x72

abbrev pub vk_f4 : ℕ
vk_f4 = 0x73

abbrev pub vk_f5 : ℕ
vk_f5 = 0x74

abbrev pub vk_f6 : ℕ
vk_f6 = 0x75

abbrev pub vk_f7 : ℕ
vk_f7 = 0x76

abbrev pub vk_f8 : ℕ
vk_f8 = 0x77

abbrev pub vk_f9 : ℕ
vk_f9 = 0x78

abbrev pub vk_f10 : ℕ
vk_f10 = 0x79

abbrev pub vk_f11 : ℕ
vk_f11 = 0x7a

abbrev pub vk_f12 : ℕ
vk_f12 = 0x7b

abbrev pub vk_numlock : ℕ
vk_numlock = 0x90

abbrev pub vk_scroll : ℕ
vk_scroll = 0x91

abbrev pub vk_lshift : ℕ
vk_lshift = 0xa0

abbrev pub vk_rshift : ℕ
vk_rshift = 0xa1

abbrev pub vk_lcontrol : ℕ
vk_lcontrol = 0xa2

abbrev pub vk_rcontrol : ℕ
vk_rcontrol = 0xa3

abbrev pub vk_lmenu : ℕ
vk_lmenu = 0xa4

abbrev pub vk_rmenu : ℕ
vk_rmenu = 0xa5

abbrev pub vk_oem_nec_equal : ℕ
vk_oem_nec_equal = 0x92

abbrev pub vk_volume_mute : ℕ
vk_volume_mute = 0xad

abbrev pub vk_volume_down : ℕ
vk_volume_down = 0xae

abbrev pub vk_volume_up : ℕ
vk_volume_up = 0xaf
