-- ===== src/Input/WindowsKeys.antt =====
-- crates/rd-engine/src/input.rs: the Windows virtual key of each control key.
use rust_desk_enhanced.Prelude.{ℕ, Option, none, some}
use rust_desk_enhanced.Input.ControlKeys.{
  ControlKey, unknown, alt, backspace, caps_lock, control, delete, down_arrow, end_key, escape, f1,
  f10, f11, f12, f2, f3, f4, f5, f6, f7, f8, f9, home, left_arrow, meta, option_key, page_down,
  page_up, return_key, right_arrow, shift, space, tab, up_arrow, numpad0, numpad1, numpad2, numpad3,
  numpad4, numpad5, numpad6, numpad7, numpad8, numpad9, cancel, clear, menu, pause, kana, hangul,
  junja, final, hanja, kanji, convert, select, print, execute, snapshot, insert, help, sleep,
  separator, scroll, num_lock, rwin, apps, multiply, add, subtract, decimal, divide, equals,
  numpad_enter, rshift, rcontrol, ralt, volume_mute, volume_up, volume_down, power, ctrl_alt_del,
  lock_screen,
}
use rust_desk_enhanced.Input.VirtualKeys.{
  vk_add, vk_apps, vk_back, vk_capital, vk_clear, vk_control, vk_decimal, vk_delete, vk_divide,
  vk_down, vk_end, vk_escape, vk_execute, vk_f1, vk_f10, vk_f11, vk_f12, vk_f2, vk_f3, vk_f4, vk_f5,
  vk_f6, vk_f7, vk_f8, vk_f9, vk_final, vk_hangeul, vk_hanja, vk_help, vk_home, vk_insert, vk_junja,
  vk_kana, vk_left, vk_lwin, vk_menu, vk_multiply, vk_next, vk_numlock, vk_numpad0, vk_numpad1,
  vk_numpad2, vk_numpad3, vk_numpad4, vk_numpad5, vk_numpad6, vk_numpad7, vk_numpad8, vk_numpad9,
  vk_oem_nec_equal, vk_pause, vk_prior, vk_rcontrol, vk_return, vk_right, vk_rmenu, vk_rshift,
  vk_rwin, vk_scroll, vk_select, vk_separator, vk_shift, vk_sleep, vk_snapshot, vk_space,
  vk_subtract, vk_tab, vk_up, vk_volume_down, vk_volume_mute, vk_volume_up,
}

unfoldable pub windows_virtual_key : ControlKey → Option ℕ
windows_virtual_key unknown = none
windows_virtual_key alt = some vk_menu
windows_virtual_key backspace = some vk_back
windows_virtual_key caps_lock = some vk_capital
windows_virtual_key control = some vk_control
windows_virtual_key delete = some vk_delete
windows_virtual_key down_arrow = some vk_down
windows_virtual_key end_key = some vk_end
windows_virtual_key escape = some vk_escape
windows_virtual_key f1 = some vk_f1
windows_virtual_key f10 = some vk_f10
windows_virtual_key f11 = some vk_f11
windows_virtual_key f12 = some vk_f12
windows_virtual_key f2 = some vk_f2
windows_virtual_key f3 = some vk_f3
windows_virtual_key f4 = some vk_f4
windows_virtual_key f5 = some vk_f5
windows_virtual_key f6 = some vk_f6
windows_virtual_key f7 = some vk_f7
windows_virtual_key f8 = some vk_f8
windows_virtual_key f9 = some vk_f9
windows_virtual_key home = some vk_home
windows_virtual_key left_arrow = some vk_left
windows_virtual_key meta = some vk_lwin
windows_virtual_key option_key = some vk_menu
windows_virtual_key page_down = some vk_next
windows_virtual_key page_up = some vk_prior
windows_virtual_key return_key = some vk_return
windows_virtual_key right_arrow = some vk_right
windows_virtual_key shift = some vk_shift
windows_virtual_key space = some vk_space
windows_virtual_key tab = some vk_tab
windows_virtual_key up_arrow = some vk_up
windows_virtual_key numpad0 = some vk_numpad0
windows_virtual_key numpad1 = some vk_numpad1
windows_virtual_key numpad2 = some vk_numpad2
windows_virtual_key numpad3 = some vk_numpad3
windows_virtual_key numpad4 = some vk_numpad4
windows_virtual_key numpad5 = some vk_numpad5
windows_virtual_key numpad6 = some vk_numpad6
windows_virtual_key numpad7 = some vk_numpad7
windows_virtual_key numpad8 = some vk_numpad8
windows_virtual_key numpad9 = some vk_numpad9
windows_virtual_key cancel = some vk_clear
windows_virtual_key clear = some vk_clear
windows_virtual_key menu = some vk_menu
windows_virtual_key pause = some vk_pause
windows_virtual_key kana = some vk_kana
windows_virtual_key hangul = some vk_hangeul
windows_virtual_key junja = some vk_junja
windows_virtual_key final = some vk_final
windows_virtual_key hanja = some vk_hanja
windows_virtual_key kanji = some vk_hanja
windows_virtual_key convert = some vk_kana
windows_virtual_key select = some vk_select
windows_virtual_key print = some vk_snapshot
windows_virtual_key execute = some vk_execute
windows_virtual_key snapshot = some vk_snapshot
windows_virtual_key insert = some vk_insert
windows_virtual_key help = some vk_help
windows_virtual_key sleep = some vk_sleep
windows_virtual_key separator = some vk_separator
windows_virtual_key scroll = some vk_scroll
windows_virtual_key num_lock = some vk_numlock
windows_virtual_key rwin = some vk_rwin
windows_virtual_key apps = some vk_apps
windows_virtual_key multiply = some vk_multiply
windows_virtual_key add = some vk_add
windows_virtual_key subtract = some vk_subtract
windows_virtual_key decimal = some vk_decimal
windows_virtual_key divide = some vk_divide
windows_virtual_key equals = some vk_oem_nec_equal
windows_virtual_key numpad_enter = some vk_return
windows_virtual_key rshift = some vk_rshift
windows_virtual_key rcontrol = some vk_rcontrol
windows_virtual_key ralt = some vk_rmenu
windows_virtual_key volume_mute = some vk_volume_mute
windows_virtual_key volume_up = some vk_volume_up
windows_virtual_key volume_down = some vk_volume_down
windows_virtual_key power = none
windows_virtual_key ctrl_alt_del = none
windows_virtual_key lock_screen = none
