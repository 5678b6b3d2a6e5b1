-- ===== src/Input/KeyMeaning.antt =====
-- What a key event of input.rs says, written without the code, and that the decoder reads it so.
use rust_desk_enhanced.Prelude.{
  ℕ, ◌+◌, ◌≤◌, Bool, true, false, not, ◌||◌, some, List, [], ◌∷◌, length, is_some, ◌==◌, ◌≡◌, ◌⊎◌,
  inl, inr, ◌↔◌, refl, sym, arith, Bool-cases, Option-cases, if◌then◌else◌, get_elem?, all_from,
  all_from-get_elem?,
}
use rust_desk_enhanced.Input.ControlKeys.{
  ControlKey, ctrl_alt_del, lock_screen, control_key, consecutive_keys,
}
use rust_desk_enhanced.Input.WindowsKeys.{windows_virtual_key}
use rust_desk_enhanced.Input.Keys.{
  KeyEvent, KeyUnion, seq, control, chr, unicode, win2win_hotkey, KeyAction, text, character,
  control_action, keyboard_mode, KeyboardMode, char_from_u32, is_control, is_unknown, is_legacy,
  decode_seq, decode_control, decode_chr, decode_union, decode_key,
}

-- A character that is text: a scalar value of Unicode outside the control ranges.
abbrev pub IsText : ℕ → Type 0
IsText c =
    ((0x20 ≤ c) × (c ≤ 0x7E)) ⊎ (((0xA0 ≤ c) × (c ≤ 0xD7FF)) ⊎ ((0xE000 ≤ c) × (c ≤ 0x10FFFF)))

-- The actions that a legacy key event may stand for.
unfoldable pub Names : KeyUnion → Bool → KeyAction → Type 0
Names union down (text bytes) = (union ≡ seq bytes) × (1 ≤ length bytes) × (length bytes ≤ 65536)
Names union down (character c pressed) = (union ≡ chr c) × (pressed ≡ down) × IsText c
Names union down (control_action key pressed) =
    (code : ℕ) × (union ≡ control code)
    × (pressed ≡ down)
    × (control_key code ≡ some key)
    × (is_unknown key ≡ false)

unfoldable pub KeyMeans : KeyEvent → KeyAction → Type 0
KeyMeans event action =
    (union : KeyUnion) × (event.mode ≡ 0)
    × (event.union ≡ some union)
    × Names union (event.down || event.press) action

IsText-checked : (c d : ℕ) → char_from_u32 c ≡ some d → is_control d ≡ false → (c ≡ d) × IsText c
unfolding char_from_u32 is_control
IsText-checked c d h g = ground (arith, h, g)

control_sound :
    (code : ℕ) (down : Bool) (action : KeyAction)
    → decode_control code down ≡ some action
    → (k : ControlKey) × (control_key code ≡ some k)
      × (is_unknown k ≡ false)
      × (control_action k down ≡ action)
unfolding decode_control
control_sound code down action h = elim (Option-cases (control_key code)) [
  | inl e ↦ absurd (ground (arith, h, e))
  | inr (k, e) ↦ elim (Bool-cases (is_unknown k)) [
    | inl u ↦ absurd (ground (arith, h, e, u))
    | inr u ↦ (k, e, u, ground (arith, h, e, u))
  ]
]

chr_sound :
    (code : ℕ) (down : Bool) (action : KeyAction)
    → decode_chr code down ≡ some action
    → (IsText code) × (character code down ≡ action)
unfolding decode_chr
chr_sound code down action h = elim (Option-cases (char_from_u32 code)) [
  | inl e ↦ absurd (ground (arith, h, e))
  | inr (c, e) ↦ elim (Bool-cases (is_control c)) [
    | inl u ↦ absurd (ground (arith, h, e, u))
    | inr u ↦ let (p, q) = IsText-checked code c e u in (q, ground (arith, h, e, u, p))
  ]
]

seq_sound :
    (bytes : List ℕ) (action : KeyAction)
    → decode_seq bytes ≡ some action
    → (1 ≤ length bytes) × (length bytes ≤ 65536) × (text bytes ≡ action)
unfolding decode_seq
seq_sound [] action h = ground (arith, h)
seq_sound (b ∷ bytes) action h = ground (arith, h)

union_sound :
    (down : Bool) (union : KeyUnion) (action : KeyAction)
    → decode_union down union ≡ some action
    → Names union down action
unfolding decode_union Names
union_sound down (seq bytes) action h =
    let (p, q, r) = seq_sound bytes action h in rw (sym r) (refl, p, q)
union_sound down (control code) action h =
    let (k, p, q, r) = control_sound code down action h in rw (sym r) (code, refl, refl, p, q)
union_sound down (chr code) action h =
    let (p, r) = chr_sound code down action h in rw (sym r) (refl, refl, p)
union_sound down unicode action h = absurd (ground (arith, h))
union_sound down win2win_hotkey action h = absurd (ground (arith, h))

legacy_mode :
    (code : ℕ) (mode : KeyboardMode)
    → keyboard_mode code ≡ some mode
    → is_legacy mode ≡ true
    → code ≡ 0
unfolding keyboard_mode is_legacy
legacy_mode code mode h l = ground (arith, h, l)

key_sound :
    (event : KeyEvent) (action : KeyAction) → decode_key event ≡ some action → KeyMeans event action
unfolding decode_key KeyMeans
key_sound event action h = elim (Option-cases (keyboard_mode event.mode)) [
  | inl e ↦ absurd (ground (arith, h, e))
  | inr (mode, e) ↦ elim (Bool-cases (is_legacy mode)) [
    | inr l ↦ absurd (ground (arith, h, e, l))
    | inl l ↦ elim (Option-cases event.union) [
      | inl f ↦ absurd (ground (arith, h, e, l, f))
      | inr (union, f) ↦ (
        union,
        legacy_mode event.mode mode e l,
        f,
        union_sound (event.down || event.press) union action (ground (arith, h, e, l, f)),
      )
    ]
  ]
]

seq_complete :
    (bytes : List ℕ)
    → 1 ≤ length bytes
    → length bytes ≤ 65536
    → decode_seq bytes ≡ some (text bytes)
unfolding decode_seq
seq_complete [] p q = absurd (omega arith)
seq_complete (b ∷ bytes) p q = ground (arith, p, q)

chr_complete : (c : ℕ) (down : Bool) → IsText c → decode_chr c down ≡ some (character c down)
unfolding decode_chr char_from_u32 is_control
chr_complete c down p = ground (arith, p)

union_complete :
    (down : Bool) (union : KeyUnion) (action : KeyAction)
    → Names union down action
    → decode_union down union ≡ some action
unfolding decode_union decode_control Names
union_complete down union (text bytes) (e, p, q) = rw e (seq_complete bytes p q)
union_complete down union (character c pressed) (e, f, p) = rw (e, f) (chr_complete c down p)
union_complete down union (control_action k pressed) (code, e, f, p, q) = rw (e, f, p, q) refl

-- A key event decodes to an action exactly when it means it: legacy mode, and a text of 1 to 65,536 bytes, a
-- character of Unicode that is no control character, or a known control key other than `Unknown`,
-- pressed when the event is down or a click. All else is dropped.
pub decode_key_iff :
    (event : KeyEvent) (action : KeyAction)
    → (decode_key event ≡ some action) ↔ KeyMeans event action
unfolding decode_key KeyMeans keyboard_mode is_legacy
decode_key_iff event action = (
  key_sound event action,
  λ m.
      let (union, e, f, n) = m in
      rw (e, f) (union_complete (event.down || event.press) union action n),
)

-- `Unknown`, `Power` and the two secure attention sequences.
abbrev pub is_refused_code : ℕ → Bool
is_refused_code code = (code == 0) || (code == 79) || (code == 100) || (code == 101)

maps_as_expected : ℕ → ControlKey → Bool
maps_as_expected code key =
    if is_some (windows_virtual_key key) then not (is_refused_code code) else is_refused_code code

consecutive_expected : all_from maps_as_expected 0 consecutive_keys ≡ true
unfolding maps_as_expected windows_virtual_key
consecutive_expected = refl

expected_at :
    (code : ℕ) (key : ControlKey)
    → get_elem? consecutive_keys code ≡ some key
    → maps_as_expected code key ≡ true
expected_at code key h =
    let p : code + 0 ≡ code = omega arith in
    rw (sym p)
      (all_from-get_elem? maps_as_expected 0 consecutive_keys code key consecutive_expected h)

at_100 :
    (code : ℕ) (key : ControlKey)
    → control_key code ≡ some key
    → (code == 100) ≡ true
    → (code ≡ 100) × (ctrl_alt_del ≡ key)
unfolding control_key
at_100 code key h a = (ground (arith, a), ground (arith, h, a))

at_101 :
    (code : ℕ) (key : ControlKey)
    → control_key code ≡ some key
    → (code == 101) ≡ true
    → (code ≡ 101) × (lock_screen ≡ key)
unfolding control_key
at_101 code key h a = (ground (arith, a), ground (arith, h, a))

mapped :
    (code : ℕ) (key : ControlKey) → control_key code ≡ some key → maps_as_expected code key ≡ true
unfolding control_key maps_as_expected windows_virtual_key
mapped code key h = elim (Bool-cases (code == 100)) [
  | inl a ↦ let (p, q) = at_100 code key h a in rw (p, sym q) refl
  | inr a ↦ elim (Bool-cases (code == 101)) [
    | inl b ↦ let (p, q) = at_101 code key h b in rw (p, sym q) refl
    | inr b ↦ expected_at code key (ground (arith, h, a, b))
  ]
]

-- The known control keys that have no Windows virtual key are exactly those of the codes 0 (unknown), 79 (power),
-- 100 (control, alt and delete) and 101 (lock screen).
pub windows_virtual_key_refuses :
    (code : ℕ) (key : ControlKey)
    → control_key code ≡ some key
    → is_some (windows_virtual_key key) ≡ not (is_refused_code code)
unfolding control_key maps_as_expected
windows_virtual_key_refuses code key h =
    let e : maps_as_expected code key ≡ true = mapped code key h in ground (arith, e)
