-- ===== src/Input/Meaning.antt =====
-- What a pointer event of input.rs says, written without the code, and that the decoder reads it so.
use rust_desk_enhanced.Prelude.{
  ℕ, zero, suc, ◌+◌, ◌*◌, ◌/◌, ◌^◌, ◌≤◌, bit_and, false, some, ◌≡◌, ◌⊎◌, inl, inr, ◌↔◌, refl, sym,
  ap, arith, ◌==◌, if◌then◌else◌, Bool-cases, Option-cases, ℤ, pos, negsuc, unsigned_abs, neg,
  checked_neg, shr, to_u32, is_negative,
}
use rust_desk_enhanced.Prelude.Bits.{and_mask}
use rust_desk_enhanced.Messages.{MouseEvent}
use rust_desk_enhanced.Input.{
  MouseButton, left, right, middle, back, forward, MouseAction, move_absolute, move_relative,
  button_down, button_up, wheel, check_absolute, check_delta, decode_button, decode_move,
  decode_move_relative, decode_transition, decode_wheel, decode_kind, out_of_range, decode_mouse,
}

abbrev pub IsPoint : ℤ → ℤ → Type 0
IsPoint x y = (unsigned_abs x ≤ 2 ^ 20) × (unsigned_abs y ≤ 2 ^ 20)

abbrev pub IsStep : ℤ → ℤ → Type 0
IsStep dx dy = (unsigned_abs dx ≤ 2 ^ 14) × (unsigned_abs dy ≤ 2 ^ 14)

-- One bit per button.
abbrev pub bit_of : MouseButton → ℕ
bit_of left = 1
bit_of right = 2
bit_of middle = 4
bit_of back = 8
bit_of forward = 16

-- The mask of an event: three bits of kind under five bits of buttons.
abbrev pub Carries : MouseEvent → ℕ → ℕ → Type 0
Carries event kind buttons = event.mask ≡ pos (buttons * 8 + kind)

-- The actions that an event may stand for.
unfoldable pub Means : MouseEvent → MouseAction → Type 0
Means event (move_absolute x y) =
    (b : ℕ) × (b ≤ 31) × Carries event 0 b × (event.x ≡ x) × (event.y ≡ y) × IsPoint x y
Means event (move_relative dx dy) =
    (b : ℕ) × (b ≤ 31) × Carries event 5 b × (event.x ≡ dx) × (event.y ≡ dy) × IsStep dx dy
Means event (button_down button) = Carries event 1 (bit_of button) × IsPoint event.x event.y
Means event (button_up button) = Carries event 2 (bit_of button) × IsPoint event.x event.y
Means event (wheel dx dy) =
    (b : ℕ) × (b ≤ 31)
    × (Carries event 3 b ⊎ Carries event 4 b)
    × (event.x ≡ neg dx)
    × (event.y ≡ dy)
    × IsStep dx dy

IsPoint-checked : (x y : ℤ) (u : Unit {0}) → check_absolute x y ≡ some u → IsPoint x y
unfolding check_absolute
IsPoint-checked x y u h = ground arith

step_checked : (d : ℤ) (u : Unit {0}) → check_delta d ≡ some u → unsigned_abs d ≤ 2 ^ 14
unfolding check_delta
step_checked d u h = ground arith

button_checked :
    (b : ℕ) (button : MouseButton) → decode_button (pos b) ≡ some button → b ≡ bit_of button
unfolding decode_button
button_checked b button h = ground arith

negated : (x dx : ℤ) → checked_neg x ≡ some dx → x ≡ neg dx
unfolding checked_neg neg
negated (pos x) dx h = ground arith
negated (negsuc x) dx h = ground arith

move_sound :
    (event : MouseEvent) (action : MouseAction)
    → decode_move event ≡ some action
    → (action ≡ move_absolute event.x event.y) × IsPoint event.x event.y
unfolding decode_move
move_sound event action h = ground (arith, IsPoint-checked event.x event.y tt)

relative_sound :
    (event : MouseEvent) (action : MouseAction)
    → decode_move_relative event ≡ some action
    → (action ≡ move_relative event.x event.y) × IsStep event.x event.y
unfolding decode_move_relative
relative_sound event action h = ground (arith, step_checked event.x tt, step_checked event.y tt)

-- What `decode_transition` made of the button that it read.
transition_of : ℕ → MouseButton → MouseAction
transition_of kind button = if kind == 1 then button_down button else button_up button

transition_sound :
    (kind b : ℕ) (event : MouseEvent) (action : MouseAction)
    → decode_transition kind (pos b) event ≡ some action
    → (button : MouseButton) × (b ≡ bit_of button)
      × (IsPoint event.x event.y)
      × (transition_of kind button ≡ action)
unfolding decode_transition transition_of
transition_sound kind b event action h = elim (Option-cases (decode_button (pos b))) [
  | inl e ↦ absurd (ground (arith, h, e))
  | inr (button, e) ↦ (
    button,
    button_checked b button e,
    ground (arith, IsPoint-checked event.x event.y tt, h, e),
    ground (arith, h, e),
  )
]

wheel_sound :
    (event : MouseEvent) (action : MouseAction)
    → decode_wheel event ≡ some action
    → (dx : ℤ) × (event.x ≡ neg dx) × (IsStep dx event.y) × (wheel dx event.y ≡ action)
unfolding decode_wheel
wheel_sound event action h = elim (Option-cases (checked_neg event.x)) [
  | inl e ↦ absurd (ground (arith, h, e))
  | inr (dx, e) ↦ (
    dx,
    negated event.x dx e,
    ground (arith, step_checked dx tt, step_checked event.y tt, h, e),
    ground (arith, h, e),
  )
]

kind_sound :
    (kind b : ℕ) (event : MouseEvent) (action : MouseAction)
    → b ≤ 31
    → Carries event kind b
    → decode_kind kind (pos b) event ≡ some action
    → Means event action
unfolding decode_kind Means transition_of
kind_sound zero b event action l c h =
    let (q, p) = move_sound event action h in rw q (b, l, c, refl, refl, p)
kind_sound (suc zero) b event action l c h =
    let (button, e, p, q) = transition_sound 1 b event action h in rw (sym q, sym e) (c, p)
kind_sound (suc (suc zero)) b event action l c h =
    let (button, e, p, q) = transition_sound 2 b event action h in rw (sym q, sym e) (c, p)
kind_sound (suc (suc (suc zero))) b event action l c h =
    let (dx, e, p, q) = wheel_sound event action h in rw (sym q) (b, l, inl c, e, refl, p)
kind_sound (suc (suc (suc (suc zero)))) b event action l c h =
    let (dx, e, p, q) = wheel_sound event action h in rw (sym q) (b, l, inr c, e, refl, p)
kind_sound (suc (suc (suc (suc (suc zero))))) b event action l c h =
    let (q, p) = relative_sound event action h in rw q (b, l, c, refl, refl, p)
kind_sound (suc (suc (suc (suc (suc (suc kind)))))) b event action l c h =
    absurd (ground (arith, h))

-- The two fields of a mask.
fields :
    (mask : ℤ)
    → out_of_range (shr mask 3) ≡ false
    → (b : ℕ) × (b ≤ 31) × (shr mask 3 ≡ pos b) × (mask ≡ pos (b * 8 + bit_and (to_u32 mask) 7))
unfolding shr to_u32 out_of_range is_negative unsigned_abs
fields (pos m) h = (m / 8, ground (arith, h), refl, ap pos (omega (arith, and_mask 3 m)))
fields (negsuc m) h = absurd (ground (arith, h))

mouse_sound :
    (event : MouseEvent) (action : MouseAction)
    → decode_mouse event ≡ some action
    → Means event action
unfolding decode_mouse
mouse_sound event action h = elim (Bool-cases (out_of_range (shr event.mask 3))) [
  | inl o ↦ absurd (ground (arith, h, o))
  | inr o ↦
      let (b, l, e, c) = fields event.mask o in
      kind_sound (bit_and (to_u32 event.mask) 7) b event action l c (ground (arith, h, o, e))
]

-- Conversely.
point_complete : (x y : ℤ) → IsPoint x y → check_absolute x y ≡ some tt
unfolding check_absolute
point_complete x y p = ground arith

step_complete : (d : ℤ) → unsigned_abs d ≤ 2 ^ 14 → check_delta d ≡ some tt
unfolding check_delta
step_complete d p = ground arith

negated_back : (x dx : ℤ) → x ≡ neg dx → unsigned_abs dx ≤ 2 ^ 14 → checked_neg x ≡ some dx
unfolding checked_neg neg unsigned_abs
negated_back x (pos zero) e l = rw e refl
negated_back x (pos (suc n)) e l = rw e (ground (arith, l))
negated_back x (negsuc n) e l = rw e (ground (arith, l))

button_complete : (button : MouseButton) → decode_button (pos (bit_of button)) ≡ some button
unfolding decode_button
button_complete left = refl
button_complete right = refl
button_complete middle = refl
button_complete back = refl
button_complete forward = refl

button_fits : (button : MouseButton) → bit_of button ≤ 31
button_fits button = ground arith

split_mask :
    (kind b : ℕ) (mask : ℤ)
    → kind ≤ 7
    → b ≤ 31
    → mask ≡ pos (b * 8 + kind)
    → (shr mask 3 ≡ pos b) × (bit_and (to_u32 mask) 7 ≡ kind) × (out_of_range (shr mask 3) ≡ false)
unfolding shr to_u32 out_of_range is_negative unsigned_abs
split_mask kind b mask k l e =
    rw e (ap pos (omega arith), omega (arith, and_mask 3 (b * 8 + kind)), ground arith)

-- A mask with its two fields reaches the `match kind`.
mouse_kind :
    (kind b : ℕ) (event : MouseEvent)
    → kind ≤ 7
    → b ≤ 31
    → Carries event kind b
    → decode_mouse event ≡ decode_kind kind (pos b) event
unfolding decode_mouse
mouse_kind kind b event k l c =
    let (p, q, r) = split_mask kind b event.mask k l c in rw (r, p, q) refl

pub mouse_complete :
    (event : MouseEvent) (action : MouseAction)
    → Means event action
    → decode_mouse event ≡ some action
unfolding Means decode_kind decode_move decode_move_relative decode_transition decode_wheel
mouse_complete event (move_absolute x y) (b, l, c, e, f, p) =
    rw (mouse_kind 0 b event (omega arith) l c, e, f, point_complete x y p) refl
mouse_complete event (move_relative dx dy) (b, l, c, e, f, p) =
    rw
      (mouse_kind 5 b event (omega arith) l c, e, f, step_complete dx (p.0), step_complete dy (p.1))
      refl
mouse_complete event (button_down button) (c, p) =
    rw
      (
        mouse_kind 1 (bit_of button) event (omega arith) (button_fits button) c,
        button_complete button,
        point_complete event.x event.y p,
      )
      refl
mouse_complete event (button_up button) (c, p) =
    rw
      (
        mouse_kind 2 (bit_of button) event (omega arith) (button_fits button) c,
        button_complete button,
        point_complete event.x event.y p,
      )
      refl
mouse_complete event (wheel dx dy) (b, l, inl c, e, f, p) =
    rw
      (
        mouse_kind 3 b event (omega arith) l c,
        negated_back event.x dx e (p.0),
        step_complete dx (p.0),
        f,
        step_complete dy (p.1),
      )
      refl
mouse_complete event (wheel dx dy) (b, l, inr c, e, f, p) =
    rw
      (
        mouse_kind 4 b event (omega arith) l c,
        negated_back event.x dx e (p.0),
        step_complete dx (p.0),
        f,
        step_complete dy (p.1),
      )
      refl

-- A pointer event decodes to an action exactly when it means it: a mask of that kind with five button
-- bits, one bit for a transition, the coordinates of the event, the wheel's x negated, and
-- every coordinate and delta within its bound. All else is dropped.
pub decode_mouse_iff :
    (event : MouseEvent) (action : MouseAction)
    → (decode_mouse event ≡ some action) ↔ Means event action
decode_mouse_iff event action = (mouse_sound event action, mouse_complete event action)
