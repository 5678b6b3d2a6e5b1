-- ===== src/Input/Flutter/Sends.antt =====
-- The wire events that flutter_input.rs makes, read back by the controlled side of input.rs.
use Prim.Native.String.{String}
use package.text.Mathlib.Text.{◌==◌ as str_eq}
use rust_desk_enhanced.Prelude.{
  ℕ, ◌+◌, ◌*◌, ◌/◌, ◌%◌, ◌≤◌, ◌||◌, Option, none, some, and_then, ◌≡◌, ◌∙◌, ◌⊎◌, inl, inr, refl,
  sym, ap, arith, Bool-cases, Option-cases, pos, neg, neg-neg, unsigned_abs-neg, unsigned_abs,
  to_u32, shr, is_negative,
}
use rust_desk_enhanced.Prelude.Bits.{or_high, and_mask}
use rust_desk_enhanced.Messages.{MouseEvent}
use rust_desk_enhanced.Input.{
  MouseButton, left, right, middle, back, forward, MouseAction, move_absolute, move_relative,
  button_down, button_up, wheel, decode_mouse,
}
use rust_desk_enhanced.Input.Meaning.{bit_of, Means, IsStep, mouse_complete}
use rust_desk_enhanced.Input.Flutter.{
  Json, button_bits, transition_mask, mask_of, mouse_event_from_json, pointer_of, decode_pointer,
}

named_button :
    (name : String) (bits : ℕ)
    → button_bits name ≡ some bits
    → (button : MouseButton) × (bits ≡ bit_of button)
unfolding button_bits
named_button name bits h = elim (Bool-cases (str_eq name "left")) [
  | inl a ↦ (left, ground (arith, h, a))
  | inr a ↦ elim (Bool-cases (str_eq name "right")) [
    | inl b ↦ (right, ground (arith, h, a, b))
    | inr b ↦ elim (Bool-cases (str_eq name "wheel")) [
      | inl c ↦ (middle, ground (arith, h, a, b, c))
      | inr c ↦ elim (Bool-cases (str_eq name "back")) [
        | inl d ↦ (back, ground (arith, h, a, b, c, d))
        | inr d ↦ (forward, ground (arith, h, a, b, c, d))
      ]
    ]
  ]
]

-- The masks that a payload may ask for.
Sends : ℕ → Type 0
Sends mask = (k : ℕ) × ((k ≡ 0) ⊎ ((k ≡ 3) ⊎ ((k ≡ 4) ⊎ (k ≡ 5)))) × (mask ≡ k)

Presses : ℕ → Type 0
Presses mask =
    (button : MouseButton) × (k : ℕ) × ((k ≡ 1) ⊎ (k ≡ 2)) × (mask ≡ bit_of button * 8 + k)

transition_form :
    (kind : ℕ) (name : Option String) (mask : ℕ)
    → kind ≤ 7
    → transition_mask kind name ≡ some mask
    → (button : MouseButton) × (mask ≡ bit_of button * 8 + kind)
unfolding transition_mask
transition_form kind none mask k h = ground (arith, h)
transition_form kind (some name) mask k h = elim (Option-cases (button_bits name)) [
  | inl e ↦ absurd (ground (arith, h, e))
  | inr (bits, e) ↦
      let (button, f) = named_button name bits e in
      (button, ground (arith, h, e, f, or_high 3 kind bits (omega (arith, k))))
]

pressed :
    (k : ℕ) (name : Option String) (mask : ℕ)
    → (k ≡ 1) ⊎ (k ≡ 2)
    → transition_mask k name ≡ some mask
    → Presses mask
unfolding Presses
pressed k name mask c h =
    let (button, e) = transition_form k name mask (ground (arith, c)) h in (button, k, c, e)

mask_form :
    (kind : String) (name : Option String) (mask : ℕ)
    → mask_of kind name ≡ some mask
    → Sends mask ⊎ Presses mask
unfolding mask_of Sends
mask_form kind name mask h = elim (Bool-cases (str_eq kind "move" || str_eq kind "mousemove")) [
  | inl a ↦ inl (0, inl refl, ground (arith, h, a))
  | inr a ↦ elim (Bool-cases (str_eq kind "down" || str_eq kind "mousedown")) [
    | inl b ↦ inr (pressed 1 name mask (inl refl) (ground (arith, h, a, b)))
    | inr b ↦ elim (Bool-cases (str_eq kind "up" || str_eq kind "mouseup")) [
      | inl c ↦ inr (pressed 2 name mask (inr refl) (ground (arith, h, a, b, c)))
      | inr c ↦ elim (Bool-cases (str_eq kind "wheel")) [
        | inl d ↦ inl (3, inr (inl refl), ground (arith, h, a, b, c, d))
        | inr d ↦ elim (Bool-cases (str_eq kind "trackpad")) [
          | inl f ↦ inl (4, inr (inr (inl refl)), ground (arith, h, a, b, c, d, f))
          | inr f ↦ inl (5, inr (inr (inr refl)), ground (arith, h, a, b, c, d, f))
        ]
      ]
    ]
  ]
]

wheel-IsStep : (event : MouseEvent) → IsStep event.x event.y → IsStep (neg event.x) event.y
wheel-IsStep event p = omega (arith, unsigned_abs-neg event.x, p)

-- Each such mask means an action when the coordinates are small.
Sends-Means :
    (event : MouseEvent) (mask : ℕ)
    → event.mask ≡ pos mask
    → IsStep event.x event.y
    → Sends mask ⊎ Presses mask
    → (action : MouseAction) × Means event action
unfolding Sends Presses Means
Sends-Means event mask e p (inl (k, inl c, f)) = (
  move_absolute event.x event.y,
  (0, omega arith, rw (e, f, c) refl, refl, refl, (omega (arith, p), omega (arith, p))),
)
Sends-Means event mask e p (inl (k, inr (inl c), f)) = (
  wheel (neg event.x) event.y,
  (0, omega arith, inl (rw (e, f, c) refl), sym (neg-neg event.x), refl, wheel-IsStep event p),
)
Sends-Means event mask e p (inl (k, inr (inr (inl c)), f)) = (
  wheel (neg event.x) event.y,
  (0, omega arith, inr (rw (e, f, c) refl), sym (neg-neg event.x), refl, wheel-IsStep event p),
)
Sends-Means event mask e p (inl (k, inr (inr (inr c)), f)) =
    (move_relative event.x event.y, (0, omega arith, rw (e, f, c) refl, refl, refl, p))
Sends-Means event mask e p (inr (button, k, inl c, f)) =
    (button_down button, (rw (e, f, c) refl, (omega (arith, p), omega (arith, p))))
Sends-Means event mask e p (inr (button, k, inr c, f)) =
    (button_up button, (rw (e, f, c) refl, (omega (arith, p), omega (arith, p))))

-- The mask of an event that the adapter makes.
event_mask :
    (json : Json) (payload : json.Value) (event : MouseEvent)
    → mouse_event_from_json json payload ≡ some event
    → (kind : String) × (name : Option String) × (mask : ℕ) × (mask_of kind name ≡ some mask)
      × (event.mask ≡ pos mask)
unfolding mouse_event_from_json
event_mask json payload event h =
    elim (Option-cases (and_then (json.get payload "type") json.as_str)) [
      | inl a ↦ absurd (ground (arith, h, a))
      | inr (kind, a) ↦
          let name = and_then (json.get payload "buttons") json.as_str in
          elim (Option-cases (mask_of kind name)) [
            | inl b ↦ absurd (ground (arith, h, a, b))
            | inr (mask, b) ↦ (kind, name, mask, b, ground (arith, h, a, b))
          ]
    ]

-- A payload that the adapter accepts, with coordinates of at most 16,384, is never dropped by the
-- controlled side as malformed: its event decodes to an action.
pub decode_mouse-mouse_event_from_json :
    (json : Json) (payload : json.Value) (event : MouseEvent)
    → mouse_event_from_json json payload ≡ some event
    → IsStep event.x event.y
    → (action : MouseAction) × (decode_mouse event ≡ some action)
decode_mouse-mouse_event_from_json json payload event h p =
    let (kind, name, mask, a, b) = event_mask json payload event h in
    let (action, q) = Sends-Means event mask b p (mask_form kind name mask a) in
    (action, mouse_complete event action q)

masked : (m : ℕ) (event : MouseEvent) → event.mask ≡ pos m → pointer_of event ≡ some (m % 8, m / 8)
unfolding pointer_of shr to_u32 is_negative unsigned_abs
masked m event e = rw (e, and_mask 3 m) refl

-- When the adapter makes an event, the pair that `decode_pointer` sends splits the event's mask without
-- loss: the kind is the three low bits, the button the rest.
pub decode_pointer-mouse_event_from_json :
    (json : Json) (payload : json.Value) (event : MouseEvent)
    → mouse_event_from_json json payload ≡ some event
    → (kind : ℕ) × (button : ℕ) × (decode_pointer json payload ≡ some (kind, button))
      × (event.mask ≡ pos (button * 8 + kind))
      × (kind ≤ 7)
unfolding decode_pointer
decode_pointer-mouse_event_from_json json payload event h =
    let (_, _, mask, _, b) = event_mask json payload event h in
    (mask % 8, mask / 8, rw h (masked mask event b), b ∙ ap pos (omega arith), omega arith)
