-- ===== src/Vnc/Banner.antt =====
-- crates/rd-engine/src/vnc/mod.rs: the version banner. A text is its UTF-8 bytes; `from_utf8_lossy` comes from outside.
use rust_desk_enhanced.Prelude.{
  ℕ, ◌+◌, ◌-◌, ◌*◌, ◌<◌, Bool, false, not, ◌&&◌, ◌||◌, Option, none, some, List, [], ◌∷◌, length,
  take, drop, get_or, ltb, leb, ◌==◌, if◌then◌else◌, Result, ok, err, bytes_eq, ◌≡◌, All,
}
use rust_desk_enhanced.Vnc.{VncError, protocol, panic}

-- `String::from_utf8_lossy`, which leaves ASCII as it is.
pub record Utf8 : Type 0 where
  pub lossy : List ℕ → List ℕ
  pub lossy-ascii : (bytes : List ℕ) → All (λ b. b < 128) bytes → lossy bytes ≡ bytes

-- `text[from..to]` panics past the end and inside a character.
abbrev is_continuation : ℕ → Bool
is_continuation b = leb 128 b && ltb b 192

abbrev is_char_boundary : List ℕ → ℕ → Bool
is_char_boundary text i =
    i == length text || (ltb i (length text) && not (is_continuation (get_or text i 0)))

unfoldable pub slice : List ℕ → ℕ → ℕ → Option (List ℕ)
slice text from to =
    if is_char_boundary text from && is_char_boundary text to
    then some (take (to - from) (drop from text))
    else none

unfoldable pub starts_with : List ℕ → List ℕ → Bool
starts_with prefix text = bytes_eq (take (length prefix) text) prefix

unfoldable pub ends_with : ℕ → List ℕ → Bool
ends_with b [] = false
ends_with b (c ∷ []) = b == c
ends_with b (c ∷ d ∷ rest) = ends_with b (d ∷ rest)

abbrev is_digit : ℕ → Bool
is_digit b = leb 48 b && ltb b 58

unfoldable pub parse_digits : ℕ → List ℕ → Option ℕ
parse_digits n [] = some n
parse_digits n (b ∷ rest) =
    let later = parse_digits (n * 10 + (b - 48)) rest in if is_digit b then later else none

-- `parse::<u32>` on at most three bytes, which cannot overflow.
unfoldable pub parse_u32 : List ℕ → Option ℕ
parse_u32 [] = none
parse_u32 (b ∷ []) = parse_digits 0 (b ∷ [])
parse_u32 (b ∷ c ∷ rest) =
    if b == 43 then parse_digits 0 (c ∷ rest) else parse_digits 0 (b ∷ c ∷ rest)

-- `RFB 003.008\n` and the two older versions
abbrev pub protocol_version_3_8 : List ℕ
protocol_version_3_8 = 82 ∷ 70 ∷ 66 ∷ 32 ∷ 48 ∷ 48 ∷ 51 ∷ 46 ∷ 48 ∷ 48 ∷ 56 ∷ 10 ∷ []

abbrev pub protocol_version_3_7 : List ℕ
protocol_version_3_7 = 82 ∷ 70 ∷ 66 ∷ 32 ∷ 48 ∷ 48 ∷ 51 ∷ 46 ∷ 48 ∷ 48 ∷ 55 ∷ 10 ∷ []

abbrev pub protocol_version_3_3 : List ℕ
protocol_version_3_3 = 82 ∷ 70 ∷ 66 ∷ 32 ∷ 48 ∷ 48 ∷ 51 ∷ 46 ∷ 48 ∷ 48 ∷ 51 ∷ 10 ∷ []

-- The two numbers of a version text.
unfoldable pub numbers_of : Option ℕ → Option ℕ → Result VncError (ℕ × ℕ)
numbers_of (some major) (some minor) = ok (major, minor)
numbers_of (some major) none = err protocol
numbers_of none minor = err protocol

unfoldable pub parse_slices : Option (List ℕ) → Option (List ℕ) → Result VncError (ℕ × ℕ)
parse_slices (some major) (some minor) = numbers_of (parse_u32 major) (parse_u32 minor)
parse_slices (some major) none = err panic
parse_slices none minor = err panic

-- The version text with its minor number, when the major one is 3.
unfoldable pub checked_version : List ℕ → Result VncError (ℕ × ℕ) → Result VncError (List ℕ × ℕ)
checked_version version (err e) = err e
checked_version version (ok (major, minor)) =
    if major == 3 then ok (version, minor) else err protocol

unfoldable pub parse_version : Option (List ℕ) → Result VncError (List ℕ × ℕ)
parse_version none = err panic
parse_version (some version) =
    checked_version version (parse_slices (slice version 0 3) (slice version 4 7))

unfoldable pub parse_banner : List ℕ → Result VncError (List ℕ × ℕ)
parse_banner text =
    if not (starts_with (82 ∷ 70 ∷ 66 ∷ 32 ∷ []) text) || not (ends_with 10 text)
    then err protocol
    else parse_version (slice text 4 11)

unfoldable pub answer_to : ℕ → List ℕ
answer_to minor =
    if leb 8 minor
    then protocol_version_3_8
    else if minor == 7
    then protocol_version_3_7
    else protocol_version_3_3

-- The answer without `RFB ` and its line end.
abbrev pub version_text : List ℕ → List ℕ
version_text answer = take 7 (drop 4 answer)
