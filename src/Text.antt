-- ===== src/Text.antt =====
-- Strings as their code points, and the parsing of numbers as Rust's standard library does it.
use Prim.Native.String.{String}
use Prim.Native.Char.{code}
use rust_desk_enhanced.Prelude.{
  ℕ, ◌+◌, ◌-◌, ◌*◌, Bool, ◌&&◌, ◌||◌, Option, none, some, and_then, List, [], ◌∷◌, ltb, leb, ◌==◌,
  if◌then◌else◌, ℤ, pos, negsuc, neg,
}

abbrev pub chars : String → List ℕ
chars String.[] = []
chars (String.◌∷◌ c s) = code c ∷ chars s

-- `char::is_whitespace`
abbrev pub is_whitespace : ℕ → Bool
is_whitespace c =
    (leb 0x9 c && leb c 0xD)
    || (c == 0x20)
    || (c == 0x85)
    || (c == 0xA0)
    || (c == 0x1680)
    || (leb 0x2000 c && leb c 0x200A)
    || (c == 0x2028)
    || (c == 0x2029)
    || (c == 0x202F)
    || (c == 0x205F)
    || (c == 0x3000)

unfoldable pub trim_start : List ℕ → List ℕ
trim_start [] = []
trim_start (c ∷ cs) = let rest = trim_start cs in if is_whitespace c then rest else c ∷ cs

unfoldable pub keep_end : ℕ → List ℕ → List ℕ
keep_end c [] = if is_whitespace c then [] else c ∷ []
keep_end c (d ∷ ds) = c ∷ d ∷ ds

unfoldable pub trim_end : List ℕ → List ℕ
trim_end [] = []
trim_end (c ∷ cs) = keep_end c (trim_end cs)

-- Decimal digits, the first being `c`.
unfoldable pub parse_digits : ℕ → ℕ → List ℕ → Option ℕ
parse_digits acc c [] = if leb 0x30 c && leb c 0x39 then some (acc * 10 + (c - 0x30)) else none
parse_digits acc c (d ∷ ds) =
    let rest = parse_digits (acc * 10 + (c - 0x30)) d ds in
    if leb 0x30 c && leb c 0x39 then rest else none

unfoldable pub parse_nat : List ℕ → Option ℕ
parse_nat [] = none
parse_nat (c ∷ cs) = parse_digits 0 c cs

-- A conversion to a signed type whose values lie from `-limit` up to, but not including, `limit`.
unfoldable pub int_try_from : ℕ → ℤ → Option ℤ
int_try_from limit (pos n) = if ltb n limit then some (pos n) else none
int_try_from limit (negsuc n) = if ltb n limit then some (negsuc n) else none

-- `parse` into such a type: a sign, then digits, within the range.
unfoldable pub parse_int : ℕ → List ℕ → Option ℤ
parse_int limit [] = none
parse_int limit (c ∷ cs) =
    if c == 0x2D
    then and_then (parse_nat cs) (λ n. int_try_from limit (neg (pos n)))
    else if c == 0x2B
    then and_then (parse_nat cs) (λ n. int_try_from limit (pos n))
    else and_then (parse_nat (c ∷ cs)) (λ n. int_try_from limit (pos n))

nat_below : ℕ → ℕ → Option ℕ
nat_below limit n = if ltb n limit then some n else none

-- `parse` into an unsigned type: an optional `+`, then digits, below the limit.
unfoldable pub parse_unsigned : ℕ → List ℕ → Option ℕ
unfolding nat_below
parse_unsigned limit [] = none
parse_unsigned limit (c ∷ cs) =
    if c == 0x2B
    then and_then (parse_nat cs) (nat_below limit)
    else and_then (parse_nat (c ∷ cs)) (nat_below limit)

-- `split(separator)`: the first part, and those that follow it.
unfoldable pub split : ℕ → List ℕ → List ℕ × List (List ℕ)
split separator [] = ([], [])
split separator (c ∷ cs) =
    let (first, rest) = split separator cs in
    if c == separator then ([], first ∷ rest) else (c ∷ first, rest)
