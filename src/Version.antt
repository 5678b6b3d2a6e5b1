-- ===== src/Version.antt =====
-- libs/hbb_common/src/lib.rs: version texts as numbers.
use Prim.Native.String.{String}
use rust_desk_enhanced.Prelude.{ℕ, ◌^◌, none, some, List, [], ◌∷◌, ℤ, pos, ◌+ℤ◌, ◌-ℤ◌, ◌*ℤ◌}
use rust_desk_enhanced.Text.{chars, split, parse_int}

-- `parse::<i64>().unwrap_or(0)`
unfoldable pub parse_or_zero : List ℕ → ℤ
parse_or_zero text = elim (parse_int (2 ^ 63) text) [ some z ↦ z | none ↦ pos 0 ]

-- The loop over the parts of a version: the number so far and the last part read.
unfoldable pub fold_parts : ℤ → ℤ → List (List ℕ) → ℤ × ℤ
fold_parts n last [] = (n, last)
fold_parts n last (part ∷ parts) =
    fold_parts (n *ℤ pos 1000 +ℤ parse_or_zero part) (parse_or_zero part) parts

-- The last part counts tenfold, which leaves room for the patch number.
unfoldable pub main_number : List ℕ → ℤ
main_number text =
    let (first, rest) = split 0x2E text in
    let (n, last) = fold_parts (pos 0) (pos 0) (first ∷ rest) in n -ℤ last +ℤ last *ℤ pos 10

unfoldable pub get_version_number : String → ℤ
get_version_number v =
    let (first, rest) = split 0x2D (chars v) in
    elim rest [ [] ↦ main_number first | patch ∷ more ↦ main_number first +ℤ parse_or_zero patch ]
