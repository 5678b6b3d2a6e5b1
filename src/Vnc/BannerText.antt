-- ===== src/Vnc/BannerText.antt =====
-- crates/rd-engine/src/vnc/mod.rs: a banner of ASCII bytes is taken or refused.
use rust_desk_enhanced.Prelude.{
  ℕ, zero, suc, ◌+◌, ◌-◌, ◌<◌, ◌≤◌, true, not, ◌&&◌, ◌||◌, Option, none, some, List, [], ◌∷◌,
  length, take, drop, get_or, ltb, leb, ◌==◌, Result, ok, err, ◌≡◌, ◌≢◌, refl, arith, All, if-both,
  length-take, length-drop, All-drop, sym,
}
use rust_desk_enhanced.Vnc.{VncError, panic}
use mathlib.Core.Path.{subst}
use rust_desk_enhanced.Vnc.Banner.{
  Utf8, slice, starts_with, ends_with, parse_u32, numbers_of, parse_slices, checked_version,
  parse_version, parse_banner,
}

-- A result that is no panic.
abbrev IsCaught : VncError → Type 0
IsCaught panic = ⊥
IsCaught e = Unit {0}

unfoldable Calm : {A : Type 0} → Result VncError A → Type 0
Calm (ok a) = Unit {0}
Calm (err e) = IsCaught e

abbrev pub IsAscii : ℕ → Type 0
IsAscii b = b < 128

ascii : (i : ℕ) (text : List ℕ) → All IsAscii text → get_or text i 0 < 128
ascii i [] a = omega arith
ascii zero (b ∷ text) (h, a) = h
ascii (suc i) (b ∷ text) (h, a) = ascii i text a

boundary :
    (i n b : ℕ) → b < 128 → i ≤ n → (i == n || (ltb i n && not (leb 128 b && ltb b 192))) ≡ true
boundary i n b h k = ground (arith, h, k)

-- A slice of ASCII text within its length is there, and is ASCII text of that length.
ascii_slice :
    (text : List ℕ) (from to : ℕ)
    → All IsAscii text
    → from ≤ to
    → to ≤ length text
    → slice text from to ≡ some (take (to - from) (drop from text))
unfolding slice
ascii_slice text from to a h k =
    rw
      (
        boundary from (length text) (get_or text from 0) (ascii from text a) (omega (arith, h, k)),
        boundary to (length text) (get_or text to 0) (ascii to text a) k,
      )
      refl

numbers_of-Calm : (m n : Option ℕ) → Calm (numbers_of m n)
unfolding numbers_of Calm
numbers_of-Calm none n = tt
numbers_of-Calm (some m) none = tt
numbers_of-Calm (some m) (some n) = tt

checked_version-Calm :
    (version : List ℕ) (r : Result VncError (ℕ × ℕ)) → Calm r → Calm (checked_version version r)
unfolding checked_version Calm
checked_version-Calm version (err e) c = c
checked_version-Calm version (ok (major, minor)) c = if-both Calm (major == 3) (λ _. tt) (λ _. tt)

take-IsAscii : (n : ℕ) (text : List ℕ) → All IsAscii text → All IsAscii (take n text)
take-IsAscii zero text a = tt
take-IsAscii (suc n) [] a = tt
take-IsAscii (suc n) (b ∷ text) (h, a) = (h, take-IsAscii n text a)

length-take-drop :
    (n d : ℕ) (text : List ℕ) → n + d ≤ length text → length (take n (drop d text)) ≡ n
length-take-drop n d text h = omega (arith, length-take n (drop d text), length-drop d text, h)

parse_version-Calm :
    (version : List ℕ)
    → length version ≡ 7
    → All IsAscii version
    → Calm (parse_version (some version))
unfolding parse_version parse_slices
parse_version-Calm version l a = checked_version-Calm version _ (
    rw
      (
        ascii_slice version 0 3 a (omega arith) (omega (arith, l)),
        ascii_slice version 4 7 a (omega arith) (omega (arith, l)),
      )
      (numbers_of-Calm (parse_u32 (take 3 version)) (parse_u32 (take 3 (drop 4 version)))))

parse_banner-Calm : (text : List ℕ) → length text ≡ 12 → All IsAscii text → Calm (parse_banner text)
unfolding parse_banner Calm
parse_banner-Calm text l a =
    if-both Calm (not (starts_with (82 ∷ 70 ∷ 66 ∷ 32 ∷ []) text) || not (ends_with 10 text))
      (λ _. tt)
      (λ _.
        subst (λ v. Calm (parse_version v))
          (sym (ascii_slice text 4 11 a (omega arith) (omega (arith, l))))
          (parse_version-Calm (take 7 (drop 4 text)) (length-take-drop 7 4 text (omega (arith, l)))
            (take-IsAscii 7 (drop 4 text) (All-drop IsAscii 4 text a))))

not_panic : {A : Type 0} (r : Result VncError A) → Calm r → r ≢ err panic
unfolding Calm
not_panic r c e = subst Calm e c

-- A banner of twelve ASCII bytes is parsed or refused with an error: the client does not panic on it.
pub parse_banner-ascii :
    (utf8 : Utf8) (banner : List ℕ)
    → length banner ≡ 12
    → All IsAscii banner
    → parse_banner (utf8.lossy banner) ≢ err panic
parse_banner-ascii utf8 banner l a =
    subst (λ t. parse_banner t ≢ err panic) (sym (utf8.lossy-ascii banner a))
      (not_panic (parse_banner banner) (parse_banner-Calm banner l a))
