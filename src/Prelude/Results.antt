-- ===== src/Prelude/Results.antt =====
-- A Rust `Result`, and the two monads of fallible code.
use mathlib.Core.Path.{◌≡◌, refl, subst}
use mathlib.Core.Bool.{Bool, true, false}
use mathlib.Core.Option.{Option, none, some}
use mathlib.Core.Logic.{◌⊎◌, inl, inr}

pub data Result {ℓ} (E A : Type ℓ) : Type ℓ where
  ok : A → Result E A
  err : E → Result E A

abbrev pub is_err {ℓ} : {E A : Type ℓ} → Result E A → Bool
is_err (ok a) = false
is_err (err e) = true

abbrev pub map_ok {ℓ} : {E A B : Type ℓ} → (A → B) → Result E A → Result E B
map_ok f (ok a) = ok (f a)
map_ok f (err e) = err e

abbrev pub map_option {ℓ} : {A B : Type ℓ} → (A → B) → Option A → Option B
map_option f none = none
map_option f (some a) = some (f a)

-- The `?` of an `Option`.
abbrev pub and_then {ℓ} : {A B : Type ℓ} → Option A → (A → Option B) → Option B
and_then none f = none
and_then (some a) f = f a

-- The `?` of a `Result`.
abbrev pub and_then_ok {ℓ} : {E A B : Type ℓ} → Result E A → (A → Result E B) → Result E B
and_then_ok (err e) f = err e
and_then_ok (ok a) f = f a

pub Result-cases {ℓ} :
    {E A : Type ℓ} (r : Result E A) → ((a : A) × (r ≡ ok a)) ⊎ ((e : E) × (r ≡ err e))
Result-cases (ok a) = inl (a, refl)
Result-cases (err e) = inr (e, refl)

-- What holds of a result when there is one.
unfoldable pub OnOk {ℓ} : {E A : Type ℓ} → (A → Type ℓ) → Result E A → Type ℓ
OnOk P (ok a) = P a
OnOk P (err e) = Unit {ℓ}

pub OnOk-ok {ℓ} :
    {E A : Type ℓ} (P : A → Type ℓ) (r : Result E A) (a : A) → OnOk P r → r ≡ ok a → P a
unfolding OnOk
OnOk-ok P r a p e = subst (OnOk P) e p

pub OnOk-and_then_ok {ℓ} :
    {E A B : Type ℓ} (P : A → Type ℓ) (Q : B → Type ℓ) (r : Result E A) (f : A → Result E B)
    → OnOk P r
    → ((a : A) → P a → OnOk Q (f a))
    → OnOk Q (and_then_ok r f)
unfolding OnOk
OnOk-and_then_ok P Q (ok a) f p q = q a p
OnOk-and_then_ok P Q (err e) f p q = tt

pub OnOk-map_ok {ℓ} :
    {E A B : Type ℓ} (P : A → Type ℓ) (Q : B → Type ℓ) (r : Result E A) (f : A → B)
    → OnOk P r
    → ((a : A) → P a → Q (f a))
    → OnOk Q (map_ok f r)
unfolding OnOk
OnOk-map_ok P Q (ok a) f p q = q a p
OnOk-map_ok P Q (err e) f p q = tt

-- A result of which nothing is known.
pub OnOk-any {ℓ} : {E A : Type ℓ} (r : Result E A) → OnOk (λ a. Unit {ℓ}) r
unfolding OnOk
OnOk-any (ok a) = tt
OnOk-any (err e) = tt

pub OnOk-implies {ℓ} :
    {E A : Type ℓ} (P Q : A → Type ℓ) (r : Result E A) → OnOk P r → ((a : A) → P a → Q a) → OnOk Q r
unfolding OnOk
OnOk-implies P Q (ok a) p q = q a p
OnOk-implies P Q (err e) p q = tt
