-- ===== src/Base/Results.antt =====
-- A Go result `(value, error)`, where a non-nil error comes with no value that callers use.
use mathlib.Core.Path.{◌≡◌, refl, subst}
use mathlib.Core.Logic.{◌⊎◌, inl, inr}
use logi_mate.Base.Tests.{if◌then◌else◌}
use mathlib.Core.Bool.{Bool, true, false}

pub data Result {ℓ} (E : Type 0) (A : Type ℓ) : Type ℓ where
  ok : A → Result E A
  err : E → Result E A

infixl 5 ◌>>=◌ ◌>>◌
abbrev pub ◌>>=◌ {ℓ κ} :
    {E : Type 0} {A : Type ℓ} {B : Type κ} → Result E A → (A → Result E B) → Result E B
ok a >>= f = f a
err e >>= f = err e

abbrev pub ◌>>◌ {ℓ} : {E : Type 0} {B : Type ℓ} → Result E (Unit {0}) → Result E B → Result E B
m >> k = m >>= λ _. k

-- `if !test { return err }`
abbrev pub guard : {E : Type 0} → Bool → E → Result E (Unit {0})
guard true e = ok tt
guard false e = err e

abbrev pub is_ok {ℓ} : {E : Type 0} {A : Type ℓ} → Result E A → Bool
is_ok (ok a) = true
is_ok (err e) = false

pub Result-cases {ℓ} :
    {E : Type 0} {A : Type ℓ} (r : Result E A) → ((a : A) × (r ≡ ok a)) ⊎ ((e : E) × (r ≡ err e))
Result-cases (ok a) = inl (a, refl)
Result-cases (err e) = inr (e, refl)

-- A property of the value, if there is one; it moves along an equation to `ok`.
abbrev pub OfOk {ℓ κ} : {E : Type 0} {A : Type ℓ} → (A → Type κ) → Result E A → Type κ
OfOk P (ok a) = P a
OfOk P (err e) = Unit

pub of_ok {ℓ κ} :
    {E : Type 0} {A : Type ℓ} (P : A → Type κ) {r : Result E A} {a : A} → OfOk P r → r ≡ ok a → P a
of_ok P p e = subst (OfOk P) e p

pub OfOk-guarded {ℓ κ} :
    {E : Type 0} {A : Type ℓ} (P : A → Type κ) (t : Bool) (e : E) (r : Result E A)
    → OfOk P r
    → OfOk P (if t then err e else r)
OfOk-guarded P true e r p = tt
OfOk-guarded P false e r p = p

pub ok_injective {ℓ} :
    {E : Type 0} {A : Type ℓ} {x y : A} → ◌≡◌ {A = Result E A} (ok x) (ok y) → x ≡ y
ok_injective h = cc
