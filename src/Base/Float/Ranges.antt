-- ===== src/Base/Float/Ranges.antt =====
-- Clamp of internal/wheelengine/native_protocol.go: the order of float64, and the range of a clamped
-- value.
use mathlib.Core.Path.{◌≡◌, refl}
use mathlib.Core.Bool.{true, false}
use mathlib.Core.Logic.{inl, inr}
use native.Mathlib.Omega.{arith}
use logi_mate.Base.Tests.{Bool-cases}
use logi_mate.Base.Float.{Float64, nan, num, is_nan, is_finite, lt_f, le_f, clamp}

abbrev pub Within : Float64 → Float64 → Float64 → Type 0
Within lo hi v = (le_f lo v ≡ true) × (le_f v hi ≡ true)

total : (a b : Float64) → is_nan a ≡ false → is_nan b ≡ false → lt_f a b ≡ false → le_f b a ≡ true
total nan b h h' k = ground arith
total (num s m) nan h h' k = ground arith
total (num false m) (num false n) h h' k = ground arith
total (num true m) (num true n) h h' k = ground arith
total (num false m) (num true n) h h' k = ground arith
total (num true m) (num false n) h h' k = ground arith

asym : (a b : Float64) → le_f b a ≡ true → lt_f a b ≡ false
asym nan b k = refl
asym (num s m) nan k = refl
asym (num false m) (num false n) k = ground arith
asym (num true m) (num true n) k = ground arith
asym (num false m) (num true n) k = ground arith
asym (num true m) (num false n) k = ground arith

le_refl : (a : Float64) → is_nan a ≡ false → le_f a a ≡ true
le_refl nan h = ground arith
le_refl (num false m) h = ground arith
le_refl (num true m) h = ground arith

pub clamp-Within :
    (v lo hi : Float64)
    → is_nan v ≡ false
    → is_nan lo ≡ false
    → is_nan hi ≡ false
    → le_f lo hi ≡ true
    → Within lo hi (clamp v lo hi)
unfolding clamp
clamp-Within v lo hi h l u order = elim (Bool-cases (lt_f v lo)) [
  | inl p ↦ rw p (le_refl lo l, order)
  | inr p ↦ elim (Bool-cases (lt_f hi v)) [
    | inl q ↦ rw (p, q) (order, le_refl hi u)
    | inr q ↦ rw (p, q) (total v lo h l p, total hi v u h q)
  ]
]

pub clamp_id : (v lo hi : Float64) → Within lo hi v → clamp v lo hi ≡ v
unfolding clamp
clamp_id v lo hi (above, below) = rw (asym v lo above, asym hi v below) refl

-- A value that is no NaN stays so: it is below infinity, or above it.
pub finite_number : (v : Float64) → is_finite v ≡ true → is_nan v ≡ false
finite_number nan h = ground arith
finite_number (num s m) h = refl

pub Within_number : (v lo hi : Float64) → Within lo hi v → is_nan v ≡ false
Within_number nan nan hi (above, below) = ground arith
Within_number nan (num s m) hi (above, below) = ground arith
Within_number (num s m) lo hi w = refl

-- A range between finite bounds has finite values.
pub Within_finite :
    (v lo hi : Float64)
    → is_finite lo ≡ true
    → is_finite hi ≡ true
    → Within lo hi v
    → is_finite v ≡ true
Within_finite nan nan hi l h (above, below) = ground arith
Within_finite nan (num s m) hi l h (above, below) = ground arith
Within_finite (num s m) nan hi l h (above, below) = ground arith
Within_finite (num s m) (num t n) nan l h (above, below) = ground arith
Within_finite (num false m) (num t n) (num false k) l h (above, below) = ground arith
Within_finite (num false m) (num t n) (num true k) l h (above, below) = ground arith
Within_finite (num true m) (num false n) (num u k) l h (above, below) = ground arith
Within_finite (num true m) (num true n) (num u k) l h (above, below) = ground arith
