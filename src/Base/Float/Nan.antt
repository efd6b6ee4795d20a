-- ===== src/Base/Float/Nan.antt =====
-- internal/wheelengine/native_protocol.go, Clamp, and the operations of float64: what a NaN does to
-- them. No comparison with a NaN holds.
use mathlib.Core.Path.{◌≡◌, refl}
use mathlib.Core.Bool.{false}
use logi_mate.Base.Float.{Float64, nan, num, lt_f, clamp, ◌+f◌, ◌-f◌, ◌*f◌, ◌/f◌}

pub add_nan : (a : Float64) → a +f nan ≡ nan
unfolding ◌+f◌
add_nan nan = refl
add_nan (num s m) = refl

pub mul_nan : (a : Float64) → a *f nan ≡ nan
unfolding ◌*f◌
mul_nan nan = refl
mul_nan (num s m) = refl

pub lt_nan : (a : Float64) → lt_f a nan ≡ false
lt_nan nan = refl
lt_nan (num s m) = refl

pub clamp_nan : (lo hi : Float64) → clamp nan lo hi ≡ nan
unfolding clamp
clamp_nan lo hi = rw (lt_nan hi) refl

-- A NaN on the left side, whatever the right side is.
pub nan_add : (a : Float64) → nan +f a ≡ nan
unfolding ◌+f◌
nan_add a = refl

pub nan_sub : (a : Float64) → nan -f a ≡ nan
unfolding ◌-f◌ ◌+f◌
nan_sub a = refl

pub nan_mul : (a : Float64) → nan *f a ≡ nan
unfolding ◌*f◌
nan_mul a = refl

pub nan_div : (a : Float64) → nan /f a ≡ nan
unfolding ◌/f◌
nan_div a = refl
