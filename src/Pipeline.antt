-- ===== src/Pipeline.antt =====
-- internal/wheelengine/ffb_pipeline.go: the tuning of the signal and its normalization.
pub mod State
pub mod Frame
pub mod Advanced
pub mod Tuning
pub mod Bounds
pub mod Runs
pub mod Invalid
pub mod Stuck
mod Examples
use logi_mate.Base.{Bool, true, false, not, ◌&&◌, ◌||◌, if◌then◌else◌, ℕ, ◌≡◌, refl}
use logi_mate.Base.Int.{ℤ}
use logi_mate.Base.Results.{Result, ok, err}
use logi_mate.Base.Float.{
  Float64, num, zero_f, eq_f, is_finite, of_ℤ, ◌/f◌, clamp, ratio, round_mag, round_to_even, digits,
}
use logi_mate.Protocol.Torque.{one_f}

pub record FfbTuning : Type 0 where
  pub enabled : Bool
  pub constant_gain : Float64
  pub transient_gain : Float64
  pub deadband : Float64
  pub minimum_force : Float64
  pub response_exponent : Float64
  pub low_pass_hz : Float64
  pub smoothing : Float64
  pub output_limit : Float64

abbrev pub default_ffb_tuning : FfbTuning
default_ffb_tuning = record {
  enabled = true;
  constant_gain = one_f;
  transient_gain = one_f;
  deadband = zero_f;
  minimum_force = zero_f;
  response_exponent = one_f;
  low_pass_hz = zero_f;
  smoothing = zero_f;
  output_limit = one_f;
}

-- The decimal constants of the ranges, each rounded once.
abbrev pub tenth_f : Float64
tenth_f = num false 0x3FB999999999999A

abbrev pub fifth_f : Float64
fifth_f = num false 0x3FC999999999999A

abbrev pub half_f : Float64
half_f = num false 0x3FE0000000000000

abbrev pub nine_tenths_f : Float64
nine_tenths_f = num false 0x3FECCCCCCCCCCCCD

abbrev pub gain_f : Float64
gain_f = num false 0x3FF8000000000000

abbrev pub two_f : Float64
two_f = num false 0x4000000000000000

abbrev pub five_f : Float64
five_f = num false 0x4014000000000000

abbrev pub hundred_f : Float64
hundred_f = num false 0x4059000000000000

-- `float64(n) / 100`
abbrev pub percent_f : ℤ → Float64
percent_f n = of_ℤ n /f hundred_f

constants_lem :
    (ratio 1 10 ≡ tenth_f)
    × (ratio 20 100 ≡ fifth_f)
    × (ratio 50 100 ≡ half_f)
    × (ratio 90 100 ≡ nine_tenths_f)
    × (ratio 15 10 ≡ gain_f)
    × (ratio 2 1 ≡ two_f)
    × (ratio 5 1 ≡ five_f)
    × (ratio 100 1 ≡ hundred_f)
unfolding ratio round_mag round_to_even digits
constants_lem = (refl, refl, refl, refl, refl, refl, refl, refl)

-- All values of a tuning are finite; Go asks them in the order of a map, which is any.
unfoldable pub all_finite : FfbTuning → Bool
all_finite t =
    is_finite t.constant_gain
    && is_finite t.transient_gain
    && is_finite t.deadband
    && is_finite t.minimum_force
    && is_finite t.response_exponent
    && is_finite t.low_pass_hz
    && is_finite t.smoothing
    && is_finite t.output_limit

-- `if v == 0 { v = 1 }`
abbrev pub or_one : Float64 → Float64
or_one v = if eq_f v zero_f then one_f else v

pub data TuningError : Type 0 where
  not_finite : TuningError

unfoldable pub ranged : FfbTuning → FfbTuning
ranged t = record t {
  constant_gain = clamp t.constant_gain zero_f gain_f;
  transient_gain = clamp t.transient_gain zero_f gain_f;
  deadband = clamp t.deadband zero_f fifth_f;
  minimum_force = clamp t.minimum_force zero_f fifth_f;
  response_exponent = clamp (or_one t.response_exponent) half_f two_f;
  low_pass_hz =
      if eq_f t.low_pass_hz zero_f then t.low_pass_hz else clamp t.low_pass_hz five_f hundred_f;
  smoothing = clamp t.smoothing zero_f nine_tenths_f;
  output_limit = clamp (or_one t.output_limit) tenth_f one_f;
}

unfoldable pub normalize_ffb_tuning : FfbTuning → Result TuningError FfbTuning
normalize_ffb_tuning t =
    if not t.enabled
    then ok (record default_ffb_tuning { enabled = false })
    else if all_finite t
    then ok (ranged t)
    else err not_finite
