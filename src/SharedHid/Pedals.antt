-- ===== src/SharedHid/Pedals.antt =====
-- The pedals of internal/system/g27_shared_hid_windows.go and classic_shared_hid_windows.go: two ways
-- from a byte to an axis.
use logi_mate.Base.{
  ℕ, ◌+◌, ◌-◌, ◌≤◌, ◌<◌, ◌≡◌, refl, subst, Bool, true, arith, ◌==◌, holds_under, holds_under-at,
  ==_iff,
}
use native.Mathlib.Decide.{dec_lt}
use logi_mate.Base.Int.{◌-ℤ◌}
use logi_mate.Base.Float.{
  Float64, clamp, of_ℤ, of_ℕ, ratio, round_away_to_int, ◌+f◌, ◌-f◌, ◌*f◌, ◌/f◌, add_finite, digits,
  round_mag, round_to_even, units,
}
use logi_mate.SharedHid.Classic.{pedal_axis}
use logi_mate.SharedHid.Decode.{default_pedal, past_zone, normalize_native_pedal, norm01_to_axis}

-- The float route of one byte against the integer route; the exponent is 1, so there is no power.
abbrev pedal_agrees : ℕ → Bool
pedal_agrees raw =
    norm01_to_axis (normalize_native_pedal (λ t s. t) raw default_pedal) == pedal_axis raw

abbrev agrees_from : ℕ → Bool
agrees_from first = holds_under (λ n. pedal_agrees (first + n)) 64

table_0 : agrees_from 0 ≡ true
unfolding holds_under norm01_to_axis normalize_native_pedal pedal_axis past_zone ◌-ℤ◌ ◌*f◌ ◌-f◌ ◌+f◌
    ◌/f◌ add_finite clamp digits of_ℕ of_ℤ ratio round_away_to_int round_mag round_to_even units
table_0 = refl

table_64 : agrees_from 64 ≡ true
unfolding holds_under norm01_to_axis normalize_native_pedal pedal_axis past_zone ◌-ℤ◌ ◌*f◌ ◌-f◌ ◌+f◌
    ◌/f◌ add_finite clamp digits of_ℕ of_ℤ ratio round_away_to_int round_mag round_to_even units
table_64 = refl

table_128 : agrees_from 128 ≡ true
unfolding holds_under norm01_to_axis normalize_native_pedal pedal_axis past_zone ◌-ℤ◌ ◌*f◌ ◌-f◌ ◌+f◌
    ◌/f◌ add_finite clamp digits of_ℕ of_ℤ ratio round_away_to_int round_mag round_to_even units
table_128 = refl

table_192 : agrees_from 192 ≡ true
unfolding holds_under norm01_to_axis normalize_native_pedal pedal_axis past_zone ◌-ℤ◌ ◌*f◌ ◌-f◌ ◌+f◌
    ◌/f◌ add_finite clamp digits of_ℕ of_ℤ ratio round_away_to_int round_mag round_to_even units
table_192 = refl

agrees_at :
    (first raw : ℕ)
    → agrees_from first ≡ true
    → first ≤ raw
    → raw < first + 64
    → pedal_agrees raw ≡ true
agrees_at first raw table low high =
    subst (λ n. pedal_agrees n ≡ true) (omega arith)
      (holds_under-at (λ n. pedal_agrees (first + n)) 64 (raw - first) table (omega arith))

agrees : (raw : ℕ) → raw < 256 → pedal_agrees raw ≡ true
agrees raw small = elim (dec_lt raw 128) [
  | yes low ↦ elim (dec_lt raw 64) [
    | yes p ↦ agrees_at 0 raw table_0 (omega arith) (omega arith)
    | no p ↦ agrees_at 64 raw table_64 (omega arith) (omega arith)
  ]
  | no high ↦ elim (dec_lt raw 192) [
    | yes p ↦ agrees_at 128 raw table_128 (omega arith) (omega arith)
    | no p ↦ agrees_at 192 raw table_192 (omega arith) (omega arith)
  ]
]

-- With the calibration in use a pedal byte of the G27, which is taken through float64, lands on exactly
-- the axis value that the reader of the G25 and the Driving Force GT computes in integers.
pub g27_pedal-classic :
    (pow : Float64 → Float64 → Float64) (raw : ℕ)
    → raw < 256
    → norm01_to_axis (normalize_native_pedal pow raw default_pedal) ≡ pedal_axis raw
unfolding normalize_native_pedal
g27_pedal-classic pow raw small = (==_iff _ (pedal_axis raw)).0 (agrees raw small)
