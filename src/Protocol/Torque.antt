-- ===== src/Protocol/Torque.antt =====
-- internal/wheelengine/native_protocol.go: the force frame of the float pipeline, and the byte of a
-- torque. The sums and products are those of amd64, where Go does not fuse them.
use logi_mate.Base.{ℕ, ◌≤◌, ◌≡◌, refl, false, true, arith}
use logi_mate.Base.Int.{ℤ, pos, pos_part}
use logi_mate.Base.Float.{
  Float64, nan, num, ◌+f◌, ◌*f◌, of_ℕ, clamp, round_to_int, add_finite, units, round_mag,
  round_to_even, digits,
}
use logi_mate.Safety.{clamp_int}

pub record ForceFrame : Type 0 where
  pub constant : Float64
  pub spring : Float64
  pub damper : Float64
  pub transient : Float64

abbrev pub one_f : Float64
one_f = num false 0x3FF0000000000000

abbrev pub minus_one_f : Float64
minus_one_f = num true 0x3FF0000000000000

unfoldable pub resolve_force_frame : ForceFrame → Float64 → Float64
unfolding clamp ◌+f◌ ◌*f◌
resolve_force_frame f master_gain =
    clamp ((f.constant +f f.transient) *f master_gain) minus_one_f one_f

-- 128 and 127.
abbrev pub centre_f : Float64
centre_f = num false 0x4060000000000000

abbrev pub span_f : Float64
span_f = num false 0x405FC00000000000

unfoldable pub torque_to_wheel_byte : Float64 → ℕ
unfolding round_to_int clamp ◌+f◌ ◌*f◌ clamp_int
torque_to_wheel_byte torque = pos_part (
    clamp_int (round_to_int (centre_f +f clamp torque minus_one_f one_f *f span_f)) (pos 0)
      (pos 255))

constants_lem : (of_ℕ 1 ≡ one_f) × (of_ℕ 128 ≡ centre_f) × (of_ℕ 127 ≡ span_f)
unfolding of_ℕ round_mag round_to_even digits
constants_lem = (refl, refl, refl)

byte_bounded : (v : ℤ) → pos_part (clamp_int v (pos 0) (pos 255)) ≤ 255
unfolding clamp_int
byte_bounded v = ground arith

pub torque_byte_bounded : (torque : Float64) → torque_to_wheel_byte torque ≤ 255
unfolding torque_to_wheel_byte
torque_byte_bounded torque =
    byte_bounded (round_to_int (centre_f +f clamp torque minus_one_f one_f *f span_f))

-- Neither zero moves the wheel.
pub torque_byte_neutral : (sign : _) → torque_to_wheel_byte (num sign 0) ≡ 128
unfolding torque_to_wheel_byte clamp ◌+f◌ ◌*f◌ add_finite units round_mag round_to_int round_to_even
    digits
torque_byte_neutral false = refl
torque_byte_neutral true = refl

-- A torque that is not a number becomes the byte of full force to one side.
pub torque_byte_of_nan : torque_to_wheel_byte nan ≡ 0
unfolding torque_to_wheel_byte clamp ◌+f◌ ◌*f◌ round_to_int clamp_int
torque_byte_of_nan = refl
