-- ===== src/Reference.antt =====
-- internal/openg27port/core.go: the port of OpenG27 that the native code is compared with. Clamp,
-- ForceFrame, ResolveForceFrame and TorqueToWheelByte are, word for word, those of
-- internal/wheelengine/native_protocol.go; the other functions stand here.
pub mod Reports
pub mod Profiles
pub mod Agreement
pub mod Tracker
use logi_mate.Base.{ℕ, Bool, true, false, not, ◌&&◌, ◌||◌, ◌==◌, if◌then◌else◌, List, [], ◌∷◌}
use logi_mate.Base.Int.{ℤ, pos, negsuc, pos_part, ◌+ℤ◌, ◌-ℤ◌, ltb_ℤ}
use logi_mate.Base.Float.{
  Float64, num, zero_f, neg_f, abs_f, is_nan, is_inf, lt_f, le_f, eq_f, clamp, of_ℤ, round_to_int,
  ◌+f◌, ◌-f◌, ◌*f◌, ◌/f◌,
}
use logi_mate.Safety.{clamp_int}
use logi_mate.Protocol.Torque.{one_f, minus_one_f, centre_f, span_f}
use logi_mate.Pipeline.{hundred_f}
use logi_mate.Pipeline.Frame.{math_pow}

-- SliderToForceByte; the native one has the same text.
unfoldable pub scaled_slider : ℤ → Float64
scaled_slider percent =
    if ltb_ℤ percent (pos 0)
    then centre_f +f of_ℤ percent /f hundred_f *f centre_f
    else centre_f +f of_ℤ percent /f hundred_f *f span_f

unfoldable pub float_slider_to_force_byte : ℤ → ℕ
float_slider_to_force_byte percent = pos_part (
    clamp_int (round_to_int (scaled_slider (clamp_int percent (negsuc 99) (pos 100)))) (pos 0)
      (pos 255))

unfoldable pub slider_to_force_byte_with_gain : ℤ → Float64 → ℕ
slider_to_force_byte_with_gain percent master_gain =
    let deviation = pos (float_slider_to_force_byte percent) -ℤ pos 128 in
    pos_part (clamp_int (pos 128 +ℤ round_to_int (of_ℤ deviation *f master_gain)) (pos 0) (pos 255))

pub record CenteredAxisCalibration : Type 0 where
  pub left : ℤ
  pub center : ℤ
  pub right : ℤ

abbrev pub default_centered_axis_calibration : CenteredAxisCalibration
default_centered_axis_calibration = record { left = pos 0; center = pos 0x8000; right = pos 0xFFFF }

abbrev same_sign : Float64 → Float64 → Bool
same_sign a b =
    if eq_f a zero_f || eq_f b zero_f
    then false
    else (if lt_f zero_f a then lt_f zero_f b else not (lt_f zero_f b))

unfoldable pub normalize_axis : CenteredAxisCalibration → ℕ → Float64 → Float64
normalize_axis c raw deadzone =
    let diff = of_ℤ (pos raw -ℤ c.center) in
    let toward_right = of_ℤ (c.right -ℤ c.center) in
    let toward_left = of_ℤ (c.left -ℤ c.center) in
    let t =
      if not (eq_f toward_right zero_f) && same_sign diff toward_right
      then diff /f toward_right
      else if not (eq_f toward_left zero_f) && same_sign diff toward_left
      then neg_f diff /f toward_left
      else zero_f in
    let cut = clamp t minus_one_f one_f in
    let zone = if lt_f deadzone zero_f then zero_f else deadzone in
    if le_f (abs_f cut) zone then zero_f else cut

pub record PedalCalibration : Type 0 where
  pub rest : ℤ
  pub pressed : ℤ
  pub sensitivity : Float64
  pub deadzone : Float64

abbrev pub default_pedal_calibration : PedalCalibration
default_pedal_calibration = record {
  rest = pos 0xFF;
  pressed = pos 0;
  sensitivity = one_f;
  deadzone = zero_f;
}

abbrev eq_ℤ : ℤ → ℤ → Bool
eq_ℤ a b = not (ltb_ℤ a b) && not (ltb_ℤ b a)

-- 0.999999
abbrev widest_zone_f : Float64
widest_zone_f = num false 0x3FEFFFFDE7210BE9

-- The part of the pedal's way behind its deadzone.
unfoldable pub behind_zone : Float64 → Float64 → Float64
behind_zone zone t =
    if not (lt_f zero_f zone)
    then t
    else if le_f t zone
    then zero_f
    else clamp ((t -f zone) /f (one_f -f zone)) zero_f one_f

abbrev sensitivity_or_one : Float64 → Float64
sensitivity_or_one s = if le_f s zero_f || is_nan s || is_inf s then one_f else s

-- `math.Pow` of a t that is 0 and an exponent above 0 is 0.
unfoldable pub normalize_pedal : (Float64 → Float64 → Float64) → PedalCalibration → ℕ → Float64
normalize_pedal pow c raw =
    let way = of_ℤ (pos raw -ℤ c.rest) /f of_ℤ (c.pressed -ℤ c.rest) in
    let zone = clamp c.deadzone zero_f widest_zone_f in
    let t = behind_zone zone (clamp way zero_f one_f) in
    let s = sensitivity_or_one c.sensitivity in
    if eq_ℤ c.rest c.pressed
    then zero_f
    else if eq_f s one_f
    then t
    else if eq_f t zero_f
    then zero_f
    else math_pow pow t s

pub record RangeTracker : Type 0 where
  pub has_data : Bool
  pub least : ℤ
  pub greatest : ℤ

unfoldable pub add_sample : RangeTracker → ℤ → RangeTracker
add_sample r sample =
    if not r.has_data
    then (record { has_data = true; least = sample; greatest = sample })
    else (record r {
      least = if ltb_ℤ sample r.least then sample else r.least;
      greatest = if ltb_ℤ r.greatest sample then sample else r.greatest;
    })

abbrev pub reset_tracker : RangeTracker
reset_tracker = record { has_data = false; least = pos 0; greatest = pos 0 }

unfoldable pub add_samples : RangeTracker → List ℤ → RangeTracker
add_samples r [] = r
add_samples r (x ∷ xs) = add_samples (add_sample r x) xs
