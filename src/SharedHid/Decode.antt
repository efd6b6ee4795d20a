-- ===== src/SharedHid/Decode.antt =====
-- internal/system/native_input_defaults_windows.go, and parseG27NativeReport of
-- g27_shared_hid_windows.go: the axes of a G27 report by the stored calibration. `pow` is math.Pow.
use logi_mate.Base.{ℕ, Bool, true, false, not, ◌&&◌, Option, none, some, List, if◌then◌else◌}
use logi_mate.Base.Int.{ℤ, pos, pos_part, ◌-ℤ◌, ltb_ℤ}
use logi_mate.Base.Float.{
  Float64, nan, num, zero_f, neg_f, abs_f, lt_f, le_f, eq_f, clamp, of_ℤ, of_ℕ, ratio,
  round_away_to_int, ◌+f◌, ◌-f◌, ◌*f◌, ◌/f◌,
}
use logi_mate.Base.Text.{codes}
use logi_mate.Base.Results.{ok, err}
use logi_mate.Model.{g27}
use logi_mate.Input.{NativeInputReport, parse_native_input_report}
use logi_mate.Protocol.Torque.{one_f, minus_one_f}
use logi_mate.SharedHid.State.{direct_hid_name, JoyState, zero_joy}
use logi_mate.SharedHid.Classic.{pov_of}

pub record NativeAxisCalibration : Type 0 where
  pub left : ℤ
  pub center : ℤ
  pub right : ℤ

pub record NativePedalCalibration : Type 0 where
  pub rest : ℤ
  pub pressed : ℤ
  pub sensitivity : Float64
  pub deadzone : Float64

pub record NativeInputDefaults : Type 0 where
  pub steering : NativeAxisCalibration
  pub throttle : NativePedalCalibration
  pub brake : NativePedalCalibration
  pub clutch : NativePedalCalibration
  pub deadzone : Float64

abbrev pub default_pedal : NativePedalCalibration
default_pedal = record { rest = pos 0xFF; pressed = pos 0; sensitivity = one_f; deadzone = zero_f }

-- 0.02
unfoldable pub default_native_input_defaults : NativeInputDefaults
default_native_input_defaults = record {
  steering = record { left = pos 0; center = pos 0x8000; right = pos 0xFFFF };
  throttle = default_pedal;
  brake = default_pedal;
  clutch = default_pedal;
  deadzone = ratio 2 100;
}

-- math.Signbit; that of a NaN is never asked for.
abbrev sign_bit : Float64 → Bool
sign_bit nan = false
sign_bit (num s m) = s

abbrev same_bit : Bool → Bool → Bool
same_bit true b = b
same_bit false b = not b

unfoldable pub normalize_native_steering : ℕ → NativeAxisCalibration → Float64 → Float64
unfolding ◌/f◌ of_ℤ clamp
normalize_native_steering raw c deadzone =
    let diff = of_ℤ (pos raw -ℤ c.center) in
    let right = of_ℤ (c.right -ℤ c.center) in
    let left = of_ℤ (c.left -ℤ c.center) in
    let t =
      if not (eq_f right zero_f) && same_bit (sign_bit diff) (sign_bit right)
      then diff /f right
      else if not (eq_f left zero_f) && same_bit (sign_bit diff) (sign_bit left)
      then neg_f diff /f left
      else zero_f in
    let cut = clamp t minus_one_f one_f in
    if le_f (abs_f cut) (clamp deadzone zero_f one_f) then zero_f else cut

abbrev same_ℤ : ℤ → ℤ → Bool
same_ℤ a b = not (ltb_ℤ a b) && not (ltb_ℤ b a)

-- The pedal's way behind its deadzone, which is cut to 0.999.
unfoldable pub past_zone : Float64 → Float64 → Float64
unfolding ◌-f◌ ◌/f◌
past_zone dz t =
    if not (lt_f zero_f dz) then t else if le_f t dz then zero_f else (t -f dz) /f (one_f -f dz)

abbrev zone_of : Float64 → Float64
zone_of dz =
    let low = if lt_f dz zero_f then zero_f else dz in
    if le_f one_f low then ratio 999 1000 else low

unfoldable pub normalize_native_pedal :
    (Float64 → Float64 → Float64) → ℕ → NativePedalCalibration → Float64
unfolding past_zone ◌/f◌ of_ℤ clamp
normalize_native_pedal pow raw c =
    if same_ℤ c.rest c.pressed
    then zero_f
    else (let way = of_ℤ (pos raw -ℤ c.rest) /f of_ℤ (c.pressed -ℤ c.rest) in
        let t = past_zone (zone_of c.deadzone) (clamp way zero_f one_f) in
        let s = if le_f c.sensitivity zero_f then one_f else c.sensitivity in
        if eq_f s one_f then t else pow t s)

-- `uint32(math.Round(v * 65535))` of a clamped v.
unfoldable pub norm01_to_axis : Float64 → ℕ
unfolding clamp ◌*f◌ of_ℕ round_away_to_int
norm01_to_axis v = pos_part (round_away_to_int (clamp v zero_f one_f *f of_ℕ 65535))

unfoldable pub norm_signed_to_axis : Float64 → ℕ
unfolding clamp ◌*f◌ ◌+f◌ of_ℕ ratio round_away_to_int
norm_signed_to_axis v =
    pos_part (round_away_to_int ((clamp v minus_one_f one_f +f one_f) *f ratio 1 2 *f of_ℕ 65535))

-- The state of an accepted report; the parser also tells the shadow observer of Input.Shadow.
unfoldable pub g27_joy_state :
    (Float64 → Float64 → Float64) → NativeInputDefaults → NativeInputReport → ℕ → JoyState
unfolding normalize_native_steering normalize_native_pedal norm01_to_axis norm_signed_to_axis
g27_joy_state pow cfg raw now = record zero_joy {
  found = true;
  name = direct_hid_name (codes "Logitech G27");
  x = norm_signed_to_axis (normalize_native_steering raw.steering cfg.steering cfg.deadzone);
  y = norm01_to_axis (normalize_native_pedal pow raw.throttle_raw cfg.throttle);
  z = norm01_to_axis (normalize_native_pedal pow raw.brake_raw cfg.brake);
  r = norm01_to_axis (normalize_native_pedal pow raw.clutch_raw cfg.clutch);
  num_axes = 4;
  num_buttons = 16;
  native_controls = true;
  buttons = raw.buttons;
  gear = raw.gear;
  d_pad = raw.d_pad;
  paddle_left = raw.paddle_left;
  paddle_right = raw.paddle_right;
  wheel_buttons = raw.wheel_buttons;
  shifter_buttons = raw.shifter_buttons;
  input_source = codes "direct-hid";
  layout_id = raw.layout_id;
  sample_valid = true;
  sample_at = now;
  pov = pov_of raw.d_pad;
}

unfoldable pub parse_g27_native_report :
    (Float64 → Float64 → Float64) → List ℕ → ℕ → Option JoyState
unfolding g27_joy_state default_native_input_defaults
parse_g27_native_report pow report now = elim (parse_native_input_report g27 report) [
  | err e ↦ none
  | ok raw ↦ some (g27_joy_state pow default_native_input_defaults raw now)
]
