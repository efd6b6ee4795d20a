-- ===== src/Input/Parity.antt =====
-- internal/wheelengine/native_input.go against internal/openg27port/g27_parser.go, and the shadow
-- observer of internal/system/fusion_c4_windows.go that counts their agreement.
use logi_mate.Base.{ℕ, ◌≤◌, ◌≡◌, refl, false, List, length, ltb, arith}
use logi_mate.Base.Results.{ok}
use logi_mate.Model.{g27, hardware_gate}
use logi_mate.Model.Adapter.{ModelAdapter}
use logi_mate.Base.Text.{codes}
use logi_mate.Input.{
  NativeInputReport, at, little_endian_16, native_report_base, g27_fields, common_fields,
  model_fields, parse_native_input_report,
}
use logi_mate.Input.Reference.{G27RawState, extract_g27_button_bits, parse_g27_report}

-- The raw axes of both parsers agree.
pub record SameAxes (n : NativeInputReport) (r : G27RawState) : Type 0 where
  pub same_steering : n.steering ≡ r.steering
  pub same_throttle : n.throttle_raw ≡ r.pedal0
  pub same_brake : n.brake_raw ≡ r.pedal1
  pub same_clutch : n.clutch_raw ≡ r.pedal2

base_one : (report : List ℕ) → 12 ≤ length report → at report 0 ≡ 0 → native_report_base report ≡ 1
unfolding native_report_base
base_one report long id = ground arith

adapter_of_g27 : ModelAdapter
adapter_of_g27 = record {
  model = g27;
  input_layout_id = codes "g27-c29b-v1";
  min_native_report_bytes = 11;
  native_pid = codes "C29B";
  mode_selector = 4;
  steering_bits = 16;
  pedal_bits = 8;
  has_analog_shifter = false;
  certification = hardware_gate;
}

-- The value that the native parser returns at a base.
native_at : List ℕ → ℕ → NativeInputReport
unfolding adapter_of_g27
native_at report base = g27_fields (common_fields g27 adapter_of_g27 report base) report base

reference_at : List ℕ → G27RawState
reference_at report = record {
  steering = little_endian_16 report 4;
  pedal0 = at report 6;
  pedal1 = at report 7;
  pedal2 = at report 8;
  buttons = extract_g27_button_bits report 9;
}

parse_native-native_at :
    (report : List ℕ)
    → 12 ≤ length report
    → native_report_base report ≡ 1
    → parse_native_input_report g27 report ≡ ok (native_at report 1)
unfolding parse_native_input_report native_at model_fields adapter_of_g27
parse_native-native_at report long e =
    let enough : ltb (length report) 12 ≡ false = ground arith in rw (e, enough)

-- On a G27 report of twelve bytes or more that begins with the report id 0 both parsers succeed,
-- and they read the same steering, throttle, brake and clutch.
pub parse-SameAxes :
    (report : List ℕ)
    → 12 ≤ length report
    → at report 0 ≡ 0
    → (n : NativeInputReport) × (r : G27RawState) × (parse_native_input_report g27 report ≡ ok n)
      × (parse_g27_report report ≡ ok r)
      × SameAxes n r
unfolding parse_g27_report native_at reference_at common_fields g27_fields
parse-SameAxes report long id = (
  native_at report 1,
  reference_at report,
  parse_native-native_at report long (base_one report long id),
  (let enough : ltb (length report) 9 ≡ false = ground arith in rw enough),
  record { same_steering = refl; same_throttle = refl; same_brake = refl; same_clutch = refl },
)
