-- ===== src/Input/Ranges.antt =====
-- internal/wheelengine/native_input.go: the ranges of a decoded report, and when there is one.
use logi_mate.Base.{
  ℕ, zero, suc, ◌+◌, ◌≤◌, ◌<◌, ◌≡◌, ◌↔◌, true, List, [], ◌∷◌, length, All, arith, some, refl,
}
use logi_mate.Base.Int.{pos, negsuc, ◌≤ℤ◌}
use logi_mate.Base.Results.{ok, is_ok, OfOk, of_ok, OfOk-guarded}
use logi_mate.Model.{ModelId, unknown, compatibility, g25, g27, dfgt}
use logi_mate.Model.Adapter.{ModelAdapter, adapter_for_model}
use logi_mate.Protocol.Wire.{IsByte}
use logi_mate.Input.{
  NativeInputReport, at, little_endian_16, native_report_base, d_pad_of, g27_gear, g25_gear,
  common_fields, g27_fields, g25_fields, model_fields, parse_native_input_report,
}

record InRange (n : NativeInputReport) : Type 0 where
  gear : (negsuc 0 ≤ℤ n.gear) × (n.gear ≤ℤ pos 6)
  d_pad : n.d_pad ≤ 8
  steering : n.steering ≤ 65535
  wheel : length n.wheel_buttons ≡ 6
  shifter : length n.shifter_buttons ≡ 8

at-byte : (report : List ℕ) (i : ℕ) → All IsByte report → at report i < 256
at-byte [] i h = omega arith
at-byte (b ∷ bs) zero h = h.0
at-byte (b ∷ bs) (suc i) h = at-byte bs i h.1

gear_g27 : (rev b2 : ℕ) → (negsuc 0 ≤ℤ g27_gear rev b2) × (g27_gear rev b2 ≤ℤ pos 6)
unfolding g27_gear
gear_g27 rev b2 = ground arith

gear_g25 : (x y : ℕ) → (negsuc 0 ≤ℤ g25_gear x y) × (g25_gear x y ≤ℤ pos 6)
unfolding g25_gear
gear_g25 x y = ground arith

d_pad_bound : (b : ℕ) → d_pad_of b ≤ 8
unfolding d_pad_of
d_pad_bound b = ground arith

module _ (report : List ℕ) (bytes : All IsByte report) where
  steering_bound : (i : ℕ) → little_endian_16 report i ≤ 65535
  steering_bound i = omega (arith, at-byte report i bytes, at-byte report (i + 1) bytes)

  model_fields-InRange :
      (m : ModelId) (a : ModelAdapter) (base : ℕ)
      → OfOk InRange (model_fields m (common_fields m a report base) report base)
  unfolding model_fields common_fields g27_fields g25_fields
  model_fields-InRange unknown a base = tt
  model_fields-InRange compatibility a base = tt
  model_fields-InRange g27 a base = record {
    gear = gear_g27 (at report (base + 10)) (at report (base + 2));
    d_pad = d_pad_bound _;
    steering = steering_bound _;
    wheel = refl;
    shifter = refl;
  }
  model_fields-InRange g25 a base = record {
    gear = gear_g25 (at report (base + 8)) (at report (base + 9));
    d_pad = d_pad_bound _;
    steering = steering_bound _;
    wheel = refl;
    shifter = refl;
  }
  model_fields-InRange dfgt a base = record {
    gear = omega arith;
    d_pad = d_pad_bound _;
    steering = steering_bound _;
    wheel = refl;
    shifter = refl;
  }

  parsed-InRange : (m : ModelId) → OfOk InRange (parse_native_input_report m report)
  unfolding parse_native_input_report
  parsed-InRange unknown = tt
  parsed-InRange compatibility = tt
  parsed-InRange g25 = OfOk-guarded InRange _ _ _ (model_fields-InRange g25 _ _)
  parsed-InRange g27 = OfOk-guarded InRange _ _ _ (model_fields-InRange g27 _ _)
  parsed-InRange dfgt = OfOk-guarded InRange _ _ _ (model_fields-InRange dfgt _ _)

-- Whatever bytes arrive, a report that is accepted has a gear from -1 to 6, a d-pad value from 0
-- to 8, a 16-bit steering value, six wheel buttons and eight shifter buttons.
parse_native_input_report-InRange :
    (m : ModelId) (report : List ℕ) {n : NativeInputReport}
    → All IsByte report
    → parse_native_input_report m report ≡ ok n
    → InRange n
parse_native_input_report-InRange m report bytes h = of_ok InRange (parsed-InRange report bytes m) h

abbrev pub least_bytes : ModelId → ℕ
least_bytes g25 = 12
least_bytes g27 = 11
least_bytes dfgt = 7
least_bytes unknown = 0
least_bytes compatibility = 0

-- A report of a wheel with an adapter is accepted exactly when it holds the bytes that its layout
-- needs, after a leading report id if there is one.
pub parse_native_input_report_total :
    (m : ModelId) (report : List ℕ) {a : ModelAdapter}
    → adapter_for_model m ≡ some a
    → (native_report_base report + least_bytes m ≤ length report)
      ↔ (is_ok (parse_native_input_report m report) ≡ true)
unfolding parse_native_input_report model_fields
parse_native_input_report_total unknown report h = cc
parse_native_input_report_total compatibility report h = cc
parse_native_input_report_total _ report h = ground arith
