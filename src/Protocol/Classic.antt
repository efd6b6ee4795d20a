-- ===== src/Protocol/Classic.antt =====
-- internal/system/native_ffb_windows.go and native_output_windows.go: the classic four-slot
-- effect reports of the hardware tests, with the report id in front.
use logi_mate.Base.{
  ℕ, ◌+◌, ◌-◌, ◌*◌, ◌/◌, ◌%◌, ◌^◌, bit_or, Bool, ◌&&◌, List, [], ◌∷◌, ltb, leb, ◌==◌, if◌then◌else◌,
}
use logi_mate.Base.Int.{ℤ, pos, negsuc, pos_part, neg_part, ◌+ℤ◌, scale, quot}
use logi_mate.Base.Results.{Result, ok, err, ◌>>=◌, ◌>>◌, guard}
use logi_mate.Safety.{clamp_int}
use logi_mate.Model.{ModelId, same_model, g27}
use logi_mate.Protocol.{
  Report, set_range, set_leds, spring_enable, spring_off, stop_all_effects, constant_force,
  with_report_id, slider_to_force_byte,
}

pub data BuildError : Type 0 where
  bad_slot out_of_limit : BuildError

-- `outputReport(payload...)` with the seven payload bytes that every caller gives.
abbrev output_report : ℕ → ℕ → ℕ → ℕ → ℕ → ℕ → ℕ → Report
output_report a b c d e f g = 0 ∷ a ∷ b ∷ c ∷ d ∷ e ∷ f ∷ g ∷ []

abbrev pub within : ℤ → ℤ → ℤ → Bool
within lo hi v = not_below v lo && not_below hi v
  where
    not_below : ℤ → ℤ → Bool
    not_below a b = leb (pos_part b + neg_part a) (pos_part a + neg_part b)

abbrev pub native_manual_ffb_test_max_percent : ℕ
native_manual_ffb_test_max_percent = 30

-- The percent lies in -100..100 after the clamp; the level then lies in -32767..32767.
unfoldable pub translate_classic_force_percent : ℤ → ℕ
unfolding clamp_int scale quot ◌+ℤ◌
translate_classic_force_percent percent =
    let level = quot (scale (clamp_int percent (negsuc 99) (pos 100)) 32767) 100 in
    let v = pos_part (level +ℤ pos 0x8000) / 256 in if ltb 255 v then 255 else v

unfoldable pub classic_effect_opcode : ℤ → Bool → Result BuildError ℕ
classic_effect_opcode slot update = do
  guard (within (pos 0) (pos 3) slot) bad_slot
  let base = 0x10 * 2 ^ pos_part slot % 256
  ok (if update then (base + 0x0c) % 256 else (base + 0x01) % 256)

unfoldable pub build_classic_constant_force_slot_report : ℤ → ℤ → Bool → Result BuildError Report
unfolding classic_effect_opcode
build_classic_constant_force_slot_report slot percent update = do
  guard (within (negsuc 29) (pos native_manual_ffb_test_max_percent) percent) out_of_limit
  op ← classic_effect_opcode slot update
  ok (output_report op 0 (translate_classic_force_percent percent) 0 0 0 0)

unfoldable pub build_native_constant_force_report : ℤ → Result BuildError Report
build_native_constant_force_report percent = do
  guard (within (negsuc 99) (pos 100) percent) out_of_limit
  ok (with_report_id (constant_force (slider_to_force_byte percent)))

unfoldable pub build_native_stop_all_effects_report : Report
unfolding with_report_id stop_all_effects
build_native_stop_all_effects_report = with_report_id stop_all_effects

unfoldable pub build_classic_fixed_loop_report : Bool → Report
build_classic_fixed_loop_report enabled = output_report 0x0D (if enabled then 1 else 0) 0 0 0 0 0

unfoldable pub build_classic_condition_slot_report :
    ℤ → ℕ → ℕ → ℕ → ℕ → ℕ → ℕ → Bool → Result BuildError Report
unfolding classic_effect_opcode
build_classic_condition_slot_report slot effect p0 p1 p2 p3 p4 update = do
  guard (within (pos 1) (pos 3) slot) bad_slot
  op ← classic_effect_opcode slot update
  ok (output_report op effect p0 p1 p2 p3 p4)

unfoldable pub build_classic_effect_stop_report : ℤ → Result BuildError Report
build_classic_effect_stop_report slot = do
  guard (within (pos 0) (pos 3) slot) bad_slot
  ok (output_report ((0x10 * 2 ^ pos_part slot + 0x03) % 256) 0 0 0 0 0 0)

-- `scaleU16` and `scaleCoeff`; no caller passes a negative value.
unfoldable pub scale_u16 : ℕ → ℕ → ℕ
scale_u16 v bits = (if ltb 0xffff v then 0xffff else v) / 2 ^ (16 - bits) % 256

unfoldable pub scale_coeff : ℕ → ℕ → ℕ
unfolding scale_u16
scale_coeff v bits = scale_u16 (v * 2) bits

-- The saturation byte of the three condition effects, `scaleU16(strength*65535/100, 8)`.
abbrev clip_byte : ℕ → ℕ
clip_byte strength = scale_u16 (strength * 65535 / 100) 8

-- The strength lies in 0..30 where it is used, so it enters as a number; `k` is its negation.
unfoldable pub build_classic_spring_slot_report : ℤ → ℤ → Bool → Result BuildError Report
unfolding build_classic_condition_slot_report scale_coeff
build_classic_spring_slot_report slot strength update = do
  guard (within (pos 0) (pos 30) strength) out_of_limit
  let s = pos_part strength
  let k = s * 32767 / 100
  let weak = ltb k 2048
  let d1 = if weak then 0 else 1024
  let d2 = if weak then 2047 else 1024
  let ak = if weak then 0 else k - 2048
  let coeff = scale_coeff ak 4
  let packed = bit_or (bit_or (bit_or (d2 % 8 * 32) (d1 % 8 * 2)) (1 * 16)) 1
  build_classic_condition_slot_report slot 0x0b (d1 / 8 % 256) (d2 / 8 % 256)
      (bit_or (coeff * 16 % 256) coeff) packed (clip_byte s) update

unfoldable pub build_classic_damper_slot_report : ℤ → ℤ → Bool → Result BuildError Report
unfolding build_classic_condition_slot_report scale_coeff
build_classic_damper_slot_report slot strength update = do
  guard (within (pos 0) (pos 30) strength) out_of_limit
  let s = pos_part strength
  let coeff = scale_coeff (s * 32767 / 100) 4
  build_classic_condition_slot_report slot 0x0c coeff 0 coeff 0 (clip_byte s) update

unfoldable pub build_classic_friction_slot_report : ℤ → ℤ → Bool → Result BuildError Report
unfolding build_classic_condition_slot_report scale_coeff
build_classic_friction_slot_report slot strength update = do
  guard (within (pos 0) (pos 30) strength) out_of_limit
  let s = pos_part strength
  let coeff = scale_coeff (s * 32767 / 100) 8
  build_classic_condition_slot_report slot 0x0e coeff coeff (clip_byte s) 0 0 update

unfoldable pub build_classic_range_report : ℤ → Result BuildError Report
unfolding set_range with_report_id
build_classic_range_report degrees = do
  guard (within (pos 40) (pos 900) degrees) out_of_limit
  ok (with_report_id (set_range degrees))

unfoldable pub build_g27_led_report : ℕ → Result BuildError Report
unfolding set_leds with_report_id
build_g27_led_report mask = do
  guard (leb mask 0x1F) out_of_limit
  ok (with_report_id (set_leds mask))

unfoldable pub percent_to_byte : ℤ → ℕ
unfolding clamp_int
percent_to_byte percent =
    let p = pos_part (clamp_int percent (pos 0) (pos 100)) in
    let v = (p * 255 + 50) / 100 in if p == 0 then 0 else if ltb v 1 then 1 else v

unfoldable pub percent_to_nibble : ℤ → ℕ
unfolding clamp_int
percent_to_nibble percent =
    let p = pos_part (clamp_int percent (pos 0) (pos 100)) in
    let v = (p * 15 + 50) / 100 in
    if p == 0 then 0 else if ltb v 1 then 1 else if ltb 15 v then 15 else v

unfoldable pub percent_to_spring_slope : ℤ → ℕ
unfolding clamp_int
percent_to_spring_slope percent =
    let p = pos_part (clamp_int percent (pos 0) (pos 100)) in
    let v = (p * 7 + 50) / 100 in
    if p == 0 then 0 else if ltb v 1 then 1 else if ltb 7 v then 7 else v

unfoldable pub build_classic_autocenter_report : ℤ → ℤ → Result BuildError Report
unfolding percent_to_spring_slope
build_classic_autocenter_report percent ramp = do
  guard (within (pos 0) (pos 30) percent) out_of_limit
  guard (within (pos 0) (pos 7) ramp) out_of_limit
  let strength = percent_to_spring_slope percent
  ok (output_report 0xFE 0x0D strength strength 0x80 0 0)

unfoldable pub build_classic_autocenter_enable_report : Report
unfolding with_report_id spring_enable
build_classic_autocenter_enable_report = with_report_id spring_enable

unfoldable pub build_classic_autocenter_off_report : Report
unfolding with_report_id spring_off
build_classic_autocenter_off_report = with_report_id spring_off

-- `r, _ := Build...(...)`: an error leaves the nil report.
abbrev or_nil : Result BuildError Report → Report
or_nil (ok r) = r
or_nil (err e) = []

unfoldable pub neutral_reports_for_model : ModelId → List Report
unfolding with_report_id stop_all_effects build_classic_effect_stop_report
    build_classic_autocenter_off_report build_g27_led_report
neutral_reports_for_model m =
    with_report_id stop_all_effects
    ∷ or_nil (build_classic_effect_stop_report (pos 0))
    ∷ or_nil (build_classic_effect_stop_report (pos 1))
    ∷ or_nil (build_classic_effect_stop_report (pos 2))
    ∷ or_nil (build_classic_effect_stop_report (pos 3))
    ∷ build_classic_autocenter_off_report
    ∷ (if same_model m g27 then or_nil (build_g27_led_report 0) ∷ [] else [])
