-- ===== src/Reference/Agreement.antt =====
-- internal/wheelengine/native_protocol.go against internal/openg27port: where the native code keeps what
-- the port does.
use logi_mate.Base.{
  ℕ, ◌≡◌, ◌∙◌, sym, refl, true, List, drop, ◌==◌, ==_iff, holds_under, holds_under-at, arith,
}
use logi_mate.Base.Int.{ℤ, pos, negsuc, ◌≤ℤ◌}
use logi_mate.Base.Float.{
  round_to_even, round_to_int, of_ℤ, of_ℕ, units, digits, round_mag, add_finite, ◌+f◌, ◌*f◌, ◌/f◌,
}
use logi_mate.Safety.{clamp_int}
use logi_mate.Protocol
use logi_mate.Reference.Reports
use logi_mate.Protocol.{slider_to_force_byte}
use logi_mate.Reference.{float_slider_to_force_byte, scaled_slider}

-- The two sliders agree on every percent.
slider_tables :
    (holds_under (λ n. slider_to_force_byte (pos n) == float_slider_to_force_byte (pos n)) 101
      ≡ true)
    × (holds_under
          (λ n. slider_to_force_byte (negsuc n) == float_slider_to_force_byte (negsuc n))
          100
        ≡ true)
unfolding holds_under slider_to_force_byte float_slider_to_force_byte scaled_slider clamp_int
    round_to_even round_to_int of_ℤ of_ℕ units digits round_mag add_finite ◌+f◌ ◌*f◌ ◌/f◌
slider_tables = (refl, refl)

sliders_inside :
    (c : ℤ) → negsuc 99 ≤ℤ c → c ≤ℤ pos 100 → slider_to_force_byte c ≡ float_slider_to_force_byte c
sliders_inside (pos n) low high = (==_iff _ _).0 (
    holds_under-at (λ n. slider_to_force_byte (pos n) == float_slider_to_force_byte (pos n)) 101 n
      slider_tables.0 (omega (arith, high)))
sliders_inside (negsuc n) low high = (==_iff _ _).0 (
    holds_under-at (λ n. slider_to_force_byte (negsuc n) == float_slider_to_force_byte (negsuc n))
      100 n slider_tables.1 (omega (arith, low)))

clamped_percent :
    (p : ℤ)
    → let c = clamp_int p (negsuc 99) (pos 100) in
      (negsuc 99 ≤ℤ c) × (c ≤ℤ pos 100) × (clamp_int c (negsuc 99) (pos 100) ≡ c)
unfolding clamp_int
clamped_percent p = (ground arith, ground arith, ground arith)

slider_clamped :
    (p : ℤ)
    → let c = clamp_int p (negsuc 99) (pos 100) in
      (slider_to_force_byte p ≡ slider_to_force_byte c)
      × (float_slider_to_force_byte p ≡ float_slider_to_force_byte c)
unfolding slider_to_force_byte float_slider_to_force_byte
slider_clamped p = let again = (clamped_percent p).2 in (rw again refl, rw again refl)

-- For every percent the byte of the slider, which is stated on whole numbers, is the byte that its
-- sums and products of float64 give.
pub slider_to_force_byte-float : (p : ℤ) → slider_to_force_byte p ≡ float_slider_to_force_byte p
slider_to_force_byte-float p =
    let (low, high, again) = clamped_percent p in
    let (whole, float) = slider_clamped p in
    whole ∙ sliders_inside (clamp_int p (negsuc 99) (pos 100)) low high ∙ sym float

-- The reports of the native code and of the port: the same bytes but for the damper and the friction,
-- which differ in their first byte alone, the slot that they address.
pub record ReportsAgree : Type 0 where
  pub force : (force : ℕ) → Protocol.constant_force force ≡ Reports.constant_force force
  pub stops : Protocol.stop_all_effects ≡ Reports.stop
  pub range : (deg : ℤ) → Protocol.set_range deg ≡ Reports.set_range deg
  pub switch : Protocol.native_switch 4 ≡ Reports.native_switch
  pub spring : (slope clip : ℕ) → Protocol.spring_set slope clip ≡ Reports.spring_set slope clip
  pub spring_on : Protocol.spring_enable ≡ Reports.spring_enable
  pub spring_off : Protocol.spring_off ≡ Reports.spring_off
  pub damper :
      (coeff clip : ℕ) → drop 1 (Protocol.damper coeff clip) ≡ drop 1 (Reports.damper coeff clip)
  pub damper_off : drop 1 Protocol.damper_off ≡ drop 1 Reports.damper_off
  pub friction :
      (coeff clip : ℕ)
      → drop 1 (Protocol.friction coeff clip) ≡ drop 1 (Reports.friction coeff clip)
  pub friction_off : drop 1 Protocol.friction_off ≡ drop 1 Reports.friction_off
  pub leds : (mask : ℕ) → Protocol.set_leds mask ≡ Reports.set_leds mask
  pub leds_off : Protocol.leds_off ≡ Reports.leds_off
  pub bar :
      (percent : ℤ) → Protocol.led_bar_for_percent percent ≡ Reports.led_bar_for_percent percent
  pub wrapped :
      (command : List ℕ) → Protocol.with_report_id command ≡ Reports.with_report_id command

pub reports_agree : ReportsAgree
unfolding Protocol.constant_force Reports.constant_force Protocol.stop_all_effects Reports.stop
    Protocol.set_range Reports.set_range Protocol.native_switch Reports.native_switch
    Protocol.spring_set Reports.spring_set Protocol.spring_enable Reports.spring_enable
    Protocol.spring_off Reports.spring_off Protocol.damper Reports.damper Protocol.damper_off
    Reports.damper_off Protocol.friction Reports.friction Protocol.friction_off Reports.friction_off
    Protocol.set_leds Reports.set_leds Protocol.leds_off Reports.leds_off
    Protocol.led_bar_for_percent Reports.led_bar_for_percent Protocol.with_report_id
    Reports.with_report_id
reports_agree = record {
  force = λ force. refl;
  stops = refl;
  range = λ deg. refl;
  switch = refl;
  spring = λ slope clip. refl;
  spring_on = refl;
  spring_off = refl;
  damper = λ coeff clip. refl;
  damper_off = refl;
  friction = λ coeff clip. refl;
  friction_off = refl;
  leds = λ mask. refl;
  leds_off = refl;
  bar = λ percent. refl;
  wrapped = λ command. refl;
}
