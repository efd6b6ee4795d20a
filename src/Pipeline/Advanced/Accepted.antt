-- ===== src/Pipeline/Advanced/Accepted.antt =====
-- internal/system/advanced_ffb_windows.go, AdvancedFFBTuning: what it gives to NormalizeFFBTuning.
use logi_mate.Base.{
  ℕ, zero, suc, ◌+◌, ◌-◌, ◌≤◌, ◌≡◌, refl, Bool, true, false, ◌&&◌, ◌⊎◌, inl, inr, Bool-cases,
  holds_under, holds_under-at, if◌then◌else◌, arith,
}
use logi_mate.Base.Int.{ℤ, pos, pos_part, negsuc}
use logi_mate.Base.Results.{ok}
use logi_mate.Base.Float.{
  Float64, nan, num, zero_f, eq_f, le_f, is_nan, of_ℤ, of_ℕ, round_mag, round_to_even, digits,
  units, ◌/f◌,
}
use logi_mate.Base.Float.Ranges.{Within}
use logi_mate.Safety.{clamp_int, if_zero}
use logi_mate.Protocol.Torque.{one_f}
use logi_mate.Model.{ModelId}
use logi_mate.Pipeline.{
  default_ffb_tuning, normalize_ffb_tuning, percent_f, tenth_f, fifth_f, half_f, nine_tenths_f,
  gain_f, two_f, five_f, hundred_f,
}
use logi_mate.Pipeline.Tuning.{WellTuned, again}
use logi_mate.Pipeline.Advanced.{
  AdvancedFfbConfig, normal_exponent, normal_low_pass, normal_limit, normalize_advanced_ffb_config,
  advanced_ffb_tuning,
}

in_range : Float64 → Float64 → Float64 → Bool
in_range lo hi v = le_f lo v && le_f v hi

in_range-Within : (lo hi v : Float64) → in_range lo hi v ≡ true → Within lo hi v
unfolding in_range
in_range-Within lo hi v h = (ground arith, ground arith)

percent_tables :
    (holds_under (λ n. in_range zero_f gain_f (percent_f (pos n))) 151 ≡ true)
    × (holds_under (λ n. in_range zero_f fifth_f (percent_f (pos n))) 21 ≡ true)
    × (holds_under (λ n. in_range zero_f nine_tenths_f (percent_f (pos n))) 91 ≡ true)
    × (holds_under (λ n. in_range tenth_f one_f (percent_f (pos (10 + n)))) 91 ≡ true)
    × (holds_under (λ n. in_range five_f hundred_f (of_ℤ (pos (5 + n)))) 96 ≡ true)
unfolding in_range holds_under of_ℤ of_ℕ round_mag round_to_even digits units ◌/f◌
percent_tables = (refl, refl, refl, refl, refl)

exponent-Within : (v : Float64) → is_nan v ≡ false → Within half_f two_f (normal_exponent v)
exponent-Within nan h = ground arith
exponent-Within (num false m) h = ground arith
exponent-Within (num true m) h = ground arith

-- A clamped percentage as a number.
clamped :
    (v : ℤ) (lo hi : ℕ)
    → lo ≤ hi
    → let c = clamp_int v (pos lo) (pos hi) in
      (c ≡ pos (pos_part c)) × (lo ≤ pos_part c) × (pos_part c ≤ hi)
unfolding clamp_int
clamped (pos m) lo hi h = (ground arith, ground arith, ground arith)
clamped (negsuc m) lo hi h = (ground arith, ground arith, ground arith)

-- A table of a range, at a clamped value.
at_clamped :
    (test : ℤ → Bool) (v : ℤ) (hi : ℕ)
    → holds_under (λ n. test (pos n)) (suc hi) ≡ true
    → test (clamp_int v (pos 0) (pos hi)) ≡ true
at_clamped test v hi table =
    let (is, low, high) = clamped v 0 hi (omega arith) in
    rw is (
      holds_under-at (λ n. test (pos n)) (suc hi) (pos_part (clamp_int v (pos 0) (pos hi))) table
        (omega (arith, high)))

at_clamped_from :
    (test : ℤ → Bool) (v : ℤ) (lo n : ℕ)
    → holds_under (λ k. test (pos (lo + k))) (suc n) ≡ true
    → test (clamp_int v (pos lo) (pos (lo + n))) ≡ true
at_clamped_from test v lo n table =
    let c = pos_part (clamp_int v (pos lo) (pos (lo + n))) in
    let (is, low, high) = clamped v lo (lo + n) (omega arith) in
    let from : lo + (c - lo) ≡ c = omega (arith, low) in
    let found : test (pos (lo + (c - lo))) ≡ true =
      holds_under-at (λ k. test (pos (lo + k))) (suc n) (c - lo) table (omega (arith, low, high)) in
    is_at is (rw⁻¹ from found)
  where
    is_at :
        {c : ℕ}
        → clamp_int v (pos lo) (pos (lo + n)) ≡ pos c
        → test (pos c) ≡ true
        → test (clamp_int v (pos lo) (pos (lo + n))) ≡ true
    is_at e h = rw e h

gain-Within : (v : ℤ) → Within zero_f gain_f (percent_f (clamp_int v (pos 0) (pos 150)))
gain-Within v =
    in_range-Within zero_f gain_f _
      (at_clamped (λ k. in_range zero_f gain_f (percent_f k)) v 150 percent_tables.0)

fifth-Within : (v : ℤ) → Within zero_f fifth_f (percent_f (clamp_int v (pos 0) (pos 20)))
fifth-Within v =
    in_range-Within zero_f fifth_f _
      (at_clamped (λ k. in_range zero_f fifth_f (percent_f k)) v 20 percent_tables.1)

smoothing-Within : (v : ℤ) → Within zero_f nine_tenths_f (percent_f (clamp_int v (pos 0) (pos 90)))
smoothing-Within v =
    in_range-Within zero_f nine_tenths_f _
      (at_clamped (λ k. in_range zero_f nine_tenths_f (percent_f k)) v 90 percent_tables.2)

limit-Within : (v : ℤ) → Within tenth_f one_f (percent_f (normal_limit v))
limit-Within v = in_range-Within tenth_f one_f _ (
    at_clamped_from (λ k. in_range tenth_f one_f (percent_f k)) (if_zero v (pos 100)) 10 90
      percent_tables.3)

clamped_low_pass : (v : ℤ) → Within five_f hundred_f (of_ℤ (clamp_int v (pos 5) (pos 100)))
clamped_low_pass v =
    in_range-Within five_f hundred_f _
      (at_clamped_from (λ k. in_range five_f hundred_f (of_ℤ k)) v 5 95 percent_tables.4)

low_pass_ranged :
    (v : ℤ) → let f = of_ℤ (normal_low_pass v) in (eq_f f zero_f ≡ true) ⊎ Within five_f hundred_f f
low_pass_ranged (pos zero) = inl (unfold of_ℤ of_ℕ in refl)
low_pass_ranged (pos (suc n)) = inr (clamped_low_pass (pos (suc n)))
low_pass_ranged (negsuc n) = inr (clamped_low_pass (negsuc n))

pub advanced_ffb_tuning-WellTuned :
    (c : AdvancedFfbConfig) (model : ModelId)
    → is_nan c.response_exponent ≡ false
    → WellTuned (advanced_ffb_tuning c model)
unfolding advanced_ffb_tuning normalize_advanced_ffb_config
advanced_ffb_tuning-WellTuned c model h = record {
  constant_gain = gain-Within c.constant_gain_percent;
  transient_gain = gain-Within c.transient_gain_percent;
  deadband = fifth-Within c.deadband_percent;
  minimum_force = fifth-Within c.minimum_force_percent;
  response_exponent = exponent-Within c.response_exponent h;
  low_pass_hz = low_pass_ranged c.low_pass_hz;
  smoothing = smoothing-Within c.smoothing_percent;
  output_limit = limit-Within c.output_limit_percent;
}

-- The tuning of a configuration whose exponent is a number is accepted by the pipeline, without a
-- change if it is enabled, as the neutral one if it is not.
pub advanced_ffb_tuning-accepted :
    (c : AdvancedFfbConfig) (model : ModelId)
    → is_nan c.response_exponent ≡ false
    → let t = advanced_ffb_tuning c model in
      normalize_ffb_tuning t
      ≡ ok (if c.enabled then t else (record default_ffb_tuning { enabled = false }))
advanced_ffb_tuning-accepted c model h = elim (Bool-cases c.enabled) [
  | inl on ↦ simp on (
      again (advanced_ffb_tuning c model) (advanced_ffb_tuning-WellTuned c model h)
        (unfold advanced_ffb_tuning normalize_advanced_ffb_config in on))
  | inr off ↦
      unfold normalize_ffb_tuning advanced_ffb_tuning normalize_advanced_ffb_config in simp off refl
]
