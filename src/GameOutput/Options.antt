-- ===== src/GameOutput/Options.antt =====
-- internal/system/fusion_c3_windows.go, fusionC3SlewPerTick, and fusion_c6_windows.go: the options that
-- a game session gives to its output.
use logi_mate.Base.{
  ℕ, ◌≡◌, refl, Bool, true, false, not, ◌||◌, holds_under, holds_under-at, if◌then◌else◌, arith,
}
use logi_mate.Base.Int.{ℤ, pos, negsuc, scale, ltb_ℤ, ◌≤ℤ◌}
use logi_mate.Base.Results.{ok}
use logi_mate.Base.Float.{
  Float64, num, zero_f, is_nan, is_inf, lt_f, le_f, of_ℤ, of_ℕ, units, digits, round_mag,
  round_to_even, ◌*f◌, ◌/f◌,
}
use logi_mate.Pipeline.{percent_f}
use logi_mate.Safety.{NativeFfbConfig, normalize_native_ffb_config}
use logi_mate.Safety.Bounds.{normalize-IsSafeConfig}
use logi_mate.Scheduler.{
  WheelOutputOptions, is_zero_ℤ, normalized, started_output, new_wheel_output,
}

-- 6 ms and 20 ms in nanoseconds, and 0.0005.
abbrev tick_ns_f : Float64
tick_ns_f = num false 0x4156E36000000000

abbrev slew_ns_f : Float64
slew_ns_f = num false 0x417312D000000000

abbrev least_slew_f : Float64
least_slew_f = num false 0x3F40624DD2F1A9FC

unfoldable pub slew_of : ℤ → Float64
slew_of slew_per_tick =
    let v = percent_f slew_per_tick *f tick_ns_f /f slew_ns_f in
    if lt_f v least_slew_f then least_slew_f else v

unfoldable pub fusion_c3_slew_per_tick : NativeFfbConfig → Float64
fusion_c3_slew_per_tick cfg = slew_of (normalize_native_ffb_config cfg).slew_per_tick

-- The options of StartFusionC6GameOutput, for the rotation of its engine profile.
unfoldable pub game_output_options : NativeFfbConfig → ℤ → WheelOutputOptions
game_output_options cfg rotation_degrees = record {
  max_slew_per_tick = fusion_c3_slew_per_tick cfg;
  watchdog = scale cfg.watchdog_ms 1000000;
  default_range_deg = rotation_degrees;
}

abbrev usable : Float64 → Bool
usable v = not (le_f v zero_f || (is_nan v || is_inf v))

slew_table : holds_under (λ n. usable (slew_of (pos n))) 6 ≡ true
unfolding holds_under slew_of of_ℤ of_ℕ units digits round_mag round_to_even ◌*f◌ ◌/f◌
slew_table = refl

slew_usable : (v : ℤ) → pos 1 ≤ℤ v → v ≤ℤ pos 5 → usable (slew_of v) ≡ true
slew_usable (pos n) low high =
    holds_under-at (λ n. usable (slew_of (pos n))) 6 n slew_table (omega (arith, high))
slew_usable (negsuc n) low high = absurd (omega (arith, low))

watchdog_positive : (v : ℤ) → pos 500 ≤ℤ v → ltb_ℤ (pos 0) (scale v 1000000) ≡ true
unfolding scale
watchdog_positive (pos n) low = ground (arith, low)
watchdog_positive (negsuc n) low = absurd (omega (arith, low))

usable_split : (v : Float64) → usable v ≡ true → (le_f v zero_f || (is_nan v || is_inf v)) ≡ false
usable_split v h = ground arith

-- Options that pass both tests.
normalized_passed :
    (o : WheelOutputOptions)
    → (le_f o.max_slew_per_tick zero_f
        || (is_nan o.max_slew_per_tick || is_inf o.max_slew_per_tick))
      ≡ false
    → ltb_ℤ (pos 0) o.watchdog ≡ true
    → normalized o
      ≡ ok (record o {
        default_range_deg = if is_zero_ℤ o.default_range_deg then pos 900 else o.default_range_deg;
      })
unfolding normalized
normalized_passed o slew watchdog = simp (slew, watchdog) refl

started_passed :
    (o o' : WheelOutputOptions) (now : ℕ)
    → normalized o ≡ ok o'
    → new_wheel_output o now ≡ ok (started_output o' now)
unfolding new_wheel_output
started_passed o o' now h = rw (h, new_wheel_output) refl

-- Whatever configuration is stored for a wheel: with the limits normalised from it, an output for a
-- game starts, at rest.
pub game_output_starts :
    (stored : NativeFfbConfig) (rotation_degrees : ℤ) (now : ℕ)
    → let o = game_output_options (normalize_native_ffb_config stored) rotation_degrees in
      new_wheel_output o now
      ≡ ok (
          started_output
            (record o {
              default_range_deg = if is_zero_ℤ rotation_degrees then pos 900 else rotation_degrees;
            })
            now)
unfolding game_output_options fusion_c3_slew_per_tick
game_output_starts stored rotation_degrees now =
    let cfg = normalize_native_ffb_config stored in
    let safe = normalize-IsSafeConfig stored in
    let again = normalize-IsSafeConfig cfg in
    let slew_per_tick = (normalize_native_ffb_config cfg).slew_per_tick in
    let o = game_output_options cfg rotation_degrees in
    started_passed o _ now (
      normalized_passed o
        (usable_split (slew_of slew_per_tick) (slew_usable slew_per_tick again.slew.0 again.slew.1))
        (watchdog_positive cfg.watchdog_ms safe.watchdog.0))
