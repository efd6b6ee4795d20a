-- ===== src/GameOutput/Ceiling.antt =====
-- internal/system/fusion_c6_windows.go, TryGetFrame: no telemetry lifts the force above the safety
-- ceiling.
use logi_mate.Base.{
  ℕ, ◌≤◌, ◌≡◌, refl, Bool, true, ◌&&◌, ◌⊎◌, inl, inr, Bool-cases, Option, none, some, leb,
  holds_under, holds_under-at, arith,
}
use logi_mate.Base.Int.{ℤ, pos, negsuc, neg}
use logi_mate.Base.Float.{
  Float64, of_ℕ, of_ℤ, round_mag, round_to_even, digits, units, add_finite, round_to_int, clamp,
  ◌+f◌, ◌*f◌, ◌/f◌,
}
use logi_mate.Protocol.Torque.{ForceFrame, torque_to_wheel_byte}
use logi_mate.Pipeline.State.{FfbPipeline}
use logi_mate.Safety.{NativeFfbConfig, normalize_native_ffb_config, clamp_int}
use logi_mate.Safety.Bounds.{Within, mix_native_effects-IsWithinLimits}
use logi_mate.GameAdapter.Registry.{AdapterRegistry}
use logi_mate.Pipeline.{percent_f}
use logi_mate.GameOutput.{
  TelemetrySource, TelemetryStatus, percent_f, requested_force, has_frame, constant_frame, mixed,
  applied_frame, shaped_by, try_get_frame,
}

-- The byte of a whole number of percent lies around the neutral one.
small_byte : ℤ → Bool
small_byte k = let b = torque_to_wheel_byte (percent_f k) in leb 115 b && leb b 141

small_bytes :
    (holds_under (λ n. small_byte (pos n)) 11 ≡ true)
    × (holds_under (λ n. small_byte (negsuc n)) 10 ≡ true)
unfolding small_byte holds_under torque_to_wheel_byte of_ℤ of_ℕ round_mag round_to_even digits units
    add_finite round_to_int clamp ◌+f◌ ◌*f◌ ◌/f◌ clamp_int
small_bytes = (refl, refl)

small_byte_within : (k : ℤ) → Within (negsuc 9) (pos 10) k → small_byte k ≡ true
small_byte_within (pos n) w = holds_under-at _ 11 n small_bytes.0 (omega arith)
small_byte_within (negsuc n) w = holds_under-at _ 10 n small_bytes.1 (omega arith)

byte_within :
    (k : ℤ)
    → Within (negsuc 9) (pos 10) k
    → (115 ≤ torque_to_wheel_byte (percent_f k)) × (torque_to_wheel_byte (percent_f k) ≤ 141)
byte_within k w =
    let small = small_byte_within k w in
    (unfold small_byte in ground arith, unfold small_byte in ground arith)

-- A frame of a source: a constant force alone, of so many percent as the source says it applied, that
-- lies within the limit of the configuration and within 10 percent.
pub record Capped (cfg : NativeFfbConfig) (s : TelemetrySource) (frame : ForceFrame) : Type 0 where
  pub constant : frame ≡ constant_frame (percent_f s.applied)
  pub limit :
      Within
        (neg (normalize_native_ffb_config cfg).constant_limit)
        (normalize_native_ffb_config cfg).constant_limit
        s.applied
  pub ceiling : Within (negsuc 9) (pos 10) s.applied
  pub byte :
      (115 ≤ torque_to_wheel_byte frame.constant) × (torque_to_wheel_byte frame.constant ≤ 141)

applied_frame-Capped :
    (s : TelemetrySource) (p : Option FfbPipeline) (force shaped : Float64)
    → let r = applied_frame s p force shaped in Capped s.cfg r.0 r.1
unfolding applied_frame
applied_frame-Capped s p force shaped =
    let safe = mix_native_effects-IsWithinLimits _ s.engine s.cfg in
    record {
      constant = refl;
      limit = safe.constant;
      ceiling = safe.constant_ceiling;
      byte = byte_within (mixed s shaped).constant safe.constant_ceiling;
    }

module _ (pow : Float64 → Float64 → Float64) (r : AdapterRegistry) where
  shaped_by-Capped :
      (p : Option FfbPipeline) (s : TelemetrySource) (force : Float64) (received_at now : ℕ)
      → let x = shaped_by pow r p s force received_at now in Capped s.cfg x.0 x.1
  shaped_by-Capped none s force received_at now = applied_frame-Capped s none force _
  shaped_by-Capped (some p) s force received_at now = applied_frame-Capped s (some _) force _

  -- Whatever the telemetry says, whatever state the pipeline is in and whatever `math.Pow` computes: the
  -- source gives no frame and stays as it is, or it gives a frame of a whole number of percent, within
  -- the configured limit and within 10 percent, whose byte lies between 115 and 141.
  pub try_get_frame-Capped :
      (s : TelemetrySource) (t : TelemetryStatus) (now : ℕ)
      → (try_get_frame pow r s t now ≡ (s, none))
        ⊎ ((frame : ForceFrame) × ((try_get_frame pow r s t now).1 ≡ some frame)
            × Capped s.cfg (try_get_frame pow r s t now).0 frame)
  unfolding try_get_frame
  try_get_frame-Capped s t now =
      let force = requested_force r s t.last_frame in
      let x = shaped_by pow r s.pipeline s force t.last_frame.received_at now in
      let capped = shaped_by-Capped s.pipeline s force t.last_frame.received_at now in
      elim (Bool-cases (has_frame r s t)) [
        | inl held ↦ inr (x.1, simp held refl, simp held capped)
        | inr failed ↦ inl (simp failed refl)
      ]
