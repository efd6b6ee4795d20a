-- ===== src/GameOutput/Gate.antt =====
-- internal/system/fusion_c6_windows.go, TryGetFrame: a game that may not move the wheel gets no force.
use logi_mate.Base.{
  ℕ, ◌≤◌, ◌≡◌, ◌⊎◌, ap, refl, true, false, inl, inr, Bool-cases, Option, some, arith,
}
use logi_mate.Base.Int.{ℤ, pos, negsuc}
use logi_mate.Base.Float.{
  Float64, units, round_mag, round_to_even, digits, add_finite, clamp, of_ℕ, of_ℤ, round_to_int,
  round_away_to_int, ◌+f◌, ◌*f◌, ◌/f◌,
}
use logi_mate.Protocol.Torque.{ForceFrame}
use logi_mate.Pipeline.{hundred_f}
use logi_mate.Pipeline.Tuning.{WellTuned}
use logi_mate.Safety.{clamp_int}
use logi_mate.Safety.Bounds.{mag, mix_native_effects_reduces}
use logi_mate.Protocol.Torque.{torque_to_wheel_byte}
use logi_mate.GameAdapter.{TelemetryFrame}
use logi_mate.GameAdapter.Registry.{AdapterRegistry, telemetry_adapter_requires_ffb_authorization}
use logi_mate.Pipeline.{percent_f}
use logi_mate.GameOutput.{
  TelemetrySource, TelemetryStatus, constant_request, game_gain, permitted, requested_force,
  has_frame, mixed, applied_frame, shaped_by, try_get_frame,
}
use logi_mate.Pipeline.State.{FfbPipeline}
use logi_mate.GameOutput.Zero.{IsZero, Unfiltered, process-IsZero, zero_percent}

no_magnitude : (a : ℤ) → mag a ≤ 0 → a ≡ pos 0
no_magnitude (pos n) h = ap pos (omega arith)
no_magnitude (negsuc n) h = absurd (omega arith)

-- A force of zero percent is mixed to none.
no_force :
    (s : TelemetrySource) (shaped : Float64) → IsZero shaped → (mixed s shaped).constant ≡ pos 0
no_force s shaped z =
    let n = round_away_to_int (shaped *f hundred_f) in
    let none_asked : n ≡ pos 0 = zero_percent shaped z in
    let less = (mix_native_effects_reduces (constant_request n) s.engine s.cfg).0 in
    no_magnitude (mixed s shaped).constant (omega (arith, less, ap mag none_asked))

zero_byte : torque_to_wheel_byte (percent_f (pos 0)) ≡ 128
unfolding torque_to_wheel_byte of_ℤ of_ℕ round_mag round_to_even digits units add_finite
    round_to_int clamp ◌+f◌ ◌*f◌ ◌/f◌ clamp_int
zero_byte = refl

-- The source applied nothing, and its frame is the neutral byte.
pub record Released (s : TelemetrySource) (frame : ForceFrame) : Type 0 where
  pub applied : s.applied ≡ pos 0
  pub byte : torque_to_wheel_byte frame.constant ≡ 128

applied_zero :
    (s : TelemetrySource) (p : Option FfbPipeline) (force shaped : Float64)
    → IsZero shaped
    → let x = applied_frame s p force shaped in Released x.0 x.1
unfolding applied_frame
applied_zero s p force shaped z =
    let gone = no_force s shaped z in record { applied = gone; byte = rw gone zero_byte }

module _ (pow : Float64 → Float64 → Float64) (r : AdapterRegistry) where
  -- The game does not run its physics, its player does not drive, or the authorization that the
  -- adapter asks for is missing.
  abbrev pub Denied : TelemetrySource → TelemetryFrame → Type 0
  Denied s f =
      (f.physics ≡ false)
      ⊎ ((f.player_control ≡ false)
          ⊎ ((telemetry_adapter_requires_ffb_authorization r s.adapter_id ≡ true)
              × (f.ffb_enabled ≡ false)))

  denied_lem : (s : TelemetrySource) (f : TelemetryFrame) → Denied s f → permitted r s f ≡ false
  denied_lem s f h = ground arith

  requested-IsZero :
      (s : TelemetrySource) (f : TelemetryFrame)
      → permitted r s f ≡ false
      → IsZero (requested_force r s f)
  unfolding requested_force
  requested-IsZero s f h = elim (Bool-cases s.game.game_ffb_invert) [
    | inl flip ↦ simp (h, flip) (true, refl)
    | inr keep ↦ simp (h, keep) (false, refl)
  ]

  shaped_by-Released :
      (q : Option FfbPipeline) (p : FfbPipeline) (s : TelemetrySource) (force : Float64)
      (received_at now : ℕ)
      → q ≡ some p
      → WellTuned p.cfg
      → Unfiltered p
      → IsZero force
      → let x = shaped_by pow r q s force received_at now in Released x.0 x.1
  shaped_by-Released q p s force received_at now is h still z = rw is (
      applied_zero s _ force _
        (process-IsZero pow p force (game_gain s.game) received_at now now h still z))

  -- For a source with a pipeline whose tuning is in range: a fresh frame of a game that does not run
  -- its physics, whose player does not drive, or that lacks the authorization its adapter asks for
  -- gives the neutral byte, and the source applies no force, whatever force the telemetry carries, if
  -- no smoothing or low-pass filter of the pipeline is on that has seen a frame since its reset.
  pub try_get_frame-Released :
      (s : TelemetrySource) (t : TelemetryStatus) (now : ℕ) (p : FfbPipeline)
      → s.pipeline ≡ some p
      → WellTuned p.cfg
      → Unfiltered p
      → has_frame r s t ≡ true
      → Denied s t.last_frame
      → (frame : ForceFrame) × ((try_get_frame pow r s t now).1 ≡ some frame)
        × Released (try_get_frame pow r s t now).0 frame
  unfolding try_get_frame
  try_get_frame-Released s t now p is h still held denied =
      let force = requested_force r s t.last_frame in
      let x = shaped_by pow r s.pipeline s force t.last_frame.received_at now in
      let released =
        shaped_by-Released s.pipeline p s force t.last_frame.received_at now is h still
          (requested-IsZero s t.last_frame (denied_lem s t.last_frame denied)) in
      (x.1, simp held refl, simp held released)
