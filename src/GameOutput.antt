-- ===== src/GameOutput.antt =====
-- internal/system/fusion_c6_windows.go: the source that turns the telemetry of a game into the frames of
-- the force scheduler.
pub mod Ceiling
pub mod Zero
pub mod Gate
pub mod Options
mod Examples
use logi_mate.Base.{
  ℕ, ◌+◌, ◌%◌, ◌^◌, Bool, true, false, not, ◌&&◌, ◌||◌, Option, none, some, List, ◌==◌,
  if◌then◌else◌,
}
use logi_mate.Base.Int.{ℤ, pos}
use logi_mate.Base.Text.{Text}
use logi_mate.Base.Float.{Float64, zero_f, neg_f, clamp, of_ℤ, round_away_to_int, ◌*f◌, ◌/f◌}
use logi_mate.Protocol.Torque.{ForceFrame, one_f, minus_one_f}
use logi_mate.Pipeline.{percent_f, hundred_f}
use logi_mate.Pipeline.State.{FfbPipeline}
use logi_mate.Pipeline.Frame.{process_frame}
use logi_mate.Safety.{
  NativeFfbConfig, NativeEngineProfile, NativeEffectRequest, NativeEffectMix, mix_native_effects,
}
use logi_mate.GameAdapter.{TelemetryFrame}
use logi_mate.GameAdapter.Registry.{
  AdapterRegistry, same_telemetry_adapter, telemetry_adapter_requires_ffb_authorization,
}

pub record GameProfile : Type 0 where
  pub name : Text
  pub executables : List Text
  pub process_match : Text
  pub source : Text
  pub enabled : Bool
  pub auto_apply : Bool
  pub foreground_only : Bool
  pub engine_profile : Text
  pub master_gain_percent : ℤ
  pub constant_gain_percent : ℤ
  pub spring_gain_percent : ℤ
  pub damper_gain_percent : ℤ
  pub friction_gain_percent : ℤ
  pub led_policy : Text
  pub telemetry_adapter : Text
  pub telemetry_port : ℤ
  pub priority : ℤ
  pub game_ffb_enabled : Bool
  pub game_ffb_gain_percent : ℤ
  pub game_ffb_invert : Bool
  pub autocenter_percent : ℤ
  pub damper_percent : ℤ
  pub updated_at : ℕ

-- The address, the age of the last frame and the rates, which only the interface shows, are left out.
pub record TelemetryStatus : Type 0 where
  pub running : Bool
  pub adapter : Text
  pub packets : ℕ
  pub frames : ℕ
  pub invalid : ℕ
  pub last_frame : TelemetryFrame
  pub last_error : Text
  pub stale : Bool
  pub started_at : ℕ

pub record TelemetrySource : Type 0 where
  pub active : Bool
  pub game : GameProfile
  pub engine : NativeEngineProfile
  pub cfg : NativeFfbConfig
  pub adapter_id : Text
  pub requested : Float64
  pub shaped : Float64
  pub applied : ℤ
  pub safety_clips : ℕ
  pub pipeline : Option FfbPipeline

unfoldable pub game_gain : GameProfile → Float64
game_gain p =
    percent_f p.game_ffb_gain_percent
    *f percent_f p.master_gain_percent
    *f percent_f p.constant_gain_percent

-- Whether the game may move the wheel: it runs, the player drives, and the adapter's authorization.
abbrev pub permitted : AdapterRegistry → TelemetrySource → TelemetryFrame → Bool
permitted r s f =
    f.physics
    && f.player_control
    && (not (telemetry_adapter_requires_ffb_authorization r s.adapter_id) || f.ffb_enabled)

unfoldable pub requested_force : AdapterRegistry → TelemetrySource → TelemetryFrame → Float64
requested_force r s f =
    let force = if permitted r s f then f.force else zero_f in
    if s.game.game_ffb_invert then neg_f force else force

-- There is a frame to shape.
abbrev pub has_frame : AdapterRegistry → TelemetrySource → TelemetryStatus → Bool
has_frame r s t =
    s.active
    && s.game.game_ffb_enabled
    && t.running
    && same_telemetry_adapter r t.adapter s.adapter_id
    && not t.stale
    && not (t.last_frame.received_at == 0)

-- `NativeEffectRequest{Constant: nominal}`
abbrev pub constant_request : ℤ → NativeEffectRequest
constant_request n = record { constant = n; spring = pos 0; damper = pos 0; friction = pos 0 }

-- `ForceFrame{Constant: v}`
abbrev pub constant_frame : Float64 → ForceFrame
constant_frame v = record { constant = v; spring = zero_f; damper = zero_f; transient = zero_f }

abbrev pub mixed : TelemetrySource → Float64 → NativeEffectMix
mixed s shaped =
    mix_native_effects (constant_request (round_away_to_int (shaped *f hundred_f))) s.engine s.cfg

-- The rest of TryGetFrame, for a force that is shaped by a pipeline, or by none.
unfoldable pub applied_frame :
    TelemetrySource → Option FfbPipeline → Float64 → Float64 → TelemetrySource × ForceFrame
applied_frame s p force shaped =
    let mix = mixed s shaped in
    (
      record s {
        requested = force;
        shaped = shaped;
        applied = mix.constant;
        safety_clips = (s.safety_clips + mix.clip_events) % 2 ^ 64;
        pipeline = p;
      },
      constant_frame (percent_f mix.constant),
    )

module _ (pow : Float64 → Float64 → Float64) (r : AdapterRegistry) where
  abbrev pub shaped_by :
      Option FfbPipeline → TelemetrySource → Float64 → ℕ → ℕ → TelemetrySource × ForceFrame
  shaped_by none s force received_at now =
      applied_frame s none force (clamp (force *f game_gain s.game) minus_one_f one_f)
  shaped_by (some p) s force received_at now =
      let (p', shaped) =
        process_frame pow p (constant_frame force) (game_gain s.game) received_at now now in
      applied_frame s (some p') force shaped

  -- The source after TryGetFrame, and its frame.
  unfoldable pub try_get_frame :
      TelemetrySource → TelemetryStatus → ℕ → TelemetrySource × Option ForceFrame
  try_get_frame s t now =
      let (s', frame) =
        shaped_by s.pipeline s (requested_force r s t.last_frame) t.last_frame.received_at now in
      if has_frame r s t then (s', some frame) else (s, none)
