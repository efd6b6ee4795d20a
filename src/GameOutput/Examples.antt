-- ===== src/GameOutput/Examples.antt =====
-- Runs of the telemetry source: a game that drives the wheel, and one that may not.
use logi_mate.Base.{[], ◌∷◌, ◌≡◌, ◌⊎◌, refl, inl, inr, true, false, none, some}
use logi_mate.Base.Int.{pos}
use logi_mate.Base.Text.{codes, equal_fold, trim_space}
use logi_mate.Base.Maps.{lookup}
use logi_mate.Base.Float.{Float64, zero_f}
use logi_mate.Safety.{default_native_ffb_config, NativeEngineProfile}
use logi_mate.Protocol.Torque.{ForceFrame}
use logi_mate.Pipeline.{default_ffb_tuning, half_f}
use logi_mate.Pipeline.Tuning.{default-WellTuned}
use logi_mate.Pipeline.State.{fresh}
use logi_mate.GameAdapter.{zero_frame}
use logi_mate.GameAdapter.Registry.{
  AdapterRegistry, new_registry, register, normalize_id, canonical_id, same_telemetry_adapter,
  id_wreckfest_pino,
}
use logi_mate.GameOutput.{GameProfile, TelemetryStatus, TelemetrySource, try_get_frame}
use logi_mate.GameOutput.Ceiling.{Capped, try_get_frame-Capped}
use logi_mate.GameOutput.Gate.{Released, try_get_frame-Released}

abbrev registry : AdapterRegistry
registry = new_registry

abbrev linear : Float64 → Float64 → Float64
linear x y = x

abbrev engine : NativeEngineProfile
engine = record {
  name = codes "Balanced";
  rotation_degrees = pos 900;
  master_gain_percent = pos 75;
  constant_gain_percent = pos 100;
  spring_gain_percent = pos 0;
  damper_gain_percent = pos 0;
  friction_gain_percent = pos 0;
}

abbrev race : GameProfile
race = record {
  name = codes "Race";
  executables = codes "race.exe" ∷ [];
  process_match = [];
  source = [];
  enabled = true;
  auto_apply = true;
  foreground_only = false;
  engine_profile = codes "Balanced";
  master_gain_percent = pos 100;
  constant_gain_percent = pos 100;
  spring_gain_percent = pos 0;
  damper_gain_percent = pos 0;
  friction_gain_percent = pos 0;
  led_policy = codes "telemetry";
  telemetry_adapter = id_wreckfest_pino;
  telemetry_port = pos 23123;
  priority = pos 0;
  game_ffb_enabled = true;
  game_ffb_gain_percent = pos 100;
  game_ffb_invert = true;
  autocenter_percent = pos 0;
  damper_percent = pos 0;
  updated_at = 1;
}

abbrev source : TelemetrySource
source = record {
  active = true;
  game = race;
  engine = engine;
  cfg = default_native_ffb_config;
  adapter_id = id_wreckfest_pino;
  requested = zero_f;
  shaped = zero_f;
  applied = pos 0;
  safety_clips = 0;
  pipeline = some (fresh default_ffb_tuning);
}

abbrev driving : TelemetryStatus
driving = record {
  running = true;
  adapter = id_wreckfest_pino;
  packets = 1;
  frames = 1;
  invalid = 0;
  last_error = [];
  stale = false;
  started_at = 2;
  last_frame = record zero_frame {
    force = half_f;
    physics = true;
    player_control = true;
    ffb_enabled = true;
    received_at = 5;
  };
}

-- The same, without the player in control.
abbrev watching : TelemetryStatus
watching = record driving { last_frame = record (driving.last_frame) { player_control = false } }

try_get_frame-Capped_example :
    (try_get_frame linear registry source driving 9 ≡ (source, none))
    ⊎ ((frame : ForceFrame) × ((try_get_frame linear registry source driving 9).1 ≡ some frame)
        × Capped source.cfg (try_get_frame linear registry source driving 9).0 frame)
try_get_frame-Capped_example = try_get_frame-Capped linear registry source driving 9

try_get_frame-Released_example :
    (frame : ForceFrame) × ((try_get_frame linear registry source watching 9).1 ≡ some frame)
    × Released (try_get_frame linear registry source watching 9).0 frame
unfolding same_telemetry_adapter equal_fold canonical_id lookup new_registry register normalize_id
    trim_space
try_get_frame-Released_example =
    try_get_frame-Released linear registry source watching 9 (fresh default_ffb_tuning) refl
      (default-WellTuned true) (refl, refl) refl (inr (inl refl))
