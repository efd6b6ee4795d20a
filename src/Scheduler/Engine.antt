-- ===== src/Scheduler/Engine.antt =====
-- internal/wheelengine/ffb_scheduler.go, FFBEngine: the loop that feeds frames to the output. A pump
-- with no frame is one whose source has none, or that has no source. Start spawns a goroutine that
-- only pumps, and Stop ends it before the panic, so a run is a list of pumps.
use logi_mate.Base.{
  ℕ, suc, Bool, true, false, not, Option, none, some, List, [], ◌∷◌, ◌||◌, if◌then◌else◌,
}
use logi_mate.Base.Float.{Float64, is_nan, is_inf}
use logi_mate.Protocol.Torque.{ForceFrame, one_f, resolve_force_frame}
use logi_mate.Scheduler.{WheelOutput, set_force, tick_output, panic_output}

pub record FfbEngine : Type 0 where
  pub output : WheelOutput
  pub master_gain : Float64
  pub running : Bool
  pub pumps : ℕ
  pub source_frames : ℕ
  pub last_pump : ℕ
  pub last_error : Option ℕ

unfoldable pub new_ffb_engine : WheelOutput → FfbEngine
new_ffb_engine w = record {
  output = w;
  master_gain = one_f;
  running = false;
  pumps = 0;
  source_frames = 0;
  last_pump = 0;
  last_error = none;
}

unfoldable pub set_master_gain : FfbEngine → Float64 → FfbEngine
set_master_gain e gain = record e {
  master_gain = if is_nan gain || is_inf gain then one_f else gain;
}

-- `if x != nil && err == nil { err = x }`
abbrev pub first_error : Option ℕ → Option ℕ → Option ℕ
first_error (some x) y = some x
first_error none y = y

module _ (transport : ℕ → Bool) where
  -- The end of a pump: its tick, and the counters.
  unfoldable pub pumped : FfbEngine → WheelOutput × Option ℕ → ℕ → ℕ → FfbEngine × Option ℕ
  pumped e (w, x) frames now =
      let (w', y) = tick_output transport w now in
      let err = first_error x y in
      (
        record e {
          output = w';
          pumps = suc e.pumps;
          source_frames = frames;
          last_pump = now;
          last_error = err;
        },
        err,
      )

  unfoldable pub pump_once : FfbEngine → Option ForceFrame → ℕ → FfbEngine × Option ℕ
  pump_once e none now = pumped e (e.output, none) e.source_frames now
  pump_once e (some f) now =
      pumped e (set_force transport e.output (resolve_force_frame f e.master_gain) now)
        (suc e.source_frames) now

  -- Start, and whether the engine did not run yet.
  unfoldable pub start_engine : FfbEngine → FfbEngine × Bool
  start_engine e = (record e { running = true }, not e.running)

  unfoldable pub stop_engine : FfbEngine → ℕ → FfbEngine × List ℕ
  stop_engine e now =
      let (w, es) = panic_output transport e.output now in
      (record e { running = false; output = w }, es)

  -- The pumps of a running engine, each with its frame and time.
  unfoldable pub pump_all : FfbEngine → List (Option ForceFrame × ℕ) → FfbEngine
  pump_all e [] = e
  pump_all e ((f, now) ∷ ps) = pump_all (pump_once e f now).0 ps
