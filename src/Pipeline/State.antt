-- ===== src/Pipeline/State.antt =====
-- internal/wheelengine/ffb_pipeline.go, FFBPipeline: its state, and how it starts anew. A time is its
-- nanoseconds since Go's zero time, so the zero time is 0.
use logi_mate.Base.{ℕ, Bool, false, Option, none, some}
use logi_mate.Base.Int.{ℤ, pos}
use logi_mate.Base.Results.{Result, ok, err}
use logi_mate.Base.Float.{Float64, zero_f}
use logi_mate.Pipeline.{FfbTuning, TuningError, normalize_ffb_tuning}

pub record FfbPipelineSnapshot : Type 0 where
  pub enabled : Bool
  pub raw_force : Float64
  pub after_deadband : Float64
  pub after_curve : Float64
  pub after_minimum_force : Float64
  pub after_low_pass : Float64
  pub output : Float64
  pub frames : ℕ
  pub input_clip_events : ℕ
  pub output_clip_events : ℕ
  pub deadband_hits : ℕ
  pub minimum_force_applications : ℕ
  pub last_sample_latency : ℤ
  pub average_sample_latency : ℤ
  pub max_sample_latency : ℤ
  pub last_processed_at : ℕ
  pub config : FfbTuning

pub record FfbPipeline : Type 0 where
  pub cfg : FfbTuning
  pub have_state : Bool
  pub last_at : ℕ
  pub low_pass : Float64
  pub output : Float64
  pub snap : FfbPipelineSnapshot
  pub latency_sum : ℤ

-- A pipeline with this tuning that saw no frame.
abbrev pub fresh : FfbTuning → FfbPipeline
fresh t = record {
  cfg = t;
  have_state = false;
  last_at = 0;
  low_pass = zero_f;
  output = zero_f;
  snap = record {
    enabled = t.enabled;
    raw_force = zero_f;
    after_deadband = zero_f;
    after_curve = zero_f;
    after_minimum_force = zero_f;
    after_low_pass = zero_f;
    output = zero_f;
    frames = 0;
    input_clip_events = 0;
    output_clip_events = 0;
    deadband_hits = 0;
    minimum_force_applications = 0;
    last_sample_latency = pos 0;
    average_sample_latency = pos 0;
    max_sample_latency = pos 0;
    last_processed_at = 0;
    config = t;
  };
  latency_sum = pos 0;
}

abbrev pub fresh_result : Result TuningError FfbTuning → Result TuningError FfbPipeline
fresh_result (err e) = err e
fresh_result (ok t) = ok (fresh t)

unfoldable pub new_ffb_pipeline : FfbTuning → Result TuningError FfbPipeline
new_ffb_pipeline t = fresh_result (normalize_ffb_tuning t)

-- The pipeline after SetTuning, and its error.
abbrev pub retuned : FfbPipeline → Result TuningError FfbTuning → FfbPipeline × Option TuningError
retuned p (err e) = (p, some e)
retuned p (ok t) = (fresh t, none)

unfoldable pub set_tuning : FfbPipeline → FfbTuning → FfbPipeline × Option TuningError
set_tuning p t = retuned p (normalize_ffb_tuning t)

unfoldable pub reset_pipeline : FfbPipeline → FfbPipeline
reset_pipeline p = fresh p.cfg
