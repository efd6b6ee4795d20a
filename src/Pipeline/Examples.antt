-- ===== src/Pipeline/Examples.antt =====
-- Runs of the pipeline: its default tuning, a frame, and a configuration that is saved and read.
use logi_mate.Base.{◌≡◌, refl, true, false, none, List, [], ◌∷◌, All, if◌then◌else◌}
use logi_mate.Base.Int.{pos}
use logi_mate.Base.Text.{codes, trim_space}
use logi_mate.Base.Results.{ok, err}
use logi_mate.Base.Float.{Float64, nan, num, zero_f, clamp}
use logi_mate.Model.{g27}
use logi_mate.Protocol.Torque.{ForceFrame, one_f}
use logi_mate.Pipeline.{
  FfbTuning, not_finite, default_ffb_tuning, half_f, fifth_f, all_finite, ranged,
  normalize_ffb_tuning,
}
use logi_mate.Pipeline.Tuning.{Normal, default-WellTuned, normalize_ffb_tuning-WellTuned}
use logi_mate.Pipeline.State.{fresh, new_ffb_pipeline}
use logi_mate.Pipeline.Bounds.{PipelineInv}
use logi_mate.Pipeline.Runs.{
  PipelineCall, tune, restart, shape, BoundedOutput, run_pipeline, new_pipeline-Bounded,
}
use logi_mate.Pipeline.Advanced.{
  AdvancedFfbConfig, default_advanced_ffb_config, advanced_ffb_tuning, read_advanced_ffb_config,
  with_config, kept_entries, save_advanced_ffb_config,
}
use logi_mate.Pipeline.Advanced.Saved.{saved_config-starts}

-- A tuning with a gain that is too large, which is cut, and one with a gain that is not a number.
abbrev loud : FfbTuning
loud = record default_ffb_tuning {
  constant_gain = num false 0x4014000000000000;
  smoothing = fifth_f;
}

broken_gain :
    normalize_ffb_tuning (record default_ffb_tuning { constant_gain = nan }) ≡ err not_finite
unfolding normalize_ffb_tuning all_finite
broken_gain = refl

normalize_ffb_tuning-WellTuned_example :
    Normal loud × (normalize_ffb_tuning default_ffb_tuning ≡ ok default_ffb_tuning)
normalize_ffb_tuning-WellTuned_example =
    normalize_ffb_tuning-WellTuned loud default_ffb_tuning (default-WellTuned true) refl

abbrev linear : Float64 → Float64 → Float64
linear x y = x

abbrev half_frame : ForceFrame
half_frame = record { constant = half_f; spring = zero_f; damper = zero_f; transient = zero_f }

abbrev calls : List PipelineCall
calls = shape half_frame one_f 5 7 7 ∷ tune loud ∷ shape half_frame one_f 8 9 9 ∷ restart ∷ []

new_pipeline-Bounded_example :
    PipelineInv (run_pipeline linear (fresh default_ffb_tuning) calls).0
    × All BoundedOutput (run_pipeline linear (fresh default_ffb_tuning) calls).1
unfolding new_ffb_pipeline normalize_ffb_tuning all_finite ranged clamp
new_pipeline-Bounded_example =
    new_pipeline-Bounded linear default_ffb_tuning (fresh default_ffb_tuning) calls refl

abbrev soft : AdvancedFfbConfig
unfolding default_advanced_ffb_config
soft = record (default_advanced_ffb_config g27) { smoothing_percent = pos 12 }

saved_config-starts_example :
    new_ffb_pipeline (
      advanced_ffb_tuning
        (read_advanced_ffb_config
          (codes "data")
          (save_advanced_ffb_config (ok none) (codes "g27-a") g27 soft true).0
          (codes "g27-a")
          g27)
        g27)
    ≡ ok (
        fresh (
          if soft.enabled
          then advanced_ffb_tuning soft g27
          else (record default_ffb_tuning { enabled = false })))
unfolding trim_space save_advanced_ffb_config with_config kept_entries soft
saved_config-starts_example =
    saved_config-starts (codes "data") (codes "g27-a") (ok none) g27 soft true refl refl refl
