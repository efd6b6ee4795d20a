-- ===== src/Pipeline/Stuck.antt =====
-- internal/wheelengine/ffb_pipeline.go, ProcessFrame: after a frame that is not a number, a filter
-- gives no number for any later frame.
use logi_mate.Base.{ℕ, ◌≡◌, ◌∙◌, ap, refl, true, false, ◌⊎◌, inl, inr, List, [], ◌∷◌, All, arith}
use logi_mate.Base.Float.{Float64, nan, num, zero_f, neg_f, lt_f, eq_f, clamp}
use logi_mate.Base.Float.Nan.{clamp_nan}
use logi_mate.Base.Float.Ranges.{Within}
use logi_mate.Protocol.Torque.{ForceFrame, one_f, minus_one_f}
use logi_mate.Pipeline.{FfbTuning, fifth_f, half_f, two_f}
use logi_mate.Pipeline.Tuning.{WellTuned}
use logi_mate.Pipeline.State.{FfbPipeline}
use logi_mate.Pipeline.Frame.{
  limited, deadbanded, curved_force, minimum_forced, low_passed, smoothed, shaped_frame,
  process_frame, gain_or_one,
}
use logi_mate.Pipeline.Invalid.{
  Filtered, Stuck, raw_nan, deadband_nan, curve_nan, minimum_nan, smoothed_of_nan,
  low_passed_of_nan, smoothed_with_nan, low_passed_with_nan, record_locked_keeps,
}
use logi_mate.Pipeline.Runs.{PipelineCall, shape, call_pipeline, run_pipeline}

below_one : (d : Float64) → Within zero_f fifth_f d → lt_f d one_f ≡ true
below_one nan (above, below) = ground arith
below_one (num false m) (above, below) = ground arith
below_one (num true m) (above, below) = ground arith

not_zero : (e : Float64) → Within half_f two_f e → eq_f e zero_f ≡ false
not_zero nan (above, below) = ground arith
not_zero (num false m) (above, below) = ground arith
not_zero (num true m) (above, below) = ground arith

limited_of_nan : (t : FfbTuning) (x : Float64) → x ≡ nan → limited t x ≡ nan
limited_of_nan t x h = rw h (clamp_nan (neg_f t.output_limit) t.output_limit)

module _ (pow : Float64 → Float64 → Float64) where
  shaped_low : FfbPipeline → Float64 → ℕ → Float64
  shaped_low p raw now =
      low_passed p now (minimum_forced p.cfg (curved_force pow p.cfg (deadbanded p.cfg raw)))

  record Left (p : FfbPipeline) (low : Float64) (r : FfbPipeline × Float64) : Type 0 where
    pub cfg : r.0.cfg ≡ p.cfg
    pub state : r.0.have_state ≡ true
    pub low_pass : r.0.low_pass ≡ low
    pub output : r.0.output ≡ limited p.cfg (smoothed p low)
    pub returned : r.1 ≡ limited p.cfg (smoothed p low)

  shaped_frame-Left :
      (p : FfbPipeline) (raw : Float64) (sample_at now : ℕ)
      → Left p (shaped_low p raw now) (shaped_frame pow p raw sample_at now)
  unfolding shaped_frame shaped_low
  shaped_frame-Left p raw sample_at now =
      let dead = deadbanded p.cfg raw in
      let curved = curved_force pow p.cfg dead in
      let min_force = minimum_forced p.cfg curved in
      let low = low_passed p now min_force in
      let out = smoothed p low in
      let (cfg, state, low_pass, output) =
        record_locked_keeps _ raw dead curved min_force low (limited p.cfg out) sample_at now in
      record { cfg = cfg; state = state; low_pass = low_pass; output = output; returned = refl }

  -- A frame whose filters end at no number leaves a pipeline that is stuck.
  Left-Stuck :
      (p : FfbPipeline) (low : Float64) (r : FfbPipeline × Float64)
      → Left p low r
      → p.cfg.enabled ≡ true
      → smoothed p low ≡ nan
      → (lt_f zero_f p.cfg.smoothing ≡ true)
        ⊎ ((lt_f zero_f p.cfg.low_pass_hz ≡ true) × (low ≡ nan))
      → Stuck r.0 × (r.1 ≡ nan)
  Left-Stuck p low r left on out (inl filter) =
      let gone = limited_of_nan p.cfg (smoothed p low) out in
      (
        record {
          on = ap (λ t. t.enabled) left.cfg ∙ on;
          remembers = left.state;
          memory = inl (ap (λ t. lt_f zero_f t.smoothing) left.cfg ∙ filter, left.output ∙ gone);
        },
        left.returned ∙ gone,
      )
  Left-Stuck p low r left on out (inr (filter, low_gone)) =
      let gone = limited_of_nan p.cfg (smoothed p low) out in
      (
        record {
          on = ap (λ t. t.enabled) left.cfg ∙ on;
          remembers = left.state;
          memory =
              inr (ap (λ t. lt_f zero_f t.low_pass_hz) left.cfg ∙ filter, left.low_pass ∙ low_gone);
        },
        left.returned ∙ gone,
      )

  nan_smoothed : (p : FfbPipeline) (low : Float64) → low ≡ nan → smoothed p low ≡ nan
  nan_smoothed p low h = rw h (smoothed_of_nan p)

  stays-Stuck :
      (p : FfbPipeline) (raw : Float64) (sample_at now : ℕ)
      → Stuck p
      → let r = shaped_frame pow p raw sample_at now in Stuck r.0 × (r.1 ≡ nan)
  stays-Stuck p raw sample_at now h =
      let low = shaped_low p raw now in
      let left = shaped_frame-Left p raw sample_at now in
      elim h.memory [
        | inl (filter, memory) ↦
            Left-Stuck p low _ left h.on (smoothed_with_nan p low h.remembers filter memory)
              (inl filter)
        | inr (filter, memory) ↦
            let gone : low ≡ nan =
              unfold shaped_low in low_passed_with_nan p now _ h.remembers filter memory in
            Left-Stuck p low _ left h.on (nan_smoothed p low gone) (inr (filter, gone))
      ]

  becomes-Stuck :
      (p : FfbPipeline) (raw : Float64) (sample_at now : ℕ)
      → WellTuned p.cfg
      → p.cfg.enabled ≡ true
      → Filtered p.cfg
      → raw ≡ nan
      → let r = shaped_frame pow p raw sample_at now in Stuck r.0 × (r.1 ≡ nan)
  becomes-Stuck p raw sample_at now tuned on filters h =
      let low = shaped_low p raw now in
      let gone : low ≡ nan =
        unfold shaped_low in
        rw
          (
            h,
            deadband_nan p.cfg (below_one p.cfg.deadband tuned.deadband),
            curve_nan pow p.cfg (not_zero p.cfg.response_exponent tuned.response_exponent),
            minimum_nan p.cfg,
          )
          (low_passed_of_nan p now) in
      Left-Stuck p low _ (shaped_frame-Left p raw sample_at now) on (nan_smoothed p low gone)
        (elim filters [ inl s ↦ inl s | inr l ↦ inr (l, gone) ])

  process-Stuck :
      (p : FfbPipeline) (frame : ForceFrame) (gain : Float64) (sample_at now clock : ℕ)
      → Stuck p
      → let r = process_frame pow p frame gain sample_at now clock in Stuck r.0 × (r.1 ≡ nan)
  unfolding process_frame
  process-Stuck p frame gain sample_at now clock h = simp h.on (
      stays-Stuck _ _ sample_at _
        (record { on = h.on; remembers = h.remembers; memory = h.memory }))

  process_invalid :
      (p : FfbPipeline) (frame : ForceFrame) (gain : Float64) (sample_at now clock : ℕ)
      → WellTuned p.cfg
      → p.cfg.enabled ≡ true
      → Filtered p.cfg
      → frame.constant ≡ nan
      → let r = process_frame pow p frame gain sample_at now clock in Stuck r.0 × (r.1 ≡ nan)
  unfolding process_frame
  process_invalid p frame gain sample_at now clock tuned on filters h = simp on (
      becomes-Stuck _ _ sample_at _ tuned on filters (
        ap (λ x. clamp x minus_one_f one_f) (raw_nan p.cfg frame (gain_or_one gain) h)
        ∙ clamp_nan minus_one_f one_f))

-- The calls are frames only.
abbrev pub IsFrame : PipelineCall → Type 0
IsFrame (shape frame gain sample_at now clock) = Unit
IsFrame _ = ⊥

abbrev pub NoNumber : FfbTuning × Float64 → Type 0
NoNumber (t, x) = x ≡ nan

module _ (pow : Float64 → Float64 → Float64) where
  run-Stuck :
      (p : FfbPipeline) (cs : List PipelineCall)
      → Stuck p
      → All IsFrame cs
      → All NoNumber (run_pipeline pow p cs).1
  unfolding run_pipeline call_pipeline
  run-Stuck p [] h fs = tt
  run-Stuck p (shape frame gain sample_at now clock ∷ cs) h (f, fs) =
      let (h', gone) = process-Stuck pow p frame gain sample_at now clock h in
      (gone, run-Stuck (process_frame pow p frame gain sample_at now clock).0 cs h' fs)
  run-Stuck p (_ ∷ cs) h (f, fs) = elim f [ ]

  -- With a filter on, a frame whose constant part is not a number, and then any frames: no frame gives
  -- a number any more.
  pub invalid_frame-NoNumber :
      (p : FfbPipeline) (frame : ForceFrame) (gain : Float64) (sample_at now clock : ℕ)
      (cs : List PipelineCall)
      → WellTuned p.cfg
      → p.cfg.enabled ≡ true
      → Filtered p.cfg
      → frame.constant ≡ nan
      → All IsFrame cs
      → All NoNumber (run_pipeline pow p (shape frame gain sample_at now clock ∷ cs)).1
  unfolding run_pipeline call_pipeline
  invalid_frame-NoNumber p frame gain sample_at now clock cs tuned on filters h fs =
      let (h', gone) = process_invalid pow p frame gain sample_at now clock tuned on filters h in
      (gone, run-Stuck (process_frame pow p frame gain sample_at now clock).0 cs h' fs)
