-- ===== src/Pipeline/Bounds.antt =====
-- internal/wheelengine/ffb_pipeline.go, FFBPipeline: its tuning and its outputs stay in their ranges.
use logi_mate.Base.{
  ℕ, ◌≡◌, ◌∙◌, sym, subst, refl, true, false, ◌⊎◌, inl, inr, Bool-cases, not, ◌&&◌, ◌==◌, leb,
  arith,
}
use logi_mate.Base.Float.{Float64, nan, num, is_nan, neg_f, zero_f, le_f}
use logi_mate.Base.Float.Nan.{clamp_nan}
use logi_mate.Base.Float.Ranges.{Within, clamp-Within, Within_number}
use logi_mate.Protocol.Torque.{ForceFrame, one_f}
use logi_mate.Pipeline.{FfbTuning, tenth_f}
use logi_mate.Pipeline.Tuning.{WellTuned}
use logi_mate.Pipeline.State.{FfbPipeline, fresh}
use logi_mate.Pipeline.Frame.{
  record_locked, limited, passed_frame, deadbanded, curved_force, minimum_forced, low_passed,
  smoothed, shaped_frame, process_frame,
}

-- A force that is no number, or lies within the output limit of a tuning.
abbrev pub Limited : FfbTuning → Float64 → Type 0
Limited t x = (is_nan x ≡ true) ⊎ Within (neg_f t.output_limit) t.output_limit x

around_zero :
    (l : Float64) → Within tenth_f one_f l → (is_nan (neg_f l) ≡ false) × (le_f (neg_f l) l ≡ true)
around_zero nan (above, below) = ground arith
around_zero (num false m) w = (refl, ground arith)
around_zero (num true m) (above, below) = ground arith

limited-Limited : (t : FfbTuning) (x : Float64) → WellTuned t → Limited t (limited t x)
limited-Limited t nan h = inl (rw (clamp_nan (neg_f t.output_limit) t.output_limit) refl)
limited-Limited t (num s m) h =
    let (number, order) = around_zero t.output_limit h.output_limit in
    inr (
      clamp-Within (num s m) (neg_f t.output_limit) t.output_limit refl number
        (Within_number t.output_limit tenth_f one_f h.output_limit) order)

pub record PipelineInv (p : FfbPipeline) : Type 0 where
  pub tuned : WellTuned p.cfg
  pub last_output : Limited p.cfg p.output
  pub shown : Limited p.cfg p.snap.output
  pub shown_tuning : p.snap.config ≡ p.cfg

zero_within : (l : Float64) → Within tenth_f one_f l → Within (neg_f l) l zero_f
zero_within nan (above, below) = ground arith
zero_within (num false m) w = (ground arith, ground arith)
zero_within (num true m) (above, below) = ground arith

zero-Limited : (t : FfbTuning) → WellTuned t → Limited t zero_f
zero-Limited t h = inr (zero_within t.output_limit h.output_limit)

pub fresh-PipelineInv : (t : FfbTuning) → WellTuned t → PipelineInv (fresh t)
fresh-PipelineInv t h = record {
  tuned = h;
  last_output = zero-Limited t h;
  shown = zero-Limited t h;
  shown_tuning = refl;
}

-- What a frame does, for a pipeline with this tuning.
pub record Processed (t : FfbTuning) (r : FfbPipeline × Float64) : Type 0 where
  pub inv : PipelineInv r.0
  pub same_tuning : r.0.cfg ≡ t
  pub bounded : Limited t r.1
  pub returned : r.0.snap.output ≡ r.1

pub record_locked_lem :
    (p : FfbPipeline) (raw dead curved min low out : Float64) (sample_at now : ℕ)
    → let p' = record_locked p raw dead curved min low out sample_at now in
      (p'.cfg ≡ p.cfg) × (p'.output ≡ p.output) × (p'.snap.output ≡ out) × (p'.snap.config ≡ p.cfg)
unfolding record_locked
record_locked_lem p raw dead curved min low out sample_at now =
    elim (Bool-cases (not (sample_at == 0) && leb sample_at now)) [
      | inl q ↦ simp q (refl, refl, refl, refl)
      | inr q ↦ simp q (refl, refl, refl, refl)
    ]

inv_of_tuning :
    (t : FfbTuning) (p : FfbPipeline)
    → p.cfg ≡ t
    → WellTuned t
    → Limited t p.output
    → Limited t p.snap.output
    → p.snap.config ≡ t
    → PipelineInv p
inv_of_tuning t p same h last shown config = record {
  tuned = subst WellTuned (sym same) h;
  last_output = subst (λ u. Limited u p.output) (sym same) last;
  shown = subst (λ u. Limited u p.snap.output) (sym same) shown;
  shown_tuning = config ∙ sym same;
}

-- A frame that is recorded, with its force limited, and returned.
recorded-Processed :
    (t : FfbTuning) (p : FfbPipeline) (x raw dead curved min low y : Float64) (sample_at now : ℕ)
    → WellTuned t
    → p.cfg ≡ t
    → Limited t p.output
    → (record_locked p raw dead curved min low (limited t x) sample_at now).snap.output ≡ y
    → Processed t (record_locked p raw dead curved min low (limited t x) sample_at now, y)
recorded-Processed t p x raw dead curved min low y sample_at now h same last is =
    let p' = record_locked p raw dead curved min low (limited t x) sample_at now in
    let (cfg, out, shown, config) =
      record_locked_lem p raw dead curved min low (limited t x) sample_at now in
    let bound = subst (Limited t) (sym shown) (limited-Limited t x h) in
    record {
      inv =
          inv_of_tuning t p' (cfg ∙ same) h (subst (Limited t) (sym out) last) bound
            (config ∙ same);
      same_tuning = cfg ∙ same;
      bounded = subst (Limited t) is bound;
      returned = is;
    }

passed_frame-Processed :
    (p : FfbPipeline) (raw : Float64) (sample_at now : ℕ)
    → PipelineInv p
    → Processed p.cfg (passed_frame p raw sample_at now)
unfolding passed_frame
passed_frame-Processed p raw sample_at now h =
    recorded-Processed p.cfg p raw raw raw raw raw raw _ sample_at now h.tuned refl h.last_output
      refl

module _ (pow : Float64 → Float64 → Float64) where
  shaped_frame-Processed :
      (p : FfbPipeline) (raw : Float64) (sample_at now : ℕ)
      → PipelineInv p
      → Processed p.cfg (shaped_frame pow p raw sample_at now)
  unfolding shaped_frame
  shaped_frame-Processed p raw sample_at now h =
      let dead = deadbanded p.cfg raw in
      let curved = curved_force pow p.cfg dead in
      let min_force = minimum_forced p.cfg curved in
      let low = low_passed p now min_force in
      let out = smoothed p low in
      let (_, _, shown, _) =
        record_locked_lem _ raw dead curved min_force low (limited p.cfg out) sample_at now in
      recorded-Processed p.cfg _ out raw dead curved min_force low _ sample_at now h.tuned refl
        (limited-Limited p.cfg out h.tuned) shown

  clipped-PipelineInv :
      (p : FfbPipeline) (n : ℕ)
      → PipelineInv p
      → PipelineInv (record p { snap = record (p.snap) { input_clip_events = n } })
  clipped-PipelineInv p n h = record {
    tuned = h.tuned;
    last_output = h.last_output;
    shown = h.shown;
    shown_tuning = h.shown_tuning;
  }

  pub process_frame-Processed :
      (p : FfbPipeline) (frame : ForceFrame) (gain : Float64) (sample_at now clock : ℕ)
      → PipelineInv p
      → Processed p.cfg (process_frame pow p frame gain sample_at now clock)
  unfolding process_frame
  process_frame-Processed p frame gain sample_at now clock h = elim (Bool-cases p.cfg.enabled) [
    | inl on ↦ simp on (shaped_frame-Processed _ _ sample_at _ (clipped-PipelineInv p _ h))
    | inr off ↦ simp off (passed_frame-Processed _ _ sample_at _ (clipped-PipelineInv p _ h))
  ]
