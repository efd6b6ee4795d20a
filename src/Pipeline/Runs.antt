-- ===== src/Pipeline/Runs.antt =====
-- internal/wheelengine/ffb_pipeline.go, FFBPipeline: the calls of its methods, one after the other, as
-- its lock orders them.
use logi_mate.Base.{ℕ, ◌≡◌, List, [], ◌∷◌, ◌++◌, All, inl, inr}
use logi_mate.Base.Results.{Result, ok, err, OfOk, of_ok}
use logi_mate.Base.Float.{Float64}
use logi_mate.Protocol.Torque.{ForceFrame}
use logi_mate.Pipeline.{FfbTuning, TuningError, normalize_ffb_tuning}
use logi_mate.Pipeline.Tuning.{WellTuned, normalize_ffb_tuning-Normal}
use logi_mate.Pipeline.State.{
  FfbPipeline, fresh_result, new_ffb_pipeline, retuned, set_tuning, reset_pipeline,
}
use logi_mate.Pipeline.Frame.{process_frame}
use logi_mate.Pipeline.Bounds.{Limited, PipelineInv, fresh-PipelineInv, process_frame-Processed}

-- A call of SetTuning, of Reset, or of ProcessFrame with its frame, gain and times.
pub data PipelineCall : Type 0 where
  tune : FfbTuning → PipelineCall
  restart : PipelineCall
  shape : ForceFrame → Float64 → ℕ → ℕ → ℕ → PipelineCall

-- A force that ProcessFrame returned, with the tuning that it used.
abbrev pub BoundedOutput : FfbTuning × Float64 → Type 0
BoundedOutput (t, x) = WellTuned t × Limited t x

normal-WellTuned : (t : FfbTuning) → OfOk WellTuned (normalize_ffb_tuning t)
normal-WellTuned t = elim (normalize_ffb_tuning-Normal t) [
  | inl (bad, _) ↦ rw bad tt
  | inr (t', good) ↦ rw (good.result) (good.tuned)
]

retuned-PipelineInv :
    (p : FfbPipeline) (r : Result TuningError FfbTuning)
    → PipelineInv p
    → OfOk WellTuned r
    → PipelineInv (retuned p r).0
retuned-PipelineInv p (err e) h w = h
retuned-PipelineInv p (ok t) h w = fresh-PipelineInv t w

BoundedOutput-append :
    (xs ys : List (FfbTuning × Float64))
    → All BoundedOutput xs
    → All BoundedOutput ys
    → All BoundedOutput (xs ++ ys)
BoundedOutput-append [] ys h k = k
BoundedOutput-append (x ∷ xs) ys h k = (h.0, BoundedOutput-append xs ys h.1 k)

fresh_result-PipelineInv :
    (r : Result TuningError FfbTuning) → OfOk WellTuned r → OfOk PipelineInv (fresh_result r)
fresh_result-PipelineInv (err e) w = tt
fresh_result-PipelineInv (ok t) w = fresh-PipelineInv t w

new_ffb_pipeline-PipelineInv :
    (t : FfbTuning) (p : FfbPipeline) → new_ffb_pipeline t ≡ ok p → PipelineInv p
unfolding new_ffb_pipeline
new_ffb_pipeline-PipelineInv t p is =
    of_ok PipelineInv (fresh_result-PipelineInv (normalize_ffb_tuning t) (normal-WellTuned t)) is

module _ (pow : Float64 → Float64 → Float64) where
  unfoldable pub call_pipeline :
      FfbPipeline → PipelineCall → FfbPipeline × List (FfbTuning × Float64)
  call_pipeline p (tune t) = ((set_tuning p t).0, [])
  call_pipeline p restart = (reset_pipeline p, [])
  call_pipeline p (shape frame gain sample_at now clock) =
      let (p', x) = process_frame pow p frame gain sample_at now clock in (p', (p.cfg, x) ∷ [])

  unfoldable pub run_pipeline :
      FfbPipeline → List PipelineCall → FfbPipeline × List (FfbTuning × Float64)
  run_pipeline p [] = (p, [])
  run_pipeline p (c ∷ cs) =
      let (p1, xs) = call_pipeline p c in let (p2, ys) = run_pipeline p1 cs in (p2, xs ++ ys)

  call_pipeline-Bounded :
      (p : FfbPipeline) (c : PipelineCall)
      → PipelineInv p
      → PipelineInv (call_pipeline p c).0 × All BoundedOutput (call_pipeline p c).1
  unfolding call_pipeline set_tuning reset_pipeline
  call_pipeline-Bounded p (tune t) h =
      (retuned-PipelineInv p (normalize_ffb_tuning t) h (normal-WellTuned t), tt)
  call_pipeline-Bounded p restart h = (fresh-PipelineInv p.cfg h.tuned, tt)
  call_pipeline-Bounded p (shape frame gain sample_at now clock) h =
      let done = process_frame-Processed pow p frame gain sample_at now clock h in
      (done.inv, ((h.tuned, done.bounded), tt))

  run_pipeline-Bounded :
      (p : FfbPipeline) (cs : List PipelineCall)
      → PipelineInv p
      → PipelineInv (run_pipeline p cs).0 × All BoundedOutput (run_pipeline p cs).1
  unfolding run_pipeline
  run_pipeline-Bounded p [] h = (h, tt)
  run_pipeline-Bounded p (c ∷ cs) h =
      let (h1, out) = call_pipeline-Bounded p c h in
      let (h2, outs) = run_pipeline-Bounded (call_pipeline p c).0 cs h1 in
      (h2, BoundedOutput-append _ _ out outs)

  -- Whatever `math.Pow` computes, and whatever the frames, gains and times are: after any calls of a
  -- new pipeline its tuning is in range, and every force that it returned lies within the output limit
  -- of the tuning in use, which is at most 1, or is no number.
  pub new_pipeline-Bounded :
      (t : FfbTuning) (p : FfbPipeline) (cs : List PipelineCall)
      → new_ffb_pipeline t ≡ ok p
      → PipelineInv (run_pipeline p cs).0 × All BoundedOutput (run_pipeline p cs).1
  new_pipeline-Bounded t p cs is = run_pipeline-Bounded p cs (new_ffb_pipeline-PipelineInv t p is)
