-- ===== src/Pipeline/Invalid.antt =====
-- internal/wheelengine/ffb_pipeline.go, ProcessFrame: a frame that is not a number stays in the memory
-- of the filters.
use logi_mate.Base.{ℕ, ◌≡◌, refl, true, false, not, ◌&&◌, ◌⊎◌, inl, inr, Bool-cases, ◌==◌, leb}
use logi_mate.Base.Float.{Float64, nan, zero_f, lt_f, eq_f, ◌-f◌, ◌*f◌}
use logi_mate.Base.Float.Nan.{add_nan, mul_nan, nan_add, nan_sub, nan_mul, nan_div}
use logi_mate.Protocol.Torque.{ForceFrame, one_f}
use logi_mate.Pipeline.{FfbTuning}
use logi_mate.Pipeline.State.{FfbPipeline}
use logi_mate.Pipeline.Frame.{
  record_locked, raw_unclamped, deadbanded, curved_force, minimum_forced, low_passed, smoothed,
}

pub raw_nan :
    (t : FfbTuning) (f : ForceFrame) (gain : Float64)
    → f.constant ≡ nan
    → raw_unclamped t f gain ≡ nan
unfolding raw_unclamped
raw_nan t f gain h =
    rw (h, nan_mul t.constant_gain, nan_add (f.transient *f t.transient_gain), nan_mul gain) refl

pub deadband_nan : (t : FfbTuning) → lt_f t.deadband one_f ≡ true → deadbanded t nan ≡ nan
unfolding deadbanded
deadband_nan t h = rw (h, nan_sub t.deadband) (nan_div (one_f -f t.deadband))

module _ (pow : Float64 → Float64 → Float64) where
  pub curve_nan :
      (t : FfbTuning) → eq_f t.response_exponent zero_f ≡ false → curved_force pow t nan ≡ nan
  unfolding curved_force
  curve_nan t h = elim (Bool-cases (eq_f t.response_exponent one_f)) [
    | inl one ↦ rw (h, one) refl
    | inr other ↦ rw (h, other) refl
  ]

pub minimum_nan : (t : FfbTuning) → minimum_forced t nan ≡ nan
unfolding minimum_forced
minimum_nan t =
    let m = t.minimum_force in
    elim (Bool-cases (lt_f zero_f m)) [
      | inl up ↦ rw (up, nan_mul (one_f -f m)) (add_nan m)
      | inr none_set ↦ rw none_set refl
    ]

-- The filters that a tuning switches on.
abbrev pub Filtered : FfbTuning → Type 0
Filtered t = (lt_f zero_f t.smoothing ≡ true) ⊎ (lt_f zero_f t.low_pass_hz ≡ true)

-- A filter that is on remembers a force that is no number.
pub record Stuck (p : FfbPipeline) : Type 0 where
  pub on : p.cfg.enabled ≡ true
  pub remembers : p.have_state ≡ true
  pub memory :
      ((lt_f zero_f p.cfg.smoothing ≡ true) × (p.output ≡ nan))
      ⊎ ((lt_f zero_f p.cfg.low_pass_hz ≡ true) × (p.low_pass ≡ nan))

pub smoothed_of_nan : (p : FfbPipeline) → smoothed p nan ≡ nan
unfolding smoothed
smoothed_of_nan p =
    let s = p.cfg.smoothing in
    elim (Bool-cases (lt_f zero_f s && p.have_state)) [
      | inl on ↦ simp (on, nan_mul (one_f -f s), add_nan (p.output *f s)) refl
      | inr off ↦ simp off refl
    ]

pub low_passed_of_nan : (p : FfbPipeline) (now : ℕ) → low_passed p now nan ≡ nan
unfolding low_passed
low_passed_of_nan p now = elim (Bool-cases (lt_f zero_f p.cfg.low_pass_hz && p.have_state)) [
  | inl on ↦ simp (on, nan_sub p.low_pass, mul_nan _, add_nan p.low_pass) refl
  | inr off ↦ simp off refl
]

pub smoothed_with_nan :
    (p : FfbPipeline) (low : Float64)
    → p.have_state ≡ true
    → lt_f zero_f p.cfg.smoothing ≡ true
    → p.output ≡ nan
    → smoothed p low ≡ nan
unfolding smoothed
smoothed_with_nan p low state on memory =
    simp (state, on, memory, nan_mul p.cfg.smoothing, nan_add (low *f (one_f -f p.cfg.smoothing)))
      refl

pub low_passed_with_nan :
    (p : FfbPipeline) (now : ℕ) (force : Float64)
    → p.have_state ≡ true
    → lt_f zero_f p.cfg.low_pass_hz ≡ true
    → p.low_pass ≡ nan
    → low_passed p now force ≡ nan
unfolding low_passed
low_passed_with_nan p now force state on memory = simp (state, on, memory, nan_add _) refl

pub record_locked_keeps :
    (p : FfbPipeline) (raw dead curved min low out : Float64) (sample_at now : ℕ)
    → let p' = record_locked p raw dead curved min low out sample_at now in
      (p'.cfg ≡ p.cfg)
      × (p'.have_state ≡ p.have_state)
      × (p'.low_pass ≡ p.low_pass)
      × (p'.output ≡ p.output)
unfolding record_locked
record_locked_keeps p raw dead curved min low out sample_at now =
    elim (Bool-cases (not (sample_at == 0) && leb sample_at now)) [
      | inl q ↦ simp q (refl, refl, refl, refl)
      | inr q ↦ simp q (refl, refl, refl, refl)
    ]
