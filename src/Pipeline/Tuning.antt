-- ===== src/Pipeline/Tuning.antt =====
-- internal/wheelengine/ffb_pipeline.go, NormalizeFFBTuning: what a tuning that is accepted satisfies.
use logi_mate.Base.{
  not, ◌&&◌, sym, ◌∙◌, ◌≡◌, refl, Bool, true, false, if◌then◌else◌, ◌⊎◌, inl, inr, Bool-cases,
  arith,
}
use logi_mate.Base.Results.{ok, err}
use logi_mate.Base.Float.{Float64, nan, num, zero_f, eq_f, lt_f, is_nan, is_finite, clamp}
use logi_mate.Base.Float.Ranges.{Within, clamp-Within, clamp_id, finite_number, Within_finite}
use logi_mate.Protocol.Torque.{one_f}
use logi_mate.Pipeline.{
  FfbTuning, default_ffb_tuning, tenth_f, fifth_f, half_f, nine_tenths_f, gain_f, two_f, five_f,
  hundred_f, all_finite, or_one, not_finite, ranged, normalize_ffb_tuning,
}

-- Each value lies in the range that its comment in the source gives.
pub record WellTuned (t : FfbTuning) : Type 0 where
  pub constant_gain : Within zero_f gain_f t.constant_gain
  pub transient_gain : Within zero_f gain_f t.transient_gain
  pub deadband : Within zero_f fifth_f t.deadband
  pub minimum_force : Within zero_f fifth_f t.minimum_force
  pub response_exponent : Within half_f two_f t.response_exponent
  pub low_pass_hz : (eq_f t.low_pass_hz zero_f ≡ true) ⊎ Within five_f hundred_f t.low_pass_hz
  pub smoothing : Within zero_f nine_tenths_f t.smoothing
  pub output_limit : Within tenth_f one_f t.output_limit

pub default-WellTuned : (b : Bool) → WellTuned (record default_ffb_tuning { enabled = b })
default-WellTuned b = record {
  constant_gain = (refl, refl);
  transient_gain = (refl, refl);
  deadband = (refl, refl);
  minimum_force = (refl, refl);
  response_exponent = (refl, refl);
  low_pass_hz = inl refl;
  smoothing = (refl, refl);
  output_limit = (refl, refl);
}

or_one_number : (v : Float64) → is_nan v ≡ false → is_nan (or_one v) ≡ false
or_one_number v h = elim (Bool-cases (eq_f v zero_f)) [ inl p ↦ rw p refl | inr p ↦ rw p h ]

all_finite_number :
    (t : FfbTuning)
    → all_finite t ≡ true
    → (is_nan t.constant_gain ≡ false)
      × (is_nan t.transient_gain ≡ false)
      × (is_nan t.deadband ≡ false)
      × (is_nan t.minimum_force ≡ false)
      × (is_nan t.response_exponent ≡ false)
      × (is_nan t.low_pass_hz ≡ false)
      × (is_nan t.smoothing ≡ false)
      × (is_nan t.output_limit ≡ false)
unfolding all_finite
all_finite_number t h = (
  finite_number _ (ground arith),
  finite_number _ (ground arith),
  finite_number _ (ground arith),
  finite_number _ (ground arith),
  finite_number _ (ground arith),
  finite_number _ (ground arith),
  finite_number _ (ground arith),
  finite_number _ (ground arith),
)

low_pass_ranged :
    (v : Float64)
    → is_nan v ≡ false
    → let v' = if eq_f v zero_f then v else clamp v five_f hundred_f in
      (eq_f v' zero_f ≡ true) ⊎ Within five_f hundred_f v'
low_pass_ranged v h = elim (Bool-cases (eq_f v zero_f)) [
  | inl p ↦ rw p (inl p)
  | inr p ↦ rw p (inr (clamp-Within v five_f hundred_f h refl refl refl))
]

ranged-WellTuned : (t : FfbTuning) → all_finite t ≡ true → WellTuned (ranged t)
unfolding ranged
ranged-WellTuned t h =
    let (c, tr, d, m, r, l, s, o) = all_finite_number t h in
    record {
      constant_gain = clamp-Within t.constant_gain zero_f gain_f c refl refl refl;
      transient_gain = clamp-Within t.transient_gain zero_f gain_f tr refl refl refl;
      deadband = clamp-Within t.deadband zero_f fifth_f d refl refl refl;
      minimum_force = clamp-Within t.minimum_force zero_f fifth_f m refl refl refl;
      response_exponent =
          clamp-Within (or_one t.response_exponent) half_f two_f (or_one_number _ r) refl refl refl;
      low_pass_hz = low_pass_ranged t.low_pass_hz l;
      smoothing = clamp-Within t.smoothing zero_f nine_tenths_f s refl refl refl;
      output_limit =
          clamp-Within (or_one t.output_limit) tenth_f one_f (or_one_number _ o) refl refl refl;
    }

or_one_id : (v hi lo : Float64) → lt_f zero_f lo ≡ true → Within lo hi v → or_one v ≡ v
or_one_id nan hi lo h w = refl
or_one_id (num false m) hi nan h (above, below) = ground arith
or_one_id (num true m) hi nan h (above, below) = ground arith
or_one_id (num false m) hi (num false n) h (above, below) = ground arith
or_one_id (num true m) hi (num false n) h (above, below) = ground arith
or_one_id (num false m) hi (num true n) h (above, below) = ground arith
or_one_id (num true m) hi (num true n) h (above, below) = ground arith

low_pass_id :
    (v : Float64)
    → (eq_f v zero_f ≡ true) ⊎ Within five_f hundred_f v
    → (if eq_f v zero_f then v else clamp v five_f hundred_f) ≡ v
low_pass_id v (inl p) = rw p refl
low_pass_id v (inr w) = elim (Bool-cases (eq_f v zero_f)) [
  | inl p ↦ rw p refl
  | inr p ↦ rw p (clamp_id v five_f hundred_f w)
]

ranged_id : (t : FfbTuning) → WellTuned t → ranged t ≡ t
unfolding ranged
ranged_id t h =
    simp
      (
        clamp_id t.constant_gain zero_f gain_f h.constant_gain,
        clamp_id t.transient_gain zero_f gain_f h.transient_gain,
        clamp_id t.deadband zero_f fifth_f h.deadband,
        clamp_id t.minimum_force zero_f fifth_f h.minimum_force,
        or_one_id t.response_exponent two_f half_f refl h.response_exponent,
        clamp_id t.response_exponent half_f two_f h.response_exponent,
        low_pass_id t.low_pass_hz h.low_pass_hz,
        clamp_id t.smoothing zero_f nine_tenths_f h.smoothing,
        or_one_id t.output_limit one_f tenth_f refl h.output_limit,
        clamp_id t.output_limit tenth_f one_f h.output_limit,
      )
      refl

low_pass_finite :
    (v : Float64) → (eq_f v zero_f ≡ true) ⊎ Within five_f hundred_f v → is_finite v ≡ true
low_pass_finite nan (inl p) = ground arith
low_pass_finite (num false m) (inl p) = ground arith
low_pass_finite (num true m) (inl p) = ground arith
low_pass_finite v (inr w) = Within_finite v five_f hundred_f refl refl w

all_finite_ranged : (t : FfbTuning) → WellTuned t → all_finite t ≡ true
unfolding all_finite
all_finite_ranged t h =
    rw
      (
        Within_finite t.constant_gain zero_f gain_f refl refl h.constant_gain,
        Within_finite t.transient_gain zero_f gain_f refl refl h.transient_gain,
        Within_finite t.deadband zero_f fifth_f refl refl h.deadband,
        Within_finite t.minimum_force zero_f fifth_f refl refl h.minimum_force,
        Within_finite t.response_exponent half_f two_f refl refl h.response_exponent,
        low_pass_finite t.low_pass_hz h.low_pass_hz,
        Within_finite t.smoothing zero_f nine_tenths_f refl refl h.smoothing,
        Within_finite t.output_limit tenth_f one_f refl refl h.output_limit,
      )
      refl

pub again : (t : FfbTuning) → WellTuned t → t.enabled ≡ true → normalize_ffb_tuning t ≡ ok t
unfolding normalize_ffb_tuning
again t h p = simp (p, all_finite_ranged t h, ranged_id t h) refl

-- Every value is a number and not infinite.
abbrev pub finite_values : FfbTuning → Bool
finite_values t =
    is_finite t.constant_gain
    && (is_finite t.transient_gain
        && (is_finite t.deadband
            && (is_finite t.minimum_force
                && (is_finite t.response_exponent
                    && (is_finite t.low_pass_hz
                        && (is_finite t.smoothing && is_finite t.output_limit))))))

-- A tuning is accepted as another one, whose values are in range and which is accepted as it is.
pub record Accepted (t t' : FfbTuning) : Type 0 where
  pub result : normalize_ffb_tuning t ≡ ok t'
  pub finite : (t.enabled && not (finite_values t)) ≡ false
  pub same_enabled : t'.enabled ≡ t.enabled
  pub tuned : WellTuned t'
  pub stable : normalize_ffb_tuning t' ≡ ok t'

abbrev pub Normal : FfbTuning → Type 0
Normal t =
    ((normalize_ffb_tuning t ≡ err not_finite) × ((t.enabled && not (finite_values t)) ≡ true))
    ⊎ ((t' : FfbTuning) × Accepted t t')

all_finite-finite_values : (t : FfbTuning) → all_finite t ≡ finite_values t
unfolding all_finite
all_finite-finite_values t = ground arith

pub normalize_ffb_tuning-Normal : (t : FfbTuning) → Normal t
unfolding normalize_ffb_tuning
normalize_ffb_tuning-Normal t = elim (Bool-cases t.enabled) [
  | inr p ↦ inr (
    record default_ffb_tuning { enabled = false },
    record {
      result = rw p refl;
      finite = rw p refl;
      same_enabled = sym p;
      tuned = default-WellTuned false;
      stable = refl;
    },
  )
  | inl p ↦ elim (Bool-cases (all_finite t)) [
    | inl q ↦
        let h = ranged-WellTuned t q in
        inr (
          ranged t,
          record {
            result = simp (p, q) refl;
            finite = rw (p, sym (all_finite-finite_values t) ∙ q) refl;
            same_enabled = unfold ranged in refl;
            tuned = h;
            stable = again (ranged t) h (unfold ranged in p);
          },
        )
    | inr q ↦ inl (simp (p, q) refl, rw (p, sym (all_finite-finite_values t) ∙ q) refl)
  ]
]

-- A tuning is refused exactly if it is enabled and a value of it is infinite or no number; a tuning that is
-- accepted is enabled as before, has every value in its range and is accepted again without a change;
-- and an enabled tuning with every value in its range is accepted without a change.
pub normalize_ffb_tuning-WellTuned :
    (t u : FfbTuning) → WellTuned u → u.enabled ≡ true → Normal t × (normalize_ffb_tuning u ≡ ok u)
normalize_ffb_tuning-WellTuned t u h p = (normalize_ffb_tuning-Normal t, again u h p)
