-- ===== src/GameOutput/Zero.antt =====
-- internal/wheelengine/ffb_pipeline.go, ProcessFrame: a force of zero stays zero in a pipeline that holds
-- no other.
use logi_mate.Base.{
  ℕ, ◌*◌, ◌≡◌, ◌∙◌, refl, Bool, true, false, ◌&&◌, inl, inr, Bool-cases, leb, arith,
}
use logi_mate.Base.Int.{pos}
use logi_mate.Base.Float.{
  Float64, nan, num, zero_f, neg_f, is_finite, inf_mag, lt_f, xor, units, round_mag, round_to_even,
  digits, add_finite, clamp, round_away_to_int, ◌+f◌, ◌*f◌,
}
use logi_mate.Base.Float.Ranges.{Within, Within_finite, clamp_id}
use logi_mate.Protocol.Torque.{one_f, minus_one_f}
use logi_mate.Pipeline.{FfbTuning, tenth_f, gain_f, hundred_f}
use logi_mate.Pipeline.Tuning.{WellTuned}
use logi_mate.Pipeline.Bounds.{record_locked_lem}
use logi_mate.GameOutput.{constant_frame}
use logi_mate.Pipeline.State.{FfbPipeline}
use logi_mate.Pipeline.Frame.{
  limited, gain_or_one, raw_unclamped, deadbanded, curved_force, minimum_forced, low_passed,
  smoothed, passed_frame, shaped_frame, process_frame,
}

-- A zero of some sign.
abbrev pub IsZero : Float64 → Type 0
IsZero x = (s : Bool) × (x ≡ num s 0)

mul-IsZero : (x a : Float64) → IsZero x → is_finite a ≡ true → IsZero (x *f a)
unfolding ◌*f◌ units round_mag round_to_even digits
mul-IsZero x nan (s, is) h = ground arith
mul-IsZero x (num t n) (s, is) h =
    let small : leb inf_mag n ≡ false = ground arith in
    let nothing : 0 * units n ≡ 0 = omega arith in (xor s t, rw (is, small, nothing) refl)

signed-IsZero : (s t : Bool) → IsZero (num s 0 +f num t 0)
unfolding ◌+f◌ add_finite units round_mag round_to_even digits
signed-IsZero true true = (true, refl)
signed-IsZero true false = (false, refl)
signed-IsZero false true = (false, refl)
signed-IsZero false false = (false, refl)

add-IsZero : (x y : Float64) → IsZero x → IsZero y → IsZero (x +f y)
add-IsZero x y (s, is) (t, it) = rw (is, it) (signed-IsZero s t)

clamp-IsZero : (s : Bool) → IsZero (clamp (num s 0) minus_one_f one_f)
unfolding clamp
clamp-IsZero true = (true, refl)
clamp-IsZero false = (false, refl)

gain_or_one_finite : (g : Float64) → is_finite (gain_or_one g) ≡ true
gain_or_one_finite nan = refl
gain_or_one_finite (num s m) = ground arith

raw-IsZero :
    (t : FfbTuning) (force gain : Float64)
    → WellTuned t
    → IsZero force
    → IsZero (clamp (raw_unclamped t (constant_frame force) (gain_or_one gain)) minus_one_f one_f)
unfolding raw_unclamped
raw-IsZero t force gain h z =
    let c =
      mul-IsZero force t.constant_gain z
        (Within_finite t.constant_gain zero_f gain_f refl refl h.constant_gain) in
    let tr =
      mul-IsZero zero_f t.transient_gain (false, refl)
        (Within_finite t.transient_gain zero_f gain_f refl refl h.transient_gain) in
    let (s, is) = mul-IsZero _ (gain_or_one gain) (add-IsZero _ _ c tr) (gain_or_one_finite gain) in
    rw is (clamp-IsZero s)

-- No filter holds a force of an earlier frame.
abbrev pub Unfiltered : FfbPipeline → Type 0
Unfiltered p =
    ((lt_f zero_f p.cfg.smoothing && p.have_state) ≡ false)
    × ((lt_f zero_f p.cfg.low_pass_hz && p.have_state) ≡ false)

deadbanded_zero : (t : FfbTuning) (s : Bool) → WellTuned t → deadbanded t (num s 0) ≡ zero_f
unfolding deadbanded
deadbanded_zero t s h = rw (h.deadband.0) refl

zero_within_limit : (l : Float64) (s : Bool) → Within tenth_f one_f l → Within (neg_f l) l (num s 0)
zero_within_limit nan s (above, below) = ground arith
zero_within_limit (num false m) false w = (ground arith, ground arith)
zero_within_limit (num false m) true w = (ground arith, ground arith)
zero_within_limit (num true m) s (above, below) = ground arith

limited_zero : (t : FfbTuning) (s : Bool) → WellTuned t → limited t (num s 0) ≡ num s 0
limited_zero t s h =
    clamp_id (num s 0) (neg_f t.output_limit) t.output_limit
      (zero_within_limit t.output_limit s h.output_limit)

module _ (pow : Float64 → Float64 → Float64) where
  shaped_zero :
      (p : FfbPipeline) (s : Bool) (sample_at now : ℕ)
      → WellTuned p.cfg
      → Unfiltered p
      → (shaped_frame pow p (num s 0) sample_at now).1 ≡ zero_f
  unfolding shaped_frame curved_force minimum_forced low_passed smoothed
  shaped_zero p s sample_at now h (still, flat) =
      rw (deadbanded_zero p.cfg s h) (simp (flat, still) (limited_zero p.cfg false h))

  pub process-IsZero :
      (p : FfbPipeline) (force gain : Float64) (sample_at now clock : ℕ)
      → WellTuned p.cfg
      → Unfiltered p
      → IsZero force
      → IsZero (process_frame pow p (constant_frame force) gain sample_at now clock).1
  unfolding process_frame passed_frame
  process-IsZero p force gain sample_at now clock h still z =
      let (s, is) = raw-IsZero p.cfg force gain h z in
      elim (Bool-cases p.cfg.enabled) [
        | inl on ↦ (false, simp (on, is) (shaped_zero _ s sample_at _ h still))
        | inr off ↦ (
          s,
          simp (off, is)
              ((record_locked_lem _ (num s 0) (num s 0) (num s 0) (num s 0) (num s 0)
                  (limited p.cfg (num s 0)) sample_at _).2
                ∙ limited_zero p.cfg s h),
        )
      ]

zero_rounded : (s : Bool) → round_away_to_int (num s 0) ≡ pos 0
unfolding round_away_to_int units
zero_rounded true = refl
zero_rounded false = refl

pub zero_percent : (x : Float64) → IsZero x → round_away_to_int (x *f hundred_f) ≡ pos 0
zero_percent x z = let (s, is) = mul-IsZero x hundred_f z refl in rw is (zero_rounded s)
