-- ===== src/Pipeline/Frame.antt =====
-- internal/wheelengine/ffb_pipeline.go, FFBPipeline: the way of a frame through the pipeline. A time is
-- its nanoseconds since Go's zero time, so the zero time is 0. The sums and products are those of
-- amd64, where Go does not fuse them.
use logi_mate.Base.{
  ℕ, suc, ◌-◌, ◌/◌, ◌%◌, ◌^◌, min, Bool, true, false, not, ◌&&◌, ◌||◌, ltb, leb, ◌==◌,
  if◌then◌else◌,
}
use logi_mate.Base.Int.{ℤ, pos, negsuc, neg, ◌+ℤ◌, ltb_ℤ, wrap, quot}
use logi_mate.Base.Float.{
  Float64, nan, num, zero_f, neg_f, abs_f, is_nan, is_inf, lt_f, le_f, eq_f, ◌+f◌, ◌-f◌, ◌*f◌, ◌/f◌,
  of_ℕ, of_ℤ, clamp,
}
use logi_mate.Protocol.Torque.{ForceFrame, one_f, minus_one_f}
use logi_mate.Pipeline.{FfbTuning, half_f}
use logi_mate.Pipeline.State.{FfbPipeline}

abbrev pub signed_magnitude : Float64 → Float64 → Float64
signed_magnitude source mag = if lt_f source zero_f then neg_f mag else mag

-- `x++` on a uint64, if a condition holds.
abbrev pub count_if : Bool → ℕ → ℕ
count_if b n = if b then suc n % 2 ^ 64 else n

-- `Time.Sub`, which saturates.
abbrev pub sub_time : ℕ → ℕ → ℤ
sub_time a b = if leb b a then pos (min (a - b) (2 ^ 63 - 1)) else negsuc (min (b - a) (2 ^ 63) - 1)

abbrev nanoseconds_f : Float64
nanoseconds_f = num false 0x41CDCD6500000000

-- `Duration.Seconds`
unfoldable pub seconds : ℤ → Float64
seconds (pos n) = of_ℕ (n / 1000000000) +f of_ℕ (n % 1000000000) /f nanoseconds_f
seconds (negsuc n) =
    of_ℤ (quot (negsuc n) 1000000000) +f neg_f (of_ℕ (suc n % 1000000000)) /f nanoseconds_f

-- `int64(sum) / int64(frames)`; after 2^64 frames Go would panic here.
abbrev average : ℤ → ℕ → ℤ
average sum frames =
    if ltb frames (2 ^ 63) then quot sum frames else neg (quot sum (2 ^ 64 - frames))

-- 1 / 150 and 2 * pi.
abbrev tick_f : Float64
tick_f = num false 0x3F7B4E81B4E81B4F

abbrev two_pi_f : Float64
two_pi_f = num false 0x401921FB54442D18

abbrev pub gain_or_one : Float64 → Float64
gain_or_one g = if is_nan g || is_inf g then one_f else g

unfoldable pub raw_unclamped : FfbTuning → ForceFrame → Float64 → Float64
raw_unclamped cfg frame gain =
    (frame.constant *f cfg.constant_gain +f frame.transient *f cfg.transient_gain) *f gain

-- The symmetric deadband, and whether it hides a force.
unfoldable pub deadbanded : FfbTuning → Float64 → Float64
deadbanded cfg raw =
    if le_f (abs_f raw) cfg.deadband
    then zero_f
    else if lt_f cfg.deadband one_f
    then signed_magnitude raw ((abs_f raw -f cfg.deadband) /f (one_f -f cfg.deadband))
    else zero_f

abbrev deadband_hit : FfbTuning → Float64 → Bool
deadband_hit cfg raw = le_f (abs_f raw) cfg.deadband && lt_f zero_f (abs_f raw)

abbrev pub has_minimum : FfbTuning → Float64 → Bool
has_minimum cfg curved = not (eq_f curved zero_f) && lt_f zero_f cfg.minimum_force

unfoldable pub minimum_forced : FfbTuning → Float64 → Float64
minimum_forced cfg curved =
    if has_minimum cfg curved
    then signed_magnitude curved (cfg.minimum_force +f abs_f curved *f (one_f -f cfg.minimum_force))
    else curved

-- The seconds since the last frame, or one tick when they make no sense.
unfoldable pub frame_seconds : ℕ → ℕ → Float64
frame_seconds now last =
    let dt = seconds (sub_time now last) in if le_f dt zero_f || lt_f half_f dt then tick_f else dt

unfoldable pub low_passed : FfbPipeline → ℕ → Float64 → Float64
low_passed p now force =
    let dt = frame_seconds now p.last_at in
    let rc = one_f /f (two_pi_f *f p.cfg.low_pass_hz) in
    let alpha = dt /f (rc +f dt) in
    if lt_f zero_f p.cfg.low_pass_hz && p.have_state
    then p.low_pass +f alpha *f (force -f p.low_pass)
    else force

unfoldable pub smoothed : FfbPipeline → Float64 → Float64
smoothed p low =
    if lt_f zero_f p.cfg.smoothing && p.have_state
    then p.output *f p.cfg.smoothing +f low *f (one_f -f p.cfg.smoothing)
    else low

-- The latencies of recordLocked, for a sample that has a time and is not later than the frame.
abbrev with_latency : FfbPipeline → ℤ → FfbPipeline
with_latency p lat =
    let sum = wrap (p.latency_sum +ℤ lat) in
    record p {
      latency_sum = sum;
      snap = record (p.snap) {
        last_sample_latency = lat;
        average_sample_latency = average sum p.snap.frames;
        max_sample_latency =
            if ltb_ℤ p.snap.max_sample_latency lat then lat else p.snap.max_sample_latency;
      };
    }

unfoldable pub record_locked :
    FfbPipeline → Float64 → Float64 → Float64 → Float64 → Float64 → Float64 → ℕ → ℕ → FfbPipeline
record_locked p raw dead curved min_force low out sample_at now =
    let p' = record p {
      snap = record (p.snap) {
        enabled = p.cfg.enabled;
        config = p.cfg;
        raw_force = raw;
        after_deadband = dead;
        after_curve = curved;
        after_minimum_force = min_force;
        after_low_pass = low;
        output = out;
        frames = count_if true p.snap.frames;
        last_processed_at = now;
      };
    } in
    if not (sample_at == 0) && leb sample_at now
    then with_latency p' (sub_time now sample_at)
    else p'

abbrev pub limited : FfbTuning → Float64 → Float64
limited cfg out = clamp out (neg_f cfg.output_limit) cfg.output_limit

-- A frame while the tuning is off.
unfoldable pub passed_frame : FfbPipeline → Float64 → ℕ → ℕ → FfbPipeline × Float64
passed_frame p raw sample_at now =
    let p' = record_locked p raw raw raw raw raw (limited p.cfg raw) sample_at now in
    (p', p'.snap.output)

-- `pow` is `math.Pow` where no special case of it applies.
module _ (pow : Float64 → Float64 → Float64) where
  -- `math.Pow`, its special cases for an exponent that is finite and a base that is not 0.
  abbrev pub math_pow : Float64 → Float64 → Float64
  math_pow x y =
      if eq_f y zero_f || eq_f x one_f
      then one_f
      else if eq_f y one_f
      then x
      else if is_nan x || is_nan y
      then nan
      else pow x y

  unfoldable pub curved_force : FfbTuning → Float64 → Float64
  curved_force cfg dead =
      if eq_f dead zero_f
      then zero_f
      else signed_magnitude dead (math_pow (abs_f dead) cfg.response_exponent)

  -- The rest of ProcessFrame, for a clamped force while the tuning is on.
  unfoldable pub shaped_frame : FfbPipeline → Float64 → ℕ → ℕ → FfbPipeline × Float64
  shaped_frame p raw sample_at now =
      let dead = deadbanded p.cfg raw in
      let curved = curved_force p.cfg dead in
      let min_force = minimum_forced p.cfg curved in
      let low = low_passed p now min_force in
      let out = smoothed p low in
      let lim = limited p.cfg out in
      let p' = record p {
        snap = record (p.snap) {
          deadband_hits = count_if (deadband_hit p.cfg raw) p.snap.deadband_hits;
          minimum_force_applications =
              count_if (has_minimum p.cfg curved) p.snap.minimum_force_applications;
          output_clip_events = count_if (not (eq_f lim out)) p.snap.output_clip_events;
        };
        low_pass = low;
        output = lim;
        have_state = true;
        last_at = now;
      } in
      (record_locked p' raw dead curved min_force low lim sample_at now, lim)

  -- `clock` is the time now, for a caller that gives none.
  unfoldable pub process_frame :
      FfbPipeline → ForceFrame → Float64 → ℕ → ℕ → ℕ → FfbPipeline × Float64
  process_frame p frame gain sample_at now clock =
      let at = if now == 0 then clock else now in
      let unclamped = raw_unclamped p.cfg frame (gain_or_one gain) in
      let raw = clamp unclamped minus_one_f one_f in
      let clips = count_if (not (eq_f raw unclamped)) p.snap.input_clip_events in
      let p' = record p { snap = record (p.snap) { input_clip_events = clips } } in
      if p.cfg.enabled then shaped_frame p' raw sample_at at else passed_frame p' raw sample_at at
