-- ===== src/Safety/Bounds.antt =====
-- internal/system/native_engine_profiles_windows.go and native_ffb_windows.go: the ceilings of
-- the effect mixer, and what gains may do to a request.
use logi_mate.Base.{ℕ, ◌+◌, ◌*◌, ◌/◌, ◌≤◌, ◌≡◌, ap, arith}
use logi_mate.Base.Int.{ℤ, pos, negsuc, pos_part, neg_part, ◌≤ℤ◌, neg, scale, quot}
use logi_mate.Safety.{
  NativeFfbConfig, NativeEngineProfile, NativeEffectRequest, NativeEffectMix, clamp_int, abs_int,
  clip, normalize_native_ffb_config, mix_native_effects, normalize_native_engine_profile,
  scale_profile_value, safety_scale,
}

-- The ranges that a normalised configuration keeps.
pub record IsSafeConfig (c : NativeFfbConfig) : Type 0 where
  pub master : (pos 1 ≤ℤ c.master_gain_percent) × (c.master_gain_percent ≤ℤ pos 100)
  pub constant : (pos 1 ≤ℤ c.constant_limit) × (c.constant_limit ≤ℤ pos 10)
  pub spring : (pos 1 ≤ℤ c.spring_gain) × (c.spring_gain ≤ℤ pos 30)
  pub damper : (pos 1 ≤ℤ c.damper_gain) × (c.damper_gain ≤ℤ pos 30)
  pub friction : (pos 1 ≤ℤ c.friction_gain) × (c.friction_gain ≤ℤ pos 30)
  pub slew : (pos 1 ≤ℤ c.slew_per_tick) × (c.slew_per_tick ≤ℤ pos 5)
  pub watchdog : (pos 500 ≤ℤ c.watchdog_ms) × (c.watchdog_ms ≤ℤ pos 2000)

pub normalize-IsSafeConfig : (c : NativeFfbConfig) → IsSafeConfig (normalize_native_ffb_config c)
unfolding normalize_native_ffb_config
normalize-IsSafeConfig c = record {
  master = ground arith;
  constant = ground arith;
  spring = ground arith;
  damper = ground arith;
  friction = ground arith;
  slew = ground arith;
  watchdog = ground arith;
}

clamp_int_within : (v lo hi : ℤ) → lo ≤ℤ hi → (lo ≤ℤ clamp_int v lo hi) × (clamp_int v lo hi ≤ℤ hi)
unfolding clamp_int
clamp_int_within v lo hi h = ground arith

clip_within : (v lo hi : ℤ) → lo ≤ℤ hi → (lo ≤ℤ (clip v lo hi).0) × ((clip v lo hi).0 ≤ℤ hi)
unfolding clip
clip_within v lo hi h = clamp_int_within v lo hi h

neg_le : (a : ℤ) → pos 1 ≤ℤ a → neg a ≤ℤ a
unfolding neg
neg_le a h = ground arith

abbrev pub Within : ℤ → ℤ → ℤ → Type 0
Within lo hi v = (lo ≤ℤ v) × (v ≤ℤ hi)

-- The mix respects the limits of a configuration, and the ceilings that no configuration lifts.
pub record IsWithinLimits (cfg : NativeFfbConfig) (mix : NativeEffectMix) : Type 0 where
  pub constant : Within (neg cfg.constant_limit) cfg.constant_limit mix.constant
  pub spring : Within (pos 0) cfg.spring_gain mix.spring
  pub damper : Within (pos 0) cfg.damper_gain mix.damper
  pub friction : Within (pos 0) cfg.friction_gain mix.friction
  pub constant_ceiling : Within (negsuc 9) (pos 10) mix.constant
  pub condition_ceiling : (mix.spring ≤ℤ pos 30) × (mix.damper ≤ℤ pos 30) × (mix.friction ≤ℤ pos 30)

clip_symmetric :
    (v l : ℤ)
    → pos 1 ≤ℤ l
    → l ≤ℤ pos 10
    → Within (neg l) l (clip v (neg l) l).0 × Within (negsuc 9) (pos 10) (clip v (neg l) l).0
unfolding clip clamp_int neg
clip_symmetric v l h k = ground arith

clip_positive :
    (v l : ℤ)
    → pos 1 ≤ℤ l
    → l ≤ℤ pos 30
    → Within (pos 0) l (clip v (pos 0) l).0 × ((clip v (pos 0) l).0 ≤ℤ pos 30)
unfolding clip clamp_int
clip_positive v l h k = ground arith

-- For every request, profile and stored configuration the mix lies within the limits of the
-- normalised configuration: the constant force also within 10 percent either way, and each
-- condition effect within 0 to 30 percent.
pub mix_native_effects-IsWithinLimits :
    (req : NativeEffectRequest) (p : NativeEngineProfile) (c : NativeFfbConfig)
    → IsWithinLimits (normalize_native_ffb_config c) (mix_native_effects req p c)
unfolding mix_native_effects
mix_native_effects-IsWithinLimits req p c =
    let safe = normalize-IsSafeConfig c in
    let k = clip_symmetric _ _ safe.constant.0 safe.constant.1 in
    let s = clip_positive _ _ safe.spring.0 safe.spring.1 in
    let d = clip_positive _ _ safe.damper.0 safe.damper.1 in
    let f = clip_positive _ _ safe.friction.0 safe.friction.1 in
    record {
      constant = k.0;
      spring = s.0;
      damper = d.0;
      friction = f.0;
      constant_ceiling = k.1;
      condition_ceiling = (s.1, d.1, f.1);
    }

-- The magnitude of a signed integer.
abbrev pub mag : ℤ → ℕ
mag a = pos_part a + neg_part a

mag-scale : (a : ℤ) (n : ℕ) → mag (scale a n) ≡ mag a * n
unfolding scale
mag-scale (pos a) n = ground arith
mag-scale (negsuc a) n = ground arith

mag-quot : (a : ℤ) (n : ℕ) → mag (quot a n) ≡ mag a / n
unfolding quot
mag-quot (pos a) n = ground arith
mag-quot (negsuc a) n = ground arith

mag-abs_int : (a : ℤ) → mag (abs_int a) ≡ mag a
unfolding abs_int neg
mag-abs_int a = ground arith

mag-clamp_int : (v lo hi : ℤ) → lo ≤ℤ pos 0 → pos 0 ≤ℤ hi → mag (clamp_int v lo hi) ≤ mag v
unfolding clamp_int
mag-clamp_int v lo hi h k = ground arith

gain_product : (x g m : ℕ) → g ≤ 100 → m ≤ 100 → x * g * m ≤ x * 10000
gain_product x g m h k = grind arith

percent_of : (x m : ℕ) → m ≤ 100 → x * m / 100 ≤ x
percent_of x m h = let h2 : x * m ≤ x * 100 = grind arith in omega arith

clamped_gain : (g : ℤ) → pos_part (clamp_int g (pos 0) (pos 100)) ≤ 100
unfolding clamp_int
clamped_gain g = ground arith

-- A gain never enlarges a request.
mag-scale_profile_value : (v gain master : ℤ) → mag (scale_profile_value v gain master) ≤ mag v
unfolding scale_profile_value
mag-scale_profile_value v gain master =
    let v' = clamp_int v (negsuc 99) (pos 100) in
    let g = pos_part (clamp_int gain (pos 0) (pos 100)) in
    let m = pos_part (clamp_int master (pos 0) (pos 100)) in
    omega (
      arith,
      mag-quot (scale (scale v' g) m) 10000,
      mag-scale (scale v' g) m,
      ap (λ (t : ℕ). t * m) (mag-scale v' g),
      gain_product (mag v') g m (clamped_gain gain) (clamped_gain master),
      mag-clamp_int v (negsuc 99) (pos 100) (omega arith) (omega arith),
    )

pos_part_le : (a : ℤ) (n : ℕ) → pos 1 ≤ℤ a → a ≤ℤ pos n → pos_part a ≤ n
pos_part_le a n h k = ground arith

mag-safety_scale :
    (c : NativeFfbConfig) (v : ℤ) → mag (safety_scale (normalize_native_ffb_config c) v) ≤ mag v
unfolding safety_scale
mag-safety_scale c v =
    let cfg = normalize_native_ffb_config c in
    let m = pos_part cfg.master_gain_percent in
    let safe = (normalize-IsSafeConfig c).master in
    omega (
      arith,
      mag-quot (scale v m) 100,
      mag-scale v m,
      percent_of (mag v) m (pos_part_le _ 100 safe.0 safe.1),
    )

mag-clip : (v lo hi : ℤ) → lo ≤ℤ pos 0 → pos 0 ≤ℤ hi → mag (clip v lo hi).0 ≤ mag v
unfolding clip
mag-clip v lo hi h k = mag-clamp_int v lo hi h k

neg_nonpos : (l : ℤ) → pos 1 ≤ℤ l → neg l ≤ℤ pos 0
unfolding neg
neg_nonpos l h = ground arith

module _ (p : NativeEngineProfile) (c : NativeFfbConfig) where
  mag-condition :
      (v gain hi : ℤ)
      → pos 1 ≤ℤ hi
      → mag
          (clip
            (abs_int (
              safety_scale (normalize_native_ffb_config c) (
                scale_profile_value v gain
                  (normalize_native_engine_profile p).master_gain_percent)))
            (pos 0)
            hi).0
        ≤ mag v
  mag-condition v gain hi h =
      let m = (normalize_native_engine_profile p).master_gain_percent in
      let s = scale_profile_value v gain m in
      let t = safety_scale (normalize_native_ffb_config c) s in
      omega (
        arith,
        mag-clip (abs_int t) (pos 0) hi (omega arith) (omega arith),
        mag-abs_int t,
        mag-safety_scale c s,
        mag-scale_profile_value v gain m,
      )

-- Profiles and configurations can only reduce: no effect of the mix exceeds the magnitude of
-- its request.
pub mix_native_effects_reduces :
    (req : NativeEffectRequest) (p : NativeEngineProfile) (c : NativeFfbConfig)
    → let mix = mix_native_effects req p c in
      (mag mix.constant ≤ mag req.constant)
      × (mag mix.spring ≤ mag req.spring)
      × (mag mix.damper ≤ mag req.damper)
      × (mag mix.friction ≤ mag req.friction)
unfolding mix_native_effects
mix_native_effects_reduces req p c =
    let safe = normalize-IsSafeConfig c in
    let prof = normalize_native_engine_profile p in
    let lim = (normalize_native_ffb_config c).constant_limit in
    let s = scale_profile_value req.constant prof.constant_gain_percent prof.master_gain_percent in
    (
      omega (
        arith,
        mag-clip (safety_scale (normalize_native_ffb_config c) s) (neg lim) lim
            (neg_nonpos lim safe.constant.0) (omega (arith, safe.constant.0)),
        mag-safety_scale c s,
        mag-scale_profile_value req.constant prof.constant_gain_percent prof.master_gain_percent,
      ),
      mag-condition p c req.spring prof.spring_gain_percent _ safe.spring.0,
      mag-condition p c req.damper prof.damper_gain_percent _ safe.damper.0,
      mag-condition p c req.friction prof.friction_gain_percent _ safe.friction.0,
    )
