-- ===== src/Safety.antt =====
-- internal/system/native_ffb_windows.go (configuration and slew limit) and
-- internal/system/native_engine_profiles_windows.go (profile gains and the effect mixer).
-- Go's `int` is ℤ. Every product below is of values that were clamped just before, so no
-- operation leaves 64 bits, but for the difference in `apply_ffb_slew`, which wraps.
pub mod Bounds
pub mod Slew
mod Examples
use logi_mate.Base.{ℕ, ◌+◌, Bool, true, false, List, [], ◌∷◌, take, if◌then◌else◌}
use logi_mate.Base.Text.{Text, trim_space, is_empty}
use logi_mate.Base.Int.{
  ℤ, pos, negsuc, pos_part, neg_part, ◌+ℤ◌, ◌-ℤ◌, neg, ltb_ℤ, scale, quot, wrap,
}

pub record NativeFfbConfig : Type 0 where
  pub master_gain_percent : ℤ
  pub constant_limit : ℤ
  pub spring_gain : ℤ
  pub damper_gain : ℤ
  pub friction_gain : ℤ
  pub slew_per_tick : ℤ
  pub watchdog_ms : ℤ

abbrev pub default_native_ffb_config : NativeFfbConfig
default_native_ffb_config = record {
  master_gain_percent = pos 100;
  constant_limit = pos 10;
  spring_gain = pos 20;
  damper_gain = pos 20;
  friction_gain = pos 20;
  slew_per_tick = pos 2;
  watchdog_ms = pos 1200;
}

-- `if v <= 0 { v = d }`
abbrev or_default : ℤ → ℤ → ℤ
or_default v d = if ltb_ℤ (pos 0) v then v else d

-- `if v > hi { v = hi }`
abbrev cap_at : ℤ → ℤ → ℤ
cap_at v hi = if ltb_ℤ hi v then hi else v

-- `if v < lo { v = lo }`
abbrev at_least : ℤ → ℤ → ℤ
at_least v lo = if ltb_ℤ v lo then lo else v

unfoldable pub normalize_native_ffb_config : NativeFfbConfig → NativeFfbConfig
normalize_native_ffb_config c = record {
  master_gain_percent = cap_at (or_default c.master_gain_percent d.master_gain_percent) (pos 100);
  constant_limit = cap_at (or_default c.constant_limit d.constant_limit) (pos 10);
  spring_gain = cap_at (or_default c.spring_gain d.spring_gain) (pos 30);
  damper_gain = cap_at (or_default c.damper_gain d.damper_gain) (pos 30);
  friction_gain = cap_at (or_default c.friction_gain d.friction_gain) (pos 30);
  slew_per_tick = cap_at (or_default c.slew_per_tick d.slew_per_tick) (pos 5);
  watchdog_ms = cap_at (at_least (or_default c.watchdog_ms d.watchdog_ms) (pos 500)) (pos 2000);
}
  where
    d : NativeFfbConfig
    d = default_native_ffb_config

unfoldable pub clamp_int : ℤ → ℤ → ℤ → ℤ
clamp_int v lo hi = if ltb_ℤ v lo then lo else if ltb_ℤ hi v then hi else v

unfoldable pub abs_int : ℤ → ℤ
abs_int v = if ltb_ℤ v (pos 0) then neg v else v

-- The next force, and whether the step was limited.
unfoldable pub apply_ffb_slew : ℤ → ℤ → ℤ → ℤ × Bool
apply_ffb_slew current target step =
    let step' = if ltb_ℤ step (pos 1) then pos 1 else step in
    let d = wrap (target -ℤ current) in
    if ltb_ℤ step' d
    then (wrap (current +ℤ step'), true)
    else if ltb_ℤ d (neg step')
    then (wrap (current -ℤ step'), true)
    else (target, false)

pub record NativeEngineProfile : Type 0 where
  pub name : Text
  pub rotation_degrees : ℤ
  pub master_gain_percent : ℤ
  pub constant_gain_percent : ℤ
  pub spring_gain_percent : ℤ
  pub damper_gain_percent : ℤ
  pub friction_gain_percent : ℤ

pub record NativeEffectRequest : Type 0 where
  pub constant : ℤ
  pub spring : ℤ
  pub damper : ℤ
  pub friction : ℤ

pub record NativeEffectMix : Type 0 where
  pub constant : ℤ
  pub spring : ℤ
  pub damper : ℤ
  pub friction : ℤ
  pub clip_events : ℕ

-- The loop of `normalizeRotationDegrees` over the angles that are left.
unfoldable pub nearest : ℤ → ℤ → ℤ → List ℤ → ℤ
nearest v best best_d [] = best
nearest v best best_d (x ∷ xs) =
    let d = abs_int (wrap (v -ℤ x)) in
    let closer = ltb_ℤ d best_d in
    nearest v (if closer then x else best) (if closer then d else best_d) xs

unfoldable pub normalize_rotation_degrees : ℤ → ℤ
unfolding nearest
normalize_rotation_degrees v =
    nearest v (pos 270) (abs_int (wrap (v -ℤ pos 270))) (pos 360 ∷ pos 540 ∷ pos 720 ∷ pos 900 ∷ [])

-- `if v == 0 { v = d }`
abbrev pub if_zero : ℤ → ℤ → ℤ
if_zero (pos ℕ.zero) d = d
if_zero (pos (ℕ.suc n)) d = pos (ℕ.suc n)
if_zero (negsuc n) d = negsuc n

abbrev balanced : Text
balanced = 66 ∷ 97 ∷ 108 ∷ 97 ∷ 110 ∷ 99 ∷ 101 ∷ 100 ∷ []

unfoldable pub normalize_engine_profile_name : Text → Text
unfolding trim_space
normalize_engine_profile_name name =
    let trimmed = trim_space name in if is_empty trimmed then balanced else take 48 trimmed

unfoldable pub normalize_native_engine_profile : NativeEngineProfile → NativeEngineProfile
normalize_native_engine_profile p = record {
  name = normalize_engine_profile_name p.name;
  rotation_degrees = normalize_rotation_degrees (if_zero p.rotation_degrees (pos 900));
  master_gain_percent = clamp_int (if_zero p.master_gain_percent (pos 75)) (pos 1) (pos 100);
  constant_gain_percent = clamp_int p.constant_gain_percent (pos 0) (pos 100);
  spring_gain_percent = clamp_int p.spring_gain_percent (pos 0) (pos 100);
  damper_gain_percent = clamp_int p.damper_gain_percent (pos 0) (pos 100);
  friction_gain_percent = clamp_int p.friction_gain_percent (pos 0) (pos 100);
}

-- The gains are clamped to 0..100 before they multiply, so they enter as numbers.
unfoldable pub scale_profile_value : ℤ → ℤ → ℤ → ℤ
scale_profile_value v gain master =
    let v' = clamp_int v (negsuc 99) (pos 100) in
    let gain' = pos_part (clamp_int gain (pos 0) (pos 100)) in
    let master' = pos_part (clamp_int master (pos 0) (pos 100)) in
    quot (scale (scale v' gain') master') 10000

-- The closure `safetyScale` of `MixNativeEffects`; the master gain was normalised to 1..100.
unfoldable pub safety_scale : NativeFfbConfig → ℤ → ℤ
safety_scale cfg v = quot (scale v (pos_part cfg.master_gain_percent)) 100

-- The closure `clip`: the clamped value, and the clip events that it adds.
unfoldable pub clip : ℤ → ℤ → ℤ → ℤ × ℕ
clip v lo hi = let c = clamp_int v lo hi in (c, if ltb_ℤ c v then 1 else if ltb_ℤ v c then 1 else 0)

unfoldable pub mix_native_effects :
    NativeEffectRequest → NativeEngineProfile → NativeFfbConfig → NativeEffectMix
mix_native_effects req profile' cfg' =
    let profile = normalize_native_engine_profile profile' in
    let cfg = normalize_native_ffb_config cfg' in
    let scaled =
      λ (v gain : ℤ). safety_scale cfg (scale_profile_value v gain profile.master_gain_percent) in
    let constant =
      clip (scaled req.constant profile.constant_gain_percent) (neg cfg.constant_limit)
        cfg.constant_limit in
    let spring =
      clip (abs_int (scaled req.spring profile.spring_gain_percent)) (pos 0) cfg.spring_gain in
    let damper =
      clip (abs_int (scaled req.damper profile.damper_gain_percent)) (pos 0) cfg.damper_gain in
    let friction =
      clip (abs_int (scaled req.friction profile.friction_gain_percent)) (pos 0)
        cfg.friction_gain in
    record {
      constant = constant.0;
      spring = spring.0;
      damper = damper.0;
      friction = friction.0;
      clip_events = constant.1 + spring.1 + damper.1 + friction.1;
    }
