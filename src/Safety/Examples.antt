-- ===== src/Safety/Examples.antt =====
-- Runs of the safety layer at concrete values.
use logi_mate.Base.{◌≤◌, ◌≡◌, ◌⊎◌, false, true, arith, ◌-◌, ◌<◌}
use logi_mate.Base.Int.{pos, negsuc}
use logi_mate.Base.Text.{codes}
use logi_mate.Safety.{
  NativeFfbConfig, NativeEngineProfile, NativeEffectRequest, normalize_native_ffb_config,
  apply_ffb_slew, mix_native_effects,
}
use logi_mate.Safety.Bounds.{IsWithinLimits, mix_native_effects-IsWithinLimits}
use logi_mate.Safety.Slew.{
  distance, slew_limit, IsModerate, slewed, apply_ffb_slew_step, slewed_reaches,
}

abbrev stored_config : NativeFfbConfig
stored_config = record {
  master_gain_percent = pos 70;
  constant_limit = pos 250;
  spring_gain = negsuc 3;
  damper_gain = pos 25;
  friction_gain = pos 0;
  slew_per_tick = pos 3;
  watchdog_ms = pos 20;
}

abbrev rally_profile : NativeEngineProfile
rally_profile = record {
  name = codes "rally";
  rotation_degrees = pos 720;
  master_gain_percent = pos 90;
  constant_gain_percent = pos 80;
  spring_gain_percent = pos 50;
  damper_gain_percent = pos 60;
  friction_gain_percent = pos 70;
}

abbrev full_request : NativeEffectRequest
full_request = record {
  constant = negsuc 99;
  spring = pos 100;
  damper = pos 100;
  friction = pos 100;
}

mix_native_effects-IsWithinLimits_example :
    IsWithinLimits
      (normalize_native_ffb_config stored_config)
      (mix_native_effects full_request rally_profile stored_config)
mix_native_effects-IsWithinLimits_example =
    mix_native_effects-IsWithinLimits full_request rally_profile stored_config

apply_ffb_slew_step_example :
    let (next, limited) = apply_ffb_slew (negsuc 4) (pos 20) (pos 3) in
    (distance next (pos 20) ≡ distance (negsuc 4) (pos 20) - slew_limit (pos 3))
    × (distance (negsuc 4) next ≤ slew_limit (pos 3))
    × (((limited ≡ false) × (next ≡ pos 20))
        ⊎ ((limited ≡ true) × (slew_limit (pos 3) < distance (negsuc 4) (pos 20))))
    × IsModerate next
apply_ffb_slew_step_example =
    apply_ffb_slew_step (negsuc 4) (pos 20) (pos 3) (omega arith) (omega arith) (omega arith)

slewed_reaches_example : slewed 9 (negsuc 4) (pos 20) (pos 3) ≡ pos 20
slewed_reaches_example =
    slewed_reaches 9 (negsuc 4) (pos 20) (pos 3) (omega arith) (omega arith) (omega arith)
      (omega arith)
