-- ===== src/Pipeline/Advanced.antt =====
-- internal/system/advanced_ffb_windows.go: the tuning that a user sets for a wheel, in whole percent, and
-- its file. The file is what ReadJSONConfigStrict reads: an error, no file, or what it decodes to; whether
-- WriteJSONConfigStrict succeeds is an argument, and it changes nothing when it fails.
pub mod Accepted
pub mod Saved
use logi_mate.Base.{
  ℕ, zero, suc, ◌+◌, Bool, true, false, not, ◌&&◌, ◌||◌, Option, none, some, List, [], ◌∷◌, ◌++◌,
  ◌==◌, map, take, if◌then◌else◌,
}
use logi_mate.Base.Int.{ℤ, pos, negsuc, ltb_ℤ}
use logi_mate.Base.Text.{Text, codes, to_lower, trim_space, is_empty}
use logi_mate.Base.Maps.{Map, lookup, insert}
use logi_mate.Base.Results.{Result, ok, err}
use logi_mate.Base.Float.{Float64, num, zero_f, eq_f, lt_f, of_ℤ}
use logi_mate.Protocol.Torque.{one_f}
use logi_mate.Model.{ModelId, Descriptor, descriptor_for_model}
use logi_mate.Safety.{clamp_int, if_zero}
use logi_mate.Pipeline.{FfbTuning, percent_f, half_f, two_f}

pub record AdvancedFfbConfig : Type 0 where
  pub enabled : Bool
  pub preset : Text
  pub constant_gain_percent : ℤ
  pub transient_gain_percent : ℤ
  pub deadband_percent : ℤ
  pub minimum_force_percent : ℤ
  pub response_exponent : Float64
  pub low_pass_hz : ℤ
  pub smoothing_percent : ℤ
  pub output_limit_percent : ℤ

pub record AdvancedFfbFile : Type 0 where
  pub version : ℤ
  pub wheels : Option (Map AdvancedFfbConfig)

-- A space, a middle dot and a space, in UTF-8.
abbrev neutral_suffix : Text
neutral_suffix = 32 ∷ 194 ∷ 183 ∷ 32 ∷ codes "Neutral"

abbrev neutral_name : Option Descriptor → Text
neutral_name none = codes "Model Neutral"
neutral_name (some d) =
    if is_empty (trim_space d.display_name)
    then codes "Model Neutral"
    else d.display_name ++ neutral_suffix

unfoldable pub default_advanced_ffb_config : ModelId → AdvancedFfbConfig
default_advanced_ffb_config model = record {
  enabled = true;
  preset = neutral_name (descriptor_for_model model);
  constant_gain_percent = pos 100;
  transient_gain_percent = pos 100;
  deadband_percent = pos 0;
  minimum_force_percent = pos 0;
  response_exponent = one_f;
  low_pass_hz = pos 0;
  smoothing_percent = pos 0;
  output_limit_percent = pos 100;
}

unfoldable pub migrate_advanced_ffb_config : AdvancedFfbConfig → ℤ → AdvancedFfbConfig
migrate_advanced_ffb_config c version =
    if ltb_ℤ (pos 0) version && ltb_ℤ version (pos 2)
    then (record c {
      constant_gain_percent = if_zero c.constant_gain_percent (pos 100);
      transient_gain_percent = if_zero c.transient_gain_percent (pos 100);
    })
    else c

-- The exponent is only cut at its bounds; no comparison cuts a value that is not a number.
abbrev pub normal_exponent : Float64 → Float64
normal_exponent v =
    let v1 = if eq_f v zero_f then one_f else v in
    let v2 = if lt_f v1 half_f then half_f else v1 in if lt_f two_f v2 then two_f else v2

abbrev pub normal_low_pass : ℤ → ℤ
normal_low_pass (pos zero) = pos zero
normal_low_pass (pos (suc n)) = clamp_int (pos (suc n)) (pos 5) (pos 100)
normal_low_pass (negsuc n) = clamp_int (negsuc n) (pos 5) (pos 100)

abbrev pub normal_limit : ℤ → ℤ
normal_limit v = clamp_int (if_zero v (pos 100)) (pos 10) (pos 100)

unfoldable pub normalize_advanced_ffb_config : AdvancedFfbConfig → ModelId → AdvancedFfbConfig
normalize_advanced_ffb_config c model = record {
  enabled = c.enabled;
  preset = take 64 (
      if is_empty (trim_space c.preset)
      then (default_advanced_ffb_config model).preset
      else c.preset);
  constant_gain_percent = clamp_int c.constant_gain_percent (pos 0) (pos 150);
  transient_gain_percent = clamp_int c.transient_gain_percent (pos 0) (pos 150);
  deadband_percent = clamp_int c.deadband_percent (pos 0) (pos 20);
  minimum_force_percent = clamp_int c.minimum_force_percent (pos 0) (pos 20);
  response_exponent = normal_exponent c.response_exponent;
  low_pass_hz = normal_low_pass c.low_pass_hz;
  smoothing_percent = clamp_int c.smoothing_percent (pos 0) (pos 90);
  output_limit_percent = normal_limit c.output_limit_percent;
}

unfoldable pub advanced_ffb_tuning : AdvancedFfbConfig → ModelId → FfbTuning
advanced_ffb_tuning c' model =
    let c = normalize_advanced_ffb_config c' model in
    record {
      enabled = c.enabled;
      constant_gain = percent_f c.constant_gain_percent;
      transient_gain = percent_f c.transient_gain_percent;
      deadband = percent_f c.deadband_percent;
      minimum_force = percent_f c.minimum_force_percent;
      response_exponent = c.response_exponent;
      low_pass_hz = of_ℤ c.low_pass_hz;
      smoothing = percent_f c.smoothing_percent;
      output_limit = percent_f c.output_limit_percent;
    }

pub data ConfigError : Type 0 where
  no_wheel_id unreadable newer_schema not_written : ConfigError

-- A configuration file: it does not exist, or what it holds, or it cannot be read.
abbrev pub StoredFile : Type 0
StoredFile = Result ConfigError (Option AdvancedFfbFile)

-- The entry of a wheel in a file whose version is given.
abbrev found_config : Option AdvancedFfbConfig → ℤ → ModelId → AdvancedFfbConfig
found_config none version model = default_advanced_ffb_config model
found_config (some c) version model =
    normalize_advanced_ffb_config (migrate_advanced_ffb_config c version) model

abbrev wheel_entry : Option (Map AdvancedFfbConfig) → Text → Option AdvancedFfbConfig
wheel_entry none key = none
wheel_entry (some m) key = lookup key m

-- The keys of the files: lower case, with `_` for the separators of a device path.
abbrev key_byte : ℕ → ℕ
key_byte c = if c == 92 || (c == 47 || (c == 35 || (c == 38 || c == 58))) then 95 else c

unfoldable pub input_profile_key : Text → Text
input_profile_key wheel_id = map key_byte (to_lower (trim_space wheel_id))

-- ReadAdvancedFFBConfig after its test for a blank directory or wheel.
unfoldable pub decoded_config : StoredFile → Text → ModelId → AdvancedFfbConfig
decoded_config (err e) key model = default_advanced_ffb_config model
decoded_config (ok none) key model = default_advanced_ffb_config model
decoded_config (ok (some f)) key model = found_config (wheel_entry f.wheels key) f.version model

unfoldable pub read_advanced_ffb_config : Text → StoredFile → Text → ModelId → AdvancedFfbConfig
read_advanced_ffb_config data_dir stored wheel_id model =
    if is_empty (trim_space data_dir) || is_empty (trim_space wheel_id)
    then default_advanced_ffb_config model
    else decoded_config stored (input_profile_key wheel_id) model

-- A sibling entry of an old file.
abbrev migrated_entry : AdvancedFfbConfig → AdvancedFfbConfig
migrated_entry c = record c {
  constant_gain_percent = if_zero c.constant_gain_percent (pos 100);
  transient_gain_percent = if_zero c.transient_gain_percent (pos 100);
}

unfoldable pub migrated_entries : Map AdvancedFfbConfig → Map AdvancedFfbConfig
migrated_entries [] = []
migrated_entries ((key, c) ∷ m) = (key, migrated_entry c) ∷ migrated_entries m

-- The entries that a save keeps, or why it refuses.
unfoldable pub kept_entries : StoredFile → Result ConfigError (Map AdvancedFfbConfig)
kept_entries (err e) = err e
kept_entries (ok none) = ok []
kept_entries (ok (some f)) =
    if ltb_ℤ (pos 2) f.version
    then err newer_schema
    else ok (elim f.wheels [
      | none ↦ []
      | some m ↦
          if ltb_ℤ (pos 0) f.version && ltb_ℤ f.version (pos 2) then migrated_entries m else m
    ])

-- The file that SaveAdvancedFFBConfig writes.
unfoldable pub with_config :
    Result ConfigError (Map AdvancedFfbConfig)
    → Text
    → AdvancedFfbConfig
    → Result ConfigError AdvancedFfbFile
with_config (err e) key c = err e
with_config (ok entries) key c =
    ok (record { version = pos 2; wheels = some (insert key c entries) })

-- The file after SaveAdvancedFFBConfig, and its error; `writes` is whether the write succeeds.
abbrev pub after_write :
    StoredFile → Result ConfigError AdvancedFfbFile → Bool → StoredFile × Option ConfigError
after_write stored (err e) writes = (stored, some e)
after_write stored (ok f) true = (ok (some f), none)
after_write stored (ok f) false = (stored, some not_written)

unfoldable pub save_advanced_ffb_config :
    StoredFile → Text → ModelId → AdvancedFfbConfig → Bool → StoredFile × Option ConfigError
save_advanced_ffb_config stored wheel_id model c writes =
    if is_empty (trim_space wheel_id)
    then (stored, some no_wheel_id)
    else after_write stored
        (with_config (kept_entries stored) (input_profile_key wheel_id)
          (normalize_advanced_ffb_config c model))
        writes
