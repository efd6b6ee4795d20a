-- ===== src/Pipeline/Advanced/Saved.antt =====
-- internal/system/advanced_ffb_windows.go, SaveAdvancedFFBConfig and ReadAdvancedFFBConfig: what is saved
-- is what is used.
use logi_mate.Base.{
  zero, suc, ◌≡◌, refl, ◌∙◌, ap, Bool, true, false, inl, inr, Bool-cases, none, if◌then◌else◌,
  arith,
}
use logi_mate.Base.Int.{ℤ, pos, negsuc}
use logi_mate.Base.Text.{Text, trim_space, is_empty, text_eq_refl}
use logi_mate.Base.Maps.{Map, lookup-insert}
use logi_mate.Base.Results.{Result, ok, err}
use logi_mate.Base.Float.{Float64, nan, num, is_nan}
use logi_mate.Safety.{clamp_int}
use logi_mate.Model.{ModelId}
use logi_mate.Pipeline.{default_ffb_tuning}
use logi_mate.Pipeline.State.{fresh, fresh_result, new_ffb_pipeline}
use logi_mate.Pipeline.Advanced.Accepted.{advanced_ffb_tuning-accepted}
use logi_mate.Pipeline.Advanced.{
  AdvancedFfbConfig, ConfigError, StoredFile, normal_exponent, normal_low_pass, normal_limit,
  normalize_advanced_ffb_config, advanced_ffb_tuning, decoded_config, read_advanced_ffb_config,
  migrate_advanced_ffb_config, with_config, after_write, kept_entries, input_profile_key,
  save_advanced_ffb_config,
}

clamp_twice_150 :
    (v : ℤ)
    → clamp_int (clamp_int v (pos 0) (pos 150)) (pos 0) (pos 150) ≡ clamp_int v (pos 0) (pos 150)
unfolding clamp_int
clamp_twice_150 v = ground arith

clamp_twice_20 :
    (v : ℤ)
    → clamp_int (clamp_int v (pos 0) (pos 20)) (pos 0) (pos 20) ≡ clamp_int v (pos 0) (pos 20)
unfolding clamp_int
clamp_twice_20 v = ground arith

clamp_twice_90 :
    (v : ℤ)
    → clamp_int (clamp_int v (pos 0) (pos 90)) (pos 0) (pos 90) ≡ clamp_int v (pos 0) (pos 90)
unfolding clamp_int
clamp_twice_90 v = ground arith

limit_twice : (v : ℤ) → normal_limit (normal_limit v) ≡ normal_limit v
unfolding clamp_int
limit_twice v = ground arith

low_pass_twice : (v : ℤ) → normal_low_pass (normal_low_pass v) ≡ normal_low_pass v
unfolding clamp_int
low_pass_twice (pos zero) = refl
low_pass_twice (pos (suc n)) = ground arith
low_pass_twice (negsuc n) = ground arith

exponent_twice : (v : Float64) → normal_exponent (normal_exponent v) ≡ normal_exponent v
exponent_twice nan = refl
exponent_twice (num false m) = ground arith
exponent_twice (num true m) = ground arith

normalized_tuning :
    (c : AdvancedFfbConfig) (model : ModelId)
    → advanced_ffb_tuning (normalize_advanced_ffb_config c model) model
      ≡ advanced_ffb_tuning c model
unfolding advanced_ffb_tuning normalize_advanced_ffb_config
normalized_tuning c model =
    simp
      (
        clamp_twice_150 c.constant_gain_percent,
        clamp_twice_150 c.transient_gain_percent,
        clamp_twice_20 c.deadband_percent,
        clamp_twice_20 c.minimum_force_percent,
        exponent_twice c.response_exponent,
        low_pass_twice c.low_pass_hz,
        clamp_twice_90 c.smoothing_percent,
        limit_twice c.output_limit_percent,
      )
      refl

-- What a file that was just written gives for its wheel.
written_config :
    (stored : StoredFile) (kept : Result ConfigError (Map AdvancedFfbConfig)) (key : Text)
    (c : AdvancedFfbConfig) (model : ModelId) (writes : Bool)
    → (after_write stored (with_config kept key c) writes).1 ≡ none
    → decoded_config (after_write stored (with_config kept key c) writes).0 key model
      ≡ normalize_advanced_ffb_config c model
unfolding with_config decoded_config migrate_advanced_ffb_config
written_config stored (err e) key c model writes h = ground arith
written_config stored (ok entries) key c model false h = ground arith
written_config stored (ok entries) key c model true h =
    rw (lookup-insert key key c entries, text_eq_refl key) refl

-- After a save that reports no error, what is read for the wheel gives the tuning that was saved.
saved_config-tuning :
    (data_dir wheel_id : Text) (stored : StoredFile) (model : ModelId) (c : AdvancedFfbConfig)
    (writes : Bool)
    → is_empty (trim_space data_dir) ≡ false
    → (save_advanced_ffb_config stored wheel_id model c writes).1 ≡ none
    → advanced_ffb_tuning
        (read_advanced_ffb_config data_dir
          (save_advanced_ffb_config stored wheel_id model c writes).0
          wheel_id
          model)
        model
      ≡ advanced_ffb_tuning c model
unfolding save_advanced_ffb_config read_advanced_ffb_config
saved_config-tuning data_dir wheel_id stored model c writes here saved =
    let key = input_profile_key wheel_id in
    let n = normalize_advanced_ffb_config c model in
    elim (Bool-cases (is_empty (trim_space wheel_id))) [
      | inl blank ↦ absurd (ground (arith, simp blank at saved))
      | inr named ↦
          simp (here, named)
            (ap (λ x. advanced_ffb_tuning x model)
                (written_config stored (kept_entries stored) key n model writes
                  (simp named at saved))
              ∙ normalized_tuning n model
              ∙ normalized_tuning c model)
    ]

-- A save that reports no error, of a configuration whose exponent is a number, into a directory whose
-- name is not blank: a pipeline with the tuning that is then read for the wheel starts, and it has
-- exactly the tuning of the configuration that was saved, or the neutral tuning if that one is off.
pub saved_config-starts :
    (data_dir wheel_id : Text) (stored : StoredFile) (model : ModelId) (c : AdvancedFfbConfig)
    (writes : Bool)
    → is_empty (trim_space data_dir) ≡ false
    → (save_advanced_ffb_config stored wheel_id model c writes).1 ≡ none
    → is_nan c.response_exponent ≡ false
    → new_ffb_pipeline (
        advanced_ffb_tuning
          (read_advanced_ffb_config data_dir
            (save_advanced_ffb_config stored wheel_id model c writes).0
            wheel_id
            model)
          model)
      ≡ ok (
          fresh (
            if c.enabled
            then advanced_ffb_tuning c model
            else (record default_ffb_tuning { enabled = false })))
unfolding new_ffb_pipeline
saved_config-starts data_dir wheel_id stored model c writes here saved number =
    ap new_ffb_pipeline (saved_config-tuning data_dir wheel_id stored model c writes here saved)
    ∙ ap fresh_result (advanced_ffb_tuning-accepted c model number)
