-- ===== src/InputProfiles/Pedals.antt =====
-- internal/system/pedals_windows.go: the pedals that a user teaches, by wheel, model and mode, with the
-- carrying over to a new identity of a wheel; and PedalPercent of input_profiles_windows.go. The file is
-- what ReadJSONConfigStrict reads. Go goes through a map in any order, and may or may not come to an
-- entry that is added meanwhile: the keys in the order of the loop are an argument.
use logi_mate.Base.{
  ℕ, Bool, true, false, not, ◌&&◌, ◌||◌, Option, none, some, List, [], ◌∷◌, ◌++◌, ◌==◌,
  if◌then◌else◌,
}
use logi_mate.Base.Float.{Float64}
use logi_mate.Base.Results.{Result, ok, err}
use logi_mate.Base.Text.{
  Text, codes, text_eq, trim_space, is_empty, to_lower, contains, has_prefix, equal_fold,
}
use logi_mate.Base.Maps.{Map, lookup, insert}
use logi_mate.Model.{ModelId, g25, g27, dfgt, model_from_display_name}
use logi_mate.Pipeline.Advanced.{input_profile_key}
use logi_mate.SharedHid.State.{JoyState}
use logi_mate.InputProfiles.{ProfileError, not_written}
use logi_mate.InputProfiles.Axes.{AxisCalibration, axis_raw_by_name, calibrated_axis_percent}

pub record PedalMapping : Type 0 where
  pub input_source : Text
  pub layout_id : Text
  pub gas : Text
  pub brake : Text
  pub clutch : Text
  pub gas_calibration : AxisCalibration
  pub brake_calibration : AxisCalibration
  pub clutch_calibration : AxisCalibration

-- No file, its entries, or that it cannot be read; a file that holds `null` is left out.
abbrev pub StoredPedals : Type 0
StoredPedals = Result ProfileError (Option (Map PedalMapping))

-- strings.NewReplacer of legacyPedalKey, byte by byte.
abbrev key_bytes : ℕ → Text
key_bytes c =
    if c == 32 || (c == 47 || (c == 92 || c == 58))
    then 95 ∷ []
    else if c == 124
    then 95 ∷ 95 ∷ []
    else if c == 40 || c == 41
    then []
    else c ∷ []

unfoldable pub replaced : Text → Text
replaced [] = []
replaced (c ∷ cs) = key_bytes c ++ replaced cs

unfoldable pub legacy_pedal_key : Text → Text → Text
unfolding replaced trim_space
legacy_pedal_key model mode = replaced (to_lower (trim_space (model ++ (codes "|" ++ mode))))

abbrev model_token : ModelId → Text → Text
model_token g27 model = codes "g27"
model_token g25 model = codes "g25"
model_token dfgt model = codes "dfgt"
model_token ModelId.compatibility model = codes "c294"
model_token ModelId.unknown model = to_lower (trim_space model)

unfoldable pub canonical_pedal_model : Text → Text
canonical_pedal_model model = model_token (model_from_display_name model) model

unfoldable pub canonical_pedal_mode : Text → Text
unfolding contains
canonical_pedal_mode mode =
    let l = to_lower (trim_space mode) in
    if contains l (codes "legacy")
    then codes "legacy"
    else if contains l (codes "generic") || contains l (codes "modern")
    then codes "modern"
    else l

unfoldable pub pedal_key : Text → Text → Text
unfolding legacy_pedal_key canonical_pedal_model canonical_pedal_mode
pedal_key model mode = legacy_pedal_key (canonical_pedal_model model) (canonical_pedal_mode mode)

-- sanitizePedalWheelID is what inputProfileKey calls.
unfoldable pub pedal_device_prefix : Text → Text
unfolding input_profile_key
pedal_device_prefix wheel_id =
    if is_empty (trim_space wheel_id)
    then []
    else codes "device__" ++ (input_profile_key wheel_id ++ codes "__")

unfoldable pub pedal_device_key : Text → Text → Text → Text
unfolding pedal_device_prefix pedal_key
pedal_device_key wheel_id model mode = pedal_device_prefix wheel_id ++ pedal_key model mode

unfoldable pub legacy_pedal_device_key : Text → Text → Text → Text
unfolding pedal_device_prefix legacy_pedal_key
legacy_pedal_device_key wheel_id model mode =
    pedal_device_prefix wheel_id ++ legacy_pedal_key model mode

abbrev pub no_axis : AxisCalibration
no_axis = record {
  min = 0;
  center = 0;
  max = 0;
  inverted = false;
  deadzone = Float64.num false 0;
  curve = [];
}

abbrev pub zero_mapping : PedalMapping
zero_mapping = record {
  input_source = [];
  layout_id = [];
  gas = [];
  brake = [];
  clutch = [];
  gas_calibration = no_axis;
  brake_calibration = no_axis;
  clutch_calibration = no_axis;
}

-- The map that a read starts from, or what the decoder made of it.
abbrev entries_of : Option (Map PedalMapping) → Map PedalMapping
entries_of none = []
entries_of (some all) = all

abbrev pub or_else {ℓ} : {A : Type ℓ} → Option A → Option A → Option A
or_else (some a) o = some a
or_else none o = o

abbrev or_zero : Option PedalMapping → PedalMapping
or_zero (some m) = m
or_zero none = zero_mapping

unfoldable pub read_pedal_mapping : StoredPedals → Text → Text → PedalMapping
unfolding lookup pedal_key legacy_pedal_key
read_pedal_mapping (err e) model mode = zero_mapping
read_pedal_mapping (ok stored) model mode =
    let all = entries_of stored in
    or_zero (or_else (lookup (pedal_key model mode) all) (lookup (legacy_pedal_key model mode) all))

-- Does the key of an older file, with its texts for the display, name this model and this mode?
unfoldable pub names_model : Text → Text → Bool
unfolding contains text_eq
names_model token lk =
    is_empty token
    || (contains lk token
        || (text_eq token (codes "g27") && contains lk (codes "logitech_g27")
            || (text_eq token (codes "g25") && contains lk (codes "logitech_g25")
                || text_eq token (codes "dfgt") && contains lk (codes "driving_force_gt"))))

unfoldable pub names_mode : Text → Text → Bool
unfolding contains text_eq
names_mode token lk =
    is_empty token
    || (contains lk token
        || (text_eq token (codes "modern") && contains lk (codes "generic_hid")
            || text_eq token (codes "legacy") && contains lk (codes "logitech_legacy")))

-- The mappings of the wheel under older keys.
unfoldable pub older_mappings : Text → Text → Text → Map PedalMapping → List PedalMapping
unfolding names_model names_mode has_prefix
older_mappings prefix model mode [] = []
older_mappings prefix model mode ((key, m) ∷ rest) =
    let later = older_mappings prefix model mode rest in
    let lk = to_lower key in
    if not (is_empty prefix)
      && (has_prefix lk prefix && (names_model model lk && names_mode mode lk))
    then m ∷ later
    else later

-- The candidate counts if it is the only one.
abbrev only_one : List PedalMapping → Option PedalMapping
only_one [] = none
only_one (m ∷ []) = some m
only_one (m ∷ n ∷ ms) = none

unfoldable pub read_pedal_mapping_for_wheel : StoredPedals → Text → Text → Text → PedalMapping
unfolding lookup older_mappings pedal_device_key legacy_pedal_device_key pedal_key legacy_pedal_key
read_pedal_mapping_for_wheel (err e) wheel_id model mode = zero_mapping
read_pedal_mapping_for_wheel (ok stored) wheel_id model mode =
    let all = entries_of stored in
    let older =
      older_mappings (pedal_device_prefix wheel_id) (canonical_pedal_model model)
        (canonical_pedal_mode mode) all in
    or_zero (
      or_else (lookup (pedal_device_key wheel_id model mode) all) (
        or_else (lookup (legacy_pedal_device_key wheel_id model mode) all) (
          or_else (only_one older) (
            or_else (lookup (pedal_key model mode) all)
              (lookup (legacy_pedal_key model mode) all)))))

abbrev pub after_write : StoredPedals → Map PedalMapping → Bool → StoredPedals × Option ProfileError
after_write stored all true = (ok (some all), none)
after_write stored all false = (stored, some not_written)

unfoldable pub save_at :
    StoredPedals → Text → PedalMapping → Bool → StoredPedals × Option ProfileError
unfolding insert
save_at (err e) key m writes = (err e, some e)
save_at (ok stored) key m writes = after_write (ok stored) (insert key m (entries_of stored)) writes

unfoldable pub save_pedal_mapping_for_wheel :
    StoredPedals → Text → Text → Text → PedalMapping → Bool → StoredPedals × Option ProfileError
unfolding save_at pedal_device_key
save_pedal_mapping_for_wheel stored wheel_id model mode m writes =
    save_at stored (pedal_device_key wheel_id model mode) m writes

unfoldable pub save_pedal_mapping :
    StoredPedals → Text → Text → PedalMapping → Bool → StoredPedals × Option ProfileError
unfolding save_at pedal_key
save_pedal_mapping stored model mode m writes = save_at stored (pedal_key model mode) m writes

abbrev role_axis : PedalMapping → Text → Option (Text × AxisCalibration)
role_axis m role =
    let r = to_lower role in
    if text_eq r (codes "gas")
    then some (m.gas, m.gas_calibration)
    else if text_eq r (codes "brake") || text_eq r (codes "bremse")
    then some (m.brake, m.brake_calibration)
    else if text_eq r (codes "clutch") || text_eq r (codes "kupplung")
    then some (m.clutch, m.clutch_calibration)
    else none

unfoldable pub pedal_percent :
    (Float64 → Float64 → Float64) → JoyState → PedalMapping → Text → Option Float64
unfolding axis_raw_by_name calibrated_axis_percent
pedal_percent pow j m role =
    if not (is_empty m.input_source) && not (equal_fold m.input_source j.input_source)
    then none
    else if not (is_empty m.layout_id) && not (equal_fold m.layout_id j.layout_id)
    then none
    else elim (role_axis m role) [
      | none ↦ none
      | some (axis, c) ↦ if is_empty axis then none else elim (axis_raw_by_name j axis) [
        | none ↦ none
        | some raw ↦ calibrated_axis_percent pow raw c
      ]
    ]
