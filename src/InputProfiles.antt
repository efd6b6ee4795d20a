-- ===== src/InputProfiles.antt =====
-- internal/system/input_profiles_windows.go: the buttons, gears and steering that a user teaches for a
-- wheel, and their file. The file is what ReadJSONConfigStrict reads: an error, no file, or what it
-- decodes to; a map that is nil is an empty one, as for all that reads it. Whether WriteJSONConfigStrict
-- succeeds is an argument, and it changes nothing when it fails.
pub mod Axes
pub mod Pedals
pub mod Carry
pub mod Saved
pub mod Made
pub mod Sound
mod Examples
use logi_mate.Base.{
  ℕ, ◌-◌, ◌<◌, Bool, true, false, not, ◌&&◌, ◌||◌, Option, none, some, List, [], ◌∷◌, ltb, leb,
  ◌==◌, if◌then◌else◌,
}
use logi_mate.Base.Int.{ℤ, pos, ltb_ℤ}
use logi_mate.Base.Results.{Result, ok, err, ◌>>=◌, ◌>>◌, guard}
use logi_mate.Base.Text.{Text, trim_space, is_empty}
use logi_mate.Base.Maps.{Map, lookup, insert}
use logi_mate.Safety.{if_zero}
use logi_mate.Pipeline.Advanced.{input_profile_key}

pub record SteeringCalibration : Type 0 where
  pub left : ℕ
  pub center : ℕ
  pub right : ℕ
  pub range_degrees : ℤ

pub record ControlProfile : Type 0 where
  pub buttons : Map ℕ
  pub gears : Map ℤ
  pub steering : SteeringCalibration

pub record InputProfileFile : Type 0 where
  pub version : ℤ
  pub profiles : Map ControlProfile

pub data ProfileError : Type 0 where
  no_wheel_id bad_button bad_range same_positions off_center short_way : ProfileError
  unreadable newer_schema not_written : ProfileError

abbrev pub StoredProfiles : Type 0
StoredProfiles = Result ProfileError (Option InputProfileFile)

abbrev pub zero_profile : ControlProfile
zero_profile = record {
  buttons = [];
  gears = [];
  steering = record { left = 0; center = 0; right = 0; range_degrees = pos 0 };
}

abbrev pub default_input_profile_file : InputProfileFile
default_input_profile_file = record { version = pos 1; profiles = [] }

unfoldable pub read_input_profile_file_strict :
    StoredProfiles → Result ProfileError InputProfileFile
read_input_profile_file_strict (err e) = err e
read_input_profile_file_strict (ok none) = ok default_input_profile_file
read_input_profile_file_strict (ok (some f)) =
    if ltb_ℤ (pos 1) f.version
    then err newer_schema
    else ok (record f { version = if_zero f.version (pos 1) })

abbrev pub or_default : Result ProfileError InputProfileFile → InputProfileFile
or_default (ok f) = f
or_default (err e) = default_input_profile_file

abbrev pub read_input_profile_file : StoredProfiles → InputProfileFile
read_input_profile_file stored = or_default (read_input_profile_file_strict stored)

-- Go's read of a map: the zero value for a missing key.
abbrev pub or_zero_profile : Option ControlProfile → ControlProfile
or_zero_profile (some p) = p
or_zero_profile none = zero_profile

abbrev pub entry_of : Text → InputProfileFile → ControlProfile
entry_of key f = or_zero_profile (lookup key f.profiles)

unfoldable pub read_control_profile : StoredProfiles → Text → ControlProfile
unfolding read_input_profile_file_strict
read_control_profile stored wheel_id =
    entry_of (input_profile_key wheel_id) (read_input_profile_file stored)

unfoldable pub write_input_profile_file :
    StoredProfiles → InputProfileFile → Bool → StoredProfiles × Option ProfileError
write_input_profile_file stored f true = (ok (some (record f { version = pos 1 })), none)
write_input_profile_file stored f false = (stored, some not_written)

-- What the three saves share: the file is read, the profile of the wheel changed, the file written.
unfoldable pub save_read :
    StoredProfiles
    → Text
    → (ControlProfile → ControlProfile)
    → Bool
    → Result ProfileError InputProfileFile
    → StoredProfiles × Option ProfileError
unfolding write_input_profile_file
save_read stored key change writes (err e) = (stored, some e)
save_read stored key change writes (ok f) =
    write_input_profile_file stored
      (record f { profiles = insert key (change (entry_of key f)) f.profiles }) writes

unfoldable pub save_changed :
    StoredProfiles
    → Text
    → (ControlProfile → ControlProfile)
    → Bool
    → StoredProfiles × Option ProfileError
unfolding save_read read_input_profile_file_strict
save_changed stored key change writes =
    save_read stored key change writes (read_input_profile_file_strict stored)

abbrev pub with_button : Text → ℕ → ControlProfile → ControlProfile
with_button logical bit p = record p { buttons = insert logical bit p.buttons }

unfoldable pub save_button_mapping :
    StoredProfiles → Text → Text → ℕ → Bool → StoredProfiles × Option ProfileError
unfolding save_changed
save_button_mapping stored wheel_id logical bit writes =
    if is_empty (trim_space wheel_id)
    then (stored, some no_wheel_id)
    else if is_empty (trim_space logical) || leb 32 bit
    then (stored, some bad_button)
    else save_changed stored (input_profile_key wheel_id) (with_button (trim_space logical) bit)
        writes

-- The new map, from the signatures in the order in which the loop meets them.
unfoldable pub learned_gears : List (Text × ℤ) → Map ℤ → Map ℤ
learned_gears [] done = done
learned_gears ((sig, gear) ∷ rest) done =
    learned_gears rest
      (if is_empty (trim_space sig) then done else insert (trim_space sig) gear done)

abbrev pub with_gears : List (Text × ℤ) → ControlProfile → ControlProfile
with_gears signatures p = record p { gears = learned_gears signatures [] }

unfoldable pub save_gear_mapping :
    StoredProfiles → Text → List (Text × ℤ) → Bool → StoredProfiles × Option ProfileError
unfolding save_changed learned_gears
save_gear_mapping stored wheel_id signatures writes =
    if is_empty (trim_space wheel_id)
    then (stored, some no_wheel_id)
    else save_changed stored (input_profile_key wheel_id) (with_gears signatures) writes

abbrev pub abs_delta : ℕ → ℕ → ℕ
abs_delta a b = if ltb b a then a - b else b - a

-- The tests of a new calibration of the steering, in their order.
unfoldable pub checked_steering : SteeringCalibration → Result ProfileError (Unit {0})
checked_steering c =
    let swap = ltb c.right c.left in
    let lo = if swap then c.right else c.left in
    let hi = if swap then c.left else c.right in
    guard (not (ltb_ℤ c.range_degrees (pos 40) || ltb_ℤ (pos 1080) c.range_degrees)) bad_range
    >> guard (not (c.left == c.center || (c.right == c.center || c.left == c.right))) same_positions
    >> guard (not (leb c.center lo || leb hi c.center)) off_center
    >> guard (not (ltb (abs_delta c.left c.center) 512 || ltb (abs_delta c.right c.center) 512))
        short_way

abbrev pub with_steering : SteeringCalibration → ControlProfile → ControlProfile
with_steering c p = record p { steering = c }

abbrev pub save_checked :
    StoredProfiles
    → Text
    → SteeringCalibration
    → Bool
    → Result ProfileError (Unit {0})
    → StoredProfiles × Option ProfileError
save_checked stored wheel_id c writes (err e) = (stored, some e)
save_checked stored wheel_id c writes (ok _) =
    save_changed stored (input_profile_key wheel_id) (with_steering c) writes

unfoldable pub save_steering_calibration :
    StoredProfiles → Text → SteeringCalibration → Bool → StoredProfiles × Option ProfileError
unfolding save_changed checked_steering
save_steering_calibration stored wheel_id c writes =
    if is_empty (trim_space wheel_id)
    then (stored, some no_wheel_id)
    else save_checked stored wheel_id c writes (checked_steering c)
