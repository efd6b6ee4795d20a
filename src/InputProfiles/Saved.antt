-- ===== src/InputProfiles/Saved.antt =====
-- internal/system/input_profiles_windows.go: what is read after a save, and what any saves leave.
use logi_mate.Base.{
  Option-cases, ◌⊎◌, inl, inr, ℕ, ◌≡◌, refl, ◌∙◌, sym, ap, Bool, true, false, ◌||◌, Option, none,
  some, List, leb, if◌then◌else◌,
}
use logi_mate.Base.Int.{ℤ}
use logi_mate.Base.Results.{Result, ok, err}
use logi_mate.Base.Text.{Text, text_eq, trim_space, is_empty}
use logi_mate.Base.Maps.{lookup, lookup-insert}
use logi_mate.Pipeline.Advanced.{input_profile_key}
use logi_mate.InputProfiles.{
  ControlProfile, SteeringCalibration, InputProfileFile, StoredProfiles, ProfileError, entry_of,
  or_zero_profile, or_default, save_read, save_checked, read_input_profile_file,
  read_input_profile_file_strict, read_control_profile, write_input_profile_file, save_changed,
  save_button_mapping, save_gear_mapping, save_steering_calibration, checked_steering, with_button,
  with_gears, with_steering,
}

-- One save of the program.
pub data Change : Type 0 where
  button : Text → ℕ → Change
  gears : List (Text × ℤ) → Change
  steering : SteeringCalibration → Change

unfoldable pub save : StoredProfiles → Text → Change → Bool → StoredProfiles × Option ProfileError
unfolding save_button_mapping save_gear_mapping save_steering_calibration
save stored wheel_id (button logical bit) writes =
    save_button_mapping stored wheel_id logical bit writes
save stored wheel_id (gears signatures) writes = save_gear_mapping stored wheel_id signatures writes
save stored wheel_id (steering c) writes = save_steering_calibration stored wheel_id c writes

abbrev pub changed : Change → ControlProfile → ControlProfile
changed (button logical bit) p = with_button (trim_space logical) bit p
changed (gears signatures) p = with_gears signatures p
changed (steering c) p = with_steering c p

-- The profile of a key is the changed one after a save without an error, and any other is as before.
abbrev pub ReadsBack :
    StoredProfiles
    → Text
    → (ControlProfile → ControlProfile)
    → StoredProfiles × Option ProfileError
    → Type 0
ReadsBack stored key change r =
    (r.1 ≡ none
      → (k : Text)
      → entry_of k (read_input_profile_file r.0) ≡ (
          if text_eq key k
          then change (entry_of key (read_input_profile_file stored))
          else entry_of k (read_input_profile_file stored)))
    × ((e : ProfileError) → r.1 ≡ some e → r.0 ≡ stored)

refused :
    (stored : StoredProfiles) (key : Text) (change : ControlProfile → ControlProfile)
    (e : ProfileError)
    → ReadsBack stored key change (stored, some e)
refused stored key change e = (λ h k. absurd (cc h), λ e' h. refl)

if_of :
    (b : Bool) (p : ControlProfile) (o : Option ControlProfile)
    → or_zero_profile (if b then some p else o) ≡ (if b then p else or_zero_profile o)
if_of true p o = refl
if_of false p o = refl

save_read-ReadsBack :
    (stored : StoredProfiles) (key : Text) (change : ControlProfile → ControlProfile)
    (writes : Bool) (r : Result ProfileError InputProfileFile)
    → read_input_profile_file_strict stored ≡ r
    → ReadsBack stored key change (save_read stored key change writes r)
unfolding save_read write_input_profile_file read_input_profile_file_strict
save_read-ReadsBack stored key change writes (err e) same = refused stored key change e
save_read-ReadsBack stored key change false (ok f) same =
    refused stored key change ProfileError.not_written
save_read-ReadsBack stored key change true (ok f) same = (
  λ h k.
      ap or_zero_profile (lookup-insert key k (change (entry_of key f)) f.profiles)
      ∙ if_of (text_eq key k) (change (entry_of key f)) (lookup k f.profiles)
      ∙ ap
          (λ q.
            if text_eq key k
            then change (entry_of key (or_default q))
            else entry_of k (or_default q))
          (sym same),
  λ e h. absurd (cc h),
)

save_changed-ReadsBack :
    (stored : StoredProfiles) (key : Text) (change : ControlProfile → ControlProfile)
    (writes : Bool)
    → ReadsBack stored key change (save_changed stored key change writes)
unfolding save_changed
save_changed-ReadsBack stored key change writes =
    save_read-ReadsBack stored key change writes (read_input_profile_file_strict stored) refl

save_checked-ReadsBack :
    (stored : StoredProfiles) (wheel_id : Text) (c : SteeringCalibration) (writes : Bool)
    (r : Result ProfileError (Unit {0}))
    → ReadsBack stored
        (input_profile_key wheel_id)
        (with_steering c)
        (save_checked stored wheel_id c writes r)
save_checked-ReadsBack stored wheel_id c writes (err e) =
    refused stored (input_profile_key wheel_id) (with_steering c) e
save_checked-ReadsBack stored wheel_id c writes (ok u) =
    save_changed-ReadsBack stored (input_profile_key wheel_id) (with_steering c) writes

-- A test that refuses comes before what is done.
refused_if :
    (stored : StoredProfiles) (key : Text) (change : ControlProfile → ControlProfile) (t : Bool)
    (e : ProfileError) (r : StoredProfiles × Option ProfileError)
    → ReadsBack stored key change r
    → ReadsBack stored key change (if t then (stored, some e) else r)
refused_if stored key change true e r done = refused stored key change e
refused_if stored key change false e r done = done

save-ReadsBack :
    (stored : StoredProfiles) (wheel_id : Text) (c : Change) (writes : Bool)
    → ReadsBack stored (input_profile_key wheel_id) (changed c) (save stored wheel_id c writes)
unfolding save save_button_mapping save_gear_mapping save_steering_calibration
save-ReadsBack stored wheel_id (button logical bit) writes =
    let key = input_profile_key wheel_id in
    let change = with_button (trim_space logical) bit in
    let done = save_changed stored key change writes in
    let bad = is_empty (trim_space logical) || leb 32 bit in
    refused_if stored key change (is_empty (trim_space wheel_id)) ProfileError.no_wheel_id
      (if bad then (stored, some ProfileError.bad_button) else done)
      (refused_if stored key change bad ProfileError.bad_button done
        (save_changed-ReadsBack stored key change writes))
save-ReadsBack stored wheel_id (gears signatures) writes =
    let key = input_profile_key wheel_id in
    refused_if stored key (with_gears signatures) (is_empty (trim_space wheel_id))
      ProfileError.no_wheel_id (save_changed stored key (with_gears signatures) writes)
      (save_changed-ReadsBack stored key (with_gears signatures) writes)
save-ReadsBack stored wheel_id (steering c) writes =
    let key = input_profile_key wheel_id in
    refused_if stored key (with_steering c) (is_empty (trim_space wheel_id))
      ProfileError.no_wheel_id (save_checked stored wheel_id c writes (checked_steering c))
      (save_checked-ReadsBack stored wheel_id c writes (checked_steering c))

pub save-changed :
    (stored : StoredProfiles) (wheel_id : Text) (c : Change) (writes : Bool) (other : Text)
    → (((save stored wheel_id c writes).1 ≡ none)
        × (read_control_profile (save stored wheel_id c writes).0 other ≡ (
            if text_eq (input_profile_key wheel_id) (input_profile_key other)
            then changed c (read_control_profile stored wheel_id)
            else read_control_profile stored other)))
      ⊎ ((e : ProfileError) × ((save stored wheel_id c writes).1 ≡ some e)
          × ((save stored wheel_id c writes).0 ≡ stored))
unfolding read_control_profile
save-changed stored wheel_id c writes other =
    let (read, kept) = save-ReadsBack stored wheel_id c writes in
    elim (Option-cases (save stored wheel_id c writes).1) [
      | inl fine ↦ inl (fine, read fine (input_profile_key other))
      | inr (e, failed) ↦ inr (e, failed, kept e failed)
    ]
