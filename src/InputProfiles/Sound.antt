-- ===== src/InputProfiles/Sound.antt =====
-- internal/system/input_profiles_windows.go: what holds of every profile that the program saved.
use logi_mate.Base.{
  ℕ, ◌+◌, ◌<◌, ◌≤◌, ◌≡◌, refl, ◌∙◌, sym, subst, ◌⊎◌, inl, inr, ◌↔◌, Bool, true, false, ◌||◌, Option,
  none, some, List, [], ◌∷◌, arith, leb, if◌then◌else◌,
}
use logi_mate.Base.Int.{pos, ◌≤ℤ◌}
use logi_mate.Base.Float.{Float64}
use logi_mate.Base.Results.{ok, Result-cases}
use logi_mate.Base.Text.{Text, trim_space, is_empty}
use logi_mate.Base.Maps.{lookup, lookup-insert}
use logi_mate.InputProfiles.{
  ControlProfile, SteeringCalibration, StoredProfiles, ProfileError, zero_profile,
  read_control_profile, read_input_profile_file_strict, checked_steering, save_button_mapping,
  save_steering_calibration,
}
use logi_mate.InputProfiles.Axes.{steering_degrees, gives_none}
use logi_mate.InputProfiles.Saved.{Change, button, gears, steering, save, changed, save-changed}

-- The stops lie on two sides of the middle, each at least 512 steps away, and the wheel turns by 40 to
-- 1080 degrees between them.
abbrev pub Sound : SteeringCalibration → Type 0
Sound c =
    (pos 40 ≤ℤ c.range_degrees)
    × (c.range_degrees ≤ℤ pos 1080)
    × (((c.left + 512 ≤ c.center) × (c.center + 512 ≤ c.right))
        ⊎ ((c.right + 512 ≤ c.center) × (c.center + 512 ≤ c.left)))

-- Each learned button is one of 32, and the steering is not calibrated or soundly.
abbrev pub WellTaught : ControlProfile → Type 0
WellTaught p =
    ((name : Text) (bit : ℕ) → lookup name p.buttons ≡ some bit → bit < 32)
    × ((p.steering ≡ zero_profile.steering) ⊎ Sound p.steering)

-- A calibration is accepted exactly if it is sound.
checked_steering_iff : (c : SteeringCalibration) → (checked_steering c ≡ ok tt) ↔ Sound c
unfolding checked_steering
checked_steering_iff c = (λ h. ground arith, λ h. ground arith)

abbrev Fit : Change → Type 0
Fit (button logical bit) = bit < 32
Fit (gears signatures) = Unit
Fit (steering c) = Sound c

refused_none :
    {A : Type 0} (t : Bool) (a : A) (e : ProfileError) (r : A × Option ProfileError)
    → (if t then (a, some e) else r).1 ≡ none
    → (t ≡ false) × (r.1 ≡ none)
refused_none true a e r h = absurd (cc h)
refused_none false a e r h = (refl, h)

-- Only a fit change is saved.
save-Fit :
    (stored : StoredProfiles) (wheel_id : Text) (c : Change) (writes : Bool)
    → (save stored wheel_id c writes).1 ≡ none
    → Fit c
unfolding save save_button_mapping save_steering_calibration
save-Fit stored wheel_id (button logical bit) writes h =
    let (named, saved) =
      refused_none (is_empty (trim_space wheel_id)) stored ProfileError.no_wheel_id _ h in
    let (good, done) =
      refused_none (is_empty (trim_space logical) || leb 32 bit) stored ProfileError.bad_button _
        saved in
    ground (arith, good)
save-Fit stored wheel_id (gears signatures) writes h = tt
save-Fit stored wheel_id (steering c) writes h =
    let (named, saved) =
      refused_none (is_empty (trim_space wheel_id)) stored ProfileError.no_wheel_id _ h in
    elim (Result-cases (checked_steering c)) [
      | inl (u, accepted) ↦ (checked_steering_iff c).0 accepted
      | inr (e, failed) ↦ absurd (cc (rw failed at saved))
    ]

changed-WellTaught :
    (c : Change) (p : ControlProfile) → Fit c → WellTaught p → WellTaught (changed c p)
changed-WellTaught (button logical bit) p small taught = (
  λ name b at_name.
      let told = sym (lookup-insert (trim_space logical) name bit p.buttons) ∙ at_name in
      ground (arith, small, told, taught.0 name b),
  taught.1,
)
changed-WellTaught (gears signatures) p u taught = taught
changed-WellTaught (steering c) p sound taught = (taught.0, inr sound)

abbrev AllTaught : StoredProfiles → Type 0
AllTaught stored = (wheel_id : Text) → WellTaught (read_control_profile stored wheel_id)

either-WellTaught :
    (b : Bool) (p q : ControlProfile)
    → WellTaught p
    → WellTaught q
    → WellTaught (if b then p else q)
either-WellTaught true p q left right = left
either-WellTaught false p q left right = right

save-AllTaught :
    (stored : StoredProfiles) (wheel_id : Text) (c : Change) (writes : Bool)
    → AllTaught stored
    → AllTaught (save stored wheel_id c writes).0
save-AllTaught stored wheel_id c writes taught other =
    elim (save-changed stored wheel_id c writes other) [
      | inr (e, failed, kept) ↦
          subst (λ s. WellTaught (read_control_profile s other)) (sym kept) (taught other)
      | inl (fine, read) ↦ subst WellTaught (sym read) (
          either-WellTaught _ _ _
            (changed-WellTaught c _ (save-Fit stored wheel_id c writes fine) (taught wheel_id))
            (taught other))
    ]

-- The file after saves in their order, each with its wheel and whether the file can be written.
unfoldable pub after_saves : StoredProfiles → List (Text × Change × Bool) → StoredProfiles
unfolding save
after_saves stored [] = stored
after_saves stored ((wheel_id, c, writes) ∷ rest) =
    after_saves (save stored wheel_id c writes).0 rest

after_saves-AllTaught :
    (stored : StoredProfiles) (saves : List (Text × Change × Bool))
    → AllTaught stored
    → AllTaught (after_saves stored saves)
unfolding after_saves
after_saves-AllTaught stored [] taught = taught
after_saves-AllTaught stored ((wheel_id, c, writes) ∷ rest) taught =
    after_saves-AllTaught (save stored wheel_id c writes).0 rest
      (save-AllTaught stored wheel_id c writes taught)

none-AllTaught : AllTaught (ok none)
unfolding read_control_profile read_input_profile_file_strict lookup
none-AllTaught wheel_id = (λ name bit h. absurd (cc h), inl refl)

-- Either no degrees are shown, or they are for every position of the wheel.
abbrev pub Degrees : ControlProfile → Type 0
Degrees p =
    ((p.steering ≡ zero_profile.steering) × ((x : ℕ) → steering_degrees p.steering x ≡ none))
    ⊎ (Sound p.steering × ((x : ℕ) → (d : Float64) × (steering_degrees p.steering x ≡ some d)))

some_either : (b : Bool) (l r : Float64) → (d : Float64) × ((if b then some l else some r) ≡ some d)
some_either true l r = (l, refl)
some_either false l r = (r, refl)

Sound-degrees :
    (c : SteeringCalibration) (x : ℕ) → Sound c → (d : Float64) × (steering_degrees c x ≡ some d)
unfolding steering_degrees
Sound-degrees c x sound =
    let good : gives_none c ≡ false = ground arith in rw good (some_either _ _ _)

shown-Degrees : (p : ControlProfile) → WellTaught p → Degrees p
unfolding steering_degrees
shown-Degrees p (small, inl zeroed) = inl (zeroed, λ x. rw zeroed refl)
shown-Degrees p (small, inr sound) = inr (sound, λ x. Sound-degrees p.steering x sound)

-- Whatever was saved for whatever wheels, from no file at all and with any writes that failed: each button
-- of the profile that is read for a wheel is one of 32, and its steering is either not calibrated and
-- shows no degrees, or soundly calibrated and shows degrees for every position.
pub saves-WellTaught :
    (saves : List (Text × Change × Bool)) (wheel_id : Text)
    → WellTaught (read_control_profile (after_saves (ok none) saves) wheel_id)
      × Degrees (read_control_profile (after_saves (ok none) saves) wheel_id)
saves-WellTaught saves wheel_id =
    let taught = after_saves-AllTaught (ok none) saves none-AllTaught wheel_id in
    let shown = read_control_profile (after_saves (ok none) saves) wheel_id in
    (taught, shown-Degrees shown taught)
