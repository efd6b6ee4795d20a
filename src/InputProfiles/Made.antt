-- ===== src/InputProfiles/Made.antt =====
-- internal/system/input_profiles_windows.go: what a save changes in the profile that is read, and when it
-- succeeds.
use logi_mate.Base.{
  ◌≡◌, refl, ◌∙◌, sym, ap, subst, ◌⊎◌, inl, inr, Bool, true, false, not, ◌&&◌, ◌||◌, Option, none,
  some, List, [], ◌∷◌, leb, if◌then◌else◌,
}
use logi_mate.Base.Int.{ℤ}
use logi_mate.Base.Results.{Result, ok, err, is_ok}
use logi_mate.Base.Text.{Text, text_eq, trim_space, is_empty}
use logi_mate.Base.Maps.{Map, lookup, insert, lookup-insert}
use logi_mate.Pipeline.Advanced.{input_profile_key}
use logi_mate.InputProfiles.{
  ControlProfile, SteeringCalibration, InputProfileFile, StoredProfiles, ProfileError,
  learned_gears, save_read, save_changed, save_checked, read_input_profile_file_strict,
  read_control_profile, write_input_profile_file, save_button_mapping, save_gear_mapping,
  save_steering_calibration, checked_steering, with_button, with_gears, with_steering,
}
use logi_mate.InputProfiles.Saved.{Change, button, gears, steering, save, changed, save-changed}

-- The last gear that is listed for a signature; a blank signature counts for nothing.
abbrev pub last_gear : Text → List (Text × ℤ) → Option ℤ
last_gear sig [] = none
last_gear sig ((s, gear) ∷ rest) = elim (last_gear sig rest) [
  | some g ↦ some g
  | none ↦ if not (is_empty (trim_space s)) && text_eq (trim_space s) sig then some gear else none
]

-- The second profile is the first with the change made, and nothing else.
abbrev pub Made : Change → ControlProfile → ControlProfile → Type 0
Made (button logical bit) p q =
    ((name : Text)
      → lookup name q.buttons
        ≡ (if text_eq (trim_space logical) name then some bit else lookup name p.buttons))
    × (q.gears ≡ p.gears)
    × (q.steering ≡ p.steering)
Made (gears signatures) p q =
    (q.buttons ≡ p.buttons)
    × ((sig : Text) → lookup sig q.gears ≡ last_gear sig signatures)
    × (q.steering ≡ p.steering)
Made (steering c) p q = (q.buttons ≡ p.buttons) × (q.gears ≡ p.gears) × (q.steering ≡ c)

abbrev or_done : Option ℤ → Option ℤ → Option ℤ
or_done (some g) before = some g
or_done none before = before

-- What one signature of the list does for a key.
one_learned :
    (o before : Option ℤ) (blank same : Bool) (gear : ℤ)
    → or_done o (if blank then before else if same then some gear else before)
      ≡ or_done
          (elim o [ some g ↦ some g | none ↦ if not blank && same then some gear else none ])
          before
one_learned (some g) before blank same gear = refl
one_learned none before true same gear = refl
one_learned none before false true gear = refl
one_learned none before false false gear = refl

lookup_if :
    (blank : Bool) (name : Text) (gear : ℤ) (before : Map ℤ) (sig : Text)
    → lookup sig (if blank then before else insert name gear before) ≡ (
        if blank
        then lookup sig before
        else if text_eq name sig
        then some gear
        else lookup sig before)
lookup_if true name gear before sig = refl
lookup_if false name gear before sig = lookup-insert name sig gear before

learned_gears-lookup :
    (signatures : List (Text × ℤ)) (before : Map ℤ) (sig : Text)
    → lookup sig (learned_gears signatures before)
      ≡ or_done (last_gear sig signatures) (lookup sig before)
unfolding learned_gears
learned_gears-lookup [] before sig = refl
learned_gears-lookup ((s, gear) ∷ rest) before sig =
    learned_gears-lookup rest _ sig
    ∙ ap (or_done (last_gear sig rest))
        (lookup_if (is_empty (trim_space s)) (trim_space s) gear before sig)
    ∙ one_learned (last_gear sig rest) (lookup sig before) (is_empty (trim_space s))
        (text_eq (trim_space s) sig) gear

no_gear : (o : Option ℤ) → or_done o none ≡ o
no_gear none = refl
no_gear (some g) = refl

changed-Made : (c : Change) (p : ControlProfile) → Made c p (changed c p)
unfolding lookup
changed-Made (button logical bit) p =
    (λ name. lookup-insert (trim_space logical) name bit p.buttons, refl, refl)
changed-Made (gears signatures) p =
    (refl, λ sig. learned_gears-lookup signatures [] sig ∙ no_gear (last_gear sig signatures), refl)
changed-Made (steering c) p = (refl, refl, refl)

abbrev pub acceptable : Change → Bool
acceptable (button logical bit) = not (is_empty (trim_space logical) || leb 32 bit)
acceptable (gears signatures) = true
acceptable (steering c) = is_ok (checked_steering c)

abbrev pub succeeded : Option ProfileError → Bool
succeeded none = true
succeeded (some e) = false

save_read-succeeded :
    (stored : StoredProfiles) (key : Text) (change : ControlProfile → ControlProfile)
    (writes : Bool) (r : Result ProfileError InputProfileFile)
    → succeeded (save_read stored key change writes r).1 ≡ (is_ok r && writes)
unfolding save_read write_input_profile_file
save_read-succeeded stored key change writes (err e) = refl
save_read-succeeded stored key change false (ok f) = refl
save_read-succeeded stored key change true (ok f) = refl

abbrev refused_or :
    Bool
    → ProfileError
    → StoredProfiles
    → StoredProfiles × Option ProfileError
    → StoredProfiles × Option ProfileError
refused_or t e stored r = if t then (stored, some e) else r

refused_or-succeeded :
    (t : Bool) (e : ProfileError) (stored : StoredProfiles)
    (r : StoredProfiles × Option ProfileError) (b : Bool)
    → succeeded r.1 ≡ b
    → succeeded (refused_or t e stored r).1 ≡ (not t && b)
refused_or-succeeded true e stored r b h = refl
refused_or-succeeded false e stored r b h = h

save_checked-succeeded :
    (stored : StoredProfiles) (wheel_id : Text) (writes : Bool) (k : SteeringCalibration)
    (r : Result ProfileError (Unit {0}))
    → succeeded (save_checked stored wheel_id k writes r).1
      ≡ (is_ok r && (is_ok (read_input_profile_file_strict stored) && writes))
unfolding save_changed
save_checked-succeeded stored wheel_id writes k (err e) = refl
save_checked-succeeded stored wheel_id writes k (ok u) =
    save_read-succeeded stored (input_profile_key wheel_id) (with_steering k) writes
      (read_input_profile_file_strict stored)

save-succeeded :
    (stored : StoredProfiles) (wheel_id : Text) (c : Change) (writes : Bool)
    → succeeded (save stored wheel_id c writes).1 ≡ (
        not (is_empty (trim_space wheel_id))
        && (acceptable c && (is_ok (read_input_profile_file_strict stored) && writes)))
unfolding save save_button_mapping save_gear_mapping save_steering_calibration save_changed
save-succeeded stored wheel_id (button logical bit) writes =
    let read =
      save_read-succeeded stored (input_profile_key wheel_id) (with_button (trim_space logical) bit)
        writes (read_input_profile_file_strict stored) in
    refused_or-succeeded (is_empty (trim_space wheel_id)) ProfileError.no_wheel_id stored _ _ (
      refused_or-succeeded (is_empty (trim_space logical) || leb 32 bit) ProfileError.bad_button
        stored _ _ read)
save-succeeded stored wheel_id (gears signatures) writes =
    refused_or-succeeded (is_empty (trim_space wheel_id)) ProfileError.no_wheel_id stored _ _ (
      save_read-succeeded stored (input_profile_key wheel_id) (with_gears signatures) writes
        (read_input_profile_file_strict stored))
save-succeeded stored wheel_id (steering c) writes =
    refused_or-succeeded (is_empty (trim_space wheel_id)) ProfileError.no_wheel_id stored _ _
      (save_checked-succeeded stored wheel_id writes c (checked_steering c))

-- What is read for a wheel after a save that changes the profile of another or of its own key.
abbrev pub ReadsMade : StoredProfiles → Text → Change → StoredProfiles → Text → Type 0
ReadsMade stored wheel_id c after other =
    ((text_eq (input_profile_key wheel_id) (input_profile_key other) ≡ true)
      × Made c (read_control_profile stored wheel_id) (read_control_profile after other))
    ⊎ ((text_eq (input_profile_key wheel_id) (input_profile_key other) ≡ false)
        × (read_control_profile after other ≡ read_control_profile stored other))

if_Made :
    (b : Bool) (c : Change) (p q r : ControlProfile)
    → r ≡ (if b then changed c p else q)
    → ((b ≡ true) × Made c p r) ⊎ ((b ≡ false) × (r ≡ q))
if_Made true c p q r same = inl (refl, subst (Made c p) (sym same) (changed-Made c p))
if_Made false c p q r same = inr (refl, same)

-- A save succeeds exactly if the wheel has an identity, the change is acceptable (a named button below 32,
-- any gears, a calibration that passes its tests), the file can be read and it can be written. Then the
-- profile that is read for the wheel is the one read before with this one button set, with exactly the
-- listed gears, or with this calibration, and otherwise as it was, and that of a wheel with another key
-- is as before; after an error the file is as before.
pub save-read :
    (stored : StoredProfiles) (wheel_id : Text) (c : Change) (writes : Bool) (other : Text)
    → (succeeded (save stored wheel_id c writes).1 ≡ (
        not (is_empty (trim_space wheel_id))
        && (acceptable c && (is_ok (read_input_profile_file_strict stored) && writes))))
      × ((((save stored wheel_id c writes).1 ≡ none)
            × ReadsMade stored wheel_id c (save stored wheel_id c writes).0 other)
          ⊎ ((e : ProfileError) × ((save stored wheel_id c writes).1 ≡ some e)
              × ((save stored wheel_id c writes).0 ≡ stored)))
save-read stored wheel_id c writes other = (
  save-succeeded stored wheel_id c writes,
  elim (save-changed stored wheel_id c writes other) [
    | inr failed ↦ inr failed
    | inl (fine, same) ↦ inl (
      fine,
      if_Made (text_eq (input_profile_key wheel_id) (input_profile_key other)) c
          (read_control_profile stored wheel_id) (read_control_profile stored other)
          (read_control_profile (save stored wheel_id c writes).0 other) same,
    )
  ],
)
