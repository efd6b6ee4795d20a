-- ===== src/Reference/Profiles.antt =====
-- internal/openg27port/game_profile.go: the profiles of OpenG27 and the choice of the one whose game
-- runs. `json.Unmarshal` gives the raw entries.
use logi_mate.Base.{
  ◌≡◌, ap, refl, Bool, true, false, not, ◌&&◌, ◌||◌, Option, none, some, List, [], ◌∷◌, ◌++◌, map,
  All, if◌then◌else◌, Bool-cases, inl, inr, ◌⊎◌,
}
use logi_mate.Base.Int.{ℤ, pos}
use logi_mate.Base.Text.{Text, codes, trim_space, to_lower, is_empty, contains}

pub record OpenG27GameProfile : Type 0 where
  pub name : Text
  pub process_match : Text
  pub rotation_deg : ℤ
  pub autocenter_strength : ℤ
  pub damper_strength : ℤ
  pub telemetry_format : Text
  pub game_ffb_enabled : Bool
  pub game_ffb_gain : ℤ
  pub game_ffb_invert : Bool
  pub leds_from_telemetry_rpm : Bool

-- An entry of the file; `none` is a property that is not there.
pub record RawProfile : Type 0 where
  pub name : Text
  pub process_match : Text
  pub rotation_deg : ℤ
  pub autocenter_strength : ℤ
  pub damper_strength : ℤ
  pub telemetry_format : Option Text
  pub game_ffb_enabled : Option Bool
  pub game_ffb_gain : Option ℤ
  pub game_ffb_invert : Option Bool
  pub leds_from_telemetry_rpm : Option Bool

abbrev or_given {ℓ} : {A : Type ℓ} → Option A → A → A
or_given none d = d
or_given (some x) d = x

unfoldable pub profile_of : RawProfile → OpenG27GameProfile
profile_of r = record {
  name = r.name;
  process_match = r.process_match;
  rotation_deg = r.rotation_deg;
  autocenter_strength = r.autocenter_strength;
  damper_strength = r.damper_strength;
  telemetry_format = or_given r.telemetry_format [];
  game_ffb_enabled = or_given r.game_ffb_enabled false;
  game_ffb_gain = or_given r.game_ffb_gain (pos 100);
  game_ffb_invert = or_given r.game_ffb_invert false;
  leds_from_telemetry_rpm = or_given r.leds_from_telemetry_rpm false;
}

-- ParseOpenG27GameProfiles, after the decoder.
unfoldable pub open_g27_game_profiles : List RawProfile → List OpenG27GameProfile
open_g27_game_profiles raws = map profile_of raws

-- The inner loop, over the names that are left.
unfoldable pub runs_as : Text → List Text → Bool
runs_as needle [] = false
runs_as needle (name ∷ names) =
    not (is_empty name) && contains (to_lower name) needle || runs_as needle names

abbrev pub is_running : List Text → OpenG27GameProfile → Bool
is_running running p =
    let needle = trim_space p.process_match in
    not (is_empty needle) && runs_as (to_lower needle) running

unfoldable pub match_open_g27_game_profile :
    List Text → List OpenG27GameProfile → Option OpenG27GameProfile
match_open_g27_game_profile running [] = none
match_open_g27_game_profile running (p ∷ ps) =
    let rest = match_open_g27_game_profile running ps in
    if is_running running p then some p else rest

abbrev pub open_g27_wreckfest_2_preset : OpenG27GameProfile
open_g27_wreckfest_2_preset = record {
  name = codes "Wreckfest 2";
  process_match = codes "Wreckfest2";
  rotation_deg = pos 900;
  autocenter_strength = pos 0;
  damper_strength = pos 0;
  telemetry_format = codes "WreckfestPino";
  game_ffb_enabled = true;
  game_ffb_gain = pos 100;
  game_ffb_invert = true;
  leds_from_telemetry_rpm = true;
}

abbrev NotRunning : List Text → OpenG27GameProfile → Type 0
NotRunning running p = is_running running p ≡ false

-- The profile that is chosen is the first of the list whose game runs; none is chosen exactly if none
-- runs.
pub match_first :
    (running : List Text) (ps : List OpenG27GameProfile)
    → ((match_open_g27_game_profile running ps ≡ none) × All (NotRunning running) ps)
      ⊎ ((before after : List OpenG27GameProfile) × (p : OpenG27GameProfile)
          × (match_open_g27_game_profile running ps ≡ some p)
          × (ps ≡ before ++ p ∷ after)
          × All (NotRunning running) before
          × (is_running running p ≡ true))
unfolding match_open_g27_game_profile
match_first running [] = inl (refl, tt)
match_first running (p ∷ ps) = elim (Bool-cases (is_running running p)) [
  | inl found ↦ inr ([], ps, p, rw found refl, refl, tt, found)
  | inr missed ↦ elim (match_first running ps) [
    | inl (nothing, others) ↦ inl (simp missed nothing, (missed, others))
    | inr (before, after, q, found, split, earlier, runs) ↦
        inr
          (p ∷ before, after, q, simp missed found, ap (λ l. p ∷ l) split, (missed, earlier), runs)
  ]
]
