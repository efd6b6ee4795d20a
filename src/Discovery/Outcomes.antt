-- ===== src/Discovery/Outcomes.antt =====
-- internal/system/release_hardening_windows.go: what a recovery sends, leaves and reports.
use logi_mate.Base.{
  take, Option, ℕ, ◌≡◌, refl, ◌⊎◌, inl, inr, Bool, true, false, not, Bool-cases, none, some,
  Option-cases, List, [], ◌∷◌, arith, if◌then◌else◌,
}
use logi_mate.Base.Text.{Text, text_eq_refl, trim_space, is_empty, equal_fold, to_lower}
use logi_mate.Model.{
  ModelId, unknown, compatibility, g25, g27, dfgt, same_model, model_from_display_name,
}
use logi_mate.Protocol.{Report}
use logi_mate.Protocol.Classic.{neutral_reports_for_model}
use logi_mate.Discovery.{
  WheelDevice, State, selected_wheel, is_known_wheel_model, native_output_pid, raw_paths_for_wheel,
}
use logi_mate.Discovery.Recovery.{
  OutputRecoveryMarker, MarkerFile, absent, damaged, holds, not_removed, not_neutral, sent_before,
  bad_marker, Recovery, refused, marker_of, unfit, mark_runtime_output_active_target,
  clear_runtime_output_marker, is_target, is_hardware, recover_at, recover_on,
  recover_runtime_output_if_needed,
}

-- Of some reports those that went out, if that is the number that did before one failed.
abbrev pub went_out : Option ℕ → List Report → List Report
went_out none reports = reports
went_out (some n) reports = take n reports

-- Reports went out: the neutral ones of the wheel that the marker names, to its only path, or the first
-- of them.
pub record Sent (file : MarkerFile) (s : State) (failed : Option ℕ) (r : Recovery) : Type 0 where
  pub marker : OutputRecoveryMarker
  pub wheel : WheelDevice
  pub pid : Text
  pub path : Text
  pub marked : file ≡ holds marker
  pub active : marker.active ≡ true
  pub selected : selected_wheel s ≡ some wheel
  pub named : is_target marker wheel ≡ true
  pub same_hardware : is_hardware marker wheel ≡ true
  pub of_model : native_output_pid wheel.model ≡ some pid
  pub only_path : raw_paths_for_wheel wheel s.raw_input_devices pid ≡ path ∷ []
  pub reports :
      r.sent
      ≡ some
          (path, went_out failed (neutral_reports_for_model (model_from_display_name wheel.model)))

abbrev pub Untouched : MarkerFile → Recovery → Type 0
Untouched file r = (r.sent ≡ none) × (r.recovered ≡ false) × (r.file ≡ file)

abbrev pub Settled : MarkerFile → Option ℕ → Recovery → Type 0
Settled file (some n) r = (r.recovered ≡ false) × (r.error ≡ some not_neutral) × (r.file ≡ file)
Settled file none r =
    ((r.recovered ≡ true) × (r.error ≡ none) × (r.file ≡ absent))
    ⊎ ((r.recovered ≡ false) × (r.error ≡ some not_removed) × (r.file ≡ file))

abbrev pub Outcome : MarkerFile → State → Option ℕ → Recovery → Type 0
Outcome file s failed r = Untouched file r ⊎ (Sent file s failed r × Settled file failed r)

module _ (m : OutputRecoveryMarker) (s : State) (failed : Option ℕ) (removes : Bool)
    (named : is_empty (trim_space s.data_dir) ≡ false) where
  cleared :
      (b : Bool)
      → removes ≡ b
      → clear_runtime_output_marker (holds m) s.data_dir removes
        ≡ (if b then (absent, none) else (holds m, some not_removed))
  unfolding clear_runtime_output_marker
  cleared b e = rw (named, e) refl

  at_only-Outcome :
      (w : WheelDevice) (p : Text) (f : Option ℕ)
      → ((r : Recovery)
          → r.sent
            ≡ some (p, went_out f (neutral_reports_for_model (model_from_display_name w.model)))
          → Sent (holds m) s f r)
      → Outcome (holds m) s f (recover_at m s.data_dir w f removes (p ∷ []))
  unfolding recover_at sent_before
  at_only-Outcome w p (some n) sent = inr (sent _ refl, (refl, refl, refl))
  at_only-Outcome w p none sent = elim (Bool-cases removes) [
    | inl gone ↦ rw (cleared true gone) (inr (sent _ refl, inl (refl, refl, refl)))
    | inr kept ↦ rw (cleared false kept) (inr (sent _ refl, inr (refl, refl, refl)))
  ]

  at-Outcome :
      (w : WheelDevice) (pid : Text) (paths : List Text)
      → m.active ≡ true
      → selected_wheel s ≡ some w
      → is_target m w ≡ true
      → is_hardware m w ≡ true
      → native_output_pid w.model ≡ some pid
      → raw_paths_for_wheel w s.raw_input_devices pid ≡ paths
      → Outcome (holds m) s failed (recover_at m s.data_dir w failed removes paths)
  unfolding recover_at
  at-Outcome w pid [] active found fits hardware of_model listed = inl (refl, refl, refl)
  at-Outcome w pid (p ∷ q ∷ ps) active found fits hardware of_model listed = inl (refl, refl, refl)
  at-Outcome w pid (p ∷ []) active found fits hardware of_model listed =
      let sent : (r : Recovery)
          → r.sent
            ≡ some
                (p, went_out failed (neutral_reports_for_model (model_from_display_name w.model)))
          → Sent (holds m) s failed r =
        λ r e. record {
          marker = m;
          wheel = w;
          pid = pid;
          path = p;
          marked = refl;
          active = active;
          selected = found;
          named = fits;
          same_hardware = hardware;
          of_model = of_model;
          only_path = listed;
          reports = e;
        } in
      at_only-Outcome w p failed sent

  on-Outcome :
      m.active ≡ true
      → Outcome (holds m) s failed (recover_on m s failed removes (selected_wheel s))
  unfolding recover_on
  on-Outcome active = elim (Option-cases (selected_wheel s)) [
    | inl missing ↦ rw missing (inl (refl, refl, refl))
    | inr (w, found) ↦ elim (Bool-cases (is_target m w)) [
      | inr other ↦ rw (found, recover_on, other) (inl (refl, refl, refl))
      | inl fits ↦ elim (Bool-cases (is_hardware m w)) [
        | inr other ↦ rw (found, recover_on, fits, other) (inl (refl, refl, refl))
        | inl hardware ↦ elim (Option-cases (native_output_pid w.model)) [
          | inl no_pid ↦ rw (found, recover_on, fits, hardware, no_pid) (inl (refl, refl, refl))
          | inr (pid, has) ↦
              rw (found, recover_on, fits, hardware, has)
                (at-Outcome w pid (raw_paths_for_wheel w s.raw_input_devices pid) active found fits
                  hardware has refl)
        ]
      ]
    ]
  ]

  if_active :
      (b : Bool)
      → m.active ≡ b
      → Outcome (holds m) s failed (
          if not b
          then refused (holds m) bad_marker
          else recover_on m s failed removes (selected_wheel s))
  if_active false over = inl (refl, refl, refl)
  if_active true active = on-Outcome active

-- In a data directory whose name is not blank, whatever the marker file holds and whichever writes and
-- removals fail: a recovery either sends nothing, recovers nothing and leaves the file as it is; or it sends
-- the neutral reports of the wheel that an active marker names, which is selected, verified and of the same
-- hardware, to the only path of that wheel, all or those before the one that failed. If one failed it
-- reports that and leaves the file; else it removes the file and reports success, or reports that the file
-- could not be removed and leaves it.
pub recover-Outcome :
    (file : MarkerFile) (s : State) (failed : Option ℕ) (removes : Bool)
    → is_empty (trim_space s.data_dir) ≡ false
    → Outcome file s failed (recover_runtime_output_if_needed file s failed removes)
unfolding recover_runtime_output_if_needed
recover-Outcome absent s failed removes named = inl (refl, refl, refl)
recover-Outcome damaged s failed removes named = inl (refl, refl, refl)
recover-Outcome (holds m) s failed removes named = if_active m s failed removes named m.active refl

same_model_refl : (k : ModelId) → same_model k k ≡ true
same_model_refl unknown = refl
same_model_refl compatibility = refl
same_model_refl g25 = refl
same_model_refl g27 = refl
same_model_refl dfgt = refl

equal_fold_refl : (t : Text) → equal_fold t t ≡ true
unfolding equal_fold
equal_fold_refl t = text_eq_refl (to_lower t)

marker_of-is_target :
    (w : WheelDevice) (effect : Text) (now : ℕ)
    → is_known_wheel_model w.model ≡ true
    → w.pnp_verified ≡ true
    → w.model_confirmed ≡ true
    → (is_target (marker_of w effect now) w ≡ true)
      × (is_hardware (marker_of w effect now) w ≡ true)
unfolding is_target is_hardware
marker_of-is_target w effect now known verified confirmed = (
  rw
      (
        verified,
        confirmed,
        equal_fold_refl w.id,
        equal_fold_refl w.session_id,
        known,
        same_model_refl (model_from_display_name w.model),
      )
      refl,
  rw (equal_fold_refl w.hardware_fingerprint) (ground arith),
)

mark_accepted :
    (file : MarkerFile) (data_dir : Text) (w : WheelDevice) (effect : Text) (now : ℕ)
    → (mark_runtime_output_active_target file data_dir w effect true now).1 ≡ none
    → (unfit data_dir w ≡ false)
      × ((mark_runtime_output_active_target file data_dir w effect true now).0
          ≡ holds (marker_of w effect now))
unfolding mark_runtime_output_active_target
mark_accepted file data_dir w effect now fine = elim (Bool-cases (unfit data_dir w)) [
  | inl bad ↦ absurd (cc (rw bad at fine))
  | inr good ↦ (good, rw good refl)
]

recovered_at :
    (m : OutputRecoveryMarker) (s : State) (w : WheelDevice) (pid path : Text)
    → is_empty (trim_space s.data_dir) ≡ false
    → is_target m w ≡ true
    → is_hardware m w ≡ true
    → native_output_pid w.model ≡ some pid
    → raw_paths_for_wheel w s.raw_input_devices pid ≡ path ∷ []
    → recover_on m s none true (some w) ≡ record {
      file = absent;
      sent = some (path, neutral_reports_for_model (model_from_display_name w.model));
      recovered = true;
      error = none;
    }
unfolding recover_on recover_at clear_runtime_output_marker
recovered_at m s w pid path named fits hardware has listed =
    rw (fits, hardware, has, listed, recover_at, named) refl

-- A marker that was written for a wheel is recovered on that wheel, when it is selected again, verified and
-- confirmed, with one path, and the reports and the removal succeed: its neutral reports go to that path,
-- and no marker is left.
pub marked-recovered :
    (file : MarkerFile) (s : State) (w : WheelDevice) (effect pid path : Text) (now : ℕ)
    → (mark_runtime_output_active_target file s.data_dir w effect true now).1 ≡ none
    → selected_wheel s ≡ some w
    → w.pnp_verified ≡ true
    → w.model_confirmed ≡ true
    → native_output_pid w.model ≡ some pid
    → raw_paths_for_wheel w s.raw_input_devices pid ≡ path ∷ []
    → let written = (mark_runtime_output_active_target file s.data_dir w effect true now).0 in
      recover_runtime_output_if_needed written s none true ≡ record {
        file = absent;
        sent = some (path, neutral_reports_for_model (model_from_display_name w.model));
        recovered = true;
        error = none;
      }
unfolding recover_runtime_output_if_needed
marked-recovered file s w effect pid path now fine found verified confirmed has listed =
    let (fit, written) = mark_accepted file s.data_dir w effect now fine in
    let (fits, hardware) =
      marker_of-is_target w effect now (ground (arith, fit)) verified confirmed in
    let named : is_empty (trim_space s.data_dir) ≡ false = ground (arith, fit) in
    rw (written, recover_runtime_output_if_needed, found)
      (recovered_at (marker_of w effect now) s w pid path named fits hardware has listed)
