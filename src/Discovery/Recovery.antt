-- ===== src/Discovery/Recovery.antt =====
-- internal/system/release_hardening_windows.go: the marker file that outlives a crash of the program while a
-- motor may run, and the recovery at the next start. What the system answers is an argument.
use logi_mate.Base.{
  take, ℕ, Bool, true, false, not, ◌&&◌, ◌||◌, Option, none, some, List, [], ◌∷◌, if◌then◌else◌,
}
use logi_mate.Base.Text.{Text, trim_space, is_empty, equal_fold}
use logi_mate.Model.{model_from_display_name}
use logi_mate.Protocol.{Report}
use logi_mate.Protocol.Classic.{neutral_reports_for_model}
use logi_mate.Discovery.{
  WheelDevice, State, selected_wheel, find_wheel, is_known_wheel_model, same_known_wheel_model,
  native_output_pid, native_pid, raw_paths_for_wheel,
}

pub record OutputRecoveryMarker : Type 0 where
  pub active : Bool
  pub effect : Text
  pub wheel_id : Text
  pub session_id : Text
  pub model : Text
  pub hardware_fingerprint : Text
  pub at : ℕ

-- No file, one that cannot be read or decoded, or what it holds.
pub data MarkerFile : Type 0 where
  absent damaged : MarkerFile
  holds : OutputRecoveryMarker → MarkerFile

-- The reason of an answer: the marker, its target, its path, the write or the removal.
pub data RecoveryError : Type 0 where
  no_fingerprint not_marked bad_marker other_wheel other_hardware no_protocol : RecoveryError
  no_single_path not_neutral not_removed : RecoveryError

-- The wheel that a marker is for.
abbrev pub marker_of : WheelDevice → Text → ℕ → OutputRecoveryMarker
marker_of w effect now = record {
  active = true;
  effect = effect;
  wheel_id = w.id;
  session_id = w.session_id;
  model = w.model;
  hardware_fingerprint = w.hardware_fingerprint;
  at = now;
}

-- The wheel has no identity that a recovery could test.
abbrev pub unfit : Text → WheelDevice → Bool
unfit data_dir w =
    is_empty (trim_space data_dir)
    || (is_empty (trim_space w.id)
        || (is_empty (trim_space w.session_id) || not (is_known_wheel_model w.model)))

-- MarkRuntimeOutputActiveTarget; `writes` is whether the file can be written.
unfoldable pub mark_runtime_output_active_target :
    MarkerFile → Text → WheelDevice → Text → Bool → ℕ → MarkerFile × Option RecoveryError
mark_runtime_output_active_target file data_dir w effect writes now =
    if unfit data_dir w
    then (file, some no_fingerprint)
    else if writes
    then (holds (marker_of w effect now), none)
    else (file, some not_marked)

-- ClearRuntimeOutputMarker; `removes` is whether a file that is there can be removed.
unfoldable pub clear_runtime_output_marker :
    MarkerFile → Text → Bool → MarkerFile × Option RecoveryError
clear_runtime_output_marker absent data_dir removes = (absent, none)
clear_runtime_output_marker damaged data_dir removes =
    if is_empty (trim_space data_dir)
    then (damaged, none)
    else if removes
    then (absent, none)
    else (damaged, some not_removed)
clear_runtime_output_marker (holds m) data_dir removes =
    if is_empty (trim_space data_dir)
    then (holds m, none)
    else if removes
    then (absent, none)
    else (holds m, some not_removed)

-- RuntimeOutputRecoveryNeeded, without its text: also a marker that cannot be read or is not active.
unfoldable pub runtime_output_recovery_needed : MarkerFile → Bool
runtime_output_recovery_needed absent = false
runtime_output_recovery_needed damaged = true
runtime_output_recovery_needed (holds m) = true

-- What a recovery leaves and says: the file, the reports that were sent and where, whether it recovered,
-- and its error.
pub record Recovery : Type 0 where
  pub file : MarkerFile
  pub sent : Option (Text × List Report)
  pub recovered : Bool
  pub error : Option RecoveryError

abbrev pub refused : MarkerFile → RecoveryError → Recovery
refused file e = record { file = file; sent = none; recovered = false; error = some e }

-- The wheel that is selected is verified, and the one that the marker names.
unfoldable pub is_target : OutputRecoveryMarker → WheelDevice → Bool
is_target m w =
    w.pnp_verified
    && (w.model_confirmed
        && (equal_fold w.id m.wheel_id
            && (equal_fold w.session_id m.session_id && same_known_wheel_model w.model m.model)))

unfoldable pub is_hardware : OutputRecoveryMarker → WheelDevice → Bool
is_hardware m w =
    is_empty (trim_space m.hardware_fingerprint)
    || equal_fold m.hardware_fingerprint w.hardware_fingerprint

-- writeNativeReports: the reports that went out before one failed; none of them has failed, or so many went
-- out before (0 also if the path could not be opened).
unfoldable pub sent_before : Option ℕ → List Report → List Report
sent_before none reports = reports
sent_before (some n) reports = take n reports

abbrev after_clear : Text × List Report → MarkerFile × Option RecoveryError → Recovery
after_clear sent (file, none) = record {
  file = file;
  sent = some sent;
  recovered = true;
  error = none;
}
after_clear sent (file, some e) = record {
  file = file;
  sent = some sent;
  recovered = false;
  error = some e;
}

unfoldable pub recover_at :
    OutputRecoveryMarker → Text → WheelDevice → Option ℕ → Bool → List Text → Recovery
unfolding clear_runtime_output_marker sent_before
recover_at m data_dir w failed removes [] = refused (holds m) no_single_path
recover_at m data_dir w failed removes (p ∷ q ∷ ps) = refused (holds m) no_single_path
recover_at m data_dir w failed removes (p ∷ []) =
    let reports = neutral_reports_for_model (model_from_display_name w.model) in
    elim failed [
      | none ↦ after_clear (p, reports) (clear_runtime_output_marker (holds m) data_dir removes)
      | some n ↦ record {
        file = holds m;
        sent = some (p, sent_before (some n) reports);
        recovered = false;
        error = some not_neutral;
      }
    ]

abbrev recover_by :
    OutputRecoveryMarker → State → WheelDevice → Option ℕ → Bool → Option Text → Recovery
recover_by m s w failed removes none = refused (holds m) no_protocol
recover_by m s w failed removes (some pid) =
    recover_at m s.data_dir w failed removes (raw_paths_for_wheel w s.raw_input_devices pid)

unfoldable pub recover_on :
    OutputRecoveryMarker → State → Option ℕ → Bool → Option WheelDevice → Recovery
unfolding is_target is_hardware native_pid raw_paths_for_wheel recover_at
recover_on m s failed removes none = refused (holds m) other_wheel
recover_on m s failed removes (some w) =
    if not (is_target m w)
    then refused (holds m) other_wheel
    else if not (is_hardware m w)
    then refused (holds m) other_hardware
    else recover_by m s w failed removes (native_output_pid w.model)

-- RecoverRuntimeOutputIfNeeded; `failed` is none if all neutral reports were written, or how many went out
-- before one failed.
unfoldable pub recover_runtime_output_if_needed : MarkerFile → State → Option ℕ → Bool → Recovery
unfolding recover_on find_wheel
recover_runtime_output_if_needed absent s failed removes = record {
  file = absent;
  sent = none;
  recovered = false;
  error = none;
}
recover_runtime_output_if_needed damaged s failed removes = refused damaged bad_marker
recover_runtime_output_if_needed (holds m) s failed removes =
    if not m.active
    then refused (holds m) bad_marker
    else recover_on m s failed removes (selected_wheel s)
