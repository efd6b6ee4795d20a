-- ===== src/Discovery/Target.antt =====
-- internal/system/native_output_windows.go: the one wheel and the one path that output may go to.
use logi_mate.Base.{
  Bool, true, false, not, ◌&&◌, ◌||◌, Option, none, some, List, [], ◌∷◌, length, ◌==◌,
  if◌then◌else◌,
}
use logi_mate.Base.Results.{Result, ok, err}
use logi_mate.Base.Text.{Text}
use logi_mate.Model.{OperatingMode, modern, model_from_display_name, parse_operating_mode}
use logi_mate.Output.State.{OutputError, bad_target, no_target}
use logi_mate.Output.{Target}
use logi_mate.Discovery.{
  WheelDevice, State, selected_wheel, wheel_model_kind, wheel_mode_kind,
  has_actionable_selected_wheel, is_known_wheel_model, native_pid, native_output_pid,
  raw_paths_for_wheel, find_wheel,
}
use logi_mate.Discovery.Paths.{HidInterfaceMetadata, raw_paths_for_pid}

abbrev pub is_modern : OperatingMode → Bool
is_modern modern = true
is_modern OperatingMode.legacy = false
is_modern OperatingMode.unknown_mode = false

abbrev pub target_of : State → WheelDevice → Text → Target
target_of s w path = record {
  wheel_id = w.id;
  session_id = w.session_id;
  model = model_from_display_name w.model;
  path = path;
  data_dir = s.data_dir;
}

-- `len(paths) != 1` is an error.
abbrev pub only_path : {E : Type 0} → E → List Text → Result E Text
only_path e [] = err e
only_path e (p ∷ []) = ok p
only_path e (p ∷ q ∷ ps) = err e

abbrev pub with_path :
    WheelDevice → Result OutputError Text → Result OutputError (WheelDevice × Text)
with_path w (err e) = err e
with_path w (ok p) = ok (w, p)

module _ (meta : Text → HidInterfaceMetadata) where
  -- The paths of the wheel, or if it has none those of its product id, since it is the only wheel.
  unfoldable pub output_paths : State → WheelDevice → Text → List Text
  unfolding raw_paths_for_wheel raw_paths_for_pid
  output_paths s w pid = elim (raw_paths_for_wheel w s.raw_input_devices pid) [
    | p ∷ ps ↦ p ∷ ps
    | [] ↦ raw_paths_for_pid meta s.raw_input_devices pid
  ]

  abbrev pub path_target :
      State → WheelDevice → Option Text → Result OutputError (WheelDevice × Text)
  path_target s w none = err bad_target
  path_target s w (some pid) = with_path w (only_path bad_target (output_paths s w pid))

  abbrev pub wheel_target : State → Option WheelDevice → Result OutputError (WheelDevice × Text)
  wheel_target s none = err bad_target
  wheel_target s (some w) =
      if not w.model_confirmed || not w.pnp_verified
      then err bad_target
      else if not (is_modern (wheel_mode_kind w))
          && not (is_modern (parse_operating_mode s.active_mode))
      then err bad_target
      else path_target s w (native_pid (wheel_model_kind w))

  unfoldable pub validate_native_output_target : State → Result OutputError (WheelDevice × Text)
  unfolding has_actionable_selected_wheel find_wheel native_pid wheel_model_kind wheel_mode_kind
      output_paths
  validate_native_output_target s =
      if not (length s.wheels == 1)
      then err bad_target
      else if not (has_actionable_selected_wheel s)
      then err bad_target
      else wheel_target s (selected_wheel s)

abbrev pub to_target : State → WheelDevice → Result OutputError Text → Result OutputError Target
to_target s w (err e) = err e
to_target s w (ok p) = ok (target_of s w p)

-- The end of emergencyOutputTarget, for a wheel with the product id of its model.
abbrev pub emergency_path : State → WheelDevice → Option Text → Result OutputError Target
emergency_path s w none = err no_target
emergency_path s w (some pid) =
    to_target s w (only_path no_target (raw_paths_for_wheel w s.raw_input_devices pid))

abbrev pub emergency_wheel : State → Option WheelDevice → Result OutputError Target
emergency_wheel s none = err no_target
emergency_wheel s (some w) =
    if not (w.supported && (w.model_confirmed && (w.pnp_verified && is_known_wheel_model w.model)))
    then err no_target
    else emergency_path s w (native_output_pid w.model)

-- emergencyOutputTarget while no lease is held.
unfoldable pub emergency_output_target : State → Result OutputError Target
unfolding find_wheel native_pid raw_paths_for_wheel
emergency_output_target s = emergency_wheel s (selected_wheel s)
