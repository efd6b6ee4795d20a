-- ===== src/Discovery/Examples.antt =====
-- The targets, the marker and its recovery of one G27 at concrete values.
use logi_mate.Base.{◌≡◌, refl, true, none, some, [], ◌∷◌}
use logi_mate.Base.Results.{ok}
use logi_mate.Base.Text.{Text, codes, lower, upper, trim_space, equal_fold}
use logi_mate.Model.{g27, modern, model_from_display_name}
use logi_mate.Protocol.Classic.{neutral_reports_for_model}
use logi_mate.Output.{Target}
use logi_mate.Output.Events.{initial}
use logi_mate.Output.Coordinator.{timed_out, native_output_emergency_stop}
use logi_mate.Discovery.{
  WheelDevice, State, find_wheel, native_pid, native_output_pid, device_pid, raw_path_instance_id,
  wheel_interfaces, raw_paths_for_wheel,
}
use logi_mate.Discovery.Paths.{HidInterfaceMetadata}
use logi_mate.Discovery.Target.{validate_native_output_target, emergency_output_target}
use logi_mate.Discovery.Exact.{Granted, validate_native_output_target-Granted}
use logi_mate.Discovery.Recovery.{
  MarkerFile, absent, holds, marker_of, is_target, mark_runtime_output_active_target,
  recover_runtime_output_if_needed,
}
use logi_mate.Discovery.Outcomes.{Outcome, recover-Outcome, marked-recovered}
use logi_mate.Discovery.Foreign.{
  after_crash, stopping, Unmarked, Refused, emergency_stop_takes_marker,
}

abbrev hid_path : Text
hid_path = codes "\\\\?\\HID#VID_046D&PID_C29B#7&ABC&0&0000#{4d1e55b2}"

abbrev one_g27 : WheelDevice
one_g27 = record {
  id = codes "usbloc:1";
  session_id = codes "S1";
  model = codes "Logitech G27";
  mode = [];
  model_kind = some g27;
  mode_kind = some modern;
  instance_id = codes "HID\\VID_046D&PID_C29B\\7&ABC&0&0000";
  interface_ids = [];
  supported = true;
  model_confirmed = true;
  pnp_verified = true;
  hardware_fingerprint = [];
}

abbrev one_state : State
one_state = record {
  data_dir = codes "data";
  wheels = one_g27 ∷ [];
  selected_wheel_id = codes "USBLOC:1";
  active_mode = [];
  raw_input_devices = hid_path ∷ [];
}

abbrev no_meta : Text → HidInterfaceMetadata
no_meta p = record {
  path = p;
  usage_page = 0;
  usage = 0;
  input_report_length = 0;
  output_report_length = 0;
}

bridged : raw_path_instance_id hid_path ≡ codes "HID\\VID_046D&PID_C29B\\7&ABC&0&0000"
unfolding raw_path_instance_id upper
bridged = refl

granted : validate_native_output_target no_meta one_state ≡ ok (one_g27, hid_path)
unfolding validate_native_output_target equal_fold device_pid upper wheel_interfaces
    raw_path_instance_id
granted = refl

validate_native_output_target-Granted_example : Granted no_meta one_state one_g27 hid_path
validate_native_output_target-Granted_example =
    validate_native_output_target-Granted no_meta one_state one_g27 hid_path granted

listed : raw_paths_for_wheel one_g27 one_state.raw_input_devices (codes "C29B") ≡ hid_path ∷ []
unfolding raw_paths_for_wheel device_pid upper wheel_interfaces raw_path_instance_id
listed = refl

found : find_wheel one_state.selected_wheel_id one_state.wheels ≡ some one_g27
unfolding find_wheel equal_fold lower
found = refl

has_pid : native_output_pid one_g27.model ≡ some (codes "C29B")
unfolding native_pid model_from_display_name
has_pid = refl

abbrev old_marker : MarkerFile
old_marker = holds (marker_of (record one_g27 { session_id = codes "S0" }) (codes "spring") 5)

recover-Outcome_example :
    Outcome old_marker one_state none
      (recover_runtime_output_if_needed old_marker one_state none true)
unfolding trim_space
recover-Outcome_example = recover-Outcome old_marker one_state none true refl

marked-recovered_example :
    recover_runtime_output_if_needed
      (mark_runtime_output_active_target absent (codes "data") one_g27 (codes "spring") true 7).0
      one_state
      none
      true
    ≡ record {
      file = absent;
      sent = some (hid_path, neutral_reports_for_model (model_from_display_name one_g27.model));
      recovered = true;
      error = none;
    }
unfolding mark_runtime_output_active_target trim_space model_from_display_name
marked-recovered_example =
    marked-recovered absent one_state one_g27 (codes "spring") (codes "C29B") hid_path 7 refl found
      refl refl has_pid listed

abbrev emergency_g27 : Target
emergency_g27 = record {
  wheel_id = codes "usbloc:1";
  session_id = codes "S1";
  model = g27;
  path = hid_path;
  data_dir = codes "data";
}

reachable : emergency_output_target one_state ≡ ok emergency_g27
unfolding emergency_output_target equal_fold device_pid upper wheel_interfaces raw_path_instance_id
    model_from_display_name native_pid
reachable = refl

emergency_stop_takes_marker_example :
    Unmarked (
      native_output_emergency_stop
        (after_crash (initial true))
        (stopping one_state timed_out (emergency_output_target one_state))
        9)
    × Refused
        (marker_of (record one_g27 { session_id = codes "S0" }) (codes "spring") 5)
        (recover_runtime_output_if_needed old_marker one_state none true)
unfolding trim_space is_target equal_fold lower
emergency_stop_takes_marker_example =
    emergency_stop_takes_marker (initial true)
      (marker_of (record one_g27 { session_id = codes "S0" }) (codes "spring") 5) one_state one_g27
      emergency_g27 timed_out 9 refl found refl reachable
