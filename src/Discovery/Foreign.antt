-- ===== src/Discovery/Foreign.antt =====
-- internal/system/native_output_windows.go and release_hardening_windows.go: the emergency stop removes a
-- marker whatever wheel it names, where a recovery would keep it.
use logi_mate.Base.{
  ℕ, ◌≡◌, refl, sym, ap, subst, suc, Bool, true, false, not, ◌&&◌, Option, none, some, arith,
  if◌then◌else◌,
}
use logi_mate.Base.Results.{Result, ok, err, ok_injective}
use logi_mate.Base.Text.{Text, codes}
use logi_mate.Output.State.{World, OutputError, no_target}
use logi_mate.Output.{
  Target, StopResults, blank, token_for, native_output_safe_stop_lease, stop_lease, record_stop,
  complete_native_motor_stop, release_proved, write_neutral,
}
use logi_mate.Output.Coordinator.{
  Wait, EmergencyResults, native_output_emergency_stop, at_rest, emergency_after, stop_target,
  stop_native_ffb_session,
}
use logi_mate.Discovery.{
  WheelDevice, State, selected_wheel, is_known_wheel_model, native_output_pid, raw_paths_for_wheel,
}
use logi_mate.Discovery.Target.{
  only_path, to_target, emergency_path, emergency_wheel, emergency_output_target,
}
use logi_mate.Discovery.Exact.{not_refused}
use logi_mate.Discovery.Recovery.{
  OutputRecoveryMarker, holds, Recovery, is_target, refused, bad_marker, recover_on,
  recover_runtime_output_if_needed,
}

abbrev proved : StopResults
proved = record { wrote = true; cleared = true }

-- No error, and no marker.
abbrev pub Unmarked : World × Option OutputError → Type 0
Unmarked r = (r.1 ≡ none) × (r.0.marker ≡ false)

stop-Unmarked :
    (w : World) (t : Target) (now : ℕ)
    → blank t.data_dir ≡ false
    → Unmarked
        (native_output_safe_stop_lease w (token_for t 0 (codes "emergency") true) false proved now)
unfolding native_output_safe_stop_lease stop_lease record_stop complete_native_motor_stop
    release_proved write_neutral token_for
stop-Unmarked w t now named = rw named (refl, refl)

-- A start after a crash: nothing is held and no test runs, but a marker is there.
abbrev pub after_crash : World → World
after_crash w = record w { lease = none; worker = none; marker = true }

abbrev pub stopping : State → Wait → Result OutputError Target → EmergencyResults
stopping s wait target = record {
  data_dir = s.data_dir;
  wait = wait;
  target = target;
  stop = record { wrote = true; cleared = true };
}

either-Unmarked :
    (b : Bool) (u v : World) (t : Target) (now : ℕ)
    → Unmarked (stop_target u (ok t) proved now)
    → Unmarked (stop_target v (ok t) proved now)
    → Unmarked (stop_target (if b then u else v) (ok t) proved now)
either-Unmarked true u v t now left right = left
either-Unmarked false u v t now left right = right

crash_busy :
    (w : World) (data_dir : Text)
    → blank data_dir ≡ false
    → at_rest (after_crash w) data_dir ≡ false
unfolding at_rest
crash_busy w data_dir named = ground (arith, named)

crash-Unmarked :
    (w : World) (s : State) (t : Target) (wait : Wait) (now : ℕ)
    → blank s.data_dir ≡ false
    → blank t.data_dir ≡ false
    → Unmarked (native_output_emergency_stop (after_crash w) (stopping s wait (ok t)) now)
unfolding native_output_emergency_stop stop_native_ffb_session emergency_after stop_target
crash-Unmarked w s t wait now dir named =
    let counted : World = record (after_crash w) {
      ffb = record (w.ffb) { emergency_stops = suc w.ffb.emergency_stops };
    } in
    rw (crash_busy w s.data_dir dir) (
      either-Unmarked w.ffb.active counted (after_crash w) t now (stop-Unmarked counted t now named)
        (stop-Unmarked (after_crash w) t now named))

target_dir :
    (s : State) (w : WheelDevice) (r : Result OutputError Text) (t : Target)
    → to_target s w r ≡ ok t
    → t.data_dir ≡ s.data_dir
target_dir s w (err e) t h = absurd (cc h)
target_dir s w (ok p) t h = ap (λ (x : Target). x.data_dir) (sym (ok_injective h))

path_dir :
    (s : State) (w : WheelDevice) (pid : Option Text) (t : Target)
    → emergency_path s w pid ≡ ok t
    → t.data_dir ≡ s.data_dir
path_dir s w none t h = absurd (cc h)
path_dir s w (some pid) t h =
    target_dir s w (only_path no_target (raw_paths_for_wheel w s.raw_input_devices pid)) t h

wheel_dir :
    (s : State) (o : Option WheelDevice) (t : Target)
    → emergency_wheel s o ≡ ok t
    → t.data_dir ≡ s.data_dir
wheel_dir s none t h = absurd (cc h)
wheel_dir s (some w) t h =
    let (fit, path) =
      not_refused
        (not
          (w.supported && (w.model_confirmed && (w.pnp_verified && is_known_wheel_model w.model))))
        no_target (emergency_path s w (native_output_pid w.model)) t h in
    path_dir s w (native_output_pid w.model) t path

target-Unmarked :
    (w : World) (s : State) (q : Result OutputError Target) (t : Target) (wait : Wait) (now : ℕ)
    → blank s.data_dir ≡ false
    → q ≡ ok t
    → emergency_wheel s (selected_wheel s) ≡ ok t
    → Unmarked (native_output_emergency_stop (after_crash w) (stopping s wait q) now)
target-Unmarked w s q t wait now dir same found =
    subst (λ r. Unmarked (native_output_emergency_stop (after_crash w) (stopping s wait r) now))
      (sym same)
      (crash-Unmarked w s t wait now dir (rw (wheel_dir s (selected_wheel s) t found) dir))

abbrev pub Refused : OutputRecoveryMarker → Recovery → Type 0
Refused m r = (r.recovered ≡ false) × (r.sent ≡ none) × (r.file ≡ holds m)

other-Refused :
    (m : OutputRecoveryMarker) (s : State) (o : Option WheelDevice) (v : WheelDevice) (b : Bool)
    → o ≡ some v
    → is_target m v ≡ false
    → Refused m (if not b then refused (holds m) bad_marker else recover_on m s none true o)
unfolding recover_on
other-Refused m s o v false found other = (refl, refl, refl)
other-Refused m s o v true found other = rw (found, recover_on, other) (refl, refl, refl)

-- After a crash, with a marker that does not name the selected wheel, for which an emergency target is
-- found in a data directory whose name is not blank: a recovery sends nothing and keeps the marker, but an
-- emergency stop whose reports and removal succeed reports no error and leaves no marker.
pub emergency_stop_takes_marker :
    (w : World) (m : OutputRecoveryMarker) (s : State) (v : WheelDevice) (t : Target) (wait : Wait)
    (now : ℕ)
    → blank s.data_dir ≡ false
    → selected_wheel s ≡ some v
    → is_target m v ≡ false
    → emergency_output_target s ≡ ok t
    → Unmarked (
        native_output_emergency_stop
          (after_crash w)
          (stopping s wait (emergency_output_target s))
          now)
      × Refused m (recover_runtime_output_if_needed (holds m) s none true)
unfolding emergency_output_target recover_runtime_output_if_needed
emergency_stop_takes_marker w m s v t wait now dir found other target = (
  target-Unmarked w s (emergency_output_target s) t wait now dir target target,
  other-Refused m s (selected_wheel s) v m.active found other,
)
