-- ===== src/Output.antt =====
-- internal/system/output_lease_windows.go and native_output_windows.go: the output lease, the
-- recovery marker and the fail-closed stop. `World` holds what the package keeps in its globals
-- and on disk. Results of the operating system (a HID write, the removal of the marker, the named
-- mutex) are arguments of each operation, and so is the time. Texts of commands and errors are
-- left out of the status, but for whether the last command failed.
pub mod State
pub mod Lease
pub mod Worker
pub mod Coordinator
pub mod Start
pub mod Autocenter
pub mod Leds
pub mod Events
pub mod Invariant
pub mod FailClosed
pub mod Status
mod Examples
use logi_mate.Base.{
  ℕ, zero, suc, ◌+◌, Bool, true, false, not, ◌&&◌, ◌||◌, Option, none, some, List, [], ◌∷◌, ◌++◌,
  ◌==◌, if◌then◌else◌,
}
use logi_mate.Base.Int.{ℤ, pos}
use logi_mate.Base.Text.{Text, codes, trim_space, is_empty}
use logi_mate.Base.Results.{Result, ok, err}
use logi_mate.Model.{ModelId, unknown}
use logi_mate.Manager.{Manager, update_output}
use logi_mate.Protocol.{Report}
use logi_mate.Protocol.Classic.{neutral_reports_for_model}
use logi_mate.Output.State.{
  NativeOutputLeaseToken, NativeOutputStatus, NativeFfbStatus, WorkerState, World, OutputError,
  bad_target, lease_taken, mutex_taken, transport_failed, marker_failed, write_failed, marker_kept,
  lease_kept, bad_percent, worker_stuck, worker_unproven, no_target,
}

abbrev pub blank : Text → Bool
blank s = is_empty (trim_space s)

-- updateNativeWheelOutput: the registry hears of each change of the lease.
unfoldable pub notified : World → NativeOutputLeaseToken → Text → Bool → ℕ → Manager
notified w t command active now =
    if blank t.wheel_id || blank t.session_id
    then w.manager
    else (update_output w.manager t.wheel_id t.session_id
        (record {
          lease_active = active;
          generation = t.generation;
          motor = t.motor;
          purpose = t.purpose;
          last_command = command;
          last_error = [];
          updated_at = now;
        })
        (not (blank t.data_dir) && w.marker) now).0

abbrev pub notify : World → NativeOutputLeaseToken → Text → Bool → ℕ → World
notify w t command active now = record w { manager = notified w t command active now }

-- The target that `validateNativeOutputTarget` yields.
pub record Target : Type 0 where
  pub wheel_id : Text
  pub session_id : Text
  pub model : ModelId
  pub path : Text
  pub data_dir : Text

unfoldable pub token_for : Target → ℕ → Text → Bool → NativeOutputLeaseToken
token_for t generation purpose motor = record {
  generation = generation;
  wheel_id = t.wheel_id;
  session_id = t.session_id;
  model = t.model;
  path = t.path;
  purpose = if blank purpose then codes "native-output" else trim_space purpose;
  motor = motor;
  data_dir = t.data_dir;
}

-- acquireNativeOutputLease; `mutex` is whether the named mutex was free.
unfoldable pub acquire :
    World
    → Result OutputError Target
    → Text
    → Bool
    → Bool
    → ℕ
    → World × Result OutputError NativeOutputLeaseToken
acquire w (err e) purpose motor mutex now = (w, err e)
acquire w (ok target) purpose motor mutex now = elim w.lease [
  | some held ↦ (w, err lease_taken)
  | none ↦
      if not mutex
      then (w, err mutex_taken)
      else (let g = suc w.lease_generation in
          let t = token_for target g purpose motor in
          (
            notify (record w { lease_generation = g; lease = some t }) t (codes "lease-acquired")
                true now,
            ok t,
          ))
]

-- releaseNativeOutputLease
unfoldable pub release : World → NativeOutputLeaseToken → ℕ → World × Bool
release w t now = elim w.lease [
  | none ↦ (w, false)
  | some cur ↦
      if cur.generation == t.generation
      then (notify (record w { lease = none }) cur (codes "lease-released") false now, true)
      else (w, false)
]

-- The last step of `completeNativeMotorStop`, on a lease with a generation.
unfoldable pub release_proved : World → NativeOutputLeaseToken → ℕ → World × Option OutputError
unfolding release
release_proved w t now =
    if t.generation == 0
    then (w, none)
    else (let (w', done) = release w t now in (w', if done then none else some lease_kept))

-- completeNativeMotorStop; `cleared` is whether the marker file could be removed.
unfoldable pub complete_native_motor_stop :
    World
    → NativeOutputLeaseToken
    → Text
    → Option OutputError
    → Bool
    → ℕ
    → World × Option OutputError
unfolding release_proved
complete_native_motor_stop w t data_dir (some e) cleared now = (w, some e)
complete_native_motor_stop w t data_dir none cleared now =
    if blank data_dir
    then release_proved w t now
    else if cleared
    then release_proved (record w { marker = false }) t now
    else (w, some marker_kept)

-- The results of one stop: of the neutral write, and of the removal of the marker.
pub record StopResults : Type 0 where
  pub wrote : Bool
  pub cleared : Bool

-- `writeNativeOutputPath(path, neutral reports...)`: a failed write may have sent some of them,
-- and proves nothing, so only a complete one is recorded.
unfoldable pub write_neutral : World → NativeOutputLeaseToken → Bool → World
write_neutral w t wrote =
    if wrote then record w { sent = w.sent ++ neutral_reports_for_model t.model } else w

-- The first half of nativeOutputSafeStopLease.
unfoldable pub stop_lease :
    World → NativeOutputLeaseToken → StopResults → ℕ → World × Option OutputError
unfolding complete_native_motor_stop write_neutral
stop_lease w t results now =
    let w' = write_neutral w t results.wrote in
    if not results.wrote
    then (w', some write_failed)
    else if t.motor
    then complete_native_motor_stop w' t t.data_dir none results.cleared now
    else release_proved w' t now

abbrev pub is_some {ℓ} : {A : Type ℓ} → Option A → Bool
is_some none = false
is_some (some x) = true

-- `nativeOutput.lease` is dropped after a proved stop of that lease, or of any by generation 0.
unfoldable pub drop_output_lease :
    Option NativeOutputLeaseToken → NativeOutputLeaseToken → Option NativeOutputLeaseToken
drop_output_lease none t = none
drop_output_lease (some l) t =
    if t.generation == 0 || l.generation == t.generation then none else some l

-- Its second half: the watchdog timer is stopped and the status written.
unfoldable pub record_stop : World → NativeOutputLeaseToken → Bool → Option OutputError → World
unfolding drop_output_lease
record_stop w t watchdog e = record w {
  timer = false;
  output = record (w.output) {
    active = is_some e && t.motor;
    failed = is_some e;
    command_count = suc w.output.command_count;
    watchdog_stops = if watchdog then suc w.output.watchdog_stops else w.output.watchdog_stops;
    emergency_stops = if watchdog then w.output.emergency_stops else suc w.output.emergency_stops;
  };
  output_lease = if is_some e then w.output_lease else drop_output_lease w.output_lease t;
}

-- nativeOutputSafeStopLease
unfoldable pub native_output_safe_stop_lease :
    World → NativeOutputLeaseToken → Bool → StopResults → ℕ → World × Option OutputError
unfolding stop_lease record_stop
native_output_safe_stop_lease w t watchdog results now =
    let (w', e) = stop_lease w t results now in (record_stop w' t watchdog e, e)

-- nativeOutputBestEffortNeutralizeLease: it writes, and releases and clears nothing.
unfoldable pub best_effort_neutralize :
    World → NativeOutputLeaseToken → Bool → World × Option OutputError
unfolding write_neutral
best_effort_neutralize w t wrote =
    let w' = write_neutral w t wrote in
    (
      record w' {
        output = record (w'.output) {
          active = true;
          failed = true;
          command_count = suc w'.output.command_count;
          emergency_stops = suc w'.output.emergency_stops;
        };
      },
      if wrote then none else some write_failed,
    )
