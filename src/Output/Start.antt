-- ===== src/Output/Start.antt =====
-- internal/system/native_ffb_windows.go and native_output_windows.go: the operations that start
-- output: the constant-force test and the rotation range.
use logi_mate.Base.{ℕ, suc, Bool, true, false, not, ◌&&◌, ◌||◌, Option, none, some, if◌then◌else◌}
use logi_mate.Base.Int.{ℤ, pos}
use logi_mate.Base.Text.{codes}
use logi_mate.Base.Results.{Result, ok, err}
use logi_mate.Model.{g25, g27, dfgt, same_model}
use logi_mate.Safety.{NativeFfbConfig, apply_ffb_slew, normalize_native_ffb_config}
use logi_mate.Protocol.{Report}
use logi_mate.Protocol.Classic.{
  BuildError, build_classic_constant_force_slot_report, build_classic_fixed_loop_report,
  build_classic_range_report, native_manual_ffb_test_max_percent, within,
}
use logi_mate.Output.State.{
  World, NativeOutputLeaseToken, OutputError, bad_percent, transport_failed, marker_failed,
  write_failed, lease_kept,
}
use logi_mate.Output.{
  Target, StopResults, blank, is_some, acquire, release, native_output_safe_stop_lease,
}
use logi_mate.Output.Worker.{send}
use logi_mate.Output.Coordinator.{EmergencyResults, native_output_emergency_stop}

-- MarkRuntimeOutputActiveTarget; `written` is whether the file could be written.
abbrev pub mark_allowed : NativeOutputLeaseToken → Bool
mark_allowed t =
    not (blank t.data_dir)
    && (not (blank t.wheel_id)
        && (not (blank t.session_id)
            && (same_model t.model g25 || (same_model t.model g27 || same_model t.model dfgt))))

pub record StartResults : Type 0 where
  pub emergency : EmergencyResults
  pub mutex : Bool
  pub opened : Bool
  pub marked : Bool
  pub wrote_mode : Bool
  pub wrote_first : Bool
  pub abort : StopResults

-- The new session, once its first report was written.
unfoldable pub begin_session : World → NativeOutputLeaseToken → ℤ → ℤ → ℤ → World
begin_session w t first target slew =
    let g = suc w.ffb_generation in
    record w {
      ffb_generation = g;
      ffb_lease = some t;
      worker = some (record {
        token = t;
        generation = g;
        current = first;
        target = target;
        slew = slew;
        cancelled = false;
      });
      ffb = record (w.ffb) {
        active = true;
        stopping = false;
        faulted = false;
        failed = false;
        requested = target;
        applied = first;
        frames = 0;
        slew_limited = 0;
        effect_transitions = suc w.ffb.effect_transitions;
        generation = g;
      };
    }

-- abortMotorStartAfterPossibleWrite: the cause is reported whatever the stop finds.
unfoldable pub abort_start :
    World → NativeOutputLeaseToken → StopResults → OutputError → ℕ → World × Option OutputError
abort_start w t results cause now =
    ((native_output_safe_stop_lease w t false results now).0, some cause)

-- StartNativeConstantForceTest from the mode report on; `report` is the first force report.
unfoldable pub first_sent :
    World → NativeOutputLeaseToken → Report → ℤ → ℤ → StartResults → ℕ → World × Option OutputError
unfolding abort_start begin_session
first_sent w t report percent slew r now =
    if not r.wrote_mode
    then abort_start w t r.abort write_failed now
    else (let w1 = send w (build_classic_fixed_loop_report false) true in
        if not r.wrote_first then abort_start w1 t r.abort write_failed now else (
          begin_session (send w1 report true) t (apply_ffb_slew (pos 0) percent slew).0 percent
              slew,
          none,
        ))

-- StartNativeConstantForceTest from the marker on.
unfoldable pub send_first :
    World
    → NativeOutputLeaseToken
    → Result BuildError Report
    → ℤ
    → ℤ
    → StartResults
    → ℕ
    → World × Option OutputError
unfolding first_sent
send_first w t (err e) percent slew r now = (
  (release (if r.abort.cleared then record w { marker = false } else w) t now).0,
  some bad_percent,
)
send_first w t (ok report) percent slew r now = first_sent w t report percent slew r now

-- StartNativeConstantForceTest from the lease on.
unfoldable pub with_lease :
    World → NativeOutputLeaseToken → ℤ → ℤ → StartResults → ℕ → World × Option OutputError
unfolding send_first
with_lease w t percent slew r now =
    if not r.opened
    then ((release w t now).0, some transport_failed)
    else if not (mark_allowed t && r.marked)
    then ((release w t now).0, some marker_failed)
    else send_first (record w { marker = true }) t
        (build_classic_constant_force_slot_report (pos 0) (apply_ffb_slew (pos 0) percent slew).0
          false)
        percent slew r now

-- StartNativeConstantForceTest with what the acquisition returned.
unfoldable pub start_with :
    World
    → Result OutputError NativeOutputLeaseToken
    → ℤ
    → ℤ
    → StartResults
    → ℕ
    → World × Option OutputError
unfolding with_lease
start_with w (err e) percent slew r now = (w, some e)
start_with w (ok t) percent slew r now = with_lease w t percent slew r now

-- StartNativeConstantForceTest after its emergency stop, whose error is an argument.
unfoldable pub start_after :
    World
    → Option OutputError
    → Result OutputError Target
    → ℤ
    → ℤ
    → StartResults
    → ℕ
    → World × Option OutputError
unfolding start_with
start_after w (some x) target percent slew r now = (w, some x)
start_after w none target percent slew r now =
    if not (within (pos 1) (pos native_manual_ffb_test_max_percent) percent)
    then (w, some bad_percent)
    else (let (w1, lease) = acquire w target (codes "constant-force") true r.mutex now in
        start_with w1 lease percent slew r now)

-- StartNativeConstantForceTest; `target` is what `validateNativeOutputTarget` finds, and `cfg` what
-- is stored for the wheel, which `ReadNativeFFBConfig` normalises.
unfoldable pub start_native_constant_force_test :
    World
    → Result OutputError Target
    → ℤ
    → NativeFfbConfig
    → StartResults
    → ℕ
    → World × Option OutputError
unfolding start_after
start_native_constant_force_test w target percent cfg r now =
    let (w1, e) = native_output_emergency_stop w r.emergency now in
    start_after w1 e target percent (normalize_native_ffb_config cfg).slew_per_tick r now

-- recordNativeOutput
unfoldable pub record_native_output : World → Bool → Bool → World
record_native_output w active failed = record w {
  output = record (w.output) {
    active = not failed && active;
    failed = failed;
    command_count = suc w.output.command_count;
  };
}

-- The write of a built report, and whether building or writing failed.
unfoldable pub range_write : World → Result BuildError Report → Bool → World × Bool
range_write v (err x) sent_ok = (v, true)
range_write v (ok report) sent_ok = (send v report sent_ok, not sent_ok)

-- NativeOutputApplyRange with what the acquisition returned.
unfoldable pub range_with :
    World → Result OutputError NativeOutputLeaseToken → ℤ → Bool → ℕ → World × Option OutputError
unfolding record_native_output range_write
range_with w (err e) degrees wrote now = (record_native_output w false true, some e)
range_with w (ok t) degrees wrote now =
    let (w2, failed) = range_write w (build_classic_range_report degrees) wrote in
    let (w3, done) = release w2 t now in
    let e = if failed then some write_failed else if done then none else some lease_kept in
    (record_native_output w3 false (is_some e), e)

-- NativeOutputApplyRange; `wrote` is the result of the HID write.
unfoldable pub native_output_apply_range :
    World → Result OutputError Target → ℤ → Bool → Bool → ℕ → World × Option OutputError
unfolding range_with
native_output_apply_range w target degrees mutex wrote now =
    let (w1, lease) = acquire w target (codes "range") false mutex now in
    range_with w1 lease degrees wrote now
