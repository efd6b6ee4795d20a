-- ===== src/Output/Autocenter.antt =====
-- internal/system/native_output_windows.go: the autocenter test and its watchdog timer.
use logi_mate.Base.{ℕ, true, false, not, ◌&&◌, Option, none, some, if◌then◌else◌}
use logi_mate.Base.Int.{ℤ, pos}
use logi_mate.Base.Text.{codes}
use logi_mate.Base.Results.{Result, ok, err}
use logi_mate.Protocol.{Report}
use logi_mate.Protocol.Classic.{
  BuildError, build_classic_autocenter_report, build_classic_autocenter_enable_report, within,
}
use logi_mate.Output.State.{
  World, NativeOutputLeaseToken, OutputError, bad_percent, marker_failed, write_failed,
}
use logi_mate.Output.{Target, StopResults, is_some, acquire, release}
use logi_mate.Output.Worker.{send}
use logi_mate.Output.Coordinator.{native_output_emergency_stop}
use logi_mate.Output.Start.{mark_allowed, StartResults, abort_start, record_native_output}

-- NativeOutputTestAutocenter after a failed write: the stop, and the failure recorded as active if a
-- lease is still held.
unfoldable pub autocenter_failed :
    World → NativeOutputLeaseToken → StopResults → ℕ → World × Option OutputError
unfolding record_native_output abort_start
autocenter_failed w t results now =
    let (w', e) = abort_start w t results write_failed now in
    (record_native_output w' (is_some w'.lease) true, e)

-- After a complete write: the watchdog timer is set for the lease.
unfoldable pub autocenter_sent : World → NativeOutputLeaseToken → Report → World
unfolding record_native_output
autocenter_sent w t report =
    let w' = send (send w report true) build_classic_autocenter_enable_report true in
    record (record_native_output w' true false) { output_lease = some t; timer = true }

-- NativeOutputTestAutocenter from the lease on: two reports in one write, then the watchdog timer.
unfoldable pub autocenter_with :
    World
    → NativeOutputLeaseToken
    → Result BuildError Report
    → StartResults
    → ℕ
    → World × Option OutputError
unfolding autocenter_failed autocenter_sent
autocenter_with w t (err e) r now = ((release w t now).0, some bad_percent)
autocenter_with w t (ok report) r now =
    if not (mark_allowed t && r.marked)
    then ((release w t now).0, some marker_failed)
    else if not r.wrote_first
    then autocenter_failed (record w { marker = true }) t r.abort now
    else (autocenter_sent (record w { marker = true }) t report, none)

-- NativeOutputTestAutocenter with what the acquisition returned.
unfoldable pub autocenter_from :
    World
    → Result OutputError NativeOutputLeaseToken
    → ℤ
    → ℤ
    → StartResults
    → ℕ
    → World × Option OutputError
unfolding autocenter_with
autocenter_from w (err x) percent ramp r now = (w, some x)
autocenter_from w (ok t) percent ramp r now =
    autocenter_with w t (build_classic_autocenter_report percent ramp) r now

-- NativeOutputTestAutocenter after its emergency stop, whose error is an argument.
unfoldable pub autocenter_after :
    World
    → Option OutputError
    → Result OutputError Target
    → ℤ
    → ℤ
    → StartResults
    → ℕ
    → World × Option OutputError
unfolding autocenter_from
autocenter_after w (some x) target percent ramp r now = (w, some x)
autocenter_after w none target percent ramp r now =
    if within (pos 0) (pos 0) percent
    then (w, none)
    else (let (w2, lease) = acquire w target (codes "autocenter-test") true r.mutex now in
        autocenter_from w2 lease percent ramp r now)

unfoldable pub native_output_test_autocenter :
    World → Result OutputError Target → ℤ → ℤ → StartResults → ℕ → World × Option OutputError
unfolding autocenter_after
native_output_test_autocenter w target percent ramp r now =
    let (w1, e) = native_output_emergency_stop w r.emergency now in
    autocenter_after w1 e target percent ramp r now
