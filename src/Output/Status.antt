-- ===== src/Output/Status.antt =====
-- internal/system/native_output_windows.go, recordNativeOutput: what a refused command and a failed
-- start do to the `active` mark of the output while a motor lease is held.
use logi_mate.Base.{ℕ, suc, ◌≡◌, Bool, true, false, some, arith}
use logi_mate.Base.Int.{ℤ}
use logi_mate.Base.Results.{ok}
use logi_mate.Output.State.{World, NativeOutputLeaseToken, lease_taken}
use logi_mate.Output.{Target, StopResults, acquire, native_output_safe_stop_lease}
use logi_mate.Output.Start.{
  range_with, native_output_apply_range, record_native_output, abort_start,
}
use logi_mate.Output.Autocenter.{autocenter_failed}

-- A range command that is refused because a lease is held leaves the lease and the marker, counts as
-- a command, and marks the output inactive: an autocenter test that still runs is then no longer
-- reported as active.
pub refused_range_hides :
    (w : World) (target : Target) (degrees : ℤ) (mutex wrote : Bool) (now : ℕ)
    {held : NativeOutputLeaseToken}
    → w.lease ≡ some held
    → let (w', e) = native_output_apply_range w (ok target) degrees mutex wrote now in
      (e ≡ some lease_taken)
      × (w'.lease ≡ some held)
      × (w'.timer ≡ w.timer)
      × (w'.sent ≡ w.sent)
      × (w'.output.active ≡ false)
      × (w'.output.command_count ≡ suc w.output.command_count)
unfolding native_output_apply_range range_with record_native_output acquire
refused_range_hides w target degrees mutex wrote now h = ground arith

-- An autocenter start whose reports fail, and whose stop fails too, keeps the motor lease and the
-- marker, but the output is marked inactive, although the stop had marked it active.
pub failed_start_hides :
    (w : World) (t : NativeOutputLeaseToken) (results : StopResults) (now : ℕ)
    → w.lease ≡ some t
    → t.motor ≡ true
    → results.wrote ≡ false
    → let stopped = (native_output_safe_stop_lease w t false results now).0 in
      let w' = (autocenter_failed w t results now).0 in
      (stopped.output.active ≡ true)
      × (w'.output.active ≡ false)
      × (w'.lease ≡ some t)
      × (w'.marker ≡ w.marker)
unfolding autocenter_failed record_native_output abort_start native_output_safe_stop_lease
failed_start_hides w t results now held motor unsent = ground arith
