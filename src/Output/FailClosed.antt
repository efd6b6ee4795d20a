-- ===== src/Output/FailClosed.antt =====
-- internal/system/native_output_windows.go, nativeOutputSafeStopLease, and completeNativeMotorStop of
-- native_ffb_windows.go: what a stop proves, and what a failed one keeps.
use logi_mate.Base.{ℕ, ◌<◌, ◌≡◌, ◌≢◌, ◌⊎◌, Bool, true, false, none, some, ◌++◌, arith}
use logi_mate.Protocol.Classic.{neutral_reports_for_model}
use logi_mate.Output.State.{World, NativeOutputLeaseToken, lease_kept}
use logi_mate.Output.{
  StopResults, blank, release, complete_native_motor_stop, native_output_safe_stop_lease,
}

-- A stop that succeeded: all neutral reports were sent, the marker is gone (it only matters with a
-- data directory), the lease is free and nothing counts as active.
pub record Neutralised (w : World) (t : NativeOutputLeaseToken) (w' : World) : Type 0 where
  pub neutral_sent : w'.sent ≡ w.sent ++ neutral_reports_for_model t.model
  pub unmarked : (blank t.data_dir ≡ true) ⊎ (w'.marker ≡ false)
  pub freed : w'.lease ≡ none
  pub inactive : w'.output.active ≡ false

-- A stop that failed: the lease and the marker stay, and the output counts as active.
pub record StillGuarded (w : World) (t : NativeOutputLeaseToken) (w' : World) : Type 0 where
  pub held : w'.lease ≡ some t
  pub marked : w'.marker ≡ w.marker
  pub active : w'.output.active ≡ true

-- The stop of a held motor lease with a counted generation: it reports no error exactly with proof of neutralisation, and any
-- error leaves the lease held, the marker in place and the output marked active.
pub safe_stop_fail_closed :
    (w : World) (t : NativeOutputLeaseToken) (watchdog : Bool) (results : StopResults) (now : ℕ)
    → w.lease ≡ some t
    → t.motor ≡ true
    → 0 < t.generation
    → let (w', e) = native_output_safe_stop_lease w t watchdog results now in
      ((e ≡ none) × Neutralised w t w') ⊎ ((e ≢ none) × StillGuarded w t w')
unfolding native_output_safe_stop_lease release
safe_stop_fail_closed w t watchdog results now held motor counted = ground arith

-- The removal of the marker comes before the test of the lease: a stop for a token that is no
-- longer the holder's, with a generation and a data directory of its own, fails, and still deletes
-- the recovery marker of the present holder.
pub stale_stop_unmarks :
    (w : World) (t held : NativeOutputLeaseToken) (now : ℕ)
    → w.lease ≡ some held
    → held.generation ≢ t.generation
    → 0 < t.generation
    → blank t.data_dir ≡ false
    → let (w', e) = complete_native_motor_stop w t t.data_dir none true now in
      (e ≡ some lease_kept) × (w'.lease ≡ some held) × (w'.marker ≡ false)
unfolding complete_native_motor_stop release
stale_stop_unmarks w t held now h other counted dir = ground arith
