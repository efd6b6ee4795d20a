-- ===== src/Output/Invariant/Parts.antt =====
-- The invariant of the output package, and that a stop and a worker's step keep it.
use logi_mate.Base.{ℕ, ◌≤◌, ◌<◌, ◌≡◌, ◌⊎◌, Bool, true, false, Option, none, some, arith}
use logi_mate.Base.Int.{pos, ◌≤ℤ◌}
use logi_mate.Output.State.{World, NativeOutputLeaseToken, WorkerState}
use logi_mate.Output.{
  StopResults, release, complete_native_motor_stop, native_output_safe_stop_lease,
}
use logi_mate.Output.Worker.{WorkerStopResults, worker_stop}

-- A held lease has a counted generation, and a motor lease is covered by the recovery marker.
abbrev pub LeaseOk : Option NativeOutputLeaseToken → ℕ → Bool → Type 0
LeaseOk none g marker = Unit
LeaseOk (some t) g marker =
    (0 < t.generation) × (t.generation ≤ g) × ((t.motor ≡ false) ⊎ (marker ≡ true))

-- A running test holds the lease itself, as a motor lease, and its force lies between 0 and its
-- target of at most 30 percent.
abbrev pub WorkerOk : Option WorkerState → Option NativeOutputLeaseToken → Type 0
WorkerOk none lease = Unit
WorkerOk (some k) lease =
    (lease ≡ some k.token)
    × (k.token.motor ≡ true)
    × (pos 0 ≤ℤ k.current)
    × (k.current ≤ℤ k.target)
    × (k.target ≤ℤ pos 30)
    × (pos 1 ≤ℤ k.slew)
    × (k.slew ≤ℤ pos 5)

-- A set timer belongs to a held motor lease, with no test running.
abbrev pub TimerOk :
    Bool
    → Option NativeOutputLeaseToken
    → Option NativeOutputLeaseToken
    → Option WorkerState
    → Type 0
TimerOk false lease output_lease worker = Unit
TimerOk true lease output_lease worker =
    (worker ≡ none)
    × (t : NativeOutputLeaseToken) × (lease ≡ some t)
    × (output_lease ≡ some t)
    × (t.motor ≡ true)

pub record Inv (w : World) : Type 0 where
  pub lease_ok : LeaseOk w.lease w.lease_generation w.marker
  pub worker_ok : WorkerOk w.worker w.lease
  pub timer_ok : TimerOk w.timer w.lease w.output_lease w.worker

-- A stop of the held lease, with no test running.
pub safe_stop-Inv :
    (w : World) (t : NativeOutputLeaseToken) (watchdog : Bool) (results : StopResults) (now : ℕ)
    → Inv w
    → w.worker ≡ none
    → w.lease ≡ some t
    → Inv (native_output_safe_stop_lease w t watchdog results now).0
unfolding native_output_safe_stop_lease release
safe_stop-Inv w t watchdog results now v idle held = ground arith

-- A stop for a token without a lease, as the emergency stop of a wheel that is not leased.
pub safe_stop_unleased-Inv :
    (w : World) (t : NativeOutputLeaseToken) (watchdog : Bool) (results : StopResults) (now : ℕ)
    → Inv w
    → w.worker ≡ none
    → w.lease ≡ none
    → t.generation ≡ 0
    → Inv (native_output_safe_stop_lease w t watchdog results now).0
unfolding native_output_safe_stop_lease release
safe_stop_unleased-Inv w t watchdog results now v idle free zero = ground arith

-- The end of the running test; `k` is the test as it was before it was cancelled.
pub worker_stop-Inv :
    (w : World) (k k' : WorkerState) (timed : Bool) (results : WorkerStopResults) (now : ℕ)
    → Inv w
    → w.worker ≡ some k'
    → k'.token ≡ k.token
    → Inv (worker_stop w k timed results now)
unfolding worker_stop complete_native_motor_stop release
worker_stop-Inv w k k' timed results now v running same = ground arith
