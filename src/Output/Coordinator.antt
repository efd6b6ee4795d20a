-- ===== src/Output/Coordinator.antt =====
-- internal/system/native_ffb_windows.go and native_output_windows.go: stopping a session, the
-- emergency stop, and the release of all output.
use logi_mate.Base.{ℕ, suc, Bool, true, false, not, ◌&&◌, Option, none, some, ◌==◌, if◌then◌else◌}
use logi_mate.Base.Text.{Text, codes}
use logi_mate.Base.Results.{Result, ok, err}
use logi_mate.Output.State.{
  World, NativeOutputLeaseToken, NativeFfbStatus, WorkerState, OutputError, worker_stuck,
  worker_unproven,
}
use logi_mate.Output.{
  Target, token_for, StopResults, blank, is_some, native_output_safe_stop_lease,
  best_effort_neutralize,
}
use logi_mate.Output.Worker.{WorkerStopResults, worker_stop}

-- How a wait for the worker ends: it finished, with the results of its stop, or two seconds passed.
pub data Wait : Type 0 where
  finished : WorkerStopResults → Wait
  timed_out : Wait

-- Closing the cancel channel, if the worker's is still open.
unfoldable pub cancel : World → WorkerState → World
cancel w k = if k.cancelled then w else record w {
  worker = some (record k { cancelled = true });
  ffb = record (w.ffb) { stopping = true };
}

abbrev pub count_stop : World → Bool → World
count_stop w count =
    if count && w.ffb.active
    then record w { ffb = record (w.ffb) { emergency_stops = suc w.ffb.emergency_stops } }
    else w

abbrev pub unproven : NativeFfbStatus → NativeFfbStatus
unproven st = record st { active = true; stopping = false; faulted = true; failed = true }

-- Whether the lease that the session remembered is still the one that is held.
abbrev pub still_held : Option NativeOutputLeaseToken → Option NativeOutputLeaseToken → Bool
still_held (some l) (some cur) = cur.generation == l.generation
still_held (some l) none = false
still_held none cur = false

unfoldable pub after_wait : World → Option NativeOutputLeaseToken → World × Option OutputError
after_wait w remembered =
    if still_held remembered w.lease
    then (record w { ffb = unproven w.ffb }, some worker_unproven)
    else (record w { ffb = record (w.ffb) { stopping = false } }, none)

-- stopNativeFFBSession from the cancellation of a running test on.
unfoldable pub stop_running : World → WorkerState → Bool → Wait → ℕ → World × Option OutputError
unfolding cancel after_wait
stop_running w k count timed_out now =
    let w1 = count_stop (cancel w k) count in
    (record w1 { ffb = unproven w1.ffb }, some worker_stuck)
stop_running w k count (finished results) now =
    after_wait (worker_stop (count_stop (cancel w k) count) k false results now) w.ffb_lease

-- stopNativeFFBSession
unfoldable pub stop_native_ffb_session : World → Bool → Wait → ℕ → World × Option OutputError
unfolding stop_running
stop_native_ffb_session w count wait now = elim w.worker [
  | none ↦ (count_stop w count, none)
  | some k ↦ stop_running w k count wait now
]

-- The results that one emergency stop meets; `target` is what `emergencyOutputTarget` finds when
-- no lease is held, and `data_dir` the data directory of the state.
pub record EmergencyResults : Type 0 where
  pub data_dir : Text
  pub wait : Wait
  pub target : Result OutputError Target
  pub stop : StopResults

-- The neutral write beside a worker that was not proved to have ended.
unfoldable pub beside_worker : World → Option NativeOutputLeaseToken → Bool → World
beside_worker w none wrote = w
beside_worker w (some l) wrote = (best_effort_neutralize w l wrote).0

-- `if !hasLease { leaseBefore = current }`
abbrev pub or_else :
    Option NativeOutputLeaseToken → Option NativeOutputLeaseToken → Option NativeOutputLeaseToken
or_else none b = b
or_else (some l) b = some l

-- emergencyOutputTarget, and the stop of what it finds.
unfoldable pub stop_target :
    World → Result OutputError Target → StopResults → ℕ → World × Option OutputError
stop_target w target results now = elim w.lease [
  | some held ↦ native_output_safe_stop_lease w held false results now
  | none ↦ elim target [
    | err e ↦ (w, some e)
    | ok t ↦
        native_output_safe_stop_lease w (token_for t 0 (codes "emergency") true) false results now
  ]
]

-- NativeOutputEmergencyStop after its session stop, whose error is an argument.
unfoldable pub emergency_after :
    Option NativeOutputLeaseToken
    → World
    → Option OutputError
    → EmergencyResults
    → ℕ
    → World × Option OutputError
unfolding beside_worker stop_target
emergency_after before w (some x) r now =
    (beside_worker w (or_else before w.lease) r.stop.wrote, some x)
emergency_after before w none r now = stop_target w r.target r.stop now

-- Nothing is held, marked or active: the emergency stop has nothing to do.
unfoldable pub at_rest : World → Text → Bool
at_rest w data_dir =
    not (is_some w.lease)
    && (not w.ffb.active
        && (not w.ffb.stopping && (not w.output.active && not (not (blank data_dir) && w.marker))))

-- NativeOutputEmergencyStop
unfoldable pub native_output_emergency_stop :
    World → EmergencyResults → ℕ → World × Option OutputError
unfolding at_rest emergency_after
native_output_emergency_stop w r now =
    if at_rest w r.data_dir
    then (w, none)
    else (let (w1, e) = stop_native_ffb_session w true r.wait now in
        emergency_after w.lease w1 e r now)

-- NativeOutputRelease: as the emergency stop, but it counts none and needs no target.
unfoldable pub release_held :
    World → Option NativeOutputLeaseToken → StopResults → ℕ → World × Option OutputError
release_held w none results now = (w, none)
release_held w (some held) results now = native_output_safe_stop_lease w held false results now

-- Its last step, after the stop of the lease.
unfoldable pub released : World → Option OutputError → World × Option OutputError
released w (some x) = (w, some x)
released w none = (record w { timer = false; output = record (w.output) { active = false } }, none)

unfoldable pub release_after :
    World → Option OutputError → StopResults → ℕ → World × Option OutputError
unfolding beside_worker release_held released
release_after w (some x) results now = (beside_worker w w.lease results.wrote, some x)
release_after w none results now =
    let (w2, e2) = release_held w w.lease results now in released w2 e2

unfoldable pub native_output_release : World → Wait → StopResults → ℕ → World × Option OutputError
unfolding release_after
native_output_release w wait results now =
    let (w1, e) = stop_native_ffb_session w false wait now in release_after w1 e results now
