-- ===== src/Output/Invariant/Steps.antt =====
-- A tick of a test, and the stops of a session, keep the invariant of the output package.
use logi_mate.Base.{
  ℕ, ◌≡◌, inl, inr, refl, Bool, true, false, Option, none, some, arith, Option-cases, Bool-cases,
  ◌==◌, ◌&&◌,
}
use logi_mate.Base.Int.{ℤ, pos, ◌≤ℤ◌}
use logi_mate.Base.Results.{Result, ok, err}
use logi_mate.Safety.Slew.{apply_ffb_slew-between}
use logi_mate.Protocol.{Report}
use logi_mate.Protocol.Classic.{BuildError}
use logi_mate.Output.State.{World, NativeOutputLeaseToken, WorkerState, NativeFfbStatus}
use logi_mate.Output.Worker.{
  WorkerStopResults, leave, TickResults, worker_stop, worker_tick, tick_with, mark_failed,
  ticked_status, send, update_status,
}
use logi_mate.Output.Coordinator.{
  Wait, finished, timed_out, cancel, count_stop, after_wait, stop_running, stop_native_ffb_session,
}
use logi_mate.Output.Invariant.Parts.{Inv, worker_stop-Inv}

-- The status of the session is no part of the invariant.
update_status-Inv :
    (w : World) (g : ℕ) (f : NativeFfbStatus → NativeFfbStatus) → Inv w → Inv (update_status w g f)
update_status-Inv w g f v = elim (Bool-cases (w.ffb.generation == g && w.ffb_generation == g)) [
  | inl e ↦ rw e (ground arith)
  | inr e ↦ rw e v
]

-- A tick that could not be sent ends the test.
tick_failed-Inv :
    (w : World) (k : WorkerState) (results : WorkerStopResults) (now : ℕ)
    → Inv w
    → w.worker ≡ some k
    → Inv (worker_stop (update_status w k.generation mark_failed) k false results now)
tick_failed-Inv w k results now v running =
    worker_stop-Inv (update_status w k.generation mark_failed) k k false results now
      (update_status-Inv w k.generation mark_failed v) (ground arith) refl

tick_with-Inv :
    (w : World) (k : WorkerState) (r : Result BuildError Report) (next : ℤ) (limited : Bool)
    (results : TickResults) (now : ℕ)
    → Inv w
    → w.worker ≡ some k
    → pos 0 ≤ℤ next
    → next ≤ℤ k.target
    → Inv (tick_with w k r next limited results now)
unfolding tick_with
tick_with-Inv w k (err e) next limited results now v running low high =
    tick_failed-Inv w k results.stop now v running
tick_with-Inv w k (ok report) next limited results now v running low high =
    elim (Bool-cases results.wrote) [
      | inl e ↦ rw e (
          update_status-Inv
            (record (send w report true) { worker = some (record k { current = next }) })
            k.generation (ticked_status next limited) (ground arith))
      | inr e ↦ rw e (tick_failed-Inv w k results.stop now v running)
    ]

-- The bounds of the force that a running test has.
force_ok :
    (w : World) (k : WorkerState)
    → Inv w
    → w.worker ≡ some k
    → (pos 0 ≤ℤ k.current)
      × (k.current ≤ℤ k.target)
      × (k.target ≤ℤ pos 30)
      × (pos 1 ≤ℤ k.slew)
      × (k.slew ≤ℤ pos 5)
force_ok w k v running = ground arith

pub worker_tick-Inv :
    (w : World) (k : WorkerState) (results : TickResults) (now : ℕ)
    → Inv w
    → w.worker ≡ some k
    → Inv (worker_tick w k results now)
unfolding worker_tick
worker_tick-Inv w k results now v running =
    let (low, high, most, slow, fast) = force_ok w k v running in
    let (up, under) =
      apply_ffb_slew-between k.current k.target k.slew (ground arith) (ground arith) (ground arith)
        low high in
    tick_with-Inv w k _ _ _ results now v running (omega arith) under

-- Cancelling only marks the test as cancelled.
cancel-Inv :
    (w : World) (k : WorkerState) (count : Bool)
    → Inv w
    → w.worker ≡ some k
    → Inv (count_stop (cancel w k) count)
unfolding cancel
cancel-Inv w k count v running = ground arith

cancel-token :
    (w : World) (k : WorkerState) (count : Bool)
    → w.worker ≡ some k
    → (k' : WorkerState) × ((count_stop (cancel w k) count).worker ≡ some k') × (k'.token ≡ k.token)
unfolding cancel
cancel-token w k count running = elim (Bool-cases k.cancelled) [
  | inl e ↦ (k, ground arith, refl)
  | inr e ↦ (record k { cancelled = true }, ground arith, refl)
]

-- The state after cancelling still runs a test with the same lease.
finish-Inv :
    (w : World) (k : WorkerState) (count : Bool) (results : WorkerStopResults) (now : ℕ)
    → Inv w
    → w.worker ≡ some k
    → Inv (worker_stop (count_stop (cancel w k) count) k false results now)
finish-Inv w k count results now v running =
    let (k', r, same) = cancel-token w k count running in
    worker_stop-Inv (count_stop (cancel w k) count) k k' false results now
      (cancel-Inv w k count v running) r same

after_wait-Inv :
    (w : World) (remembered : Option NativeOutputLeaseToken)
    → Inv w
    → Inv (after_wait w remembered).0
unfolding after_wait
after_wait-Inv w remembered v = ground arith

stop_running-Inv :
    (w : World) (k : WorkerState) (count : Bool) (wait : Wait) (now : ℕ)
    → Inv w
    → w.worker ≡ some k
    → Inv (stop_running w k count wait now).0
unfolding stop_running
stop_running-Inv w k count timed_out now v running =
    let v1 = cancel-Inv w k count v running in
    record { lease_ok = v1.lease_ok; worker_ok = v1.worker_ok; timer_ok = v1.timer_ok }
stop_running-Inv w k count (finished results) now v running =
    after_wait-Inv (worker_stop (count_stop (cancel w k) count) k false results now) w.ffb_lease
      (finish-Inv w k count results now v running)

pub stop_session-Inv :
    (w : World) (count : Bool) (wait : Wait) (now : ℕ)
    → Inv w
    → Inv (stop_native_ffb_session w count wait now).0
unfolding stop_native_ffb_session
stop_session-Inv w count wait now v = elim (Option-cases w.worker) [
  | inl idle ↦ rw idle (ground arith)
  | inr (k, running) ↦
      rw running
        (stop_running-Inv (record w { worker = some k }) k count wait now (ground arith) refl)
]

stop_running-idle :
    (w : World) (k : WorkerState) (count : Bool) (wait : Wait) (now : ℕ)
    → (stop_running w k count wait now).1 ≡ none
    → (stop_running w k count wait now).0.worker ≡ none
unfolding stop_running after_wait worker_stop leave
stop_running-idle w k count timed_out now done = ground arith
stop_running-idle w k count (finished results) now done = ground arith

-- A session stopped without an error runs no test.
pub stop_session-idle :
    (w : World) (count : Bool) (wait : Wait) (now : ℕ)
    → (stop_native_ffb_session w count wait now).1 ≡ none
    → (stop_native_ffb_session w count wait now).0.worker ≡ none
unfolding stop_native_ffb_session
stop_session-idle w count wait now = elim (Option-cases w.worker) [
  | inl idle ↦ rw idle (ground arith)
  | inr (k, running) ↦
      rw running (stop_running-idle (record w { worker = some k }) k count wait now)
]
