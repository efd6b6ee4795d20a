-- ===== src/Output/Invariant.antt =====
-- The output package as a whole: what holds after any events, whatever the system answers.
pub mod Parts
pub mod Steps
pub mod Operations
pub mod Acquired
pub mod Starts
pub mod Autocenter
pub mod Lights
use logi_mate.Base.{
  ℕ, ◌≡◌, refl, ◌⊎◌, inl, inr, Bool, true, false, Option, none, some, List, [], ◌∷◌, arith,
  Option-cases,
}
use logi_mate.Base.Int.{ℤ, pos, ◌≤ℤ◌}
use logi_mate.Base.Text.{Text}
use logi_mate.Base.Results.{Result, err}
use logi_mate.Output.Lease.{acquire_held}
use logi_mate.Output.State.{World, NativeOutputLeaseToken, WorkerState, OutputError}
use logi_mate.Output.{Target, acquire, StopResults, native_output_safe_stop_lease}
use logi_mate.Output.Events.{
  Event, start_constant, start_autocenter, apply_range, set_leds, pulse_leds, emergency_stop,
  release_all, tick, deadline, cancelled, timer_fires, fire, step, initial, run,
}
use Parts.{LeaseOk, WorkerOk, TimerOk, Inv, safe_stop-Inv, worker_stop-Inv}
use Steps.{worker_tick-Inv}
use Operations.{emergency-Inv, release-Inv}
use Lights.{leds-Inv, pulse-Inv}
use Starts.{start_constant-Inv, range-Inv}
use Autocenter.{autocenter-Inv}

initial-Inv : (marker : Bool) → Inv (initial marker)
unfolding initial
initial-Inv marker = record {
  lease_ok = ground arith;
  worker_ok = ground arith;
  timer_ok = ground arith;
}

fire-Inv :
    (w : World) (l : Option NativeOutputLeaseToken) (timer : Bool) (results : StopResults) (now : ℕ)
    → Inv w
    → w.output_lease ≡ l
    → w.timer ≡ timer
    → Inv (fire w l timer results now)
unfolding fire
fire-Inv w none timer results now v e f = v
fire-Inv w (some t) false results now v e f = v
fire-Inv w (some t) true results now v e f =
    safe_stop-Inv w t true results now v (ground arith) (ground arith)

step-Inv : (w : World) (e : Event) (now : ℕ) → Inv w → Inv (step w e now)
unfolding step
step-Inv w (start_constant target percent cfg r) now v =
    start_constant-Inv w target percent cfg r now v
step-Inv w (start_autocenter target percent ramp r) now v =
    autocenter-Inv w target percent ramp r now v
step-Inv w (apply_range target degrees mutex wrote) now v =
    range-Inv w target degrees mutex wrote now v
step-Inv w (set_leds target mask mutex has_leds wrote) now v =
    leds-Inv w target mask mutex has_leds wrote now v
step-Inv w (pulse_leds target mutex r) now v = pulse-Inv w target mutex r now v
step-Inv w (emergency_stop r) now v = emergency-Inv w r now v
step-Inv w (release_all wait results) now v = release-Inv w wait results now v
step-Inv w (tick r) now v = elim (Option-cases w.worker) [
  | inl idle ↦ rw idle (ground arith)
  | inr (k, running) ↦
      rw running (worker_tick-Inv (record w { worker = some k }) k r now (ground arith) refl)
]
step-Inv w (deadline r) now v = elim (Option-cases w.worker) [
  | inl idle ↦ rw idle (ground arith)
  | inr (k, running) ↦
      rw running
        (worker_stop-Inv (record w { worker = some k }) k k true r now (ground arith) refl refl)
]
step-Inv w (cancelled r) now v = elim (Option-cases w.worker) [
  | inl idle ↦ rw idle (ground arith)
  | inr (k, running) ↦
      rw running
        (worker_stop-Inv (record w { worker = some k }) k k false r now (ground arith) refl refl)
]
step-Inv w (timer_fires results) now v = fire-Inv w w.output_lease w.timer results now v refl refl

-- The holder of the lease is the running test.
holder :
    (w : World) (k : WorkerState)
    → Inv w
    → w.worker ≡ some k
    → (w.lease ≡ some k.token) × (w.marker ≡ true)
holder w k v running = ground arith

run-Inv : (w : World) (es : List (Event × ℕ)) → Inv w → Inv (run w es)
unfolding run
run-Inv w [] v = v
run-Inv w ((e, now) ∷ es) v = run-Inv (step w e now) es (step-Inv w e now v)

-- After any events from the start of the program, whatever the writes, removals and waits return and
-- however the steps of the test goroutine fall between the operations: the lease, if held, has a
-- generation that was counted, and a motor lease is covered by the recovery marker; a running test
-- is the holder of the lease, as a motor lease, and its force lies between 0 and its target of at
-- most 30 percent; and a set timer belongs to a held motor lease, with no test running beside it.
pub run-initial-Inv : (marker : Bool) (es : List (Event × ℕ)) → Inv (run (initial marker) es)
run-initial-Inv marker es = run-Inv (initial marker) es (initial-Inv marker)

-- While a test runs after any events, the recovery marker is set and every acquisition of the output,
-- for whatever target and purpose, is refused without a change.
pub running_guarded :
    (marker : Bool) (es : List (Event × ℕ)) (k : WorkerState) (target : Result OutputError Target)
    (purpose : Text) (motor mutex : Bool) (now : ℕ)
    → (run (initial marker) es).worker ≡ some k
    → ((run (initial marker) es).marker ≡ true)
      × ((e : OutputError) × (acquire (run (initial marker) es) target purpose motor mutex now
            ≡ (run (initial marker) es, err e)))
running_guarded marker es k target purpose motor mutex now running =
    let (held, marked) = holder _ k (run-initial-Inv marker es) running in
    (marked, acquire_held _ target purpose motor mutex now held)
