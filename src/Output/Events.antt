-- ===== src/Output/Events.antt =====
-- The runs of the output package: each event is one operation or one step of the test goroutine,
-- with the results that the system gives it. Steps that happen while an operation holds its lock
-- or waits are taken before or after it.
use logi_mate.Base.{ℕ, Bool, true, false, Option, none, some, List, [], ◌∷◌}
use logi_mate.Base.Int.{ℤ, pos}
use logi_mate.Base.Results.{Result}
use logi_mate.Safety.{NativeFfbConfig}
use logi_mate.Manager.{new_manager}
use logi_mate.Output.State.{World, NativeOutputLeaseToken, OutputError}
use logi_mate.Output.{Target, StopResults, native_output_safe_stop_lease}
use logi_mate.Output.Worker.{WorkerStopResults, TickResults, worker_stop, worker_tick}
use logi_mate.Output.Coordinator.{
  Wait, EmergencyResults, native_output_emergency_stop, native_output_release,
}
use logi_mate.Output.Start.{
  StartResults, start_native_constant_force_test, native_output_apply_range,
}
use logi_mate.Output.Autocenter.{native_output_test_autocenter}
use logi_mate.Output.Leds.{PulseResults, native_output_set_leds, native_output_pulse_leds}

pub data Event : Type 0 where
  start_constant : Result OutputError Target → ℤ → NativeFfbConfig → StartResults → Event
  start_autocenter : Result OutputError Target → ℤ → ℤ → StartResults → Event
  apply_range : Result OutputError Target → ℤ → Bool → Bool → Event
  set_leds : Result OutputError Target → ℕ → Bool → Bool → Bool → Event
  pulse_leds : Result OutputError Target → Bool → PulseResults → Event
  emergency_stop : EmergencyResults → Event
  release_all : Wait → StopResults → Event
  tick : TickResults → Event
  deadline : WorkerStopResults → Event
  cancelled : WorkerStopResults → Event
  timer_fires : StopResults → Event

-- The timer of an autocenter test stops the lease that it was set for.
unfoldable pub fire : World → Option NativeOutputLeaseToken → Bool → StopResults → ℕ → World
fire w (some t) true results now = (native_output_safe_stop_lease w t true results now).0
fire w _ _ results now = w

unfoldable pub step : World → Event → ℕ → World
unfolding fire
step w (start_constant target percent cfg r) now =
    (start_native_constant_force_test w target percent cfg r now).0
step w (start_autocenter target percent ramp r) now =
    (native_output_test_autocenter w target percent ramp r now).0
step w (apply_range target degrees mutex wrote) now =
    (native_output_apply_range w target degrees mutex wrote now).0
step w (set_leds target mask mutex has_leds wrote) now =
    (native_output_set_leds w target mask mutex has_leds wrote now).0
step w (pulse_leds target mutex r) now = (native_output_pulse_leds w target mutex r now).0
step w (emergency_stop r) now = (native_output_emergency_stop w r now).0
step w (release_all wait results) now = (native_output_release w wait results now).0
step w (tick r) now = elim w.worker [ none ↦ w | some k ↦ worker_tick w k r now ]
step w (deadline r) now = elim w.worker [ none ↦ w | some k ↦ worker_stop w k true r now ]
step w (cancelled r) now = elim w.worker [ none ↦ w | some k ↦ worker_stop w k false r now ]
step w (timer_fires results) now = fire w w.output_lease w.timer results now

-- The state at the start of the program, with or without a marker left by a crash.
unfoldable pub initial : Bool → World
initial marker = record {
  lease_generation = 0;
  lease = none;
  marker = marker;
  output = record {
    active = false;
    failed = false;
    command_count = 0;
    emergency_stops = 0;
    watchdog_stops = 0;
  };
  output_lease = none;
  timer = false;
  ffb = record {
    active = false;
    stopping = false;
    faulted = false;
    failed = false;
    requested = pos 0;
    applied = pos 0;
    frames = 0;
    slew_limited = 0;
    effect_transitions = 0;
    watchdog_stops = 0;
    emergency_stops = 0;
    generation = 0;
  };
  ffb_generation = 0;
  ffb_lease = none;
  worker = none;
  manager = new_manager;
  sent = [];
}

-- Any events, each at its time.
unfoldable pub run : World → List (Event × ℕ) → World
run w [] = w
run w ((e, now) ∷ es) = run (step w e now) es
