-- ===== src/Output/Examples.antt =====
-- Runs of the output package: a test that is started, runs, and is stopped, with and without
-- failures.
use logi_mate.Base.{ℕ, ◌≡◌, ◌≢◌, ◌⊎◌, refl, true, false, none, some, List, [], ◌∷◌, arith}
use logi_mate.Base.Int.{pos, wrap, ◌-ℤ◌, ◌+ℤ◌}
use logi_mate.Base.Text.{codes, trim_space}
use logi_mate.Base.Results.{ok, err}
use logi_mate.Model.{g27}
use logi_mate.Safety.{default_native_ffb_config, normalize_native_ffb_config, apply_ffb_slew}
use logi_mate.Protocol.Classic.{build_classic_constant_force_slot_report}
use logi_mate.Output.State.{World, NativeOutputLeaseToken, WorkerState, OutputError, no_target}
use logi_mate.Output.{Target, StopResults, acquire, token_for, native_output_safe_stop_lease}
use logi_mate.Output.Worker.{WorkerStopResults, TickResults, worker_tick, tick_with}
use logi_mate.Output.Coordinator.{finished, at_rest, native_output_emergency_stop, EmergencyResults}
use logi_mate.Output.Start.{
  StartResults, native_output_apply_range, start_native_constant_force_test, start_after,
  start_with, with_lease, send_first, first_sent, begin_session,
}
use logi_mate.Output.Leds.{
  PulseResults, MotorUntouched, native_output_set_leds, native_output_pulse_leds,
  motorless_commands-MotorUntouched,
}
use logi_mate.Output.Events.{
  Event, step, start_constant, start_autocenter, apply_range, set_leds, pulse_leds, tick, deadline,
  timer_fires, initial, run,
}
use logi_mate.Output.FailClosed.{Neutralised, StillGuarded, safe_stop_fail_closed}
use logi_mate.Output.Invariant.{run-initial-Inv, running_guarded}
use logi_mate.Output.Invariant.Parts.{Inv}

abbrev wheel : Target
wheel = record {
  wheel_id = codes "g27-a";
  session_id = codes "s1";
  model = g27;
  path = codes "hid-1";
  data_dir = codes "data";
}

abbrev motor_token : NativeOutputLeaseToken
motor_token = record {
  generation = 5;
  wheel_id = codes "g27-a";
  session_id = codes "s1";
  model = g27;
  path = codes "hid-1";
  purpose = codes "constant-force";
  motor = true;
  data_dir = codes "data";
}

abbrev held_world : World
unfolding initial
held_world = record (initial true) { lease_generation = 5; lease = some motor_token }

abbrev bad_stop : StopResults
bad_stop = record { wrote = false; cleared = true }

abbrev good_stop : StopResults
good_stop = record { wrote = true; cleared = true }

abbrev good_worker_stop : WorkerStopResults
good_worker_stop = record { wrote_slot = true; wrote_all = true; cleared = true }

abbrev emergency : EmergencyResults
emergency = record {
  data_dir = codes "data";
  wait = finished good_worker_stop;
  target = err no_target;
  stop = good_stop;
}

abbrev good_start : StartResults
good_start = record {
  emergency = emergency;
  mutex = true;
  opened = true;
  marked = true;
  wrote_mode = true;
  wrote_first = true;
  abort = bad_stop;
}

abbrev good_tick : TickResults
good_tick = record { wrote = true; stop = good_worker_stop }

abbrev good_pulse : PulseResults
good_pulse = record {
  has_leds = true;
  opened = true;
  wrote_on = true;
  wrote_off = true;
  closed = true;
}

-- A test of 20 percent that is started and ticks once.
abbrev started : List (Event × ℕ)
started =
    (start_constant (ok wheel) (pos 20) default_native_ffb_config good_start, 1)
    ∷ (tick good_tick, 2)
    ∷ []

-- It ends at its deadline; then an autocenter test starts, a range command and an LED pulse
-- are refused, the timer fires, and the LEDs are set.
abbrev session : List (Event × ℕ)
session =
    (start_constant (ok wheel) (pos 20) default_native_ffb_config good_start, 1)
    ∷ (tick good_tick, 2)
    ∷ (deadline good_worker_stop, 3)
    ∷ (start_autocenter (ok wheel) (pos 30) (pos 2) good_start, 4)
    ∷ (apply_range (ok wheel) (pos 540) true true, 5)
    ∷ (pulse_leds (ok wheel) true good_pulse, 6)
    ∷ (timer_fires good_stop, 7)
    ∷ (set_leds (ok wheel) 3 true true true, 8)
    ∷ []

run-initial-Inv_example : Inv (run (initial false) session)
run-initial-Inv_example = run-initial-Inv false session

safe_stop_fail_closed_example :
    let (w', e) = native_output_safe_stop_lease held_world motor_token false bad_stop 9 in
    ((e ≡ none) × Neutralised held_world motor_token w')
    ⊎ ((e ≢ none) × StillGuarded held_world motor_token w')
unfolding held_world
safe_stop_fail_closed_example =
    safe_stop_fail_closed held_world motor_token false bad_stop 9 refl refl (omega arith)

-- A token of an earlier lease.
abbrev stale_token : NativeOutputLeaseToken
stale_token = record motor_token { generation = 4 }

-- A running test at 8 percent, after its first step and one tick.
abbrev running : WorkerState
running = record {
  token = record motor_token { generation = 1 };
  generation = 1;
  current = pos 4;
  target = pos 20;
  slew = pos 2;
  cancelled = false;
}

running_guarded_example :
    ((run (initial false) started).marker ≡ true)
    × ((e : OutputError) × (acquire
            (run (initial false) started)
            (ok wheel)
            (codes "range")
            false
            true
            3
          ≡ (run (initial false) started, err e)))
unfolding run step start_native_constant_force_test start_after start_with with_lease send_first
    first_sent begin_session native_output_emergency_stop at_rest acquire token_for initial
    normalize_native_ffb_config worker_tick tick_with apply_ffb_slew
    build_classic_constant_force_slot_report trim_space wrap ◌-ℤ◌ ◌+ℤ◌
running_guarded_example =
    running_guarded false started running (ok wheel) (codes "range") false true 3 refl

motorless_commands-MotorUntouched_example :
    MotorUntouched held_world
      (native_output_apply_range held_world (ok wheel) (pos 540) true true 9).0
    × MotorUntouched held_world (native_output_set_leds held_world (ok wheel) 7 true true true 9).0
    × MotorUntouched held_world (native_output_pulse_leds held_world (ok wheel) true good_pulse 9).0
motorless_commands-MotorUntouched_example =
    motorless_commands-MotorUntouched held_world (ok wheel) (pos 540) 7 true true true good_pulse 9
