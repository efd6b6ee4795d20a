-- ===== src/Scheduler/Examples.antt =====
-- Runs of the force scheduler: a force that is approached, a source that falls silent, a panic.
use logi_mate.Base.{ℕ, ◌≡◌, refl, Bool, true, false, List, [], ◌∷◌, arith}
use logi_mate.Base.Int.{pos}
use logi_mate.Base.Results.{ok}
use logi_mate.Base.Float.{
  num, zero_f, round_mag, digits, round_to_even, ◌+f◌, ◌-f◌, ◌*f◌, add_finite, units, clamp,
  round_to_int,
}
use logi_mate.Safety.{clamp_int}
use logi_mate.Protocol.{Report, constant_force}
use logi_mate.Protocol.Torque.{torque_to_wheel_byte, one_f}
use logi_mate.Scheduler.{
  WheelOutput, WheelOutputOptions, normalized, started_output, step_toward_locked, stepped,
  write_locked, write_current_force_locked, panic_loop, panic_output,
}
use logi_mate.Scheduler.Engine.{FfbEngine, new_ffb_engine, pump_all}
use logi_mate.Scheduler.Panic.{Neutral, panic_output-Neutral}
use logi_mate.Scheduler.Watchdog.{silent, silent_source-neutral}

-- A slew limit of 0.5, a watchdog of 200 ms.
abbrev options : WheelOutputOptions
options = record {
  max_slew_per_tick = num false 0x3FE0000000000000;
  watchdog = pos 200000000;
  default_range_deg = pos 900;
}

normalized_options : normalized options ≡ ok options
unfolding normalized
normalized_options = refl

-- The force 1, from the start on.
abbrev pulled : WheelOutput
pulled = record (started_output options 0) { current_force = one_f }

abbrev pulled_engine : FfbEngine
unfolding new_ffb_engine
pulled_engine = new_ffb_engine pulled

abbrev working : ℕ → Bool
working n = true

-- A panic at the force 1 writes 0.5 and 0 before its last report.
panic_steps :
    (panic_loop working 10 pulled 7).0.written ≡ constant_force 128 ∷ constant_force 192 ∷ []
unfolding panic_loop write_current_force_locked write_locked stepped step_toward_locked ◌+f◌ ◌-f◌
    ◌*f◌ add_finite units round_mag digits round_to_even clamp torque_to_wheel_byte round_to_int
    clamp_int
panic_steps = refl

panic_output-Neutral_example :
    Neutral working pulled (panic_output working pulled 7).0 (panic_output working pulled 7).1
panic_output-Neutral_example = panic_output-Neutral working pulled 7

silent_source-neutral_example :
    let w = (pump_all working pulled_engine (silent working (100 ∷ 200000001 ∷ []))).output in
    (w.current_force ≡ zero_f)
    × ((earlier : List Report) × (w.written ≡ constant_force 128 ∷ earlier))
unfolding pulled_engine
silent_source-neutral_example =
    silent_source-neutral working pulled_engine (100 ∷ []) 200000001 (omega arith)
