-- ===== src/Scheduler.antt =====
-- internal/wheelengine/ffb_scheduler.go, WheelOutput: the constant force of a game, with its slew limit,
-- its watchdog and its panic. `transport n` is whether the n-th write, from 0, succeeds; an error is
-- the number of the write that failed. All readings of the clock in one operation give its `now`.
-- `written` holds the reports handed to the transport, the latest first.
pub mod Engine
pub mod Panic
pub mod Watchdog
pub mod Invalid
mod Examples
use logi_mate.Base.{
  ℕ, zero, suc, ◌+◌, ◌-◌, Bool, true, false, not, ◌&&◌, ◌||◌, Option, none, some, List, [], ◌∷◌,
  ltb, leb, ◌==◌, if◌then◌else◌,
}
use logi_mate.Base.Int.{ℤ, pos, ltb_ℤ, pos_part}
use logi_mate.Base.Results.{Result, ok, err}
use logi_mate.Base.Float.{
  Float64, nan, num, zero_f, neg_f, abs_f, is_nan, is_inf, lt_f, le_f, eq_f, ◌+f◌, ◌-f◌, clamp,
}
use logi_mate.Protocol.{Report, constant_force, stop_all_effects, set_range}
use logi_mate.Protocol.Torque.{torque_to_wheel_byte, one_f, minus_one_f}

pub record WheelOutputOptions : Type 0 where
  pub max_slew_per_tick : Float64
  pub watchdog : ℤ
  pub default_range_deg : ℤ

pub data OptionError : Type 0 where
  bad_slew bad_watchdog : OptionError

abbrev pub is_zero_ℤ : ℤ → Bool
is_zero_ℤ (pos n) = n == 0
is_zero_ℤ _ = false

unfoldable pub normalized : WheelOutputOptions → Result OptionError WheelOutputOptions
normalized o =
    if le_f o.max_slew_per_tick zero_f || (is_nan o.max_slew_per_tick || is_inf o.max_slew_per_tick)
    then err bad_slew
    else if not (ltb_ℤ (pos 0) o.watchdog)
    then err bad_watchdog
    else ok (record o {
      default_range_deg = if is_zero_ℤ o.default_range_deg then pos 900 else o.default_range_deg;
    })

pub record WheelOutput : Type 0 where
  pub options : WheelOutputOptions
  pub current_force : Float64
  pub last_update : ℕ
  pub last_write : ℕ
  pub writes : ℕ
  pub slew_limited : ℕ
  pub watchdog_trips : ℕ
  pub last_error : Option ℕ
  pub written : List Report

abbrev pub started_output : WheelOutputOptions → ℕ → WheelOutput
started_output o now = record {
  options = o;
  current_force = zero_f;
  last_update = now;
  last_write = 0;
  writes = 0;
  slew_limited = 0;
  watchdog_trips = 0;
  last_error = none;
  written = [];
}

-- NewWheelOutput, with a transport.
unfoldable pub new_wheel_output : WheelOutputOptions → ℕ → Result OptionError WheelOutput
new_wheel_output o now = elim (normalized o) [ err e ↦ err e | ok o' ↦ ok (started_output o' now) ]

-- 1e-12 and 1e-9.
abbrev slack_f : Float64
slack_f = num false 0x3D719799812DEA11

abbrev close_f : Float64
close_f = num false 0x3E112E0BE826D695

abbrev pub force_towards : WheelOutput → Float64 → Float64
force_towards w target =
    let m = w.options.max_slew_per_tick in
    w.current_force +f clamp (target -f w.current_force) (neg_f m) m

-- stepTowardLocked; the new force is stored by its callers.
unfoldable pub step_toward_locked : WheelOutput → Float64 → WheelOutput × Float64
step_toward_locked w torque =
    let target = clamp torque minus_one_f one_f in
    let next = force_towards w target in
    let limited =
      lt_f (w.options.max_slew_per_tick +f slack_f) (abs_f (target -f w.current_force)) in
    (
      record w { slew_limited = if limited then suc w.slew_limited else w.slew_limited },
      if lt_f (abs_f (next -f target)) close_f then target else next,
    )

-- The watchdog has run out.
abbrev pub expired : WheelOutput → ℕ → Bool
expired w now = ltb (w.last_update + pos_part w.options.watchdog) now

-- `if err != nil { errs = append(errs, err) }`, for the list that `errors.Join` joins.
abbrev pub noted : Option ℕ → List ℕ → List ℕ
noted none es = es
noted (some e) es = e ∷ es

-- A round of the loop of Panic: it ends at the force 0, after an error, or with the other rounds.
abbrev pub panic_round :
    Bool → WheelOutput → WheelOutput × Option ℕ → WheelOutput × Option ℕ → WheelOutput × Option ℕ
panic_round true w step rest = (w, none)
panic_round false w (w', some x) rest = (w', some x)
panic_round false w (w', none) rest = rest

-- `w.currentForce = w.stepTowardLocked(target)`
unfoldable pub stepped : WheelOutput → Float64 → WheelOutput
stepped w target =
    let (w', next) = step_toward_locked w target in record w' { current_force = next }

-- The watchdog of Tick.
unfoldable pub tripped : WheelOutput → ℕ → WheelOutput
tripped w now =
    let out = expired w now in
    record w {
      watchdog_trips =
          if out && not (eq_f w.current_force zero_f)
          then suc w.watchdog_trips
          else w.watchdog_trips;
      current_force = if out then zero_f else w.current_force;
    }

abbrev pub panic_rounds : ℕ
panic_rounds = 100000

module _ (transport : ℕ → Bool) where
  abbrev pub write_error : ℕ → Option ℕ
  write_error n = if transport n then none else some n

  unfoldable pub write_locked : WheelOutput → Report → ℕ → WheelOutput × Option ℕ
  write_locked w report now =
      let e = write_error w.writes in
      (
        record w {
          last_write = now;
          writes = suc w.writes;
          last_error = e;
          written = report ∷ w.written;
        },
        e,
      )

  unfoldable pub write_current_force_locked : WheelOutput → ℕ → WheelOutput × Option ℕ
  write_current_force_locked w now =
      write_locked w (constant_force (torque_to_wheel_byte w.current_force)) now

  unfoldable pub set_wheel_range : WheelOutput → ℤ → ℕ → WheelOutput × Option ℕ
  set_wheel_range w deg now = write_locked w (set_range deg) now

  unfoldable pub set_force : WheelOutput → Float64 → ℕ → WheelOutput × Option ℕ
  set_force w torque now =
      write_current_force_locked (record (stepped w torque) { last_update = now }) now

  unfoldable pub tick_output : WheelOutput → ℕ → WheelOutput × Option ℕ
  tick_output w now = write_current_force_locked (tripped w now) now

  -- The loop of Panic for at most so many more rounds.
  unfoldable pub panic_loop : ℕ → WheelOutput → ℕ → WheelOutput × Option ℕ
  panic_loop zero w now = (w, none)
  panic_loop (suc n) w now =
      let step = write_current_force_locked (stepped w zero_f) now in
      panic_round (eq_f w.current_force zero_f) w step (panic_loop n step.0 now)

  unfoldable pub panic_output : WheelOutput → ℕ → WheelOutput × List ℕ
  panic_output w now =
      let (w1, e1) = write_locked w stop_all_effects now in
      let (w2, e2) = panic_loop panic_rounds w1 now in
      let (w3, e3) = write_current_force_locked (record w2 { current_force = zero_f }) now in
      (w3, noted e1 (noted e2 (noted e3 [])))
