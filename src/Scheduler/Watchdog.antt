-- ===== src/Scheduler/Watchdog.antt =====
-- internal/wheelengine/ffb_scheduler.go: a source that falls silent loses its force.
use logi_mate.Base.{
  ℕ, ◌+◌, ◌<◌, ◌≡◌, refl, Bool, true, false, Option, none, List, [], ◌∷◌, ◌++◌, lt→ltb,
}
use logi_mate.Base.Int.{pos_part}
use logi_mate.Base.Float.{Float64, zero_f}
use logi_mate.Protocol.{Report, constant_force}
use logi_mate.Protocol.Torque.{ForceFrame, torque_to_wheel_byte, torque_byte_neutral}
use logi_mate.Scheduler.{
  WheelOutput, expired, tripped, write_locked, write_current_force_locked, tick_output,
}
use logi_mate.Scheduler.Engine.{FfbEngine, pump_once, pumped, pump_all}

module _ (transport : ℕ → Bool) where
  -- The pumps of a silent source, at these times.
  pub silent : List ℕ → List (Option ForceFrame × ℕ)
  silent [] = []
  silent (t ∷ ts) = (none, t) ∷ silent ts

  -- A silent pump leaves the time of the last frame and the options.
  silent_keeps :
      (e : FfbEngine) (t : ℕ)
      → ((pump_once transport e none t).0.output.last_update ≡ e.output.last_update)
        × ((pump_once transport e none t).0.output.options ≡ e.output.options)
  unfolding pump_once pumped tick_output write_current_force_locked write_locked tripped
  silent_keeps e t = (refl, refl)

  neutral_byte : (a : Float64) → a ≡ zero_f → torque_to_wheel_byte a ≡ 128
  neutral_byte a h = rw h (torque_byte_neutral false)

  expired_tick :
      (w : WheelOutput) (t : ℕ)
      → expired w t ≡ true
      → let w' = (tick_output transport w t).0 in
        (w'.current_force ≡ zero_f) × (w'.written ≡ constant_force 128 ∷ w.written)
  unfolding tick_output write_current_force_locked write_locked tripped
  expired_tick w t late =
      let gone : (tripped w t).current_force ≡ zero_f = unfold tripped in rw late refl in
      (gone, rw (neutral_byte (tripped w t).current_force gone) refl)

  expired_pump :
      (e : FfbEngine) (t : ℕ)
      → e.output.last_update + pos_part e.output.options.watchdog < t
      → let w' = (pump_once transport e none t).0.output in
        (w'.current_force ≡ zero_f) × (w'.written ≡ constant_force 128 ∷ e.output.written)
  unfolding pump_once pumped
  expired_pump e t late = expired_tick e.output t (lt→ltb _ t late)

  -- A source that fell silent loses its force: after any silent pumps, if the last of them comes more
  -- than the watchdog after the last frame, the force is 0 and the last report is the neutral one,
  -- whichever writes fail.
  pub silent_source-neutral :
      (e : FfbEngine) (ts : List ℕ) (t : ℕ)
      → e.output.last_update + pos_part e.output.options.watchdog < t
      → let w' = (pump_all transport e (silent (ts ++ t ∷ []))).output in
        (w'.current_force ≡ zero_f)
        × ((earlier : List Report) × (w'.written ≡ constant_force 128 ∷ earlier))
  unfolding silent pump_all
  silent_source-neutral e [] t late =
      let (gone, said) = expired_pump e t late in (gone, (e.output.written, said))
  silent_source-neutral e (t' ∷ ts) t late =
      let (same, options) = silent_keeps e t' in
      silent_source-neutral (pump_once transport e none t').0 ts t (rw (same, options) late)
