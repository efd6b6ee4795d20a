-- ===== src/Output/Leds.antt =====
-- internal/system/native_output_windows.go: the LED commands, NativeOutputSetLEDs and
-- NativeOutputPulseLEDs. Whether the wheel reports LEDs, and the results of opening, writing and
-- closing, are arguments.
use logi_mate.Base.{ℕ, ◌≡◌, Bool, true, false, not, ◌&&◌, Option, none, some, arith, if◌then◌else◌}
use logi_mate.Base.Int.{ℤ}
use logi_mate.Base.Text.{codes}
use logi_mate.Base.Results.{Result, ok, err}
use logi_mate.Protocol.{Report}
use logi_mate.Protocol.Classic.{BuildError, build_g27_led_report}
use logi_mate.Output.State.{
  World, NativeOutputLeaseToken, OutputError, transport_failed, write_failed, lease_kept,
  bad_target,
}
use logi_mate.Output.{Target, is_some, acquire, release, token_for}
use logi_mate.Output.Worker.{send}
use logi_mate.Output.Start.{
  record_native_output, range_write, range_with, native_output_apply_range,
}

-- The write of NativeOutputSetLEDs, if the wheel has LEDs.
unfoldable pub leds_write :
    World → Bool → Result BuildError Report → Bool → World × Option OutputError
unfolding range_write
leds_write w has_leds built wrote =
    if not has_leds
    then (w, some bad_target)
    else (let (w', failed) = range_write w built wrote in
        (w', if failed then some write_failed else none))

-- An error stays; without one, an unconfirmed release is the error.
abbrev pub joined : Option OutputError → Bool → Option OutputError
joined (some e) done = some e
joined none done = if done then none else some lease_kept

-- NativeOutputSetLEDs with what the acquisition returned.
unfoldable pub leds_with :
    World
    → Result OutputError NativeOutputLeaseToken
    → ℕ
    → Bool
    → Bool
    → ℕ
    → World × Option OutputError
unfolding record_native_output leds_write
leds_with w (err e) mask has_leds wrote now = (record_native_output w false true, some e)
leds_with w (ok t) mask has_leds wrote now =
    let (w1, failure) = leds_write w has_leds (build_g27_led_report mask) wrote in
    let (w2, done) = release w1 t now in
    let e = joined failure done in (record_native_output w2 false (is_some e), e)

unfoldable pub native_output_set_leds :
    World → Result OutputError Target → ℕ → Bool → Bool → Bool → ℕ → World × Option OutputError
unfolding leds_with
native_output_set_leds w target mask mutex has_leds wrote now =
    let (w1, lease) = acquire w target (codes "leds") false mutex now in
    leds_with w1 lease mask has_leds wrote now

pub record PulseResults : Type 0 where
  pub has_leds : Bool
  pub opened : Bool
  pub wrote_on : Bool
  pub wrote_off : Bool
  pub closed : Bool

-- The two writes of the pulse: the LEDs are only switched off if they could be switched on.
unfoldable pub pulse_write : World → Report → Report → PulseResults → World × Bool
pulse_write w on off r =
    (if r.wrote_on then send (send w on true) off r.wrote_off else w, r.wrote_on && r.wrote_off)

-- NativeOutputPulseLEDs from the reports on.
unfoldable pub pulse_built :
    World
    → NativeOutputLeaseToken
    → Result BuildError Report
    → Result BuildError Report
    → PulseResults
    → ℕ
    → World × Option OutputError
unfolding pulse_write record_native_output
pulse_built w t (err e) off r now = ((release w t now).0, some write_failed)
pulse_built w t (ok on) (err e) r now = ((release w t now).0, some write_failed)
pulse_built w t (ok on) (ok off) r now =
    if not r.opened
    then ((release w t now).0, some transport_failed)
    else (let (w1, wrote) = pulse_write w on off r in
        let (w2, done) = release w1 t now in
        let e = joined (if wrote && r.closed then none else some write_failed) done in
        (record_native_output w2 false (is_some e), e))

-- NativeOutputPulseLEDs with what the acquisition returned; a refused one is not recorded.
unfoldable pub pulse_with :
    World
    → Result OutputError NativeOutputLeaseToken
    → PulseResults
    → ℕ
    → World × Option OutputError
unfolding pulse_built
pulse_with w (err e) r now = (w, some e)
pulse_with w (ok t) r now =
    if not r.has_leds
    then ((release w t now).0, some bad_target)
    else pulse_built w t (build_g27_led_report 0x1F) (build_g27_led_report 0) r now

unfoldable pub native_output_pulse_leds :
    World → Result OutputError Target → Bool → PulseResults → ℕ → World × Option OutputError
unfolding pulse_with
native_output_pulse_leds w target mutex r now =
    let (w1, lease) = acquire w target (codes "led-ping") false mutex now in
    pulse_with w1 lease r now

-- What the commands without a motor leave alone.
pub record MotorUntouched (w w' : World) : Type 0 where
  pub same_lease : w'.lease ≡ w.lease
  pub same_marker : w'.marker ≡ w.marker
  pub same_worker : w'.worker ≡ w.worker
  pub same_timer : w'.timer ≡ w.timer
  pub same_session : w'.ffb ≡ w.ffb

-- Each command without a motor, whatever its arguments and results, leaves the lease as it found
-- it, free or held, and the recovery marker, the running force test with its status, and the timer.
pub motorless_commands-MotorUntouched :
    (w : World) (target : Result OutputError Target) (degrees : ℤ) (mask : ℕ)
    (mutex has_leds wrote : Bool) (r : PulseResults) (now : ℕ)
    → MotorUntouched w (native_output_apply_range w target degrees mutex wrote now).0
      × MotorUntouched w (native_output_set_leds w target mask mutex has_leds wrote now).0
      × MotorUntouched w (native_output_pulse_leds w target mutex r now).0
unfolding native_output_apply_range range_with native_output_set_leds native_output_pulse_leds
    acquire release token_for
motorless_commands-MotorUntouched w target degrees mask mutex has_leds wrote r now =
    (ground arith, ground arith, ground arith)
