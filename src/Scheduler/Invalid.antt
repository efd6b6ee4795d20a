-- ===== src/Scheduler/Invalid.antt =====
-- internal/wheelengine/ffb_scheduler.go and native_protocol.go: what a frame with a value that is not a
-- number does. No comparison of Clamp holds for it, so it passes every limit.
use logi_mate.Base.{ℕ, zero, suc, ◌≡◌, refl, ◌∙◌, Bool, true, false, Option, none, List, [], ◌∷◌}
use logi_mate.Base.Float.{Float64, nan, zero_f, eq_f, neg_f, ◌+f◌, ◌-f◌, ◌*f◌}
use logi_mate.Base.Float.Nan.{add_nan, clamp_nan}
use logi_mate.Protocol.{Report, constant_force, stop_all_effects}
use logi_mate.Protocol.Torque.{
  ForceFrame, resolve_force_frame, minus_one_f, one_f, torque_to_wheel_byte, torque_byte_of_nan,
  torque_byte_neutral,
}
use logi_mate.Scheduler.{
  WheelOutput, force_towards, step_toward_locked, stepped, write_error, write_locked,
  write_current_force_locked, set_force, panic_round, panic_rounds, panic_loop, panic_output,
}

-- A frame whose constant part is not a number resolves to no number.
resolve_nan :
    (f : ForceFrame) (gain : Float64) → f.constant ≡ nan → resolve_force_frame f gain ≡ nan
unfolding resolve_force_frame ◌+f◌ ◌*f◌
resolve_nan f gain h = rw h (clamp_nan minus_one_f one_f)

-- A step from a force that is no number, or towards one, ends at no number.
step_from_nan :
    (w : WheelOutput) (target : Float64)
    → w.current_force ≡ nan
    → (stepped w target).current_force ≡ nan
unfolding stepped step_toward_locked ◌+f◌ ◌-f◌
step_from_nan w target h = rw h refl

towards_nan : (w : WheelOutput) → force_towards w nan ≡ nan
unfolding ◌-f◌ ◌+f◌
towards_nan w =
    let m = w.options.max_slew_per_tick in rw (clamp_nan (neg_f m) m) (add_nan w.current_force)

step_to_nan : (w : WheelOutput) → (stepped w nan).current_force ≡ nan
unfolding stepped step_toward_locked ◌-f◌
step_to_nan w = rw (clamp_nan minus_one_f one_f, towards_nan w) refl

-- So many copies of a report on top of others.
abbrev pub repeated : ℕ → Report → List Report → List Report
repeated zero r rest = rest
repeated (suc n) r rest = repeated n r (r ∷ rest)

neutral_compare : (a : Float64) → a ≡ nan → eq_f a zero_f ≡ false
neutral_compare a h = rw h refl

byte_of_nan : (a : Float64) → a ≡ nan → torque_to_wheel_byte a ≡ 0
byte_of_nan a h = rw h torque_byte_of_nan

module _ (transport : ℕ → Bool) (works : (n : ℕ) → transport n ≡ true) (now : ℕ) where
  no_error : (n : ℕ) → write_error transport n ≡ none
  no_error n = rw (works n) refl

  -- The write of a force that is no number.
  write_of_nan :
      (w : WheelOutput)
      → w.current_force ≡ nan
      → (write_current_force_locked transport w now).0.written ≡ constant_force 0 ∷ w.written
  unfolding write_current_force_locked write_locked
  write_of_nan w h = rw (byte_of_nan w.current_force h) refl

  write_works : (w : WheelOutput) → (write_current_force_locked transport w now).1 ≡ none
  unfolding write_current_force_locked write_locked
  write_works w = no_error w.writes

  round_works :
      (w : WheelOutput) (step rest : WheelOutput × Option ℕ)
      → step.1 ≡ none
      → panic_round false w step rest ≡ rest
  round_works w step rest h = rw h refl

  -- A round of the loop from a force that is no number: it writes, and the loop goes on.
  next_round :
      (n : ℕ) (w : WheelOutput)
      → w.current_force ≡ nan
      → panic_loop transport (suc n) w now
        ≡ panic_loop transport n (write_current_force_locked transport (stepped w zero_f) now).0 now
  unfolding panic_loop
  next_round n w h =
      rw (neutral_compare w.current_force h) (round_works w _ _ (write_works (stepped w zero_f)))

  kept_force :
      (w : WheelOutput)
      → (write_current_force_locked transport w now).0.current_force ≡ w.current_force
  unfolding write_current_force_locked write_locked
  kept_force w = refl

  kept_written : (w : WheelOutput) (target : Float64) → (stepped w target).written ≡ w.written
  unfolding stepped step_toward_locked
  kept_written w target = refl

  loop_from_nan :
      (n : ℕ) (w : WheelOutput)
      → w.current_force ≡ nan
      → (panic_loop transport n w now).0.written ≡ repeated n (constant_force 0) w.written
  loop_from_nan zero w h = unfold panic_loop in refl
  loop_from_nan (suc n) w h =
      let v = stepped w zero_f in
      let gone : v.current_force ≡ nan = step_from_nan w zero_f h in
      let rest =
        loop_from_nan n (write_current_force_locked transport v now).0 (kept_force v ∙ gone) in
      rw (next_round n w h, rest, write_of_nan v gone, kept_written w zero_f) refl

  last_write :
      (w : WheelOutput)
      → (write_current_force_locked transport (record w { current_force = zero_f }) now).0.written
        ≡ constant_force 128 ∷ w.written
  unfolding write_current_force_locked write_locked
  last_write w = rw (torque_byte_neutral false) refl

  panic_from_nan :
      (w : WheelOutput)
      → w.current_force ≡ nan
      → (panic_output transport w now).0.written
        ≡ constant_force 128
          ∷ repeated panic_rounds (constant_force 0) (stop_all_effects ∷ w.written)
  unfolding panic_output
  panic_from_nan w h =
      let (w1, e1) = write_locked transport w stop_all_effects now in
      let (w2, e2) = panic_loop transport panic_rounds w1 now in
      let rest = loop_from_nan panic_rounds w1 (unfold write_locked in h) in
      rw (last_write w2, rest) (unfold write_locked in refl)

module _ (transport : ℕ → Bool) where
  -- The forces of some frames, each with its time, one after the other.
  pub set_forces : WheelOutput → List (Float64 × ℕ) → WheelOutput
  set_forces w [] = w
  set_forces w ((torque, now) ∷ fs) = set_forces (set_force transport w torque now).0 fs

  set_from_nan :
      (w : WheelOutput) (torque : Float64) (now : ℕ)
      → w.current_force ≡ nan
      → (set_force transport w torque now).0.current_force ≡ nan
  unfolding set_force write_current_force_locked write_locked
  set_from_nan w torque now h = step_from_nan w torque h

  set_to_nan : (w : WheelOutput) (now : ℕ) → (set_force transport w nan now).0.current_force ≡ nan
  unfolding set_force write_current_force_locked write_locked
  set_to_nan w now = step_to_nan w

  stays_nan :
      (w : WheelOutput) (fs : List (Float64 × ℕ))
      → w.current_force ≡ nan
      → (set_forces w fs).current_force ≡ nan
  unfolding set_forces
  stays_nan w [] h = h
  stays_nan w ((torque, now) ∷ fs) h =
      stays_nan (set_force transport w torque now).0 fs (set_from_nan w torque now h)

  -- A frame whose constant part is not a number, then any frames, then a panic, with a transport
  -- that works: the force is still no number before the panic, and the panic writes 100000 reports of
  -- the byte 0, full force to one side, between the stop of all effects and the neutral report.
  pub invalid_frame-panic :
      (works : (n : ℕ) → transport n ≡ true) (w : WheelOutput) (f : ForceFrame) (gain : Float64)
      (fs : List (Float64 × ℕ)) (now : ℕ)
      → f.constant ≡ nan
      → let v = set_forces (set_force transport w (resolve_force_frame f gain) now).0 fs in
        (v.current_force ≡ nan)
        × ((panic_output transport v now).0.written
            ≡ constant_force 128
              ∷ repeated panic_rounds (constant_force 0) (stop_all_effects ∷ v.written))
  invalid_frame-panic works w f gain fs now h =
      let v1 = (set_force transport w (resolve_force_frame f gain) now).0 in
      let bad : v1.current_force ≡ nan = rw (resolve_nan f gain h) (set_to_nan w now) in
      let gone = stays_nan v1 fs bad in
      (gone, panic_from_nan transport works now (set_forces v1 fs) gone)
