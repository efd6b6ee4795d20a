-- ===== src/Scheduler/Panic.antt =====
-- internal/wheelengine/ffb_scheduler.go, WheelOutput.Panic: what a panic writes, and how it ends.
use mathlib.Core.List.{append_assoc}
use logi_mate.Base.{
  ℕ, zero, suc, ◌+◌, ◌≤◌, ◌≡◌, refl, sym, ap, ◌∙◌, Bool, true, false, Option, none, some, List, [],
  ◌∷◌, ◌++◌, length, length-append, All, arith,
}
use logi_mate.Base.Float.{zero_f, eq_f}
use logi_mate.Protocol.{Report, constant_force, stop_all_effects}
use logi_mate.Protocol.Torque.{torque_to_wheel_byte, torque_byte_bounded, torque_byte_neutral}
use logi_mate.Scheduler.{
  WheelOutput, write_locked, write_current_force_locked, stepped, step_toward_locked, write_error,
  noted, panic_round, panic_loop, panic_rounds, panic_output,
}

-- A report of a constant force.
abbrev pub IsForceReport : Report → Type 0
IsForceReport r = (b : ℕ) × (r ≡ constant_force b) × (b ≤ 255)

noted-append : (e : Option ℕ) (xs ys : List ℕ) → noted e (xs ++ ys) ≡ noted e xs ++ ys
noted-append none xs ys = refl
noted-append (some e) xs ys = refl

module _ (transport : ℕ → Bool) where
  -- The numbers of the writes that fail, of so many writes from a number on.
  pub failures : ℕ → ℕ → List ℕ
  failures from zero = []
  failures from (suc n) = noted (write_error transport from) (failures (suc from) n)

  failures-add : (from n m : ℕ) → failures from (n + m) ≡ failures from n ++ failures (from + n) m
  unfolding failures
  failures-add from zero m =
      let left : 0 + m ≡ m = omega arith in
      let right : from + 0 ≡ from = omega arith in rw (left, right) refl
  failures-add from (suc n) m =
      let left : suc n + m ≡ suc (n + m) = omega arith in
      let right : from + suc n ≡ suc from + n = omega arith in
      rw (left, right, failures-add (suc from) n m) (noted-append (write_error transport from) _ _)

forces_snoc :
    (rs : List Report) (r : Report)
    → All IsForceReport rs
    → IsForceReport r
    → All IsForceReport (rs ++ r ∷ [])
forces_snoc [] r h f = (f, tt)
forces_snoc (x ∷ xs) r h f = (h.0, forces_snoc xs r h.1 f)

-- From `w` to `w'` some reports of a constant force were written, one after the other.
pub record Forced (transport : ℕ → Bool) (w w' : WheelOutput) (e : Option ℕ) (most : ℕ)
    : Type 0 where
  pub reports : List Report
  pub all_written : w'.written ≡ reports ++ w.written
  pub counted : w'.writes ≡ w.writes + length reports
  pub bounded : length reports ≤ most
  pub forces : All IsForceReport reports
  pub errors : noted e [] ≡ failures transport w.writes (length reports)

module _ (transport : ℕ → Bool) where
  nothing-Forced : (w : WheelOutput) (most : ℕ) → Forced transport w w none most
  unfolding failures
  nothing-Forced w most = record {
    reports = [];
    all_written = refl;
    counted = omega arith;
    bounded = omega arith;
    forces = tt;
    errors = refl;
  }

  panic_round-Forced :
      (done : Bool) (w w' : WheelOutput) (e : Option ℕ) (rest : WheelOutput × Option ℕ) (r : Report)
      (n : ℕ)
      → IsForceReport r
      → w'.written ≡ r ∷ w.written
      → w'.writes ≡ suc w.writes
      → e ≡ write_error transport w.writes
      → Forced transport w' rest.0 rest.1 n
      → Forced transport w
          (panic_round done w (w', e) rest).0
          (panic_round done w (w', e) rest).1
          (suc n)
  unfolding failures
  panic_round-Forced true w w' e rest r n force text count error h = nothing-Forced w (suc n)
  panic_round-Forced false w w' (some x) rest r n force text count error h = record {
    reports = r ∷ [];
    all_written = text;
    counted = omega (arith, count);
    bounded = omega arith;
    forces = (force, tt);
    errors = rw⁻¹ error refl;
  }
  panic_round-Forced false w w' none rest r n force text count error h = record {
    reports = h.reports ++ r ∷ [];
    all_written = h.all_written ∙ rw text (sym (append_assoc h.reports (r ∷ []) w.written));
    counted = omega (arith, count, h.counted, length-append h.reports (r ∷ []));
    bounded = omega (arith, h.bounded, length-append h.reports (r ∷ []));
    forces = forces_snoc h.reports r h.forces force;
    errors =
        let longer : length (h.reports ++ r ∷ []) ≡ suc (length h.reports) =
          omega (arith, length-append h.reports (r ∷ [])) in
        h.errors ∙ rw (longer, sym error, count) refl;
  }

  panic_loop-Forced :
      (n : ℕ) (w : WheelOutput) (now : ℕ)
      → Forced transport w (panic_loop transport n w now).0 (panic_loop transport n w now).1 n
  unfolding panic_loop stepped write_current_force_locked write_locked step_toward_locked
  panic_loop-Forced zero w now = nothing-Forced w zero
  panic_loop-Forced (suc n) w now =
      let (w', e) = write_current_force_locked transport (stepped w zero_f) now in
      let b = torque_to_wheel_byte (stepped w zero_f).current_force in
      panic_round-Forced (eq_f w.current_force zero_f) w w' e (panic_loop transport n w' now)
        (constant_force b) n (b, refl, torque_byte_bounded _) refl refl refl
        (panic_loop-Forced n w' now)

-- How a panic ends, whatever the force was and whichever writes fail: the force is 0, the first
-- report stopped all effects, the last one is the neutral force, at most 100000 reports of a force lie
-- between them, and the errors are exactly the writes that failed, in their order.
pub record Neutral (transport : ℕ → Bool) (w w' : WheelOutput) (es : List ℕ) : Type 0 where
  pub between : List Report
  pub no_force : w'.current_force ≡ zero_f
  pub reported : w'.written ≡ constant_force 128 ∷ (between ++ stop_all_effects ∷ w.written)
  pub bounded : length between ≤ panic_rounds
  pub only_forces : All IsForceReport between
  pub all_errors : es ≡ failures transport w.writes (suc (length between + 1))

noted-noted : (e f : Option ℕ) → noted e (noted f []) ≡ noted e [] ++ noted f []
noted-noted none f = refl
noted-noted (some x) f = refl

module _ (transport : ℕ → Bool) where
  -- The last write of a panic, after its loop.
  finish-Neutral :
      (w w1 w2 w3 : WheelOutput) (e2 : Option ℕ)
      → w1.written ≡ stop_all_effects ∷ w.written
      → w1.writes ≡ suc w.writes
      → Forced transport w1 w2 e2 panic_rounds
      → w3.current_force ≡ zero_f
      → w3.written ≡ constant_force (torque_to_wheel_byte zero_f) ∷ w2.written
      → Neutral transport w w3 (
          noted
            (write_error transport w.writes)
            (noted e2 (noted (write_error transport w2.writes) [])))
  unfolding failures
  finish-Neutral w w1 w2 w3 e2 first one h none_left last = record {
    between = h.reports;
    no_force = none_left;
    reported = last ∙ rw (torque_byte_neutral false, h.all_written, first) refl;
    bounded = h.bounded;
    only_forces = h.forces;
    all_errors = ap (noted (write_error transport w.writes)) (
        noted-noted e2 (write_error transport w2.writes)
        ∙ rw (failures-add transport (suc w.writes) (length h.reports) 1, h.errors, h.counted, one)
            refl);
  }

  pub panic_output-Neutral :
      (w : WheelOutput) (now : ℕ)
      → Neutral transport w (panic_output transport w now).0 (panic_output transport w now).1
  unfolding panic_output write_current_force_locked write_locked
  panic_output-Neutral w now =
      let (w1, e1) = write_locked transport w stop_all_effects now in
      let (w2, e2) = panic_loop transport panic_rounds w1 now in
      finish-Neutral w w1 w2 (panic_output transport w now).0 e2 refl refl
        (panic_loop-Forced transport panic_rounds w1 now) refl refl
