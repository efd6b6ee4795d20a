-- ===== src/Output/Invariant/Starts.antt =====
-- The operations that start output keep the invariant of the output package.
use logi_mate.Base.{
  ℕ, ◌≡◌, inl, inr, refl, Bool, true, false, Option, none, some, arith, Bool-cases, ◌&&◌,
}
use logi_mate.Base.Int.{ℤ, pos, ◌≤ℤ◌}
use logi_mate.Base.Text.{Text, codes}
use logi_mate.Base.Results.{Result, ok, err}
use logi_mate.Safety.{NativeFfbConfig}
use logi_mate.Safety.Bounds.{normalize-IsSafeConfig}
use logi_mate.Protocol.{Report}
use logi_mate.Protocol.Classic.{
  BuildError, within, native_manual_ffb_test_max_percent, build_classic_range_report,
}
use logi_mate.Output.State.{World, NativeOutputLeaseToken, OutputError}
use logi_mate.Output.{Target, acquire}
use logi_mate.Output.Start.{
  StartResults, mark_allowed, send_first, with_lease, start_with, start_after,
  start_native_constant_force_test, record_native_output, range_write, range_with,
  native_output_apply_range,
}
use logi_mate.Output.Invariant.Parts.{Inv}
use logi_mate.Output.Invariant.Operations.{emergency-Inv, emergency-idle}
use logi_mate.Output.Invariant.Acquired.{
  Acquired, acquire-Acquired, acquire_refused, give_back-Inv, send-Acquired, first_sent-Inv,
}

send_first-Inv :
    (w : World) (t : NativeOutputLeaseToken) (built : Result BuildError Report) (percent slew : ℤ)
    (r : StartResults) (now : ℕ)
    → Acquired w t true
    → w.marker ≡ true
    → pos 1 ≤ℤ percent
    → percent ≤ℤ pos 30
    → pos 1 ≤ℤ slew
    → slew ≤ℤ pos 5
    → Inv (send_first w t built percent slew r now).0
unfolding send_first
send_first-Inv w t (err e) percent slew r now a marked low high slow fast =
    elim (Bool-cases r.abort.cleared) [
      | inl e ↦ rw e (give_back-Inv (record w { marker = false }) t true now a)
      | inr e ↦ rw e (give_back-Inv w t true now a)
    ]
send_first-Inv w t (ok report) percent slew r now a marked low high slow fast =
    first_sent-Inv w t report percent slew r now a marked low high slow fast

with_lease-Inv :
    (w : World) (t : NativeOutputLeaseToken) (percent slew : ℤ) (r : StartResults) (now : ℕ)
    → Acquired w t true
    → pos 1 ≤ℤ percent
    → percent ≤ℤ pos 30
    → pos 1 ≤ℤ slew
    → slew ≤ℤ pos 5
    → Inv (with_lease w t percent slew r now).0
unfolding with_lease
with_lease-Inv w t percent slew r now a low high slow fast = elim (Bool-cases r.opened) [
  | inr e ↦ rw e (give_back-Inv w t true now a)
  | inl e ↦ elim (Bool-cases (mark_allowed t && r.marked)) [
    | inr f ↦ rw (e, f) (give_back-Inv w t true now a)
    | inl f ↦
        simp (e, f)
          (send_first-Inv (record w { marker = true }) t _ percent slew r now a refl low high slow
            fast)
  ]
]

start_with-Inv :
    (w : World) (got : Result OutputError NativeOutputLeaseToken) (percent slew : ℤ)
    (r : StartResults) (now : ℕ)
    → ((x : OutputError) → got ≡ err x → Inv w)
    → ((t : NativeOutputLeaseToken) → got ≡ ok t → Acquired w t true)
    → pos 1 ≤ℤ percent
    → percent ≤ℤ pos 30
    → pos 1 ≤ℤ slew
    → slew ≤ℤ pos 5
    → Inv (start_with w got percent slew r now).0
unfolding start_with
start_with-Inv w (err x) percent slew r now refused got low high slow fast = refused x refl
start_with-Inv w (ok t) percent slew r now refused got low high slow fast =
    with_lease-Inv w t percent slew r now (got t refl) low high slow fast

start_after-Inv :
    (w : World) (e : Option OutputError) (target : Result OutputError Target) (percent slew : ℤ)
    (r : StartResults) (now : ℕ)
    → Inv w
    → (e ≡ none → w.worker ≡ none)
    → pos 1 ≤ℤ slew
    → slew ≤ℤ pos 5
    → Inv (start_after w e target percent slew r now).0
unfolding start_after
start_after-Inv w (some x) target percent slew r now v idle slow fast = v
start_after-Inv w none target percent slew r now v idle slow fast =
    elim (Bool-cases (within (pos 1) (pos native_manual_ffb_test_max_percent) percent)) [
      | inr f ↦ rw f v
      | inl f ↦ rw f (
          start_with-Inv (acquire w target (codes "constant-force") true r.mutex now).0
            (acquire w target (codes "constant-force") true r.mutex now).1 percent slew r now
            (λ x e. rw (acquire_refused w target (codes "constant-force") true r.mutex now x e) v)
            (λ t e.
              acquire-Acquired w target (codes "constant-force") true r.mutex now t v e (idle refl))
            (ground arith) (ground arith) slow fast)
    ]

pub start_constant-Inv :
    (w : World) (target : Result OutputError Target) (percent : ℤ) (cfg : NativeFfbConfig)
    (r : StartResults) (now : ℕ)
    → Inv w
    → Inv (start_native_constant_force_test w target percent cfg r now).0
unfolding start_native_constant_force_test
start_constant-Inv w target percent cfg r now v =
    let safe = (normalize-IsSafeConfig cfg).slew in
    start_after-Inv _ _ target percent _ r now (emergency-Inv w r.emergency now v)
      (emergency-idle w r.emergency now v) safe.0 safe.1

-- The status of the output is no part of the invariant.
pub record-Inv :
    (w : World) (active failed : Bool) → Inv w → Inv (record_native_output w active failed)
unfolding record_native_output
record-Inv w active failed v = record {
  lease_ok = v.lease_ok;
  worker_ok = v.worker_ok;
  timer_ok = v.timer_ok;
}

-- Sending the range keeps what was acquired.
pub range_write-Acquired :
    (w : World) (t : NativeOutputLeaseToken) (motor : Bool) (built : Result BuildError Report)
    (wrote : Bool)
    → Acquired w t motor
    → Acquired (range_write w built wrote).0 t motor
unfolding range_write
range_write-Acquired w t motor (err e) wrote a = a
range_write-Acquired w t motor (ok report) wrote a = send-Acquired w t motor report wrote a

range_with-Inv :
    (w : World) (got : Result OutputError NativeOutputLeaseToken) (degrees : ℤ) (wrote : Bool)
    (now : ℕ)
    → ((x : OutputError) → got ≡ err x → Inv w)
    → ((t : NativeOutputLeaseToken) → got ≡ ok t → Acquired w t false)
    → Inv (range_with w got degrees wrote now).0
unfolding range_with
range_with-Inv w (err x) degrees wrote now refused got = record-Inv w false true (refused x refl)
range_with-Inv w (ok t) degrees wrote now refused got = record-Inv _ _ _ (
    give_back-Inv _ t false now
      (range_write-Acquired w t false (build_classic_range_report degrees) wrote (got t refl)))

-- A second lease is refused while a test runs, so a granted one finds none running.
pub acquire_idle :
    (w : World) (target : Result OutputError Target) (purpose : Text) (motor mutex : Bool) (now : ℕ)
    (t : NativeOutputLeaseToken)
    → Inv w
    → (acquire w target purpose motor mutex now).1 ≡ ok t
    → w.worker ≡ none
unfolding acquire
acquire_idle w target purpose motor mutex now t v e = ground arith

pub range-Inv :
    (w : World) (target : Result OutputError Target) (degrees : ℤ) (mutex wrote : Bool) (now : ℕ)
    → Inv w
    → Inv (native_output_apply_range w target degrees mutex wrote now).0
unfolding native_output_apply_range
range-Inv w target degrees mutex wrote now v =
    range_with-Inv _ _ degrees wrote now
      (λ x e. rw (acquire_refused w target (codes "range") false mutex now x e) v)
      (λ t e.
        acquire-Acquired w target (codes "range") false mutex now t v e
          (acquire_idle w target (codes "range") false mutex now t v e))
