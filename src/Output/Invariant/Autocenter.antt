-- ===== src/Output/Invariant/Autocenter.antt =====
-- The autocenter test keeps the invariant of the output package.
use logi_mate.Base.{ℕ, ◌≡◌, inl, inr, refl, true, Option, none, some, arith, Bool-cases, ◌&&◌}
use logi_mate.Base.Int.{ℤ, pos}
use logi_mate.Base.Text.{codes}
use logi_mate.Base.Results.{Result, ok, err}
use logi_mate.Protocol.{Report}
use logi_mate.Protocol.Classic.{BuildError, within}
use logi_mate.Output.State.{World, NativeOutputLeaseToken, OutputError, write_failed}
use logi_mate.Output.{is_some, StopResults, Target, acquire}
use logi_mate.Output.Start.{StartResults, mark_allowed, abort_start, record_native_output}
use logi_mate.Output.Autocenter.{
  autocenter_sent, autocenter_failed, autocenter_with, autocenter_from, autocenter_after,
  native_output_test_autocenter,
}
use logi_mate.Output.Invariant.Parts.{Inv}
use logi_mate.Output.Invariant.Operations.{emergency-Inv, emergency-idle}
use logi_mate.Output.Invariant.Acquired.{
  Acquired, acquire-Acquired, acquire_refused, give_back-Inv, abort_start-Inv,
}
use logi_mate.Output.Invariant.Starts.{record-Inv}

autocenter_sent-Inv :
    (w : World) (t : NativeOutputLeaseToken) (report : Report)
    → Acquired w t true
    → w.marker ≡ true
    → Inv (autocenter_sent w t report)
unfolding autocenter_sent record_native_output
autocenter_sent-Inv w t report (idle, still, held, g, h, m) marked = record {
  lease_ok = ground arith;
  worker_ok = ground arith;
  timer_ok = (idle, t, held, refl, m);
}

autocenter_failed-Inv :
    (w : World) (t : NativeOutputLeaseToken) (results : StopResults) (now : ℕ)
    → Acquired w t true
    → w.marker ≡ true
    → Inv (autocenter_failed w t results now).0
unfolding autocenter_failed
autocenter_failed-Inv w t results now a marked =
    let (w', e) = abort_start w t results write_failed now in
    record-Inv w' (is_some w'.lease) true (abort_start-Inv w t results write_failed now a marked)

autocenter_with-Inv :
    (w : World) (t : NativeOutputLeaseToken) (built : Result BuildError Report) (r : StartResults)
    (now : ℕ)
    → Acquired w t true
    → Inv (autocenter_with w t built r now).0
unfolding autocenter_with
autocenter_with-Inv w t (err e) r now a = give_back-Inv w t true now a
autocenter_with-Inv w t (ok report) r now a = elim (Bool-cases (mark_allowed t && r.marked)) [
  | inr e ↦ rw e (give_back-Inv w t true now a)
  | inl e ↦ elim (Bool-cases r.wrote_first) [
    | inr f ↦ simp (e, f) (autocenter_failed-Inv (record w { marker = true }) t r.abort now a refl)
    | inl f ↦ simp (e, f) (autocenter_sent-Inv (record w { marker = true }) t report a refl)
  ]
]

autocenter_from-Inv :
    (w : World) (got : Result OutputError NativeOutputLeaseToken) (percent ramp : ℤ)
    (r : StartResults) (now : ℕ)
    → ((x : OutputError) → got ≡ err x → Inv w)
    → ((t : NativeOutputLeaseToken) → got ≡ ok t → Acquired w t true)
    → Inv (autocenter_from w got percent ramp r now).0
unfolding autocenter_from
autocenter_from-Inv w (err x) percent ramp r now refused got = refused x refl
autocenter_from-Inv w (ok t) percent ramp r now refused got =
    autocenter_with-Inv w t _ r now (got t refl)

autocenter_after-Inv :
    (w : World) (e : Option OutputError) (target : Result OutputError Target) (percent ramp : ℤ)
    (r : StartResults) (now : ℕ)
    → Inv w
    → (e ≡ none → w.worker ≡ none)
    → Inv (autocenter_after w e target percent ramp r now).0
unfolding autocenter_after
autocenter_after-Inv w (some x) target percent ramp r now v idle = v
autocenter_after-Inv w none target percent ramp r now v idle =
    elim (Bool-cases (within (pos 0) (pos 0) percent)) [
      | inl f ↦ rw f v
      | inr f ↦ rw f (
          autocenter_from-Inv (acquire w target (codes "autocenter-test") true r.mutex now).0
            (acquire w target (codes "autocenter-test") true r.mutex now).1 percent ramp r now
            (λ x e. rw (acquire_refused w target (codes "autocenter-test") true r.mutex now x e) v)
            (λ t e.
              acquire-Acquired w target (codes "autocenter-test") true r.mutex now t v e
                (idle refl)))
    ]

pub autocenter-Inv :
    (w : World) (target : Result OutputError Target) (percent ramp : ℤ) (r : StartResults) (now : ℕ)
    → Inv w
    → Inv (native_output_test_autocenter w target percent ramp r now).0
unfolding native_output_test_autocenter
autocenter-Inv w target percent ramp r now v =
    autocenter_after-Inv _ _ target percent ramp r now (emergency-Inv w r.emergency now v)
      (emergency-idle w r.emergency now v)
