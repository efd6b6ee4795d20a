-- ===== src/Output/Invariant/Operations.antt =====
-- The operations of the output package keep its invariant, whatever the system answers.
use logi_mate.Base.{
  ℕ, ◌≡◌, inl, inr, refl, Bool, true, false, Option, none, some, arith, Option-cases, Bool-cases,
}
use logi_mate.Base.Text.{Text, codes}
use logi_mate.Base.Results.{Result, ok, err}
use logi_mate.Output.State.{World, NativeOutputLeaseToken, OutputError}
use logi_mate.Output.{
  StopResults, Target, token_for, native_output_safe_stop_lease, release, best_effort_neutralize,
}
use logi_mate.Output.Coordinator.{
  Wait, EmergencyResults, stop_target, at_rest, emergency_after, released, release_after,
  native_output_emergency_stop, native_output_release, release_held, beside_worker, or_else,
}
use logi_mate.Output.Invariant.Parts.{Inv, safe_stop-Inv, safe_stop_unleased-Inv}
use logi_mate.Output.Invariant.Steps.{stop_session-Inv, stop_session-idle}

beside_worker-Inv :
    (w : World) (l : Option NativeOutputLeaseToken) (wrote : Bool)
    → Inv w
    → Inv (beside_worker w l wrote)
unfolding beside_worker best_effort_neutralize
beside_worker-Inv w none wrote v = v
beside_worker-Inv w (some l) wrote v = ground arith

stop_target_free-Inv :
    (w : World) (target : Result OutputError Target) (results : StopResults) (now : ℕ)
    → Inv w
    → w.worker ≡ none
    → w.lease ≡ none
    → Inv (stop_target w target results now).0
unfolding stop_target token_for
stop_target_free-Inv w (err e) results now v idle free = rw free (ground arith)
stop_target_free-Inv w (ok t) results now v idle free = rw free (
    safe_stop_unleased-Inv (record w { lease = none }) (token_for t 0 (codes "emergency") true)
      false results now (ground arith) idle refl refl)

stop_target-Inv :
    (w : World) (target : Result OutputError Target) (results : StopResults) (now : ℕ)
    → Inv w
    → w.worker ≡ none
    → Inv (stop_target w target results now).0
unfolding stop_target
stop_target-Inv w target results now v idle = elim (Option-cases w.lease) [
  | inl free ↦ stop_target_free-Inv w target results now v idle free
  | inr (held, e) ↦ rw e (
      safe_stop-Inv (record w { lease = some held }) held false results now (ground arith) idle
        refl)
]

emergency_after-Inv :
    (before : Option NativeOutputLeaseToken) (w : World) (e : Option OutputError)
    (r : EmergencyResults) (now : ℕ)
    → Inv w
    → (e ≡ none → w.worker ≡ none)
    → Inv (emergency_after before w e r now).0
unfolding emergency_after
emergency_after-Inv before w none r now v idle = stop_target-Inv w r.target r.stop now v (idle refl)
emergency_after-Inv before w (some x) r now v idle =
    beside_worker-Inv w (or_else before w.lease) r.stop.wrote v

pub emergency-Inv :
    (w : World) (r : EmergencyResults) (now : ℕ)
    → Inv w
    → Inv (native_output_emergency_stop w r now).0
unfolding native_output_emergency_stop
emergency-Inv w r now v = elim (Bool-cases (at_rest w r.data_dir)) [
  | inl e ↦ rw e v
  | inr e ↦ rw e (
      emergency_after-Inv w.lease _ _ r now (stop_session-Inv w true r.wait now v)
        (stop_session-idle w true r.wait now))
]

stop_target-idle :
    (w : World) (target : Result OutputError Target) (results : StopResults) (now : ℕ)
    → w.worker ≡ none
    → (stop_target w target results now).0.worker ≡ none
unfolding stop_target native_output_safe_stop_lease release
stop_target-idle w target results now idle = ground arith

emergency_after-idle :
    (before : Option NativeOutputLeaseToken) (w : World) (e : Option OutputError)
    (r : EmergencyResults) (now : ℕ)
    → (e ≡ none → w.worker ≡ none)
    → (emergency_after before w e r now).1 ≡ none
    → (emergency_after before w e r now).0.worker ≡ none
unfolding emergency_after
emergency_after-idle before w none r now idle done =
    stop_target-idle w r.target r.stop now (idle refl)
emergency_after-idle before w (some x) r now idle done = ground arith

at_rest-idle : (w : World) (data_dir : Text) → Inv w → at_rest w data_dir ≡ true → w.worker ≡ none
unfolding at_rest
at_rest-idle w data_dir v e = ground arith

-- An emergency stop without an error leaves no test running.
pub emergency-idle :
    (w : World) (r : EmergencyResults) (now : ℕ)
    → Inv w
    → (native_output_emergency_stop w r now).1 ≡ none
    → (native_output_emergency_stop w r now).0.worker ≡ none
unfolding native_output_emergency_stop
emergency-idle w r now v = elim (Bool-cases (at_rest w r.data_dir)) [
  | inl e ↦ rw e (λ done. at_rest-idle w r.data_dir v e)
  | inr e ↦ rw e (emergency_after-idle w.lease _ _ r now (stop_session-idle w true r.wait now))
]

release_held-Inv :
    (w : World) (results : StopResults) (now : ℕ)
    → Inv w
    → w.worker ≡ none
    → Inv (release_held w w.lease results now).0
unfolding release_held
release_held-Inv w results now v idle = elim (Option-cases w.lease) [
  | inl free ↦ rw free (ground arith)
  | inr (held, e) ↦ rw e (
      safe_stop-Inv (record w { lease = some held }) held false results now (ground arith) idle
        refl)
]

released-Inv : (w : World) (e : Option OutputError) → Inv w → Inv (released w e).0
unfolding released
released-Inv w none v = ground arith
released-Inv w (some x) v = v

release_after-Inv :
    (w : World) (e : Option OutputError) (results : StopResults) (now : ℕ)
    → Inv w
    → (e ≡ none → w.worker ≡ none)
    → Inv (release_after w e results now).0
unfolding release_after
release_after-Inv w none results now v idle =
    released-Inv _ _ (release_held-Inv w results now v (idle refl))
release_after-Inv w (some x) results now v idle = beside_worker-Inv w w.lease results.wrote v

pub release-Inv :
    (w : World) (wait : Wait) (results : StopResults) (now : ℕ)
    → Inv w
    → Inv (native_output_release w wait results now).0
unfolding native_output_release
release-Inv w wait results now v =
    release_after-Inv _ _ results now (stop_session-Inv w false wait now v)
      (stop_session-idle w false wait now)
