-- ===== src/Output/Worker.antt =====
-- internal/system/native_ffb_windows.go: the goroutine of a constant-force test. A step of it is a
-- tick, its deadline, or the closed cancel channel; the results of the HID writes are arguments.
use logi_mate.Base.{
  ℕ, suc, Bool, true, false, not, ◌&&◌, Option, none, some, [], ◌∷◌, ◌++◌, ◌==◌, if◌then◌else◌,
}
use logi_mate.Base.Int.{ℤ, pos}
use logi_mate.Base.Results.{Result, ok, err}
use logi_mate.Safety.{apply_ffb_slew}
use logi_mate.Protocol.{Report}
use logi_mate.Protocol.Classic.{
  BuildError, build_classic_constant_force_slot_report, build_classic_effect_stop_report,
  build_native_stop_all_effects_report,
}
use logi_mate.Output.State.{
  World, NativeOutputLeaseToken, NativeFfbStatus, WorkerState, OutputError, write_failed,
}
use logi_mate.Output.{is_some, complete_native_motor_stop}

-- updateNativeFFBStatusGeneration: a status of another generation is left alone.
abbrev pub update_status : World → ℕ → (NativeFfbStatus → NativeFfbStatus) → World
update_status w g f =
    if w.ffb.generation == g && w.ffb_generation == g then record w { ffb = f w.ffb } else w

-- `tr.WriteReport(report)`.
abbrev pub send : World → Report → Bool → World
send w report wrote = if wrote then record w { sent = w.sent ++ report ∷ [] } else w

-- `stopSlot, _ := BuildClassicEffectStopReport(0)`
abbrev pub slot_stop : Result BuildError Report → Report
slot_stop (ok r) = r
slot_stop (err e) = []

pub record WorkerStopResults : Type 0 where
  pub wrote_slot : Bool
  pub wrote_all : Bool
  pub cleared : Bool

-- The status after `safeStop`; a confirmed stop also sets the applied force to 0.
abbrev pub stopped_status : Bool → Option OutputError → NativeFfbStatus → NativeFfbStatus
stopped_status timed e st = record st {
  stopping = false;
  faulted = is_some e;
  active = is_some e;
  applied = if is_some e then st.applied else pos 0;
  frames = suc st.frames;
  watchdog_stops = if timed then suc st.watchdog_stops else st.watchdog_stops;
  failed = is_some e;
}

-- The writes of `safeStop` and what they prove.
unfoldable pub safe_stop_writes :
    World → WorkerState → WorkerStopResults → ℕ → World × Option OutputError
safe_stop_writes w k results now =
    let w1 = send w (slot_stop (build_classic_effect_stop_report (pos 0))) results.wrote_slot in
    let w2 = send w1 build_native_stop_all_effects_report results.wrote_all in
    complete_native_motor_stop w2 k.token k.token.data_dir
      (if results.wrote_slot && results.wrote_all then none else some write_failed) results.cleared
      now

-- The deferred clean-up: the session forgets its lease unless that lease is still held.
unfoldable pub forget_lease :
    Option NativeOutputLeaseToken
    → Option NativeOutputLeaseToken
    → NativeOutputLeaseToken
    → Option NativeOutputLeaseToken
forget_lease none current t = none
forget_lease (some l) none t = if l.generation == t.generation then none else some l
forget_lease (some l) (some cur) t =
    if l.generation == t.generation && not (cur.generation == t.generation) then none else some l

unfoldable pub leave : World → WorkerState → World
unfolding forget_lease
leave w k = record w { worker = none; ffb_lease = forget_lease w.ffb_lease w.lease k.token }

-- `_ = safeStop(timed); return`, with the deferred calls.
unfoldable pub worker_stop : World → WorkerState → Bool → WorkerStopResults → ℕ → World
unfolding safe_stop_writes leave
worker_stop w k timed results now =
    let (w', e) = safe_stop_writes w k results now in
    leave (update_status w' k.generation (stopped_status timed e)) k

pub record TickResults : Type 0 where
  pub wrote : Bool
  pub stop : WorkerStopResults

abbrev pub mark_failed : NativeFfbStatus → NativeFfbStatus
mark_failed st = record st { failed = true }

abbrev pub ticked_status : ℤ → Bool → NativeFfbStatus → NativeFfbStatus
ticked_status next limited st = record st {
  applied = next;
  frames = suc st.frames;
  slew_limited = if limited then suc st.slew_limited else st.slew_limited;
}

-- What a tick does with the report that it built.
unfoldable pub tick_with :
    World → WorkerState → Result BuildError Report → ℤ → Bool → TickResults → ℕ → World
tick_with w k (err e) next limited results now =
    worker_stop (update_status w k.generation mark_failed) k false results.stop now
tick_with w k (ok report) next limited results now =
    if results.wrote
    then update_status (record (send w report true) { worker = some (record k { current = next }) })
        k.generation (ticked_status next limited)
    else worker_stop (update_status w k.generation mark_failed) k false results.stop now

unfoldable pub worker_tick : World → WorkerState → TickResults → ℕ → World
unfolding tick_with
worker_tick w k results now =
    let (next, limited) = apply_ffb_slew k.current k.target k.slew in
    tick_with w k (build_classic_constant_force_slot_report (pos 0) next true) next limited results
      now
