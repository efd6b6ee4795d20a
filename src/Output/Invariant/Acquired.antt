-- ===== src/Output/Invariant/Acquired.antt =====
-- An acquisition and the first report of a start keep the invariant of the output package.
use logi_mate.Base.{ℕ, ◌≤◌, ◌<◌, ◌≡◌, inl, inr, Bool, true, false, none, some, arith, Bool-cases}
use logi_mate.Base.Int.{ℤ, pos, ◌≤ℤ◌}
use logi_mate.Base.Text.{Text}
use logi_mate.Base.Results.{Result, ok, err}
use logi_mate.Safety.{apply_ffb_slew}
use logi_mate.Safety.Slew.{apply_ffb_slew-between}
use logi_mate.Protocol.{Report}
use logi_mate.Protocol.Classic.{build_classic_fixed_loop_report}
use logi_mate.Output.State.{World, NativeOutputLeaseToken, OutputError, write_failed}
use logi_mate.Output.{StopResults, Target, token_for, acquire, release}
use logi_mate.Output.Worker.{send}
use logi_mate.Output.Start.{StartResults, begin_session, first_sent, abort_start}
use logi_mate.Output.Invariant.Parts.{Inv, safe_stop-Inv}

-- A lease was just acquired: nothing runs, and it may not be marked yet.
abbrev pub Acquired : World → NativeOutputLeaseToken → Bool → Type 0
Acquired w t motor =
    (w.worker ≡ none)
    × (w.timer ≡ false)
    × (w.lease ≡ some t)
    × (0 < t.generation)
    × (t.generation ≤ w.lease_generation)
    × (t.motor ≡ motor)

pub acquire-Acquired :
    (w : World) (target : Result OutputError Target) (purpose : Text) (motor mutex : Bool) (now : ℕ)
    (t : NativeOutputLeaseToken)
    → Inv w
    → (acquire w target purpose motor mutex now).1 ≡ ok t
    → w.worker ≡ none
    → Acquired (acquire w target purpose motor mutex now).0 t motor
unfolding acquire token_for
acquire-Acquired w target purpose motor mutex now t v e idle = ground arith

pub acquire_refused :
    (w : World) (target : Result OutputError Target) (purpose : Text) (motor mutex : Bool) (now : ℕ)
    (x : OutputError)
    → (acquire w target purpose motor mutex now).1 ≡ err x
    → (acquire w target purpose motor mutex now).0 ≡ w
unfolding acquire
acquire_refused w target purpose motor mutex now x e = ground arith

pub give_back-Inv :
    (w : World) (t : NativeOutputLeaseToken) (motor : Bool) (now : ℕ)
    → Acquired w t motor
    → Inv (release w t now).0
unfolding release
give_back-Inv w t motor now (idle, still, held, g, h, m) = ground arith

marked-Inv :
    (w : World) (t : NativeOutputLeaseToken) (motor : Bool)
    → Acquired w t motor
    → w.marker ≡ true
    → Inv w
marked-Inv w t motor (idle, still, held, g, h, m) marked = ground arith

begin_session-Inv :
    (w : World) (t : NativeOutputLeaseToken) (first percent slew : ℤ)
    → Acquired w t true
    → w.marker ≡ true
    → pos 0 ≤ℤ first
    → first ≤ℤ percent
    → percent ≤ℤ pos 30
    → pos 1 ≤ℤ slew
    → slew ≤ℤ pos 5
    → Inv (begin_session w t first percent slew)
unfolding begin_session
begin_session-Inv w t first percent slew (idle, still, held, g, h, m) marked a b c d e =
    ground arith

-- A first force lies between 0 and its target.
first_between :
    (percent slew : ℤ)
    → pos 1 ≤ℤ percent
    → percent ≤ℤ pos 30
    → pos 1 ≤ℤ slew
    → slew ≤ℤ pos 5
    → (pos 0 ≤ℤ (apply_ffb_slew (pos 0) percent slew).0)
      × ((apply_ffb_slew (pos 0) percent slew).0 ≤ℤ percent)
first_between percent slew a b c d =
    apply_ffb_slew-between (pos 0) percent slew (ground arith) (ground arith) (ground arith)
      (omega arith) (ground arith)

pub abort_start-Inv :
    (w : World) (t : NativeOutputLeaseToken) (results : StopResults) (cause : OutputError) (now : ℕ)
    → Acquired w t true
    → w.marker ≡ true
    → Inv (abort_start w t results cause now).0
unfolding abort_start
abort_start-Inv w t results cause now a marked =
    let (idle, still, held, g, h, m) = a in
    safe_stop-Inv w t false results now (marked-Inv w t true a marked) idle held

-- A report that the wheel took leaves the lease as it is.
pub send-Acquired :
    (w : World) (t : NativeOutputLeaseToken) (motor : Bool) (report : Report) (wrote : Bool)
    → Acquired w t motor
    → Acquired (send w report wrote) t motor
send-Acquired w t motor report true a = a
send-Acquired w t motor report false a = a

pub first_sent-Inv :
    (w : World) (t : NativeOutputLeaseToken) (report : Report) (percent slew : ℤ) (r : StartResults)
    (now : ℕ)
    → Acquired w t true
    → w.marker ≡ true
    → pos 1 ≤ℤ percent
    → percent ≤ℤ pos 30
    → pos 1 ≤ℤ slew
    → slew ≤ℤ pos 5
    → Inv (first_sent w t report percent slew r now).0
unfolding first_sent
first_sent-Inv w t report percent slew r now a marked low high slow fast =
    let (up, under) = first_between percent slew low high slow fast in
    elim (Bool-cases r.wrote_mode) [
      | inr e ↦ rw e (abort_start-Inv w t r.abort write_failed now a marked)
      | inl e ↦ elim (Bool-cases r.wrote_first) [
        | inr f ↦
            rw (e, f)
              (abort_start-Inv (send w (build_classic_fixed_loop_report false) true) t r.abort
                write_failed now a marked)
        | inl f ↦
            rw (e, f)
              (begin_session-Inv
                (send (send w (build_classic_fixed_loop_report false) true) report true) t
                (apply_ffb_slew (pos 0) percent slew).0 percent slew a marked up under high slow
                fast)
      ]
    ]
