-- ===== src/Output/State.antt =====
-- internal/system/output_lease_windows.go and native_output_windows.go: what the output package keeps in
-- its globals and on disk.
use logi_mate.Base.{ℕ, Bool, Option, List}
use logi_mate.Base.Int.{ℤ}
use logi_mate.Base.Text.{Text}
use logi_mate.Model.{ModelId}
use logi_mate.Manager.{Manager}
use logi_mate.Protocol.{Report}

pub record NativeOutputLeaseToken : Type 0 where
  pub generation : ℕ
  pub wheel_id : Text
  pub session_id : Text
  pub model : ModelId
  pub path : Text
  pub purpose : Text
  pub motor : Bool
  pub data_dir : Text

-- NativeOutputStatus; `failed` is whether the last error is set.
pub record NativeOutputStatus : Type 0 where
  pub active : Bool
  pub failed : Bool
  pub command_count : ℕ
  pub emergency_stops : ℕ
  pub watchdog_stops : ℕ

-- NativeFFBStatus, without names, times and configuration.
pub record NativeFfbStatus : Type 0 where
  pub active : Bool
  pub stopping : Bool
  pub faulted : Bool
  pub failed : Bool
  pub requested : ℤ
  pub applied : ℤ
  pub frames : ℕ
  pub slew_limited : ℕ
  pub effect_transitions : ℕ
  pub watchdog_stops : ℕ
  pub emergency_stops : ℕ
  pub generation : ℕ

-- The goroutine of a constant-force test, while its `done` channel is open: its lease, its status
-- generation, the force, and whether its `cancel` channel was closed.
pub record WorkerState : Type 0 where
  pub token : NativeOutputLeaseToken
  pub generation : ℕ
  pub current : ℤ
  pub target : ℤ
  pub slew : ℤ
  pub cancelled : Bool

pub record World : Type 0 where
  pub lease_generation : ℕ
  pub lease : Option NativeOutputLeaseToken
  pub marker : Bool
  pub output : NativeOutputStatus
  pub output_lease : Option NativeOutputLeaseToken
  pub timer : Bool
  pub ffb : NativeFfbStatus
  pub ffb_generation : ℕ
  pub ffb_lease : Option NativeOutputLeaseToken
  pub worker : Option WorkerState
  pub manager : Manager
  pub sent : List Report

pub data OutputError : Type 0 where
  bad_target lease_taken mutex_taken transport_failed marker_failed write_failed marker_kept
        lease_kept bad_percent worker_stuck worker_unproven no_target :
      OutputError
