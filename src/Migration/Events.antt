-- ===== src/Migration/Events.antt =====
-- Runs of internal/system/migration_journal_windows.go, by several programs that share the directory: each
-- operation is one step.
use logi_mate.Base.{◌≡◌, Bool, false, ◌&&◌, ◌||◌, Option, List, [], ◌∷◌}
use logi_mate.Base.Text.{Text, text_eq}
use logi_mate.Migration.{MigrationStep, MigrationResult, Directory, listed, begin_migration}
use logi_mate.Migration.Changes.{
  Surroundings, mark_migration_running, append_migration_step, complete_migration, cancel_migration,
}
use logi_mate.Migration.Recovery.{TargetState, satisfied, recover_interrupted_migrations}

pub data Event : Type 0 where
  begin : Text → Text → Text → Bool → Bool → (Text → Bool) → Event
  mark : Text → Text → Surroundings → Bool → Event
  append : Text → MigrationStep → Bool → Event
  complete : Text → Bool → Text → Option Text → Text → Bool → Event
  cancel : Text → Text → Text → Bool → Event
  recover : (MigrationResult → TargetState) → (Text → Bool) → Text → Event

unfoldable pub step : Directory → Event → Directory
step d (begin id action now made wrote expired) =
    (begin_migration d id action now made wrote expired).0
step d (mark id action e wrote) = (mark_migration_running d id action e wrote).0
step d (append id s wrote) = (append_migration_step d id s wrote).0
step d (complete id success message cause now wrote) =
    (complete_migration d id success message cause now wrote).0
step d (cancel id reason now wrote) = (cancel_migration d id reason now wrote).0
step d (recover shows wrote now) = (recover_interrupted_migrations shows wrote now d).0

unfoldable pub run : Directory → List Event → Directory
unfolding step
run d [] = d
run d (e ∷ es) = run (step d e) es

-- The journals of a list that have an id and whose target the devices show.
abbrev pub any_satisfied : (MigrationResult → TargetState) → Text → List MigrationResult → Bool
any_satisfied shows id [] = false
any_satisfied shows id (m ∷ ms) = text_eq m.id id && satisfied shows m || any_satisfied shows id ms

-- An event that gives a journal no end: it begins another, or ends one with another id, or is a
-- recovery at which the devices do not show the target of the journal.
abbrev pub LeavesOpen : Text → Directory → Event → Type 0
LeavesOpen id d (begin i action now made wrote expired) = text_eq i id ≡ false
LeavesOpen id d (mark i action e wrote) = Unit {0}
LeavesOpen id d (append i s wrote) = Unit {0}
LeavesOpen id d (complete i success message cause now wrote) = text_eq i id ≡ false
LeavesOpen id d (cancel i reason now wrote) = text_eq i id ≡ false
LeavesOpen id d (recover shows wrote now) = any_satisfied shows id (listed d) ≡ false

abbrev pub AllLeaveOpen : Text → Directory → List Event → Type 0
AllLeaveOpen id d [] = Unit {0}
AllLeaveOpen id d (e ∷ es) = LeavesOpen id d e × AllLeaveOpen id (step d e) es
