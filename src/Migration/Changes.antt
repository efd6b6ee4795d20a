-- ===== src/Migration/Changes.antt =====
-- internal/system/migration_journal_windows.go: the operations that change the journal of a migration that
-- has begun.
use logi_mate.Base.{Bool, true, false, ◌||◌, Option, none, some, List, [], ◌∷◌, ◌++◌, if◌then◌else◌}
use logi_mate.Base.Results.{Result, ok, err}
use logi_mate.Base.Text.{Text, codes, to_lower, contains}
use logi_mate.Migration.{
  MigrationStep, MigrationResult, Directory, MigrationError, already_completed, write_migration,
  load_migration,
}

-- The operations that load a journal, change it and write it back.
unfoldable pub changed :
    Directory
    → Text
    → (MigrationResult → Result MigrationError MigrationResult)
    → Bool
    → Directory × Option MigrationError
unfolding load_migration write_migration
changed d id change wrote = elim (load_migration d id) [
  | err e ↦ (d, some e)
  | ok m ↦ elim (change m) [ err e ↦ (d, some e) | ok k ↦ write_migration d k wrote ]
]

abbrev pub is_legacy : Text × Text → Bool
is_legacy (service, inf) =
    let x = to_lower (service ++ (codes " " ++ inf)) in
    contains x (codes "wm") || contains x (codes "lgjoyhid")

abbrev any_legacy : List (Text × Text) → Bool
any_legacy [] = false
any_legacy (d ∷ ds) = is_legacy d || any_legacy ds

-- The mode that the drivers of the devices show.
unfoldable pub shown_mode : List (Text × Text) → Text
shown_mode [] = codes "KEIN LOGITECH WHEEL"
shown_mode (d ∷ ds) =
    if any_legacy (d ∷ ds) then codes "Logitech Legacy" else codes "Generic HID / Modern"

-- What the system tells at the start: an undetected profiler is no news.
pub record Surroundings : Type 0 where
  pub hvci : Bool
  pub preference : Text
  pub model : Text
  pub devices : List (Text × Text)
  pub profiler : Option Bool

abbrev pub running_from : Surroundings → Text → MigrationResult → MigrationResult
running_from e action m = record m {
  action = action;
  status = codes "running";
  snapshot = record {
    hvci = e.hvci;
    operating_preference = e.preference;
    wheel_model = e.model;
    active_mode = shown_mode e.devices;
    profiler_installed = elim e.profiler [ none ↦ m.snapshot.profiler_installed | some p ↦ p ];
  };
}

unfoldable pub mark_migration_running :
    Directory → Text → Text → Surroundings → Bool → Directory × Option MigrationError
unfolding changed
mark_migration_running d id action e wrote = changed d id (λ m. ok (running_from e action m)) wrote

abbrev pub with_step : MigrationStep → MigrationResult → Result MigrationError MigrationResult
with_step s m =
    if m.completed then err already_completed else ok (record m { steps = m.steps ++ (s ∷ []) })

unfoldable pub append_migration_step :
    Directory → Text → MigrationStep → Bool → Directory × Option MigrationError
unfolding changed
append_migration_step d id s wrote = changed d id (with_step s) wrote

abbrev pub finish : Bool → Text → Option Text → Text → MigrationResult → MigrationResult
finish success message cause now m = record m {
  completed = true;
  success = success;
  finished = now;
  message = message;
  status = if success then codes "success" else codes "failed";
  error = if success then [] else elim cause [ none ↦ m.error | some e ↦ e ];
}

unfoldable pub complete_migration :
    Directory → Text → Bool → Text → Option Text → Text → Bool → Directory × Option MigrationError
unfolding changed
complete_migration d id success message cause now wrote =
    changed d id (λ m. ok (finish success message cause now m)) wrote

unfoldable pub cancel_migration :
    Directory → Text → Text → Text → Bool → Directory × Option MigrationError
unfolding changed
cancel_migration d id reason now wrote =
    changed d id
      (λ m. ok (record m {
        completed = true;
        success = false;
        status = codes "cancelled";
        error = reason;
        finished = now;
      }))
      wrote
