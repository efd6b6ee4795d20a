-- ===== src/Migration/Recovery.antt =====
-- RecoverInterruptedMigrations of internal/system/migration_journal_windows.go: at a start a journal
-- that was left unresolved is completed exactly if the devices show its target. `shows` is what the
-- fresh scan for a journal gives, and `wrote` whether the file of an id could be written.
use logi_mate.Base.{
  Bool, true, false, not, ◌&&◌, ◌||◌, Option, none, some, List, [], ◌∷◌, ◌++◌, if◌then◌else◌,
}
use logi_mate.Base.Results.{ok, err}
use logi_mate.Base.Text.{Text, codes, is_empty, text_eq, to_lower, contains}
use logi_mate.Migration.{
  MigrationResult, Directory, MigrationError, still_unresolved, list_incomplete_migrations, listed,
}
use logi_mate.Migration.Changes.{complete_migration}

pub record TargetState : Type 0 where
  pub detection_error : Text
  pub actionable_wheel : Bool
  pub active_mode : Text
  pub preference : Text

unfoldable pub migration_target_satisfied : TargetState → MigrationResult → Bool × Text
unfolding contains text_eq
migration_target_satisfied s m =
    let a = to_lower m.action in
    if not (is_empty s.detection_error) || not s.actionable_wheel
    then (false, codes "no state")
    else if contains a (codes "setup-modern")
    then (
      contains (to_lower s.active_mode) (codes "generic hid")
          && text_eq s.preference (codes "modern"),
      s.active_mode,
    )
    else if contains a (codes "setup-legacy")
    then (
      contains (to_lower s.active_mode) (codes "legacy") && text_eq s.preference (codes "legacy"),
      s.active_mode,
    )
    else (false, codes "no action")

abbrev pub satisfied : (MigrationResult → TargetState) → MigrationResult → Bool
satisfied shows m = (migration_target_satisfied (shows m) m).0

module _ (shows : MigrationResult → TargetState) (wrote : Text → Bool) (now : Text) where
  abbrev pub target_message : Text → Text
  target_message detail =
      codes "Unterbrochene Migration beim n"
      ++ (0xC3 ∷ 0xA4 ∷ [])
      ++ codes "chsten Start anhand des verifizierten Zielzustands abgeschlossen: "
      ++ detail

  abbrev pub completed_at : Directory → MigrationResult → Directory × Option MigrationError
  completed_at d m =
      complete_migration d m.id true (target_message (migration_target_satisfied (shows m) m).1)
        none now (wrote m.id)

  -- The loop over the pending journals; the first write that fails ends it.
  unfoldable pub recover_each : Directory → List MigrationResult → Directory × Option MigrationError
  recover_each d [] = (d, none)
  recover_each d (m ∷ ms) =
      let (d', failed) = completed_at d m in
      let skipped = recover_each d ms in
      let rest = recover_each d' ms in
      if satisfied shows m then elim failed [ some e ↦ (d', some e) | none ↦ rest ] else skipped

  -- The result after the loop; the error of the second listing is dropped.
  unfoldable pub recovered : Directory × Option MigrationError → Directory × Option MigrationError
  unfolding listed
  recovered (d, some e) = (d, some e)
  recovered (d, none) = elim (listed d) [ [] ↦ (d, none) | m ∷ ms ↦ (d, some still_unresolved) ]

  unfoldable pub recover_interrupted_migrations : Directory → Directory × Option MigrationError
  unfolding recover_each recovered
  recover_interrupted_migrations d = elim (list_incomplete_migrations d) [
    | err e ↦ (d, some e)
    | ok pending ↦ recovered (recover_each d pending)
  ]
