-- ===== src/Migration/Examples.antt =====
-- Runs of the migration journals.
use logi_mate.Base.{◌≡◌, refl, true, false, not, ◌&&◌, none, List, [], ◌∷◌, if◌then◌else◌}
use logi_mate.Base.Results.{is_ok}
use logi_mate.Base.Maps.{insert, lookup}
use logi_mate.Base.Text.{codes, text_eq, contains, has_prefix, lower}
use logi_mate.Migration.{
  MigrationResult, journal, damaged, Directory, begin_migration, begun, new_journal, listed,
  list_incomplete_migrations, incomplete,
}
use logi_mate.Migration.Recovery.{
  TargetState, migration_target_satisfied, recover_interrupted_migrations,
}
use logi_mate.Migration.Blocking.{
  remaining, first_journal, all_journals, any_incomplete, begin_migration_iff,
}
use logi_mate.Migration.Evidence.{StaysUnfinished}
use logi_mate.Migration.Events.{Event, append, complete, run}
use logi_mate.Migration.Runs.{run-StaysUnfinished}
use logi_mate.Migration.Completes.{recovery_completes}

abbrev modern : MigrationResult
modern = new_journal (codes "m1") (codes "setup-modern") (codes "2026-01-01")

abbrev one_left : Directory
one_left = (codes "m1", journal modern) ∷ []

abbrev shows_modern : MigrationResult → TargetState
shows_modern m = record {
  detection_error = [];
  actionable_wheel = true;
  active_mode = codes "Generic HID / Modern";
  preference = codes "modern";
}

-- A damaged file lets a migration begin beside an unresolved one.
damaged_unblocks :
    is_ok
      (begin_migration
        ((codes "m0", damaged) ∷ one_left)
        (codes "m2")
        (codes "setup-legacy")
        (codes "2026-01-02")
        true
        true
        (λ name. false)).1
    ≡ true
unfolding begin_migration begun listed list_incomplete_migrations incomplete
damaged_unblocks = refl

begin_migration_iff_example :
    (is_ok
        (begin_migration one_left
          (codes "m2")
          (codes "setup-legacy")
          (codes "t")
          true
          true
          (λ n. true)).1
      ≡ not (all_journals one_left && any_incomplete one_left))
    × ((begin_migration one_left
          (codes "m2")
          (codes "setup-legacy")
          (codes "t")
          true
          true
          (λ n. true)).0
        ≡ (if all_journals one_left && any_incomplete one_left
            then one_left
            else remaining
                (λ n. true)
                (insert
                  (codes "m2")
                  (journal (first_journal (codes "m2") (codes "setup-legacy") (codes "t")))
                  one_left)))
begin_migration_iff_example =
    begin_migration_iff one_left (codes "m2") (codes "setup-legacy") (codes "t") (λ n. true)

abbrev one_step : List Event
one_step =
    append (codes "m1")
      (record { name = codes "driver"; status = codes "done"; detail = []; timestamp = [] }) true
    ∷ complete (codes "m7") true [] none (codes "t") true
    ∷ []

run-StaysUnfinished_example : StaysUnfinished (codes "m1") modern (run one_left one_step)
unfolding text_eq lookup
run-StaysUnfinished_example =
    run-StaysUnfinished one_left one_step (codes "m1") modern (refl, tt) (tt, (refl, tt)) refl refl

recovery_completes_example :
    let r = recover_interrupted_migrations shows_modern (λ i. true) (codes "t") one_left in
    (r.1 ≡ none) × (all_journals r.0 ≡ true) × (any_incomplete r.0 ≡ false)
unfolding migration_target_satisfied contains has_prefix text_eq lower lookup
recovery_completes_example =
    recovery_completes shows_modern (codes "t") one_left
      (record { journals = refl; named = (refl, tt); unique = (refl, tt) }) ((refl, refl), tt)
