-- ===== src/Migration/Runs.antt =====
-- internal/system/migration_journal_windows.go: what is left of an unfinished migration after a run.
use logi_mate.Base.{
  List-cases, ◌≡◌, refl, sym, ap, subst, ◌∙◌, Bool, false, Option, none, some, List, [], ◌∷◌, ◌++◌,
  arith, Bool-cases, Option-cases, inl, inr,
}
use mathlib.Core.List.{append-nil, append_assoc}
use logi_mate.Base.Results.{Result-cases}
use logi_mate.Base.Maps.{lookup}
use logi_mate.Base.Text.{Text, text_eq}
use logi_mate.Migration.{
  MigrationResult, journal, Directory, MigrationError, listed, list_incomplete_migrations,
}
use logi_mate.Migration.Changes.{
  mark_migration_running, append_migration_step, complete_migration, cancel_migration, with_step,
}
use logi_mate.Migration.Recovery.{
  TargetState, satisfied, completed_at, recover_each, recovered, recover_interrupted_migrations,
}
use logi_mate.Migration.Events.{
  Event, begin, mark, append, complete, cancel, recover, step, run, any_satisfied, LeavesOpen,
  AllLeaveOpen,
}
use logi_mate.Migration.Evidence.{Named, StaysUnfinished, changed-Named, changed-other, stays_id}
use logi_mate.Migration.Outlives.{
  begin-Named, begin-stays, other-stays, continued-stays, ok-KeepsId, with_step-KeepsId, listed_ok,
}

module _ (shows : MigrationResult → TargetState) (wrote : Text → Bool) (now : Text) where
  completed_at-Named :
      (d : Directory) (m : MigrationResult) → Named d → Named (completed_at shows wrote now d m).0
  unfolding complete_migration
  completed_at-Named d m v = changed-Named d m.id _ (wrote m.id) v (ok-KeepsId _ (λ a. refl))

  recover_each-Named :
      (d : Directory) (ms : List MigrationResult)
      → Named d
      → Named (recover_each shows wrote now d ms).0
  unfolding recover_each
  recover_each-Named d [] v = v
  recover_each-Named d (m ∷ ms) v = elim (Bool-cases (satisfied shows m)) [
    | inr skip ↦ rw skip (recover_each-Named d ms v)
    | inl shown ↦ elim (Option-cases (completed_at shows wrote now d m).1) [
      | inl fine ↦
          rw (shown, fine)
            (recover_each-Named (completed_at shows wrote now d m).0 ms (completed_at-Named d m v))
      | inr (e, bad) ↦ rw (shown, bad) (completed_at-Named d m v)
    ]
  ]

  completed_at-stays :
      (d : Directory) (i : MigrationResult) (id : Text) (m : MigrationResult)
      → Named d
      → text_eq i.id id ≡ false
      → lookup id d ≡ some (journal m)
      → lookup id (completed_at shows wrote now d i).0 ≡ some (journal m)
  unfolding complete_migration
  completed_at-stays d i id m v apart at_id =
      changed-other d i.id _ (wrote i.id) v (ok-KeepsId _ (λ a. refl)) id apart ∙ at_id

  recover_each-stays :
      (d : Directory) (ms : List MigrationResult) (id : Text) (m : MigrationResult)
      → Named d
      → any_satisfied shows id ms ≡ false
      → lookup id d ≡ some (journal m)
      → lookup id (recover_each shows wrote now d ms).0 ≡ some (journal m)
  unfolding recover_each
  recover_each-stays d [] id m v unmet at_id = at_id
  recover_each-stays d (i ∷ ms) id m v unmet at_id = elim (Bool-cases (satisfied shows i)) [
    | inr skip ↦ rw skip (recover_each-stays d ms id m v (ground arith) at_id)
    | inl shown ↦
        let apart : text_eq i.id id ≡ false = ground arith in
        let kept = completed_at-stays d i id m v apart at_id in
        elim (Option-cases (completed_at shows wrote now d i).1) [
          | inl fine ↦
              rw (shown, fine)
                (recover_each-stays (completed_at shows wrote now d i).0 ms id m
                  (completed_at-Named d i v) (ground arith) kept)
          | inr (e, bad) ↦ rw (shown, bad) kept
        ]
  ]

  recovered_keeps : (r : Directory × Option MigrationError) → (recovered shows wrote now r).0 ≡ r.0
  unfolding recovered
  recovered_keeps (d, some e) = refl
  recovered_keeps (d, none) = elim (List-cases (listed d)) [
    | inl done ↦ rw (done, recovered) refl
    | inr (m, ms, left) ↦ rw (left, recovered) refl
  ]

  recover-Named :
      (d : Directory) → Named d → Named (recover_interrupted_migrations shows wrote now d).0
  unfolding recover_interrupted_migrations
  recover-Named d v = elim (Result-cases (list_incomplete_migrations d)) [
    | inr (e, failed) ↦ rw (failed, recover_interrupted_migrations) v
    | inl (pending, found) ↦
        rw (found, recover_interrupted_migrations)
          (subst Named (sym (recovered_keeps (recover_each shows wrote now d pending)))
            (recover_each-Named d pending v))
  ]

  recover-stays :
      (d : Directory) (id : Text) (m : MigrationResult)
      → Named d
      → any_satisfied shows id (listed d) ≡ false
      → lookup id d ≡ some (journal m)
      → lookup id (recover_interrupted_migrations shows wrote now d).0 ≡ some (journal m)
  unfolding recover_interrupted_migrations listed
  recover-stays d id m v unmet at_id = elim (Result-cases (list_incomplete_migrations d)) [
    | inr (e, failed) ↦ rw (failed, recover_interrupted_migrations) at_id
    | inl (pending, found) ↦
        let unmet' : any_satisfied shows id pending ≡ false =
          subst (λ l. any_satisfied shows id l ≡ false) (listed_ok d pending found) unmet in
        rw (found, recover_interrupted_migrations)
          (ap (lookup id) (recovered_keeps (recover_each shows wrote now d pending))
            ∙ recover_each-stays d pending id m v unmet' at_id)
  ]

step-Named : (d : Directory) (e : Event) → Named d → Named (step d e)
unfolding step mark_migration_running append_migration_step complete_migration cancel_migration
step-Named d (begin id action now made wrote expired) v =
    begin-Named d id action now wrote expired v made
step-Named d (mark id action e wrote) v = changed-Named d id _ wrote v (ok-KeepsId _ (λ a. refl))
step-Named d (append id s wrote) v = changed-Named d id _ wrote v (with_step-KeepsId s)
step-Named d (complete id success message cause now wrote) v =
    changed-Named d id _ wrote v (ok-KeepsId _ (λ a. refl))
step-Named d (cancel id reason now wrote) v =
    changed-Named d id _ wrote v (ok-KeepsId _ (λ a. refl))
step-Named d (recover shows wrote now) v = recover-Named shows wrote now d v

step-stays :
    (d : Directory) (e : Event) (id : Text) (m : MigrationResult)
    → Named d
    → LeavesOpen id d e
    → lookup id d ≡ some (journal m)
    → m.completed ≡ false
    → StaysUnfinished id m (step d e)
unfolding step mark_migration_running append_migration_step complete_migration cancel_migration
step-stays d (begin i action now made wrote expired) id m v apart at_id running =
    begin-stays d i action now wrote expired id m apart at_id running made
step-stays d (mark i action e wrote) id m v apart at_id running =
    continued-stays d i id _ wrote m _ v (ok-KeepsId _ (λ a. refl)) refl
      ([], refl, running, refl, sym (append-nil m.steps)) at_id running
step-stays d (append i s wrote) id m v apart at_id running =
    continued-stays d i id (with_step s) wrote m (record m { steps = m.steps ++ (s ∷ []) }) v
      (with_step-KeepsId s) (ground arith) (s ∷ [], refl, running, refl, refl) at_id running
step-stays d (complete i success message cause now wrote) id m v apart at_id running =
    other-stays d i id _ wrote m v (ok-KeepsId _ (λ a. refl)) apart at_id running
step-stays d (cancel i reason now wrote) id m v apart at_id running =
    other-stays d i id _ wrote m v (ok-KeepsId _ (λ a. refl)) apart at_id running
step-stays d (recover shows wrote now) id m v unmet at_id running =
    stays_id _ id m (recover-stays shows wrote now d id m v unmet at_id) running

-- In a directory in which each journal stands in the file of its own id, the journal of an unfinished
-- migration outlives every run of operations that do not end that very
-- migration, also the clean-up of old files and recoveries at which the devices do not show its target:
-- it is still there and unfinished, with its start, and with its old steps before any new ones.
pub run-StaysUnfinished :
    (d : Directory) (es : List Event) (id : Text) (m : MigrationResult)
    → Named d
    → AllLeaveOpen id d es
    → lookup id d ≡ some (journal m)
    → m.completed ≡ false
    → StaysUnfinished id m (run d es)
unfolding run
run-StaysUnfinished d [] id m v left at_id running = stays_id d id m at_id running
run-StaysUnfinished d (e ∷ es) id m v left at_id running =
    let (k, new, at_k, running_k, start_k, steps_k) = step-stays d e id m v left.0 at_id running in
    let (n, newer, at_n, running_n, start_n, steps_n) =
      run-StaysUnfinished (step d e) es id k (step-Named d e v) left.1 at_k running_k in
    (
      n,
      new ++ newer,
      at_n,
      running_n,
      start_n ∙ start_k,
      steps_n ∙ ap (λ l. l ++ newer) steps_k ∙ append_assoc m.steps new newer,
    )
