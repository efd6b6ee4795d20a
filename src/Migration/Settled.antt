-- ===== src/Migration/Settled.antt =====
-- internal/system/migration_journal_windows.go: what a recovery without an error has reached.
use logi_mate.Base.{
  List-cases, ◌≡◌, refl, sym, ap, ◌∙◌, Bool, true, false, ◌&&◌, Option, none, some, List, [], ◌∷◌,
  arith, Bool-cases, Option-cases, inl, inr,
}
use logi_mate.Base.Results.{Result-cases, Result, ok, err, is_ok}
use logi_mate.Base.Maps.{insert}
use logi_mate.Base.Text.{Text}
use logi_mate.Migration.{
  MigrationResult, journal, damaged, unreadable, Directory, MigrationError, incomplete,
  list_incomplete_migrations, listed, load_migration, write_migration,
}
use logi_mate.Migration.Changes.{changed, complete_migration, finish}
use logi_mate.Migration.Recovery.{
  TargetState, satisfied, completed_at, recover_each, recovered, recover_interrupted_migrations,
}
use logi_mate.Migration.Blocking.{
  all_journals, any_incomplete, some_of, incomplete-shown, listed-shown,
}

pub no_listing :
    {e : MigrationError} {ms : List MigrationResult}
    → ◌≡◌ {A = Result MigrationError (List MigrationResult)} (err e) (ok ms)
    → ⊥
no_listing h = cc

pub insert-journals :
    (d : Directory) (i : Text) (m : MigrationResult)
    → all_journals d ≡ true
    → all_journals (insert i (journal m) d) ≡ true
unfolding insert
insert-journals [] i m v = refl
insert-journals ((j, journal k) ∷ rest) i m v = ground (arith, insert-journals rest i m)
insert-journals ((j, damaged) ∷ rest) i m v = cc
insert-journals ((j, unreadable) ∷ rest) i m v = cc

written-journals :
    (d : Directory) (m : MigrationResult) (wrote : Bool)
    → all_journals d ≡ true
    → all_journals (write_migration d m wrote).0 ≡ true
unfolding write_migration
written-journals d m true v = insert-journals d m.id m v
written-journals d m false v = v

changed-journals :
    (d : Directory) (i : Text) (change : MigrationResult → Result MigrationError MigrationResult)
    (wrote : Bool)
    → all_journals d ≡ true
    → all_journals (changed d i change wrote).0 ≡ true
unfolding changed
changed-journals d i change wrote v = elim (Result-cases (load_migration d i)) [
  | inr (e, failed) ↦ rw (failed, changed) v
  | inl (m, loaded) ↦ elim (Result-cases (change m)) [
    | inr (e, refused) ↦ rw (loaded, refused, changed) v
    | inl (k, done) ↦ rw (loaded, done, changed) (written-journals d k wrote v)
  ]
]

complete-journals :
    (d : Directory) (id : Text) (success : Bool) (message : Text) (cause : Option Text) (now : Text)
    (wrote : Bool)
    → all_journals d ≡ true
    → all_journals (complete_migration d id success message cause now wrote).0 ≡ true
unfolding complete_migration
complete-journals d id success message cause now wrote v =
    changed-journals d id (λ m. ok (finish success message cause now m)) wrote v

-- A listing without an error has read every file.
listed-journals :
    (d : Directory) (pending : List MigrationResult)
    → list_incomplete_migrations d ≡ ok pending
    → all_journals d ≡ true
unfolding list_incomplete_migrations
listed-journals d pending found = elim (Result-cases (incomplete d)) [
  | inl (ms, read) ↦ sym (incomplete-shown d).1 ∙ ap is_ok read
  | inr (e, failed) ↦ absurd (no_listing (rw (failed, list_incomplete_migrations) at found))
]

-- Whatever the loop ended with: after a recovery without an error nothing is listed.
recovered-clean :
    (shows : MigrationResult → TargetState) (wrote : Text → Bool) (now : Text)
    (r : Directory × Option MigrationError)
    → (recovered shows wrote now r).1 ≡ none
    → ((recovered shows wrote now r).0 ≡ r.0) × (listed r.0 ≡ [])
unfolding recovered
recovered-clean shows wrote now (d, some e) h = cc
recovered-clean shows wrote now (d, none) h = elim (List-cases (listed d)) [
  | inl done ↦ (rw (done, recovered) refl, done)
  | inr (m, ms, left) ↦ absurd (cc (rw (left, recovered) at h))
]

module _ (shows : MigrationResult → TargetState) (wrote : Text → Bool) (now : Text) where
  completed_at-journals :
      (d : Directory) (m : MigrationResult)
      → all_journals d ≡ true
      → all_journals (completed_at shows wrote now d m).0 ≡ true
  completed_at-journals d m v = complete-journals d m.id true _ none now (wrote m.id) v

  recover_each-journals :
      (d : Directory) (ms : List MigrationResult)
      → all_journals d ≡ true
      → all_journals (recover_each shows wrote now d ms).0 ≡ true
  unfolding recover_each
  recover_each-journals d [] v = v
  recover_each-journals d (m ∷ ms) v = elim (Bool-cases (satisfied shows m)) [
    | inr skip ↦ rw skip (recover_each-journals d ms v)
    | inl shown ↦ elim (Option-cases (completed_at shows wrote now d m).1) [
      | inl fine ↦
          rw (shown, fine)
            (recover_each-journals (completed_at shows wrote now d m).0 ms
              (completed_at-journals d m v))
      | inr (e, bad) ↦ rw (shown, bad) (completed_at-journals d m v)
    ]
  ]

-- A recovery that returns no error leaves a directory of readable journals, none of them unresolved.
recovery_settles :
    (shows : MigrationResult → TargetState) (wrote : Text → Bool) (now : Text) (d : Directory)
    → (recover_interrupted_migrations shows wrote now d).1 ≡ none
    → (all_journals (recover_interrupted_migrations shows wrote now d).0 ≡ true)
      × (any_incomplete (recover_interrupted_migrations shows wrote now d).0 ≡ false)
unfolding recover_interrupted_migrations
recovery_settles shows wrote now d fine = elim (Result-cases (list_incomplete_migrations d)) [
  | inr (e, failed) ↦ absurd (cc (rw (failed, recover_interrupted_migrations) at fine))
  | inl (pending, found) ↦
      let r = recover_each shows wrote now d pending in
      let end : (recovered shows wrote now r).1 ≡ none =
        rw (found, recover_interrupted_migrations) at fine in
      let (same, clean) = recovered-clean shows wrote now r end in
      let read : all_journals r.0 ≡ true =
        recover_each-journals shows wrote now d pending (listed-journals d pending found) in
      let closed : any_incomplete r.0 ≡ false =
        ap (λ b. b && any_incomplete r.0) (sym read) ∙ sym (listed-shown r.0) ∙ ap some_of clean in
      rw (found, recover_interrupted_migrations)
        (ap all_journals same ∙ read, ap any_incomplete same ∙ closed)
]
