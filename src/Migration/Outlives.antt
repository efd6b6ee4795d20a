-- ===== src/Migration/Outlives.antt =====
-- internal/system/migration_journal_windows.go: what the beginning and the changes of one migration
-- leave of another one that is unfinished.
use logi_mate.Base.{
  List-cases, ◌≡◌, refl, sym, ap, subst, ◌∙◌, Bool, true, false, some, List, arith, if◌then◌else◌,
  Bool-cases, inl, inr,
}
use logi_mate.Base.Results.{ok_injective, Result, ok}
use logi_mate.Base.Maps.{lookup, insert, lookup-insert}
use logi_mate.Base.Text.{Text, text_eq, text_eq→≡}
use logi_mate.Migration.{
  MigrationStep, MigrationResult, journal, Directory, MigrationError, listed,
  list_incomplete_migrations, begin_migration, begun, new_journal,
}
use logi_mate.Migration.Changes.{changed, with_step}
use logi_mate.Migration.Evidence.{
  Named, KeepsId, StaysUnfinished, Continues, insert-Named, cleanup-Named, cleanup-lookup,
  changed-other, changed-same, stays_id,
}

begun-Named :
    (d : Directory) (m : MigrationResult) (wrote : Bool) (expired : Text → Bool)
    → Named d
    → Named (begun d m wrote expired).0
unfolding begun
begun-Named d m true expired v =
    cleanup-Named expired (insert m.id (journal m) d) (insert-Named d m v)
begun-Named d m false expired v = v

module _ (d : Directory) (id action now : Text) (wrote : Bool) (expired : Text → Bool)
    (v : Named d) where
  pub begin-Named : (made : Bool) → Named (begin_migration d id action now made wrote expired).0
  unfolding begin_migration
  begin-Named made = elim (List-cases (listed d)) [
    | inr (m, ms, left) ↦ rw (left, begin_migration) v
    | inl none_left ↦ elim (Bool-cases made) [
      | inl yes_made ↦
          rw (none_left, yes_made, begin_migration)
            (begun-Named d (new_journal id action now) wrote expired v)
      | inr not_made ↦ rw (none_left, not_made, begin_migration) v
    ]
  ]

module _ (d : Directory) (id action now : Text) (wrote : Bool) (expired : Text → Bool)
    (other : Text) (m : MigrationResult) (apart : text_eq id other ≡ false)
    (at_other : lookup other d ≡ some (journal m)) (running : m.completed ≡ false) where
  begun-stays :
      (w : Bool) → StaysUnfinished other m (begun d (new_journal id action now) w expired).0
  unfolding begun
  begun-stays true =
      stays_id _ other m
        (cleanup-lookup expired _ other m running (
          lookup-insert id other (journal (new_journal id action now)) d
          ∙ ap (λ b. if b then some (journal (new_journal id action now)) else lookup other d) apart
          ∙ at_other))
        running
  begun-stays false = stays_id d other m at_other running

  pub begin-stays :
      (made : Bool) → StaysUnfinished other m (begin_migration d id action now made wrote expired).0
  unfolding begin_migration
  begin-stays made = elim (List-cases (listed d)) [
    | inr (k, ks, left) ↦ rw (left, begin_migration) (stays_id d other m at_other running)
    | inl none_left ↦ elim (Bool-cases made) [
      | inl yes_made ↦ rw (none_left, yes_made, begin_migration) (begun-stays wrote)
      | inr not_made ↦
          rw (none_left, not_made, begin_migration) (stays_id d other m at_other running)
    ]
  ]

-- An operation on a journal with another id leaves the one that is looked at.
pub other-stays :
    (d : Directory) (i id : Text) (change : MigrationResult → Result MigrationError MigrationResult)
    (wrote : Bool) (m : MigrationResult)
    → Named d
    → KeepsId change
    → text_eq i id ≡ false
    → lookup id d ≡ some (journal m)
    → m.completed ≡ false
    → StaysUnfinished id m (changed d i change wrote).0
other-stays d i id change wrote m v keeps apart at_id running =
    stays_id _ id m (changed-other d i change wrote v keeps id apart ∙ at_id) running

-- An operation that continues each unfinished journal, whichever id it has.
pub continued-stays :
    (d : Directory) (i id : Text) (change : MigrationResult → Result MigrationError MigrationResult)
    (wrote : Bool) (m k : MigrationResult)
    → Named d
    → KeepsId change
    → change m ≡ ok k
    → Continues m k
    → lookup id d ≡ some (journal m)
    → m.completed ≡ false
    → StaysUnfinished id m (changed d i change wrote).0
continued-stays d i id change wrote m k v keeps done c at_id running =
    elim (Bool-cases (text_eq i id)) [
      | inr apart ↦ other-stays d i id change wrote m v keeps apart at_id running
      | inl same ↦
          subst (λ j. StaysUnfinished id m (changed d j change wrote).0) (sym (text_eq→≡ i id same))
            (changed-same d id change wrote m k v at_id running done c)
    ]

pub ok-KeepsId :
    (f : MigrationResult → MigrationResult)
    → ((m : MigrationResult) → (f m).id ≡ m.id)
    → KeepsId (λ m. ok (f m))
ok-KeepsId f same m k e = ap (λ (x : MigrationResult). x.id) (sym (ok_injective e)) ∙ same m

pub with_step-KeepsId : (s : MigrationStep) → KeepsId (with_step s)
with_step-KeepsId s m k e = ground arith

pub listed_ok :
    (d : Directory) (pending : List MigrationResult)
    → list_incomplete_migrations d ≡ ok pending
    → listed d ≡ pending
unfolding listed
listed_ok d pending found = rw (found, listed) refl
