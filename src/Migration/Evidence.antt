-- ===== src/Migration/Evidence.antt =====
-- internal/system/migration_journal_windows.go: the journal of an unfinished migration is never lost.
use logi_mate.Base.{
  ◌≡◌, refl, sym, ap, ◌∙◌, Bool, true, false, Option, none, some, List, [], ◌∷◌, ◌++◌, All, arith,
  if◌then◌else◌, Bool-cases, inl, inr,
}
use mathlib.Core.List.{append-nil}
use logi_mate.Base.Results.{Result-cases, Result, ok, err}
use logi_mate.Base.Maps.{lookup, insert, lookup-insert}
use logi_mate.Base.Text.{Text, is_empty, text_eq, text_eq_refl, text_eq→≡}
use logi_mate.Migration.{
  MigrationStep, MigrationResult, Stored, journal, damaged, unreadable, Directory, MigrationError,
  load_migration, stored_result, write_migration, cleanup_old_migrations, ages_away,
}
use logi_mate.Migration.Changes.{changed}

-- Each journal stands in the file of its id.
abbrev pub NamedEntry : Text × Stored → Type 0
NamedEntry (name, journal m) = m.id ≡ name
NamedEntry (name, damaged) = Unit {0}
NamedEntry (name, unreadable) = Unit {0}

abbrev pub Named : Directory → Type 0
Named d = All NamedEntry d

pub lookup-Named :
    (d : Directory) (name : Text) (m : MigrationResult)
    → Named d
    → lookup name d ≡ some (journal m)
    → m.id ≡ name
unfolding lookup
lookup-Named [] name m v h = cc
lookup-Named ((j, journal k) ∷ rest) name m v h =
    ground (arith, text_eq→≡ j name, lookup-Named rest name m v.1)
lookup-Named ((j, damaged) ∷ rest) name m v h = ground (arith, lookup-Named rest name m v.1)
lookup-Named ((j, unreadable) ∷ rest) name m v h = ground (arith, lookup-Named rest name m v.1)

pub insert-Named :
    (d : Directory) (m : MigrationResult) → Named d → Named (insert m.id (journal m) d)
unfolding insert
insert-Named [] m v = (refl, tt)
insert-Named ((j, s) ∷ rest) m v = elim (Bool-cases (text_eq j m.id)) [
  | inl here ↦ rw here (refl, v.1)
  | inr there ↦ rw there (v.0, insert-Named rest m v.1)
]

pub cleanup-Named :
    (expired : Text → Bool) (d : Directory) → Named d → Named (cleanup_old_migrations expired d)
unfolding cleanup_old_migrations
cleanup-Named expired [] v = tt
cleanup-Named expired ((j, s) ∷ rest) v = elim (Bool-cases (ages_away expired j s)) [
  | inl old ↦ rw old (cleanup-Named expired rest v.1)
  | inr young ↦ rw young (v.0, cleanup-Named expired rest v.1)
]

-- What is not a completed journal stays through a clean-up.
pub cleanup-lookup :
    (expired : Text → Bool) (d : Directory) (name : Text) (m : MigrationResult)
    → m.completed ≡ false
    → lookup name d ≡ some (journal m)
    → lookup name (cleanup_old_migrations expired d) ≡ some (journal m)
unfolding lookup cleanup_old_migrations ages_away
cleanup-lookup expired [] name m u h = cc
cleanup-lookup expired ((j, journal k) ∷ rest) name m u h =
    ground (arith, cleanup-lookup expired rest name m u)
cleanup-lookup expired ((j, damaged) ∷ rest) name m u h =
    ground (arith, cleanup-lookup expired rest name m u)
cleanup-lookup expired ((j, unreadable) ∷ rest) name m u h =
    ground (arith, cleanup-lookup expired rest name m u)

-- The journal of an id that was unfinished is there, unfinished, with its start and its old steps.
abbrev pub StaysUnfinished : Text → MigrationResult → Directory → Type 0
StaysUnfinished id m d =
    (k : MigrationResult) × (more : List MigrationStep) × (lookup id d ≡ some (journal k))
    × (k.completed ≡ false)
    × (k.started ≡ m.started)
    × (k.steps ≡ m.steps ++ more)

-- A change that keeps the id.
abbrev pub KeepsId : (MigrationResult → Result MigrationError MigrationResult) → Type 0
KeepsId change = (m k : MigrationResult) → change m ≡ ok k → k.id ≡ m.id

written-Named :
    (d : Directory) (m : MigrationResult) (wrote : Bool)
    → Named d
    → Named (write_migration d m wrote).0
unfolding write_migration
written-Named d m true v = insert-Named d m v
written-Named d m false v = v

written-other :
    (d : Directory) (m : MigrationResult) (wrote : Bool) (id : Text)
    → text_eq m.id id ≡ false
    → lookup id (write_migration d m wrote).0 ≡ lookup id d
unfolding write_migration
written-other d m true id other = rw (lookup-insert m.id id (journal m) d, other) refl
written-other d m false id other = refl

stored_lem :
    (o : Option Stored) (m : MigrationResult) → stored_result o ≡ ok m → o ≡ some (journal m)
unfolding stored_result
stored_lem none m h = cc
stored_lem (some (journal k)) m h = cc
stored_lem (some damaged) m h = cc
stored_lem (some unreadable) m h = cc

refused :
    {m : MigrationResult}
    → ◌≡◌ {A = Result MigrationError MigrationResult} (err MigrationError.empty_id) (ok m)
    → ⊥
refused h = cc

loaded_lem :
    (d : Directory) (id : Text) (m : MigrationResult)
    → load_migration d id ≡ ok m
    → lookup id d ≡ some (journal m)
unfolding load_migration stored_result
loaded_lem d id m h = elim (Bool-cases (is_empty id)) [
  | inl no_id ↦ absurd (refused (rw no_id at h))
  | inr named ↦ stored_lem (lookup id d) m (rw named at h)
]

module _ (d : Directory) (j : Text)
    (change : MigrationResult → Result MigrationError MigrationResult) (wrote : Bool) (v : Named d)
    (keeps : KeepsId change) where
  pub changed-Named : Named (changed d j change wrote).0
  unfolding changed
  changed-Named = elim (Result-cases (load_migration d j)) [
    | inr (e, failed) ↦ rw (failed, changed) v
    | inl (m, loaded) ↦ elim (Result-cases (change m)) [
      | inr (e, refused) ↦ rw (loaded, refused, changed) v
      | inl (k, done) ↦ rw (loaded, done, changed) (written-Named d k wrote v)
    ]
  ]

  pub changed-other :
      (id : Text) → text_eq j id ≡ false → lookup id (changed d j change wrote).0 ≡ lookup id d
  unfolding changed
  changed-other id other = elim (Result-cases (load_migration d j)) [
    | inr (e, failed) ↦ rw (failed, changed) refl
    | inl (m, loaded) ↦ elim (Result-cases (change m)) [
      | inr (e, refused) ↦ rw (loaded, refused, changed) refl
      | inl (k, done) ↦
          let same : k.id ≡ j = keeps m k done ∙ lookup-Named d j m v (loaded_lem d j m loaded) in
          rw (loaded, done, changed) (written-other d k wrote id (rw same other))
    ]
  ]

lookup-inserted :
    (d : Directory) (i id : Text) (s : Stored) → i ≡ id → lookup id (insert i s d) ≡ some s
lookup-inserted d i id s e =
    lookup-insert i id s d
    ∙ ap (λ b. if b then some s else lookup id d) (ap (text_eq i) (sym e) ∙ text_eq_refl i)

journal_injective : {m k : MigrationResult} → some (journal m) ≡ some (journal k) → m ≡ k
journal_injective h = cc

pub stays_id :
    (d : Directory) (id : Text) (m : MigrationResult)
    → lookup id d ≡ some (journal m)
    → m.completed ≡ false
    → StaysUnfinished id m d
stays_id d id m at_id open_still = (m, [], at_id, open_still, refl, sym (append-nil m.steps))

-- A later state of the same journal.
abbrev pub Continues : MigrationResult → MigrationResult → Type 0
Continues m k =
    (more : List MigrationStep) × (k.id ≡ m.id)
    × (k.completed ≡ false)
    × (k.started ≡ m.started)
    × (k.steps ≡ m.steps ++ more)

pub changed-same :
    (d : Directory) (id : Text) (change : MigrationResult → Result MigrationError MigrationResult)
    (wrote : Bool) (m k : MigrationResult)
    → Named d
    → lookup id d ≡ some (journal m)
    → m.completed ≡ false
    → change m ≡ ok k
    → Continues m k
    → StaysUnfinished id m (changed d id change wrote).0
unfolding changed write_migration
changed-same d id change true m k v at_id open_still done (more, same, running, start, steps) =
    elim (Result-cases (load_migration d id)) [
      | inr (e, failed) ↦ rw (failed, changed) (stays_id d id m at_id open_still)
      | inl (m', loaded) ↦
          let e : m' ≡ m = journal_injective (sym (loaded_lem d id m' loaded) ∙ at_id) in
          let named : k.id ≡ id = same ∙ lookup-Named d id m v at_id in
          let there : lookup id (insert k.id (journal k) d) ≡ some (journal k) =
            lookup-inserted d k.id id (journal k) named in
          rw (loaded, ap change e ∙ done, changed) (k, more, there, running, start, steps)
    ]
changed-same d id change false m k v at_id open_still done c =
    elim (Result-cases (load_migration d id)) [
      | inr (e, failed) ↦ rw (failed, changed) (stays_id d id m at_id open_still)
      | inl (m', loaded) ↦
          let e : m' ≡ m = journal_injective (sym (loaded_lem d id m' loaded) ∙ at_id) in
          rw (loaded, ap change e ∙ done, changed) (stays_id d id m at_id open_still)
    ]
