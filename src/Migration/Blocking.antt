-- ===== src/Migration/Blocking.antt =====
-- When internal/system/migration_journal_windows.go lets a new migration begin.
use logi_mate.Base.{
  List-cases, ◌≡◌, refl, sym, ap, ◌∙◌, Bool, true, false, not, ◌&&◌, ◌||◌, List, [], ◌∷◌, arith,
  if◌then◌else◌, inl, inr,
}
use logi_mate.Base.Results.{Result, ok, err, is_ok}
use logi_mate.Base.Maps.{insert}
use logi_mate.Base.Text.{Text, codes, text_eq}
use logi_mate.Migration.{
  MigrationResult, journal, damaged, unreadable, Directory, MigrationError, is_incomplete,
  incomplete, insert_started, by_start, list_incomplete_migrations, listed, begin_migration, begun,
  ages_away, cleanup_old_migrations,
}

abbrev pub all_journals : Directory → Bool
all_journals [] = true
all_journals ((name, journal m) ∷ rest) = all_journals rest
all_journals ((name, damaged) ∷ rest) = false
all_journals ((name, unreadable) ∷ rest) = false

-- A journal that is left unresolved: not completed, or with the status of one that is not.
abbrev pub unresolved_journal : MigrationResult → Bool
unresolved_journal m =
    not m.completed || (text_eq m.status (codes "pending") || text_eq m.status (codes "running"))

pub is_incomplete-unresolved_journal :
    (m : MigrationResult) → is_incomplete m ≡ unresolved_journal m
unfolding is_incomplete
is_incomplete-unresolved_journal m = ground arith

abbrev pub any_incomplete : Directory → Bool
any_incomplete [] = false
any_incomplete ((name, journal m) ∷ rest) = unresolved_journal m || any_incomplete rest
any_incomplete ((name, damaged) ∷ rest) = any_incomplete rest
any_incomplete ((name, unreadable) ∷ rest) = any_incomplete rest

abbrev pub some_of : List MigrationResult → Bool
some_of [] = false
some_of (m ∷ ms) = true

-- Whether a listing shows something; one that fails shows nothing.
abbrev pub shown : Result MigrationError (List MigrationResult) → Bool
shown (ok ms) = some_of ms
shown (err e) = false

-- One journal more in front of what the rest of the directory gives.
abbrev pub with_journal :
    Bool
    → MigrationResult
    → Result MigrationError (List MigrationResult)
    → Result MigrationError (List MigrationResult)
with_journal b m others = if b then elim others [ ok ms ↦ ok (m ∷ ms) | err e ↦ err e ] else others

with_journal-shown :
    (b : Bool) (m : MigrationResult) (others : Result MigrationError (List MigrationResult))
    (all any : Bool)
    → (shown others ≡ (all && any)) × (is_ok others ≡ all)
    → (shown (with_journal b m others) ≡ (all && (b || any)))
      × (is_ok (with_journal b m others) ≡ all)
with_journal-shown true m (ok ms) all any h = ground arith
with_journal-shown true m (err e) all any h = ground arith
with_journal-shown false m others all any h = h

pub incomplete-shown :
    (d : Directory)
    → (shown (incomplete d) ≡ (all_journals d && any_incomplete d))
      × (is_ok (incomplete d) ≡ all_journals d)
unfolding incomplete
incomplete-shown [] = (refl, refl)
incomplete-shown ((name, journal m) ∷ rest) =
    let given =
      with_journal-shown (is_incomplete m) m (incomplete rest) (all_journals rest)
        (any_incomplete rest) (incomplete-shown rest) in
    let same =
      ap (λ b. all_journals rest && (b || any_incomplete rest))
        (is_incomplete-unresolved_journal m) in
    (given.0 ∙ same, given.1)
incomplete-shown ((name, damaged) ∷ rest) = (refl, refl)
incomplete-shown ((name, unreadable) ∷ rest) = (refl, refl)

insert_some :
    (m : MigrationResult) (ms : List MigrationResult) → some_of (insert_started m ms) ≡ true
unfolding insert_started
insert_some m [] = refl
insert_some m (k ∷ ks) = ground arith

by_start_some : (ms : List MigrationResult) → some_of (by_start ms) ≡ some_of ms
unfolding by_start
by_start_some [] = refl
by_start_some (m ∷ ms) = insert_some m (by_start ms)

abbrev listed_by : Result MigrationError (List MigrationResult) → List MigrationResult
listed_by r =
    elim (elim r as (λ q. Result MigrationError (List MigrationResult)) [
      | ok ms ↦ ok (by_start ms)
      | err e ↦ err e
    ]) [ ok ms ↦ ms | err e ↦ [] ]

listed_of :
    (r : Result MigrationError (List MigrationResult)) (b : Bool)
    → shown r ≡ b
    → some_of (listed_by r) ≡ b
listed_of (ok ms) b h = by_start_some ms ∙ h
listed_of (err e) b h = h

pub listed-shown : (d : Directory) → some_of (listed d) ≡ (all_journals d && any_incomplete d)
unfolding listed list_incomplete_migrations
listed-shown d = listed_of (incomplete d) _ (incomplete-shown d).0

-- What a clean-up should leave: all but the completed journals whose file is old.
abbrev pub remaining : (Text → Bool) → Directory → Directory
remaining expired [] = []
remaining expired ((name, journal m) ∷ rest) =
    let kept = remaining expired rest in
    if m.completed && expired name then kept else (name, journal m) ∷ kept
remaining expired ((name, damaged) ∷ rest) = (name, damaged) ∷ remaining expired rest
remaining expired ((name, unreadable) ∷ rest) = (name, unreadable) ∷ remaining expired rest

cleanup-remaining :
    (expired : Text → Bool) (d : Directory) → cleanup_old_migrations expired d ≡ remaining expired d
unfolding cleanup_old_migrations ages_away
cleanup-remaining expired [] = refl
cleanup-remaining expired ((name, journal m) ∷ rest) =
    ap (λ r. if m.completed && expired name then r else (name, journal m) ∷ r)
      (cleanup-remaining expired rest)
cleanup-remaining expired ((name, damaged) ∷ rest) =
    ap (λ r. (name, damaged) ∷ r) (cleanup-remaining expired rest)
cleanup-remaining expired ((name, unreadable) ∷ rest) =
    ap (λ r. (name, unreadable) ∷ r) (cleanup-remaining expired rest)

-- The journal of a migration that has only been begun.
abbrev pub first_journal : Text → Text → Text → MigrationResult
first_journal id action now = record {
  id = id;
  action = action;
  started = now;
  finished = [];
  status = codes "pending";
  success = false;
  completed = false;
  message = [];
  error = [];
  steps = [];
  snapshot = record {
    hvci = false;
    operating_preference = [];
    wheel_model = [];
    active_mode = [];
    profiler_installed = false;
  };
}

-- With a directory that can be made and a file that can be written, a new migration is refused exactly
-- if every file of the directory is a readable journal and one of them is unresolved: not completed, or of
-- the status pending or running. Then nothing changes; else a pending journal that is not completed is
-- stored under the id, and of the files exactly the completed journals that are old are removed.
pub begin_migration_iff :
    (d : Directory) (id action now : Text) (expired : Text → Bool)
    → (is_ok (begin_migration d id action now true true expired).1
        ≡ not (all_journals d && any_incomplete d))
      × ((begin_migration d id action now true true expired).0 ≡ (
          if all_journals d && any_incomplete d
          then d
          else remaining expired (insert id (journal (first_journal id action now)) d)))
unfolding begin_migration begun
begin_migration_iff d id action now expired = elim (List-cases (listed d)) [
  | inl none_left ↦
      let open_way = sym (listed-shown d) ∙ ap some_of none_left in
      rw (none_left, open_way, begin_migration)
        (refl, cleanup-remaining expired (insert id (journal (first_journal id action now)) d))
  | inr (m, ms, left) ↦
      let blocked = sym (listed-shown d) ∙ ap some_of left in
      rw (left, blocked, begin_migration) (refl, refl)
]
