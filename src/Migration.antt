-- ===== src/Migration.antt =====
-- internal/system/migration_journal_windows.go: the journals of migrations between driver modes. The
-- directory is a map from the name of a file, without its extension, to what a read of it gives; a
-- time is its text. The results of the system are arguments: whether a directory was made and a file
-- was written (a failed write leaves the old file), and what the devices show.
pub mod Recovery
pub mod Changes
pub mod Blocking
pub mod Evidence
pub mod Events
pub mod Outlives
pub mod Runs
pub mod Settled
pub mod Covered
pub mod Completes
mod Examples
use logi_mate.Base.{
  ℕ, Bool, true, false, not, ◌&&◌, ◌||◌, Option, none, some, List, [], ◌∷◌, ◌++◌, if◌then◌else◌,
}
use logi_mate.Base.Results.{Result, ok, err}
use logi_mate.Base.Maps.{Map, lookup, insert}
use logi_mate.Base.Text.{Text, codes, is_empty, text_eq, text_lt, to_lower, contains}

pub record MigrationStep : Type 0 where
  pub name : Text
  pub status : Text
  pub detail : Text
  pub timestamp : Text

pub record MigrationSnapshot : Type 0 where
  pub hvci : Bool
  pub operating_preference : Text
  pub wheel_model : Text
  pub active_mode : Text
  pub profiler_installed : Bool

pub record MigrationResult : Type 0 where
  pub id : Text
  pub action : Text
  pub started : Text
  pub finished : Text
  pub status : Text
  pub success : Bool
  pub completed : Bool
  pub message : Text
  pub error : Text
  pub steps : List MigrationStep
  pub snapshot : MigrationSnapshot

-- A file of the directory: a journal, one that JSON refuses, or one that cannot be read.
pub data Stored : Type 0 where
  journal : MigrationResult → Stored
  damaged unreadable : Stored

abbrev pub Directory : Type 0
Directory = Map Stored

pub data MigrationError : Type 0 where
  empty_id no_file read_error damaged_file already_completed write_error no_directory :
      MigrationError
  unresolved : Text → MigrationError
  still_unresolved : MigrationError

-- The journal under its own id, if the write succeeds.
unfoldable pub write_migration :
    Directory → MigrationResult → Bool → Directory × Option MigrationError
unfolding insert
write_migration d m true = (insert m.id (journal m) d, none)
write_migration d m false = (d, some write_error)

unfoldable pub stored_result : Option Stored → Result MigrationError MigrationResult
stored_result none = err no_file
stored_result (some (journal m)) = ok m
stored_result (some damaged) = err damaged_file
stored_result (some unreadable) = err read_error

unfoldable pub load_migration : Directory → Text → Result MigrationError MigrationResult
unfolding lookup stored_result
load_migration d id = if is_empty id then err empty_id else stored_result (lookup id d)

unfoldable pub is_incomplete : MigrationResult → Bool
unfolding text_eq
is_incomplete m =
    not m.completed || text_eq m.status (codes "pending") || text_eq m.status (codes "running")

-- The journals that are left unresolved, in the order of the directory.
unfoldable pub incomplete : Directory → Result MigrationError (List MigrationResult)
unfolding is_incomplete
incomplete [] = ok []
incomplete ((name, journal m) ∷ rest) =
    let others = incomplete rest in
    if is_incomplete m then elim others [ ok ms ↦ ok (m ∷ ms) | err e ↦ err e ] else others
incomplete ((name, damaged) ∷ rest) = err damaged_file
incomplete ((name, unreadable) ∷ rest) = err read_error

-- `sort.Slice` by the start; it leaves the order of equal ones open, here they keep theirs.
unfoldable pub insert_started : MigrationResult → List MigrationResult → List MigrationResult
unfolding text_lt
insert_started m [] = m ∷ []
insert_started m (k ∷ ks) =
    let later = insert_started m ks in if text_lt k.started m.started then k ∷ later else m ∷ k ∷ ks

unfoldable pub by_start : List MigrationResult → List MigrationResult
unfolding insert_started
by_start [] = []
by_start (m ∷ ms) = insert_started m (by_start ms)

unfoldable pub list_incomplete_migrations : Directory → Result MigrationError (List MigrationResult)
unfolding incomplete by_start
list_incomplete_migrations d = elim (incomplete d) [ ok ms ↦ ok (by_start ms) | err e ↦ err e ]

-- A completed journal whose file is older than the limit; `expired` tells by the file's name.
unfoldable pub ages_away : (Text → Bool) → Text → Stored → Bool
ages_away expired name (journal m) = m.completed && expired name
ages_away expired name damaged = false
ages_away expired name unreadable = false

unfoldable pub cleanup_old_migrations : (Text → Bool) → Directory → Directory
unfolding ages_away
cleanup_old_migrations expired [] = []
cleanup_old_migrations expired ((name, s) ∷ rest) =
    let kept = cleanup_old_migrations expired rest in
    if ages_away expired name s then kept else (name, s) ∷ kept

abbrev pub empty_snapshot : MigrationSnapshot
empty_snapshot = record {
  hvci = false;
  operating_preference = [];
  wheel_model = [];
  active_mode = [];
  profiler_installed = false;
}

abbrev pub new_journal : Text → Text → Text → MigrationResult
new_journal id action now = record {
  id = id;
  action = action;
  started = now;
  finished = [];
  status = codes "pending";
  success = false;
  completed = false;
  message = [];
  error = [];
  steps = [];
  snapshot = empty_snapshot;
}

-- `pending, _ :=`: the error of the listing is dropped.
unfoldable pub listed : Directory → List MigrationResult
unfolding list_incomplete_migrations
listed d = elim (list_incomplete_migrations d) [ ok ms ↦ ms | err e ↦ [] ]

unfoldable pub begun :
    Directory → MigrationResult → Bool → (Text → Bool) → Directory × Result MigrationError Text
unfolding insert cleanup_old_migrations
begun d m false expired = (d, err write_error)
begun d m true expired = (cleanup_old_migrations expired (insert m.id (journal m) d), ok m.id)

unfoldable pub begin_migration :
    Directory
    → Text
    → Text
    → Text
    → Bool
    → Bool
    → (Text → Bool)
    → Directory × Result MigrationError Text
unfolding listed begun
begin_migration d id action now made wrote expired = elim (listed d) [
  | m ∷ ms ↦ (d, err (unresolved m.id))
  | [] ↦ if made then begun d (new_journal id action now) wrote expired else (d, err no_directory)
]
