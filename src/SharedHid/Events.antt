-- ===== src/SharedHid/Events.antt =====
-- The runs of the reader of internal/system/g27_shared_hid_windows.go with the handles of the process.
-- The system opens and closes handles; between the lock of an operation and its CloseHandle, and between
-- a CreateFile and the lock that takes its handle, any other operation may run.
use logi_mate.Base.{
  ℕ, suc, ◌+◌, ◌<◌, ◌≡◌, not, ◌&&◌, Option, none, some, List, [], ◌∷◌, arith, ltb, ◌==◌,
  if◌then◌else◌,
}
use logi_mate.Base.Text.{Text, is_empty}
use logi_mate.SharedHid.State.{SharedReader, JoyState}
use logi_mate.SharedHid.Open.{is_handle, note_g27_open_failure, adopt_g27}
use logi_mate.SharedHid.{
  initial_reader, invalidate_g27_shared_output, read_failed_g27, malformed_g27, sampled_g27,
  close_preferred_input,
}

abbrev pub count : ℕ → List ℕ → ℕ
count k [] = 0
count k (h ∷ hs) = (if h == k then 1 else 0) + count k hs

unfoldable pub without : ℕ → List ℕ → List ℕ
without k [] = []
without k (h ∷ hs) = let rest = without k hs in if h == k then hs else h ∷ rest

-- One handle less, if it is there.
pub count-without :
    (j k : ℕ) (hs : List ℕ)
    → 0 < count k hs
    → count j (without k hs) + (if k == j then 1 else 0) ≡ count j hs
unfolding without
count-without j k [] h = absurd (omega arith)
count-without j k (x ∷ hs) h = ground (arith, count-without j k hs)

-- A reader with the open handles of the process, those that CreateFile gave and no lock has taken yet,
-- and those whose CloseHandle is still to come; `bad_closes` counts the calls of CloseHandle with a
-- handle that is not open.
pub record System : Type 0 where
  pub reader : SharedReader
  pub open_handles : List ℕ
  pub opening : List ℕ
  pub closing : List ℕ
  pub bad_closes : ℕ

abbrev pub pend : Option ℕ → List ℕ → List ℕ
pend none hs = hs
pend (some h) hs = h ∷ hs

-- The new state of the reader, with the handle that is to be closed.
abbrev pub after : System → SharedReader × Option ℕ → System
after y (s, closed) = record y { reader = s; closing = pend closed y.closing }

pub data Event : Type 0 where
  created : ℕ → Event
  adopted : Text → ℕ → Event
  open_failed : Option Text → Event
  invalidated : Text → ℕ → ℕ → Option Text → Event
  read_failed : ℕ → ℕ → Text → Event
  malformed : ℕ → ℕ → Event
  sampled : Text → ℕ → ℕ → JoyState → List ℕ → Event
  input_closed : Event
  handle_closed : ℕ → Event

-- The system never gives out a handle that is open.
unfoldable pub create_handle : System → ℕ → System
create_handle y h =
    if is_handle h && count h y.open_handles == 0
    then record y { open_handles = h ∷ y.open_handles; opening = h ∷ y.opening }
    else y

-- The lock that takes a handle which CreateFile gave, for a path that is not empty.
unfoldable pub adopt_handle : System → Text → ℕ → ℕ → System
unfolding adopt_g27 without
adopt_handle y path h now =
    if ltb 0 (count h y.opening) && not (is_empty path)
    then after (record y { opening = without h y.opening }) (adopt_g27 y.reader path h now)
    else y

unfoldable pub close_handle : System → ℕ → System
unfolding without
close_handle y h =
    if ltb 0 (count h y.closing)
    then record y {
      closing = without h y.closing;
      open_handles = without h y.open_handles;
      bad_closes = if ltb 0 (count h y.open_handles) then y.bad_closes else suc y.bad_closes;
    }
    else y

-- A reading loop only runs with a handle that was opened.
unfoldable pub step : System → Event → ℕ → System
unfolding create_handle adopt_handle close_handle
step y (created h) now = create_handle y h
step y (adopted path h) now = adopt_handle y path h now
step y (open_failed cause) now = record y { reader = note_g27_open_failure y.reader cause now }
step y (invalidated path h generation cause) now =
    after y (invalidate_g27_shared_output y.reader path h generation cause now)
step y (read_failed h generation error) now =
    if is_handle h then after y (read_failed_g27 y.reader h generation error now) else y
step y (malformed h generation) now = record y { reader = malformed_g27 y.reader h generation now }
step y (sampled path h generation j raw) now = record y {
  reader = sampled_g27 y.reader path h generation j raw now;
}
step y input_closed now = after y (close_preferred_input y.reader)
step y (handle_closed h) now = close_handle y h

unfoldable pub run : System → List (Event × ℕ) → System
unfolding step
run y [] = y
run y ((e, now) ∷ rest) = run (step y e now) rest

abbrev pub initial_system : System
initial_system = record {
  reader = initial_reader;
  open_handles = [];
  opening = [];
  closing = [];
  bad_closes = 0;
}
