-- ===== src/SharedHid/Open.antt =====
-- internal/system/g27_shared_hid_windows.go: how the reader opens a session, and how long it waits after
-- a failure. An operation takes the results of the system as arguments, and gives the new state with the
-- handle that it closes after its lock is released.
use logi_mate.Base.{
  ℕ, suc, ◌+◌, ◌-◌, ◌*◌, ◌^◌, min, Bool, true, not, ◌&&◌, Option, none, some, [], ◌∷◌, ◌++◌, ltb,
  leb, ◌==◌, if◌then◌else◌,
}
use logi_mate.Base.Float.{zero_f}
use logi_mate.Base.Results.{Result, ok, err}
use logi_mate.Base.Text.{Text, codes, equal_fold, is_empty}
use logi_mate.SharedHid.State.{SharedReader, zero_joy}

-- syscall.InvalidHandle
abbrev pub invalid_handle : ℕ
invalid_handle = 0xFFFFFFFFFFFFFFFF

abbrev pub is_handle : ℕ → Bool
is_handle h = not (h == 0) && not (h == invalid_handle)

-- `if h != 0 && h != syscall.InvalidHandle { CloseHandle(h) }`: the handle to close.
abbrev pub to_close : ℕ → Option ℕ
to_close h = if is_handle h then some h else none

unfoldable pub direct_hid_handle_connected : ℕ → Text → Bool
direct_hid_handle_connected h path = is_handle h && not (is_empty path)

-- 250 ms, doubled with each further failure up to four times.
unfoldable pub retry_delay : ℕ → ℕ
retry_delay failures = 250000000 * 2 ^ min (failures - 1) 4

abbrev longest_delay : ℕ
longest_delay = 5000000000

unfoldable pub with_open_error : SharedReader → Option Text → SharedReader
with_open_error s none = s
with_open_error s (some cause) = record s {
  last_error = codes "CreateFile: " ++ cause;
  last_error_kind = codes "open";
  last_input_error = codes "CreateFile: " ++ cause;
}

unfoldable pub note_g27_open_failure : SharedReader → Option Text → ℕ → SharedReader
unfolding with_open_error retry_delay
note_g27_open_failure s cause now =
    let n = suc s.failures in
    let delay = retry_delay n in
    with_open_error
      (record s {
        failures = n;
        next_open = now + (if ltb longest_delay delay then longest_delay else delay);
      })
      cause

-- What the lock of a successful open does: a new session with an empty state.
unfoldable pub adopt_g27 : SharedReader → Text → ℕ → ℕ → SharedReader × Option ℕ
adopt_g27 s path h now = (
  record s {
    generation = suc s.generation;
    path = path;
    handle = h;
    reconnects = if s.ever_opened then suc s.reconnects else s.reconnects;
    ever_opened = true;
    latest = zero_joy;
    raw = [];
    last_read = 0;
    rate_start = now;
    rate_count = 0;
    rate_hz = zero_f;
    last_error = [];
    last_error_kind = [];
    last_malformed = 0;
    malformed_count = 0;
    next_open = 0;
    failures = 0;
  },
  to_close s.handle,
)

-- The path to open: the listed one, or that of a new scan, at most one in a second.
unfoldable pub g27_path : SharedReader → Text → Text → ℕ → SharedReader × Text
g27_path s listed scanned now =
    if not (is_empty listed)
    then (s, listed)
    else if leb 1000000000 (now - s.last_scan)
    then (record s { last_scan = now }, scanned)
    else (s, [])

-- The tests before CreateFile: there is a path, it is not open, and no wait after a failure.
unfoldable pub opens_g27 : SharedReader → Text → ℕ → Bool
opens_g27 s path now =
    not (is_empty path)
    && not (equal_fold s.path path && is_handle s.handle)
    && not (not (s.next_open == 0) && ltb now s.next_open)

-- "Direct-HID-Gerät lieferte einen ungültigen Handle", in UTF-8.
abbrev no_handle_text : Text
no_handle_text =
    codes "Direct-HID-Ger"
    ++ (0xC3 ∷ 0xA4 ∷ [])
    ++ codes "t lieferte einen ung"
    ++ (0xC3 ∷ 0xBC ∷ [])
    ++ codes "ltigen Handle"

unfoldable pub opened_g27 : SharedReader → Text → Result Text ℕ → ℕ → SharedReader × Option ℕ
unfolding note_g27_open_failure adopt_g27
opened_g27 s path (err cause) now = (note_g27_open_failure s (some cause) now, none)
opened_g27 s path (ok h) now =
    if h == invalid_handle
    then (note_g27_open_failure s (some no_handle_text) now, none)
    else adopt_g27 s path h now

-- `created` is what CreateFile answers, if it is called.
unfoldable pub ensure_g27_shared_reader :
    SharedReader → Text → Text → Result Text ℕ → ℕ → SharedReader × Option ℕ
unfolding g27_path opens_g27 opened_g27
ensure_g27_shared_reader s listed scanned created now =
    let (s', path) = g27_path s listed scanned now in
    if opens_g27 s' path now then opened_g27 s' path created now else (s', none)
