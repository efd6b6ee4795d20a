-- ===== src/SharedHid.antt =====
-- internal/system/g27_shared_hid_windows.go and classic_shared_hid_windows.go: the one HID session
-- that reads a wheel, and that the G27 also writes through. An operation takes the results of the
-- system as arguments, and gives the new state with the handle that it closes after its lock is
-- released. A time is in nanoseconds, 0 for the zero time; the texts for the display, but for the name
-- of a wheel, are left out.
pub mod State
pub mod Open
pub mod Classic
pub mod Decode
pub mod Pedals
pub mod Input
pub mod Events
pub mod Handles
pub mod Doubled
pub mod Backoff
mod Examples
use logi_mate.Base.{
  ℕ, suc, ◌+◌, ◌-◌, ◌*◌, ◌/◌, ◌%◌, ◌^◌, min, Bool, true, false, not, ◌&&◌, ◌||◌, Option, none, some,
  List, [], ◌∷◌, ◌++◌, ltb, leb, ◌==◌, if◌then◌else◌,
}
use logi_mate.Base.Int.{ℤ, pos}
use logi_mate.Base.Float.{Float64, zero_f, of_ℕ, ◌+f◌, ◌/f◌}
use logi_mate.Base.Results.{Result, ok, err}
use logi_mate.Base.Text.{Text, codes, equal_fold, trim_space, is_empty}
use logi_mate.SharedHid.State.{JoyState, SharedReader, zero_joy}
use logi_mate.SharedHid.Open.{invalid_handle, is_handle, to_close, retry_delay}

abbrev pub same_path : SharedReader → Text → Bool
same_path s path = equal_fold (trim_space s.path) (trim_space path)

-- The session that a writer borrows: its handle and its generation.
unfoldable pub borrow_g27_shared_output : SharedReader → Text → Option (ℕ × ℕ)
borrow_g27_shared_output s path =
    if not (is_handle s.handle) || is_empty s.path
    then none
    else if not (same_path s path)
    then none
    else some (s.handle, s.generation)

unfoldable pub g27_shared_output_healthy : SharedReader → Text → ℕ → ℕ → Bool
g27_shared_output_healthy s path h generation =
    not (generation == 0)
    && s.generation == generation
    && s.handle == h
    && is_handle h
    && same_path s path

abbrev pub owns : SharedReader → ℕ → ℕ → Bool
owns s h generation = s.generation == generation && s.handle == h

-- The session ends with an error and waits before the next open.
unfoldable pub lost_g27 : SharedReader → Text → Text → Text → ℕ → SharedReader
unfolding retry_delay
lost_g27 s error kind input_error now =
    let n = suc s.failures in
    record s {
      generation = suc s.generation;
      handle = invalid_handle;
      path = [];
      last_error = error;
      last_error_kind = kind;
      last_input_error = input_error;
      failures = n;
      next_open = now + retry_delay n;
    }

abbrev invalidated_text : Option Text → Text
invalidated_text none = codes "Unified G27 HID output session invalidated"
invalidated_text (some cause) =
    codes "Unified G27 HID output session invalidated" ++ (codes ": " ++ cause)

unfoldable pub invalidate_g27_shared_output :
    SharedReader → Text → ℕ → ℕ → Option Text → ℕ → SharedReader × Option ℕ
unfolding lost_g27
invalidate_g27_shared_output s path h generation cause now =
    if not (generation == 0) && owns s h generation && same_path s path
    then (
      lost_g27 s (invalidated_text cause) (codes "write") (invalidated_text cause) now,
      to_close h,
    )
    else (s, none)

-- The turn of the reading loop after an error or an empty read.
unfoldable pub read_failed_g27 : SharedReader → ℕ → ℕ → Text → ℕ → SharedReader × Option ℕ
unfolding lost_g27
read_failed_g27 s h generation error now =
    if owns s h generation
    then (lost_g27 s error (codes "read") (codes "ReadFile: " ++ error) now, some h)
    else (s, none)

-- The turn after a report that the parser refuses.
unfoldable pub malformed_g27 : SharedReader → ℕ → ℕ → ℕ → SharedReader
malformed_g27 s h generation now =
    if owns s h generation
    then record s { last_malformed = now; malformed_count = suc s.malformed_count }
    else s

-- `d.Seconds()`
abbrev seconds : ℕ → Float64
seconds d = of_ℕ (d / 1000000000) +f of_ℕ (d % 1000000000) /f of_ℕ 1000000000

-- The rate is measured anew every half second.
unfoldable pub counted : SharedReader → ℕ → SharedReader
counted s now =
    let n = suc s.rate_count in
    let d = now - s.rate_start in
    if leb 500000000 d
    then record s { rate_count = 0; rate_start = now; rate_hz = of_ℕ n /f seconds d }
    else record s { rate_count = n }

abbrev pub connected_to : JoyState → Text → List ℕ → JoyState
connected_to j path raw = record j {
  connected = (codes "Direct HID: " ++ path) ∷ [];
  connection_state = codes "Connected";
  raw_report = raw;
}

abbrev pub stored : SharedReader → JoyState → List ℕ → ℕ → SharedReader
stored s j raw now = record s {
  latest = record j {
    report_rate_hz = s.rate_hz;
    reconnects = s.reconnects;
    last_input_error = s.last_input_error;
  };
  raw = raw;
  last_read = now;
  last_malformed = 0;
  malformed_count = 0;
}

-- The turn after a report that the parser takes; `j` is what it gives.
unfoldable pub sampled_g27 : SharedReader → Text → ℕ → ℕ → JoyState → List ℕ → ℕ → SharedReader
unfolding counted
sampled_g27 s path h generation j raw now =
    if owns s h generation then stored (counted s now) (connected_to j path raw) raw now else s

unfoldable pub close_preferred_input : SharedReader → SharedReader × Option ℕ
close_preferred_input s = (
  record s {
    generation = suc s.generation;
    handle = invalid_handle;
    path = [];
    latest = zero_joy;
    raw = [];
    last_read = 0;
    rate_start = 0;
    rate_count = 0;
    rate_hz = zero_f;
    last_error = [];
    last_error_kind = [];
    last_malformed = 0;
    malformed_count = 0;
    next_open = 0;
    failures = 0;
    ever_opened = false;
  },
  to_close s.handle,
)

abbrev pub initial_reader : SharedReader
initial_reader = record {
  model = [];
  pid = [];
  path = [];
  handle = invalid_handle;
  generation = 0;
  latest = zero_joy;
  raw = [];
  last_read = 0;
  last_scan = 0;
  last_error = [];
  last_error_kind = [];
  last_input_error = [];
  last_malformed = 0;
  malformed_count = 0;
  next_open = 0;
  failures = 0;
  reconnects = 0;
  ever_opened = false;
  rate_start = 0;
  rate_count = 0;
  rate_hz = zero_f;
}
