-- ===== src/SharedHid/Classic.antt =====
-- internal/system/classic_shared_hid_windows.go: the reader of the G25 and the Driving Force GT, and
-- the decoding of its reports.
use logi_mate.Base.{
  ℕ, suc, ◌+◌, ◌-◌, ◌*◌, Bool, true, false, not, ◌&&◌, ◌||◌, Option, none, some, List, [], ◌∷◌,
  ◌++◌, ltb, ◌==◌, if◌then◌else◌,
}
use logi_mate.Base.Float.{zero_f}
use logi_mate.Base.Results.{Result, ok, err}
use logi_mate.Base.Text.{Text, codes, equal_fold}
use logi_mate.Model.{ModelId, g25, g27, dfgt}
use logi_mate.Input.{NativeInputReport, parse_native_input_report}
use logi_mate.SharedHid.State.{direct_hid_name, JoyState, SharedReader, zero_joy}
use logi_mate.SharedHid.Open.{
  invalid_handle, to_close, retry_delay, with_open_error, direct_hid_handle_connected,
}
use logi_mate.SharedHid.{owns, counted, connected_to, stored}

-- `uint32(255-v) * 257`: a byte of a pedal at rest is 255.
unfoldable pub pedal_axis : ℕ → ℕ
pedal_axis v = (255 - v) * 257

abbrev pub pov_of : ℕ → ℕ
pov_of d_pad = if ltb 0 d_pad then (d_pad - 1) * 4500 else 0xFFFF

-- The fields that both models share.
unfoldable pub classic_fields : NativeInputReport → ℕ → JoyState
unfolding pedal_axis
classic_fields raw now = record zero_joy {
  found = true;
  x = raw.steering;
  y = pedal_axis raw.throttle_raw;
  z = pedal_axis raw.brake_raw;
  buttons = raw.buttons;
  pov = pov_of raw.d_pad;
  d_pad = raw.d_pad;
  gear = raw.gear;
  paddle_left = raw.paddle_left;
  paddle_right = raw.paddle_right;
  wheel_buttons = raw.wheel_buttons;
  shifter_buttons = raw.shifter_buttons;
  connection_state = codes "Connected";
  input_source = codes "direct-hid";
  layout_id = raw.layout_id;
  sample_valid = true;
  sample_at = now;
}

unfoldable pub classic_state : ModelId → NativeInputReport → ℕ → Option JoyState
unfolding classic_fields pedal_axis
classic_state g25 raw now = some (record (classic_fields raw now) {
  name = direct_hid_name (codes "Logitech G25");
  num_axes = 4;
  num_buttons = 20;
  r = pedal_axis raw.clutch_raw;
  native_controls = true;
})
classic_state dfgt raw now = some (record (classic_fields raw now) {
  name = direct_hid_name (codes "Logitech Driving Force GT");
  num_axes = 3;
  num_buttons = 24;
})
classic_state g27 raw now = none
classic_state ModelId.unknown raw now = none
classic_state ModelId.compatibility raw now = none

unfoldable pub parse_classic_native_report : ModelId → List ℕ → ℕ → Option JoyState
unfolding classic_state
parse_classic_native_report m report now = elim (parse_native_input_report m report) [
  | err e ↦ none
  | ok raw ↦ classic_state m raw now
]

unfoldable pub note_classic_open_failure : SharedReader → Option Text → ℕ → SharedReader
unfolding with_open_error retry_delay
note_classic_open_failure s cause now =
    with_open_error
      (record s { failures = suc s.failures; next_open = now + retry_delay (suc s.failures) }) cause

-- The one listed path, or else the one of a new enumeration.
unfoldable pub classic_path : List Text → List Text → Option Text
classic_path [] [] = none
classic_path [] (path ∷ []) = some path
classic_path [] (path ∷ other ∷ others) = none
classic_path (path ∷ []) scanned = some path
classic_path (path ∷ other ∷ others) scanned = none

unfoldable pub opens_classic : SharedReader → Text → Text → ℕ → Bool
opens_classic s model path now = not (
    equal_fold s.path path
      && equal_fold s.model model
      && direct_hid_handle_connected s.handle s.path
    || not (s.next_open == 0) && ltb now s.next_open)

unfoldable pub adopt_classic : SharedReader → Text → Text → Text → ℕ → ℕ → SharedReader × Option ℕ
adopt_classic s model pid path h now = (
  record s {
    reconnects = if s.ever_opened then suc s.reconnects else s.reconnects;
    ever_opened = true;
    generation = suc s.generation;
    model = model;
    pid = pid;
    path = path;
    handle = h;
    latest = zero_joy;
    raw = [];
    last_read = 0;
    last_error = [];
    last_error_kind = [];
    last_malformed = 0;
    malformed_count = 0;
    next_open = 0;
    failures = 0;
    rate_start = now;
    rate_count = 0;
    rate_hz = zero_f;
  },
  to_close s.handle,
)

-- "ungültiger Direct-HID-Handle", in UTF-8.
abbrev no_handle_text : Text
no_handle_text = codes "ung" ++ (0xC3 ∷ 0xBC ∷ []) ++ codes "ltiger Direct-HID-Handle"

unfoldable pub opened_classic :
    SharedReader → Text → Text → Text → Result Text ℕ → ℕ → SharedReader × Option ℕ
unfolding note_classic_open_failure adopt_classic
opened_classic s model pid path (err cause) now =
    (note_classic_open_failure s (some cause) now, none)
opened_classic s model pid path (ok h) now =
    if h == invalid_handle
    then (note_classic_open_failure s (some no_handle_text) now, none)
    else adopt_classic s model pid path h now

-- `pid` is the native product id of the model, if it has one and is no G27.
unfoldable pub ensure_classic_shared_reader :
    SharedReader
    → Text
    → Option Text
    → List Text
    → List Text
    → Result Text ℕ
    → ℕ
    → SharedReader × Option ℕ
unfolding classic_path opens_classic opened_classic
ensure_classic_shared_reader s model none listed scanned created now = (s, none)
ensure_classic_shared_reader s model (some pid) listed scanned created now =
    elim (classic_path listed scanned) [
      | none ↦ (s, none)
      | some path ↦
          if opens_classic s model path now
          then opened_classic s model pid path created now
          else (s, none)
    ]

-- The turn of the reading loop after an error: the handle is closed in either case.
unfoldable pub read_failed_classic : SharedReader → ℕ → ℕ → Text → ℕ → SharedReader × Option ℕ
unfolding retry_delay
read_failed_classic s h generation error now = (
  if owns s h generation
      then record s {
        handle = invalid_handle;
        path = [];
        last_error = error;
        last_error_kind = codes "read";
        last_input_error = codes "ReadFile: " ++ error;
        failures = suc s.failures;
        next_open = now + retry_delay (suc s.failures);
      }
      else s,
  some h,
)

-- `described` is the text that names the length of the report.
unfoldable pub malformed_classic : SharedReader → ℕ → ℕ → Text → ℕ → SharedReader
malformed_classic s h generation described now =
    if owns s h generation
    then record s {
      malformed_count = suc s.malformed_count;
      last_malformed = now;
      last_input_error = described;
    }
    else s

unfoldable pub sampled_classic : SharedReader → Text → ℕ → ℕ → JoyState → List ℕ → ℕ → SharedReader
unfolding counted
sampled_classic s path h generation j raw now =
    if owns s h generation
    then stored (counted s now) (record (connected_to j path raw) { last_report_age = 0 }) raw now
    else s

unfoldable pub close_classic_shared_input : SharedReader → SharedReader × Option ℕ
close_classic_shared_input s = (
  record s {
    generation = suc s.generation;
    handle = invalid_handle;
    path = [];
    model = [];
    pid = [];
    latest = zero_joy;
    raw = [];
    last_read = 0;
    last_error = [];
    last_error_kind = [];
    last_malformed = 0;
    malformed_count = 0;
    next_open = 0;
    failures = 0;
    ever_opened = false;
  },
  to_close s.handle,
)
