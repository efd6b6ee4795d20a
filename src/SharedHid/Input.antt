-- ===== src/SharedHid/Input.antt =====
-- internal/system/g27_shared_hid_windows.go, readG27SharedInput, and classic_shared_hid_windows.go,
-- readClassicSharedInput, after their ensure step: what the program sees of a reader.
use logi_mate.Base.{
  ℕ, ◌-◌, ◌≡◌, refl, inl, inr, Bool, true, false, not, ◌&&◌, ◌||◌, [], ◌∷◌, ◌++◌, ltb, ◌==◌,
  Bool-cases, if◌then◌else◌,
}
use logi_mate.Base.Text.{Text, codes, is_empty, text_eq}
use logi_mate.SharedHid.State.{direct_hid_name, JoyState, SharedReader, zero_joy}
use logi_mate.SharedHid.Open.{direct_hid_handle_connected}

-- 3 s without a report make an idle wheel.
abbrev pub idle_after : ℕ
idle_after = 3000000000

-- `malformedCount > 0 && !lastMalformed.IsZero() && (last.IsZero() || lastMalformed.After(last))`
abbrev malformed_since : SharedReader → Bool
malformed_since s =
    ltb 0 s.malformed_count
    && not (s.last_malformed == 0)
    && (s.last_read == 0 || ltb s.last_read s.last_malformed)

abbrev is_idle : SharedReader → ℕ → Bool
is_idle s now = not (s.last_read == 0) && ltb idle_after (now - s.last_read)

unfoldable pub g27_connection : SharedReader → ℕ → Text
g27_connection s now =
    if malformed_since s
    then codes "Malformed"
    else if is_idle s now
    then codes "Idle"
    else codes "Connected"

abbrev report_age : SharedReader → ℕ → ℕ
report_age s now = if s.last_read == 0 then s.latest.last_report_age else now - s.last_read

unfoldable pub g27_state : SharedReader → ℕ → JoyState
unfolding g27_connection
g27_state s now = record s.latest {
  connection_state = g27_connection s now;
  raw_report = s.raw;
  report_rate_hz = s.rate_hz;
  reconnects = s.reconnects;
  last_input_error = s.last_input_error;
  last_report_age = report_age s now;
}

abbrev waiting_state : SharedReader → JoyState
waiting_state s = record zero_joy {
  name = direct_hid_name (codes "Logitech G27");
  connection_state = if ltb 0 s.malformed_count then codes "Malformed" else codes "Connected";
  x = 32768;
  num_axes = 4;
  num_buttons = 16;
  native_controls = true;
  pov = 0xFFFF;
  connected = (codes "Direct HID: " ++ s.path) ∷ [];
  raw_report = s.raw;
  report_rate_hz = s.rate_hz;
  reconnects = s.reconnects;
  last_input_error = s.last_input_error;
}

abbrev retry_pending : SharedReader → ℕ → Bool
retry_pending s now = not (s.next_open == 0) && ltb now s.next_open

unfoldable pub disconnected_connection : SharedReader → ℕ → Text
disconnected_connection s now =
    if retry_pending s now
    then codes "Reconnecting"
    else if text_eq s.last_error_kind (codes "read")
    then codes "Read error"
    else if text_eq s.last_error_kind (codes "switch")
    then codes "Reconnecting"
    else codes "Open error"

unfoldable pub read_g27_shared_input : SharedReader → ℕ → JoyState
unfolding g27_state g27_connection disconnected_connection direct_hid_handle_connected
read_g27_shared_input s now =
    let connected = direct_hid_handle_connected s.handle s.path in
    if connected && s.latest.found
    then g27_state s now
    else if connected
    then waiting_state s
    else if not (is_empty s.last_error)
    then record zero_joy {
      connection_state = disconnected_connection s now;
      last_input_error = s.last_error;
      reconnects = s.reconnects;
    }
    else record zero_joy { connection_state = codes "Reconnecting"; reconnects = s.reconnects }

-- The classic reader keeps the state that its report gave where it is neither malformed nor idle.
unfoldable pub classic_connection : SharedReader → ℕ → Text
classic_connection s now =
    if malformed_since s
    then codes "Malformed"
    else if ltb idle_after (report_age s now)
    then codes "Idle"
    else s.latest.connection_state

unfoldable pub read_classic_shared_input : SharedReader → ℕ → JoyState
unfolding classic_connection direct_hid_handle_connected
read_classic_shared_input s now =
    let connected = direct_hid_handle_connected s.handle s.path in
    if connected && s.latest.found
    then record s.latest {
      report_rate_hz = s.rate_hz;
      reconnects = s.reconnects;
      raw_report = s.raw;
      last_report_age = report_age s now;
      connection_state = classic_connection s now;
    }
    else if connected
    then record zero_joy {
      connection_state = if ltb 0 s.malformed_count then codes "Malformed" else codes "Connected";
      x = 32768;
      pov = 0xFFFF;
      reconnects = s.reconnects;
      report_rate_hz = s.rate_hz;
      last_input_error = s.last_input_error;
    }
    else if not (is_empty s.last_error)
    then record zero_joy {
      connection_state =
          if retry_pending s now
          then codes "Reconnecting"
          else if text_eq s.last_error_kind (codes "read")
          then codes "Read error"
          else codes "Open error";
      last_input_error = s.last_input_error;
      reconnects = s.reconnects;
    }
    else record zero_joy { connection_state = codes "Reconnecting"; reconnects = s.reconnects }

-- Two reads of a state differ in the connection state and in the age of the report alone.
abbrev SameButAge : JoyState → JoyState → Type 0
SameButAge j k =
    record j { connection_state = k.connection_state; last_report_age = k.last_report_age } ≡ k

held_reads :
    (s : SharedReader) (now later : ℕ) (b : Bool)
    → s.latest.found ≡ b
    → SameButAge
        (if b then g27_state s later else waiting_state s)
        (if b then g27_state s now else waiting_state s)
      × ((if b then g27_state s now else waiting_state s).found ≡ b)
unfolding g27_state
held_reads s now later true e = (refl, e)
held_reads s now later false e = (refl, refl)

-- However long a wheel is silent: two reads without an event between them differ in the connection state
-- and in the age of the report alone, and a read finds the wheel exactly if the session has a handle
-- and a path and has had a report.
silent_wheel_stays :
    (s : SharedReader) (now later : ℕ)
    → SameButAge (read_g27_shared_input s later) (read_g27_shared_input s now)
      × ((read_g27_shared_input s now).found
          ≡ (direct_hid_handle_connected s.handle s.path && s.latest.found))
unfolding read_g27_shared_input
silent_wheel_stays s now later = elim (Bool-cases (direct_hid_handle_connected s.handle s.path)) [
  | inr lost ↦ elim (Bool-cases (is_empty s.last_error)) [
    | inl quiet ↦ rw (lost, quiet) (refl, refl)
    | inr told ↦ rw (lost, told) (refl, refl)
  ]
  | inl held ↦ rw held (held_reads s now later s.latest.found refl)
]
