-- ===== src/SharedHid/State.antt =====
-- JoyState of internal/system/system_windows.go, and the globals of g27_shared_hid_windows.go and
-- classic_shared_hid_windows.go. Of the texts for the display the name of a found wheel is kept; the
-- ends of the axes, which are constants, are left out.
use logi_mate.Base.{ℕ, Bool, false, List, [], ◌∷◌, ◌++◌}
use logi_mate.Base.Int.{ℤ, pos}
use logi_mate.Base.Float.{Float64, zero_f}
use logi_mate.Base.Text.{Text, codes}

pub record JoyState : Type 0 where
  pub found : Bool
  pub name : Text
  pub x : ℕ
  pub y : ℕ
  pub z : ℕ
  pub r : ℕ
  pub u : ℕ
  pub v : ℕ
  pub buttons : ℕ
  pub pov : ℕ
  pub num_axes : ℕ
  pub num_buttons : ℕ
  pub connection_state : Text
  pub connected : List Text
  pub raw_report : List ℕ
  pub report_rate_hz : Float64
  pub last_report_age : ℕ
  pub reconnects : ℕ
  pub last_input_error : Text
  pub steering_degrees : Float64
  pub steering_calibrated : Bool
  pub steering_range_degrees : ℤ
  pub input_source : Text
  pub layout_id : Text
  pub sample_valid : Bool
  pub sample_at : ℕ
  pub gear : ℤ
  pub d_pad : ℕ
  pub paddle_left : Bool
  pub paddle_right : Bool
  pub wheel_buttons : List Bool
  pub shifter_buttons : List Bool
  pub native_controls : Bool

abbrev pub zero_joy : JoyState
zero_joy = record {
  found = false;
  name = [];
  x = 0;
  y = 0;
  z = 0;
  r = 0;
  u = 0;
  v = 0;
  buttons = 0;
  pov = 0;
  num_axes = 0;
  num_buttons = 0;
  connection_state = [];
  connected = [];
  raw_report = [];
  report_rate_hz = zero_f;
  last_report_age = 0;
  reconnects = 0;
  last_input_error = [];
  steering_degrees = zero_f;
  steering_calibrated = false;
  steering_range_degrees = pos 0;
  input_source = [];
  layout_id = [];
  sample_valid = false;
  sample_at = 0;
  gear = pos 0;
  d_pad = 0;
  paddle_left = false;
  paddle_right = false;
  wheel_buttons = false ∷ false ∷ false ∷ false ∷ false ∷ false ∷ [];
  shifter_buttons = false ∷ false ∷ false ∷ false ∷ false ∷ false ∷ false ∷ false ∷ [];
  native_controls = false;
}

-- g27Shared and classicShared; `last_scan` belongs to the first alone, `model` and `pid` to the second.
pub record SharedReader : Type 0 where
  pub model : Text
  pub pid : Text
  pub path : Text
  pub handle : ℕ
  pub generation : ℕ
  pub latest : JoyState
  pub raw : List ℕ
  pub last_read : ℕ
  pub last_scan : ℕ
  pub last_error : Text
  pub last_error_kind : Text
  pub last_input_error : Text
  pub last_malformed : ℕ
  pub malformed_count : ℕ
  pub next_open : ℕ
  pub failures : ℕ
  pub reconnects : ℕ
  pub ever_opened : Bool
  pub rate_start : ℕ
  pub rate_count : ℕ
  pub rate_hz : Float64

-- The name of a wheel that is read directly, with its middle dot in UTF-8.
abbrev pub direct_hid_name : Text → Text
direct_hid_name wheel = wheel ++ (32 ∷ 194 ∷ 183 ∷ 32 ∷ codes "Direct HID")
