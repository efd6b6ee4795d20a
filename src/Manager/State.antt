-- ===== src/Manager/State.antt =====
-- internal/wheelengine/state.go: what is known of one wheel. A float that is only copied is its bit
-- pattern, a time is a number whose 0 is Go's zero time, and a duration is in nanoseconds.
use logi_mate.Base.{ℕ, ◌-◌, Bool, false, not, ◌&&◌, [], ltb, leb, ◌==◌}
use logi_mate.Base.Int.{ℤ, pos}
use logi_mate.Base.Text.{Text}
use logi_mate.Model.{ModelId, unknown, OperatingMode}

pub data ConnectionState : Type 0 where
  connection_unknown connected reconnecting disconnected connection_error ambiguous :
      ConnectionState

pub data InputSource : Type 0 where
  source_unknown direct_hid winmm : InputSource

pub record Device : Type 0 where
  pub stable_id : Text
  pub session_id : Text
  pub hardware_fingerprint : Text
  pub persistent_identity : Bool
  pub name : Text
  pub model : ModelId
  pub mode : OperatingMode
  pub supported : Bool
  pub model_confirmed : Bool
  pub pnp_verified : Bool
  pub native_path : Text

pub record InputState : Type 0 where
  pub wheel_id : Text
  pub session_id : Text
  pub model : ModelId
  pub source : InputSource
  pub layout_id : Text
  pub connection : ConnectionState
  pub sample_valid : Bool
  pub sample_generation : ℕ
  pub sample_at : ℕ
  pub steering : ℕ
  pub steering_degrees : ℕ
  pub throttle : ℕ
  pub brake : ℕ
  pub clutch : ℕ
  pub buttons : ℕ
  pub d_pad : ℤ
  pub gear : ℤ
  pub paddle_left : Bool
  pub paddle_right : Bool
  pub error : Text

pub record OutputState : Type 0 where
  pub lease_active : Bool
  pub generation : ℕ
  pub motor : Bool
  pub purpose : Text
  pub last_command : Text
  pub last_error : Text
  pub updated_at : ℕ

pub record Health : Type 0 where
  pub connected : Bool
  pub input_fresh : Bool
  pub output_blocked : Bool
  pub recovery_pending : Bool
  pub last_error : Text
  pub updated_at : ℕ

pub record Runtime : Type 0 where
  pub device : Device
  pub input : InputState
  pub output : OutputState
  pub health : Health

-- The zero values; an empty connection or source is read as unknown.
abbrev pub zero_device : Device
zero_device = record {
  stable_id = [];
  session_id = [];
  hardware_fingerprint = [];
  persistent_identity = false;
  name = [];
  model = unknown;
  mode = OperatingMode.unknown_mode;
  supported = false;
  model_confirmed = false;
  pnp_verified = false;
  native_path = [];
}

abbrev pub zero_input : InputState
zero_input = record {
  wheel_id = [];
  session_id = [];
  model = unknown;
  source = source_unknown;
  layout_id = [];
  connection = connection_unknown;
  sample_valid = false;
  sample_generation = 0;
  sample_at = 0;
  steering = 0;
  steering_degrees = 0;
  throttle = 0;
  brake = 0;
  clutch = 0;
  buttons = 0;
  d_pad = pos 0;
  gear = pos 0;
  paddle_left = false;
  paddle_right = false;
  error = [];
}

abbrev pub zero_output : OutputState
zero_output = record {
  lease_active = false;
  generation = 0;
  motor = false;
  purpose = [];
  last_command = [];
  last_error = [];
  updated_at = 0;
}

abbrev pub zero_health : Health
zero_health = record {
  connected = false;
  input_fresh = false;
  output_blocked = false;
  recovery_pending = false;
  last_error = [];
  updated_at = 0;
}

abbrev pub zero_runtime : Runtime
zero_runtime = record {
  device = zero_device;
  input = zero_input;
  output = zero_output;
  health = zero_health;
}

unfoldable pub fresh : InputState → ℕ → ℕ → Bool
fresh s now max_age =
    s.sample_valid
    && (not (s.sample_at == 0) && not (max_age == 0))
    && (not (ltb now s.sample_at) && leb (now - s.sample_at) max_age)
