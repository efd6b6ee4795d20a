-- ===== src/Model.antt =====
-- internal/wheelengine/model.go: the wheel models and what each can do. A ModelID that is none of the
-- five constants has no descriptor, as `unknown` has none.
pub mod Adapter
pub mod Certification
pub mod Identity
mod Examples
use logi_mate.Base.{
  ℕ, Bool, true, false, ◌&&◌, ◌||◌, Option, none, some, List, [], ◌∷◌, ltb, ◌==◌, if◌then◌else◌,
}
use logi_mate.Base.Text.{
  Text, codes, text_eq, to_lower, lower, to_upper, upper, trim_space, has_prefix, contains,
  is_empty,
}
use logi_mate.Base.Results.{Result, ok, err}

pub data ModelId : Type 0 where
  unknown compatibility g25 g27 dfgt : ModelId

abbrev pub same_model : ModelId → ModelId → Bool
same_model unknown unknown = true
same_model compatibility compatibility = true
same_model g25 g25 = true
same_model g27 g27 = true
same_model dfgt dfgt = true
same_model _ _ = false

pub data OperatingMode : Type 0 where
  unknown_mode legacy modern : OperatingMode

pub data ValidationLevel : Type 0 where
  unknown_level code_only hardware_gate validated : ValidationLevel

pub record ControlCapabilities : Type 0 where
  pub clutch : Bool
  pub h_shifter : Bool
  pub sequential_shift : Bool
  pub paddles : Bool
  pub d_pad : Bool
  pub rpm_leds : Bool
  pub button_count : ℕ

pub record OutputCapabilities : Type 0 where
  pub native_ffb : Bool
  pub range : Bool
  pub autocenter : Bool
  pub constant_force : Bool
  pub spring : Bool
  pub damper : Bool
  pub friction : Bool
  pub rpm_leds : Bool
  pub max_effect_slots : ℕ
  pub max_rotation_deg : ℕ
  pub min_rotation_deg : ℕ

pub record Descriptor : Type 0 where
  pub model : ModelId
  pub display_name : Text
  pub vendor_id : Text
  pub compatibility_pid : Text
  pub native_pid : Text
  pub native_mode_selector : ℕ
  pub native_mode_label : Text
  pub controls : ControlCapabilities
  pub output : OutputCapabilities
  pub validation : ValidationLevel

-- The output capabilities that the three native descriptors share; only the LEDs differ.
abbrev classic_output : Bool → OutputCapabilities
classic_output leds = record {
  native_ffb = true;
  range = true;
  autocenter = true;
  constant_force = true;
  spring = true;
  damper = true;
  friction = true;
  rpm_leds = leds;
  max_effect_slots = 4;
  max_rotation_deg = 900;
  min_rotation_deg = 40;
}

abbrev g25_descriptor : Descriptor
g25_descriptor = record {
  model = g25;
  display_name = codes "Logitech G25";
  vendor_id = codes "046D";
  compatibility_pid = codes "C294";
  native_pid = codes "C299";
  native_mode_selector = 2;
  native_mode_label = codes "G25 / C299";
  controls = record {
    clutch = true;
    h_shifter = true;
    sequential_shift = true;
    paddles = true;
    d_pad = true;
    rpm_leds = false;
    button_count = 18;
  };
  output = classic_output false;
  validation = hardware_gate;
}

abbrev g27_descriptor : Descriptor
g27_descriptor = record {
  model = g27;
  display_name = codes "Logitech G27";
  vendor_id = codes "046D";
  compatibility_pid = codes "C294";
  native_pid = codes "C29B";
  native_mode_selector = 4;
  native_mode_label = codes "G27 / C29B";
  controls = record {
    clutch = true;
    h_shifter = true;
    sequential_shift = false;
    paddles = true;
    d_pad = true;
    rpm_leds = true;
    button_count = 22;
  };
  output = classic_output true;
  validation = hardware_gate;
}

abbrev dfgt_descriptor : Descriptor
dfgt_descriptor = record {
  model = dfgt;
  display_name = codes "Logitech Driving Force GT";
  vendor_id = codes "046D";
  compatibility_pid = codes "C294";
  native_pid = codes "C29A";
  native_mode_selector = 3;
  native_mode_label = codes "Driving Force GT / C29A";
  controls = record {
    clutch = false;
    h_shifter = false;
    sequential_shift = true;
    paddles = false;
    d_pad = true;
    rpm_leds = false;
    button_count = 20;
  };
  output = classic_output false;
  validation = hardware_gate;
}

abbrev compatibility_descriptor : Descriptor
compatibility_descriptor = record {
  model = compatibility;
  display_name = codes "Logitech C294 compatibility mode";
  vendor_id = codes "046D";
  compatibility_pid = codes "C294";
  native_pid = [];
  native_mode_selector = 0;
  native_mode_label = [];
  controls = record {
    clutch = false;
    h_shifter = false;
    sequential_shift = false;
    paddles = false;
    d_pad = false;
    rpm_leds = false;
    button_count = 0;
  };
  output = record {
    native_ffb = false;
    range = false;
    autocenter = false;
    constant_force = false;
    spring = false;
    damper = false;
    friction = false;
    rpm_leds = false;
    max_effect_slots = 0;
    max_rotation_deg = 0;
    min_rotation_deg = 0;
  };
  validation = code_only;
}

unfoldable pub descriptor_for_model : ModelId → Option Descriptor
descriptor_for_model unknown = none
descriptor_for_model compatibility = some compatibility_descriptor
descriptor_for_model g25 = some g25_descriptor
descriptor_for_model g27 = some g27_descriptor
descriptor_for_model dfgt = some dfgt_descriptor

unfoldable pub model_from_pid : Text → ModelId
unfolding text_eq upper trim_space
model_from_pid pid =
    let s = to_upper (trim_space pid) in
    if text_eq s (codes "C299")
    then g25
    else if text_eq s (codes "C29B")
    then g27
    else if text_eq s (codes "C29A")
    then dfgt
    else if text_eq s (codes "C294")
    then compatibility
    else unknown

unfoldable pub model_from_display_name : Text → ModelId
unfolding lower trim_space has_prefix contains
model_from_display_name name =
    let s = to_lower (trim_space name) in
    if has_prefix s (codes "logitech g25")
    then g25
    else if has_prefix s (codes "logitech g27")
    then g27
    else if has_prefix s (codes "logitech driving force gt")
    then dfgt
    else if contains s (codes "c294")
        && (contains s (codes "compat") || contains s (codes "kompat"))
    then compatibility
    else unknown

unfoldable pub parse_operating_mode : Text → OperatingMode
unfolding lower trim_space contains
parse_operating_mode mode =
    let s = to_lower (trim_space mode) in
    if contains s (codes "generic hid") || contains s (codes "modern")
    then modern
    else if contains s (codes "legacy") || contains s (codes "logitech gaming")
    then legacy
    else unknown_mode
