-- ===== src/Discovery.antt =====
-- internal/system/system_windows.go, wheels_windows.go, g27_shared_hid_windows.go and native_windows.go:
-- the wheels of a state, and the HID paths that belong to one. A record has the fields that output and
-- recovery read. What Windows answers about a HID path is an argument.
pub mod Target
pub mod Paths
pub mod Listed
pub mod Exact
pub mod Recovery
pub mod Outcomes
pub mod Foreign
mod Examples
use logi_mate.Base.{
  ℕ, Bool, true, false, not, ◌&&◌, ◌||◌, Option, none, some, List, [], ◌∷◌, ◌++◌, map, drop, ltb,
  ◌==◌, if◌then◌else◌,
}
use logi_mate.Base.Text.{
  Text, codes, text_eq, text_lt, trim_space, is_empty, to_lower, to_upper, has_prefix, contains,
  equal_fold,
}
use logi_mate.Model.{
  ModelId, unknown, compatibility, g25, g27, dfgt, same_model, OperatingMode, unknown_mode, legacy,
  modern, Descriptor, descriptor_for_model, model_from_display_name, parse_operating_mode,
}

-- A kind is none where the string is empty.
pub record WheelDevice : Type 0 where
  pub id : Text
  pub session_id : Text
  pub model : Text
  pub mode : Text
  pub model_kind : Option ModelId
  pub mode_kind : Option OperatingMode
  pub instance_id : Text
  pub interface_ids : List Text
  pub supported : Bool
  pub model_confirmed : Bool
  pub pnp_verified : Bool
  pub hardware_fingerprint : Text

pub record State : Type 0 where
  pub data_dir : Text
  pub wheels : List WheelDevice
  pub selected_wheel_id : Text
  pub active_mode : Text
  pub raw_input_devices : List Text

unfoldable pub find_wheel : Text → List WheelDevice → Option WheelDevice
find_wheel id [] = none
find_wheel id (w ∷ ws) =
    let later = find_wheel id ws in
    if not (is_empty id) && equal_fold w.id id then some w else later

abbrev pub selected_wheel : State → Option WheelDevice
selected_wheel s = find_wheel s.selected_wheel_id s.wheels

unfoldable pub wheel_model_kind : WheelDevice → ModelId
wheel_model_kind w = elim w.model_kind [
  | none ↦ model_from_display_name w.model
  | some k ↦ if same_model k unknown then model_from_display_name w.model else k
]

abbrev known_mode : OperatingMode → Bool
known_mode unknown_mode = false
known_mode legacy = true
known_mode modern = true

unfoldable pub wheel_mode_kind : WheelDevice → OperatingMode
wheel_mode_kind w = elim w.mode_kind [
  | none ↦ parse_operating_mode w.mode
  | some k ↦ if known_mode k then k else parse_operating_mode w.mode
]

-- A model with native output: none for an unknown one and for the compatibility mode.
abbrev pub is_native : ModelId → Bool
is_native k = same_model k g25 || (same_model k g27 || same_model k dfgt)

unfoldable pub has_actionable_selected_wheel : State → Bool
unfolding find_wheel wheel_model_kind
has_actionable_selected_wheel s = elim (selected_wheel s) [
  | none ↦ false
  | some w ↦
      w.supported && (w.model_confirmed && (w.pnp_verified && is_native (wheel_model_kind w)))
]

-- IsKnownWheelModel, and sameKnownWheelModel.
abbrev pub is_known_wheel_model : Text → Bool
is_known_wheel_model model = is_native (model_from_display_name model)

abbrev pub same_known_wheel_model : Text → Text → Bool
same_known_wheel_model a b =
    is_known_wheel_model a && same_model (model_from_display_name a) (model_from_display_name b)

-- The capabilities of a model: its descriptor, unless that is of an unknown or a compatible wheel.
unfoldable pub wheel_capabilities : ModelId → Option Descriptor
unfolding descriptor_for_model
wheel_capabilities k = elim (descriptor_for_model k) [
  | none ↦ none
  | some d ↦ if same_model d.model unknown || same_model d.model compatibility then none else some d
]

-- The product id of a model with native output.
abbrev pid_of : Option Descriptor → Option Text
pid_of none = none
pid_of (some d) =
    if not d.output.native_ffb || is_empty d.native_pid then none else some d.native_pid

unfoldable pub native_pid : ModelId → Option Text
unfolding wheel_capabilities
native_pid k = pid_of (wheel_capabilities k)

abbrev native_output_pid : Text → Option Text
native_output_pid model = native_pid (model_from_display_name model)

unfoldable pub first_pid : Text → List Text → Text
unfolding contains
first_pid u [] = []
first_pid u (pid ∷ pids) =
    let later = first_pid u pids in if contains u (codes "PID_" ++ pid) then pid else later

unfoldable pub device_pid : Text → Text
unfolding first_pid
device_pid instance_id =
    first_pid (to_upper instance_id)
      (codes "C299" ∷ codes "C29A" ∷ codes "C29B" ∷ codes "C294" ∷ [])

-- The text before its first `#{`.
unfoldable pub before_class : Text → Text
unfolding has_prefix
before_class [] = []
before_class (c ∷ cs) =
    let rest = before_class cs in if has_prefix (c ∷ cs) (codes "#{") then [] else c ∷ rest

abbrev without_prefix : Text → Text
without_prefix v = if has_prefix v (92 ∷ 92 ∷ 63 ∷ 92 ∷ []) then drop 4 v else v

-- `#` becomes a backslash.
abbrev separator : ℕ → ℕ
separator c = if c == 35 then 92 else c

unfoldable pub raw_path_instance_id : Text → Text
unfolding before_class trim_space has_prefix
raw_path_instance_id path =
    to_upper (trim_space (map separator (before_class (without_prefix (trim_space path)))))

unfoldable pub member : Text → List Text → Bool
unfolding text_eq
member k [] = false
member k (x ∷ xs) = text_eq x k || member k xs

unfoldable pub wheel_interfaces : List Text → List Text
unfolding trim_space
wheel_interfaces [] = []
wheel_interfaces (id ∷ ids) =
    let rest = wheel_interfaces ids in
    let k = to_upper (trim_space id) in if is_empty k then rest else k ∷ rest

-- The paths that pass a test, each once by its text in lower case; those in `seen` came before.
module _ (fits : Text → Bool) where
  unfoldable pub distinct : List Text → List Text → List Text
  unfolding member
  distinct seen [] = []
  distinct seen (p ∷ ps) =
      let k = to_lower (trim_space p) in
      let good = fits p && not (is_empty k || member k seen) in
      let rest = distinct (if good then k ∷ seen else seen) ps in if good then p ∷ rest else rest

abbrev pub of_wheel : WheelDevice → Text → Text → Bool
of_wheel w pid path =
    text_eq (device_pid path) pid
    && member (raw_path_instance_id path) (wheel_interfaces (w.instance_id ∷ w.interface_ids))

unfoldable pub raw_paths_for_wheel : WheelDevice → List Text → Text → List Text
unfolding distinct
raw_paths_for_wheel w paths pid = distinct (of_wheel w pid) [] paths
