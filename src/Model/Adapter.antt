-- ===== src/Model/Adapter.antt =====
-- internal/wheelengine/model_adapter.go: the differences of the models that the runtime sees, and
-- the check that they agree with the descriptors. A model that is none of the three wheels has no
-- adapter.
use logi_mate.Base.{ℕ, Bool, true, false, ◌&&◌, ◌||◌, Option, none, some, ltb, ◌==◌, if◌then◌else◌}
use logi_mate.Base.Text.{Text, codes, text_eq, is_empty}
use logi_mate.Base.Results.{Result, ok, err}
use logi_mate.Model.{
  ModelId, unknown, compatibility, g25, g27, dfgt, ValidationLevel, hardware_gate, Descriptor,
  descriptor_for_model,
}

pub record ModelAdapter : Type 0 where
  pub model : ModelId
  pub input_layout_id : Text
  pub min_native_report_bytes : ℕ
  pub native_pid : Text
  pub mode_selector : ℕ
  pub steering_bits : ℕ
  pub pedal_bits : ℕ
  pub has_analog_shifter : Bool
  pub certification : ValidationLevel

abbrev adapter : ModelId → Text → ℕ → Text → ℕ → Bool → ModelAdapter
adapter m layout n pid selector analog = record {
  model = m;
  input_layout_id = layout;
  min_native_report_bytes = n;
  native_pid = pid;
  mode_selector = selector;
  steering_bits = 16;
  pedal_bits = 8;
  has_analog_shifter = analog;
  certification = hardware_gate;
}

unfoldable pub adapter_for_model : ModelId → Option ModelAdapter
adapter_for_model g25 = some (adapter g25 (codes "g25-c299-v1") 12 (codes "C299") 2 true)
adapter_for_model g27 = some (adapter g27 (codes "g27-c29b-v1") 11 (codes "C29B") 4 false)
adapter_for_model dfgt = some (adapter dfgt (codes "dfgt-c29a-v1") 7 (codes "C29A") 3 false)
adapter_for_model unknown = none
adapter_for_model compatibility = none

pub data AdapterError : Type 0 where
  descriptor_missing adapter_missing identity_mismatch invalid_adapter : AdapterError

-- The checks of `ValidateModelAdapter` once both are found.
check_adapter : Descriptor → ModelAdapter → Result AdapterError (Unit {0})
unfolding text_eq
check_adapter d a =
    if text_eq a.native_pid d.native_pid && a.mode_selector == d.native_mode_selector
    then (if is_empty a.input_layout_id || ltb a.min_native_report_bytes 7
        then err invalid_adapter
        else ok tt)
    else err identity_mismatch

unfoldable pub validate_model_adapter : ModelId → Result AdapterError (Unit {0})
unfolding descriptor_for_model adapter_for_model check_adapter
validate_model_adapter m = elim (descriptor_for_model m) [
  | none ↦ err descriptor_missing
  | some d ↦ elim (adapter_for_model m) [ none ↦ err adapter_missing | some a ↦ check_adapter d a ]
]
