-- ===== src/Model/Examples.antt =====
-- Runs of the model tables and of a certification at concrete values.
use logi_mate.Base.{◌≡◌, ◌↔◌, true, false, [], ◌∷◌, All}
use logi_mate.Base.Text.{codes}
use logi_mate.Model.{g27, dfgt, hardware_gate}
use logi_mate.Model.Adapter.{ModelAdapter}
use logi_mate.Model.Certification.{
  ModelCertification, required_hardware_checks, Covered, complete, complete_iff,
}

abbrev adapter_g27 : ModelAdapter
adapter_g27 = record {
  model = g27;
  input_layout_id = codes "g27-c29b-v1";
  min_native_report_bytes = 11;
  native_pid = codes "C29B";
  mode_selector = 4;
  steering_bits = 16;
  pedal_bits = 8;
  has_analog_shifter = false;
  certification = hardware_gate;
}

-- Evidence that lacks the range check.
abbrev partial_certification : ModelCertification
partial_certification = record {
  model = dfgt;
  evidence =
      record { check = codes "steering"; passed = true; evidence = codes "log-1" }
      ∷ record { check = codes "range"; passed = false; evidence = codes "log-2" }
      ∷ [];
}

complete_iff_example :
    (complete partial_certification ≡ true)
    ↔ All (λ k. Covered k partial_certification.evidence) (required_hardware_checks dfgt)
complete_iff_example = complete_iff partial_certification
