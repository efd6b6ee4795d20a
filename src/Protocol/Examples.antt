-- ===== src/Protocol/Examples.antt =====
-- Runs of the report builders at concrete values.
use logi_mate.Base.{◌≡◌, refl, [], ◌∷◌, map, All, if◌then◌else◌}
use logi_mate.Base.Int.{pos}
use logi_mate.Base.Results.{ok}
use logi_mate.Model.{g27, same_model}
use logi_mate.Protocol.Classic.{scale_coeff, scale_u16, neutral_reports_for_model}
use logi_mate.Protocol.Wire.{
  stop, stop_all, autocenter_off, leds, decode, IsReport, neutral_reports-decode,
}
use logi_mate.Protocol.Conditions.{damper_test, ConditionReports, native_condition_reports}

neutral_reports-decode_example :
    let rs = neutral_reports_for_model g27 in
    All IsReport rs
    × (map decode rs
        ≡ stop_all
          ∷ stop 0
          ∷ stop 1
          ∷ stop 2
          ∷ stop 3
          ∷ autocenter_off
          ∷ (if same_model g27 g27 then leds 0 ∷ [] else []))
neutral_reports-decode_example = neutral_reports-decode g27

abbrev damper_reports : ConditionReports
damper_reports = record {
  start_reports =
      (0 ∷ 13 ∷ 0 ∷ 0 ∷ 0 ∷ 0 ∷ 0 ∷ 0 ∷ []) ∷ (0 ∷ 65 ∷ 12 ∷ 3 ∷ 0 ∷ 3 ∷ 0 ∷ 51 ∷ []) ∷ [];
  refresh_report = 0 ∷ 76 ∷ 12 ∷ 3 ∷ 0 ∷ 3 ∷ 0 ∷ 51 ∷ [];
  stop_report = 0 ∷ 67 ∷ 0 ∷ 0 ∷ 0 ∷ 0 ∷ 0 ∷ 0 ∷ [];
}

damper_run : native_condition_reports damper_test (pos 20) ≡ ok damper_reports
unfolding native_condition_reports scale_coeff scale_u16
damper_run = refl
