-- ===== src/Protocol/Conditions.antt =====
-- internal/system/native_ffb_conditions_windows.go: the reports of a spring, damper or friction
-- test.
use logi_mate.Base.{
  ℕ, ◌*◌, ◌%◌, ◌/◌, ◌-◌, bit_or, ltb, ltb→lt, holds_under, holds_under-at, ◌≡◌, refl, Bool, true,
  false, List, [], ◌∷◌, All, arith, ◌<◌, ◌⊎◌, map, ◌↔◌,
}
use logi_mate.Base.Int.{ℤ, pos, negsuc, ◌≤ℤ◌}
use logi_mate.Base.Results.{Result, ok, err, ◌>>=◌, ◌>>◌, guard}
use logi_mate.Protocol.{Report}
use logi_mate.Protocol.Classic.{
  BuildError, out_of_limit, within, native_manual_ffb_test_max_percent,
  build_classic_spring_slot_report, build_classic_damper_slot_report,
  build_classic_friction_slot_report, build_classic_effect_stop_report,
  build_classic_fixed_loop_report, scale_coeff,
}
use logi_mate.Protocol.Wire.{start, refresh, stop, other, decode, IsReport}

pub data NativeConditionKind : Type 0 where
  spring_test damper_test friction_test : NativeConditionKind

abbrev pub condition_slot : NativeConditionKind → ℕ
condition_slot spring_test = 1
condition_slot damper_test = 2
condition_slot friction_test = 3

build_condition : NativeConditionKind → ℤ → ℤ → Bool → Result BuildError Report
unfolding build_classic_spring_slot_report build_classic_damper_slot_report
    build_classic_friction_slot_report
build_condition spring_test slot applied update =
    build_classic_spring_slot_report slot applied update
build_condition damper_test slot applied update =
    build_classic_damper_slot_report slot applied update
build_condition friction_test slot applied update =
    build_classic_friction_slot_report slot applied update

pub record ConditionReports : Type 0 where
  pub start_reports : List Report
  pub refresh_report : Report
  pub stop_report : Report

unfoldable pub native_condition_reports :
    NativeConditionKind → ℤ → Result BuildError ConditionReports
unfolding build_condition build_classic_fixed_loop_report build_classic_effect_stop_report
native_condition_reports kind applied = do
  guard (within (pos 1) (pos native_manual_ffb_test_max_percent) applied) out_of_limit
  let slot = pos (condition_slot kind)
  first ← build_condition kind slot applied false
  update ← build_condition kind slot applied true
  stop' ← build_classic_effect_stop_report slot
  ok (record {
    start_reports = build_classic_fixed_loop_report false ∷ first ∷ [];
    refresh_report = update;
    stop_report = stop';
  })

-- The reports of one test all address the slot of its kind, in well-formed reports.
record Addresses (slot : ℕ) (r : ConditionReports) : Type 0 where
  starts : map decode r.start_reports ≡ other ∷ start slot ∷ []
  refreshes : decode r.refresh_report ≡ refresh slot
  stops : decode r.stop_report ≡ stop slot
  formed : All IsReport (r.refresh_report ∷ r.stop_report ∷ r.start_reports)

-- A coefficient nibble written twice is a byte.
nibble_table : holds_under (λ c. ltb (bit_or (c * 16 % 256) c) 256) 16 ≡ true
unfolding holds_under
nibble_table = refl

nibble_pair : (c : ℕ) → c < 16 → bit_or (c * 16 % 256) c < 256
nibble_pair c h = ltb→lt _ _ (holds_under-at _ 16 c nibble_table h)

scale_coeff_nibble : (v : ℕ) → scale_coeff v 4 < 16
unfolding scale_coeff
scale_coeff_nibble v = ground arith

-- Whenever a test can be built, its start reports select the non-fixed loop and start the effect
-- in the slot of its kind, its refresh and stop reports address the same slot, and each report
-- has eight bytes.
native_condition_reports-Addresses :
    (kind : NativeConditionKind) (applied : ℤ) {r : ConditionReports}
    → native_condition_reports kind applied ≡ ok r
    → Addresses (condition_slot kind) r
unfolding native_condition_reports
native_condition_reports-Addresses spring_test (pos n) h =
    let weak = scale_coeff_nibble 0 in
    let strong = scale_coeff_nibble (n * 32767 / 100 - 2048) in
    unfold scale_coeff in
    ground (
      arith,
      nibble_pair (scale_coeff 0 4) weak,
      nibble_pair (scale_coeff (n * 32767 / 100 - 2048) 4) strong,
    )
native_condition_reports-Addresses spring_test (negsuc n) h = ground arith
native_condition_reports-Addresses damper_test applied h = ground arith
native_condition_reports-Addresses friction_test applied h = ground arith

-- The test is refused as out of its limit exactly for a strength of at most 0 or at least 31 percent.
pub native_condition_reports_iff :
    (kind : NativeConditionKind) (applied : ℤ)
    → (native_condition_reports kind applied ≡ err out_of_limit)
      ↔ ((applied ≤ℤ pos 0) ⊎ (pos 31 ≤ℤ applied))
unfolding native_condition_reports
native_condition_reports_iff spring_test applied = ground arith
native_condition_reports_iff damper_test applied = ground arith
native_condition_reports_iff friction_test applied = ground arith
