-- ===== src/Input/Shadow.antt =====
-- internal/system/fusion_c4_windows.go, observeFusionC4RawFields: the read-only observer that
-- checks LogiMate's raw axes against the native parser. Its texts and times are left out.
use logi_mate.Base.{
  ℕ, suc, ◌+◌, ◌≡◌, Bool, true, false, ◌&&◌, Option, none, some, List, [], ◌∷◌, ◌==◌, if◌then◌else◌,
  length, arith,
}
use logi_mate.Base.Results.{Result, ok, err}
use logi_mate.Model.{g27}
use logi_mate.Input.{NativeInputReport, InputError, parse_native_input_report}

pub record FusionC4Parity : Type 0 where
  pub reports : ℕ
  pub matches : ℕ
  pub mismatches : ℕ
  pub parse_errors : ℕ
  pub last_match : Bool
  pub last_upstream : Option NativeInputReport

unfoldable pub initial_parity : FusionC4Parity
initial_parity = record {
  reports = 0;
  matches = 0;
  mismatches = 0;
  parse_errors = 0;
  last_match = true;
  last_upstream = none;
}

-- One observation: a report with the axes that LogiMate extracted from it.
pub record Observation : Type 0 where
  pub report : List ℕ
  pub steering : ℕ
  pub throttle : ℕ
  pub brake : ℕ
  pub clutch : ℕ

-- The comparison `match` of the observer.
abbrev pub axes_match : NativeInputReport → Observation → Bool
axes_match n o =
    n.steering == o.steering
    && (n.throttle_raw == o.throttle && (n.brake_raw == o.brake && n.clutch_raw == o.clutch))

observe_parsed : FusionC4Parity → Observation → Result InputError NativeInputReport → FusionC4Parity
observe_parsed p o (err e) = record p { parse_errors = suc p.parse_errors; last_match = false }
observe_parsed p o (ok n) =
    if axes_match n o
    then record p { last_upstream = some n; last_match = true; matches = suc p.matches }
    else record p { last_upstream = some n; last_match = false; mismatches = suc p.mismatches }

unfoldable pub observe : FusionC4Parity → Observation → FusionC4Parity
unfolding observe_parsed
observe p o =
    observe_parsed (record p { reports = suc p.reports }) o (parse_native_input_report g27 o.report)

pub observe_all : FusionC4Parity → List Observation → FusionC4Parity
unfolding observe
observe_all p [] = p
observe_all p (o ∷ os) = observe_all (observe p o) os

-- How an observation should count.
abbrev agrees : Observation → Result InputError NativeInputReport → ℕ
agrees o (ok n) = if axes_match n o then 1 else 0
agrees o (err e) = 0

abbrev fails : Result InputError NativeInputReport → ℕ
fails (ok n) = 0
fails (err e) = 1

abbrev pub agreeing : List Observation → ℕ
agreeing [] = 0
agreeing (o ∷ os) = agrees o (parse_native_input_report g27 o.report) + agreeing os

abbrev pub failing : List Observation → ℕ
failing [] = 0
failing (o ∷ os) = fails (parse_native_input_report g27 o.report) + failing os

-- The counters after some observations, from the counters before them.
pub record Counts (p q : FusionC4Parity) (os : List Observation) : Type 0 where
  pub all_reports : q.reports ≡ p.reports + length os
  pub all_matches : q.matches ≡ p.matches + agreeing os
  pub all_errors : q.parse_errors ≡ p.parse_errors + failing os
  pub the_rest : q.mismatches + agreeing os + failing os ≡ p.mismatches + length os

observe_parsed-counts :
    (p : FusionC4Parity) (o : Observation) (r : Result InputError NativeInputReport)
    → let q = observe_parsed (record p { reports = suc p.reports }) o r in
      (q.reports ≡ suc p.reports)
      × (q.matches ≡ p.matches + agrees o r)
      × (q.parse_errors ≡ p.parse_errors + fails r)
      × (q.mismatches + agrees o r + fails r ≡ p.mismatches + 1)
unfolding observe_parsed
observe_parsed-counts p o (ok n) = ground arith
observe_parsed-counts p o (err e) = ground arith

-- From any counters, each observation is counted once: as a match exactly if the report parses
-- and its axes agree, as a parse error exactly if it does not parse, and else as a mismatch.
pub observe_all-Counts :
    (p : FusionC4Parity) (os : List Observation) → Counts p (observe_all p os) os
unfolding observe_all observe
observe_all-Counts p [] = omega arith
observe_all-Counts p (o ∷ os) =
    let r = parse_native_input_report g27 o.report in
    let step = observe_parsed-counts p o r in
    let rest = observe_all-Counts (observe p o) os in
    record {
      all_reports = omega (arith, step.0, rest.all_reports);
      all_matches = omega (arith, step.1, rest.all_matches);
      all_errors = omega (arith, step.2, rest.all_errors);
      the_rest = omega (arith, step.3, rest.the_rest);
    }
