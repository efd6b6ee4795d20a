-- ===== src/Input/Examples.antt =====
-- Runs of the input decoders at concrete reports.
use logi_mate.Base.{ℕ, zero, suc, ◌≡◌, refl, false, List, [], ◌∷◌, arith}
use logi_mate.Base.Int.{pos}
use logi_mate.Base.Results.{ok}
use logi_mate.Base.Text.{codes}
use logi_mate.Model.{g27, dfgt}
use logi_mate.Model.Adapter.{adapter_for_model}
use logi_mate.Input.{
  model_fields, common_fields, native_report_base, d_pad_of, NativeInputReport,
  parse_native_input_report,
}
use logi_mate.Input.Reference.{G27RawState, parse_g27_report}
use logi_mate.Input.Parity.{SameAxes, parse-SameAxes}
use logi_mate.Input.Pino.{
  parse_wreckfest_pino_main, parse_pino_main, finite_only, parse_wreckfest-parse_pino,
}

-- A G27 in third gear, turned to the middle, with half throttle.
abbrev g27_report : List ℕ
g27_report = 0 ∷ 8 ∷ 0 ∷ 4 ∷ 0 ∷ 128 ∷ 127 ∷ 255 ∷ 255 ∷ 0 ∷ 0 ∷ 0 ∷ []

-- A DFGT at the right end stop.
abbrev dfgt_report : List ℕ
dfgt_report = 8 ∷ 0 ∷ 0 ∷ 255 ∷ 255 ∷ 10 ∷ 20 ∷ []

parse-SameAxes_example :
    (n : NativeInputReport) × (r : G27RawState) × (parse_native_input_report g27 g27_report ≡ ok n)
    × (parse_g27_report g27_report ≡ ok r)
    × SameAxes n r
parse-SameAxes_example = parse-SameAxes g27_report (omega arith) refl

-- A packet of zeros with the signature of a main packet, and the given number of further bytes.
abbrev zeros : ℕ → List ℕ
zeros zero = []
zeros (suc n) = 0 ∷ zeros n

abbrev pino_packet : List ℕ
pino_packet = 112 ∷ 105 ∷ 112 ∷ 111 ∷ zeros 1214

parse_wreckfest-parse_pino_example :
    parse_wreckfest_pino_main pino_packet ≡ finite_only (parse_pino_main pino_packet)
parse_wreckfest-parse_pino_example = parse_wreckfest-parse_pino pino_packet

abbrev dfgt_sample : NativeInputReport
dfgt_sample = record {
  model = dfgt;
  layout_id = codes "dfgt-c29a-v1";
  steering = 65535;
  throttle_raw = 10;
  brake_raw = 20;
  clutch_raw = 0;
  has_clutch = false;
  buttons = 0;
  d_pad = 0;
  gear = pos 0;
  paddle_left = false;
  paddle_right = false;
  wheel_buttons = false ∷ false ∷ false ∷ false ∷ false ∷ false ∷ [];
  shifter_buttons = false ∷ false ∷ false ∷ false ∷ false ∷ false ∷ false ∷ false ∷ [];
}

dfgt_run : parse_native_input_report dfgt dfgt_report ≡ ok dfgt_sample
unfolding parse_native_input_report model_fields common_fields native_report_base d_pad_of
    adapter_for_model
dfgt_run = refl
