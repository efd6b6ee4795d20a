-- ===== src/Input/Reference.antt =====
-- internal/openg27port/g27_parser.go: the reference parser that the native one is held against.
use logi_mate.Base.{ℕ, ◌+◌, ◌*◌, ◌^◌, bit_or, List, [], ◌∷◌, length, drop, ltb, if◌then◌else◌}
use logi_mate.Base.Results.{Result, ok, err}
use logi_mate.Input.{at, little_endian_16}

pub record G27RawState : Type 0 where
  pub steering : ℕ
  pub pedal0 : ℕ
  pub pedal1 : ℕ
  pub pedal2 : ℕ
  pub buttons : ℕ

abbrev pub g27_report_min_length : ℕ
g27_report_min_length = 9

pub data ReportError : Type 0 where
  report_too_short : ReportError

-- The loop of `ExtractG27ButtonBits` over the bytes that are left, at a bit position.
unfoldable pub pack_bits : ℕ → ℕ → List ℕ → ℕ
pack_bits bits bit_pos [] = bits
pack_bits bits bit_pos (b ∷ bs) =
    let rest = pack_bits (bit_or bits (b * 2 ^ bit_pos)) (bit_pos + 8) bs in
    if ltb bit_pos 64 then rest else bits

unfoldable pub extract_g27_button_bits : List ℕ → ℕ → ℕ
unfolding pack_bits
extract_g27_button_bits report start_index = pack_bits 0 0 (drop start_index report)

-- A nil report is the empty one: both are refused.
unfoldable pub parse_g27_report : List ℕ → Result ReportError G27RawState
unfolding extract_g27_button_bits
parse_g27_report report =
    if ltb (length report) g27_report_min_length
    then err report_too_short
    else ok (record {
      steering = little_endian_16 report 4;
      pedal0 = at report 6;
      pedal1 = at report 7;
      pedal2 = at report 8;
      buttons = extract_g27_button_bits report 9;
    })
