-- ===== src/Input.antt =====
-- internal/wheelengine/native_input.go: a HID input report of one of the three wheels, decoded.
-- A report is a list of bytes; a place past its end reads as 0, which no branch does once the
-- length was checked. Arrays of booleans are lists of their length.
pub mod Shadow
pub mod Ranges
pub mod Reference
pub mod Parity
pub mod Pino
mod Examples
use logi_mate.Base.{
  ℕ, ◌+◌, ◌*◌, ◌^◌, bit_and, bit_or, Bool, true, false, not, ◌&&◌, Option, none, some, List, [],
  ◌∷◌, length, get_or, ltb, leb, ◌==◌, if◌then◌else◌,
}
use logi_mate.Base.Int.{ℤ, pos, negsuc}
use logi_mate.Base.Results.{Result, ok, err}
use logi_mate.Base.Text.{Text}
use logi_mate.Model.{ModelId, g25, g27, dfgt}
use logi_mate.Model.Adapter.{ModelAdapter, adapter_for_model}

pub record NativeInputReport : Type 0 where
  pub model : ModelId
  pub layout_id : Text
  pub steering : ℕ
  pub throttle_raw : ℕ
  pub brake_raw : ℕ
  pub clutch_raw : ℕ
  pub has_clutch : Bool
  pub buttons : ℕ
  pub d_pad : ℕ
  pub gear : ℤ
  pub paddle_left : Bool
  pub paddle_right : Bool
  pub wheel_buttons : List Bool
  pub shifter_buttons : List Bool

pub data InputError : Type 0 where
  no_adapter too_short unsupported_model : InputError

-- `report[i]`.
abbrev pub at : List ℕ → ℕ → ℕ
at report i = get_or report i 0

unfoldable pub native_report_base : List ℕ → ℕ
native_report_base report = if leb 12 (length report) && at report 0 == 0 then 1 else 0

unfoldable pub bit : ℕ → ℕ → Bool
bit v mask = not (bit_and v mask == 0)

unfoldable pub set_button : ℕ → ℕ → Bool → ℕ
set_button mask index active = if active && ltb index 32 then bit_or mask (2 ^ index) else mask

-- `for i, v := range vs { setButton(&mask, first+i, v) }`
unfoldable pub set_buttons : ℕ → ℕ → List Bool → ℕ
unfolding set_button
set_buttons mask first [] = mask
set_buttons mask first (v ∷ vs) = set_buttons (set_button mask first v) (first + 1) vs

-- binary.LittleEndian.Uint16(report[i:i+2])
abbrev pub little_endian_16 : List ℕ → ℕ → ℕ
little_endian_16 report i = at report i + 256 * at report (i + 1)

unfoldable pub d_pad_of : ℕ → ℕ
d_pad_of b0 = let raw = bit_and b0 0x0f in if leb raw 7 then raw + 1 else 0

unfoldable pub g27_gear : ℕ → ℕ → ℤ
g27_gear rev b2 =
    if not (bit_and rev 0x01 == 0)
    then negsuc 0
    else (let g = bit_and b2 0x3f in
        if g == 0x01
        then pos 1
        else if g == 0x02
        then pos 2
        else if g == 0x04
        then pos 3
        else if g == 0x08
        then pos 4
        else if g == 0x10
        then pos 5
        else if g == 0x20
        then pos 6
        else pos 0)

-- The `switch` over the analog shifter of the G25.
unfoldable pub g25_gear : ℕ → ℕ → ℤ
g25_gear x y =
    if ltb 80 y && ltb y 180
    then pos 0
    else if ltb x 110 && ltb 180 y
    then pos 1
    else if ltb x 110
    then pos 2
    else if leb x 170 && ltb 180 y
    then pos 3
    else if leb x 170
    then pos 4
    else if leb x 195 && ltb 180 y
    then pos 5
    else if leb x 195
    then pos 6
    else if ltb 195 x && ltb y 80
    then negsuc 0
    else pos 0

abbrev no_buttons : ℕ → List Bool
no_buttons ℕ.zero = []
no_buttons (ℕ.suc n) = false ∷ no_buttons n

-- The fields that the code fills before the `switch` on the model.
common_fields : ModelId → ModelAdapter → List ℕ → ℕ → NativeInputReport
unfolding d_pad_of
common_fields m a report base = record {
  model = m;
  layout_id = a.input_layout_id;
  steering = little_endian_16 report (base + 3);
  throttle_raw = at report (base + 5);
  brake_raw = at report (base + 6);
  clutch_raw = 0;
  has_clutch = false;
  buttons = 0;
  d_pad = d_pad_of (at report base);
  gear = pos 0;
  paddle_left = false;
  paddle_right = false;
  wheel_buttons = no_buttons 6;
  shifter_buttons = no_buttons 8;
}

g27_fields : NativeInputReport → List ℕ → ℕ → NativeInputReport
unfolding bit set_buttons set_button g27_gear
g27_fields out report base =
    let b0 = at report base in
    let b1 = at report (base + 1) in
    let b2 = at report (base + 2) in
    let b3 = at report (base + 3) in
    let left = bit b1 0x02 in
    let right = bit b1 0x01 in
    let wheel =
      bit b1 0x08 ∷ bit b3 0x01 ∷ bit b3 0x02 ∷ bit b1 0x04 ∷ bit b2 0x40 ∷ bit b2 0x80 ∷ [] in
    let shifter =
      bit b0 0x80
      ∷ bit b0 0x40
      ∷ bit b0 0x10
      ∷ bit b0 0x20
      ∷ bit b1 0x80
      ∷ bit b1 0x10
      ∷ bit b1 0x20
      ∷ bit b1 0x40
      ∷ [] in
    record out {
      has_clutch = true;
      clutch_raw = at report (base + 7);
      paddle_right = right;
      paddle_left = left;
      wheel_buttons = wheel;
      shifter_buttons = shifter;
      gear = g27_gear (at report (base + 10)) b2;
      buttons =
          set_buttons (set_button (set_button (set_buttons 0 0 wheel) 6 left) 7 right) 8 shifter;
    }

-- `uint32(b0&0xf0) | uint32(b1)<<8 | uint32(b2)<<16`
abbrev packed_buttons : List ℕ → ℕ → ℕ
packed_buttons report base =
    bit_or (bit_or (bit_and (at report base) 0xf0) (at report (base + 1) * 2 ^ 8))
      (at report (base + 2) * 2 ^ 16)

g25_fields : NativeInputReport → List ℕ → ℕ → NativeInputReport
unfolding bit g25_gear
g25_fields out report base =
    let b1 = at report (base + 1) in
    let b2 = at report (base + 2) in
    record out {
      has_clutch = true;
      clutch_raw = at report (base + 11);
      buttons = packed_buttons report base;
      gear = g25_gear (at report (base + 8)) (at report (base + 9));
      paddle_right = bit b1 0x01;
      paddle_left = bit b1 0x02;
      wheel_buttons = bit b1 0x08 ∷ bit b1 0x04 ∷ no_buttons 4;
      shifter_buttons = bit b2 0x08 ∷ bit b2 0x10 ∷ bit b2 0x20 ∷ bit b2 0x40 ∷ no_buttons 4;
    }

-- The `switch` on the model.
model_fields : ModelId → NativeInputReport → List ℕ → ℕ → Result InputError NativeInputReport
model_fields g27 out report base = ok (g27_fields out report base)
model_fields g25 out report base = ok (g25_fields out report base)
model_fields dfgt out report base = ok (record out { buttons = packed_buttons report base })
model_fields ModelId.unknown out report base = err unsupported_model
model_fields ModelId.compatibility out report base = err unsupported_model

pub parse_native_input_report : ModelId → List ℕ → Result InputError NativeInputReport
unfolding adapter_for_model
parse_native_input_report m report = elim (adapter_for_model m) [
  | none ↦ err no_adapter
  | some a ↦
      let base = native_report_base report in
      if ltb (length report) (base + a.min_native_report_bytes)
      then err too_short
      else model_fields m (common_fields m a report base) report base
]
