-- ===== src/Protocol/Wire.antt =====
-- An independent reading of the classic wire format: the high nibble of a slot command is one of
-- 1, 2, 4 and 8 and names the slot, the low nibble says what to do with it. Against it stand the
-- builders of internal/system/native_ffb_windows.go and native_output_windows.go.
use logi_mate.Base.{
  ◌&&◌, ℕ, ◌/◌, ◌%◌, ◌<◌, ◌≡◌, refl, Option, none, some, [], ◌∷◌, ◌==◌, if◌then◌else◌, length, All,
  arith, map,
}
use logi_mate.Model.{ModelId, same_model, g27}
use logi_mate.Protocol.{Report}
use logi_mate.Protocol.Classic.{neutral_reports_for_model}

pub data Command : Type 0 where
  start refresh stop : ℕ → Command
  stop_all autocenter_off : Command
  leds : ℕ → Command
  other : Command

abbrev slot_of : ℕ → Option ℕ
slot_of h =
    if h == 1
    then some 0
    else if h == 2
    then some 1
    else if h == 4
    then some 2
    else if h == 8
    then some 3
    else none

abbrev on_slot : ℕ → Option ℕ → Command
on_slot l none = other
on_slot l (some k) =
    if l == 1 then start k else if l == 12 then refresh k else if l == 3 then stop k else other

abbrev pub decode_opcode : ℕ → Command
decode_opcode op =
    if op == 0xF3
    then stop_all
    else if op == 0xF5
    then autocenter_off
    else on_slot (op % 16) (slot_of (op / 16))

-- A report is an id of 0, and a command with six bytes that follow it.
abbrev pub decode : Report → Command
decode (ℕ.zero ∷ op ∷ a ∷ b ∷ rest) = if op == 0xF8 && a == 0x12 then leds b else decode_opcode op
decode _ = other

abbrev pub IsByte : ℕ → Type 0
IsByte b = b < 256

abbrev pub IsReport : Report → Type 0
IsReport r = (length r ≡ 8) × All IsByte r

-- The reports of an emergency stop are well formed, whatever the model: they stop all effects and
-- each of the four slots, and switch autocenter off; for a G27 the report that switches its LEDs off
-- follows, and there are no others.
pub neutral_reports-decode :
    (m : ModelId)
    → let rs = neutral_reports_for_model m in
      All IsReport rs
      × (map decode rs
          ≡ stop_all
            ∷ stop 0
            ∷ stop 1
            ∷ stop 2
            ∷ stop 3
            ∷ autocenter_off
            ∷ (if same_model m g27 then leds 0 ∷ [] else []))
unfolding neutral_reports_for_model
neutral_reports-decode ModelId.unknown = (omega arith, refl)
neutral_reports-decode _ = (omega arith, refl)
