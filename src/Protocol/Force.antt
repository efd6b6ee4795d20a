-- ===== src/Protocol/Force.antt =====
-- internal/wheelengine/native_protocol.go and internal/system/native_ffb_windows.go: how percent
-- values become force bytes.
use logi_mate.Base.{zero, suc, ◌≤◌, ◌≡◌, Bool, true, false, get_or, arith, if◌then◌else◌}
use logi_mate.Base.Int.{ℤ, pos, negsuc, pos_part, ◌≤ℤ◌}
use logi_mate.Base.Results.{ok}
use logi_mate.Protocol.{Report, slider_to_force_byte}
use logi_mate.Protocol.Classic.{
  build_classic_constant_force_slot_report, translate_classic_force_percent,
}
use logi_mate.Protocol.Wire.{start, refresh, decode, IsReport}

-- The slider's byte does not decrease as the percent grows, and is at most 255.
pub slider_to_force_byte_mono :
    (p q : ℤ)
    → p ≤ℤ q
    → (slider_to_force_byte p ≤ slider_to_force_byte q) × (slider_to_force_byte q ≤ 255)
unfolding slider_to_force_byte
slider_to_force_byte_mono (pos p) (pos q) h = ground arith
slider_to_force_byte_mono (pos p) (negsuc q) h = absurd (omega arith)
slider_to_force_byte_mono (negsuc p) (pos q) h = ground arith
slider_to_force_byte_mono (negsuc p) (negsuc q) h = ground arith

translate_bounded :
    (percent : ℤ)
    → negsuc 29 ≤ℤ percent
    → percent ≤ℤ pos 30
    → (89 ≤ translate_classic_force_percent percent)
      × (translate_classic_force_percent percent ≤ 166)
unfolding translate_classic_force_percent
translate_bounded (pos n) h k = ground arith
translate_bounded (negsuc n) h k = ground arith

-- A constant-force test report that can be built has eight bytes and starts or refreshes its slot,
-- and its force byte lies between 89 and 166, around the neutral 128.
pub constant_force_slot_bounded :
    (slot percent : ℤ) (update : Bool) {r : Report}
    → build_classic_constant_force_slot_report slot percent update ≡ ok r
    → IsReport r
      × (decode r ≡ (if update then refresh (pos_part slot) else start (pos_part slot)))
      × (89 ≤ get_or r 3 0)
      × (get_or r 3 0 ≤ 166)
unfolding build_classic_constant_force_slot_report
constant_force_slot_bounded (negsuc k) percent update h = ground arith
constant_force_slot_bounded (pos zero) percent true h = ground (arith, translate_bounded percent)
constant_force_slot_bounded (pos zero) percent false h = ground (arith, translate_bounded percent)
constant_force_slot_bounded (pos (suc zero)) percent true h =
    ground (arith, translate_bounded percent)
constant_force_slot_bounded (pos (suc zero)) percent false h =
    ground (arith, translate_bounded percent)
constant_force_slot_bounded (pos (suc (suc zero))) percent true h =
    ground (arith, translate_bounded percent)
constant_force_slot_bounded (pos (suc (suc zero))) percent false h =
    ground (arith, translate_bounded percent)
constant_force_slot_bounded (pos (suc (suc (suc zero)))) percent true h =
    ground (arith, translate_bounded percent)
constant_force_slot_bounded (pos (suc (suc (suc zero)))) percent false h =
    ground (arith, translate_bounded percent)
constant_force_slot_bounded (pos (suc (suc (suc (suc k))))) percent update h = ground arith
