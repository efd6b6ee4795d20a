-- ===== src/Protocol.antt =====
-- internal/wheelengine/native_protocol.go: the seven-byte lg4ff commands, the report id, and the
-- LED bar. A byte is a number below 256; a Go slice of bytes is a list. `SliderToForceByte`
-- computes in float64; its exact value is 128 + percent * 127 / 100 (or 128 / 100 below zero),
-- which is 0.01 or more from a midpoint unless it is one, so rounding it exactly gives the same.
pub mod Classic
pub mod Wire
pub mod Conditions
pub mod Force
pub mod Torque
mod Examples
use logi_mate.Base.{ℕ, ◌+◌, ◌-◌, ◌*◌, ◌/◌, ◌%◌, ◌^◌, List, [], ◌∷◌, ltb, ◌==◌, if◌then◌else◌, min}
use logi_mate.Base.Int.{ℤ, pos, negsuc, pos_part, neg_part, ltb_ℤ, quot, low_byte}
use logi_mate.Base.Float.{round_to_even}
use logi_mate.Safety.{clamp_int}

abbrev pub Report : Type 0
Report = List ℕ

-- 100 times the value that the source rounds; the percent lies in -100..100 by then.
abbrev scaled_percent : ℤ → ℕ
scaled_percent (pos p) = 12800 + p * 127
scaled_percent (negsuc p) = 12800 - (p + 1) * 128

unfoldable pub slider_to_force_byte : ℤ → ℕ
unfolding clamp_int round_to_even
slider_to_force_byte percent =
    min 255 (round_to_even (scaled_percent (clamp_int percent (negsuc 99) (pos 100))) 100)

unfoldable pub constant_force : ℕ → Report
constant_force force = 0x11 ∷ 0x08 ∷ force ∷ 0x80 ∷ 0 ∷ 0 ∷ 0 ∷ []

unfoldable pub stop_all_effects : Report
stop_all_effects = 0xF3 ∷ 0 ∷ 0 ∷ 0 ∷ 0 ∷ 0 ∷ 0 ∷ []

-- `byte(deg >> 8)`: the shift rounds down, also below zero.
abbrev pub high_byte : ℤ → ℕ
high_byte (pos n) = n / 256 % 256
high_byte (negsuc n) = 255 - n / 256 % 256

unfoldable pub set_range : ℤ → Report
unfolding low_byte
set_range deg = 0xF8 ∷ 0x81 ∷ low_byte deg ∷ high_byte deg ∷ 0 ∷ 0 ∷ 0 ∷ []

unfoldable pub native_switch : ℕ → Report
native_switch selector = 0xF8 ∷ 0x09 ∷ selector ∷ 0x01 ∷ 0 ∷ 0 ∷ 0 ∷ []

unfoldable pub spring_set : ℕ → ℕ → Report
spring_set slope clip = 0xFE ∷ 0x0D ∷ slope ∷ slope ∷ clip ∷ 0 ∷ 0 ∷ []

unfoldable pub spring_enable : Report
spring_enable = 0x14 ∷ 0 ∷ 0 ∷ 0 ∷ 0 ∷ 0 ∷ 0 ∷ []

unfoldable pub spring_off : Report
spring_off = 0xF5 ∷ 0 ∷ 0 ∷ 0 ∷ 0 ∷ 0 ∷ 0 ∷ []

unfoldable pub damper : ℕ → ℕ → Report
damper coeff clip =
    let c = if ltb 15 coeff then 15 else coeff in 0x41 ∷ 0x0C ∷ c ∷ 0 ∷ c ∷ 0 ∷ clip ∷ []

unfoldable pub damper_off : Report
damper_off = 0x43 ∷ 0 ∷ 0 ∷ 0 ∷ 0 ∷ 0 ∷ 0 ∷ []

unfoldable pub friction : ℕ → ℕ → Report
friction coeff clip = 0x81 ∷ 0x0E ∷ coeff ∷ coeff ∷ clip ∷ 0 ∷ 0 ∷ []

unfoldable pub friction_off : Report
friction_off = 0x83 ∷ 0 ∷ 0 ∷ 0 ∷ 0 ∷ 0 ∷ 0 ∷ []

unfoldable pub set_leds : ℕ → Report
set_leds mask = 0xF8 ∷ 0x12 ∷ mask ∷ 0 ∷ 0 ∷ 0 ∷ 0 ∷ []

unfoldable pub leds_off : Report
unfolding set_leds
leds_off = set_leds 0

unfoldable pub led_bar_for_percent : ℤ → ℕ
led_bar_for_percent percent =
    if ltb_ℤ percent (pos 8)
    then 0
    else if ltb_ℤ percent (pos 25)
    then 1
    else if ltb_ℤ percent (pos 50)
    then 3
    else if ltb_ℤ percent (pos 75)
    then 7
    else if ltb_ℤ percent (pos 90)
    then 15
    else 31

unfoldable pub with_report_id : Report → Report
with_report_id command = 0 ∷ command
