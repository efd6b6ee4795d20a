-- ===== src/Reference/Reports.antt =====
-- internal/openg27port/lg4ff.go: the report builders of the port, without the report id of Windows.
use logi_mate.Base.{ℕ, [], ◌∷◌, ltb, if◌then◌else◌}
use logi_mate.Base.Int.{ℤ, pos, ltb_ℤ, low_byte}
use logi_mate.Protocol.{Report, high_byte}

unfoldable pub constant_force : ℕ → Report
constant_force force = 0x11 ∷ 0x08 ∷ force ∷ 0x80 ∷ 0x00 ∷ 0x00 ∷ 0x00 ∷ []

unfoldable pub stop : Report
stop = 0xF3 ∷ 0x00 ∷ 0x00 ∷ 0x00 ∷ 0x00 ∷ 0x00 ∷ 0x00 ∷ []

unfoldable pub set_range : ℤ → Report
set_range deg = 0xF8 ∷ 0x81 ∷ low_byte deg ∷ high_byte deg ∷ 0x00 ∷ 0x00 ∷ 0x00 ∷ []

unfoldable pub native_switch : Report
native_switch = 0xF8 ∷ 0x09 ∷ 0x04 ∷ 0x01 ∷ 0x00 ∷ 0x00 ∷ 0x00 ∷ []

unfoldable pub spring_set : ℕ → ℕ → Report
spring_set slope clip = 0xFE ∷ 0x0D ∷ slope ∷ slope ∷ clip ∷ 0x00 ∷ 0x00 ∷ []

unfoldable pub spring_enable : Report
spring_enable = 0x14 ∷ 0x00 ∷ 0x00 ∷ 0x00 ∷ 0x00 ∷ 0x00 ∷ 0x00 ∷ []

unfoldable pub spring_off : Report
spring_off = 0xF5 ∷ 0x00 ∷ 0x00 ∷ 0x00 ∷ 0x00 ∷ 0x00 ∷ 0x00 ∷ []

unfoldable pub damper : ℕ → ℕ → Report
damper coeff clip =
    let c = if ltb 15 coeff then 15 else coeff in 0x21 ∷ 0x0C ∷ c ∷ 0x00 ∷ c ∷ 0x00 ∷ clip ∷ []

unfoldable pub damper_off : Report
damper_off = 0x23 ∷ 0x00 ∷ 0x00 ∷ 0x00 ∷ 0x00 ∷ 0x00 ∷ 0x00 ∷ []

unfoldable pub friction : ℕ → ℕ → Report
friction coeff clip = 0x21 ∷ 0x0E ∷ coeff ∷ coeff ∷ clip ∷ 0x00 ∷ 0x00 ∷ []

unfoldable pub friction_off : Report
friction_off = 0x23 ∷ 0x00 ∷ 0x00 ∷ 0x00 ∷ 0x00 ∷ 0x00 ∷ 0x00 ∷ []

unfoldable pub set_leds : ℕ → Report
set_leds leds = 0xF8 ∷ 0x12 ∷ leds ∷ 0x00 ∷ 0x00 ∷ 0x00 ∷ 0x00 ∷ []

unfoldable pub leds_off : Report
leds_off = set_leds 0

unfoldable pub led_bar_for_percent : ℤ → ℕ
led_bar_for_percent percent =
    if ltb_ℤ percent (pos 8)
    then 0
    else if ltb_ℤ percent (pos 25)
    then 1
    else if ltb_ℤ percent (pos 50)
    then 3
    else if ltb_ℤ percent (pos 75)
    then 7
    else if ltb_ℤ percent (pos 90)
    then 15
    else 31

unfoldable pub with_report_id : Report → Report
with_report_id command = 0 ∷ command
