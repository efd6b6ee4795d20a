-- ===== src/Input/Pino.antt =====
-- internal/wheelengine/wreckfest_pino.go, and internal/openg27port/pino.go as its reference: the
-- main packet of Wreckfest 2. The force is kept as the 32 bits of the float, whose test for NaN and
-- infinity is that all exponent bits are set.
use logi_mate.Base.{
  ℕ, ◌+◌, ◌-◌, ◌*◌, ◌/◌, ◌%◌, ◌^◌, bit_and, Bool, not, ◌||◌, ◌≡◌, Option, none, some, List, length,
  ltb, ◌==◌, if◌then◌else◌, arith,
}
use logi_mate.Base.Int.{ℤ, pos, negsuc}
use logi_mate.Input.{at, little_endian_16}

pub record WreckfestTelemetry : Type 0 where
  pub rpm : ℤ
  pub rpm_max : ℤ
  pub rpm_redline : ℤ
  pub rpm_idle : ℤ
  pub ffb_force_bits : ℕ
  pub ffb_enabled : Bool
  pub player_status_flags : ℕ

abbrev little_endian_32 : List ℕ → ℕ → ℕ
little_endian_32 b i = at b i + 256 * at b (i + 1) + 65536 * at b (i + 2) + 16777216 * at b (i + 3)

-- int(int32(v))
abbrev signed32 : ℕ → ℤ
signed32 w = if ltb w (2 ^ 31) then pos w else negsuc (2 ^ 32 - w - 1)

abbrev pub pino_signature : ℕ
pino_signature = 1869769584

abbrev pub main_packet_length : ℕ
main_packet_length = 1218

unfoldable pub is_finite_32 : ℕ → Bool
is_finite_32 bits = not (bits / 2 ^ 23 % 2 ^ 8 == 255)

abbrev status_bit : WreckfestTelemetry → ℕ → Bool
status_bit w k = not (bit_and w.player_status_flags (2 ^ k) == 0)

unfoldable pub in_race : WreckfestTelemetry → Bool
in_race w = status_bit w 0

unfoldable pub physics_running : WreckfestTelemetry → Bool
physics_running w = status_bit w 2

unfoldable pub player_in_control : WreckfestTelemetry → Bool
player_in_control w = status_bit w 3

unfoldable pub ai_in_control : WreckfestTelemetry → Bool
ai_in_control w = status_bit w 4

-- The fields of a packet as ParseWreckfestPinoMain reads them.
packet_fields : List ℕ → WreckfestTelemetry
packet_fields b = record {
  rpm = signed32 (little_endian_32 b 435);
  rpm_max = signed32 (little_endian_32 b 439);
  rpm_redline = signed32 (little_endian_32 b 443);
  rpm_idle = signed32 (little_endian_32 b 447);
  player_status_flags = little_endian_16 b 1090;
  ffb_enabled = not (bit_and (at b 1092) 1 == 0);
  ffb_force_bits = little_endian_32 b 1093;
}

pub parse_wreckfest_pino_main : List ℕ → Option WreckfestTelemetry
parse_wreckfest_pino_main b =
    let f = packet_fields b in
    if ltb (length b) main_packet_length
      || (not (little_endian_32 b 0 == pino_signature) || not (at b 4 == 0))
    then none
    else if is_finite_32 f.ffb_force_bits
    then some f
    else none

-- The fields of a packet as ParsePinoMain of the reference reads them.
reference_fields : List ℕ → WreckfestTelemetry
reference_fields b = record {
  rpm = signed32 (little_endian_32 b 435);
  rpm_max = signed32 (little_endian_32 b 439);
  rpm_redline = signed32 (little_endian_32 b 443);
  rpm_idle = signed32 (little_endian_32 b 447);
  ffb_force_bits = little_endian_32 b 1093;
  ffb_enabled = not (bit_and (at b 1092) 1 == 0);
  player_status_flags = little_endian_16 b 1090;
}

-- ParsePinoMain of the reference: two early returns, and no test of the force.
pub parse_pino_main : List ℕ → Option WreckfestTelemetry
parse_pino_main b =
    if ltb (length b) main_packet_length
    then none
    else if not (little_endian_32 b 0 == pino_signature) || not (at b 4 == 0)
    then none
    else some (reference_fields b)

-- The packets with a finite force, of those that a parser accepts.
abbrev pub finite_only : Option WreckfestTelemetry → Option WreckfestTelemetry
finite_only none = none
finite_only (some f) = if is_finite_32 f.ffb_force_bits then some f else none

-- The native parser accepts what the reference accepts, with the same fields, but for packets
-- whose force is infinite or not a number.
pub parse_wreckfest-parse_pino :
    (b : List ℕ) → parse_wreckfest_pino_main b ≡ finite_only (parse_pino_main b)
unfolding parse_wreckfest_pino_main parse_pino_main packet_fields reference_fields
parse_wreckfest-parse_pino b = ground arith
