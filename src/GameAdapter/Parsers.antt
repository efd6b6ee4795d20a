-- ===== src/GameAdapter/Parsers.antt =====
-- internal/gameadapter/parsers.go: the frames of the two packet formats. `encoding/json` is the argument
-- `unmarshal`, which gives the fields of a packet, or its error.
use logi_mate.Base.{
  ℕ, ◌≡◌, Bool, true, false, ◌||◌, Option, none, some, List, [], length, ltb, ◌==◌, if◌then◌else◌,
  Bool-cases, inl, inr, arith,
}
use logi_mate.Base.Int.{ℤ, pos, negsuc, ltb_ℤ, ◌≤ℤ◌}
use logi_mate.Base.Text.{Text, codes}
use logi_mate.Base.Results.{Result, ok, err, OfOk, OfOk-guarded}
use logi_mate.Base.Float.{Float64, nan, num, zero_f, is_nan, is_inf, widen, max_f, min_f}
use logi_mate.Base.Float.Ranges.{Within}
use logi_mate.Protocol.Torque.{one_f, minus_one_f}
use logi_mate.Input.Pino.{
  WreckfestTelemetry, parse_wreckfest_pino_main, physics_running, player_in_control,
}
use logi_mate.GameAdapter.{TelemetryFrame}

pub record JsonWireFrame : Type 0 where
  pub game : Text
  pub rpm : ℤ
  pub rpm_max : ℤ
  pub rpm_redline : ℤ
  pub speed_kph : Float64
  pub force : Float64
  pub physics : Bool
  pub player_control : Bool
  pub ffb_enabled : Bool

-- `if v < 0 { v = 0 }`
abbrev not_negative : ℤ → ℤ
not_negative v = if ltb_ℤ v (pos 0) then pos 0 else v

-- `math.Max(-1, math.Min(1, v))`
abbrev pub unit_force : Float64 → Float64
unit_force v = max_f minus_one_f (min_f one_f v)

unfoldable pub local_frame : JsonWireFrame → ℕ → Result Text TelemetryFrame
local_frame w now =
    if is_nan w.force || is_inf w.force || is_nan w.speed_kph || is_inf w.speed_kph
    then err (codes "invalid numeric telemetry value")
    else ok (record {
      adapter = [];
      game = w.game;
      rpm = not_negative w.rpm;
      rpm_max = not_negative w.rpm_max;
      rpm_redline = not_negative w.rpm_redline;
      speed_kph = w.speed_kph;
      force = unit_force w.force;
      physics = w.physics;
      player_control = w.player_control;
      ffb_enabled = w.ffb_enabled;
      received_at = now;
    })

-- The rest of ParseLocalJSON, with what the decoder said.
abbrev decoded_frame : Result Text JsonWireFrame → ℕ → Result Text TelemetryFrame
decoded_frame (err e) now = err e
decoded_frame (ok w) now = local_frame w now

unfoldable pub parse_local_json :
    (List ℕ → Result Text JsonWireFrame) → List ℕ → ℕ → Result Text TelemetryFrame
parse_local_json unmarshal b now =
    if length b == 0 || ltb 65536 (length b)
    then err (codes "invalid packet size")
    else decoded_frame (unmarshal b) now

unfoldable pub pino_frame : WreckfestTelemetry → ℕ → Result Text TelemetryFrame
pino_frame d now =
    let force = widen d.ffb_force_bits in
    if is_nan force || is_inf force
    then err (codes "invalid Pino force")
    else ok (record {
      adapter = [];
      game = codes "Wreckfest 2";
      rpm = not_negative d.rpm;
      rpm_max = not_negative d.rpm_max;
      rpm_redline = not_negative d.rpm_redline;
      speed_kph = zero_f;
      force = unit_force force;
      physics = physics_running d;
      player_control = player_in_control d;
      ffb_enabled = d.ffb_enabled;
      received_at = now;
    })

abbrev main_frame : Option WreckfestTelemetry → ℕ → Result Text TelemetryFrame
main_frame none now = err (codes "invalid Wreckfest 2 Pino main packet")
main_frame (some d) now = pino_frame d now

unfoldable pub parse_wreckfest_pino : List ℕ → ℕ → Result Text TelemetryFrame
parse_wreckfest_pino b now = main_frame (parse_wreckfest_pino_main b) now

-- What a parser may hand on: a force within -1 and 1, and no engine speed below 0.
pub record Normalized (f : TelemetryFrame) : Type 0 where
  pub force : Within minus_one_f one_f f.force
  pub rpm : pos 0 ≤ℤ f.rpm
  pub rpm_max : pos 0 ≤ℤ f.rpm_max
  pub rpm_redline : pos 0 ≤ℤ f.rpm_redline

not_negative_lem : (v : ℤ) → pos 0 ≤ℤ not_negative v
not_negative_lem (pos n) = ground arith
not_negative_lem (negsuc n) = ground arith

unit_force-Within :
    (v : Float64) → is_nan v ≡ false → is_inf v ≡ false → Within minus_one_f one_f (unit_force v)
unit_force-Within nan h k = ground arith
unit_force-Within (num false m) h k = ground arith
unit_force-Within (num true m) h k = ground arith

local_frame-Normalized : (w : JsonWireFrame) (now : ℕ) → OfOk Normalized (local_frame w now)
unfolding local_frame
local_frame-Normalized w now =
    elim (Bool-cases
      (is_nan w.force || is_inf w.force || is_nan w.speed_kph || is_inf w.speed_kph)) [
        | inl bad ↦ simp bad tt
        | inr good ↦ simp good (record {
          force = unit_force-Within w.force (ground arith) (ground arith);
          rpm = not_negative_lem w.rpm;
          rpm_max = not_negative_lem w.rpm_max;
          rpm_redline = not_negative_lem w.rpm_redline;
        })
      ]

pino_frame-Normalized : (d : WreckfestTelemetry) (now : ℕ) → OfOk Normalized (pino_frame d now)
unfolding pino_frame
pino_frame-Normalized d now =
    let force = widen d.ffb_force_bits in
    elim (Bool-cases (is_nan force || is_inf force)) [
      | inl bad ↦ simp bad tt
      | inr good ↦ simp good (record {
        force = unit_force-Within force (ground arith) (ground arith);
        rpm = not_negative_lem d.rpm;
        rpm_max = not_negative_lem d.rpm_max;
        rpm_redline = not_negative_lem d.rpm_redline;
      })
    ]

decoded_frame-Normalized :
    (r : Result Text JsonWireFrame) (now : ℕ) → OfOk Normalized (decoded_frame r now)
decoded_frame-Normalized (err e) now = tt
decoded_frame-Normalized (ok w) now = local_frame-Normalized w now

main_frame-Normalized :
    (d : Option WreckfestTelemetry) (now : ℕ) → OfOk Normalized (main_frame d now)
main_frame-Normalized none now = tt
main_frame-Normalized (some d) now = pino_frame-Normalized d now

-- Whatever the packet and the JSON decoder say: a frame that one of the two parsers hands on has a
-- force within -1 and 1, so a number, and no engine speed below 0.
pub parsed_frames-Normalized :
    (unmarshal : List ℕ → Result Text JsonWireFrame) (b : List ℕ) (now : ℕ)
    → OfOk Normalized (parse_local_json unmarshal b now)
      × OfOk Normalized (parse_wreckfest_pino b now)
unfolding parse_local_json parse_wreckfest_pino
parsed_frames-Normalized unmarshal b now = (
  OfOk-guarded Normalized _ _ _ (decoded_frame-Normalized (unmarshal b) now),
  main_frame-Normalized (parse_wreckfest_pino_main b) now,
)
