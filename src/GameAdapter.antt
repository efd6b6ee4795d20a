-- ===== src/GameAdapter.antt =====
-- internal/gameadapter/types.go and udp.go: a telemetry adapter that listens to UDP packets. The
-- parser is the adapter's own field, so it is an argument here; times are numbers, and what the socket does is part of the events. `TelemetryFrame`, `AdapterDescriptor`
-- and `AdapterHealth` are the types Frame, Descriptor and Health.
pub mod Ring
pub mod Parsers
pub mod Registry
mod Examples
use logi_mate.Base.{
  ℕ, suc, ◌-◌, Bool, true, false, not, ◌||◌, List, [], ◌∷◌, ◌++◌, length, drop, ltb, if◌then◌else◌,
}
use logi_mate.Base.Int.{ℤ, pos, ltb_ℤ}
use logi_mate.Base.Float.{Float64, zero_f}
use logi_mate.Base.Text.{Text, is_empty}
use logi_mate.Base.Results.{Result, ok, err}

pub record AdapterDescriptor : Type 0 where
  pub id : Text
  pub name : Text
  pub game : Text
  pub default_port : ℤ
  pub implemented : Bool
  pub automatic : Bool
  pub setup : Text
  pub caps : ℕ

pub record TelemetryFrame : Type 0 where
  pub adapter : Text
  pub game : Text
  pub rpm : ℤ
  pub rpm_max : ℤ
  pub rpm_redline : ℤ
  pub speed_kph : Float64
  pub force : Float64
  pub physics : Bool
  pub player_control : Bool
  pub ffb_enabled : Bool
  pub received_at : ℕ

-- The listening address is its port.
pub record AdapterHealth : Type 0 where
  pub running : Bool
  pub port : ℤ
  pub packets : ℕ
  pub frames : ℕ
  pub invalid : ℕ
  pub last_error : Text
  pub started_at : ℕ
  pub last_frame : ℕ

pub record UdpAdapter : Type 0 where
  pub desc : AdapterDescriptor
  pub health : AdapterHealth
  pub last : TelemetryFrame
  pub ring : List TelemetryFrame
  pub started_automatic : Bool

pub data AdapterFailure : Type 0 where
  id_required bad_default_port bad_port listen_failed stop_timed_out : AdapterFailure

abbrev pub zero_frame : TelemetryFrame
zero_frame = record {
  adapter = [];
  game = [];
  rpm = pos 0;
  rpm_max = pos 0;
  rpm_redline = pos 0;
  speed_kph = zero_f;
  force = zero_f;
  physics = false;
  player_control = false;
  ffb_enabled = false;
  received_at = 0;
}

abbrev pub zero_adapter_health : AdapterHealth
zero_adapter_health = record {
  running = false;
  port = pos 0;
  packets = 0;
  frames = 0;
  invalid = 0;
  last_error = [];
  started_at = 0;
  last_frame = 0;
}

abbrev pub valid_port : ℤ → Bool
valid_port p = not (not (ltb_ℤ (pos 0) p) || ltb_ℤ (pos 65535) p)

-- NewUDPAdapter, with a parser.
unfoldable pub new_udp_adapter : AdapterDescriptor → Result AdapterFailure UdpAdapter
new_udp_adapter d =
    if is_empty d.id
    then err id_required
    else if not (valid_port d.default_port)
    then err bad_default_port
    else ok (record {
      desc = record d { implemented = true };
      health = zero_adapter_health;
      last = zero_frame;
      ring = [];
      started_automatic = false;
    })

-- Stop, up to its wait for the reading goroutine; `ended` is whether it ended in time.
unfoldable pub stop_adapter : UdpAdapter → UdpAdapter
stop_adapter a = record a { health = record (a.health) { running = false } }

abbrev pub chosen_port : UdpAdapter → ℤ → ℤ
chosen_port a p = if ltb_ℤ (pos 0) p then p else a.desc.default_port

-- Start; `listened` is whether the port could be opened.
unfoldable pub start_adapter :
    UdpAdapter → ℤ → Bool → Bool → ℕ → Result AdapterFailure UdpAdapter × UdpAdapter
unfolding stop_adapter
start_adapter a port automatic listened now =
    let p = chosen_port a port in
    if not (valid_port p)
    then (err bad_port, a)
    else if not listened
    then (err listen_failed, stop_adapter a)
    else (let a' : UdpAdapter = record a {
      health = record zero_adapter_health { running = true; port = p; started_at = now };
      last = zero_frame;
      ring = [];
      started_automatic = automatic;
    } in
        (ok a', a'))

abbrev pub ring_size : ℕ
ring_size = 256

-- `a.ring = append(a.ring, f)`, cut to the last 256.
unfoldable pub push : List TelemetryFrame → TelemetryFrame → List TelemetryFrame
push ring f =
    let longer = ring ++ f ∷ [] in
    if ltb ring_size (length longer) then drop (length longer - ring_size) longer else longer

-- The frame as the adapter stores it.
abbrev pub stamped : AdapterDescriptor → TelemetryFrame → ℕ → TelemetryFrame
stamped d f now = record f {
  adapter = d.id;
  game = if is_empty f.game then d.game else f.game;
  received_at = now;
}

-- The end of a round of `readLoop`, with what the parser said.
unfoldable pub take_in : UdpAdapter → Result Text TelemetryFrame → ℕ → UdpAdapter
unfolding push
take_in a (err e) now = record a {
  health = record (a.health) { invalid = suc a.health.invalid; last_error = e };
}
take_in a (ok f) now = record a {
  health = record (a.health) { frames = suc a.health.frames; last_error = []; last_frame = now };
  last = stamped a.desc f now;
  ring = push a.ring (stamped a.desc f now);
}

-- One round of `readLoop` with a packet; `loopback` is whether its sender is local.
unfoldable pub receive :
    (List ℕ → ℕ → Result Text TelemetryFrame) → UdpAdapter → List ℕ → Bool → ℕ → UdpAdapter
unfolding take_in
receive parse a packet loopback now =
    let a1 : UdpAdapter = record a {
      health = record (a.health) { packets = suc a.health.packets };
    } in
    if not loopback
    then record a1 { health = record (a1.health) { invalid = suc a1.health.invalid } }
    else take_in a1 (parse packet now) now

-- `readLoop` ends with an error of the socket.
unfoldable pub read_failed : UdpAdapter → Text → UdpAdapter
read_failed a e = record a { health = record (a.health) { running = false; last_error = e } }
