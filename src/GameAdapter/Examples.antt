-- ===== src/GameAdapter/Examples.antt =====
-- Runs of an adapter with a parser that takes one byte as the engine speed.
use logi_mate.Base.{ℕ, refl, true, false, List, [], ◌∷◌, length}
use logi_mate.Base.Int.{pos, negsuc}
use logi_mate.Base.Float.{num, zero_f}
use logi_mate.Base.Text.{Text, codes}
use logi_mate.Base.Results.{Result, ok, err, OfOk}
use logi_mate.GameAdapter.{
  AdapterDescriptor, TelemetryFrame, UdpAdapter, zero_frame, zero_adapter_health, start_adapter,
}
use logi_mate.GameAdapter.Parsers.{
  JsonWireFrame, parse_local_json, parse_wreckfest_pino, Normalized, parsed_frames-Normalized,
}
use logi_mate.GameAdapter.Ring.{Packet, Follows, receive_all, taken, receive_all-Follows}

abbrev parse_speed : List ℕ → ℕ → Result Text TelemetryFrame
parse_speed [] now = err (codes "empty")
parse_speed (b ∷ bs) now = ok (record zero_frame { rpm = pos b })

abbrev pino : AdapterDescriptor
pino = record {
  id = codes "wreckfest2-pino";
  name = codes "Wreckfest 2 / Pino";
  game = codes "Wreckfest 2";
  default_port = pos 23123;
  implemented = true;
  automatic = true;
  setup = [];
  caps = 31;
}

abbrev idle_adapter : UdpAdapter
idle_adapter = record {
  desc = pino;
  health = zero_adapter_health;
  last = zero_frame;
  ring = [];
  started_automatic = false;
}

abbrev listening : UdpAdapter
listening = record idle_adapter {
  health = record zero_adapter_health { running = true; port = pos 23123; started_at = 4 };
  started_automatic = true;
}

-- A frame, a packet from another machine, and an empty one.
abbrev packets : List Packet
packets =
    record { bytes = 80 ∷ []; loopback = true; at_time = 5 }
    ∷ record { bytes = 90 ∷ []; loopback = false; at_time = 6 }
    ∷ record { bytes = []; loopback = true; at_time = 7 }
    ∷ []

receive_all-Follows_example :
    Follows pino
      (receive_all parse_speed listening packets)
      (taken parse_speed pino packets)
      (length packets)
unfolding start_adapter
receive_all-Follows_example =
    receive_all-Follows parse_speed idle_adapter (pos 0) true 4 packets {started = listening} refl

-- A packet of a decoder that always gives the same fields, with a force of 2.
abbrev loud_fields : JsonWireFrame
loud_fields = record {
  game = codes "Generic";
  rpm = negsuc 4;
  rpm_max = pos 8000;
  rpm_redline = pos 7500;
  speed_kph = zero_f;
  force = num false 0x4000000000000000;
  physics = true;
  player_control = true;
  ffb_enabled = true;
}

abbrev loud_decoder : List ℕ → Result Text JsonWireFrame
loud_decoder b = ok loud_fields

parsed_frames-Normalized_example :
    OfOk Normalized (parse_local_json loud_decoder (123 ∷ 125 ∷ []) 5)
    × OfOk Normalized (parse_wreckfest_pino (123 ∷ 125 ∷ []) 5)
parsed_frames-Normalized_example = parsed_frames-Normalized loud_decoder (123 ∷ 125 ∷ []) 5
