-- ===== src/GameAdapter/Registry.antt =====
-- internal/gameadapter/registry.go, and its use in internal/system/telemetry_windows.go: which adapters
-- there are, by name and by alias. A factory is what it makes; Go's map of factories is the
-- association list of its keys. Register with no factory at all is not modelled.
use logi_mate.Base.{
  ℕ, bit_and, Bool, true, false, not, ◌||◌, Option, none, some, List, [], ◌∷◌, ◌==◌, if◌then◌else◌,
  map,
}
use logi_mate.Base.Int.{ℤ, pos, pos_part, ltb_ℤ, scale, quot, wrap}
use logi_mate.Base.Text.{Text, codes, to_lower, trim_space, text_eq, equal_fold, is_empty}
use logi_mate.Base.Maps.{Map, lookup, insert, sorted}
use logi_mate.Base.Results.{Result, ok, err}
use logi_mate.Protocol.{led_bar_for_percent}
use logi_mate.GameAdapter.{AdapterDescriptor, AdapterFailure, UdpAdapter, new_udp_adapter}

abbrev pub AdapterFactory : Type 0
AdapterFactory = Result AdapterFailure UdpAdapter

pub record AdapterRegistry : Type 0 where
  pub factories : Map AdapterFactory
  pub aliases : Map Text

unfoldable pub normalize_id : Text → Text
normalize_id id = to_lower (trim_space id)

abbrev pub id_local_json : Text
id_local_json = codes "logimate-json"

abbrev pub id_wreckfest_pino : Text
id_wreckfest_pino = codes "wreckfest2-pino"

abbrev pub legacy_id_open_g27_pino : Text
legacy_id_open_g27_pino = codes "openg27-pino"

-- The capabilities telemetry, engine speed, force, player control and authorization.
abbrev pub all_capabilities : ℕ
all_capabilities = 31

abbrev capability_rpm : ℕ
capability_rpm = 2

abbrev capability_force : ℕ
capability_force = 4

abbrev capability_ffb_authorization : ℕ
capability_ffb_authorization = 16

abbrev local_json_descriptor : AdapterDescriptor
local_json_descriptor = record {
  id = id_local_json;
  name = codes "LogiMate Local JSON";
  game = codes "Generic";
  default_port = pos 27100;
  implemented = false;
  automatic = false;
  setup =
      codes
        "Send normalized LogiMate JSON telemetry via UDP to 127.0.0.1:27100. Manual listener only.";
  caps = all_capabilities;
}

abbrev pino_descriptor : AdapterDescriptor
pino_descriptor = record {
  id = id_wreckfest_pino;
  name = codes "Wreckfest 2 / Pino";
  game = codes "Wreckfest 2";
  default_port = pos 23123;
  implemented = false;
  automatic = true;
  setup =
      codes
        "Enable the Pino telemetry output for Wreckfest 2 and send Main packets to UDP 127.0.0.1:23123.";
  caps = all_capabilities;
}

unfoldable pub register : AdapterRegistry → Text → AdapterFactory → AdapterRegistry
register r id factory =
    let key = normalize_id id in
    if is_empty key then r else record r { factories = insert key factory r.factories }

unfoldable pub new_registry : AdapterRegistry
new_registry =
    let r : AdapterRegistry = record {
      factories = [];
      aliases = (legacy_id_open_g27_pino, id_wreckfest_pino) ∷ [];
    } in
    register (register r id_local_json (new_udp_adapter local_json_descriptor)) id_wreckfest_pino
      (new_udp_adapter pino_descriptor)

abbrev or_self : Option Text → Text → Text
or_self none id = id
or_self (some x) id = if is_empty x then id else x

unfoldable pub canonical_id : AdapterRegistry → Text → Text
canonical_id r id = let key = normalize_id id in or_self (lookup key r.aliases) key

pub data RegistryFailure : Type 0 where
  not_registered : RegistryFailure
  factory_failed : AdapterFailure → RegistryFailure

abbrev made : Option AdapterFactory → Result RegistryFailure UdpAdapter
made none = err not_registered
made (some (err e)) = err (factory_failed e)
made (some (ok a)) = ok a

unfoldable pub new_adapter : AdapterRegistry → Text → Result RegistryFailure UdpAdapter
new_adapter r id = made (lookup (canonical_id r id) r.factories)

unfoldable pub made_descriptors : Map AdapterFactory → List AdapterDescriptor
made_descriptors [] = []
made_descriptors ((id, err e) ∷ fs) = made_descriptors fs
made_descriptors ((id, ok a) ∷ fs) = a.desc ∷ made_descriptors fs

unfoldable pub descriptors : AdapterRegistry → List AdapterDescriptor
descriptors r = made_descriptors (sorted r.factories)

pub record TelemetryAdapterInfo : Type 0 where
  pub id : Text
  pub name : Text
  pub port : ℤ
  pub implemented : Bool
  pub automatic : Bool
  pub provides_rpm : Bool
  pub provides_force : Bool
  pub provides_ffb_auth : Bool
  pub setup : Text

unfoldable pub telemetry_info : AdapterDescriptor → TelemetryAdapterInfo
telemetry_info d = record {
  id = d.id;
  name = d.name;
  port = d.default_port;
  implemented = d.implemented;
  automatic = d.automatic;
  provides_rpm = not (bit_and d.caps capability_rpm == 0);
  provides_force = not (bit_and d.caps capability_force == 0);
  provides_ffb_auth = not (bit_and d.caps capability_ffb_authorization == 0);
  setup = d.setup;
}

unfoldable pub registered_telemetry_adapters : AdapterRegistry → List TelemetryAdapterInfo
registered_telemetry_adapters r = map telemetry_info (descriptors r)

-- The loop of TelemetryAdapterByID over the descriptors that are left.
unfoldable pub info_of : Text → List AdapterDescriptor → Option TelemetryAdapterInfo
info_of id [] = none
info_of id (d ∷ ds) =
    let rest = info_of id ds in if text_eq d.id id then some (telemetry_info d) else rest

unfoldable pub telemetry_adapter_by_id : AdapterRegistry → Text → Option TelemetryAdapterInfo
telemetry_adapter_by_id r id = info_of (canonical_id r id) (descriptors r)

abbrev has_info : (TelemetryAdapterInfo → Bool) → Option TelemetryAdapterInfo → Bool
has_info test none = false
has_info test (some i) = test i

unfoldable pub telemetry_adapter_requires_ffb_authorization : AdapterRegistry → Text → Bool
telemetry_adapter_requires_ffb_authorization r id =
    has_info (λ i. i.provides_ffb_auth) (telemetry_adapter_by_id r id)

unfoldable pub telemetry_adapter_supports_force : AdapterRegistry → Text → Bool
telemetry_adapter_supports_force r id =
    has_info (λ i. i.provides_force) (telemetry_adapter_by_id r id)

unfoldable pub telemetry_adapter_supports_rpm : AdapterRegistry → Text → Bool
telemetry_adapter_supports_rpm r id = has_info (λ i. i.provides_rpm) (telemetry_adapter_by_id r id)

unfoldable pub same_telemetry_adapter : AdapterRegistry → Text → Text → Bool
same_telemetry_adapter r a b = equal_fold (canonical_id r a) (canonical_id r b)

-- NativeRPMLEDMask; the product wraps as Go's `int` does.
unfoldable pub native_rpm_led_mask : ℤ → ℤ → ℤ → ℕ
native_rpm_led_mask rpm redline max =
    let top = if ltb_ℤ (pos 0) redline then redline else max in
    if not (ltb_ℤ (pos 0) top) || not (ltb_ℤ (pos 0) rpm)
    then 0
    else (let percent = quot (wrap (scale rpm 100)) (pos_part top) in
        let floor = if ltb_ℤ percent (pos 0) then pos 0 else percent in
        led_bar_for_percent (if ltb_ℤ (pos 100) floor then pos 100 else floor))
