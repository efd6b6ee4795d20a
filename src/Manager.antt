-- ===== src/Manager.antt =====
-- internal/wheelengine/manager.go: the registry of the connected wheels. The lock makes each method one
-- step.
pub mod State
pub mod Reconcile
pub mod Updates
mod Examples
use logi_mate.Base.{
  ℕ, suc, ◌-◌, ◌≡◌, arith, Bool, true, false, not, ◌&&◌, ◌||◌, Option, none, some, List, [], ◌∷◌,
  map, ltb, leb, ◌==◌, if◌then◌else◌,
}
use logi_mate.Base.Int.{ℤ, pos}
use logi_mate.Base.Text.{Text, to_lower, lower, trim_space, equal_fold, is_empty}
use logi_mate.Base.Maps.{Map, lookup, insert, sorted}
use logi_mate.Model.{ModelId, unknown, OperatingMode}
use logi_mate.Manager.State.{
  connection_unknown, connected, reconnecting, disconnected, connection_error, ambiguous,
  source_unknown, direct_hid, winmm, ConnectionState, InputSource, Device, InputState, OutputState,
  Health, Runtime, zero_device, zero_input, zero_output, zero_health, zero_runtime, fresh,
}

pub record Manager : Type 0 where
  pub generation : ℕ
  pub selected_id : Text
  pub devices : Map Runtime
  pub updated_at : ℕ

unfoldable pub new_manager : Manager
new_manager = record { generation = 0; selected_id = []; devices = []; updated_at = 0 }

unfoldable pub key : Text → Text
unfolding trim_space lower
key id = to_lower (trim_space id)

-- `m.devices[k]`: a missing key reads as the zero runtime.
abbrev pub runtime_at : Text → Map Runtime → Runtime
runtime_at k m = elim (lookup k m) [ none ↦ zero_runtime | some r ↦ r ]

pub runtime_at-known :
    (k : Text) (m : Map Runtime) {r : Runtime} → lookup k m ≡ some r → runtime_at k m ≡ r
runtime_at-known k m e = ground arith

-- The body of the loop of `Reconcile` for one device, on what was known of its key.
unfoldable pub reconciled : Runtime → Device → ℕ → Runtime
reconciled r d now =
    let changed =
      not (is_empty r.device.session_id) && not (equal_fold r.device.session_id d.session_id) in
    record {
      device = d;
      input = if changed then zero_input else r.input;
      output = if changed then zero_output else r.output;
      health = record r.health { connected = true; updated_at = now };
    }

-- The loop over the devices that are left; `old` is the map before it.
pub reconcile_loop : Map Runtime → ℕ → List Device → Map Runtime → Map Runtime
reconcile_loop old now [] next = next
reconcile_loop old now (d ∷ ds) next =
    let k = key d.stable_id in
    reconcile_loop old now ds
      (if is_empty k then next else insert k (reconciled (runtime_at k old) d now) next)

pub record Snapshot : Type 0 where
  pub generation : ℕ
  pub selected_id : Text
  pub devices : List Runtime
  pub updated_at : ℕ

unfoldable pub snapshot : Manager → Snapshot
snapshot m = record {
  generation = m.generation;
  selected_id = m.selected_id;
  devices = map (λ (e : Text × Runtime). e.1) (sorted m.devices);
  updated_at = m.updated_at;
}

-- The loop of `Reconcile` over the old devices changes only copies, and is left out.
unfoldable pub reconcile : Manager → List Device → Text → ℕ → Manager × Snapshot
unfolding reconcile_loop
reconcile m devices selected_id now =
    let m' : Manager = record {
      generation = suc m.generation;
      selected_id = selected_id;
      devices = reconcile_loop m.devices now devices [];
      updated_at = now;
    } in
    (m', snapshot m')

abbrev pub second : ℕ
second = 1000000000

-- The runtime that an input sample meets, if it belongs to a known device and session and is not
-- older than the last one.
accepts_input : InputState → Text → Option Runtime → Bool
unfolding equal_fold
accepts_input s k none = false
accepts_input s k (some r) =
    not (is_empty k)
    && equal_fold r.device.session_id s.session_id
    && not (ltb s.sample_generation r.input.sample_generation && not (s.sample_generation == 0))

abbrev with_input : Runtime → InputState → ℕ → Runtime
with_input r s now = record r {
  input = s;
  health = record (r.health) {
    input_fresh = fresh s now second;
    last_error = s.error;
    updated_at = now;
  };
}

-- What both updates do to the registry once they are accepted.
abbrev stored : Manager → Text → Runtime → ℕ → Manager
stored m k r now = record m {
  devices = insert k r m.devices;
  generation = suc m.generation;
  updated_at = now;
}

pub update_input : Manager → InputState → ℕ → Manager × Bool
update_input m s now =
    let k = key s.wheel_id in
    if accepts_input s k (lookup k m.devices)
    then (stored m k (with_input (runtime_at k m.devices) s now) now, true)
    else (m, false)

accepts_output : Text → Text → Option Runtime → Bool
unfolding equal_fold
accepts_output session_id k none = false
accepts_output session_id k (some r) = not (is_empty k) && equal_fold r.device.session_id session_id

abbrev with_output : Runtime → OutputState → Bool → ℕ → Runtime
with_output r s recovery_pending now = record r {
  output = s;
  health = record (r.health) {
    output_blocked = recovery_pending || (s.lease_active && not (is_empty s.last_error));
    recovery_pending = recovery_pending;
    last_error = if is_empty s.last_error then r.health.last_error else s.last_error;
    updated_at = now;
  };
}

pub update_output : Manager → Text → Text → OutputState → Bool → ℕ → Manager × Bool
update_output m wheel_id session_id s recovery_pending now =
    let k = key wheel_id in
    if accepts_output session_id k (lookup k m.devices)
    then (stored m k (with_output (runtime_at k m.devices) s recovery_pending now) now, true)
    else (m, false)

unfoldable pub selected : Manager → Option Runtime
unfolding key
selected m = lookup (key m.selected_id) m.devices
