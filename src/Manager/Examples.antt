-- ===== src/Manager/Examples.antt =====
-- Runs of the registry at concrete wheels.
use logi_mate.Base.{suc, ◌≡◌, ◌⊎◌, true, false, [], ◌∷◌}
use logi_mate.Base.Text.{codes}
use logi_mate.Base.Maps.{lookup}
use logi_mate.Model.{g27}
use logi_mate.Manager.State.{
  Device, InputState, OutputState, Runtime, zero_device, zero_input, zero_output, zero_health,
  zero_runtime,
}
use logi_mate.Manager.{Manager, reconcile, update_input}
use logi_mate.Manager.Reconcile.{registered, last_with, reconcile-lookup}
use logi_mate.Manager.Updates.{Accepted, Refused, update_input_cases}

abbrev g27_device : Device
g27_device = record zero_device {
  stable_id = codes " G27-A ";
  session_id = codes "s1";
  model = g27;
  supported = true;
}

abbrev g27_runtime : Runtime
g27_runtime = record zero_runtime {
  device = g27_device;
  input = record zero_input { sample_valid = true; sample_generation = 7 };
  health = record zero_health { connected = true; input_fresh = true };
}

abbrev one_wheel : Manager
one_wheel = record {
  generation = 3;
  selected_id = codes "g27-a";
  devices = (codes "g27-a", g27_runtime) ∷ [];
  updated_at = 5;
}

-- The same wheel after it was plugged in again.
abbrev back_again : Device
back_again = record g27_device { session_id = codes "s2" }

reconcile-lookup_example :
    let m' = (reconcile one_wheel (g27_device ∷ back_again ∷ []) (codes "g27-a") 9).0 in
    (lookup (codes "g27-a") m'.devices
      ≡ registered one_wheel.devices 9
          (codes "g27-a")
          (last_with (codes "g27-a") (g27_device ∷ back_again ∷ [])))
    × (m'.generation ≡ suc one_wheel.generation)
    × (m'.selected_id ≡ codes "g27-a")
    × (m'.updated_at ≡ 9)
reconcile-lookup_example =
    reconcile-lookup one_wheel (g27_device ∷ back_again ∷ []) (codes "g27-a") 9 (codes "g27-a")

abbrev stale_sample : InputState
stale_sample = record zero_input {
  wheel_id = codes "G27-A";
  session_id = codes "S1";
  sample_valid = true;
  sample_generation = 6;
}

update_input_cases_example :
    ((r : Runtime) × Accepted one_wheel stale_sample 9 (update_input one_wheel stale_sample 9).0 r
      × ((update_input one_wheel stale_sample 9).1 ≡ true))
    ⊎ (Refused one_wheel stale_sample
        × (update_input one_wheel stale_sample 9 ≡ (one_wheel, false)))
update_input_cases_example = update_input_cases one_wheel stale_sample 9

abbrev held_output : OutputState
held_output = record zero_output { lease_active = true; generation = 4; motor = true }
