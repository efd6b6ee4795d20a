-- ===== src/InputProfiles/Examples.antt =====
-- internal/system/input_profiles_windows.go and pedals_windows.go at concrete values.
use logi_mate.Base.{not, ◌&&◌, Bool, ◌⊎◌, ◌≡◌, refl, true, none, some, List, [], ◌∷◌}
use logi_mate.Base.Int.{pos, ◌-ℤ◌}
use logi_mate.Base.Float.{of_ℤ, neg_f}
use logi_mate.Base.Results.{ok, is_ok}
use logi_mate.Base.Text.{Text, lower, codes, is_empty, text_eq, trim_space, has_prefix, contains}
use logi_mate.Base.Maps.{Map, lookup, insert}
use logi_mate.Pipeline.Advanced.{input_profile_key}
use logi_mate.SharedHid.State.{JoyState, zero_joy, direct_hid_name}
use logi_mate.InputProfiles.{
  SteeringCalibration, StoredProfiles, ProfileError, read_control_profile,
  read_input_profile_file_strict,
}
use logi_mate.InputProfiles.Axes.{first_pressed_bit, gear_signature, steering_degrees}
use logi_mate.InputProfiles.Pedals.{PedalMapping, zero_mapping, pedal_device_prefix}
use logi_mate.InputProfiles.Carry.{
  Carried, carry_all, migrate_pedal_mappings_wheel_id, migrate_pedals-Carried,
}
use logi_mate.InputProfiles.Saved.{Change, button, steering, save}
use logi_mate.InputProfiles.Made.{acceptable, succeeded, ReadsMade, save-read}
use logi_mate.InputProfiles.Sound.{WellTaught, Degrees, after_saves, saves-WellTaught}

abbrev turned_900 : SteeringCalibration
turned_900 = record { left = 0; center = 32768; right = 65535; range_degrees = pos 900 }

-- The stops come out as half the range either way, and the middle as 0.
angles :
    (steering_degrees turned_900 65535 ≡ some (of_ℤ (pos 450)))
    × (steering_degrees turned_900 0 ≡ some (neg_f (of_ℤ (pos 450))))
unfolding steering_degrees ◌-ℤ◌
angles = (refl, refl)

pressed :
    (first_pressed_bit 0b1 0b101 ≡ some 2)
    × (first_pressed_bit 0b1 0b111 ≡ none)
    × (first_pressed_bit 0b1 0b0 ≡ none)
unfolding first_pressed_bit
pressed = (refl, refl, refl)

abbrev in_gear : JoyState
in_gear = record zero_joy {
  name = direct_hid_name (codes "Logitech G27");
  raw_report = 0 ∷ 0 ∷ 0x44 ∷ 0 ∷ 0 ∷ 0 ∷ 0 ∷ 0 ∷ 0 ∷ 0 ∷ 0x81 ∷ [];
}

signed : gear_signature in_gear ≡ codes "g27:04:01"
unfolding gear_signature contains lower
signed = refl

abbrev three_saves : List (Text × Change × Bool)
three_saves =
    (codes "G27#A", button (codes " Wheel 1 ") 7, true)
    ∷ (codes "G27#A", steering turned_900, true)
    ∷ (codes "G27#A", button (codes "Wheel 2") 40, true)
    ∷ []

abbrev saved_file : StoredProfiles
saved_file = after_saves (ok none) three_saves

-- The third of them is refused.
read_back :
    (lookup (codes "Wheel 1") (read_control_profile saved_file (codes "g27&a")).buttons ≡ some 7)
    × (lookup (codes "Wheel 2") (read_control_profile saved_file (codes "g27&a")).buttons ≡ none)
unfolding after_saves read_control_profile lookup trim_space insert text_eq input_profile_key lower
read_back = (refl, refl)

saves-WellTaught_example :
    WellTaught (read_control_profile saved_file (codes "g27&a"))
    × Degrees (read_control_profile saved_file (codes "g27&a"))
saves-WellTaught_example = saves-WellTaught three_saves (codes "g27&a")

save-read_example :
    (succeeded (save saved_file (codes "G27#A") (button (codes "Wheel 3") 9) true).1 ≡ (
      not (is_empty (trim_space (codes "G27#A")))
      && (acceptable (button (codes "Wheel 3") 9)
          && (is_ok (read_input_profile_file_strict saved_file) && true))))
    × ((((save saved_file (codes "G27#A") (button (codes "Wheel 3") 9) true).1 ≡ none)
          × ReadsMade saved_file
              (codes "G27#A")
              (button (codes "Wheel 3") 9)
              (save saved_file (codes "G27#A") (button (codes "Wheel 3") 9) true).0
              (codes "DFGT"))
        ⊎ ((e : ProfileError) × ((save saved_file
                (codes "G27#A")
                (button (codes "Wheel 3") 9)
                true).1
              ≡ some e)
            × ((save saved_file (codes "G27#A") (button (codes "Wheel 3") 9) true).0 ≡ saved_file)))
save-read_example =
    save-read saved_file (codes "G27#A") (button (codes "Wheel 3") 9) true (codes "DFGT")

abbrev one_mapping : Map PedalMapping
one_mapping = (codes "device__old__g27__modern", record zero_mapping { gas = codes "Y" }) ∷ []

migrate_pedals-Carried_example :
    (later : Map PedalMapping) × ((migrate_pedal_mappings_wheel_id
        (ok (some one_mapping))
        (codes "Old")
        (codes "New")
        (codes "device__old__g27__modern" ∷ [])
        true).0
      ≡ ok (some later))
    × Carried
        (pedal_device_prefix (codes "Old"))
        (pedal_device_prefix (codes "New"))
        one_mapping
        later
        (codes "device__old__g27__modern" ∷ [])
unfolding migrate_pedal_mappings_wheel_id pedal_device_prefix text_eq trim_space lower
migrate_pedals-Carried_example =
    migrate_pedals-Carried one_mapping (codes "Old") (codes "New")
      (codes "device__old__g27__modern" ∷ []) true refl refl refl refl

-- If the new prefix begins with the old one, an entry that the loop added is carried over again.
nested_identity :
    lookup
      (codes "device__a__b__b__x")
      (carry_all
        (codes "device__a__")
        (codes "device__a__b__")
        ((codes "device__a__x", zero_mapping) ∷ [])
        (codes "device__a__x" ∷ codes "device__a__b__x" ∷ [])).0
    ≡ some zero_mapping
unfolding carry_all has_prefix lookup insert lower text_eq
nested_identity = refl
