-- ===== src/InputProfiles/Axes.antt =====
-- internal/system/input_profiles_windows.go: how a taught profile changes the state of a wheel, and what
-- the calibration of a pedal makes of its axis. `pow` is math.Pow where no special case of it applies.
use logi_mate.Base.{
  ℕ, zero, suc, ◌+◌, ◌-◌, ◌/◌, ◌%◌, ◌^◌, bit_and, Bool, true, false, not, ◌&&◌, ◌||◌, Option, none,
  some, List, [], ◌∷◌, ◌++◌, length, get_or, ltb, leb, ◌==◌, if◌then◌else◌,
}
use logi_mate.Base.Int.{ℤ, pos, ◌-ℤ◌, ltb_ℤ}
use logi_mate.Base.Float.{Float64, zero_f, neg_f, lt_f, le_f, of_ℤ, of_ℕ, ratio, ◌-f◌, ◌*f◌, ◌/f◌}
use logi_mate.Base.Text.{Text, codes, text_eq, trim_space, is_empty, to_lower, to_upper, contains}
use logi_mate.Base.Maps.{Map, lookup}
use logi_mate.Protocol.Torque.{one_f}
use logi_mate.Pipeline.{two_f}
use logi_mate.Pipeline.Frame.{math_pow}
use logi_mate.SharedHid.State.{JoyState}
use logi_mate.InputProfiles.{
  ControlProfile, SteeringCalibration, StoredProfiles, read_control_profile,
}

pub record AxisCalibration : Type 0 where
  pub min : ℕ
  pub center : ℕ
  pub max : ℕ
  pub inverted : Bool
  pub deadzone : Float64
  pub curve : Text

-- The first of `n` bits from `i` that is set, as the loop of firstPressedBit finds it.
unfoldable pub first_set : ℕ → ℕ → ℕ → Option ℕ
first_set newly i zero = none
first_set newly i (suc n) =
    let rest = first_set newly (i + 1) n in
    if not (bit_and newly (2 ^ i) == 0) then some i else rest

-- `after &^ before` clears in `after` the bits of `before`.
unfoldable pub first_pressed_bit : ℕ → ℕ → Option ℕ
unfolding first_set
first_pressed_bit before after =
    let newly = after - bit_and after before in
    if newly == 0 || not (bit_and newly (newly - 1) == 0) then none else first_set newly 0 32

abbrev hex_digit : ℕ → ℕ
hex_digit d = if ltb d 10 then 48 + d else 87 + d

-- The lowest `n` hexadecimal digits of a number, as `%02x` and `%08x` print one of that width.
unfoldable pub hex : ℕ → ℕ → Text
hex zero v = []
hex (suc n) v = hex n (v / 16) ++ (hex_digit (v % 16) ∷ [])

abbrev names : JoyState → Text → Bool
names j model = contains (to_lower j.name) model

unfoldable pub gear_signature : JoyState → Text
unfolding hex contains
gear_signature j =
    let raw = j.raw_report in
    let base = if leb 12 (length raw) && get_or raw 0 0 == 0 then 1 else 0 in
    let of_buttons = codes "generic:" ++ (hex 8 j.buttons ++ (codes ":" ++ hex 8 j.pov)) in
    if is_empty raw
    then of_buttons
    else if names j (codes "g27") && ltb (base + 10) (length raw)
    then codes "g27:"
      ++ (hex 2 (bit_and (get_or raw (base + 2) 0) 0x3f)
          ++ (codes ":" ++ hex 2 (bit_and (get_or raw (base + 10) 0) 0x01)))
    else if names j (codes "g25") && ltb (base + 9) (length raw)
    then codes "g25:"
      ++ (hex 2 (get_or raw (base + 8) 0 / 16)
          ++ (codes ":" ++ hex 2 (get_or raw (base + 9) 0 / 16)))
    else of_buttons

-- The learned bit of a control, if there is a usable one, read from the buttons.
abbrev override : Map ℕ → ℕ → Text → Option Bool
override learned buttons name = elim (lookup name learned) [
  | none ↦ none
  | some b ↦ if leb 32 b then none else some (not (bit_and buttons (2 ^ b) == 0))
]

abbrev overridden : Option Bool → Bool → Bool
overridden none current = current
overridden (some pressed) current = pressed

abbrev is_mapped : Option Bool → Bool
is_mapped none = false
is_mapped (some pressed) = true

-- The controls of an array, named by a prefix and their place from `i`, and whether one is mapped.
unfoldable pub override_each : Map ℕ → ℕ → Text → ℕ → List Bool → List Bool × Bool
unfolding lookup
override_each learned buttons prefix i [] = ([], false)
override_each learned buttons prefix i (current ∷ rest) =
    let o = override learned buttons (prefix ++ ((48 + i) ∷ [])) in
    let later = override_each learned buttons prefix (i + 1) rest in
    (overridden o current ∷ later.0, is_mapped o || later.1)

unfoldable pub apply_learned_buttons : ControlProfile → JoyState → JoyState
unfolding override_each lookup
apply_learned_buttons p j =
    let left = override p.buttons j.buttons (codes "Paddle L") in
    let right = override p.buttons j.buttons (codes "Paddle R") in
    let wheel = override_each p.buttons j.buttons (codes "Wheel ") 1 j.wheel_buttons in
    let shifter = override_each p.buttons j.buttons (codes "Shifter ") 1 j.shifter_buttons in
    let mapped = is_mapped left || (is_mapped right || (wheel.1 || shifter.1)) in
    record j {
      paddle_left = overridden left j.paddle_left;
      paddle_right = overridden right j.paddle_right;
      wheel_buttons = wheel.0;
      shifter_buttons = shifter.0;
      native_controls = mapped || j.native_controls;
    }

abbrev cut_unit : Float64 → Float64
cut_unit v = let low = if lt_f v zero_f then zero_f else v in if lt_f one_f low then one_f else low

abbrev on_left : ℤ → ℤ → Bool
on_left dl dx =
    (ltb_ℤ dl (pos 0) && not (ltb_ℤ (pos 0) dx)) || (ltb_ℤ (pos 0) dl && not (ltb_ℤ dx (pos 0)))

-- The guard of a calibration that gives no angle.
abbrev pub gives_none : SteeringCalibration → Bool
gives_none c =
    not (ltb_ℤ (pos 0) c.range_degrees)
    || (c.left == c.center || (c.right == c.center || c.left == c.right))

unfoldable pub half_degrees : SteeringCalibration → Float64
unfolding of_ℤ ◌/f◌
half_degrees c = of_ℤ c.range_degrees /f two_f

-- How far the wheel is on its way to a stop, from 0 to 1.
unfoldable pub share : ℤ → ℤ → Float64
unfolding of_ℤ ◌/f◌
share dx d = cut_unit (of_ℤ dx /f of_ℤ d)

unfoldable pub steering_degrees : SteeringCalibration → ℕ → Option Float64
unfolding half_degrees share ◌*f◌
steering_degrees c x =
    let dx = pos x -ℤ pos c.center in
    let dl = pos c.left -ℤ pos c.center in
    let dr = pos c.right -ℤ pos c.center in
    if gives_none c
    then none
    else if on_left dl dx
    then some (neg_f (share dx dl) *f half_degrees c)
    else some (share dx dr *f half_degrees c)

abbrev with_gear : Option ℤ → JoyState → JoyState
with_gear none j = j
with_gear (some g) j = record j { gear = g; native_controls = true }

abbrev with_degrees : Option Float64 → ℤ → JoyState → JoyState
with_degrees none range j = j
with_degrees (some degrees) range j = record j {
  steering_degrees = degrees;
  steering_calibrated = true;
  steering_range_degrees = range;
}

-- The state of the wheel by its profile; the signature of a gear is never empty.
unfoldable pub apply_control_profile : StoredProfiles → Text → JoyState → JoyState
unfolding read_control_profile apply_learned_buttons gear_signature steering_degrees lookup
apply_control_profile stored wheel_id j =
    let p = read_control_profile stored wheel_id in
    let j1 = apply_learned_buttons p j in
    let j2 = with_gear (lookup (gear_signature j1) p.gears) j1 in
    if is_empty (trim_space wheel_id)
    then j
    else with_degrees (steering_degrees p.steering j2.x) p.steering.range_degrees j2

unfoldable pub curve_value : (Float64 → Float64 → Float64) → Float64 → Text → Float64
curve_value pow v curve =
    let t = cut_unit v in
    let name = to_lower (trim_space curve) in
    if text_eq name (codes "progressiv") || text_eq name (codes "progressive")
    then math_pow pow t (ratio 165 100)
    else if text_eq name (codes "weich") || text_eq name (codes "soft")
    then math_pow pow t (ratio 65 100)
    else t

-- The way of a pedal behind its deadzone, which is cut at 0.45.
abbrev zoned : Float64 → Float64 → Float64
zoned zone t =
    let low = if lt_f zone zero_f then zero_f else zone in
    let dz = if lt_f (ratio 45 100) low then ratio 45 100 else low in
    if le_f t dz then zero_f else if lt_f zero_f dz then (t -f dz) /f (one_f -f dz) else t

unfoldable pub calibrated_axis_percent :
    (Float64 → Float64 → Float64) → ℕ → AxisCalibration → Option Float64
unfolding curve_value of_ℕ ◌-f◌ ◌/f◌
calibrated_axis_percent pow v c =
    let swap = ltb c.max c.min in
    let lo = if swap then c.max else c.min in
    let hi = if swap then c.min else c.max in
    let t = cut_unit ((of_ℕ v -f of_ℕ lo) /f (of_ℕ hi -f of_ℕ lo)) in
    let turned = if c.inverted then one_f -f t else t in
    if c.min == c.max then none else some (curve_value pow (zoned c.deadzone turned) c.curve)

unfoldable pub axis_raw_by_name : JoyState → Text → Option ℕ
axis_raw_by_name j axis =
    let name = to_upper (trim_space axis) in
    if text_eq name (codes "X")
    then some j.x
    else if text_eq name (codes "Y")
    then some j.y
    else if text_eq name (codes "Z")
    then some j.z
    else if text_eq name (codes "R")
    then some j.r
    else if text_eq name (codes "U")
    then some j.u
    else if text_eq name (codes "V")
    then some j.v
    else none
