-- ===== src/Base/Float.antt =====
-- Go's float64: IEEE 754 binary64, as a NaN or a sign with a magnitude. A magnitude is the bit pattern
-- below the sign bit; patterns are ordered as their values, and infinity is the largest. The payload
-- of a NaN is never looked at. Sums, products and quotients are computed exactly in units of
-- 2^-1074, the least positive value, and then rounded to nearest, ties to even.
mod Examples
pub mod Ranges
pub mod Nan
use Prim.Native.Nat.{ℕ, zero, suc, ◌+◌, ◌-◌, ◌*◌, ◌/◌, ◌%◌, ◌^◌, max}
use mathlib.Core.Bool.{Bool, true, false, not, ◌&&◌, ◌||◌}
use logi_mate.Base.Tests.{ltb, leb, ◌==◌, if◌then◌else◌}
use logi_mate.Base.Int.{ℤ, pos, negsuc, sub_ℕ}

pub data Float64 : Type 0 where
  nan : Float64
  num : Bool → ℕ → Float64

-- n / d to the nearest integer, ties to even.
unfoldable pub round_to_even : ℕ → ℕ → ℕ
round_to_even n d =
    let q = n / d in
    let r = 2 * (n % d) in if ltb r d then q else if ltb d r then q + 1 else q + q % 2

-- The number of binary digits of n; the first argument bounds the recursion, and n itself is enough.
unfoldable pub digits : ℕ → ℕ → ℕ
digits zero n = 0
digits (suc k) zero = 0
digits (suc k) (suc n) = suc (digits k (suc n / 2))

abbrev pub inf_mag : ℕ
inf_mag = 0x7FF0000000000000

-- A magnitude in units; below 2^53 patterns and units agree.
unfoldable pub units : ℕ → ℕ
units m = let e = m / 2 ^ 52 in if e == 0 then m else (2 ^ 52 + m % 2 ^ 52) * 2 ^ (e - 1)

-- The magnitude nearest to n / 2^s units.
unfoldable pub round_mag : ℕ → ℕ → ℕ
unfolding digits round_to_even
round_mag n s =
    let k = max s (digits n n - 53) in
    let m = (k - s) * 2 ^ 52 + round_to_even n (2 ^ k) in if ltb m inf_mag then m else inf_mag

abbrev pub xor : Bool → Bool → Bool
xor true b = not b
xor false b = b

abbrev pub zero_f : Float64
zero_f = num false 0

abbrev pub neg_f : Float64 → Float64
neg_f nan = nan
neg_f (num s m) = num (not s) m

abbrev pub abs_f : Float64 → Float64
abs_f nan = nan
abs_f (num s m) = num false m

abbrev pub is_nan : Float64 → Bool
is_nan nan = true
is_nan (num s m) = false

abbrev pub is_inf : Float64 → Bool
is_inf nan = false
is_inf (num s m) = leb inf_mag m

abbrev pub is_finite : Float64 → Bool
is_finite a = not (is_nan a) && not (is_inf a)

-- `a < b`; both zeros are equal.
abbrev pub lt_f : Float64 → Float64 → Bool
lt_f nan b = false
lt_f (num s m) nan = false
lt_f (num false m) (num false n) = ltb m n
lt_f (num true m) (num true n) = ltb n m
lt_f (num false m) (num true n) = false
lt_f (num true m) (num false n) = ltb 0 (m + n)

-- `a == b`
abbrev pub eq_f : Float64 → Float64 → Bool
eq_f nan b = false
eq_f (num s m) nan = false
eq_f (num false m) (num false n) = m == n
eq_f (num true m) (num true n) = m == n
eq_f (num false m) (num true n) = m + n == 0
eq_f (num true m) (num false n) = m + n == 0

-- `a <= b`
abbrev pub le_f : Float64 → Float64 → Bool
le_f a b = lt_f a b || eq_f a b

-- The sum of two finite values; an exact zero of unlike signs is +0.
unfoldable pub add_finite : Bool → ℕ → Bool → ℕ → Float64
unfolding units round_mag
add_finite s m t n =
    let a = units m in
    let b = units n in
    if not (xor s t)
    then num s (round_mag (a + b) 0)
    else if a == b
    then zero_f
    else if ltb b a
    then num s (round_mag (a - b) 0)
    else num t (round_mag (b - a) 0)

infixl 65 ◌+f◌ ◌-f◌
infixl 70 ◌*f◌ ◌/f◌
unfoldable pub ◌+f◌ : Float64 → Float64 → Float64
unfolding add_finite
nan +f b = nan
num s m +f nan = nan
num s m +f num t n =
    if leb inf_mag m
    then (if leb inf_mag n && xor s t then nan else num s inf_mag)
    else if leb inf_mag n
    then num t inf_mag
    else add_finite s m t n

unfoldable pub ◌-f◌ : Float64 → Float64 → Float64
unfolding ◌+f◌
a -f b = a +f neg_f b

unfoldable pub ◌*f◌ : Float64 → Float64 → Float64
unfolding units round_mag
nan *f b = nan
num s m *f nan = nan
num s m *f num t n =
    if leb inf_mag m || leb inf_mag n
    then (if m == 0 || n == 0 then nan else num (xor s t) inf_mag)
    else num (xor s t) (round_mag (units m * units n) 1074)

-- a / b units for b above 0: 2200 further digits, and one more for what is left over.
abbrev quotient_mag : ℕ → ℕ → ℕ
unfolding round_mag
quotient_mag a b =
    let n = a * 2 ^ 3274 in round_mag (2 * (n / b) + (if n % b == 0 then 0 else 1)) 2201

unfoldable pub ◌/f◌ : Float64 → Float64 → Float64
unfolding units quotient_mag
nan /f b = nan
num s m /f nan = nan
num s m /f num t n =
    if leb inf_mag m
    then (if leb inf_mag n then nan else num (xor s t) inf_mag)
    else if leb inf_mag n
    then num (xor s t) 0
    else if n == 0
    then (if m == 0 then nan else num (xor s t) inf_mag)
    else num (xor s t) (quotient_mag (units m) (units n))

-- A constant n / d of the source, rounded once, and an integer.
unfoldable pub ratio : ℕ → ℕ → Float64
unfolding quotient_mag
ratio n d = num false (quotient_mag n d)

unfoldable pub of_ℕ : ℕ → Float64
unfolding round_mag
of_ℕ n = num false (round_mag (n * 2 ^ 1074) 0)

-- `int(math.RoundToEven(a))`. Go leaves the conversion of a NaN, and of a value outside `int`, to the
-- machine; the program is built for amd64, whose instruction gives the least integer.
abbrev pub least_int : ℤ
least_int = negsuc (2 ^ 63 - 1)

unfoldable pub round_to_int : Float64 → ℤ
unfolding units round_to_even
round_to_int nan = least_int
round_to_int (num s m) =
    let n = round_to_even (units m) (2 ^ 1074) in
    if ltb n (2 ^ 63) then (if s then sub_ℕ 0 n else pos n) else least_int

-- Clamp of internal/wheelengine/native_protocol.go.
unfoldable pub clamp : Float64 → Float64 → Float64 → Float64
clamp v lo hi = if lt_f v lo then lo else if lt_f hi v then hi else v

-- `math.Float64frombits`, and the conversion of a float32 pattern, which is exact.
unfoldable pub of_bits : ℕ → Float64
of_bits bits = let m = bits % 2 ^ 63 in if ltb inf_mag m then nan else num (leb (2 ^ 63) bits) m

unfoldable pub widen : ℕ → Float64
unfolding round_mag
widen bits =
    let m = bits % 2 ^ 31 in
    let e = m / 2 ^ 23 in
    let s = leb (2 ^ 31) bits in
    if ltb 0x7F800000 m
    then nan
    else if e == 255
    then num s inf_mag
    else if e == 0
    then num s (round_mag (m * 2 ^ 925) 0)
    else num s (round_mag ((2 ^ 23 + m % 2 ^ 23) * 2 ^ (924 + e)) 0)

unfoldable pub of_ℤ : ℤ → Float64
unfolding of_ℕ
of_ℤ (pos n) = of_ℕ n
of_ℤ (negsuc n) = neg_f (of_ℕ (suc n))

-- `int(math.Round(a))`: to the nearest integer, halves away from zero.
unfoldable pub round_away_to_int : Float64 → ℤ
unfolding units
round_away_to_int nan = least_int
round_away_to_int (num s m) =
    let n = (units m + 2 ^ 1073) / 2 ^ 1074 in
    if ltb n (2 ^ 63) then (if s then sub_ℕ 0 n else pos n) else least_int

-- `math.Max` and `math.Min`.
abbrev pub max_f : Float64 → Float64 → Float64
max_f nan b = if eq_f b (num false inf_mag) then b else nan
max_f (num s m) nan = if eq_f (num s m) (num false inf_mag) then num s m else nan
max_f (num s m) (num t n) =
    if m + n == 0
    then (if s then num t n else num s m)
    else if lt_f (num t n) (num s m)
    then num s m
    else num t n

abbrev pub min_f : Float64 → Float64 → Float64
min_f nan b = if eq_f b (num true inf_mag) then b else nan
min_f (num s m) nan = if eq_f (num s m) (num true inf_mag) then num s m else nan
min_f (num s m) (num t n) =
    if m + n == 0
    then (if s then num s m else num t n)
    else if lt_f (num s m) (num t n)
    then num s m
    else num t n
