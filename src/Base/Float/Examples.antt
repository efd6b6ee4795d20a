-- ===== src/Base/Float/Examples.antt =====
-- Sums, products and quotients with known bit patterns.
use mathlib.Core.Path.{◌≡◌, refl}
use mathlib.Core.Bool.{false}
use logi_mate.Base.Int.{pos}
use logi_mate.Base.Float.{
  num, units, round_mag, digits, round_to_even, add_finite, ◌+f◌, ◌-f◌, ◌*f◌, ◌/f◌, ratio, of_ℕ,
  quotient_mag, round_to_int,
}

one_bits : of_ℕ 1 ≡ num false 0x3FF0000000000000
unfolding of_ℕ round_mag digits round_to_even
one_bits = refl

tenth_bits : ratio 1 10 ≡ num false 0x3FB999999999999A
unfolding ratio quotient_mag round_mag digits round_to_even
tenth_bits = refl

-- 0.1 + 0.2 is 0.30000000000000004, and 0.3 - 0.1 is 0.19999999999999998.
sum_bits : ratio 1 10 +f ratio 2 10 ≡ num false 0x3FD3333333333334
unfolding ratio quotient_mag round_mag digits round_to_even ◌+f◌ add_finite units
sum_bits = refl

difference_bits : ratio 3 10 -f ratio 1 10 ≡ num false 0x3FC9999999999999
unfolding ratio quotient_mag round_mag digits round_to_even ◌+f◌ ◌-f◌ add_finite units
difference_bits = refl

-- 0.1 * 3 is 0.30000000000000004, and 1 / 3 is the constant nearest to a third.
product_bits : ratio 1 10 *f of_ℕ 3 ≡ num false 0x3FD3333333333334
unfolding ratio of_ℕ quotient_mag round_mag digits round_to_even ◌*f◌ units
product_bits = refl

quotient_bits : of_ℕ 1 /f of_ℕ 3 ≡ num false 0x3FD5555555555555
unfolding of_ℕ quotient_mag round_mag digits round_to_even ◌/f◌ units
quotient_bits = refl

-- 2.5 and 3.5 round to even.
rounded_down : round_to_int (of_ℕ 5 /f of_ℕ 2) ≡ pos 2
unfolding of_ℕ quotient_mag round_mag digits round_to_even ◌/f◌ units round_to_int
rounded_down = refl
