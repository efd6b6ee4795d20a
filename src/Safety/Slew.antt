-- ===== src/Safety/Slew.antt =====
-- internal/system/native_ffb_windows.go, applyFFBSlew: one step moves by at most the slew limit
-- and not past the target, and the ticks of a test reach the target.
use logi_mate.Base.{
  ℕ, zero, suc, ◌+◌, ◌-◌, ◌*◌, ◌^◌, ◌≤◌, ◌<◌, ◌≡◌, ◌⊎◌, Bool, true, false, arith, max,
  if◌then◌else◌,
}
use logi_mate.Base.Int.{ℤ, pos, negsuc, pos_part, neg_part, ◌≤ℤ◌, ◌+ℤ◌, ◌-ℤ◌, neg, ltb_ℤ, wrap}
use logi_mate.Safety.{apply_ffb_slew}

-- Far from the ends of 64 bits.
abbrev pub IsModerate : ℤ → Type 0
IsModerate a = (pos_part a ≤ 2 ^ 61) × (neg_part a ≤ 2 ^ 61)

wrap_id : (a : ℤ) → pos_part a < 2 ^ 63 → neg_part a < 2 ^ 63 → wrap a ≡ a
unfolding wrap
wrap_id (pos n) h k = ground arith
wrap_id (negsuc n) h k = ground arith

-- How far two forces are apart.
abbrev pub distance : ℤ → ℤ → ℕ
distance a b =
    (pos_part a + neg_part b - (pos_part b + neg_part a))
    + (pos_part b + neg_part a - (pos_part a + neg_part b))

abbrev pub slew_limit : ℤ → ℕ
slew_limit step = max 1 (pos_part step)

-- The step on integers that do not wrap.
abbrev step_of : ℤ → ℕ → ℤ → ℤ × Bool
step_of current m target =
    let d = target -ℤ current in
    if ltb_ℤ (pos m) d
    then (current +ℤ pos m, true)
    else if ltb_ℤ d (neg (pos m))
    then (current -ℤ pos m, true)
    else (target, false)

sub_moderate :
    (a b : ℤ)
    → IsModerate a
    → IsModerate b
    → (pos_part (a -ℤ b) < 2 ^ 63) × (neg_part (a -ℤ b) < 2 ^ 63)
unfolding ◌-ℤ◌
sub_moderate a b h k = ground arith

add_moderate :
    (a b : ℤ)
    → IsModerate a
    → IsModerate b
    → (pos_part (a +ℤ b) < 2 ^ 63) × (neg_part (a +ℤ b) < 2 ^ 63)
unfolding ◌+ℤ◌
add_moderate a b h k = ground arith

limit-IsModerate : (step : ℤ) → IsModerate step → IsModerate (pos (slew_limit step))
limit-IsModerate step h = omega arith

limit_lem : (step : ℤ) → (if ltb_ℤ step (pos 1) then pos 1 else step) ≡ pos (slew_limit step)
limit_lem step = ground arith

-- Within the moderate range no operation of the step wraps.
apply_ffb_slew-step_of :
    (current target step : ℤ)
    → IsModerate current
    → IsModerate target
    → IsModerate step
    → apply_ffb_slew current target step ≡ step_of current (slew_limit step) target
unfolding apply_ffb_slew
apply_ffb_slew-step_of current target step h k l =
    let m = pos (slew_limit step) in
    let lm = limit-IsModerate step l in
    let (d0, d1) = sub_moderate target current k h in
    let (a0, a1) = add_moderate current m h lm in
    let (b0, b1) = sub_moderate current m h lm in
    rw (
      limit_lem step,
      wrap_id (target -ℤ current) d0 d1,
      wrap_id (current +ℤ m) a0 a1,
      wrap_id (current -ℤ m) b0 b1,
    )

step_of_lem :
    (current target : ℤ) (m : ℕ)
    → 0 < m
    → IsModerate current
    → IsModerate target
    → let (next, limited) = step_of current m target in
      (distance next target ≡ distance current target - m)
      × (distance current next ≤ m)
      × (((limited ≡ false) × (next ≡ target)) ⊎ ((limited ≡ true) × (m < distance current target)))
      × IsModerate next
unfolding ◌+ℤ◌ ◌-ℤ◌ neg
step_of_lem (pos a) (pos b) m p h k = ground arith
step_of_lem (pos a) (negsuc b) m p h k = ground arith
step_of_lem (negsuc a) (pos b) m p h k = ground arith
step_of_lem (negsuc a) (negsuc b) m p h k = ground arith

-- One step from moderate values: the distance to the target shrinks by the limit (to 0 at least),
-- the force moves by at most the limit, and the step either lands on the target and says that it was
-- not limited, or the target was farther away than the limit and the step says that it was limited.
pub apply_ffb_slew_step :
    (current target step : ℤ)
    → IsModerate current
    → IsModerate target
    → IsModerate step
    → let (next, limited) = apply_ffb_slew current target step in
      (distance next target ≡ distance current target - slew_limit step)
      × (distance current next ≤ slew_limit step)
      × (((limited ≡ false) × (next ≡ target))
          ⊎ ((limited ≡ true) × (slew_limit step < distance current target)))
      × IsModerate next
apply_ffb_slew_step current target step h k l =
    rw (apply_ffb_slew-step_of current target step h k l)
      (step_of_lem current target (slew_limit step) (omega arith) h k)

-- The force after so many ticks towards one target.
pub slewed : ℕ → ℤ → ℤ → ℤ → ℤ
slewed zero current target step = current
slewed (suc n) current target step = slewed n (apply_ffb_slew current target step).0 target step

distance_zero : (a b : ℤ) → distance a b ≡ 0 → a ≡ b
distance_zero a b h = ground arith

-- From moderate values enough ticks reach the target: n ticks do, if n times the limit covers the
-- distance.
pub slewed_reaches :
    (n : ℕ) (current target step : ℤ)
    → IsModerate current
    → IsModerate target
    → IsModerate step
    → distance current target ≤ n * slew_limit step
    → slewed n current target step ≡ target
unfolding slewed
slewed_reaches zero current target step h k l d = distance_zero current target (omega arith)
slewed_reaches (suc n) current target step h k l d =
    let (closer, _, _, m) = apply_ffb_slew_step current target step h k l in
    slewed_reaches n (apply_ffb_slew current target step).0 target step m k l (grind arith)

step_of-between :
    (a b : ℤ) (m : ℕ) → pos 0 ≤ℤ a → a ≤ℤ b → (a ≤ℤ (step_of a m b).0) × ((step_of a m b).0 ≤ℤ b)
unfolding ◌+ℤ◌ ◌-ℤ◌ neg
step_of-between (pos a) (pos b) m h k = ground arith
step_of-between (pos a) (negsuc b) m h k = ground arith
step_of-between (negsuc a) b m h k = ground arith

-- A step up from a force of at least 0 stays between the force and its target.
pub apply_ffb_slew-between :
    (current target step : ℤ)
    → IsModerate current
    → IsModerate target
    → IsModerate step
    → pos 0 ≤ℤ current
    → current ≤ℤ target
    → (current ≤ℤ (apply_ffb_slew current target step).0)
      × ((apply_ffb_slew current target step).0 ≤ℤ target)
apply_ffb_slew-between current target step h k l low high =
    rw (apply_ffb_slew-step_of current target step h k l)
      (step_of-between current target (slew_limit step) low high)
