-- ===== src/Reference/Tracker.antt =====
-- internal/openg27port/core.go, RangeTracker: the range that it holds is that of its samples.
use logi_mate.Base.{◌≡◌, refl, true, false, List, [], ◌∷◌, All, arith}
use logi_mate.Base.Int.{ℤ, ◌≤ℤ◌}
use logi_mate.Reference.{RangeTracker, add_sample, add_samples, reset_tracker}

abbrev pub Covers : RangeTracker → ℤ → Type 0
Covers r x = (r.least ≤ℤ x) × (x ≤ℤ r.greatest)

-- A further sample widens the range, if there is one, and is covered.
add_sample-Covers :
    (r : RangeTracker) (x y : ℤ)
    → r.has_data ≡ true
    → Covers r y
    → Covers (add_sample r x) y × Covers (add_sample r x) x × ((add_sample r x).has_data ≡ true)
unfolding add_sample
add_sample-Covers r x y h c = ground arith

first_sample :
    (r : RangeTracker) (x : ℤ)
    → r.has_data ≡ false
    → Covers (add_sample r x) x × ((add_sample r x).has_data ≡ true)
unfolding add_sample
first_sample r x h = ground arith

-- Further samples keep what is covered, and are covered.
add_samples-Covers :
    (r : RangeTracker) (x0 : ℤ) (xs : List ℤ)
    → r.has_data ≡ true
    → Covers r x0
    → ((y : ℤ) → Covers r y → Covers (add_samples r xs) y) × All (Covers (add_samples r xs)) xs
unfolding add_samples
add_samples-Covers r x0 [] h c0 = (λ y c. c, tt)
add_samples-Covers r x0 (x ∷ xs) h c0 =
    let (old, new, filled) = add_sample-Covers r x x0 h c0 in
    let (kept, later) = add_samples-Covers (add_sample r x) x xs filled new in
    (λ y c. kept y (add_sample-Covers r x y h c).0, (kept x new, later))

-- After samples of a new tracker every sample lies between its least and its greatest value.
pub tracked-Covers : (xs : List ℤ) → All (Covers (add_samples reset_tracker xs)) xs
unfolding add_samples
tracked-Covers [] = tt
tracked-Covers (x ∷ xs) =
    let (first, filled) = first_sample reset_tracker x refl in
    let (kept, later) = add_samples-Covers (add_sample reset_tracker x) x xs filled first in
    (kept x first, later)
