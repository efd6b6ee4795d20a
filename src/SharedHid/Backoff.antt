-- ===== src/SharedHid/Backoff.antt =====
-- The waits of internal/system/g27_shared_hid_windows.go between attempts to open the wheel.
use logi_mate.Base.{
  ℕ, zero, suc, ◌+◌, ◌-◌, ◌*◌, ◌^◌, ◌≤◌, ◌≡◌, refl, ap, min, not, ◌&&◌, Option, none, some, arith,
  leb,
}
use logi_mate.Base.Text.{Text, is_empty, equal_fold}
use logi_mate.SharedHid.State.{SharedReader}
use logi_mate.SharedHid.Open.{
  is_handle, retry_delay, note_g27_open_failure, with_open_error, opens_g27,
}

saturated : (n : ℕ) → retry_delay (suc (suc (suc (suc (suc n))))) ≡ 4000000000
unfolding retry_delay
saturated n =
    let e : min (suc (suc (suc (suc (suc n)))) - 1) 4 ≡ 4 = ground arith in
    ap (λ (k : ℕ). 250000000 * 2 ^ k) e

-- The wait after a first failure is 250 ms; each further failure doubles it, up to 4 s.
pub retry_delay_doubles :
    (n : ℕ)
    → (retry_delay 1 ≡ 250000000)
      × (retry_delay (suc (suc n)) ≡ min (2 * retry_delay (suc n)) 4000000000)
unfolding retry_delay
retry_delay_doubles zero = (refl, refl)
retry_delay_doubles (suc zero) = (refl, refl)
retry_delay_doubles (suc (suc zero)) = (refl, refl)
retry_delay_doubles (suc (suc (suc zero))) = (refl, refl)
retry_delay_doubles (suc (suc (suc (suc n)))) = rw (saturated n, saturated (suc n)) (refl, refl)

retry_delay_bounded : (n : ℕ) → (250000000 ≤ retry_delay n) × (retry_delay n ≤ 4000000000)
unfolding retry_delay
retry_delay_bounded zero = omega arith
retry_delay_bounded (suc zero) = omega arith
retry_delay_bounded (suc (suc zero)) = omega arith
retry_delay_bounded (suc (suc (suc zero))) = omega arith
retry_delay_bounded (suc (suc (suc (suc zero)))) = omega arith
retry_delay_bounded (suc (suc (suc (suc (suc n))))) = rw (saturated n) (omega arith)

-- After a failed open the next attempt for a path that is not open comes exactly when the wait for that
-- many failures is over, which is between 250 ms and 4 s.
pub failed_open_waits :
    (s : SharedReader) (cause : Option Text) (now later : ℕ) (path : Text)
    → (opens_g27 (note_g27_open_failure s cause now) path later ≡ (
        not (is_empty path)
        && not (equal_fold s.path path && is_handle s.handle)
        && leb (now + retry_delay (suc s.failures)) later))
      × (250000000 ≤ retry_delay (suc s.failures))
      × (retry_delay (suc s.failures) ≤ 4000000000)
unfolding opens_g27 note_g27_open_failure with_open_error
failed_open_waits s none now later path =
    let (low, high) = retry_delay_bounded (suc s.failures) in (ground arith, low, high)
failed_open_waits s (some cause) now later path =
    let (low, high) = retry_delay_bounded (suc s.failures) in (ground arith, low, high)
