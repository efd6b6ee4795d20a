-- ===== src/SharedHid/Doubled.antt =====
-- internal/system/classic_shared_hid_windows.go: the reading loop closes its handle after every error,
-- also where the input was closed, or opened anew, before.
use logi_mate.Base.{ℕ, suc, ◌≡◌, true, [], arith}
use logi_mate.Base.Text.{Text}
use logi_mate.SharedHid.Open.{is_handle}
use logi_mate.SharedHid.Classic.{close_classic_shared_input, read_failed_classic}
use logi_mate.SharedHid.Events.{System, count, count-without, without, after, close_handle}

-- The input is closed, then the reading loop of its session fails; each closes its handle at once.
abbrev pub closed_then_failed : System → ℕ → ℕ → Text → ℕ → System
closed_then_failed y h generation error now =
    let y' = close_handle (after y (close_classic_shared_input y.reader)) h in
    close_handle (after y' (read_failed_classic y'.reader h generation error now)) h

-- If a classic reader with an open handle is closed, and its reading loop then fails, CloseHandle is
-- called a second time with the handle that is no longer open.
pub classic_handle_closed_twice :
    (y : System) (h generation : ℕ) (error : Text) (now : ℕ)
    → y.reader.handle ≡ h
    → is_handle h ≡ true
    → count h y.open_handles ≡ 1
    → y.closing ≡ []
    → (closed_then_failed y h generation error now).bad_closes ≡ suc y.bad_closes
unfolding close_handle close_classic_shared_input read_failed_classic
classic_handle_closed_twice y h generation error now same good once none_pending =
    let left : count h (without h y.open_handles) ≡ 0 =
      grind (arith, count-without h h y.open_handles) in
    rw (same, good, none_pending) (ground (arith, left))
