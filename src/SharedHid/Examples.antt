-- ===== src/SharedHid/Examples.antt =====
-- Runs of the shared readers: an open, a lost session and a new one.
use logi_mate.Base.{ℕ, ◌+◌, ◌≡◌, refl, ◌≤◌, not, ◌&&◌, leb, inl, none, List, [], ◌∷◌, arith}
use logi_mate.Base.Text.{
  Text, codes, is_empty, equal_fold, text_eq, lower, trim_space, trim_left, is_space,
}
use logi_mate.SharedHid.Open.{is_handle, retry_delay, note_g27_open_failure, opens_g27, adopt_g27}
use logi_mate.SharedHid.{initial_reader, borrow_g27_shared_output, lost_g27, read_failed_g27}
use logi_mate.SharedHid.Classic.{pedal_axis}
use logi_mate.SharedHid.Decode.{default_pedal, normalize_native_pedal, norm01_to_axis}
use logi_mate.SharedHid.Pedals.{g27_pedal-classic}
use logi_mate.SharedHid.Events.{
  System, Event, created, adopted, read_failed, handle_closed, count, run, step, initial_system,
  create_handle, adopt_handle, close_handle, without,
}
use logi_mate.SharedHid.Handles.{Balanced, run-initial-Balanced, Lent-IsOpen}
use logi_mate.SharedHid.Doubled.{closed_then_failed, classic_handle_closed_twice}
use logi_mate.SharedHid.Backoff.{failed_open_waits}

abbrev wheel : Text
wheel = codes "hid#c29b"

-- The session of handle 7 fails while a second open runs; its handle is closed last.
abbrev replaced : List (Event × ℕ)
replaced =
    (created 7, 1)
    ∷ (adopted wheel 7, 2)
    ∷ (created 9, 3)
    ∷ (read_failed 7 1 (codes "gone"), 4)
    ∷ (adopted wheel 9, 5)
    ∷ (handle_closed 7, 6)
    ∷ []

replaced_handles : (run initial_system replaced).open_handles ≡ 9 ∷ []
unfolding run step create_handle adopt_handle close_handle without adopt_g27 read_failed_g27
replaced_handles = refl

run-initial-Balanced_example : Balanced (run initial_system replaced)
run-initial-Balanced_example = run-initial-Balanced replaced

Lent-IsOpen_example :
    (count 9 (run initial_system replaced).open_handles ≡ 1)
    × (count 9 (run initial_system replaced).opening ≡ 0)
    × (count 9 (run initial_system replaced).closing ≡ 0)
unfolding run step create_handle adopt_handle close_handle without adopt_g27 read_failed_g27
    lost_g27 borrow_g27_shared_output equal_fold text_eq lower trim_space trim_left is_space
Lent-IsOpen_example = Lent-IsOpen replaced wheel 9 3 (inl refl)

abbrev classic_open : System
classic_open = record initial_system {
  reader = record initial_reader { handle = 5; generation = 1; path = wheel };
  open_handles = 5 ∷ [];
}

classic_handle_closed_twice_example :
    (closed_then_failed classic_open 5 1 (codes "gone") 3).bad_closes ≡ 1
classic_handle_closed_twice_example =
    classic_handle_closed_twice classic_open 5 1 (codes "gone") 3 refl refl refl refl

failed_open_waits_example :
    (opens_g27 (note_g27_open_failure initial_reader none 100) wheel 200 ≡ (
      not (is_empty wheel)
      && not (equal_fold [] wheel && is_handle initial_reader.handle)
      && leb (100 + retry_delay 1) 200))
    × (250000000 ≤ retry_delay 1)
    × (retry_delay 1 ≤ 4000000000)
failed_open_waits_example = failed_open_waits initial_reader none 100 200 wheel

g27_pedal-classic_example :
    norm01_to_axis (normalize_native_pedal (λ t s. t) 55 default_pedal) ≡ pedal_axis 55
g27_pedal-classic_example = g27_pedal-classic (λ t s. t) 55 (omega arith)
