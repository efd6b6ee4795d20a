-- ===== src/SharedHid/Handles.antt =====
-- The handles of the reader of internal/system/g27_shared_hid_windows.go: none is lost, none is closed
-- twice, and a writer that borrows one has an open one.
use logi_mate.Base.{
  ℕ, ◌+◌, ◌≤◌, ◌<◌, ◌≡◌, refl, ap, ◌∙◌, subst, ◌⊎◌, inl, inr, true, false, not, ◌&&◌, Option, none,
  some, List, [], ◌∷◌, arith, ltb, ◌==◌, if◌then◌else◌, Bool-cases,
}
use logi_mate.Base.Text.{Text, is_empty}
use logi_mate.SharedHid.State.{SharedReader, JoyState}
use logi_mate.SharedHid.Open.{
  is_handle, to_close, note_g27_open_failure, adopt_g27, with_open_error,
}
use logi_mate.SharedHid.{
  invalidate_g27_shared_output, read_failed_g27, malformed_g27, sampled_g27, close_preferred_input,
  lost_g27, counted, owns, same_path, borrow_g27_shared_output, g27_shared_output_healthy,
}
use logi_mate.SharedHid.Events.{
  count, count-without, System, after, Event, created, adopted, open_failed, invalidated,
  read_failed, malformed, sampled, input_closed, handle_closed, create_handle, adopt_handle,
  close_handle, step, run, initial_system,
}

abbrev pub live : SharedReader → ℕ → ℕ
live s k = if is_handle s.handle && s.handle == k then 1 else 0

-- What is open is the handle of the session, a handle not yet taken, or one about to be closed, and
-- each of them once.
pub record Balanced (y : System) : Type 0 where
  pub balance :
      (k : ℕ) → count k y.open_handles ≡ live y.reader k + count k y.opening + count k y.closing
  pub unique : (k : ℕ) → count k y.open_handles ≤ 1
  pub handles : (k : ℕ) → 0 < count k y.open_handles → is_handle k ≡ true
  pub clean : y.bad_closes ≡ 0
  pub path_kept : is_handle y.reader.handle ≡ not (is_empty y.reader.path)

module _ {y : System} (v : Balanced y) where
  -- An operation that leaves handle and path of the session as they are.
  pub kept_reader :
      (s : SharedReader)
      → s.handle ≡ y.reader.handle
      → s.path ≡ y.reader.path
      → Balanced (record y { reader = s })
  kept_reader s e f = record {
    balance = λ k. rw e (v.balance k);
    unique = v.unique;
    handles = v.handles;
    clean = v.clean;
    path_kept = rw (e, f) v.path_kept;
  }

  -- An operation that ends the session: its handle goes to those that are to be closed.
  pub ended_reader :
      (s : SharedReader)
      → is_handle s.handle ≡ false
      → is_empty s.path ≡ true
      → Balanced (after y (s, to_close y.reader.handle))
  ended_reader s e f = record {
    balance = λ k. ground (arith, v.balance k);
    unique = v.unique;
    handles = v.handles;
    clean = v.clean;
    path_kept = rw (e, f) refl;
  }

create-Balanced : (y : System) (h : ℕ) → Balanced y → Balanced (create_handle y h)
unfolding create_handle
create-Balanced y h v = elim (Bool-cases (is_handle h && count h y.open_handles == 0)) [
  | inl fresh ↦ rw fresh (record {
    balance = λ k. ground (arith, v.balance k);
    unique = λ k. ground (arith, v.unique k);
    handles = λ k. ground (arith, v.handles k);
    clean = v.clean;
    path_kept = v.path_kept;
  })
  | inr old ↦ rw old v
]

adopt-Balanced :
    (y : System) (path : Text) (h now : ℕ) → Balanced y → Balanced (adopt_handle y path h now)
unfolding adopt_handle adopt_g27
adopt-Balanced y path h now v =
    elim (Bool-cases (ltb 0 (count h y.opening) && not (is_empty path))) [
      | inl mine ↦
          let good : is_handle h ≡ true = v.handles h (ground (arith, v.balance h)) in
          rw mine (record {
            balance = λ k. ground (arith, v.balance k, count-without k h y.opening, good);
            unique = v.unique;
            handles = v.handles;
            clean = v.clean;
            path_kept = ground (arith, good);
          })
      | inr other ↦ rw other v
    ]

close-Balanced : (y : System) (h : ℕ) → Balanced y → Balanced (close_handle y h)
unfolding close_handle
close-Balanced y h v = elim (Bool-cases (ltb 0 (count h y.closing))) [
  | inl mine ↦ rw mine (record {
    balance = λ k. ground (
      arith,
      v.balance k,
      v.balance h,
      count-without k h y.closing,
      count-without k h y.open_handles,
    );
    unique = λ k. ground (arith, v.unique k, v.balance h, count-without k h y.open_handles);
    handles = λ k. ground (arith, v.handles k, v.balance h, count-without k h y.open_handles);
    clean = ground (arith, v.clean, v.balance h);
    path_kept = v.path_kept;
  })
  | inr other ↦ rw other v
]

-- The same where the operation names the handle that it ends.
ended_named :
    (y : System) (s : SharedReader) (h : ℕ) (o : Option ℕ)
    → Balanced y
    → y.reader.handle ≡ h
    → to_close h ≡ o
    → is_handle s.handle ≡ false
    → is_empty s.path ≡ true
    → Balanced (after y (s, o))
ended_named y s h o v same closed e f =
    subst (λ p. Balanced (after y (s, p))) (ap to_close same ∙ closed) (ended_reader v s e f)

invalidate-Balanced :
    (y : System) (path : Text) (h generation : ℕ) (cause : Option Text) (now : ℕ)
    → Balanced y
    → Balanced (after y (invalidate_g27_shared_output y.reader path h generation cause now))
unfolding invalidate_g27_shared_output lost_g27
invalidate-Balanced y path h generation cause now v =
    elim (Bool-cases
      (not (generation == 0) && owns y.reader h generation && same_path y.reader path)) [
        | inl mine ↦ rw mine (ended_named y _ h (to_close h) v (ground arith) refl refl refl)
        | inr other ↦ rw other v
      ]

failed-Balanced :
    (y : System) (h generation : ℕ) (error : Text) (now : ℕ)
    → is_handle h ≡ true
    → Balanced y
    → Balanced (after y (read_failed_g27 y.reader h generation error now))
unfolding read_failed_g27 lost_g27
failed-Balanced y h generation error now good v = elim (Bool-cases (owns y.reader h generation)) [
  | inl mine ↦ rw mine (ended_named y _ h (some h) v (ground arith) (rw good) refl refl)
  | inr other ↦ rw other v
]

-- The operations that keep the session.
note_failure_keeps :
    (s : SharedReader) (cause : Option Text) (now : ℕ)
    → ((note_g27_open_failure s cause now).handle ≡ s.handle)
      × ((note_g27_open_failure s cause now).path ≡ s.path)
unfolding note_g27_open_failure with_open_error
note_failure_keeps s none now = (refl, refl)
note_failure_keeps s (some cause) now = (refl, refl)

malformed_keeps :
    (s : SharedReader) (h generation now : ℕ)
    → ((malformed_g27 s h generation now).handle ≡ s.handle)
      × ((malformed_g27 s h generation now).path ≡ s.path)
unfolding malformed_g27
malformed_keeps s h generation now = ground arith

sampled_keeps :
    (s : SharedReader) (path : Text) (h generation : ℕ) (j : JoyState) (raw : List ℕ) (now : ℕ)
    → ((sampled_g27 s path h generation j raw now).handle ≡ s.handle)
      × ((sampled_g27 s path h generation j raw now).path ≡ s.path)
unfolding sampled_g27 counted
sampled_keeps s path h generation j raw now = ground arith

step-Balanced : (y : System) (e : Event) (now : ℕ) → Balanced y → Balanced (step y e now)
unfolding step close_preferred_input
step-Balanced y (created h) now v = create-Balanced y h v
step-Balanced y (adopted path h) now v = adopt-Balanced y path h now v
step-Balanced y (open_failed cause) now v =
    let (h, p) = note_failure_keeps y.reader cause now in kept_reader v _ h p
step-Balanced y (invalidated path h generation cause) now v =
    invalidate-Balanced y path h generation cause now v
step-Balanced y (read_failed h generation error) now v = elim (Bool-cases (is_handle h)) [
  | inl good ↦ rw good (failed-Balanced y h generation error now good v)
  | inr bad ↦ rw bad v
]
step-Balanced y (malformed h generation) now v =
    let (a, b) = malformed_keeps y.reader h generation now in kept_reader v _ a b
step-Balanced y (sampled path h generation j raw) now v =
    let (a, b) = sampled_keeps y.reader path h generation j raw now in kept_reader v _ a b
step-Balanced y input_closed now v = ended_reader v _ refl refl
step-Balanced y (handle_closed h) now v = close-Balanced y h v

run-Balanced : (y : System) (events : List (Event × ℕ)) → Balanced y → Balanced (run y events)
unfolding run
run-Balanced y [] v = v
run-Balanced y ((e, now) ∷ rest) v = run-Balanced (step y e now) rest (step-Balanced y e now v)

initial-Balanced : Balanced initial_system
initial-Balanced = record {
  balance = λ k. ground arith;
  unique = λ k. omega arith;
  handles = λ k h. absurd (omega arith);
  clean = refl;
  path_kept = refl;
}

-- After any interleaving of the operations of the G27 reader, an open handle is the one of the session,
-- one that no lock has taken yet, or one whose close is pending, and is that once; no close was of a
-- handle that is not open, and the session has a handle exactly if it has a path.
pub run-initial-Balanced : (events : List (Event × ℕ)) → Balanced (run initial_system events)
run-initial-Balanced events = run-Balanced initial_system events initial-Balanced

-- A handle that a writer was just lent, or that passes its health test.
abbrev pub Lent : SharedReader → Text → ℕ → ℕ → Type 0
Lent s path h generation =
    (borrow_g27_shared_output s path ≡ some (h, generation))
    ⊎ (g27_shared_output_healthy s path h generation ≡ true)

Lent-is_handle :
    (s : SharedReader) (path : Text) (h generation : ℕ)
    → Lent s path h generation
    → (is_handle s.handle ≡ true) × (s.handle ≡ h)
unfolding borrow_g27_shared_output g27_shared_output_healthy
Lent-is_handle s path h generation (inl lent) = ground arith
Lent-is_handle s path h generation (inr healthy) = ground arith

-- After any interleaving, a handle that a writer is lent, or that passes its health test, is open
-- exactly once, and is neither a new one that no lock has taken nor one about to be closed.
pub Lent-IsOpen :
    (events : List (Event × ℕ)) (path : Text) (h generation : ℕ)
    → Lent (run initial_system events).reader path h generation
    → (count h (run initial_system events).open_handles ≡ 1)
      × (count h (run initial_system events).opening ≡ 0)
      × (count h (run initial_system events).closing ≡ 0)
Lent-IsOpen events path h generation lent =
    let (good, same) = Lent-is_handle (run initial_system events).reader path h generation lent in
    let v = run-initial-Balanced events in ground (arith, v.balance h, v.unique h)
