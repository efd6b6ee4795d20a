-- ===== src/Manager/Updates.antt =====
-- internal/wheelengine/manager.go, UpdateInput and UpdateOutput: who may change a runtime.
use logi_mate.Base.{
  ℕ, suc, ◌≤◌, ◌<◌, ◌≡◌, ◌⊎◌, Bool, true, false, none, some, if◌then◌else◌, Bool-cases,
  Option-cases, inl, inr, arith,
}
use logi_mate.Base.Text.{Text, text_eq, is_empty, equal_fold}
use logi_mate.Base.Maps.{lookup, lookup-insert}
use logi_mate.Manager.State.{InputState, OutputState, Runtime}
use logi_mate.Manager.{
  Manager, key, runtime_at-known, accepts_input, accepts_output, with_input, with_output,
  update_input, update_output,
}

-- An accepted sample belongs to the session of a known wheel, and its generation is 0 or not
-- below that of the last sample; it becomes the wheel's input, and every other key keeps its
-- runtime.
pub record Accepted (m : Manager) (s : InputState) (now : ℕ) (m' : Manager) (r : Runtime)
    : Type 0 where
  pub known : lookup (key s.wheel_id) m.devices ≡ some r
  pub named : is_empty (key s.wheel_id) ≡ false
  pub same_session : equal_fold r.device.session_id s.session_id ≡ true
  pub not_older : (s.sample_generation ≡ 0) ⊎ (r.input.sample_generation ≤ s.sample_generation)
  pub stored :
      (k : Text)
      → lookup k m'.devices
        ≡ (if text_eq (key s.wheel_id) k then some (with_input r s now) else lookup k m.devices)
  pub counted : m'.generation ≡ suc m.generation

-- A rejected sample comes from no known wheel and session, or is older than the last one.
abbrev pub Refused : Manager → InputState → Type 0
Refused m s =
    (lookup (key s.wheel_id) m.devices ≡ none)
    ⊎ ((r : Runtime) × (lookup (key s.wheel_id) m.devices ≡ some r)
        × ((is_empty (key s.wheel_id) ≡ true)
            ⊎ (equal_fold r.device.session_id s.session_id ≡ false)
            ⊎ ((0 < s.sample_generation) × (s.sample_generation < r.input.sample_generation))))

module _ (m : Manager) (s : InputState) (now : ℕ) where
  update_input-Accepted :
      (r : Runtime)
      → lookup (key s.wheel_id) m.devices ≡ some r
      → accepts_input s (key s.wheel_id) (some r) ≡ true
      → Accepted m s now (update_input m s now).0 r × ((update_input m s now).1 ≡ true)
  unfolding update_input accepts_input
  update_input-Accepted r e ok = (
    record {
      known = e;
      named = ground arith;
      same_session = ground arith;
      not_older = ground arith;
      stored = λ k.
          rw (e, ok, runtime_at-known (key s.wheel_id) m.devices e)
            (lookup-insert (key s.wheel_id) k (with_input r s now) m.devices);
      counted = rw (e, ok);
    },
    rw (e, ok),
  )

  update_input-Refused :
      (r : Runtime)
      → lookup (key s.wheel_id) m.devices ≡ some r
      → accepts_input s (key s.wheel_id) (some r) ≡ false
      → Refused m s × ((update_input m s now) ≡ (m, false))
  unfolding update_input accepts_input
  update_input-Refused r e bad = (inr (r, e, ground arith), rw (e, bad))

  -- A sample is accepted or refused. If accepted, it belongs to the session of a known wheel and is
  -- not older than its last sample or has the generation 0, and only that wheel changes; if refused,
  -- the wheel or session is unknown or the sample is older, and nothing changes.
  pub update_input_cases :
      ((r : Runtime) × Accepted m s now (update_input m s now).0 r
        × ((update_input m s now).1 ≡ true))
      ⊎ (Refused m s × (update_input m s now ≡ (m, false)))
  update_input_cases = elim (Option-cases (lookup (key s.wheel_id) m.devices)) [
    | inl e ↦ inr (inl e, unknown_wheel e)
    | inr (r, e) ↦ elim (Bool-cases (accepts_input s (key s.wheel_id) (some r))) [
      | inl good ↦ let (a, b) = update_input-Accepted r e good in inl (r, a, b)
      | inr bad ↦ inr (update_input-Refused r e bad)
    ]
  ]
    where
      unknown_wheel : lookup (key s.wheel_id) m.devices ≡ none → update_input m s now ≡ (m, false)
      unknown_wheel e = unfold update_input accepts_input in rw e

-- An output update reaches the wheel exactly in its session; then the wheel holds that output, is
-- blocked when recovery is pending or a held lease reports an error, keeps its input, and every
-- other key keeps its runtime.
pub update_output_accepted :
    (m : Manager) (wheel_id session_id : Text) (s : OutputState) (recovery : Bool) (now : ℕ)
    (k : Text) {r : Runtime}
    → is_empty (key wheel_id) ≡ false
    → lookup (key wheel_id) m.devices ≡ some r
    → equal_fold r.device.session_id session_id ≡ true
    → let (m', accepted) = update_output m wheel_id session_id s recovery now in
      (accepted ≡ true)
      × (m'.generation ≡ suc m.generation)
      × (lookup k m'.devices ≡ (
          if text_eq (key wheel_id) k
          then some (with_output r s recovery now)
          else lookup k m.devices))
unfolding update_output accepts_output
update_output_accepted m wheel_id session_id s recovery now k {r} named e same = (
  rw (e, named, same),
  rw (e, named, same),
  rw (e, named, same, runtime_at-known (key wheel_id) m.devices e)
      (lookup-insert (key wheel_id) k (with_output r s recovery now) m.devices),
)
