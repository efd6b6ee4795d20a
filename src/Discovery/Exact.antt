-- ===== src/Discovery/Exact.antt =====
-- internal/system/native_output_windows.go: what holds of the wheel and the path that output is granted.
use logi_mate.Base.{
  some_injective, ◌≡◌, refl, ap, subst, ◌⊎◌, inl, inr, Bool, true, false, not, ◌&&◌, ◌||◌,
  Bool-cases, some, Option-cases, List, [], ◌∷◌, length, arith, ◌==◌, if◌then◌else◌,
}
use logi_mate.Base.Results.{Result, ok, err, ok_injective}
use logi_mate.Base.Text.{Text, is_empty, equal_fold}
use logi_mate.Model.{parse_operating_mode}
use logi_mate.Output.State.{OutputError, bad_target}
use logi_mate.Discovery.{
  WheelDevice, State, find_wheel, selected_wheel, wheel_model_kind, wheel_mode_kind, is_native,
  has_actionable_selected_wheel, native_pid,
}
use logi_mate.Discovery.Paths.{HidInterfaceMetadata}
use logi_mate.Discovery.Target.{
  is_modern, only_path, with_path, output_paths, path_target, wheel_target,
  validate_native_output_target,
}
use logi_mate.Discovery.Listed.{OutputPath, output_paths-OutputPath}

-- An error does not come from a branch that was not taken.
pub not_refused :
    {A : Type 0} (b : Bool) (e : OutputError) (r : Result OutputError A) (a : A)
    → (if b then err e else r) ≡ ok a
    → (b ≡ false) × (r ≡ ok a)
not_refused true e r a h = absurd (cc h)
not_refused false e r a h = (refl, h)

module _ (meta : Text → HidInterfaceMetadata) where
  -- The wheel is the only one, it is selected, supported, confirmed and verified, its model has native
  -- output and its mode is the modern one; the path is the only candidate.
  pub record Granted (s : State) (w : WheelDevice) (path : Text) : Type 0 where
    pub only : s.wheels ≡ w ∷ []
    pub selected : equal_fold w.id s.selected_wheel_id ≡ true
    pub trusted : (w.supported && (w.model_confirmed && w.pnp_verified)) ≡ true
    pub native : is_native (wheel_model_kind w) ≡ true
    pub mode :
        (is_modern (wheel_mode_kind w) ≡ true)
        ⊎ (is_modern (parse_operating_mode s.active_mode) ≡ true)
    pub pid : Text
    pub of_model : native_pid (wheel_model_kind w) ≡ some pid
    pub alone : output_paths meta s w pid ≡ path ∷ []
    pub fits : OutputPath meta s w pid path

  one_wheel :
      (ws : List WheelDevice) (id : Text) (w : WheelDevice)
      → length ws ≡ 1
      → find_wheel id ws ≡ some w
      → (ws ≡ w ∷ []) × (equal_fold w.id id ≡ true)
  unfolding find_wheel
  one_wheel [] id w one found = absurd (omega arith)
  one_wheel (v ∷ u ∷ ws) id w one found = absurd (omega arith)
  one_wheel (v ∷ []) id w one found = elim (Bool-cases (not (is_empty id) && equal_fold v.id id)) [
    | inr other ↦ absurd (cc (rw other at found))
    | inl mine ↦
        let same : v ≡ w = some_injective (rw mine at found) in
        (
          ap (λ (x : WheelDevice). x ∷ []) same,
          subst (λ (x : WheelDevice). equal_fold x.id id ≡ true) same (ground (arith, mine)),
        )
  ]

  only_of :
      (ps : List Text) (w v : WheelDevice) (path : Text)
      → with_path v (only_path bad_target ps) ≡ ok (w, path)
      → (v ≡ w) × (ps ≡ path ∷ [])
  only_of [] w v path h = absurd (cc h)
  only_of (p ∷ q ∷ ps) w v path h = absurd (cc h)
  only_of (p ∷ []) w v path h =
      let same = ok_injective h in (ap (λ r. r.0) same, ap (λ r. r.1 ∷ []) same)

  abbrev wrong_mode : State → WheelDevice → Bool
  wrong_mode s w =
      not (is_modern (wheel_mode_kind w)) && not (is_modern (parse_operating_mode s.active_mode))

  allowed_for :
      (s : State) (w : WheelDevice) (path pid : Text)
      → length s.wheels ≡ 1
      → selected_wheel s ≡ some w
      → (w.supported && (w.model_confirmed && (w.pnp_verified && is_native (wheel_model_kind w))))
        ≡ true
      → wrong_mode s w ≡ false
      → native_pid (wheel_model_kind w) ≡ some pid
      → output_paths meta s w pid ≡ path ∷ []
      → Granted s w path
  allowed_for s w path pid one found known mode has alone =
      let (only, mine) = one_wheel s.wheels s.selected_wheel_id w one found in
      record {
        only = only;
        selected = mine;
        trusted = ground (arith, known);
        native = ground (arith, known);
        mode = ground (arith, mode);
        pid = pid;
        of_model = has;
        alone = alone;
        fits = output_paths-OutputPath meta s w pid path (rw alone (inl refl));
      }

  allowed_of :
      (s : State) (w : WheelDevice) (path : Text)
      → length s.wheels ≡ 1
      → has_actionable_selected_wheel s ≡ true
      → wheel_target meta s (selected_wheel s) ≡ ok (w, path)
      → Granted s w path
  unfolding has_actionable_selected_wheel
  allowed_of s w path one act target = elim (Option-cases (selected_wheel s)) [
    | inl missing ↦ absurd (cc (rw missing at target))
    | inr (v, found) ↦
        let rest = path_target meta s v (native_pid (wheel_model_kind v)) in
        let (trust, later) =
          not_refused (not v.model_confirmed || not v.pnp_verified) bad_target
            (if wrong_mode s v then err bad_target else rest) (w, path) (rw found at target) in
        let (mode, of_pid) = not_refused (wrong_mode s v) bad_target rest (w, path) later in
        elim (Option-cases (native_pid (wheel_model_kind v))) [
          | inl no_pid ↦ absurd (cc (rw no_pid at of_pid))
          | inr (pid, has) ↦
              let (same, alone) = only_of (output_paths meta s v pid) w v path (rw has at of_pid) in
              subst (λ (u : WheelDevice). Granted s u path) same
                (allowed_for s v path pid one found
                  (rw (found, has_actionable_selected_wheel) at act) mode has alone)
        ]
  ]

-- If output is granted for a wheel and a path, the wheel is the only one of the state, the selected one,
-- supported, confirmed and verified, of a model with native output, and it or the state is in the modern
-- mode; the path is the only candidate for the product id of its model: it is listed and of an interface of
-- the wheel, or, if no listed path is, it is the name of a listed one of that product id.
pub validate_native_output_target-Granted :
    (meta : Text → HidInterfaceMetadata) (s : State) (w : WheelDevice) (path : Text)
    → validate_native_output_target meta s ≡ ok (w, path)
    → Granted meta s w path
unfolding validate_native_output_target
validate_native_output_target-Granted meta s w path h =
    let (one, rest) = not_refused (not (length s.wheels == 1)) bad_target _ (w, path) h in
    let (act, target) =
      not_refused (not (has_actionable_selected_wheel s)) bad_target _ (w, path) rest in
    allowed_of meta s w path (ground (arith, one)) (ground (arith, act)) target
