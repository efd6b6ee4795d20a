-- ===== src/Discovery/Listed.antt =====
-- internal/system/g27_shared_hid_windows.go and native_windows.go: where a path that output may take comes
-- from.
use logi_mate.Base.{
  Among, ◌≡◌, refl, ◌∙◌, sym, ap, subst, ◌⊎◌, inl, inr, Bool, true, not, ◌||◌, Bool-cases, List, [],
  ◌∷◌, List-cases, map,
}
use logi_mate.Base.Text.{Text, text_eq, text_eq→≡, is_empty, to_lower, trim_space}
use logi_mate.Discovery.{
  WheelDevice, State, device_pid, member, distinct, of_wheel, raw_paths_for_wheel,
}
use logi_mate.Discovery.Paths.{
  HidInterfaceMetadata, hid_path_preference_less, named, place, ranked,
  rank_hid_paths_open_g27_style, raw_paths_for_pid,
}
use logi_mate.Discovery.Target.{output_paths}

distinct-Among :
    (fits : Text → Bool) (seen paths : List Text) (p : Text)
    → Among p (distinct fits seen paths)
    → Among p paths × (fits p ≡ true)
unfolding distinct
distinct-Among fits seen [] p h = elim h [ ]
distinct-Among fits seen (q ∷ qs) p h =
    let k = to_lower (trim_space q) in
    let new = not (is_empty k || member k seen) in
    elim (Bool-cases (fits q)) [
      | inr out ↦ let (at, good) = distinct-Among fits seen qs p (rw out at h) in (inr at, good)
      | inl good ↦ elim (Bool-cases new) [
        | inr old ↦
            let (at, fit) = distinct-Among fits seen qs p (rw (good, old) at h) in (inr at, fit)
        | inl fresh ↦ elim (rw (good, fresh) at h) [
          | inl same ↦ (inl same, ap fits same ∙ good)
          | inr later ↦ let (at, fit) = distinct-Among fits (k ∷ seen) qs p later in (inr at, fit)
        ]
      ]
    ]

module _ (meta : Text → HidInterfaceMetadata) where
  placed-Among :
      (m x : HidInterfaceMetadata) (xs : List HidInterfaceMetadata)
      → Among m (place x xs)
      → (m ≡ x) ⊎ Among m xs
  unfolding place
  placed-Among m x [] h = elim h [ inl e ↦ inl e | inr out ↦ elim out [ ] ]
  placed-Among m x (y ∷ ys) h = elim (Bool-cases (hid_path_preference_less x y)) [
    | inl before ↦ rw before at h
    | inr behind ↦ elim (rw behind at h) [
      | inl e ↦ inr (inl e)
      | inr later ↦ elim (placed-Among m x ys later) [ inl e ↦ inl e | inr at ↦ inr (inr at) ]
    ]
  ]

  ranked-Among :
      (m : HidInterfaceMetadata) (done ms : List HidInterfaceMetadata)
      → Among m (ranked done ms)
      → Among m done ⊎ Among m ms
  unfolding ranked
  ranked-Among m done [] h = inl h
  ranked-Among m done (x ∷ xs) h = elim (ranked-Among m (place x done) xs h) [
    | inr at ↦ inr (inr at)
    | inl placed ↦ elim (placed-Among m x done placed) [ inl e ↦ inr (inl e) | inr at ↦ inl at ]
  ]

  path_of-Among :
      (p : Text) (ms : List HidInterfaceMetadata)
      → Among p (map (λ (m : HidInterfaceMetadata). m.path) ms)
      → (m : HidInterfaceMetadata) × Among m ms × (p ≡ m.path)
  path_of-Among p [] h = elim h [ ]
  path_of-Among p (x ∷ xs) h = elim h [
    | inl e ↦ (x, inl refl, e)
    | inr later ↦ let (m, at, e) = path_of-Among p xs later in (m, inr at, e)
  ]

  named-Among :
      (m : HidInterfaceMetadata) (ps : List Text)
      → Among m (map (named meta) ps)
      → (p : Text) × Among p ps × (m ≡ named meta p)
  named-Among m [] h = elim h [ ]
  named-Among m (q ∷ qs) h = elim h [
    | inl e ↦ (q, inl refl, e)
    | inr later ↦ let (p, at, e) = named-Among m qs later in (p, inr at, e)
  ]

  -- The name that Windows gives to a path of this product id.
  abbrev pub NamedPath : List Text → Text → Text → Type 0
  NamedPath devices pid path =
      (p : Text) × Among p devices × (device_pid p ≡ pid) × (path ≡ (named meta p).path)

  by_pid-NamedPath :
      (devices : List Text) (pid path : Text)
      → Among path (raw_paths_for_pid meta devices pid)
      → NamedPath devices pid path
  unfolding raw_paths_for_pid rank_hid_paths_open_g27_style
  by_pid-NamedPath devices pid path h =
      let of_pid = λ (p : Text). text_eq (device_pid p) pid in
      let kept = distinct of_pid [] devices in
      let again = λ (p : Text). is_empty pid || text_eq (device_pid p) pid in
      let (m, at_m, e) =
        path_of-Among path (ranked [] (map (named meta) (distinct again [] kept))) h in
      elim (ranked-Among m [] (map (named meta) (distinct again [] kept)) at_m) [
        | inl out ↦ elim out [ ]
        | inr at ↦
            let (p, at_p, e') = named-Among m (distinct again [] kept) at in
            let (at_first, fits) = distinct-Among again [] kept p at_p in
            let (at_device, good) = distinct-Among of_pid [] devices p at_first in
            (
              p,
              at_device,
              text_eq→≡ (device_pid p) pid good,
              e ∙ ap (λ (m' : HidInterfaceMetadata). m'.path) e',
            )
      ]

  -- A listed path of this product id whose device is an interface of the wheel; or, if the wheel has
  -- none, the name of a listed path of this product id.
  abbrev pub OutputPath : State → WheelDevice → Text → Text → Type 0
  OutputPath s w pid path =
      (Among path s.raw_input_devices × (of_wheel w pid path ≡ true))
      ⊎ ((raw_paths_for_wheel w s.raw_input_devices pid ≡ [])
          × NamedPath s.raw_input_devices pid path)

  pub output_paths-OutputPath :
      (s : State) (w : WheelDevice) (pid path : Text)
      → Among path (output_paths meta s w pid)
      → OutputPath s w pid path
  unfolding output_paths raw_paths_for_wheel
  output_paths-OutputPath s w pid path h =
      elim (List-cases (raw_paths_for_wheel w s.raw_input_devices pid)) [
        | inl none_own ↦ inr (
          none_own,
          by_pid-NamedPath s.raw_input_devices pid path (rw (none_own, output_paths) at h),
        )
        | inr (p, ps, own) ↦ inl (
            distinct-Among (of_wheel w pid) [] s.raw_input_devices path
              (subst (Among path) (sym own) (rw (own, output_paths) at h)))
      ]
