-- ===== src/Discovery/Paths.antt =====
-- internal/system/g27_shared_hid_windows.go and native_windows.go: the HID paths of a product id, the one
-- with the largest output report first. `meta` is what Windows says of a path.
use logi_mate.Base.{ℕ, Bool, not, ◌&&◌, ◌||◌, List, [], ◌∷◌, map, ltb, ◌==◌, if◌then◌else◌}
use logi_mate.Base.Text.{Text, text_eq, text_lt, is_empty, to_lower}
use logi_mate.Discovery.{device_pid, distinct}

-- hidInterfaceMetadata, its fields that the order reads.
pub record HidInterfaceMetadata : Type 0 where
  pub path : Text
  pub usage_page : ℕ
  pub usage : ℕ
  pub input_report_length : ℕ
  pub output_report_length : ℕ

abbrev is_game : HidInterfaceMetadata → Bool
is_game m = m.usage_page == 1 && (m.usage == 4 || m.usage == 5)

unfoldable pub hid_path_preference_less : HidInterfaceMetadata → HidInterfaceMetadata → Bool
unfolding text_lt
hid_path_preference_less a b =
    if not (a.output_report_length == b.output_report_length)
    then ltb b.output_report_length a.output_report_length
    else if not (a.input_report_length == b.input_report_length)
    then ltb b.input_report_length a.input_report_length
    else if is_game a && not (is_game b) || is_game b && not (is_game a)
    then is_game a
    else text_lt (to_lower a.path) (to_lower b.path)

-- A stable sort: each path goes behind those that it does not come before.
unfoldable pub place : HidInterfaceMetadata → List HidInterfaceMetadata → List HidInterfaceMetadata
unfolding hid_path_preference_less
place m [] = m ∷ []
place m (x ∷ xs) =
    let later = place m xs in if hid_path_preference_less m x then m ∷ x ∷ xs else x ∷ later

unfoldable pub ranked :
    List HidInterfaceMetadata → List HidInterfaceMetadata → List HidInterfaceMetadata
unfolding place
ranked done [] = done
ranked done (m ∷ ms) = ranked (place m done) ms

module _ (meta : Text → HidInterfaceMetadata) where
  abbrev pub named : Text → HidInterfaceMetadata
  named p = let m = meta p in if is_empty m.path then record m { path = p } else m

  unfoldable pub rank_hid_paths_open_g27_style : List Text → Text → List Text
  unfolding distinct ranked
  rank_hid_paths_open_g27_style paths pid =
      let kept = distinct (λ p. is_empty pid || text_eq (device_pid p) pid) [] paths in
      map (λ (m : HidInterfaceMetadata). m.path) (ranked [] (map named kept))

  unfoldable pub raw_paths_for_pid : List Text → Text → List Text
  unfolding distinct rank_hid_paths_open_g27_style
  raw_paths_for_pid paths pid =
      rank_hid_paths_open_g27_style (distinct (λ p. text_eq (device_pid p) pid) [] paths) pid
