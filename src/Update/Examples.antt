-- ===== src/Update/Examples.antt =====
-- Versions and a release at concrete values.
use Prim.Native.Nat.{Ordering}
use logi_mate.Base.{Among, ◌≡◌, inl, refl, true, false, none, [], ◌∷◌}
use logi_mate.Base.Text.{
  codes, text_eq, text_lt, has_prefix, trim_space, trim_left, is_space, lower,
}
use logi_mate.Update.{
  SemVersion, parse_sem_version, compare_sem_version, compare_both, compare_parsed,
  compare_prerelease, compare_fields, by_field, rank, atoi, unsigned, digits_value, pieces, before,
  behind, without_v, version_of, version_part, is_pinned_alpha_line, same_pinned_alpha_line,
}
use logi_mate.Update.Release.{
  GithubRelease, info_of, check_latest, best_of, is_eligible, better, UpdateAsset,
}
use logi_mate.Update.Eligible.{Offerable}
use logi_mate.Update.Choice.{check_latest-Offerable, check_latest-none}
use logi_mate.Update.Download.{
  Files, Answers, Outcome, download_logi_mate_update, download-Verified,
}

-- Numeric fields go by value and mixed ones by text, so three prereleases can stand in a circle.
circle :
    (compare_sem_version (codes "1.0.0-2") (codes "1.0.0-10") ≡ Ordering.lt)
    × (compare_sem_version (codes "1.0.0-10") (codes "1.0.0-1a") ≡ Ordering.lt)
    × (compare_sem_version (codes "1.0.0-1a") (codes "1.0.0-2") ≡ Ordering.lt)
unfolding compare_sem_version compare_both compare_parsed compare_prerelease compare_fields by_field
    rank atoi unsigned digits_value pieces before behind without_v version_of version_part text_eq
    text_lt has_prefix trim_space trim_left is_space lower parse_sem_version
circle = (refl, refl, refl)

abbrev old_version : SemVersion
old_version = record { major = 0; minor = 1; patch = 9; pre = [] }

abbrev new_version : SemVersion
new_version = record { major = 0; minor = 2; patch = 0; pre = [] }

abbrev release_02 : GithubRelease
release_02 = record {
  tag_name = codes "v0.2.0";
  name = [];
  body = [];
  draft = false;
  prerelease = false;
  published_at = [];
  assets = [];
}

check_latest-Offerable_example :
    (r : GithubRelease) × Among r (release_02 ∷ [])
    × (info_of [] release_02 ≡ info_of [] r)
    × Offerable (codes "0.1.9") false r
unfolding check_latest best_of is_eligible better compare_sem_version compare_both compare_parsed
    parse_sem_version atoi unsigned digits_value pieces before behind without_v version_of
    version_part text_eq trim_space trim_left is_space is_pinned_alpha_line same_pinned_alpha_line
    has_prefix
check_latest-Offerable_example =
    check_latest-Offerable (codes "0.1.9") false [] (release_02 ∷ []) (info_of [] release_02) refl

check_latest-none_example : ¬ Offerable (codes "0.3.0") false release_02
unfolding check_latest best_of is_eligible better compare_sem_version compare_both compare_parsed
    parse_sem_version atoi unsigned digits_value pieces before behind without_v version_of
    version_part text_eq trim_space trim_left is_space is_pinned_alpha_line same_pinned_alpha_line
    has_prefix
check_latest-none_example =
    check_latest-none (codes "0.3.0") false [] (release_02 ∷ []) release_02 refl (inl refl)

abbrev setup_exe : UpdateAsset
setup_exe = record {
  name = codes "LogiMate.exe";
  browser_download_url = codes "https://github.com/x";
  digest = codes "sha256:ab";
  size = 2;
}

abbrev good_answers : Answers
good_answers = record {
  directory_made = true;
  responded = true;
  status = 200;
  file_created = true;
  written = 1 ∷ 2 ∷ [];
  copied = true;
  closed = true;
  published = [];
  sum_read = true;
  renamed = true;
}

abbrev no_files : Files
no_files = record { final = none; partial = none }

download-Verified_example :
    Outcome
      (λ content. codes "AB")
      no_files
      setup_exe
      true
      good_answers
      (download_logi_mate_update (λ content. codes "AB") no_files setup_exe true good_answers)
download-Verified_example =
    download-Verified (λ content. codes "AB") no_files setup_exe true good_answers
