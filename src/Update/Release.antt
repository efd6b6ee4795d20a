-- ===== src/Update/Release.antt =====
-- internal/system/update_windows.go, CheckLatestLogiMateFromRepo after the request, and
-- SelectLogiMateUpdateAsset: the release that is offered and the file that is taken.
use Prim.Native.Nat.{Ordering}
use logi_mate.Base.{
  ℕ, Bool, true, false, not, ◌&&◌, ◌||◌, Option, none, some, List, [], ◌∷◌, if◌then◌else◌,
}
use logi_mate.Base.Results.{Result, ok, err}
use logi_mate.Base.Text.{Text, codes, trim_space, is_empty, equal_fold}
use logi_mate.Update.{
  SemVersion, without_v, parse_sem_version, compare_sem_version, is_pinned_alpha_line,
  same_pinned_alpha_line,
}

pub record UpdateAsset : Type 0 where
  pub name : Text
  pub browser_download_url : Text
  pub digest : Text
  pub size : ℕ

-- `published_at` is copied only.
pub record GithubRelease : Type 0 where
  pub tag_name : Text
  pub name : Text
  pub body : Text
  pub draft : Bool
  pub prerelease : Bool
  pub published_at : Text
  pub assets : List UpdateAsset

pub record UpdateInfo : Type 0 where
  pub tag_name : Text
  pub version : Text
  pub name : Text
  pub body : Text
  pub prerelease : Bool
  pub published_at : Text
  pub assets : List UpdateAsset
  pub repository : Text

abbrev pub is_gt : Ordering → Bool
is_gt Ordering.lt = false
is_gt Ordering.eq = false
is_gt Ordering.gt = true

-- `isPinnedAlphaLine(current) && !samePinnedAlphaLine(current, candidate)`
abbrev pub off_line : SemVersion → SemVersion → Bool
off_line current candidate =
    is_pinned_alpha_line current && not (same_pinned_alpha_line current candidate)

-- The tests of the loop, up to the comparison with the best release so far.
unfoldable pub is_eligible : SemVersion → Text → Bool → GithubRelease → Bool
is_eligible current_sem current include_prerelease r =
    if r.draft || is_empty (trim_space r.tag_name)
    then false
    else elim (parse_sem_version r.tag_name) [
      | none ↦ false
      | some candidate ↦
          not (off_line current_sem candidate)
          && not (r.prerelease && not include_prerelease)
          && is_gt (compare_sem_version r.tag_name current)
    ]

abbrev pub info_of : Text → GithubRelease → UpdateInfo
info_of repository r = record {
  tag_name = r.tag_name;
  version = without_v r.tag_name;
  name = r.name;
  body = r.body;
  prerelease = r.prerelease;
  published_at = r.published_at;
  assets = r.assets;
  repository = repository;
}

-- `best == nil || compareSemVersion(info.Version, best.Version) > 0`
unfoldable pub better : UpdateInfo → Option UpdateInfo → UpdateInfo
better info none = info
better info (some best) =
    if is_gt (compare_sem_version info.version best.version) then info else best

module _ (current_sem : SemVersion) (current : Text) (include_prerelease : Bool)
    (repository : Text) where
  unfoldable pub best_of : Option UpdateInfo → List GithubRelease → Option UpdateInfo
  best_of best [] = best
  best_of best (r ∷ rs) =
      best_of
        (if is_eligible current_sem current include_prerelease r
          then some (better (info_of repository r) best)
          else best)
        rs

-- The releases of the repository for the running version; one that is no version gives an error.
unfoldable pub check_latest :
    Text → Bool → Text → List GithubRelease → Result (Unit {0}) (Option UpdateInfo)
unfolding best_of
check_latest current include_prerelease repository releases = elim (parse_sem_version current) [
  | none ↦ err tt
  | some v ↦ ok (best_of v current include_prerelease repository none releases)
]

pub data UpdateTarget : Type 0 where
  update_installed update_portable update_standalone : UpdateTarget

unfoldable pub preferred : UpdateTarget → List Text
preferred update_installed = codes "LogiMate-Setup-x64.exe" ∷ codes "LogiMate.exe" ∷ []
preferred update_portable = codes "LogiMate-Portable-x64.zip" ∷ []
preferred update_standalone = codes "LogiMate.exe" ∷ []

abbrev pub fits : Text → UpdateAsset → Bool
fits name a = equal_fold a.name name && not (is_empty a.browser_download_url)

unfoldable pub named_asset : Text → List UpdateAsset → Option UpdateAsset
unfolding equal_fold
named_asset name [] = none
named_asset name (a ∷ more) =
    let rest = named_asset name more in if fits name a then some a else rest

unfoldable pub first_asset : List Text → List UpdateAsset → Option UpdateAsset
unfolding named_asset
first_asset [] assets = none
first_asset (name ∷ names) assets =
    let rest = first_asset names assets in
    elim (named_asset name assets) [ some a ↦ some a | none ↦ rest ]

unfoldable pub select_logi_mate_update_asset : Option UpdateInfo → UpdateTarget → Option UpdateAsset
unfolding preferred first_asset
select_logi_mate_update_asset none target = none
select_logi_mate_update_asset (some info) target = first_asset (preferred target) info.assets
