-- ===== src/Update/Eligible.antt =====
-- internal/system/update_windows.go: which release may be offered.
use Prim.Native.Nat.{Ordering}
use logi_mate.Base.{
  some_injective, ◌≡◌, ◌⊎◌, refl, sym, ap, subst, ◌∙◌, Bool, true, false, not, ◌&&◌, ◌||◌, some,
  arith, if◌then◌else◌, Option-cases, inl, inr,
}
use logi_mate.Base.Text.{Text, trim_space, is_empty}
use logi_mate.Update.{
  SemVersion, parse_sem_version, compare_sem_version, is_pinned_alpha_line, same_pinned_alpha_line,
}
use logi_mate.Update.Order.{turned, compare_sem_version-turned}
use logi_mate.Update.Release.{GithubRelease, is_gt, off_line, is_eligible}

-- A release that may be offered for a version: no draft, a version of the same pinned line, newer, and no
-- prerelease that is not asked for.
abbrev pub Offerable : Text → Bool → GithubRelease → Type 0
Offerable current include_prerelease r =
    (v : SemVersion) × (w : SemVersion) × (parse_sem_version current ≡ some v)
    × (parse_sem_version r.tag_name ≡ some w)
    × (r.draft ≡ false)
    × ((r.prerelease ≡ false) ⊎ (include_prerelease ≡ true))
    × ((is_pinned_alpha_line v ≡ false) ⊎ (is_pinned_alpha_line w ≡ true))
    × (compare_sem_version r.tag_name current ≡ Ordering.gt)
    × (compare_sem_version current r.tag_name ≡ Ordering.lt)

gt_of : (o : Ordering) → is_gt o ≡ true → o ≡ Ordering.gt
gt_of Ordering.lt h = cc
gt_of Ordering.eq h = cc
gt_of Ordering.gt h = refl

either : (a b : Bool) → (a && not b) ≡ false → (a ≡ false) ⊎ (b ≡ true)
either true true h = inr refl
either true false h = cc
either false b h = inl refl

on_line :
    (v w : SemVersion)
    → off_line v w ≡ false
    → (is_pinned_alpha_line v ≡ false) ⊎ (is_pinned_alpha_line w ≡ true)
unfolding same_pinned_alpha_line
on_line v w h = either (is_pinned_alpha_line v) (is_pinned_alpha_line w) (ground arith)

-- The tests of the loop on one release, for a tag that is a version.
tests_passed :
    (draft blank line asked newer : Bool)
    → (if draft || blank then false else not line && not asked && newer) ≡ true
    → (draft ≡ false) × (asked ≡ false) × (line ≡ false) × (newer ≡ true)
tests_passed false false false false true h = (refl, refl, refl, refl)
tests_passed true blank line asked newer h = cc
tests_passed false true line asked newer h = cc
tests_passed false false true asked newer h = cc
tests_passed false false false true newer h = cc
tests_passed false false false false false h = cc

passed :
    (current : Text) (v w : SemVersion) (incl : Bool) (r : GithubRelease)
    → parse_sem_version r.tag_name ≡ some w
    → is_eligible v current incl r ≡ true
    → (r.draft ≡ false)
      × ((r.prerelease && not incl) ≡ false)
      × (off_line v w ≡ false)
      × (is_gt (compare_sem_version r.tag_name current) ≡ true)
unfolding is_eligible
passed current v w incl r version h =
    tests_passed r.draft (is_empty (trim_space r.tag_name)) (off_line v w)
      (r.prerelease && not incl) (is_gt (compare_sem_version r.tag_name current))
      (rw (version, is_eligible) at h)

never : (b : Bool) → (if b then false else false) ≡ true → ⊥
never true h = cc
never false h = cc

has_version :
    (current : Text) (v : SemVersion) (incl : Bool) (r : GithubRelease)
    → is_eligible v current incl r ≡ true
    → (w : SemVersion) × (parse_sem_version r.tag_name ≡ some w)
unfolding is_eligible
has_version current v incl r h = elim (Option-cases (parse_sem_version r.tag_name)) [
  | inl no_version ↦ absurd (never _ (rw (no_version, is_eligible) at h))
  | inr found ↦ found
]

pub eligible-Offerable :
    (current : Text) (v : SemVersion) (incl : Bool) (r : GithubRelease)
    → parse_sem_version current ≡ some v
    → is_eligible v current incl r ≡ true
    → Offerable current incl r
eligible-Offerable current v incl r known h =
    let (w, version) = has_version current v incl r h in
    let (published, asked, line, newer) = passed current v w incl r version h in
    let above = gt_of (compare_sem_version r.tag_name current) newer in
    (
      v,
      w,
      known,
      version,
      published,
      either r.prerelease incl asked,
      on_line v w line,
      above,
      compare_sem_version-turned r.tag_name current ∙ ap turned above,
    )

asked_back : (a b : Bool) → (a ≡ false) ⊎ (b ≡ true) → (a && not b) ≡ false
asked_back a b h = ground arith

on_line_back :
    (v w : SemVersion)
    → (is_pinned_alpha_line v ≡ false) ⊎ (is_pinned_alpha_line w ≡ true)
    → off_line v w ≡ false
unfolding same_pinned_alpha_line
on_line_back v w h = ground arith

-- The other way round, but for a tag of blanks, which is no version.
pub Offerable-eligible :
    (current : Text) (v : SemVersion) (incl : Bool) (r : GithubRelease)
    → parse_sem_version current ≡ some v
    → is_empty (trim_space r.tag_name) ≡ false
    → Offerable current incl r
    → is_eligible v current incl r ≡ true
unfolding is_eligible same_pinned_alpha_line
Offerable-eligible current v incl r known tagged
      (v', w, known', version, published, asked, line, above, below) =
    let same : v' ≡ v = some_injective (sym known' ∙ known) in
    let on : off_line v w ≡ false =
      subst (λ x. off_line x w ≡ false) same (on_line_back v' w line) in
    rw (published, tagged, version, on, asked_back r.prerelease incl asked, above, is_eligible) refl
