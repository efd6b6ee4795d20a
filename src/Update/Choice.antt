-- ===== src/Update/Choice.antt =====
-- internal/system/update_windows.go: what a release that is offered is, and what it means that none is.
use logi_mate.Base.{
  some_injective, Among, List-cases, ◌≡◌, ◌⊎◌, refl, sym, ◌∙◌, Bool, true, false, Option, none,
  some, List, [], ◌∷◌, All, Bool-cases, Option-cases, inl, inr,
}
use logi_mate.Base.Results.{Result, ok, err}
use logi_mate.Base.Text.{Text, trim_space, is_empty}
use logi_mate.Update.{
  without_v, before, behind, pieces, version_of, SemVersion, parse_sem_version, compare_sem_version,
}
use logi_mate.Update.Release.{
  GithubRelease, UpdateInfo, is_gt, is_eligible, info_of, better, best_of, check_latest,
}
use logi_mate.Update.Eligible.{Offerable, eligible-Offerable, Offerable-eligible}

module _ (v : SemVersion) (current : Text) (incl : Bool) (repository : Text) where
  abbrev FromList : List GithubRelease → UpdateInfo → Type 0
  FromList rs info =
      (r : GithubRelease) × Among r rs
      × (is_eligible v current incl r ≡ true)
      × (info ≡ info_of repository r)

  later :
      (best : Option UpdateInfo) (rs : List GithubRelease) (info : UpdateInfo) (r : GithubRelease)
      → (best ≡ some info) ⊎ FromList rs info
      → (best ≡ some info) ⊎ FromList (r ∷ rs) info
  later best rs info r (inl h) = inl h
  later best rs info r (inr (q, among, fits, same)) = inr (q, inr among, fits, same)

  better-cases :
      (info : UpdateInfo) (best : Option UpdateInfo)
      → (better info best ≡ info) ⊎ (some (better info best) ≡ best)
  unfolding better
  better-cases info none = inl refl
  better-cases info (some b) =
      elim (Bool-cases (is_gt (compare_sem_version info.version b.version))) [
        | inl above ↦ inl (rw above refl)
        | inr other ↦ inr (rw other refl)
      ]

  best_of-some :
      (best : Option UpdateInfo) (rs : List GithubRelease) (info : UpdateInfo)
      → best_of v current incl repository best rs ≡ some info
      → (best ≡ some info)
        ⊎ ((r : GithubRelease) × Among r rs
            × (is_eligible v current incl r ≡ true)
            × (info ≡ info_of repository r))
  unfolding best_of
  best_of-some best [] info h = inl h
  best_of-some best (r ∷ rs) info h = elim (Bool-cases (is_eligible v current incl r)) [
    | inr out ↦ later best rs info r (best_of-some best rs info (rw out at h))
    | inl fits ↦
        elim (best_of-some (some (better (info_of repository r) best)) rs info (rw fits at h)) [
          | inr found ↦ later best rs info r (inr found)
          | inl kept ↦ elim (better-cases (info_of repository r) best) [
            | inl same ↦ inr (r, inl refl, fits, sym (some_injective kept) ∙ same)
            | inr same ↦ inl (sym same ∙ kept)
          ]
        ]
  ]

  best_of-none :
      (best : Option UpdateInfo) (rs : List GithubRelease)
      → best_of v current incl repository best rs ≡ none
      → (best ≡ none) × All (λ r. is_eligible v current incl r ≡ false) rs
  unfolding best_of
  best_of-none best [] h = (h, tt)
  best_of-none best (r ∷ rs) h = elim (Bool-cases (is_eligible v current incl r)) [
    | inr out ↦ let (same, rest) = best_of-none best rs (rw out at h) in (same, (out, rest))
    | inl fits ↦
        absurd (cc (best_of-none (some (better (info_of repository r) best)) rs (rw fits at h)).0)
  ]

no_result :
    {o : Option UpdateInfo} → ◌≡◌ {A = Result (Unit {0}) (Option UpdateInfo)} (err tt) (ok o) → ⊥
no_result h = cc

ok_option :
    {o q : Option UpdateInfo}
    → ◌≡◌ {A = Result (Unit {0}) (Option UpdateInfo)} (ok o) (ok q)
    → o ≡ q
ok_option h = cc

no_start : {info : UpdateInfo} → none ≡ some info → ⊥
no_start h = cc

-- A tag of blanks is no version.
blank_tag : (tag : Text) → trim_space tag ≡ [] → parse_sem_version tag ≡ none
unfolding parse_sem_version without_v before behind pieces version_of trim_space
blank_tag tag blank = rw (blank, parse_sem_version) refl

no_version_of : (w : SemVersion) → none ≡ some w → ⊥
no_version_of w h = cc

tag_shown :
    (tag : Text) (w : SemVersion)
    → parse_sem_version tag ≡ some w
    → is_empty (trim_space tag) ≡ false
tag_shown tag w version = elim (List-cases (trim_space tag)) [
  | inl blank ↦ absurd (no_version_of w (sym (blank_tag tag blank) ∙ version))
  | inr (c, cs, shown) ↦ rw shown refl
]

-- A release that is offered is one of the repository, for which the update is offered as it stands there:
-- it is no draft, its tag is a version, no prerelease unless these are wanted, of the pinned alpha line
-- if the running version is, newer than the running version, and the running version older than it.
pub check_latest-Offerable :
    (current : Text) (incl : Bool) (repository : Text) (rs : List GithubRelease) (info : UpdateInfo)
    → check_latest current incl repository rs ≡ ok (some info)
    → (r : GithubRelease) × Among r rs × (info ≡ info_of repository r) × Offerable current incl r
unfolding check_latest
check_latest-Offerable current incl repository rs info h =
    elim (Option-cases (parse_sem_version current)) [
      | inl no_version ↦ absurd (no_result (rw (no_version, check_latest) at h))
      | inr (v, known) ↦
          let best : best_of v current incl repository none rs ≡ some info =
            ok_option (rw (known, check_latest) at h) in
          elim (best_of-some v current incl repository none rs info best) [
            | inl none_before ↦ absurd (no_start none_before)
            | inr (r, among, fits, same) ↦
                (r, among, same, eligible-Offerable current v incl r known fits)
          ]
    ]

none-Among :
    (v : SemVersion) (current : Text) (incl : Bool) (rs : List GithubRelease) (r : GithubRelease)
    → All (λ q. is_eligible v current incl q ≡ false) rs
    → Among r rs
    → is_eligible v current incl r ≡ false
none-Among v current incl [] r all among = elim among [ ]
none-Among v current incl (q ∷ rs) r all (inl same) = rw same all.0
none-Among v current incl (q ∷ rs) r all (inr among) = none-Among v current incl rs r all.1 among

-- If none is offered, no release of the list that was fetched could be.
pub check_latest-none :
    (current : Text) (incl : Bool) (repository : Text) (rs : List GithubRelease) (r : GithubRelease)
    → check_latest current incl repository rs ≡ ok none
    → Among r rs
    → ¬ Offerable current incl r
unfolding check_latest
check_latest-none current incl repository rs r h among offer =
    let (v, w, known, version, published, asked, line, above, below) = offer in
    let best : best_of v current incl repository none rs ≡ none =
      ok_option (rw (known, check_latest) at h) in
    let out =
      none-Among v current incl rs r (best_of-none v current incl repository none rs best).1
        among in
    let fits = Offerable-eligible current v incl r known (tag_shown r.tag_name w version) offer in
    cc (out, fits)
