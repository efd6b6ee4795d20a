-- ===== src/Update/Download.antt =====
-- internal/system/update_windows.go, DownloadLogiMateUpdate after the choice of the asset. `sha` is the
-- SHA-256 of a file as text, `url_ok` the answer of validateGitHubReleaseAssetURL, and the results of
-- the network and of the files are arguments.
use logi_mate.Base.{
  ℕ, ◌≤◌, ◌/◌, ◌≡◌, ◌≢◌, ◌⊎◌, refl, Bool, true, false, not, ◌&&◌, Option, none, some, List, [], ◌∷◌,
  arith, length, ltb, ◌==◌, if◌then◌else◌, inl, inr,
}
use logi_mate.Base.Text.{Text, codes, is_empty, to_lower, trim_space, equal_fold, has_prefix}
use logi_mate.Update.Release.{UpdateAsset}

-- The path of the finished file and that of the partial one; `none` is no file.
pub record Files : Type 0 where
  pub final : Option (List ℕ)
  pub partial : Option (List ℕ)

pub data DownloadError : Type 0 where
  too_large no_directory bad_url no_response bad_status not_created copy_failed over_limit
        incomplete_file not_closed no_digest not_read wrong_digest not_renamed :
      DownloadError

abbrev pub max_update_bytes : ℕ
max_update_bytes = 0x10000000

-- What the network and the files answer. A body is what was written to the partial file, with the error
-- of the copy; `published` is what the list of sums of the release gives.
pub record Answers : Type 0 where
  pub directory_made : Bool
  pub responded : Bool
  pub status : ℕ
  pub file_created : Bool
  pub written : List ℕ
  pub copied : Bool
  pub closed : Bool
  pub published : Text
  pub sum_read : Bool
  pub renamed : Bool

-- strings.TrimPrefix(s, "sha256:")
unfoldable pub without_sha : Text → Text
unfolding has_prefix
without_sha s = if has_prefix s (codes "sha256:") then drop_seven s else s
  where
    drop_seven : Text → Text
    drop_seven (a ∷ b ∷ c ∷ d ∷ e ∷ f ∷ g ∷ rest) = rest
    drop_seven rest = []

-- The digest of the asset, or else that of the list of sums.
unfoldable pub wanted_digest : UpdateAsset → Answers → Text
unfolding without_sha trim_space
wanted_digest a w =
    let own = trim_space (without_sha (to_lower a.digest)) in
    if is_empty own then w.published else own

module _ (sha : List ℕ → Text) where
  -- The checks of a partial file that was written, and the move to its place.
  unfoldable pub checked : Files → UpdateAsset → Answers → Files × Option DownloadError
  checked d a w =
      let gone = record d { partial = none } in
      if not w.copied
      then (gone, some copy_failed)
      else if ltb max_update_bytes (length w.written)
      then (gone, some over_limit)
      else if ltb 0 a.size && not (length w.written == a.size)
      then (gone, some incomplete_file)
      else if not w.closed
      then (gone, some not_closed)
      else if is_empty (wanted_digest a w)
      then (gone, some no_digest)
      else if not w.sum_read
      then (gone, some not_read)
      else if not (equal_fold (sha w.written) (wanted_digest a w))
      then (gone, some wrong_digest)
      else if w.renamed
      then (record { final = some w.written; partial = none }, none)
      else (record d { final = none }, some not_renamed)

  unfoldable pub download_logi_mate_update :
      Files → UpdateAsset → Bool → Answers → Files × Option DownloadError
  unfolding checked
  download_logi_mate_update d a url_ok w =
      let clean = record d { partial = none } in
      if ltb max_update_bytes a.size
      then (d, some too_large)
      else if not w.directory_made
      then (d, some no_directory)
      else if not url_ok
      then (clean, some bad_url)
      else if not w.responded
      then (clean, some no_response)
      else if not (w.status / 100 == 2)
      then (clean, some bad_status)
      else if not w.file_created
      then (clean, some not_created)
      else checked (record d { partial = some w.written }) a w

  -- What makes a file an update that may be started.
  abbrev pub Verified : UpdateAsset → Answers → List ℕ → Type 0
  Verified a w content =
      (equal_fold (sha content) (wanted_digest a w) ≡ true)
      × (is_empty (wanted_digest a w) ≡ false)
      × (length content ≤ max_update_bytes)
      × ((a.size ≡ 0) ⊎ (length content ≡ a.size))

  -- What a download with its result has done to the place of the update.
  abbrev pub Outcome : Files → UpdateAsset → Bool → Answers → Files × Option DownloadError → Type 0
  Outcome d a url_ok w r =
      ((r.1 ≡ none)
        × (url_ok ≡ true)
        × (r.0.final ≡ some w.written)
        × (r.0.partial ≡ none)
        × Verified a w w.written)
      ⊎ ((r.1 ≢ none) × ((r.0.final ≡ d.final) ⊎ (r.0.final ≡ none)))

  module _ (d : Files) (a : UpdateAsset) (url_ok : Bool) (w : Answers) where
    Outcome-if :
        (b : Bool) (x y : Files × Option DownloadError)
        → Outcome d a url_ok w x
        → (b ≡ false → Outcome d a url_ok w y)
        → Outcome d a url_ok w (if b then x else y)
    Outcome-if true x y left right = left
    Outcome-if false x y left right = right refl

    Outcome-failed :
        (f : Files) (e : DownloadError)
        → (f.final ≡ d.final) ⊎ (f.final ≡ none)
        → Outcome d a url_ok w (f, some e)
    Outcome-failed f e kept = inr ((λ h. cc), kept)

    size_fits : (n : ℕ) → (ltb 0 a.size && not (n == a.size)) ≡ false → (a.size ≡ 0) ⊎ (n ≡ a.size)
    size_fits n h = ground arith

    negated : (b : Bool) → not b ≡ false → b ≡ true
    negated b h = ground arith

    -- The last step: the move succeeds, or the place is empty.
    installed_or_lost :
        (f : Files)
        → url_ok ≡ true
        → Verified a w w.written
        → Outcome d a url_ok w (
            if w.renamed
            then (record { final = some w.written; partial = none }, none)
            else (record f { final = none }, some not_renamed))
    installed_or_lost f good verified =
        Outcome-if w.renamed _ _ (inl (refl, good, refl, refl, verified))
          (λ lost. Outcome-failed _ not_renamed (inr refl))

    checked-Outcome :
        (f : Files) → f.final ≡ d.final → url_ok ≡ true → Outcome d a url_ok w (checked f a w)
    unfolding checked
    checked-Outcome f same good =
        let keeps = inl same in
        Outcome-if (not w.copied) _ _ (Outcome-failed _ copy_failed keeps) (λ copied.
          Outcome-if (ltb max_update_bytes (length w.written)) _ _
            (Outcome-failed _ over_limit keeps)
            (λ small.
              Outcome-if (ltb 0 a.size && not (length w.written == a.size)) _ _
                (Outcome-failed _ incomplete_file keeps)
                (λ whole.
                  Outcome-if (not w.closed) _ _ (Outcome-failed _ not_closed keeps) (λ closed.
                    Outcome-if (is_empty (wanted_digest a w)) _ _ (Outcome-failed _ no_digest keeps)
                      (λ stated.
                        Outcome-if (not w.sum_read) _ _ (Outcome-failed _ not_read keeps) (λ read.
                          Outcome-if (not (equal_fold (sha w.written) (wanted_digest a w))) _ _
                            (Outcome-failed _ wrong_digest keeps)
                            (λ alike. installed_or_lost f good (
                              negated _ alike,
                              stated,
                              ground (arith, small),
                              size_fits _ whole,
                            ))))))))

  -- A download without an error comes from an accepted address, and puts exactly the bytes that were
  -- received in place: at most 256 MiB, of the stated size if one is stated, and with the published
  -- digest, which is not empty. With any error the place holds what it held before, or nothing.
  pub download-Verified :
      (d : Files) (a : UpdateAsset) (url_ok : Bool) (w : Answers)
      → Outcome d a url_ok w (download_logi_mate_update d a url_ok w)
  unfolding download_logi_mate_update
  download-Verified d a url_ok w =
      let failed = Outcome-failed d a url_ok w in
      Outcome-if d a url_ok w (ltb max_update_bytes a.size) _ _ (failed d too_large (inl refl))
        (λ p1.
          Outcome-if d a url_ok w (not w.directory_made) _ _ (failed d no_directory (inl refl))
            (λ p2. Outcome-if d a url_ok w (not url_ok) _ _ (failed _ bad_url (inl refl)) (λ p3.
              Outcome-if d a url_ok w (not w.responded) _ _ (failed _ no_response (inl refl)) (λ p4.
                Outcome-if d a url_ok w (not (w.status / 100 == 2)) _ _
                  (failed _ bad_status (inl refl))
                  (λ p5.
                    Outcome-if d a url_ok w (not w.file_created) _ _
                      (failed _ not_created (inl refl))
                      (λ p6.
                        checked-Outcome d a url_ok w (record d { partial = some w.written }) refl
                          (negated d a url_ok w url_ok p3)))))))
