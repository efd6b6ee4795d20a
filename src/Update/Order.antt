-- ===== src/Update/Order.antt =====
-- The comparison of versions in internal/system/update_windows.go: exchanging the two turns the result
-- round.
use Prim.Native.Nat.{Ordering}
use logi_mate.Base.{
  ℕ, ◌<◌, ◌≡◌, ◌↔◌, ◌⊎◌, refl, ap, ◌∙◌, true, false, Option, none, some, List, [], ◌∷◌, arith,
}
use logi_mate.Base.Int.{ℤ}
use logi_mate.Base.Text.{Text, text_eq, text_lt}
use logi_mate.Update.{
  SemVersion, rank, atoi, by_text, by_rank, by_number, by_field, compare_fields, fields,
  compare_prerelease, by_pre, compare_parsed, compare_texts, compare_both, compare_sem_version,
  parse_sem_version,
}

abbrev pub turned : Ordering → Ordering
turned Ordering.lt = Ordering.gt
turned Ordering.eq = Ordering.eq
turned Ordering.gt = Ordering.lt

text_lt_asym : (a b : Text) → text_lt a b ≡ true → text_lt b a ≡ false
unfolding text_lt
text_lt_asym a [] h = cc
text_lt_asym [] (y ∷ ys) h = refl
text_lt_asym (x ∷ xs) (y ∷ ys) h = ground (arith, text_lt_asym xs ys)

text_eq_sym : (a b : Text) → text_eq b a ≡ text_eq a b
unfolding text_eq
text_eq_sym [] [] = refl
text_eq_sym [] (y ∷ ys) = refl
text_eq_sym (x ∷ xs) [] = refl
text_eq_sym (x ∷ xs) (y ∷ ys) = ground (arith, text_eq_sym xs ys)

by_text-turned : (a b : Text) (r : Ordering) → by_text b a (turned r) ≡ turned (by_text a b r)
by_text-turned a b r = ground (arith, text_lt_asym a b)

by_rank-turned : (a b : ℕ) (r : Ordering) → by_rank b a (turned r) ≡ turned (by_rank a b r)
by_rank-turned a b r = ground arith

by_number-turned : (a b : ℤ) (r : Ordering) → by_number b a (turned r) ≡ turned (by_number a b r)
by_number-turned a b r = ground arith

ranked-turned :
    (a b : Text) (r : Ordering)
    → by_rank (rank b) (rank a) (by_text b a (turned r))
      ≡ turned (by_rank (rank a) (rank b) (by_text a b r))
ranked-turned a b r =
    ap (by_rank (rank b) (rank a)) (by_text-turned a b r)
    ∙ by_rank-turned (rank a) (rank b) (by_text a b r)

by_field-turned :
    (x y : Option ℤ) (a b : Text) (r : Ordering)
    → by_field y x b a (turned r) ≡ turned (by_field x y a b r)
unfolding by_field
by_field-turned (some x) (some y) a b r = by_number-turned x y r
by_field-turned (some x) none a b r = ranked-turned a b r
by_field-turned none (some y) a b r = ranked-turned a b r
by_field-turned none none a b r = ranked-turned a b r

compare_fields-turned : (xs ys : List Text) → compare_fields ys xs ≡ turned (compare_fields xs ys)
unfolding compare_fields
compare_fields-turned [] [] = refl
compare_fields-turned [] (y ∷ ys) = refl
compare_fields-turned (x ∷ xs) [] = refl
compare_fields-turned (x ∷ xs) (y ∷ ys) =
    ap (by_field (atoi y) (atoi x) y x) (compare_fields-turned xs ys)
    ∙ by_field-turned (atoi x) (atoi y) x y (compare_fields xs ys)

by_pre-turned : (a b : Text) → by_pre b a ≡ turned (by_pre a b)
unfolding compare_prerelease text_eq
by_pre-turned [] [] = refl
by_pre-turned [] (y ∷ ys) = refl
by_pre-turned (x ∷ xs) [] = refl
by_pre-turned (x ∷ xs) (y ∷ ys) = ground (
  arith,
  text_eq_sym (x ∷ xs) (y ∷ ys),
  compare_fields-turned (fields (x ∷ xs)) (fields (y ∷ ys)),
)

compare_parsed-turned : (v w : SemVersion) → compare_parsed w v ≡ turned (compare_parsed v w)
unfolding compare_parsed
compare_parsed-turned v w = ground (arith, by_pre-turned v.pre w.pre)

both-turned :
    (v w : Option SemVersion) (a b : Text) → compare_both w v b a ≡ turned (compare_both v w a b)
unfolding compare_both compare_texts
both-turned (some v) (some w) a b = compare_parsed-turned v w
both-turned (some v) none a b = by_text-turned _ _ Ordering.eq
both-turned none (some w) a b = by_text-turned _ _ Ordering.eq
both-turned none none a b = by_text-turned _ _ Ordering.eq

-- For any two texts, versions or not, the comparison of the second with the first is that of the first
-- with the second turned round; so of two releases at most one is newer than the other.
pub compare_sem_version-turned :
    (a b : Text) → compare_sem_version b a ≡ turned (compare_sem_version a b)
unfolding compare_sem_version
compare_sem_version-turned a b = both-turned (parse_sem_version a) (parse_sem_version b) a b

no_pre : (a b : Text) → a ≡ [] → b ≡ [] → by_pre a b ≡ Ordering.eq
unfolding text_eq
no_pre a b p q = rw (p, q) refl

-- The numbers alone decide between two versions without a prerelease, the major one first.
pub release-compare-lt_iff :
    (v w : SemVersion)
    → v.pre ≡ []
    → w.pre ≡ []
    → (compare_parsed v w ≡ Ordering.lt) ↔ (
        (v.major < w.major)
        ⊎ ((v.major ≡ w.major)
            × ((v.minor < w.minor) ⊎ ((v.minor ≡ w.minor) × (v.patch < w.patch)))))
unfolding compare_parsed
release-compare-lt_iff v w p q =
    let alike = no_pre v.pre w.pre p q in (λ h. ground (arith, alike), λ h. ground (arith, alike))
