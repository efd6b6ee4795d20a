-- ===== src/Update.antt =====
-- internal/system/update_windows.go: versions, and the release and the asset that an update takes.
pub mod Order
pub mod Release
pub mod Eligible
pub mod Choice
pub mod Download
mod Examples
use Prim.Native.Nat.{compare, Ordering}
use logi_mate.Base.{
  ℕ, suc, ◌+◌, ◌-◌, ◌*◌, ◌<◌, ◌^◌, Bool, true, false, not, ◌&&◌, ◌||◌, Option, none, some, List, [],
  ◌∷◌, map, ltb, leb, ◌==◌, if◌then◌else◌,
}
use logi_mate.Base.Int.{ℤ, pos, sub_ℕ, pos_part, ltb_ℤ}
use logi_mate.Base.Text.{
  Text, codes, text_eq, text_lt, is_empty, is_space, trim_space, to_lower, has_prefix, equal_fold,
}

-- strings.TrimPrefix(s, "v")
unfoldable pub without_v : Text → Text
without_v [] = []
without_v (c ∷ cs) = if c == 118 then cs else c ∷ cs

-- What stands before the first byte of a kind, and what stands behind it, if there is one.
unfoldable pub before : ℕ → Text → Text
before b [] = []
before b (c ∷ cs) = let rest = before b cs in if c == b then [] else c ∷ rest

unfoldable pub behind : ℕ → Text → Option Text
behind b [] = none
behind b (c ∷ cs) = let rest = behind b cs in if c == b then some cs else rest

-- The pieces between the bytes that a test takes; FieldsFunc drops the empty ones.
unfoldable pub pieces : (ℕ → Bool) → Text → List Text
pieces cut [] = [] ∷ []
pieces cut (c ∷ cs) =
    let rest = pieces cut cs in
    if cut c then [] ∷ rest else elim rest [ [] ↦ (c ∷ []) ∷ [] | p ∷ ps ↦ (c ∷ p) ∷ ps ]

abbrev non_empty : List Text → List Text
non_empty [] = []
non_empty (p ∷ ps) = let rest = non_empty ps in if is_empty p then rest else p ∷ rest

-- The value of a row of digits.
unfoldable pub digits_value : ℕ → Text → Option ℕ
digits_value acc [] = some acc
digits_value acc (c ∷ cs) =
    let rest = digits_value (10 * acc + (c - 48)) cs in if leb 48 c && leb c 57 then rest else none

unfoldable pub unsigned : Text → Option ℕ
unfolding digits_value
unsigned [] = none
unsigned (c ∷ cs) = digits_value 0 (c ∷ cs)

abbrev half_range : ℕ
half_range = 2 ^ 63

-- strconv.Atoi: an optional sign, decimal digits, and a value that an int of 64 bits holds.
unfoldable pub atoi : Text → Option ℤ
unfolding unsigned
atoi [] = none
atoi (c ∷ cs) =
    if c == 45
    then elim (unsigned cs) [
      | none ↦ none
      | some n ↦ if leb n half_range then some (sub_ℕ 0 n) else none
    ]
    else elim (unsigned (if c == 43 then cs else c ∷ cs)) [
      | none ↦ none
      | some n ↦ if ltb n half_range then some (pos n) else none
    ]

pub record SemVersion : Type 0 where
  pub major : ℕ
  pub minor : ℕ
  pub patch : ℕ
  pub pre : Text

-- A part of a version: a number that is not below 0.
unfoldable pub version_part : Text → Option ℕ
unfolding atoi
version_part s = elim (atoi s) [
  | none ↦ none
  | some n ↦ if ltb_ℤ n (pos 0) then none else some (pos_part n)
]

unfoldable pub version_of : List Text → Text → Option SemVersion
unfolding version_part
version_of [] pre = none
version_of (a ∷ []) pre = none
version_of (a ∷ b ∷ []) pre = elim (version_part a) [
  | none ↦ none
  | some x ↦ elim (version_part b) [
    | none ↦ none
    | some y ↦ some (record { major = x; minor = y; patch = 0; pre = pre })
  ]
]
version_of (a ∷ b ∷ c ∷ []) pre = elim (version_part a) [
  | none ↦ none
  | some x ↦ elim (version_part b) [
    | none ↦ none
    | some y ↦ elim (version_part c) [
      | none ↦ none
      | some z ↦ some (record { major = x; minor = y; patch = z; pre = pre })
    ]
  ]
]
version_of (a ∷ b ∷ c ∷ d ∷ rest) pre = none

abbrev prerelease_text : Option Text → Text
prerelease_text none = []
prerelease_text (some s) = to_lower (trim_space s)

unfoldable pub parse_sem_version : Text → Option SemVersion
unfolding without_v before behind pieces version_of
parse_sem_version raw =
    let s = before 43 (trim_space (without_v (trim_space raw))) in
    version_of (pieces (λ c. c == 46) (before 45 s)) (prerelease_text (behind 45 s))

unfoldable pub rank : Text → ℕ
unfolding has_prefix text_eq
rank s =
    if has_prefix s (codes "alpha") || text_eq s (codes "a")
    then 10
    else if has_prefix s (codes "beta") || text_eq s (codes "b")
    then 20
    else if has_prefix s (codes "rc")
    then 30
    else 15

-- -1, 0 and 1 are lt, eq and gt; where two things are alike the rest decides.
abbrev pub by_text : Text → Text → Ordering → Ordering
by_text a b rest = if text_lt a b then Ordering.lt else if text_lt b a then Ordering.gt else rest

abbrev pub by_rank : ℕ → ℕ → Ordering → Ordering
by_rank a b rest = if a == b then rest else if ltb a b then Ordering.lt else Ordering.gt

abbrev pub by_number : ℤ → ℤ → Ordering → Ordering
by_number a b rest = if ltb_ℤ a b then Ordering.lt else if ltb_ℤ b a then Ordering.gt else rest

-- Two fields of a prerelease: numbers by value, and anything else by rank and text.
unfoldable pub by_field : Option ℤ → Option ℤ → Text → Text → Ordering → Ordering
unfolding rank
by_field (some x) (some y) a b rest = by_number x y rest
by_field (some x) none a b rest = by_rank (rank a) (rank b) (by_text a b rest)
by_field none y a b rest = by_rank (rank a) (rank b) (by_text a b rest)

unfoldable pub compare_fields : List Text → List Text → Ordering
unfolding by_field atoi
compare_fields [] [] = Ordering.eq
compare_fields [] (b ∷ bs) = Ordering.lt
compare_fields (a ∷ as_left) [] = Ordering.gt
compare_fields (a ∷ as_left) (b ∷ bs) = by_field (atoi a) (atoi b) a b (compare_fields as_left bs)

abbrev pub fields : Text → List Text
fields s = non_empty (pieces (λ c. c == 46 || (c == 45 || c == 95)) (to_lower s))

unfoldable pub compare_prerelease : Text → Text → Ordering
unfolding compare_fields pieces
compare_prerelease a b = compare_fields (fields a) (fields b)

abbrev pub by_pre : Text → Text → Ordering
by_pre a b =
    if text_eq a b
    then Ordering.eq
    else if is_empty a
    then Ordering.gt
    else if is_empty b
    then Ordering.lt
    else compare_prerelease a b

unfoldable pub compare_parsed : SemVersion → SemVersion → Ordering
unfolding compare_prerelease
compare_parsed a b =
    by_rank a.major b.major (by_rank a.minor b.minor (by_rank a.patch b.patch (by_pre a.pre b.pre)))

-- strings.Compare on the texts where one of the two is no version.
unfoldable pub compare_texts : Text → Text → Ordering
unfolding without_v
compare_texts a b = by_text (without_v (to_lower a)) (without_v (to_lower b)) Ordering.eq

unfoldable pub compare_both : Option SemVersion → Option SemVersion → Text → Text → Ordering
unfolding compare_parsed compare_texts
compare_both (some v) (some w) a b = compare_parsed v w
compare_both (some v) none a b = compare_texts a b
compare_both none w a b = compare_texts a b

unfoldable pub compare_sem_version : Text → Text → Ordering
unfolding compare_both parse_sem_version
compare_sem_version a b = compare_both (parse_sem_version a) (parse_sem_version b) a b

unfoldable pub is_pinned_alpha_line : SemVersion → Bool
unfolding text_eq has_prefix
is_pinned_alpha_line v =
    v.major == 0
    && v.minor == 0
    && v.patch == 1
    && (text_eq v.pre (codes "alpha") || has_prefix v.pre (codes "alpha."))

unfoldable pub same_pinned_alpha_line : SemVersion → SemVersion → Bool
unfolding is_pinned_alpha_line
same_pinned_alpha_line a b = is_pinned_alpha_line a && is_pinned_alpha_line b
