-- ===== src/Migration/Covered.antt =====
-- internal/system/migration_journal_windows.go: which journals of a directory a list of pending ones covers.
use logi_mate.Base.{
  ◌≡◌, refl, ◌∙◌, sym, ap, Bool, true, false, not, ◌&&◌, ◌||◌, Bool-cases, inl, inr, none, some,
  List, [], ◌∷◌, arith, All, if◌then◌else◌,
}
use logi_mate.Base.Text.{Text, text_eq, text_eq→≡, text_eq_refl, text_lt}
use logi_mate.Base.Maps.{lookup, insert, lookup-insert}
use logi_mate.Migration.{
  MigrationResult, Stored, journal, damaged, unreadable, Directory, insert_started, by_start,
}
use logi_mate.Migration.Blocking.{any_incomplete, unresolved_journal}

-- No name stands twice.
abbrev pub Unique : Directory → Type 0
Unique [] = Unit
Unique ((name, s) ∷ rest) = (lookup name rest ≡ none) × Unique rest

abbrev pub named_in : List MigrationResult → Text → Bool
named_in [] name = false
named_in (k ∷ ks) name = text_eq k.id name || named_in ks name

-- Each unresolved journal of the directory stands under the id of one of the list.
abbrev pub Covered : Directory → List MigrationResult → Type 0
Covered [] ks = Unit
Covered ((name, journal m) ∷ rest) ks =
    ((unresolved_journal m && not (named_in ks name)) ≡ false) × Covered rest ks
Covered ((name, damaged) ∷ rest) ks = Covered rest ks
Covered ((name, unreadable) ∷ rest) ks = Covered rest ks

apart : (a b : Text) → text_eq a b ≡ false → text_eq b a ≡ false
apart a b h = elim (Bool-cases (text_eq b a)) [
  | inr other ↦ other
  | inl same ↦ absurd (cc (ap (text_eq a) (text_eq→≡ b a same), text_eq_refl a, h))
]

absent_head :
    (i j : Text) (s : Stored) (rest : Directory)
    → lookup i ((j, s) ∷ rest) ≡ none
    → (text_eq j i ≡ false) × (lookup i rest ≡ none)
unfolding lookup
absent_head i j s rest h = elim (Bool-cases (text_eq j i)) [
  | inl same ↦ absurd (cc (rw same at h))
  | inr other ↦ (other, rw other at h)
]

one_less : (u a b : Bool) → (u && not (a || b)) ≡ false → a ≡ false → (u && not b) ≡ false
one_less u true b h e = absurd (cc e)
one_less u false b h e = h

-- A name that the directory does not have covers nothing.
unnamed_rest :
    (d : Directory) (k : MigrationResult) (ks : List MigrationResult)
    → lookup k.id d ≡ none
    → Covered d (k ∷ ks)
    → Covered d ks
unnamed_rest [] k ks free c = tt
unnamed_rest ((j, journal m) ∷ rest) k ks free c =
    let (other, free') = absent_head k.id j (journal m) rest free in
    (
      one_less (unresolved_journal m) (text_eq k.id j) (named_in ks j) c.0 (apart j k.id other),
      unnamed_rest rest k ks free' c.1,
    )
unnamed_rest ((j, damaged) ∷ rest) k ks free c =
    unnamed_rest rest k ks (absent_head k.id j damaged rest free).1 c
unnamed_rest ((j, unreadable) ∷ rest) k ks free c =
    unnamed_rest rest k ks (absent_head k.id j unreadable rest free).1 c

tail-Covered :
    (j : Text) (s : Stored) (rest : Directory) (ks : List MigrationResult)
    → Covered ((j, s) ∷ rest) ks
    → Covered rest ks
tail-Covered j (journal m) rest ks c = c.1
tail-Covered j damaged rest ks c = c
tail-Covered j unreadable rest ks c = c

cons-Covered :
    (j : Text) (s : Stored) (rest later : Directory) (k : MigrationResult)
    (ks : List MigrationResult)
    → text_eq j k.id ≡ false
    → Covered ((j, s) ∷ rest) (k ∷ ks)
    → Covered later ks
    → Covered ((j, s) ∷ later) ks
cons-Covered j (journal m) rest later k ks other c l =
    (one_less (unresolved_journal m) (text_eq k.id j) (named_in ks j) c.0 (apart j k.id other), l)
cons-Covered j damaged rest later k ks other c l = l
cons-Covered j unreadable rest later k ks other c l = l

-- Once the journal of an id is resolved, the others of the list cover the rest.
pub insert-Covered :
    (d : Directory) (k m : MigrationResult) (ks : List MigrationResult)
    → Unique d
    → unresolved_journal m ≡ false
    → Covered d (k ∷ ks)
    → Covered (insert k.id (journal m) d) ks
unfolding insert
insert-Covered [] k m ks u resolved c = (rw resolved refl, tt)
insert-Covered ((j, s) ∷ rest) k m ks u resolved c = elim (Bool-cases (text_eq j k.id)) [
  | inl same ↦ rw same (
    rw resolved refl,
    unnamed_rest rest k ks (ap (λ t. lookup t rest) (sym (text_eq→≡ j k.id same)) ∙ u.0)
        (tail-Covered j s rest (k ∷ ks) c),
  )
  | inr other ↦ rw other (
      cons-Covered j s rest (insert k.id (journal m) rest) k ks other c
        (insert-Covered rest k m ks u.1 resolved (tail-Covered j s rest (k ∷ ks) c)))
]

pub insert-Unique : (d : Directory) (i : Text) (s : Stored) → Unique d → Unique (insert i s d)
unfolding insert lookup
insert-Unique [] i s u = (refl, tt)
insert-Unique ((j, t) ∷ rest) i s u = elim (Bool-cases (text_eq j i)) [
  | inl same ↦ rw same (ap (λ n. lookup n rest) (sym (text_eq→≡ j i same)) ∙ u.0, u.1)
  | inr other ↦ rw other (
    lookup-insert i j s rest
        ∙ ap (λ b. if b then some s else lookup j rest) (apart j i other)
        ∙ u.0,
    insert-Unique rest i s u.1,
  )
]

pub Covered-any_incomplete : (d : Directory) → Covered d [] → any_incomplete d ≡ false
Covered-any_incomplete [] c = refl
Covered-any_incomplete ((j, journal m) ∷ rest) c =
    let later = Covered-any_incomplete rest c.1 in let first = c.0 in ground (arith, later, first)
Covered-any_incomplete ((j, damaged) ∷ rest) c = Covered-any_incomplete rest c
Covered-any_incomplete ((j, unreadable) ∷ rest) c = Covered-any_incomplete rest c

one_more : (u a b : Bool) → (u && not b) ≡ false → (u && not (a || b)) ≡ false
one_more u true b h = ground arith
one_more u false b h = h

pub more-Covered :
    (d : Directory) (k : MigrationResult) (ks : List MigrationResult)
    → Covered d ks
    → Covered d (k ∷ ks)
more-Covered [] k ks c = tt
more-Covered ((j, journal m) ∷ rest) k ks c = (
  one_more (unresolved_journal m) (text_eq k.id j) (named_in ks j) c.0,
  more-Covered rest k ks c.1,
)
more-Covered ((j, damaged) ∷ rest) k ks c = more-Covered rest k ks c
more-Covered ((j, unreadable) ∷ rest) k ks c = more-Covered rest k ks c

swapped : (a b c : Bool) → (b || (a || c)) ≡ (a || (b || c))
swapped true true c = refl
swapped true false c = refl
swapped false true c = refl
swapped false false c = refl

named_in-insert_started :
    (m : MigrationResult) (ks : List MigrationResult) (name : Text)
    → named_in (insert_started m ks) name ≡ (text_eq m.id name || named_in ks name)
unfolding insert_started
named_in-insert_started m [] name = refl
named_in-insert_started m (k ∷ ks) name = elim (Bool-cases (text_lt k.started m.started)) [
  | inr first ↦ rw first refl
  | inl later ↦ rw later (
      ap (λ b. text_eq k.id name || b) (named_in-insert_started m ks name)
      ∙ swapped (text_eq m.id name) (text_eq k.id name) (named_in ks name))
]

named_in-by_start :
    (ks : List MigrationResult) (name : Text) → named_in (by_start ks) name ≡ named_in ks name
unfolding by_start
named_in-by_start [] name = refl
named_in-by_start (k ∷ ks) name =
    named_in-insert_started k (by_start ks) name
    ∙ ap (λ b. text_eq k.id name || b) (named_in-by_start ks name)

pub by_start-Covered :
    (d : Directory) (ks : List MigrationResult) → Covered d ks → Covered d (by_start ks)
by_start-Covered [] ks c = tt
by_start-Covered ((j, journal m) ∷ rest) ks c = (
  ap (λ b. unresolved_journal m && not b) (named_in-by_start ks j) ∙ c.0,
  by_start-Covered rest ks c.1,
)
by_start-Covered ((j, damaged) ∷ rest) ks c = by_start-Covered rest ks c
by_start-Covered ((j, unreadable) ∷ rest) ks c = by_start-Covered rest ks c

module _ (P : MigrationResult → Type 0) where
  insert_started-All :
      (m : MigrationResult) (ks : List MigrationResult)
      → P m
      → All P ks
      → All P (insert_started m ks)
  unfolding insert_started
  insert_started-All m [] p h = (p, tt)
  insert_started-All m (k ∷ ks) p h = elim (Bool-cases (text_lt k.started m.started)) [
    | inr first ↦ rw first (p, h)
    | inl later ↦ rw later (h.0, insert_started-All m ks p h.1)
  ]

  pub by_start-All : (ks : List MigrationResult) → All P ks → All P (by_start ks)
  unfolding by_start
  by_start-All [] h = tt
  by_start-All (k ∷ ks) h = insert_started-All k (by_start ks) h.0 (by_start-All ks h.1)
