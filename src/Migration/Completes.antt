-- ===== src/Migration/Completes.antt =====
-- internal/system/migration_journal_windows.go: a recovery at which the devices show what each unresolved
-- journal is for.
use logi_mate.Base.{
  ◌≡◌, refl, subst, ◌∙◌, sym, ap, Bool, true, false, not, ◌&&◌, ◌||◌, Bool-cases, inl, inr, Option,
  none, some, List, [], ◌∷◌, arith, All, if◌then◌else◌,
}
use logi_mate.Base.Results.{is_ok, Result, ok, err, ok_injective, Result-cases}
use logi_mate.Base.Text.{Text, text_eq, text_eq→≡, text_eq_refl, is_empty}
use logi_mate.Base.Maps.{lookup, insert, lookup-insert}
use logi_mate.Migration.{
  MigrationResult, Stored, journal, damaged, unreadable, Directory, MigrationError, stored_result,
  load_migration, write_migration, is_incomplete, incomplete, by_start, list_incomplete_migrations,
  listed,
}
use logi_mate.Migration.Changes.{changed, complete_migration, finish}
use logi_mate.Migration.Recovery.{
  TargetState, migration_target_satisfied, satisfied, target_message, completed_at, recover_each,
  recovered, recover_interrupted_migrations,
}
use logi_mate.Migration.Evidence.{Named, insert-Named, lookup-Named}
use logi_mate.Migration.Blocking.{
  with_journal, incomplete-shown, all_journals, any_incomplete, some_of, unresolved_journal,
  is_incomplete-unresolved_journal, listed-shown,
}
use logi_mate.Migration.Settled.{insert-journals, no_listing}
use logi_mate.Migration.Covered.{
  named_in, Unique, Covered, insert-Covered, insert-Unique, Covered-any_incomplete, more-Covered,
  by_start-Covered, by_start-All,
}

-- A journal of the list stands in the directory, under an id that is not empty.
abbrev Present : Directory → MigrationResult → Type 0
Present d k = (is_empty k.id ≡ false) × (s : Stored) × (lookup k.id d ≡ some s)

stored_journal :
    (d : Directory) (i : Text) (s : Stored)
    → all_journals d ≡ true
    → lookup i d ≡ some s
    → (m : MigrationResult) × (lookup i d ≡ some (journal m))
unfolding lookup
stored_journal [] i s v at_i = absurd (cc at_i)
stored_journal ((j, damaged) ∷ rest) i s v at_i = absurd (cc v)
stored_journal ((j, unreadable) ∷ rest) i s v at_i = absurd (cc v)
stored_journal ((j, journal m) ∷ rest) i s v at_i = elim (Bool-cases (text_eq j i)) [
  | inl same ↦ (m, rw same refl)
  | inr other ↦ let (k, at_k) = stored_journal rest i s v (rw other at at_i) in (k, rw other at_k)
]

kept-Present :
    (d : Directory) (i : Text) (s : Stored) (k : MigrationResult)
    → Present d k
    → Present (insert i s d) k
kept-Present d i s k (named, t, at_k) = elim (Bool-cases (text_eq i k.id)) [
  | inl same ↦ (named, s, lookup-insert i k.id s d ∙ rw same refl)
  | inr other ↦ (named, t, lookup-insert i k.id s d ∙ rw other at_k)
]

abbrev Listed : (MigrationResult → TargetState) → Directory → MigrationResult → Type 0
Listed shows d k = Present d k × (satisfied shows k ≡ true)

kept-Listed :
    (shows : MigrationResult → TargetState) (d : Directory) (i : Text) (s : Stored)
    (ks : List MigrationResult)
    → All (Listed shows d) ks
    → All (Listed shows (insert i s d)) ks
kept-Listed shows d i s [] h = tt
kept-Listed shows d i s (k ∷ ks) h =
    ((kept-Present d i s k h.0.0, h.0.1), kept-Listed shows d i s ks h.1)

-- A directory of readable journals, each in the file of its own id.
pub record Readable (d : Directory) : Type 0 where
  pub journals : all_journals d ≡ true
  pub named : Named d
  pub unique : Unique d

finished_resolved :
    (message now : Text) (m : MigrationResult)
    → unresolved_journal (finish true message none now m) ≡ false
unfolding text_eq
finished_resolved message now m = refl

completed_journal :
    (d : Directory) (i message now : Text) (m : MigrationResult)
    → is_empty i ≡ false
    → lookup i d ≡ some (journal m)
    → complete_migration d i true message none now true
      ≡ (insert m.id (journal (finish true message none now m)) d, none)
unfolding complete_migration changed load_migration stored_result write_migration
completed_journal d i message now m named at_i =
    rw (complete_migration, changed, load_migration, named, at_i) refl

module _ (shows : MigrationResult → TargetState) (now : Text) where
  abbrev wrote : Text → Bool
  wrote i = true

  shown_step :
      (d next : Directory) (k : MigrationResult) (ks : List MigrationResult)
      → satisfied shows k ≡ true
      → completed_at shows wrote now d k ≡ (next, none)
      → recover_each shows wrote now d (k ∷ ks) ≡ recover_each shows wrote now next ks
  unfolding recover_each
  shown_step d next k ks shown done =
      ap
        (λ (q : Directory × Option MigrationError).
          if satisfied shows k
          then elim q.1 [ some e ↦ (q.0, some e) | none ↦ recover_each shows wrote now q.0 ks ]
          else recover_each shows wrote now d ks)
        done
      ∙ ap
          (λ b.
            if b then recover_each shows wrote now next ks else recover_each shows wrote now d ks)
          shown

  abbrev Ended : Directory × Option MigrationError → Type 0
  Ended r = (r.1 ≡ none) × Readable r.0 × Covered r.0 []

  completes_each :
      (ks : List MigrationResult) (d : Directory)
      → Readable d
      → Covered d ks
      → All (Listed shows d) ks
      → Ended (recover_each shows wrote now d ks)
  unfolding recover_each
  completes_each [] d h c l = (refl, h, c)
  completes_each (k ∷ ks) d h c (((named, s, at_s), shown), later) =
      let (m, at_k) = stored_journal d k.id s h.journals at_s in
      let message = target_message shows wrote now (migration_target_satisfied (shows k) k).1 in
      let closed = finish true message none now m in
      let same : m.id ≡ k.id = lookup-Named d k.id m h.named at_k in
      let done : completed_at shows wrote now d k ≡ (insert k.id (journal closed) d, none) =
        completed_journal d k.id message now m named at_k
        ∙ ap (λ i. (insert i (journal closed) d, none)) same in
      let next : Directory = insert k.id (journal closed) d in
      let ready : Readable next = record {
        journals = insert-journals d k.id closed h.journals;
        named =
            subst (λ i. Named (insert i (journal closed) d)) same (insert-Named d closed h.named);
        unique = insert-Unique d k.id (journal closed) h.unique;
      } in
      let rest =
        completes_each ks next ready
          (insert-Covered d k closed ks h.unique (finished_resolved message now m) c)
          (kept-Listed shows d k.id (journal closed) ks later) in
      subst Ended (sym (shown_step d next k ks shown done)) rest

  -- An unresolved journal of an id that is not empty is one whose target the devices show.
  abbrev pub ShownEntry : Text × Stored → Type 0
  ShownEntry (name, journal m) =
      (is_empty name ≡ false) × ((unresolved_journal m && not (satisfied shows m)) ≡ false)
  ShownEntry (name, damaged) = Unit {0}
  ShownEntry (name, unreadable) = Unit {0}

  behind-Listed :
      (j : Text) (t : Stored) (rest : Directory) (ks : List MigrationResult)
      → lookup j rest ≡ none
      → All (Listed shows rest) ks
      → All (Listed shows ((j, t) ∷ rest)) ks
  unfolding lookup
  behind-Listed j t rest [] free h = tt
  behind-Listed j t rest (k ∷ ks) free (((named, s, at_k), shown), later) = (
    (
      elim (Bool-cases (text_eq j k.id)) [
        | inr other ↦ (named, s, rw other at_k)
        | inl same ↦ absurd (cc (ap (λ i. lookup i rest) (text_eq→≡ j k.id same), free, at_k))
      ],
      shown,
    ),
    behind-Listed j t rest ks free later,
  )

  opened :
      (b : Bool) (m : MigrationResult) (r : Result MigrationError (List MigrationResult))
      (ks : List MigrationResult)
      → with_journal b m r ≡ ok ks
      → (ms : List MigrationResult) × (r ≡ ok ms) × ((if b then m ∷ ms else ms) ≡ ks)
  opened true m (ok ms) ks h = (ms, refl, ok_injective h)
  opened true m (err e) ks h = absurd (no_listing h)
  opened false m (ok ms) ks h = (ms, refl, ok_injective h)
  opened false m (err e) ks h = absurd (no_listing h)

  named_first : (u a b : Bool) → a ≡ true → (u && not (a || b)) ≡ false
  named_first u a b h = ground (arith, h)

  one-Listed :
      (j : Text) (m : MigrationResult) (rest : Directory) (ms : List MigrationResult) (b : Bool)
      → unresolved_journal m ≡ b
      → m.id ≡ j
      → ShownEntry (j, journal m)
      → Covered rest ms
      → All (Listed shows ((j, journal m) ∷ rest)) ms
      → Covered ((j, journal m) ∷ rest) (if b then m ∷ ms else ms)
        × All (Listed shows ((j, journal m) ∷ rest)) (if b then m ∷ ms else ms)
  unfolding lookup
  one-Listed j m rest ms false resolved here entry c l = ((rw resolved refl, c), l)
  one-Listed j m rest ms true left here (named, shown) c l =
      let at_j : text_eq j m.id ≡ true = ap (text_eq j) here ∙ text_eq_refl j in
      let at_id : text_eq m.id j ≡ true = ap (text_eq m.id) (sym here) ∙ text_eq_refl m.id in
      (
        (
          named_first (unresolved_journal m) (text_eq m.id j) (named_in ms j) at_id,
          more-Covered rest m ms c,
        ),
        (((ap is_empty here ∙ named, journal m, rw at_j refl), ground (arith, left, shown)), l),
      )

  incomplete-Covered :
      (d : Directory) (ks : List MigrationResult)
      → Readable d
      → All ShownEntry d
      → incomplete d ≡ ok ks
      → Covered d ks × All (Listed shows d) ks
  unfolding incomplete lookup
  incomplete-Covered [] ks h all found =
      subst (λ l. Unit {0} × All (Listed shows []) l) (ok_injective found) (tt, tt)
  incomplete-Covered ((j, damaged) ∷ rest) ks h all found = absurd (cc h.journals)
  incomplete-Covered ((j, unreadable) ∷ rest) ks h all found = absurd (cc h.journals)
  incomplete-Covered ((j, journal m) ∷ rest) ks h all found =
      let behind : Readable rest = record {
        journals = h.journals;
        named = h.named.1;
        unique = h.unique.1;
      } in
      let (ms, read, same) = opened (is_incomplete m) m (incomplete rest) ks found in
      let (c, l) = incomplete-Covered rest ms behind all.1 read in
      let l' = behind-Listed j (journal m) rest ms h.unique.0 l in
      subst (λ l. Covered ((j, journal m) ∷ rest) l × All (Listed shows ((j, journal m) ∷ rest)) l)
        same
        (one-Listed j m rest ms (is_incomplete m) (sym (is_incomplete-unresolved_journal m))
          h.named.0 all.0 c l')

  none_listed : (ms : List MigrationResult) → some_of ms ≡ false → ms ≡ []
  none_listed [] h = refl
  none_listed (m ∷ ms) h = absurd (cc h)

  Ended-recovered :
      (r : Directory × Option MigrationError)
      → Ended r
      → (recovered shows wrote now r ≡ r) × (any_incomplete r.0 ≡ false)
  unfolding recovered
  Ended-recovered (d, some e) (fine, h, c) = absurd (cc fine)
  Ended-recovered (d, none) (fine, h, c) =
      let closed = Covered-any_incomplete d c in
      let empty : listed d ≡ [] =
        none_listed (listed d) (listed-shown d ∙ rw (h.journals, closed) refl) in
      (rw (recovered, empty) refl, closed)

  -- In a directory of readable journals, each under its own id that is not empty and no name twice, with files
  -- that can be written: if the devices show the target of every unresolved journal, a recovery reports
  -- no error and leaves a directory of readable journals of which none is unresolved.
  pub recovery_completes :
      (d : Directory)
      → Readable d
      → All ShownEntry d
      → let r = recover_interrupted_migrations shows wrote now d in
        (r.1 ≡ none) × (all_journals r.0 ≡ true) × (any_incomplete r.0 ≡ false)
  unfolding recover_interrupted_migrations list_incomplete_migrations
  recovery_completes d h all = elim (Result-cases (incomplete d)) [
    | inr (e, failed) ↦ absurd (cc (sym (incomplete-shown d).1 ∙ ap is_ok failed, h.journals))
    | inl (ms, read) ↦
        let (c, l) = incomplete-Covered d ms h all read in
        let pending = by_start ms in
        let ended =
          completes_each pending d h (by_start-Covered d ms c)
            (by_start-All (Listed shows d) ms l) in
        let r = recover_each shows wrote now d pending in
        let (same, closed) = Ended-recovered r ended in
        let whole : recover_interrupted_migrations shows wrote now d ≡ r =
          rw (recover_interrupted_migrations, list_incomplete_migrations, read) same in
        subst
          (λ (q : Directory × Option MigrationError).
            (q.1 ≡ none) × (all_journals q.0 ≡ true) × (any_incomplete q.0 ≡ false))
          (sym whole) (ended.0, ended.1.journals, closed)
  ]
