-- ===== src/InputProfiles/Carry.antt =====
-- internal/system/pedals_windows.go, MigratePedalMappingsWheelID: the pedals of a wheel under its new
-- identity. The keys that the loop meets, in its order, are an argument.
use logi_mate.Base.{
  ◌⊎◌, ◌≡◌, refl, subst, ◌∙◌, sym, ap, inl, inr, Bool, true, false, not, ◌||◌, Bool-cases, Option,
  none, some, Option-cases, List, [], ◌∷◌, ◌++◌, length, drop, if◌then◌else◌,
}
use logi_mate.Base.Results.{ok, err}
use logi_mate.Base.Text.{Text, text_eq, text_eq→≡, text_eq_refl, is_empty, to_lower, has_prefix}
use logi_mate.Base.Maps.{Map, lookup, insert, lookup-insert}
use logi_mate.InputProfiles.{ProfileError}
use logi_mate.InputProfiles.Pedals.{PedalMapping, StoredPedals, after_write, pedal_device_prefix}

module _ (old new : Text) where
  -- The key of the new identity for a key of the old one.
  abbrev pub carried_key : Text → Text
  carried_key key = new ++ drop (length old) key

  -- The map after one key of the loop, and whether it has changed.
  unfoldable pub carry_one : Map PedalMapping → Text → Map PedalMapping × Bool
  unfolding lookup insert has_prefix
  carry_one all key =
      if not (has_prefix (to_lower key) old)
      then (all, false)
      else elim (lookup (carried_key key) all) [
        | some m ↦ (all, false)
        | none ↦ elim (lookup key all) [
          | some m ↦ (insert (carried_key key) m all, true)
          | none ↦ (all, false)
        ]
      ]

  unfoldable pub carry_all : Map PedalMapping → List Text → Map PedalMapping × Bool
  unfolding carry_one
  carry_all all [] = (all, false)
  carry_all all (key ∷ keys) =
      let next = carry_one all key in let rest = carry_all next.0 keys in (rest.0, next.1 || rest.1)

  abbrev pub Kept : Map PedalMapping → Map PedalMapping → Type 0
  Kept all later =
      (key : Text) (m : PedalMapping) → lookup key all ≡ some m → lookup key later ≡ some m

  -- A key of the old identity, and the key with the same rest under the new one.
  abbrev pub Renames : Text → Text → Type 0
  Renames from key = (has_prefix (to_lower from) old ≡ true) × (key ≡ new ++ drop (length old) from)

  -- Each entry was there, or is a copy of one of the old identity, under the key with the same rest.
  abbrev pub Copies : Map PedalMapping → Map PedalMapping → Type 0
  Copies all later =
      (key : Text) (m : PedalMapping)
      → lookup key later ≡ some m
      → (lookup key all ≡ some m)
        ⊎ ((from : Text) × Renames from key × (lookup from later ≡ some m))

  abbrev pub NoneNew : Map PedalMapping → Map PedalMapping → Type 0
  NoneNew all later =
      (key : Text) (m : PedalMapping)
      → lookup key later ≡ some m
      → (k : Text) × (lookup k all ≡ some m)

  -- An entry of a map has one under the new identity.
  abbrev pub Reached : Map PedalMapping → Text → Type 0
  Reached all key = (m : PedalMapping) × (lookup (new ++ drop (length old) key) all ≡ some m)

  -- Of a key that the loop meets, if it is an entry of the old identity.
  abbrev pub Met : Map PedalMapping → Map PedalMapping → List Text → Type 0
  Met all later [] = Unit
  Met all later (key ∷ keys) =
      ((m : PedalMapping)
        → lookup key all ≡ some m
        → has_prefix (to_lower key) old ≡ true
        → Reached later key)
      × Met all later keys

  -- Entries are kept, those that come are copies under the same rest of the key, and each entry met has
  -- one under the new identity.
  pub record Carried (all later : Map PedalMapping) (keys : List Text) : Type 0 where
    pub kept : Kept all later
    pub none_new : NoneNew all later
    pub copies : Copies all later
    pub met : Met all later keys

  inserted_at :
      (name : Text) (n : PedalMapping) (all : Map PedalMapping)
      → lookup name (insert name n all) ≡ some n
  inserted_at name n all = rw (lookup-insert name name n all, text_eq_refl name) refl

  inserted-kept :
      (all : Map PedalMapping) (name : Text) (n : PedalMapping)
      → lookup name all ≡ none
      → Kept all (insert name n all)
  inserted-kept all name n free k m at_k = elim (Bool-cases (text_eq name k)) [
    | inl same ↦ absurd (cc (sym (ap (λ t. lookup t all) (text_eq→≡ name k same)) ∙ free, at_k))
    | inr other ↦
        lookup-insert name k n all ∙ ap (λ b. if b then some n else lookup k all) other ∙ at_k
  ]

  inserted-NoneNew :
      (all : Map PedalMapping) (name from : Text) (n : PedalMapping)
      → lookup from all ≡ some n
      → NoneNew all (insert name n all)
  inserted-NoneNew all name from n at_from k m at_k = elim (Bool-cases (text_eq name k)) [
    | inl same ↦ (
      from,
      at_from
          ∙ (sym (lookup-insert name k n all ∙ ap (λ b. if b then some n else lookup k all) same)
              ∙ at_k),
    )
    | inr other ↦ (
      k,
      sym (lookup-insert name k n all ∙ ap (λ b. if b then some n else lookup k all) other) ∙ at_k,
    )
  ]

  inserted-Copies :
      (all : Map PedalMapping) (from : Text) (n : PedalMapping)
      → has_prefix (to_lower from) old ≡ true
      → lookup (carried_key from) all ≡ none
      → lookup from all ≡ some n
      → Copies all (insert (carried_key from) n all)
  inserted-Copies all from n mine free at_from k m at_k =
      let name = carried_key from in
      let read = lookup-insert name k n all in
      elim (Bool-cases (text_eq name k)) [
        | inl same ↦
            let value : some n ≡ some m =
              sym (read ∙ ap (λ b. if b then some n else lookup k all) same) ∙ at_k in
            inr (
              from,
              (mine, sym (text_eq→≡ name k same)),
              inserted-kept all name n free from n at_from ∙ value,
            )
        | inr other ↦ inl (sym (read ∙ ap (λ b. if b then some n else lookup k all) other) ∙ at_k)
      ]

  Copies-after :
      (all next later : Map PedalMapping)
      → Kept next later
      → Copies all next
      → Copies next later
      → Copies all later
  Copies-after all next later kept first second k m at_k = elim (second k m at_k) [
    | inr copy ↦ inr copy
    | inl at_next ↦ elim (first k m at_next) [
      | inl at_all ↦ inl at_all
      | inr (from, renames, at_from) ↦ inr (from, renames, kept from m at_from)
    ]
  ]

  -- What one key of the loop does.
  record One (all later : Map PedalMapping) (key : Text) : Type 0 where
    kept : Kept all later
    none_new : NoneNew all later
    copies : Copies all later
    reached :
        (m : PedalMapping)
        → lookup key all ≡ some m
        → has_prefix (to_lower key) old ≡ true
        → Reached later key

  carry_one-One : (all : Map PedalMapping) (key : Text) → One all (carry_one all key).0 key
  unfolding carry_one
  carry_one-One all key = elim (Bool-cases (has_prefix (to_lower key) old)) [
    | inr other ↦ rw other (record {
      kept = λ k m e. e;
      none_new = λ k m e. (k, e);
      copies = λ k m e. inl e;
      reached = λ m e mine. absurd (cc (mine, other));
    })
    | inl mine ↦ elim (Option-cases (lookup (carried_key key) all)) [
      | inr (n, taken) ↦
          rw (mine, taken)
            (record {
              kept = λ k m e. e;
              none_new = λ k m e. (k, e);
              copies = λ k m e. inl e;
              reached = λ m e mine'. (n, taken);
            })
      | inl free ↦ elim (Option-cases (lookup key all)) [
        | inl absent ↦
            rw (mine, free, absent)
              (record {
                kept = λ k m e. e;
                none_new = λ k m e. (k, e);
                copies = λ k m e. inl e;
                reached = λ m e mine'. absurd (cc (absent, e));
              })
        | inr (n, present) ↦
            rw (mine, free, present)
              (record {
                kept = inserted-kept all (carried_key key) n free;
                none_new = inserted-NoneNew all (carried_key key) key n present;
                copies = inserted-Copies all key n mine free present;
                reached = λ m e mine'. (n, inserted_at (carried_key key) n all);
              })
      ]
    ]
  ]

  Met-back :
      (all next later : Map PedalMapping) (keys : List Text)
      → Kept all next
      → Met next later keys
      → Met all later keys
  Met-back all next later [] kept met = tt
  Met-back all next later (key ∷ keys) kept met =
      (λ m at_key mine. met.0 m (kept key m at_key) mine, Met-back all next later keys kept met.1)

  pub carry_all-Carried :
      (all : Map PedalMapping) (keys : List Text) → Carried all (carry_all all keys).0 keys
  unfolding carry_all
  carry_all-Carried all [] = record {
    kept = λ k m e. e;
    none_new = λ k m e. (k, e);
    copies = λ k m e. inl e;
    met = tt;
  }
  carry_all-Carried all (key ∷ keys) =
      let next = (carry_one all key).0 in
      let first = carry_one-One all key in
      let rest = carry_all-Carried next keys in
      record {
        kept = λ k m e. rest.kept k m (first.kept k m e);
        none_new = λ k m e. let (j, at_j) = rest.none_new k m e in first.none_new j m at_j;
        copies = Copies-after all next (carry_all next keys).0 rest.kept first.copies rest.copies;
        met = (
          λ m at_key mine.
              let (n, at_n) = first.reached m at_key mine in
              (n, rest.kept (carried_key key) n at_n),
          Met-back all next (carry_all next keys).0 keys first.kept rest.met,
        );
      }

  one_same :
      (all : Map PedalMapping) (key : Text)
      → (carry_one all key).1 ≡ false
      → (carry_one all key).0 ≡ all
  unfolding carry_one
  one_same all key unchanged = elim (Bool-cases (has_prefix (to_lower key) old)) [
    | inr other ↦ rw other refl
    | inl mine ↦ elim (Option-cases (lookup (carried_key key) all)) [
      | inr (n, taken) ↦ rw (mine, taken) refl
      | inl free ↦ elim (Option-cases (lookup key all)) [
        | inl absent ↦ rw (mine, free, absent) refl
        | inr (n, present) ↦ absurd (cc (rw (mine, free, present, carry_one) at unchanged))
      ]
    ]
  ]

  all_same :
      (all : Map PedalMapping) (keys : List Text)
      → (carry_all all keys).1 ≡ false
      → (carry_all all keys).0 ≡ all
  unfolding carry_all
  all_same all [] unchanged = refl
  all_same all (key ∷ keys) unchanged = elim (Bool-cases (carry_one all key).1) [
    | inl changed ↦ absurd (cc (rw changed at unchanged))
    | inr first ↦
        let same = one_same all key first in
        let rest : (carry_all (carry_one all key).0 keys).1 ≡ false = rw first at unchanged in
        all_same (carry_one all key).0 keys rest ∙ same
  ]

-- The file after the loop, written if it has changed.
unfoldable pub migrate_between :
    StoredPedals → Text → Text → List Text → Bool → StoredPedals × Option ProfileError
unfolding carry_all
migrate_between (err e) old new keys writes = (err e, some e)
migrate_between (ok none) old new keys writes = (ok none, none)
migrate_between (ok (some all)) old new keys writes =
    let (later, changed) = carry_all old new all keys in
    if changed then after_write (ok (some all)) later writes else (ok (some all), none)

unfoldable pub migrate_pedal_mappings_wheel_id :
    StoredPedals → Text → Text → List Text → Bool → StoredPedals × Option ProfileError
unfolding migrate_between pedal_device_prefix text_eq
migrate_pedal_mappings_wheel_id stored old_id new_id keys writes =
    let old = pedal_device_prefix old_id in
    let new = pedal_device_prefix new_id in
    if is_empty old || (is_empty new || text_eq old new)
    then (stored, none)
    else migrate_between stored old new keys writes

between-Carried :
    (all : Map PedalMapping) (old new : Text) (keys : List Text) (writes : Bool)
    → (migrate_between (ok (some all)) old new keys writes).1 ≡ none
    → (later : Map PedalMapping) × ((migrate_between (ok (some all)) old new keys writes).0
        ≡ ok (some later))
      × Carried old new all later keys
unfolding migrate_between
between-Carried all old new keys writes fine =
    let carried = carry_all-Carried old new all keys in
    elim (Bool-cases (carry_all old new all keys).1) [
      | inr unchanged ↦ (
        all,
        rw unchanged refl,
        subst (λ l. Carried old new all l keys) (all_same old new all keys unchanged) carried,
      )
      | inl changed ↦ elim (Bool-cases writes) [
        | inl written ↦ ((carry_all old new all keys).0, rw (changed, written) refl, carried)
        | inr failed ↦ absurd (cc (rw (changed, failed, migrate_between) at fine))
      ]
    ]

-- The migration of the pedals between two different identities that are not blank, when it reports no
-- error: every mapping keeps its key and stays as it is; each mapping of the file after it was in the file
-- before, under the same key, or is that of a key of the old identity with the same rest; and each mapping
-- of the old identity that the loop meets has one under its key with the new identity in front.
pub migrate_pedals-Carried :
    (all : Map PedalMapping) (old_id new_id : Text) (keys : List Text) (writes : Bool)
    → is_empty (pedal_device_prefix old_id) ≡ false
    → is_empty (pedal_device_prefix new_id) ≡ false
    → text_eq (pedal_device_prefix old_id) (pedal_device_prefix new_id) ≡ false
    → (migrate_pedal_mappings_wheel_id (ok (some all)) old_id new_id keys writes).1 ≡ none
    → (later : Map PedalMapping) × ((migrate_pedal_mappings_wheel_id
          (ok (some all))
          old_id
          new_id
          keys
          writes).0
        ≡ ok (some later))
      × Carried (pedal_device_prefix old_id) (pedal_device_prefix new_id) all later keys
unfolding migrate_pedal_mappings_wheel_id
migrate_pedals-Carried all old_id new_id keys writes old new apart fine =
    let fine' = rw (old, new, apart, migrate_pedal_mappings_wheel_id) at fine in
    rw (old, new, apart)
      (between-Carried all (pedal_device_prefix old_id) (pedal_device_prefix new_id) keys writes
        fine')
