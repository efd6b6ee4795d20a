-- ===== src/Base/Maps.antt =====
-- A Go map with string keys, as an association list that holds a key once.
use logi_mate.Base.{◌≡◌, refl, Option, none, some, List, [], ◌∷◌, arith, if◌then◌else◌}
use logi_mate.Base.Text.{Text, text_eq, text_eq_refl, text_eq→≡, text_lt}

abbrev pub Map {ℓ} : Type ℓ → Type ℓ
Map V = List (Text × V)

module _ {ℓ} {Value : Type ℓ} where
  unfoldable pub lookup : Text → Map Value → Option Value
  lookup wanted [] = none
  lookup wanted ((name, value) ∷ rest) =
      let below = lookup wanted rest in if text_eq name wanted then some value else below

  unfoldable pub insert : Text → Value → Map Value → Map Value
  insert name value [] = (name, value) ∷ []
  insert name value ((old_name, old_value) ∷ rest) =
      let below = insert name value rest in
      if text_eq old_name name then (name, value) ∷ rest else (old_name, old_value) ∷ below

  pub lookup-insert :
      (name wanted : Text) (value : Value) (entries : Map Value)
      → lookup wanted (insert name value entries)
        ≡ (if text_eq name wanted then some value else lookup wanted entries)
  unfolding lookup insert
  lookup-insert name wanted value [] = refl
  lookup-insert name wanted value ((old_name, old_value) ∷ rest) =
      let below = lookup-insert name wanted value rest in
      ground (
        arith,
        text_eq→≡ name wanted,
        text_eq→≡ old_name name,
        text_eq→≡ old_name wanted,
        text_eq_refl name,
        text_eq_refl wanted,
        below,
      )

  -- The entry in the place that its key gives it.
  unfoldable pub insert_sorted : Text → Value → Map Value → Map Value
  insert_sorted k v [] = (k, v) ∷ []
  insert_sorted k v ((j, w) ∷ m) =
      let later = insert_sorted k v m in if text_lt j k then (j, w) ∷ later else (k, v) ∷ (j, w) ∷ m

  -- The entries by ascending key, as after sort.Strings on the keys.
  unfoldable pub sorted : Map Value → Map Value
  unfolding insert_sorted
  sorted [] = []
  sorted ((k, v) ∷ m) = insert_sorted k v (sorted m)
