-- ===== src/Prelude/Dict.antt =====
-- A Go map with string keys, as an association list.
use mathlib.Core.Path.{◌≡◌, refl}
use mathlib.Core.Bool.{Bool}
use mathlib.Core.List.{List, [], ◌∷◌}
use mathlib.Core.Option.{Option, none, some}
use native.Mathlib.Omega.{arith}
use authpad.Prelude.Tests.{if◌then◌else◌}
use authpad.Prelude.Strings.{Text, text_eq, text_eq_iff}

abbrev pub Dict : Type 0 → Type 0
Dict V = List (Text × V)

module _ {V : Type 0} where
  -- `m[k]`
  unfoldable pub lookup : Text → Dict V → Option V
  lookup k [] = none
  lookup k ((j, v) ∷ m) = if text_eq j k then some v else lookup k m

  -- `m[k] = v`
  unfoldable pub insert : Text → V → Dict V → Dict V
  insert k v [] = (k, v) ∷ []
  insert k v ((j, w) ∷ m) = if text_eq j k then (k, v) ∷ m else (j, w) ∷ insert k v m

  -- `delete(m, k)` for every entry that fails the test.
  unfoldable pub retain : (V → Bool) → Dict V → Dict V
  retain p [] = []
  retain p ((j, v) ∷ m) = if p v then (j, v) ∷ retain p m else retain p m

  -- No key is listed twice, as in every Go map.
  abbrev pub HasUniqueKeys : Dict V → Type 0
  HasUniqueKeys [] = Unit
  HasUniqueKeys ((j, v) ∷ m) = (lookup j m ≡ none) × HasUniqueKeys m

  pub lookup-insert :
      (k j : Text) (v : V) (m : Dict V)
      → lookup j (insert k v m) ≡ (if text_eq k j then some v else lookup j m)
  unfolding lookup insert
  lookup-insert k j v [] = refl
  lookup-insert k j v ((i, w) ∷ m) =
      ground (arith, text_eq_iff k j, text_eq_iff i k, text_eq_iff i j, lookup-insert k j v m)

  -- An entry is found after `retain` if it passes the test.
  abbrev pub kept : (V → Bool) → Option V → Option V
  kept p none = none
  kept p (some v) = if p v then some v else none

  pub lookup-retain :
      (p : V → Bool) (k : Text) (m : Dict V)
      → HasUniqueKeys m
      → lookup k (retain p m) ≡ kept p (lookup k m)
  unfolding lookup retain
  lookup-retain p k [] h = refl
  lookup-retain p k ((j, v) ∷ m) h = ground (arith, text_eq_iff j k, lookup-retain p k m h.1)

  pub insert-HasUniqueKeys :
      (k : Text) (v : V) (m : Dict V) → HasUniqueKeys m → HasUniqueKeys (insert k v m)
  unfolding lookup insert
  insert-HasUniqueKeys k v [] h = (refl, tt)
  insert-HasUniqueKeys k v ((j, w) ∷ m) h = ground (
    arith,
    text_eq_iff j k,
    text_eq_iff k j,
    lookup-insert k j v m,
    insert-HasUniqueKeys k v m h.1,
  )

  pub retain-HasUniqueKeys :
      (p : V → Bool) (m : Dict V) → HasUniqueKeys m → HasUniqueKeys (retain p m)
  unfolding retain
  retain-HasUniqueKeys p [] h = tt
  retain-HasUniqueKeys p ((j, v) ∷ m) h =
      ground (arith, lookup-retain p j m h.1, retain-HasUniqueKeys p m h.1)
