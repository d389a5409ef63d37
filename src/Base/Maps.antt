-- ===== src/Base/Maps.antt =====
-- A Go map with string keys as an association list: each key stands in it once.
use mathlib.Core.Path.{◌≡◌, refl}
use mathlib.Core.Bool.{false}
use mathlib.Core.Option.{Option, none, some}
use mathlib.Core.List.{List, [], ◌∷◌}
use native.Mathlib.Omega.{arith}
use go_amizone.Base.Tests.{if◌then◌else◌}
use go_amizone.Base.Texts.{Text, text_eq, text_eq_iff}

abbrev pub Map {ℓ} : Type ℓ → Type ℓ
Map V = List (Text × V)

module _ {ℓ} {V : Type ℓ} where
  -- `v, ok := m[k]`
  unfoldable pub lookup : Text → Map V → Option V
  lookup k [] = none
  lookup k ((j, v) ∷ m) = if text_eq j k then some v else lookup k m

  -- `m[k] = v`
  unfoldable pub insert : Text → V → Map V → Map V
  insert k v [] = (k, v) ∷ []
  insert k v ((j, w) ∷ m) = if text_eq j k then (j, v) ∷ m else (j, w) ∷ insert k v m

  -- `delete(m, k)`
  unfoldable pub delete : Text → Map V → Map V
  delete k [] = []
  delete k ((j, w) ∷ m) = if text_eq j k then delete k m else (j, w) ∷ delete k m

  -- No entry has the key `k`.
  abbrev pub IsAbsent : Text → Map V → Type 0
  IsAbsent k [] = Unit
  IsAbsent k ((j, w) ∷ m) = (text_eq j k ≡ false) × IsAbsent k m

  -- Each key stands in the map once.
  abbrev pub HasUniqueKeys : Map V → Type 0
  HasUniqueKeys [] = Unit
  HasUniqueKeys ((j, w) ∷ m) = IsAbsent j m × HasUniqueKeys m

  pub lookup-insert :
      (k j : Text) (v : V) (m : Map V)
      → lookup j (insert k v m) ≡ (if text_eq k j then some v else lookup j m)
  unfolding lookup insert
  lookup-insert k j v [] = refl
  lookup-insert k j v ((i, w) ∷ m) =
      ground (arith, text_eq_iff k j, text_eq_iff i k, text_eq_iff i j, lookup-insert k j v m)

  pub lookup-delete :
      (k j : Text) (m : Map V) → lookup j (delete k m) ≡ (if text_eq k j then none else lookup j m)
  unfolding lookup delete
  lookup-delete k j [] = ground arith
  lookup-delete k j ((i, w) ∷ m) =
      ground (arith, text_eq_iff k j, text_eq_iff i k, text_eq_iff i j, lookup-delete k j m)

  pub lookup_of_IsAbsent : (k : Text) (m : Map V) → IsAbsent k m → lookup k m ≡ none
  unfolding lookup
  lookup_of_IsAbsent k [] h = refl
  lookup_of_IsAbsent k ((j, w) ∷ m) h = ground (arith, lookup_of_IsAbsent k m h.1)

  insert-IsAbsent :
      (k j : Text) (v : V) (m : Map V)
      → text_eq k j ≡ false
      → IsAbsent j m
      → IsAbsent j (insert k v m)
  unfolding insert
  insert-IsAbsent k j v [] e h = (e, tt)
  insert-IsAbsent k j v ((i, w) ∷ m) e h = ground (arith, insert-IsAbsent k j v m e h.1)

  pub insert-HasUniqueKeys :
      (k : Text) (v : V) (m : Map V) → HasUniqueKeys m → HasUniqueKeys (insert k v m)
  unfolding insert
  insert-HasUniqueKeys k v [] h = (tt, tt)
  insert-HasUniqueKeys k v ((i, w) ∷ m) h = ground (
    arith,
    text_eq_iff i k,
    text_eq_iff k i,
    insert-IsAbsent k i v m,
    insert-HasUniqueKeys k v m h.1,
  )

  delete-IsAbsent : (k j : Text) (m : Map V) → IsAbsent j m → IsAbsent j (delete k m)
  unfolding delete
  delete-IsAbsent k j [] h = tt
  delete-IsAbsent k j ((i, w) ∷ m) h = ground (arith, delete-IsAbsent k j m h.1)

  pub delete-HasUniqueKeys : (k : Text) (m : Map V) → HasUniqueKeys m → HasUniqueKeys (delete k m)
  unfolding delete
  delete-HasUniqueKeys k [] h = tt
  delete-HasUniqueKeys k ((i, w) ∷ m) h =
      ground (arith, delete-IsAbsent k i m h.0, delete-HasUniqueKeys k m h.1)
