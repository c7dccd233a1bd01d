-- ===== src/Base/Maps.antt =====
-- Go maps as association lists: a key has at most one entry, and `insert` replaces it in place.
use mathlib.Core.Path.{◌≡◌, refl}
use mathlib.Core.Bool.{false}
use mathlib.Core.List.{List, [], ◌∷◌}
use mathlib.Core.Option.{Option, none, some}
use native.Mathlib.Omega.{arith}
use peercast_mi.Base.Tests.{Eq, if◌then◌else◌, beq-cases}
use peercast_mi.Base.Lists.{All}

abbrev pub Map {ℓ κ} : Type ℓ → Type κ → Type (ℓ ⊔ κ)
Map K V = List (K × V)

module _ {ℓ κ} {K : Type ℓ} {V : Type κ} ⦃e : Eq K⦄ where
  unfoldable pub lookup : K → Map K V → Option V
  lookup k [] = none
  lookup k ((j, v) ∷ m) = if e.beq j k then some v else lookup k m

  unfoldable pub insert : K → V → Map K V → Map K V
  insert k v [] = (k, v) ∷ []
  insert k v ((j, w) ∷ m) = if e.beq j k then (k, v) ∷ m else (j, w) ∷ insert k v m

  unfoldable pub delete : K → Map K V → Map K V
  delete k [] = []
  delete k ((j, w) ∷ m) = if e.beq j k then delete k m else (j, w) ∷ delete k m

  pub lookup-insert :
      (j k : K) (v : V) (m : Map K V)
      → lookup j (insert k v m) ≡ (if e.beq k j then some v else lookup j m)
  unfolding lookup insert
  lookup-insert j k v [] = refl
  lookup-insert j k v ((i, w) ∷ m) =
      ground (arith, beq-cases k j, beq-cases i k, beq-cases i j, lookup-insert j k v m)

  pub lookup-delete :
      (j k : K) (m : Map K V) → lookup j (delete k m) ≡ (if e.beq k j then none else lookup j m)
  unfolding lookup delete
  lookup-delete j k [] = ground arith
  lookup-delete j k ((i, w) ∷ m) =
      ground (arith, beq-cases k j, beq-cases i k, beq-cases i j, lookup-delete j k m)

  abbrev pub Absent : K → Map K V → Type 0
  Absent k = All (λ entry. e.beq entry.0 k ≡ false)

  -- What a Go map gives for nothing: no key has two entries.
  abbrev pub UniqueKeys : Map K V → Type 0
  UniqueKeys [] = Unit
  UniqueKeys ((k, v) ∷ m) = Absent k m × UniqueKeys m

  pub lookup-Absent : (k : K) (m : Map K V) → Absent k m → lookup k m ≡ none
  unfolding lookup
  lookup-Absent k [] a = refl
  lookup-Absent k ((j, v) ∷ m) a = rw (a.0) (lookup-Absent k m a.1)

  Absent-insert :
      (j k : K) (v : V) (m : Map K V) → e.beq k j ≡ false → Absent j m → Absent j (insert k v m)
  unfolding insert
  Absent-insert j k v [] ne a = (ne, tt)
  Absent-insert j k v ((i, w) ∷ m) ne a =
      ground (arith, Absent-insert j k v m ne a.1, beq-cases i k)

  Absent-delete : (j k : K) (m : Map K V) → Absent j m → Absent j (delete k m)
  unfolding delete
  Absent-delete j k [] a = tt
  Absent-delete j k ((i, w) ∷ m) a = ground (arith, Absent-delete j k m a.1)

  pub insert-UniqueKeys : (k : K) (v : V) (m : Map K V) → UniqueKeys m → UniqueKeys (insert k v m)
  unfolding insert
  insert-UniqueKeys k v [] u = (tt, tt)
  insert-UniqueKeys k v ((i, w) ∷ m) u =
      ground
        (arith, insert-UniqueKeys k v m u.1, Absent-insert i k v m, beq-cases i k, beq-cases k i)

  pub delete-UniqueKeys : (k : K) (m : Map K V) → UniqueKeys m → UniqueKeys (delete k m)
  unfolding delete
  delete-UniqueKeys k [] u = tt
  delete-UniqueKeys k ((i, w) ∷ m) u =
      ground (arith, delete-UniqueKeys k m u.1, Absent-delete i k m u.0)

-- A lookup in an updated map, by the keys.
pub ruleset map_laws = (lookup-insert, lookup-delete)

module _ {ℓ κ} {K : Type ℓ} {V : Type κ} ⦃e : Eq K⦄ where
  pub Absent-of_lookup : (k : K) (m : Map K V) → lookup k m ≡ none → Absent k m
  unfolding lookup
  Absent-of_lookup k [] h = tt
  Absent-of_lookup k ((j, v) ∷ m) h = ground (arith, Absent-of_lookup k m, h)
