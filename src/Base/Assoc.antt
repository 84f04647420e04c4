-- ===== src/Base/Assoc.antt =====
-- Go maps as association lists over keys with decidable equality. A write keeps the place of a
-- key that is there; the order of the list stands for one of the orders in which Go may range.
use mathlib.Core.Logic.{ite}
use mathlib.Core.List.{List, [], ◌∷◌}
use mathlib.Core.Option.{Option, none, some}
use mathlib.Core.Path.{◌≡◌, refl}
use native.Mathlib.Omega.{arith}

module _ {ℓ} {K V : Type ℓ} (dec : Discrete K) where
  unfoldable pub lookup : K → List (K × V) → Option V
  lookup k [] = none
  lookup k ((j, v) ∷ m) = ite (dec j k) (some v) (lookup k m)

  unfoldable pub insert : K → V → List (K × V) → List (K × V)
  insert k v [] = (k, v) ∷ []
  insert k v ((j, w) ∷ m) = ite (dec j k) ((j, v) ∷ m) ((j, w) ∷ insert k v m)

  pub lookup-insert :
      (k j : K) (v : V) (m : List (K × V))
      → lookup j (insert k v m) ≡ ite (dec k j) (some v) (lookup j m)
  unfolding lookup insert
  lookup-insert k j v [] = refl
  lookup-insert k j v ((i, w) ∷ m) = ground (arith, lookup-insert k j v m)

  -- No key stands twice.
  abbrev pub UniqueKeys : List (K × V) → Type ℓ
  UniqueKeys [] = Unit
  UniqueKeys ((k, v) ∷ m) = (lookup k m ≡ none) × UniqueKeys m

  pub insert-UniqueKeys :
      (k : K) (v : V) (m : List (K × V)) → UniqueKeys m → UniqueKeys (insert k v m)
  unfolding lookup insert
  insert-UniqueKeys k v [] u = (refl, tt)
  insert-UniqueKeys k v ((j, w) ∷ m) u =
      ground (arith, insert-UniqueKeys k v m u.1, lookup-insert k j v m)
