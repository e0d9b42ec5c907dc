-- ===== src/Prelude/Maps.antt =====
-- The standard library's hash maps, as association lists: the programs never rely on their order.
use mathlib.Core.Path.{◌≡◌, refl}
use mathlib.Core.Option.{Option, none, some}
use mathlib.Core.List.{List, [], ◌∷◌}
use native.Mathlib.Omega.{arith}
use borsa.Prelude.Tests.{if◌then◌else◌}
use borsa.Prelude.Compare.{Eq, eq}

module _ {ℓ κ} {K : Type ℓ} {V : Type κ} ⦃e : Eq K⦄ where
  unfoldable pub get : List (K × V) → K → Option V
  get [] k = none
  get ((j, v) ∷ m) k = if eq j k then some v else get m k

  unfoldable pub insert : K → V → List (K × V) → List (K × V)
  insert k v [] = (k, v) ∷ []
  insert k v ((j, w) ∷ m) = if eq j k then (k, v) ∷ m else (j, w) ∷ insert k v m

  pub get-insert :
      (k : K) (v : V) (m : List (K × V)) (j : K)
      → get (insert k v m) j ≡ (if eq k j then some v else get m j)
  unfolding get insert
  get-insert k v [] j = refl
  get-insert k v ((i, w) ∷ m) j =
      ground (arith, e.beq_iff k j, e.beq_iff i k, e.beq_iff i j, get-insert k v m j)

  unfoldable pub remove : K → List (K × V) → List (K × V)
  remove k [] = []
  remove k ((j, v) ∷ m) = if eq j k then remove k m else (j, v) ∷ remove k m

  pub get-remove :
      (k : K) (m : List (K × V)) (j : K) → get (remove k m) j ≡ (if eq k j then none else get m j)
  unfolding get remove
  get-remove k [] j = ground arith
  get-remove k ((i, w) ∷ m) j =
      ground (arith, e.beq_iff k j, e.beq_iff i k, e.beq_iff i j, get-remove k m j)
