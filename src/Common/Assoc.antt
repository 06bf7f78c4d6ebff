-- ===== src/Common/Assoc.antt =====
-- A `Map`: its entries in the order in which the keys were first set.
use mathlib.Core.Path.{◌≡◌, refl}
use mathlib.Core.Option.{Option, none, some}
use mathlib.Core.List.{List, [], ◌∷◌}
use native.Mathlib.Omega.{arith}
use apex_vnext.Common.Tests.{Eq, ◌==◌, if◌then◌else◌}

module _ {ℓ} {K V : Type ℓ} ⦃e : Eq K⦄ where
  -- `map.get(key)`.
  unfoldable pub get : List (K × V) → K → Option V
  get [] key = none
  get ((k, v) ∷ m) key = if k == key then some v else get m key

  -- `map.set(key, value)`: a key that is there keeps its place.
  unfoldable pub put : List (K × V) → K → V → List (K × V)
  put [] key value = (key, value) ∷ []
  put ((k, v) ∷ m) key value =
      let rest = put m key value in if k == key then (key, value) ∷ m else (k, v) ∷ rest

  pub get-put :
      (m : List (K × V)) (key : K) (value : V) (j : K)
      → get (put m key value) j ≡ (if key == j then some value else get m j)
  unfolding get put
  get-put [] key value j = refl
  get-put ((k, v) ∷ m) key value j =
      ground (arith, e.beq_iff k key, e.beq_iff k j, e.beq_iff key j, get-put m key value j)
