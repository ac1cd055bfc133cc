-- ===== src/Base/Maps.antt =====
-- Go's maps and sync.Map, as association lists in the order in which a range visits the entries.
use mathlib.Core.Path.{◌≡◌}
use mathlib.Core.Bool.{Bool}
use mathlib.Core.Option.{Option, none, some}
use mathlib.Core.List.{List, [], ◌∷◌}
use native.Mathlib.Omega.{arith}
use amf_cdac.Base.Tests.{if◌then◌else◌}
use amf_cdac.Base.Equality.{Eq, ◌==◌}

abbrev pub Map {ℓ κ} : Type ℓ → Type κ → Type (ℓ ⊔ κ)
Map K V = List (K × V)

module _ {ℓ κ} {K : Type ℓ} {V : Type κ} ⦃e : Eq K⦄ where
  -- m.Load(k), m[k]
  unfoldable pub load : Map K V → K → Option V
  load [] k = none
  load ((j, v) ∷ m) k = if j == k then some v else load m k

  -- m.Delete(k), delete(m, k)
  unfoldable pub delete : Map K V → K → Map K V
  delete [] k = []
  delete ((j, v) ∷ m) k = let rest = delete m k in if j == k then rest else (j, v) ∷ rest

  -- m.Store(k, v), m[k] = v
  unfoldable pub store : Map K V → K → V → Map K V
  unfolding delete
  store m k v = (k, v) ∷ delete m k

  pub load-delete :
      (m : Map K V) (k j : K) → load (delete m k) j ≡ (if k == j then none else load m j)
  unfolding load delete
  load-delete [] k j = ground arith
  load-delete ((i, v) ∷ m) k j =
      ground (arith, e.beq_iff i k, e.beq_iff i j, e.beq_iff k j, load-delete m k j)

  pub load-store :
      (m : Map K V) (k j : K) (v : V) → load (store m k v) j ≡ (if k == j then some v else load m j)
  unfolding load store
  load-store m k j v = ground (arith, load-delete m k j)

-- m.Range with a callback that stops at the first value that passes the test.
module _ {ℓ κ} {K : Type ℓ} {V : Type κ} where
  unfoldable pub range_find : (V → Bool) → Map K V → Option V
  range_find p [] = none
  range_find p ((k, v) ∷ m) = if p v then some v else range_find p m
