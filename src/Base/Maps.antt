-- ===== src/Base/Maps.antt =====
-- Go's `map` and `sync.Map`, as association lists. The order of the list is the order in which a
-- `range` meets the entries; Go fixes none, so what is proved holds for every order.
use mathlib.Core.Path.{◌≡◌, refl}
use mathlib.Core.Option.{Option, none, some}
use mathlib.Core.List.{List, [], ◌∷◌}
use native.Mathlib.Omega.{arith}
use ccaa.Base.Tests.{if◌then◌else◌}
use ccaa.Base.Equality.{Comparable, ◌==◌}

abbrev pub Assoc {ℓ κ} : Type ℓ → Type κ → Type (ℓ ⊔ κ)
Assoc K V = List (K × V)

module _ {ℓ κ} {K : Type ℓ} {V : Type κ} ⦃e : Comparable K⦄ where
  unfoldable pub load : K → Assoc K V → Option V
  load k [] = none
  load k ((j, v) ∷ m) = if j == k then some v else load k m

  unfoldable pub store : K → V → Assoc K V → Assoc K V
  store k v [] = (k, v) ∷ []
  store k v ((j, w) ∷ m) = if j == k then (j, v) ∷ m else (j, w) ∷ store k v m

  unfoldable pub delete : K → Assoc K V → Assoc K V
  delete k [] = []
  delete k ((j, w) ∷ m) = if j == k then delete k m else (j, w) ∷ delete k m

  pub load-store :
      (k j : K) (v : V) (m : Assoc K V)
      → load j (store k v m) ≡ (if k == j then some v else load j m)
  unfolding load store
  load-store k j v [] = refl
  load-store k j v ((i, w) ∷ m) =
      ground (arith, e.same_iff k j, e.same_iff i k, e.same_iff i j, load-store k j v m)

  pub load-delete :
      (k j : K) (m : Assoc K V) → load j (delete k m) ≡ (if k == j then none else load j m)
  unfolding load delete
  load-delete k j [] = ground arith
  load-delete k j ((i, w) ∷ m) =
      ground (arith, e.same_iff k j, e.same_iff i k, e.same_iff i j, load-delete k j m)
