-- ===== src/Prelude/Table.antt =====
-- A Go map or `sync.Map`: an association list over keys with a test for equality.
use mathlib.Core.Path.{◌≡◌, refl}
use mathlib.Core.Logic.{◌≢◌, ◌⊎◌}
use mathlib.Core.Bool.{Bool, true, false}
use mathlib.Core.List.{List, [], ◌∷◌}
use mathlib.Core.Option.{Option, none, some}
use native.Mathlib.Omega.{arith}
use carrier.Prelude.Equality.{Eq, ◌==◌, beq_refl}
use carrier.Prelude.Tests.{if◌then◌else◌}

module _ {ℓ} {K V : Type ℓ} ⦃e : Eq K⦄ where
  unfoldable pub load : K → List (K × V) → Option V
  load k [] = none
  load k ((j, v) ∷ m) = if j == k then some v else load k m

  unfoldable pub store : K → V → List (K × V) → List (K × V)
  store k v [] = (k, v) ∷ []
  store k v ((j, w) ∷ m) = if j == k then (k, v) ∷ m else (j, w) ∷ store k v m

  unfoldable pub delete : K → List (K × V) → List (K × V)
  delete k [] = []
  delete k ((j, v) ∷ m) = let rest = delete k m in if j == k then rest else (j, v) ∷ rest

  unfoldable pub has : K → List (K × V) → Bool
  unfolding load
  has k m = elim (load k m) [ none ↦ false | some v ↦ true ]

  pub load-store :
      (k j : K) (v : V) (m : List (K × V))
      → load j (store k v m) ≡ (if k == j then some v else load j m)
  unfolding load store
  load-store k j v [] = refl
  load-store k j v ((i, w) ∷ m) =
      ground (arith, e.equal_iff k j, e.equal_iff i k, e.equal_iff i j, load-store k j v m)

  pub load-delete :
      (k j : K) (m : List (K × V)) → load j (delete k m) ≡ (if k == j then none else load j m)
  unfolding load delete
  load-delete k j [] = ground arith
  load-delete k j ((i, w) ∷ m) =
      ground (arith, e.equal_iff k j, e.equal_iff i k, e.equal_iff i j, load-delete k j m)

  -- Where a table holds something after a write: in the entry written, or where it did before.
  pub load-store_cases :
      (k j : K) (v w : V) (m : List (K × V))
      → load j (store k v m) ≡ some w
      → ((k ≡ j) × (v ≡ w)) ⊎ ((k ≢ j) × (load j m ≡ some w))
  load-store_cases k j v w m h = ground (arith, e.equal_iff k j, load-store k j v m)

  pub load-store_self : (k : K) (v : V) (m : List (K × V)) → load k (store k v m) ≡ some v
  load-store_self k v m = simp (load-store, beq_refl)

  pub load-delete_self : (k : K) (m : List (K × V)) → load k (delete k m) ≡ none
  load-delete_self k m = simp (load-delete, beq_refl)

  pub has-load : (k : K) (m : List (K × V)) → has k m ≡ false → load k m ≡ none
  unfolding has
  has-load k m h = ground arith

  pub has-store :
      (k j : K) (v : V) (m : List (K × V))
      → has j (store k v m) ≡ (if k == j then true else has j m)
  unfolding has
  has-store k j v m = ground (arith, load-store k j v m)

  pub has-delete :
      (k j : K) (m : List (K × V)) → has j (delete k m) ≡ (if k == j then false else has j m)
  unfolding has
  has-delete k j m = ground (arith, load-delete k j m)

  pub has_of_load : (k : K) (m : List (K × V)) {v : V} → load k m ≡ some v → has k m ≡ true
  unfolding has
  has_of_load k m h = ground arith

  pub load_of_has : (k : K) (m : List (K × V)) → has k m ≡ true → (v : V) × (load k m ≡ some v)
  unfolding has
  load_of_has k m h = ground arith

  pub has_of_none : (k : K) (m : List (K × V)) → load k m ≡ none → has k m ≡ false
  unfolding has
  has_of_none k m h = ground arith
