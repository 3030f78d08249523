-- ===== src/Prelude/Map.antt =====
-- Go maps as association lists.
use mathlib.Core.Path.{◌≡◌, refl}
use mathlib.Core.Bool.{Bool}
use mathlib.Core.Option.{Option, none, some}
use mathlib.Core.List.{List, [], ◌∷◌}
use native.Mathlib.Omega.{arith}
use loom.Prelude.Tests.{if◌then◌else◌}
use loom.Prelude.Eq.{Eq, ◌==◌}

abbrev pub Map {ℓ κ} : Type ℓ → Type κ → Type (ℓ ⊔ κ)
Map K V = List (K × V)

module _ {ℓ κ} {K : Type ℓ} {V : Type κ} ⦃e : Eq K⦄ where
  unfoldable pub lookup : K → Map K V → Option V
  lookup key [] = none
  lookup key ((k, v) ∷ rest) = if k == key then some v else lookup key rest

  -- `m[k] = v`
  unfoldable pub insert : K → V → Map K V → Map K V
  insert key v [] = (key, v) ∷ []
  insert key v ((k, old) ∷ rest) =
      if k == key then (key, v) ∷ rest else (k, old) ∷ insert key v rest

  -- `delete(m, k)`
  unfoldable pub delete : K → Map K V → Map K V
  delete k [] = []
  delete k ((j, w) ∷ m) = if j == k then delete k m else (j, w) ∷ delete k m

  -- `delete` of every key that passes a test
  unfoldable pub delete_if : (K → Bool) → Map K V → Map K V
  delete_if p [] = []
  delete_if p ((j, w) ∷ m) = if p j then delete_if p m else (j, w) ∷ delete_if p m

  -- `m[k]`, with the zero value where the key is missing
  unfoldable pub get_or : K → Map K V → V → V
  unfolding lookup
  get_or k m d = elim (lookup k m) [ none ↦ d | some v ↦ v ]

  pub lookup-insert :
      (new k : K) (v : V) (map : Map K V)
      → lookup k (insert new v map) ≡ (if new == k then some v else lookup k map)
  unfolding lookup insert
  lookup-insert new k v [] = refl
  lookup-insert new k v ((i, w) ∷ rest) =
      ground (arith, e.same_iff new k, e.same_iff i new, e.same_iff i k, lookup-insert new k v rest)

  pub lookup-delete :
      (k j : K) (m : Map K V) → lookup j (delete k m) ≡ (if k == j then none else lookup j m)
  unfolding lookup delete
  lookup-delete k j [] = ground arith
  lookup-delete k j ((i, w) ∷ m) =
      ground (arith, e.same_iff k j, e.same_iff i k, e.same_iff i j, lookup-delete k j m)

  pub lookup-delete_if :
      (p : K → Bool) (j : K) (m : Map K V)
      → lookup j (delete_if p m) ≡ (if p j then none else lookup j m)
  unfolding lookup delete_if
  lookup-delete_if p j [] = ground arith
  lookup-delete_if p j ((i, w) ∷ m) = ground (arith, e.same_iff i j, lookup-delete_if p j m)

  pub get_or-cons :
      (k j : K) (v d : V) (m : Map K V)
      → get_or j ((k, v) ∷ m) d ≡ (if k == j then v else get_or j m d)
  unfolding get_or lookup
  get_or-cons k j v d m = ground arith

  pub get_or-insert :
      (k j : K) (v d : V) (m : Map K V)
      → get_or j (insert k v m) d ≡ (if k == j then v else get_or j m d)
  unfolding get_or
  get_or-insert k j v d m = ground (arith, lookup-insert k j v m)
