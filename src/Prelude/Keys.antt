-- ===== src/Prelude/Keys.antt =====
-- The keys of an association list.
use mathlib.Core.Path.{◌≡◌, refl, sym, ap, ◌∙◌}
use mathlib.Core.Logic.{inl, inr}
use mathlib.Core.Bool.{true, false, ◌||◌}
use mathlib.Core.Option.{some}
use mathlib.Core.List.{List, [], ◌∷◌}
use native.Mathlib.Omega.{arith}
use loom.Prelude.Tests.{if◌then◌else◌, Bool-cases}
use loom.Prelude.Eq.{Eq, ◌==◌}
use loom.Prelude.Map.{Map, lookup, insert, delete}
use loom.Prelude.Distinct.{contains, Distinct}

module _ {ℓ κ} {K : Type ℓ} {V : Type κ} ⦃e : Eq K⦄ where
  abbrev pub keys : Map K V → List K
  keys [] = []
  keys ((k, v) ∷ m) = k ∷ keys m

  contains-keys-insert :
      (k j : K) (v : V) (m : Map K V)
      → contains j (keys (insert k v m)) ≡ (k == j) || contains j (keys m)
  unfolding insert
  contains-keys-insert k j v [] = refl
  contains-keys-insert k j v ((i, w) ∷ m) =
      ground (arith, e.same_iff i k, e.same_iff i j, e.same_iff k j, contains-keys-insert k j v m)

  contains-keys-delete :
      (k j : K) (m : Map K V)
      → contains j (keys (delete k m)) ≡ (if k == j then false else contains j (keys m))
  unfolding delete
  contains-keys-delete k j [] = ground arith
  contains-keys-delete k j ((i, w) ∷ m) =
      ground (arith, e.same_iff i k, e.same_iff i j, e.same_iff k j, contains-keys-delete k j m)

  pub insert-Distinct :
      (k : K) (v : V) (m : Map K V) → Distinct (keys m) → Distinct (keys (insert k v m))
  unfolding insert
  insert-Distinct k v [] d = (refl, d)
  insert-Distinct k v ((i, w) ∷ m) d = elim (Bool-cases (i == k)) [
    | inl same ↦
        let eq : i ≡ k = (e.same_iff i k).0 same in
        rw same (ap (λ x. contains x (keys m)) (sym eq) ∙ d.0, d.1)
    | inr other ↦ rw other (
      contains-keys-insert k i v m ∙ ground (arith, e.same_iff i k, e.same_iff k i, d.0),
      insert-Distinct k v m d.1,
    )
  ]

  pub delete-Distinct : (k : K) (m : Map K V) → Distinct (keys m) → Distinct (keys (delete k m))
  unfolding delete
  delete-Distinct k [] d = d
  delete-Distinct k ((i, w) ∷ m) d = elim (Bool-cases (i == k)) [
    | inl same ↦ rw same (delete-Distinct k m d.1)
    | inr other ↦
        rw other (contains-keys-delete k i m ∙ ground (arith, d.0), delete-Distinct k m d.1)
  ]

  lookup-keys : (k : K) (v : V) (m : Map K V) → lookup k m ≡ some v → contains k (keys m) ≡ true
  unfolding lookup
  lookup-keys k v [] h = cc
  lookup-keys k v ((i, w) ∷ m) h = ground (arith, lookup-keys k v m)

  abbrev pub Finds : Map K V → Map K V → Type κ
  Finds m [] = Unit
  Finds m ((k, v) ∷ rest) = (lookup k m ≡ some v) × Finds m rest

  Finds-more :
      (k : K) (v : V) (m part : Map K V)
      → contains k (keys m) ≡ false
      → Finds m part
      → Finds ((k, v) ∷ m) part
  unfolding lookup
  Finds-more k v m [] new h = h
  Finds-more k v m ((j, w) ∷ part) new (here, h) =
      let apart : (k == j) ≡ false = ground (arith, e.same_iff k j, lookup-keys j w m here) in
      (rw apart here, Finds-more k v m part new h)

  -- Where no key stands twice, a lookup finds every entry.
  pub Distinct-Finds : (m : Map K V) → Distinct (keys m) → Finds m m
  unfolding lookup
  Distinct-Finds [] d = tt
  Distinct-Finds ((k, v) ∷ m) d =
      (rw ((e.same_iff k k).1 refl) refl, Finds-more k v m m d.0 (Distinct-Finds m d.1))
