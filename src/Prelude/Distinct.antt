-- ===== src/Prelude/Distinct.antt =====
-- Lists without repetition, and the counting of their members.
use Prim.Native.Nat.{suc, ◌+◌, ◌≤◌}
use mathlib.Core.Path.{◌≡◌, refl}
use mathlib.Core.Bool.{Bool, true, false, ◌||◌}
use mathlib.Core.List.{List, [], ◌∷◌, ◌++◌}
use native.Mathlib.Omega.{arith}
use loom.Prelude.Tests.{if◌then◌else◌}
use loom.Prelude.Lists.{length, length-append}
use loom.Prelude.Eq.{Eq, ◌==◌}

module _ {ℓ} {A : Type ℓ} ⦃e : Eq A⦄ where
  abbrev pub contains : A → List A → Bool
  contains a [] = false
  contains a (x ∷ xs) = (x == a) || contains a xs

  abbrev pub Distinct : List A → Type 0
  Distinct [] = Unit
  Distinct (x ∷ xs) = (contains x xs ≡ false) × Distinct xs

  -- Every member of the first list is one of the second.
  abbrev pub Within : List A → List A → Type ℓ
  Within xs ys = (a : A) → contains a xs ≡ true → contains a ys ≡ true

  unfoldable pub remove : A → List A → List A
  remove a [] = []
  remove a (x ∷ xs) = if x == a then remove a xs else x ∷ remove a xs

  -- The members of the second list that the first contains, and those that it lacks.
  unfoldable pub common : List A → List A → List A
  common xs [] = []
  common xs (y ∷ ys) = if contains y xs then y ∷ common xs ys else common xs ys

  unfoldable pub missing : List A → List A → List A
  missing xs [] = []
  missing xs (y ∷ ys) = if contains y xs then missing xs ys else y ∷ missing xs ys

  pub contains-append :
      (a : A) (xs ys : List A) → contains a (xs ++ ys) ≡ contains a xs || contains a ys
  contains-append a [] ys = refl
  contains-append a (x ∷ xs) ys = ground (arith, contains-append a xs ys)

  pub contains-remove :
      (a b : A) (xs : List A) → contains b (remove a xs) ≡ (if a == b then false else contains b xs)
  unfolding remove
  contains-remove a b [] = ground arith
  contains-remove a b (x ∷ xs) =
      ground (arith, e.same_iff x a, e.same_iff x b, e.same_iff a b, contains-remove a b xs)

  length-remove-le : (a : A) (xs : List A) → length (remove a xs) ≤ length xs
  unfolding remove
  length-remove-le a [] = omega arith
  length-remove-le a (x ∷ xs) = ground (arith, length-remove-le a xs)

  pub length-remove :
      (a : A) (xs : List A) → contains a xs ≡ true → suc (length (remove a xs)) ≤ length xs
  unfolding remove
  length-remove a [] h = cc
  length-remove a (x ∷ xs) h = ground (arith, length-remove a xs, length-remove-le a xs)

  -- A list without repetition is no longer than a list that has all its members.
  pub length-Within : (xs ys : List A) → Distinct xs → Within xs ys → length xs ≤ length ys
  length-Within [] ys d w = omega arith
  length-Within (x ∷ xs) ys d w =
      let here : contains x ys ≡ true = w x (ground (arith, e.same_iff x x)) in
      let rest : Within xs (remove x ys) =
        λ a h. ground (arith, contains-remove x a ys, w a, e.same_iff x a) in
      omega (arith, length-Within xs (remove x ys) d.1 rest, length-remove x ys here)

  pub Distinct-append :
      (xs ys : List A)
      → Distinct xs
      → Distinct ys
      → ((a : A) → contains a xs ≡ true → contains a ys ≡ false)
      → Distinct (xs ++ ys)
  Distinct-append [] ys dx dy h = dy
  Distinct-append (x ∷ xs) ys dx dy h = (
    ground (arith, contains-append x xs ys, h x, e.same_iff x x),
    Distinct-append xs ys dx.1 dy (λ a p. ground (arith, h a)),
  )

  pub contains-missing :
      (xs ys : List A) (a : A)
      → contains a (missing xs ys) ≡ (if contains a xs then false else contains a ys)
  unfolding missing
  contains-missing xs [] a = ground arith
  contains-missing xs (y ∷ ys) a = ground (arith, contains-missing xs ys a, e.same_iff y a)

  Distinct-missing : (xs ys : List A) → Distinct ys → Distinct (missing xs ys)
  unfolding missing
  Distinct-missing xs [] d = tt
  Distinct-missing xs (y ∷ ys) d = ground (arith, Distinct-missing xs ys, contains-missing xs ys y)

  length-common-missing :
      (xs ys : List A) → length (common xs ys) + length (missing xs ys) ≡ length ys
  unfolding common missing
  length-common-missing xs [] = omega arith
  length-common-missing xs (y ∷ ys) = ground (arith, length-common-missing xs ys)

  -- Two sets within a third overlap by what their sizes exceed its size.
  pub length-common :
      (xs ys all : List A)
      → Distinct xs
      → Distinct ys
      → Within xs all
      → Within ys all
      → length xs + length ys ≤ length all + length (common xs ys)
  length-common xs ys all dx dy wx wy =
      let apart : (a : A) → contains a xs ≡ true → contains a (missing xs ys) ≡ false =
        λ a h. rw (contains-missing, h) refl in
      let inside : Within (xs ++ missing xs ys) all = λ a h.
        ground
          (arith, contains-append a xs (missing xs ys), contains-missing xs ys a, wx a, wy a) in
      omega (
        arith,
        length-common-missing xs ys,
        length-append {ℓ} xs (missing xs ys),
        length-Within (xs ++ missing xs ys) all
            (Distinct-append xs (missing xs ys) dx (Distinct-missing xs ys dy) apart) inside,
      )
