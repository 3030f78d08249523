-- ===== src/Commitor/Ordering.antt =====
-- `commitAnchor` of core/commitor.go: what is executed for an anchor, in which order, what is left.
use mathlib.Core.Path.{ap₂}
use loom.Committee.{NodeId}
use loom.Message.{Slot, Block, slot_eq, eqb_slot_iff}
use loom.Commitor.{
  insert_sorted, sort, commit_less, walk_turn, walk_pulled, total_refs, exec_all, commit_anchor,
}
use loom.Commitor.Walk.{
  turn, search_from, cost, Covers, search_from-ends, Reach, search_from-Reach, here, next,
}
use loom.Prelude.{
  ℕ, zero, suc, ◌≤◌, ◌≡◌, refl, sym, ap, ◌∙◌, ◌↔◌, inl, inr, Bool, true, false, Option, none, some,
  List, [], ◌∷◌, map, arith, if◌then◌else◌, Option-cases,
}
use loom.Prelude.Int.{eqb_ℤ_iff}
use loom.Prelude.Eq.{Eq, nat_eq, int_eq, string_eq, list_eq, ==-refl, ==-false, ==-cases}
use loom.Prelude.Map.{Map, lookup, delete, lookup-delete}
use loom.Prelude.Distinct.{contains, Distinct}

abbrev pub in_pulled : Map Slot Block → Slot → Option Block
in_pulled pulled s = lookup s pulled

abbrev pub slots : Map Slot Block → List Slot
slots m = map (λ (e : Slot × Block). e.0) m

walk_turn-turn :
    (x : Slot) (q seen : List Slot) (pulled : Map Slot Block)
    → walk_turn x q seen pulled ≡ turn (in_pulled pulled) x q seen
unfolding walk_turn
walk_turn-turn x q seen pulled = elim (Option-cases (lookup x pulled)) [
  | inl missing ↦ ground arith
  | inr (b, there) ↦ ground arith
]

-- The loop of the code is the search among the pulled blocks.
walk_pulled-search_from :
    (fuel : ℕ) (q seen : List Slot) (pulled : Map Slot Block)
    → walk_pulled fuel q seen pulled ≡ search_from (in_pulled pulled) fuel q seen
unfolding walk_pulled search_from
walk_pulled-search_from fuel [] seen pulled = refl
walk_pulled-search_from zero (x ∷ q) seen pulled = refl
walk_pulled-search_from (suc fuel) (x ∷ q) seen pulled =
    let t = turn (in_pulled pulled) x q seen in
    ap (λ (u : List Slot × List Slot). walk_pulled fuel u.0 u.1 pulled)
      (walk_turn-turn x q seen pulled)
    ∙ walk_pulled-search_from fuel t.0 t.1 pulled

pub pulled-Covers : (pulled : Map Slot Block) → Covers (in_pulled pulled) (slots pulled)
unfolding lookup
pulled-Covers [] s b h = cc
pulled-Covers ((k, c) ∷ m) s b h = ground (arith, pulled-Covers m s b, eqb_slot_iff k s)

cost-total_refs :
    (f : Slot → Option Block) (m : Map Slot Block)
    → Distinct (slots m)
    → ((k : Slot) (c : Block) → lookup k m ≡ some c → f k ≡ some c)
    → cost f (slots m) [] ≤ total_refs m
unfolding lookup
cost-total_refs f [] d h = omega arith
cost-total_refs f ((s, b) ∷ m) d h =
    let head : f s ≡ some b = h s b (rw (==-refl s) refl) in
    let rest = cost-total_refs f m d.1 (λ k c e. elim (==-cases s k) [
      | inl same ↦ absurd (cc (ap (λ x. contains x (slots m)) same, d.0, pulled-Covers m k c e))
      | inr ne ↦ h k c (rw (==-false s k ne) e)
    ]) in
    rw head (omega (arith, rest))

-- The first loop ends within its fuel, and finds each slot that the anchor reaches once.
walk_pulled-Reach :
    (anchor : Slot) (pulled : Map Slot Block)
    → Distinct (slots pulled)
    → (order : List Slot) × (walk_pulled (suc (total_refs pulled)) (anchor ∷ []) [] pulled
        ≡ some order)
      × Distinct order
      × ((s : Slot) → (contains s order ≡ true) ↔ Reach (in_pulled pulled) anchor s)
walk_pulled-Reach anchor pulled d =
    let f = in_pulled pulled in
    let fuel = suc (total_refs pulled) in
    let (order, ends) =
      search_from-ends f (slots pulled) fuel (anchor ∷ []) [] (pulled-Covers pulled)
        (omega (arith, cost-total_refs f pulled d (λ k c e. e))) in
    let (apart, found) = search_from-Reach f anchor fuel order ends in
    (order, walk_pulled-search_from fuel (anchor ∷ []) [] pulled ∙ ends, apart, found)

-- Neighbours stand in order: the later one is not less.
abbrev pub IsSorted : {A : Type 0} → (A → A → Bool) → List A → Type 0
IsSorted less [] = Unit
IsSorted less (x ∷ []) = Unit
IsSorted less (x ∷ y ∷ ys) = (less y x ≡ false) × IsSorted less (y ∷ ys)

module _ {A : Type 0} ⦃e : Eq A⦄ (less : A → A → Bool) where
  contains-insert_sorted :
      (a x : A) (xs : List A) → contains a (insert_sorted less x xs) ≡ contains a (x ∷ xs)
  unfolding insert_sorted
  contains-insert_sorted a x [] = refl
  contains-insert_sorted a x (y ∷ ys) = ground (arith, contains-insert_sorted a x ys)

  pub contains-sort : (a : A) (xs : List A) → contains a (sort less xs) ≡ contains a xs
  unfolding sort
  contains-sort a [] = refl
  contains-sort a (x ∷ xs) =
      contains-insert_sorted a x (sort less xs) ∙ ground (arith, contains-sort a xs)

  insert_sorted-Distinct :
      (x : A) (xs : List A)
      → contains x xs ≡ false
      → Distinct xs
      → Distinct (insert_sorted less x xs)
  unfolding insert_sorted
  insert_sorted-Distinct x [] h d = (refl, tt)
  insert_sorted-Distinct x (y ∷ ys) h d = ground (
    arith,
    insert_sorted-Distinct x ys,
    contains-insert_sorted y x ys,
    e.same_iff x y,
    e.same_iff y x,
  )

  pub sort-Distinct : (xs : List A) → Distinct xs → Distinct (sort less xs)
  unfolding sort
  sort-Distinct [] d = tt
  sort-Distinct (x ∷ xs) d =
      insert_sorted-Distinct x (sort less xs) (contains-sort x xs ∙ d.0) (sort-Distinct xs d.1)

module _ {A : Type 0} (less : A → A → Bool)
    (asym : (x y : A) → less x y ≡ true → less y x ≡ false) where
  insert_sorted-IsSorted :
      (x : A) (xs : List A) → IsSorted less xs → IsSorted less (insert_sorted less x xs)
  unfolding insert_sorted
  insert_sorted-IsSorted x [] s = tt
  insert_sorted-IsSorted x (y ∷ []) s = ground (arith, asym y x)
  insert_sorted-IsSorted x (y ∷ z ∷ zs) s =
      ground (arith, asym y x, asym z x, insert_sorted-IsSorted x (z ∷ zs))

  pub sort-IsSorted : (xs : List A) → IsSorted less (sort less xs)
  unfolding sort
  sort-IsSorted [] = tt
  sort-IsSorted (x ∷ xs) = insert_sorted-IsSorted x (sort less xs) (sort-IsSorted xs)

commit_less-asym :
    (leader : NodeId) (s t : Slot) → commit_less leader s t ≡ true → commit_less leader t s ≡ false
unfolding commit_less
commit_less-asym leader s t h = ground (
  arith,
  eqb_ℤ_iff s.author t.author,
  eqb_ℤ_iff t.author s.author,
  eqb_ℤ_iff s.author leader,
  eqb_ℤ_iff t.author leader,
)

lookup-delete_ne :
    (x s : Slot) (xs : List Slot) (pulled : Map Slot Block)
    → contains x xs ≡ false
    → contains s xs ≡ true
    → lookup s (delete x pulled) ≡ lookup s pulled
lookup-delete_ne x s xs pulled out h = elim (==-cases x s) [
  | inl same ↦ absurd (cc (ap (λ y. contains y xs) same, out, h))
  | inr ne ↦ lookup-delete x s pulled ∙ rw (==-false x s ne) refl
]

pub map-delete :
    (x : Slot) (xs : List Slot) (pulled : Map Slot Block)
    → contains x xs ≡ false
    → map (in_pulled (delete x pulled)) xs ≡ map (in_pulled pulled) xs
map-delete x [] pulled h = refl
map-delete x (y ∷ ys) pulled h =
    let rest = map-delete x ys pulled (ground arith) in
    rw (rest, lookup-delete_ne x y (y ∷ ys) pulled h (rw (==-refl y) refl)) refl

exec_all-cons :
    (x : Slot) (xs : List Slot) (pulled : Map Slot Block) (b : Block)
    → lookup x pulled ≡ some b
    → (exec_all (x ∷ xs) pulled).0 ≡ b ∷ (exec_all xs (delete x pulled)).0
unfolding exec_all
exec_all-cons x xs pulled b h = ground arith

-- Each slot of the list is executed and taken out of the map.
pub exec_all-lookup :
    (order : List Slot) (pulled : Map Slot Block)
    → Distinct order
    → ((s : Slot) → contains s order ≡ true → (b : Block) × (lookup s pulled ≡ some b))
    → let (executed, left) = exec_all order pulled in
      (map (in_pulled pulled) order ≡ map some executed)
      × ((s : Slot) → lookup s left ≡ (if contains s order then none else lookup s pulled))
unfolding exec_all
exec_all-lookup [] pulled d h = (refl, λ s. refl)
exec_all-lookup (x ∷ xs) pulled d h =
    let held = λ (s : Slot) (k : contains s xs ≡ true).
      let (b, e) = h s (ground arith) in
      let found : (c : Block) × (lookup s (delete x pulled) ≡ some c) =
        (b, lookup-delete_ne x s xs pulled d.0 k ∙ e) in
      found in
    let (blocks, gone) = exec_all-lookup xs (delete x pulled) d.1 held in
    let (b, there) = h x (rw (==-refl x) refl) in
    (
      ap₂ (λ (o : Option Block) (os : List (Option Block)). o ∷ os) there
            (sym (map-delete x xs pulled d.0) ∙ blocks)
          ∙ ap (λ (bs : List Block). map some bs) (sym (exec_all-cons x xs pulled b there)),
      λ s. gone s ∙ rw (lookup-delete x s pulled) (ground arith),
    )

Reach-block : (f : Slot → Option Block) (a s : Slot) → Reach f a s → (b : Block) × (f s ≡ some b)
Reach-block f a s (here {b} e) = (b, e)
Reach-block f a s (next {c = c} g e k h) = (c, h)

-- With no slot pulled twice, `commitAnchor` ends. What it executes are, each once, the pulled blocks
-- that the anchor reaches by references over pulled blocks, in an order in which no block is less
-- than the one before it (by height for one author, the anchor's author last). These are taken out of
-- what was pulled, and everything else stays.
pub commit_anchor_lem :
    (anchor : Slot) (pulled : Map Slot Block)
    → Distinct (slots pulled)
    → (order : List Slot) × (executed : List Block) × (left : Map Slot Block) × (commit_anchor
          anchor pulled
        ≡ some (executed, left))
      × (map (in_pulled pulled) order ≡ map some executed)
      × Distinct order
      × ((s : Slot) → (contains s order ≡ true) ↔ Reach (in_pulled pulled) anchor s)
      × IsSorted (commit_less anchor.author) order
      × ((s : Slot) → lookup s left ≡ (if contains s order then none else lookup s pulled))
unfolding commit_anchor
commit_anchor_lem anchor pulled d =
    let less = commit_less anchor.author in
    let (found, ends, apart, reach) = walk_pulled-Reach anchor pulled d in
    let order = sort less found in
    let reach' = λ (s : Slot).
      let same : contains s order ≡ contains s found = contains-sort less s found in
      let iff : (contains s order ≡ true) ↔ Reach (in_pulled pulled) anchor s =
        (λ h. (reach s).0 (sym same ∙ h), λ r. same ∙ (reach s).1 r) in
      iff in
    let (blocks, gone) =
      exec_all-lookup order pulled (sort-Distinct less found apart)
        (λ s h. Reach-block (in_pulled pulled) anchor s ((reach' s).0 h)) in
    let (executed, left) = exec_all order pulled in
    (
      order,
      executed,
      left,
      rw (commit_anchor, ends) refl,
      blocks,
      sort-Distinct less found apart,
      reach',
      sort-IsSorted less (commit_less-asym anchor.author) found,
      gone,
    )
