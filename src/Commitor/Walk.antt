-- ===== src/Commitor/Walk.antt =====
-- The two loops over a queue of slots in core/commitor.go as one search, and what it reaches.
use loom.Message.{Slot, Block, slot_eq, eqb_slot_iff}
use loom.Commitor.{ref_slots}
use loom.Prelude.{
  ℕ, zero, suc, ◌+◌, ◌≤◌, ◌≡◌, refl, sym, ap, ◌∙◌, ◌↔◌, ◌⊎◌, inl, inr, true, false, Option, none,
  some, List, [], ◌∷◌, ◌++◌, arith, if◌then◌else◌, Bool-cases, Option-cases, length, length-append,
  length-map,
}
use loom.Prelude.Eq.{nat_eq, int_eq, string_eq, list_eq, ==-refl, ==-false, ==-cases}
use loom.Prelude.Distinct.{contains, Distinct, contains-append, Distinct-append}

-- A search from a queue: `f` gives the block of a slot, or nothing to go on with.
abbrev pub turn : (Slot → Option Block) → Slot → List Slot → List Slot → List Slot × List Slot
turn f x q seen =
    if contains x seen
    then (q, seen)
    else elim (f x) [ none ↦ (q, seen) | some b ↦ (q ++ ref_slots b, seen ++ x ∷ []) ]

unfoldable pub search_from : (Slot → Option Block) → ℕ → List Slot → List Slot → Option (List Slot)
search_from f fuel [] seen = some seen
search_from f zero (x ∷ q) seen = none
search_from f (suc fuel) (x ∷ q) seen =
    let (q', seen') = turn f x q seen in search_from f fuel q' seen'

-- The references that the slots of a list not yet seen may put on the queue.
abbrev pub cost : (Slot → Option Block) → List Slot → List Slot → ℕ
cost f [] seen = 0
cost f (u ∷ us) seen =
    (if contains u seen then 0 else elim (f u) [ none ↦ 0 | some b ↦ length b.ref ])
    + cost f us seen

-- Every slot with a block is in the list.
abbrev pub Covers : (Slot → Option Block) → List Slot → Type 0
Covers f us = (s : Slot) (b : Block) → f s ≡ some b → contains s us ≡ true

cost-le :
    (f : Slot → Option Block) (us seen : List Slot) (x : Slot)
    → cost f us (seen ++ x ∷ []) ≤ cost f us seen
cost-le f [] seen x = omega arith
cost-le f (u ∷ us) seen x = ground (arith, cost-le f us seen x, contains-append u seen (x ∷ []))

cost-seen :
    (f : Slot → Option Block) (us seen : List Slot) (x : Slot) (b : Block)
    → contains x us ≡ true
    → contains x seen ≡ false
    → f x ≡ some b
    → cost f us (seen ++ x ∷ []) + length b.ref ≤ cost f us seen
cost-seen f [] seen x b h new e = cc
cost-seen f (u ∷ us) seen x b h new e = elim (==-cases u x) [
  | inl same ↦
      let old : contains u seen ≡ false = rw same new in
      let now : contains u (seen ++ x ∷ []) ≡ true =
        rw same (contains-append x seen (x ∷ []) ∙ rw (new, ==-refl x) refl) in
      let block : f u ≡ some b = ap f same ∙ e in
      rw (now, old, block) (omega (arith, cost-le f us seen x))
  | inr ne ↦ ground (
    arith,
    cost-seen f us seen x b,
    contains-append u seen (x ∷ []),
    ==-false u x ne,
    ==-false x u (λ q. ne (sym q)),
  )
]

length-ref_slots : (b : Block) → length (ref_slots b) ≡ length b.ref
length-ref_slots b = length-map (λ h. h.slot) b.ref

-- One turn: what is left on the queue and what may still come fall by the slot taken.
turn-cost :
    (f : Slot → Option Block) (us : List Slot) (x : Slot) (q seen : List Slot)
    → Covers f us
    → let (q', seen') = turn f x q seen in length q' + cost f us seen' ≤ length q + cost f us seen
turn-cost f us x q seen c = elim (Bool-cases (contains x seen)) [
  | inl old ↦ rw old (omega arith)
  | inr new ↦ elim (Option-cases (f x)) [
    | inl none_there ↦ rw (new, none_there) (omega arith)
    | inr (b, there) ↦
        rw (new, there)
          (omega (
            arith,
            cost-seen f us seen x b (c x b there) new there,
            length-append {0} q (ref_slots b),
            length-ref_slots b,
          ))
  ]
]

-- With fuel for the queue and all references the search ends.
pub search_from-ends :
    (f : Slot → Option Block) (us : List Slot) (fuel : ℕ) (q seen : List Slot)
    → Covers f us
    → length q + cost f us seen ≤ fuel
    → (r : List Slot) × (search_from f fuel q seen ≡ some r)
unfolding search_from
search_from-ends f us fuel [] seen c h = (seen, refl)
search_from-ends f us zero (x ∷ q) seen c h = absurd (omega arith)
search_from-ends f us (suc fuel) (x ∷ q) seen c h =
    let t = turn f x q seen in
    search_from-ends f us fuel t.0 t.1 c (omega (arith, turn-cost f us x q seen c))

-- The slots that a search from `a` is to find: those with a block, from `a` by references.
pub data Reach (f : Slot → Option Block) (a : Slot) : Slot → Type 0 where
  here : {b : Block} → f a ≡ some b → Reach f a a
  next :
      {s t : Slot} {b c : Block}
      → Reach f a s
      → f s ≡ some b
      → contains t (ref_slots b) ≡ true
      → f t ≡ some c
      → Reach f a t

-- Why a slot stands on the queue: it is where the search starts, or a slot that was reached refers to it.
pub data Candidate (f : Slot → Option Block) (a : Slot) (t : Slot) : Type 0 where
  start : t ≡ a → Candidate f a t
  cited :
      (s : Slot) (b : Block)
      → Reach f a s
      → f s ≡ some b
      → contains t (ref_slots b) ≡ true
      → Candidate f a t

-- What is still open of a slot that is to be found.
abbrev pub Open : (Slot → Option Block) → List Slot → List Slot → Slot → Type 0
Open f q seen t = (contains t seen ≡ true) ⊎ ((contains t q ≡ true) ⊎ (f t ≡ none))

pub record Inv (f : Slot → Option Block) (a : Slot) (q seen : List Slot) : Type 0 where
  pub apart : Distinct seen
  pub found : (s : Slot) → contains s seen ≡ true → Reach f a s
  pub queued : (s : Slot) → contains s q ≡ true → Candidate f a s
  pub begun : Open f q seen a
  pub closed :
      (s t : Slot) (b : Block)
      → contains s seen ≡ true
      → f s ≡ some b
      → contains t (ref_slots b) ≡ true
      → Open f q seen t

Candidate-Reach :
    (f : Slot → Option Block) (a t : Slot) (b : Block)
    → f t ≡ some b
    → Candidate f a t
    → Reach f a t
Candidate-Reach f a t b e (start same) = rw same (here {b = b} (ap f (sym same) ∙ e))
Candidate-Reach f a t b e (cited s c r g k) = next {b = c} {c = b} r g k e

-- A slot that was open is open after a turn for x, if x was settled.
Open-skip :
    (f : Slot → Option Block) (x t : Slot) (q seen : List Slot)
    → (contains x seen ≡ true) ⊎ (f x ≡ none)
    → Open f (x ∷ q) seen t
    → Open f q seen t
Open-skip f x t q seen settled (inl s) = inl s
Open-skip f x t q seen settled (inr (inr n)) = inr (inr n)
Open-skip f x t q seen settled (inr (inl k)) = elim (==-cases x t) [
  | inl same ↦ elim settled [
    | inl s ↦ inl (ap (λ y. contains y seen) (sym same) ∙ s)
    | inr n ↦ inr (inr (ap f (sym same) ∙ n))
  ]
  | inr ne ↦ inr (inl (rw (==-false x t ne) at k))
]

Open-take :
    (f : Slot → Option Block) (x t : Slot) (q seen more : List Slot)
    → Open f (x ∷ q) seen t
    → Open f (q ++ more) (seen ++ x ∷ []) t
Open-take f x t q seen more (inl s) = inl (contains-append t seen (x ∷ []) ∙ rw s refl)
Open-take f x t q seen more (inr (inr n)) = inr (inr n)
Open-take f x t q seen more (inr (inl k)) = elim (==-cases x t) [
  | inl same ↦ inl (rw (← same) (contains-append x seen (x ∷ []) ∙ ground (arith, ==-refl x)))
  | inr ne ↦ inr (
      inl (
        let old : contains t q ≡ true = rw (==-false x t ne) at k in
        contains-append t q more ∙ rw old refl))
]

contains-snoc :
    (s x : Slot) (seen : List Slot)
    → contains s (seen ++ x ∷ []) ≡ true
    → (contains s seen ≡ true) ⊎ (s ≡ x)
contains-snoc s x seen h = elim (==-cases x s) [
  | inl same ↦ inr (sym same)
  | inr ne ↦ inl (ground (arith, contains-append s seen (x ∷ []), ==-false x s ne))
]

pub skip-Inv :
    (f : Slot → Option Block) (a x : Slot) (q seen : List Slot)
    → (contains x seen ≡ true) ⊎ (f x ≡ none)
    → Inv f a (x ∷ q) seen
    → Inv f a q seen
skip-Inv f a x q seen settled i = record {
  apart = i.apart;
  found = i.found;
  queued = λ s h. i.queued s (ground arith);
  begun = Open-skip f x a q seen settled i.begun;
  closed = λ s t b h e k. Open-skip f x t q seen settled (i.closed s t b h e k);
}

pub take-Inv :
    (f : Slot → Option Block) (a x : Slot) (q seen : List Slot) (b : Block)
    → contains x seen ≡ false
    → f x ≡ some b
    → Inv f a (x ∷ q) seen
    → Inv f a (q ++ ref_slots b) (seen ++ x ∷ [])
take-Inv f a x q seen b new e i =
    let reached : Reach f a x = Candidate-Reach f a x b e (i.queued x (rw (==-refl x) refl)) in
    record {
      apart =
          Distinct-append seen (x ∷ []) i.apart (refl, tt)
            (λ s h. elim (==-cases x s) [
              | inl same ↦ absurd (cc (ap (λ y. contains y seen) same, new, h))
              | inr ne ↦ rw (==-false x s ne) refl
            ]);
      found = λ s h. elim (contains-snoc s x seen h) [
        | inl old ↦ i.found s old
        | inr same ↦ rw same reached
      ];
      queued = λ s h. elim (Bool-cases (contains s q)) [
        | inl old ↦ i.queued s (ground arith)
        | inr fresh ↦ cited x b reached e (ground (arith, contains-append s q (ref_slots b)))
      ];
      begun = Open-take f x a q seen (ref_slots b) i.begun;
      closed = λ s t c h g k. elim (contains-snoc s x seen h) [
        | inl old ↦ Open-take f x t q seen (ref_slots b) (i.closed s t c old g k)
        | inr same ↦
            let is_b : c ≡ b = cc (g, e, ap f same) in
            inr (
              inl (
                contains-append t q (ref_slots b)
                ∙ ground (arith, ap (λ y. contains t (ref_slots y)) is_b)))
      ];
    }

turn-Inv :
    (f : Slot → Option Block) (a x : Slot) (q seen : List Slot)
    → Inv f a (x ∷ q) seen
    → let (q', seen') = turn f x q seen in Inv f a q' seen'
turn-Inv f a x q seen i = elim (Bool-cases (contains x seen)) [
  | inl old ↦ rw old (skip-Inv f a x q seen (inl old) i)
  | inr new ↦ elim (Option-cases (f x)) [
    | inl missing ↦ rw (new, missing) (skip-Inv f a x q seen (inr missing) i)
    | inr (b, there) ↦ rw (new, there) (take-Inv f a x q seen b new there i)
  ]
]

search_from-Inv :
    (f : Slot → Option Block) (a : Slot) (fuel : ℕ) (q seen r : List Slot)
    → search_from f fuel q seen ≡ some r
    → Inv f a q seen
    → Inv f a [] r
unfolding search_from
search_from-Inv f a fuel [] seen r h i = let same : seen ≡ r = cc in rw (← same) i
search_from-Inv f a zero (x ∷ q) seen r h i = absurd (cc)
search_from-Inv f a (suc fuel) (x ∷ q) seen r h i =
    let t = turn f x q seen in search_from-Inv f a fuel t.0 t.1 r h (turn-Inv f a x q seen i)

pub start-Inv : (f : Slot → Option Block) (a : Slot) → Inv f a (a ∷ []) []
start-Inv f a = record {
  apart = tt;
  found = λ s h. absurd (cc);
  queued = λ s h. start (ground (arith, eqb_slot_iff a s));
  begun = inr (inl (rw (==-refl a) refl));
  closed = λ s t b h e k. absurd (cc);
}

settled-contains :
    (f : Slot → Option Block) (r : List Slot) (t : Slot) (b : Block)
    → f t ≡ some b
    → Open f [] r t
    → contains t r ≡ true
settled-contains f r t b e (inl h) = h
settled-contains f r t b e (inr (inl h)) = absurd (cc)
settled-contains f r t b e (inr (inr h)) = absurd (cc)

Reach-contains :
    (f : Slot → Option Block) (a : Slot) (r : List Slot) (t : Slot)
    → Inv f a [] r
    → Reach f a t
    → contains t r ≡ true
Reach-contains f a r t i (here {b} e) = settled-contains f r a b e i.begun
Reach-contains f a r t i (next {s = s} {b = b} {c = c} g e k h) =
    settled-contains f r t c h (i.closed s t b (Reach-contains f a r s i g) e k)

-- A search that has ended has found, each once, the slots that are reached.
pub search_from-Reach :
    (f : Slot → Option Block) (a : Slot) (fuel : ℕ) (r : List Slot)
    → search_from f fuel (a ∷ []) [] ≡ some r
    → Distinct r × ((s : Slot) → (contains s r ≡ true) ↔ Reach f a s)
search_from-Reach f a fuel r h =
    let i = search_from-Inv f a fuel (a ∷ []) [] r h (start-Inv f a) in
    (i.apart, λ s. (i.found s, Reach-contains f a r s i))
