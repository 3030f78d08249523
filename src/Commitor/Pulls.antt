-- ===== src/Commitor/Pulls.antt =====
-- Step 1 of `commit2` in core/commitor.go: what is pulled for a submitted slot; and that it all ends.
use loom.Message.{Slot, Block, slot_eq}
use mathlib.Core.Path.{subst}
use loom.Commitor.{
  Answer, sends_block, sends_nil, never, Ended, done, waits, World, ref_slots, Pulling, pull_turn,
  pull_loop, update_anchor,
}
use loom.Commitor.Walk.{
  turn, search_from, cost, Covers, search_from-ends, Reach, search_from-Reach, Candidate, Inv,
  skip-Inv, take-Inv, start-Inv,
}
use loom.Commitor.Ordering.{slots, pulled-Covers}
use loom.Prelude.{
  ℕ, zero, suc, ◌≤◌, ◌≡◌, refl, sym, ap, ◌∙◌, ◌↔◌, ◌⊎◌, inl, inr, true, false, ◌||◌, Option, none,
  some, List, [], ◌∷◌, ◌++◌, arith, if◌then◌else◌, Option-cases,
}
use loom.Prelude.Int.{ℤ}
use loom.Prelude.Eq.{◌==◌, nat_eq, int_eq, string_eq, list_eq, ==-refl, ==-false, ==-cases}
use loom.Prelude.Map.{Map, lookup, insert, lookup-insert}
use loom.Prelude.Distinct.{contains, Distinct, contains-append}

slots-insert :
    (x : Slot) (b : Block) (m : Map Slot Block)
    → contains x (slots m) ≡ false
    → slots (insert x b m) ≡ slots m ++ x ∷ []
unfolding insert
slots-insert x b [] h = refl
slots-insert x b ((k, c) ∷ m) h = ground (arith, slots-insert x b m)

lookup-slots : (x : Slot) (m : Map Slot Block) → contains x (slots m) ≡ false → lookup x m ≡ none
unfolding lookup
lookup-slots x [] h = refl
lookup-slots x ((k, c) ∷ m) h = ground (arith, lookup-slots x m)

slots-lookup : (x : Slot) (m : Map Slot Block) → lookup x m ≡ none → contains x (slots m) ≡ false
unfolding lookup
slots-lookup x [] h = refl
slots-lookup x ((k, c) ∷ m) h = ground (arith, slots-lookup x m)

-- What was pulled is what the DAG has.
abbrev AreOf : (Slot → Option Block) → Map Slot Block → Type 0
AreOf f m = (s : Slot) → lookup s m ≡ (if contains s (slots m) then f s else none)

insert-AreOf :
    (f : Slot → Option Block) (x : Slot) (b : Block) (m : Map Slot Block)
    → contains x (slots m) ≡ false
    → f x ≡ some b
    → AreOf f m
    → AreOf f (insert x b m)
insert-AreOf f x b m new e h s =
    let held : contains s (slots (insert x b m)) ≡ contains s (slots m) || contains s (x ∷ []) =
      rw (slots-insert x b m new) (contains-append s (slots m) (x ∷ [])) in
    let found = lookup-insert x s b m in
    elim (==-cases x s) [
      | inl same ↦
          let yes_s : (x == s) ≡ true = ap (λ y. x == y) (sym same) ∙ ==-refl x in
          let of_s : f s ≡ some b = ap f (sym same) ∙ e in
          rw (held, found, yes_s, of_s) (ground arith)
      | inr ne ↦ rw (held, found, ==-false x s ne) (ground (arith, h s))
    ]

abbrev pub state : List Slot → Map Slot Block → Map ℤ Slot → Pulling
state q pulled anchors = record { q = q; pulled = pulled; anchors = anchors }

pub pull_turn-pulled :
    (w : World) (x : Slot) (p : Pulling) (b : Block)
    → lookup x p.pulled ≡ some b
    → pull_turn w x p ≡ some p
unfolding pull_turn
pull_turn-pulled w x p b h = ground arith

pub pull_turn-nil :
    (w : World) (x : Slot) (p : Pulling) → w.pull x ≡ sends_nil → pull_turn w x p ≡ some p
unfolding pull_turn
pull_turn-nil w x p h = elim (Option-cases (lookup x p.pulled)) [
  | inl new ↦ ground arith
  | inr (b, old) ↦ ground arith
]

pub pull_turn-never :
    (w : World) (x : Slot) (p : Pulling)
    → lookup x p.pulled ≡ none
    → w.pull x ≡ never
    → pull_turn w x p ≡ none
unfolding pull_turn
pull_turn-never w x p new h = ground arith

pub pull_turn-new :
    (w : World) (x : Slot) (p : Pulling) (b : Block)
    → lookup x p.pulled ≡ none
    → w.pull x ≡ sends_block b
    → pull_turn w x p
      ≡ some (
          state
            (p.q ++ ref_slots b)
            (insert x b p.pulled)
            (update_anchor (w.uncommitted x) b p.anchors))
unfolding pull_turn
pull_turn-new w x p b h e = ground arith

-- What the loop goes on with behind a turn.
abbrev pub goes_on : World → ℕ → Option Pulling → Ended Pulling
goes_on w fuel none = waits
goes_on w fuel (some p) = pull_loop w fuel p.q p.pulled p.anchors

pub pull_loop-turn :
    (w : World) (fuel : ℕ) (x : Slot) (q : List Slot) (pulled : Map Slot Block)
    (anchors : Map ℤ Slot) (t : Option Pulling)
    → pull_turn w x (state q pulled anchors) ≡ t
    → pull_loop w (suc fuel) (x ∷ q) pulled anchors ≡ goes_on w fuel t
unfolding pull_loop
pull_loop-turn w fuel x q pulled anchors t h = ap (goes_on w fuel) h

-- The block that a slot has for the one who pulls.
abbrev pub block_at : World → Slot → Option Block
block_at w s = elim (w.pull s) [ sends_block b ↦ some b | sends_nil ↦ none | never ↦ none ]

pub answer-cases :
    (w : World) (s : Slot)
    → (w.pull s ≡ never)
      ⊎ ((w.pull s ≡ sends_nil) × (block_at w s ≡ none))
      ⊎ ((b : Block) × (w.pull s ≡ sends_block b) × (block_at w s ≡ some b))
answer-cases w s = go (w.pull s) refl
  where
    go :
        (x : Answer)
        → w.pull s ≡ x
        → (w.pull s ≡ never)
          ⊎ ((w.pull s ≡ sends_nil) × (block_at w s ≡ none))
          ⊎ ((b : Block) × (w.pull s ≡ sends_block b) × (block_at w s ≡ some b))
    go never e = inl e
    go sends_nil e = inr (inl (e, rw (block_at, e) refl))
    go (sends_block b) e = inr (inr (b, e, rw (block_at, e) refl))

-- What the loop of step 1 ends in, for a search that ends in r, or where it waits.
abbrev EndsIn : World → Slot → ℕ → List Slot → Map Slot Block → Map ℤ Slot → List Slot → Type 0
EndsIn w a fuel q pulled anchors r =
    ((p : Pulling) × (pull_loop w fuel q pulled anchors ≡ done p)
      × (slots p.pulled ≡ r)
      × AreOf (block_at w) p.pulled)
    ⊎ ((s : Slot) × (pull_loop w fuel q pulled anchors ≡ waits)
        × Candidate (block_at w) a s
        × (w.pull s ≡ never))

EndsIn-turn :
    (w : World) (a : Slot) (fuel : ℕ) (x : Slot) (q : List Slot) (pulled : Map Slot Block)
    (anchors : Map ℤ Slot) (r : List Slot) (p : Pulling)
    → pull_turn w x (state q pulled anchors) ≡ some p
    → EndsIn w a fuel p.q p.pulled p.anchors r
    → EndsIn w a (suc fuel) (x ∷ q) pulled anchors r
EndsIn-turn w a fuel x q pulled anchors r p h (inl (end, e, keys, of)) =
    inl (end, pull_loop-turn w fuel x q pulled anchors (some p) h ∙ e, keys, of)
EndsIn-turn w a fuel x q pulled anchors r p h (inr (s, e, cited_s, silent)) =
    inr (s, pull_loop-turn w fuel x q pulled anchors (some p) h ∙ e, cited_s, silent)

search_from-turn :
    (f : Slot → Option Block) (fuel : ℕ) (x : Slot) (q seen r : List Slot)
    (t : List Slot × List Slot)
    → turn f x q seen ≡ t
    → search_from f (suc fuel) (x ∷ q) seen ≡ some r
    → search_from f fuel t.0 t.1 ≡ some r
unfolding search_from
search_from-turn f fuel x q seen r t h e =
    sym (ap (λ (u : List Slot × List Slot). search_from f fuel u.0 u.1) h) ∙ e

turn-nil :
    (f : Slot → Option Block) (x : Slot) (q seen : List Slot)
    → contains x seen ≡ false
    → f x ≡ none
    → turn f x q seen ≡ (q, seen)
turn-nil f x q seen unseen nothing = rw (unseen, nothing) refl

turn-new :
    (f : Slot → Option Block) (x : Slot) (q seen : List Slot) (b : Block)
    → contains x seen ≡ false
    → f x ≡ some b
    → turn f x q seen ≡ (q ++ ref_slots b, seen ++ x ∷ [])
turn-new f x q seen b unseen there = rw (unseen, there) refl

-- The loop is the search through what the DAG answers, unless it waits for ever.
pull_loop-search_from :
    (w : World) (a : Slot) (fuel : ℕ) (q : List Slot) (pulled : Map Slot Block)
    (anchors : Map ℤ Slot) (r : List Slot)
    → search_from (block_at w) fuel q (slots pulled) ≡ some r
    → AreOf (block_at w) pulled
    → Inv (block_at w) a q (slots pulled)
    → EndsIn w a fuel q pulled anchors r
unfolding search_from
pull_loop-search_from w a fuel [] pulled anchors r h of i =
    inl (state [] pulled anchors, unfold pull_loop in refl, cc, of)
pull_loop-search_from w a zero (x ∷ q) pulled anchors r h of i = absurd (cc)
pull_loop-search_from w a (suc fuel) (x ∷ q) pulled anchors r h of i =
    let f = block_at w in
    let s = state q pulled anchors in
    elim (Option-cases (lookup x pulled)) [
      | inr (b, old) ↦
          let seen : contains x (slots pulled) ≡ true = pulled-Covers pulled x b old in
          EndsIn-turn w a fuel x q pulled anchors r s (pull_turn-pulled w x s b old) (
            pull_loop-search_from w a fuel q pulled anchors r
              (search_from-turn f fuel x q (slots pulled) r (q, slots pulled) (rw seen refl) h) of
              (skip-Inv f a x q (slots pulled) (inl seen) i))
      | inl new ↦
          let unseen : contains x (slots pulled) ≡ false = slots-lookup x pulled new in
          elim (answer-cases w x) [
            | inl silent ↦ inr (
              x,
              pull_loop-turn w fuel x q pulled anchors none (pull_turn-never w x s new silent),
              i.queued x (rw (==-refl x) refl),
              silent,
            )
            | inr (inl (nil, nothing)) ↦
                EndsIn-turn w a fuel x q pulled anchors r s (pull_turn-nil w x s nil) (
                  pull_loop-search_from w a fuel q pulled anchors r
                    (search_from-turn f fuel x q (slots pulled) r (q, slots pulled)
                      (turn-nil f x q (slots pulled) unseen nothing) h)
                    of (skip-Inv f a x q (slots pulled) (inr nothing) i))
            | inr (inr (b, sent, there)) ↦
                let anchors' = update_anchor (w.uncommitted x) b anchors in
                let keys = slots-insert x b pulled unseen in
                EndsIn-turn w a fuel x q pulled anchors r
                  (state (q ++ ref_slots b) (insert x b pulled) anchors')
                  (pull_turn-new w x s b new sent)
                  (pull_loop-search_from w a fuel (q ++ ref_slots b) (insert x b pulled) anchors' r
                    (ap (search_from f fuel (q ++ ref_slots b)) keys
                      ∙ search_from-turn f fuel x q (slots pulled) r
                          (q ++ ref_slots b, slots pulled ++ x ∷ [])
                          (turn-new f x q (slots pulled) b unseen there) h)
                    (insert-AreOf f x b pulled unseen there of)
                    (subst (Inv f a (q ++ ref_slots b)) (sym keys)
                      (take-Inv f a x q (slots pulled) b unseen there i)))
          ]
    ]

-- If the DAG has blocks for finitely many slots, then with fuel for the references of these the
-- pulling ends, or it waits for ever, which it does only in the pull of a slot that is never answered,
-- and that is the submitted one or one that a pulled block refers to. Where it ends, it has pulled,
-- each once, the slots that the submitted one reaches by references over slots with a block, and holds
-- for each of them the block that the DAG answers and for no other slot anything.
pub pull_loop_lem :
    (w : World) (fuel : ℕ) (a : Slot) (anchors : Map ℤ Slot) (us : List Slot)
    → Covers (block_at w) us
    → suc (cost (block_at w) us []) ≤ fuel
    → ((p : Pulling) × (pull_loop w fuel (a ∷ []) [] anchors ≡ done p)
        × Distinct (slots p.pulled)
        × ((s : Slot) → (contains s (slots p.pulled) ≡ true) ↔ Reach (block_at w) a s)
        × ((s : Slot)
            → lookup s p.pulled ≡ (if contains s (slots p.pulled) then block_at w s else none)))
      ⊎ ((s : Slot) × (pull_loop w fuel (a ∷ []) [] anchors ≡ waits)
          × Candidate (block_at w) a s
          × (w.pull s ≡ never))
pull_loop_lem w fuel a anchors us c h =
    let f = block_at w in
    let (r, ends) = search_from-ends f us fuel (a ∷ []) [] c (omega arith) in
    let (apart, reach) = search_from-Reach f a fuel r ends in
    elim (pull_loop-search_from w a fuel (a ∷ []) [] anchors r ends (λ s. unfold lookup in refl)
      (start-Inv f a)) [
        | inl (p, ended, keys, same) ↦ inl (
          p,
          ended,
          subst Distinct (sym keys) apart,
          λ s. subst (λ l. (contains s l ≡ true) ↔ Reach f a s) (sym keys) (reach s),
          same,
        )
        | inr silent ↦ inr silent
      ]
