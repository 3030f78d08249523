-- ===== src/Tests/Execution.antt =====
-- A run of the commitor over three pulled blocks.
use loom.Message.{slot_eq, Slot, Block}
use loom.Commitor.Walk.{Reach, Covers, Candidate}
use loom.Commitor.Ordering.{in_pulled, IsSorted, commit_anchor_lem, slots}
use loom.Message.{SubmitReq}
use mathlib.Core.Path.{subst}
use loom.Commitor.{
  commit_less, commit_anchor, commit_anchors, sort, insert_sorted, walk_pulled, exec_all, Answer,
  Ended, Commit, runs_on, update_anchor, pull_turn, sends_block, sends_nil, never, done, waits,
  World, Pulling, pull_loop, commit2,
}
use loom.Commitor.Anchors.{AreHighest}
use loom.Commitor.Ordering.{pulled-Covers}
use loom.Commitor.Pulls.{block_at, pull_loop_lem}
use loom.Commitor.Submitting.{Executes, commit2_lem}
use loom.Tests.{slot_of, block_of}
use loom.Prelude.{
  ◌⊎◌, ◌≡◌, refl, sym, ◌∙◌, inl, inr, Option-cases, ◌↔◌, true, none, some, List, [], ◌∷◌, map,
  if◌then◌else◌, Option, arith, All,
}
use loom.Prelude.Int.{pos}
use loom.Prelude.Eq.{◌==◌, ==-cases, ==-false, nat_eq, int_eq, string_eq, list_eq}
use loom.Prelude.Map.{Map, get_or, delete, insert, lookup}
use loom.Prelude.Distinct.{contains, Distinct}

-- The leader's block refers to node 0's, which refers to node 2's; node 3's is not reached.
abbrev pulled : Map Slot Block
pulled =
    (slot_of 1 1, record (block_of 1 1 0 0) { ref = (block_of 0 1 0 0).header ∷ [] })
    ∷ (
      slot_of 0 1,
      record (block_of 0 1 0 0) {
        ref = (block_of 2 0 0 0).header ∷ (block_of 1 0 0 0).header ∷ [];
      },
    )
    ∷ (slot_of 2 0, block_of 2 0 0 0)
    ∷ (slot_of 3 0, block_of 3 0 0 0)
    ∷ []

commit_anchor_lem_example :
    (order : List Slot) × (executed : List Block) × (left : Map Slot Block) × (commit_anchor
        (slot_of 1 1)
        pulled
      ≡ some (executed, left))
    × (map (in_pulled pulled) order ≡ map some executed)
    × Distinct order
    × ((s : Slot) → (contains s order ≡ true) ↔ Reach (in_pulled pulled) (slot_of 1 1) s)
    × IsSorted (commit_less (pos 1)) order
    × ((s : Slot) → lookup s left ≡ (if contains s order then none else lookup s pulled))
commit_anchor_lem_example =
    commit_anchor_lem (slot_of 1 1) pulled (refl, (refl, (refl, (refl, tt))))

abbrev answer : Option Block → Answer
answer none = sends_nil
answer (some b) = sends_block b

abbrev world : World
world = record { pull = λ s. answer (in_pulled pulled s); uncommitted = λ s. [] }

block_at-world : (s : Slot) → block_at world s ≡ in_pulled pulled s
block_at-world s = elim (Option-cases (in_pulled pulled s)) [
  | inl nothing ↦ rw (block_at, nothing) refl
  | inr (b, there) ↦ rw (block_at, there) refl
]

world-Covers : Covers (block_at world) (slots pulled)
world-Covers s b there = pulled-Covers pulled s b (sym (block_at-world s) ∙ there)

pull_loop_lem_example :
    ((p : Pulling) × (pull_loop world 4 (slot_of 1 1 ∷ []) [] [] ≡ done p)
      × Distinct (slots p.pulled)
      × ((s : Slot) → (contains s (slots p.pulled) ≡ true) ↔ Reach (block_at world) (slot_of 1 1) s)
      × ((s : Slot)
          → lookup s p.pulled ≡ (if contains s (slots p.pulled) then block_at world s else none)))
    ⊎ ((s : Slot) × (pull_loop world 4 (slot_of 1 1 ∷ []) [] [] ≡ waits)
        × Candidate (block_at world) (slot_of 1 1) s
        × (world.pull s ≡ never))
pull_loop_lem_example =
    pull_loop_lem world 4 (slot_of 1 1) [] (slots pulled) world-Covers
      (unfold lookup in omega arith)

abbrev submitted : SubmitReq
submitted = record { slot = slot_of 1 1; round = pos 0 }

placed_in :
    (m : Map Slot Block) (s : Slot) (b : Block)
    → All (λ (e : Slot × Block). e.1.header.slot ≡ e.0) m
    → in_pulled m s ≡ some b
    → b.header.slot ≡ s
unfolding lookup
placed_in [] s b h there = cc
placed_in ((k, c) ∷ m) s b (own, h) there = elim (==-cases k s) [
  | inl same ↦
      let is_c : c ≡ b = cc (rw ((slot_eq.same_iff k s).1 same) at there) in
      subst (λ (x : Block). x.header.slot ≡ s) is_c (own ∙ same)
  | inr other ↦ placed_in m s b h (rw (==-false k s other) at there)
]

world-placed : (s : Slot) (b : Block) → block_at world s ≡ some b → b.header.slot ≡ s
world-placed s b there =
    placed_in pulled s b (refl, (refl, (refl, (refl, tt)))) (sym (block_at-world s) ∙ there)

commit2_lem_example :
    ((p : Pulling) × (pull_loop world 4 (slot_of 1 1 ∷ []) [] ((pos 0, slot_of 1 1) ∷ []) ≡ done p)
      × ((s : Slot) → (contains s (slots p.pulled) ≡ true) ↔ Reach (block_at world) (slot_of 1 1) s)
      × AreHighest world (pos 0) (slot_of 1 1) p.pulled p.anchors
      × Executes world 4 submitted p)
    ⊎ ((s : Slot) × (commit2 world 4 submitted ≡ waits)
        × Candidate (block_at world) (slot_of 1 1) s
        × (world.pull s ≡ never))
commit2_lem_example =
    commit2_lem world 4 submitted (slots pulled) world-Covers (unfold lookup in omega arith)
      world-placed

abbrev executed_slots : Ended Commit → Ended (List Slot)
executed_slots (done (executed, gc)) = done (map (λ (b : Block). b.header.slot) executed)
executed_slots waits = waits
executed_slots runs_on = runs_on

-- The leader's block goes last, behind the two that it reaches.
commits_three :
    executed_slots (commit2 world 5 submitted) ≡ done (slot_of 0 1 ∷ slot_of 2 0 ∷ slot_of 1 1 ∷ [])
unfolding commit2 pull_loop pull_turn lookup insert update_anchor commit_anchors sort insert_sorted
    commit_anchor walk_pulled get_or exec_all commit_less delete
commits_three = refl

-- The DAG never gets the block of node 2.
abbrev partial_world : World
partial_world = record world {
  pull = λ s. if s == slot_of 2 0 then never else answer (in_pulled pulled s);
}

waits_for_one : commit2 partial_world 5 submitted ≡ waits
unfolding commit2 pull_loop pull_turn lookup insert update_anchor
waits_for_one = refl
