-- ===== src/Tests/Blocks.antt =====
-- Runs of the DAG: blocks pushed, pulled and cited.
use loom.Message.{slot_eq, Header, Block, BlockPullReq, push_block}
use loom.Dag.{Line, Dag, Sent, headers, block, row, set_row, line, mark, get, get_at, new_dag}
use loom.Dag.Handlers.{
  push_line, answer, push_at, handle_block_push_req, handle_block_pull_req, handle_ref_req, step,
  run, pull_at,
}
use loom.Dag.Invariant.{IsWellFormed}
use loom.Dag.Steps.{step-IsWellFormed, run-IsWellFormed, new_dag-IsWellFormed}
use loom.Dag.Blocks.{get-push, pull_lem, push-pull}
use loom.Dag.Latest.{IsRef, Listed, IsLatest}
use loom.Dag.Refs.{author_of, ref_lem}
use loom.Prelude.Distinct.{Distinct}
use loom.Tests.{four, empty_dag, slot_of, block_of}
use loom.Prelude.{
  ℕ, ◌≤◌, ◌<◌, ◌≡◌, ◌↔◌, refl, ◌⊎◌, ◌&&◌, none, some, List, [], ◌∷◌, map, arith, if◌then◌else◌,
  length, get_last?,
}
use loom.Prelude.Int.{pos, ◌≤ℤ◌, ◌<ℤ◌, ◌-ℤ◌}
use loom.Prelude.Eq.{◌==◌, nat_eq, int_eq, string_eq, list_eq}
use loom.Prelude.Result.{ok}
use loom.Prelude.Map.{lookup, insert, get_or}

-- Node 1 holds its block of height 1 alone; its block of height 0 is nil.
abbrev pub one_block : Dag
one_block = record empty_dag { cache = [] ∷ (none ∷ some (block_of 1 1 0 0) ∷ []) ∷ [] ∷ [] ∷ [] }

first_push : handle_block_push_req (block_of 1 1 0 0) empty_dag ≡ ok (one_block, [])
unfolding handle_block_push_req push_at push_line answer row set_row lookup get_or new_dag ◌-ℤ◌
first_push = refl

empty_dag-IsWellFormed : IsWellFormed empty_dag
unfolding new_dag
empty_dag-IsWellFormed = new_dag-IsWellFormed (pos 0) four

run-IsWellFormed_example : IsWellFormed one_block
run-IsWellFormed_example =
    run-IsWellFormed (push_block (block_of 1 1 0 0) ∷ []) empty_dag one_block [] (omega arith, tt)
      empty_dag-IsWellFormed (unfold run step in rw first_push refl)

get-push_example : get (pos 1) (pos 1) one_block ≡ (
    if (pos 1 == pos 1) && (pos 1 == pos 1)
    then ok (some (block_of 1 1 0 0))
    else get (pos 1) (pos 1) empty_dag)
get-push_example =
    get-push (block_of 1 1 0 0) empty_dag one_block [] (pos 1) (pos 1) empty_dag-IsWellFormed
      (omega arith) (unfold get_or lookup new_dag in omega arith) first_push (omega arith)
      (unfold get_or lookup new_dag in omega arith)

abbrev pull_of : ℕ → BlockPullReq
pull_of height = record { slot = slot_of 1 height; block_pull_ch = 5 }

abbrev waiting : Dag
waiting = record one_block { pending = (slot_of 1 0, 5) ∷ [] }

abbrev filled : Dag
filled = record waiting {
  cache = [] ∷ (some (block_of 1 0 0 0) ∷ some (block_of 1 1 0 0) ∷ []) ∷ [] ∷ [] ∷ [];
}

pulled : handle_block_pull_req (pull_of 0) one_block ≡ ok (waiting, [])
unfolding handle_block_pull_req pull_at row lookup get_or new_dag ◌-ℤ◌ insert
pulled = refl

arrived :
    handle_block_push_req (block_of 1 0 0 0) waiting
    ≡ ok (filled, block 5 (some (block_of 1 0 0 0)) ∷ [])
unfolding handle_block_push_req push_at push_line answer row set_row lookup get_or new_dag ◌-ℤ◌
arrived = refl

arrived_again :
    handle_block_push_req (block_of 1 0 0 0) filled
    ≡ ok (filled, block 5 (some (block_of 1 0 0 0)) ∷ [])
unfolding handle_block_push_req push_at push_line answer row set_row lookup get_or new_dag ◌-ℤ◌
arrived_again = refl

pub one_block-IsWellFormed : IsWellFormed one_block
one_block-IsWellFormed =
    step-IsWellFormed (push_block (block_of 1 1 0 0)) empty_dag one_block [] (omega arith)
      empty_dag-IsWellFormed (unfold step in first_push)

second_line : line (pos 1) one_block ≡ ok (none ∷ some (block_of 1 1 0 0) ∷ [])
unfolding row
second_line = refl

pull_lem_example :
    ((pos 0 ≤ℤ mark (pos 1) one_block)
      × (handle_block_pull_req (pull_of 0) one_block ≡ ok (one_block, block 5 none ∷ [])))
    ⊎ ((b : Block) × (mark (pos 1) one_block <ℤ pos 0)
        × (get (pos 1) (pos 0) one_block ≡ ok (some b))
        × (b.header.slot ≡ slot_of 1 0)
        × (handle_block_pull_req (pull_of 0) one_block ≡ ok (one_block, block 5 (some b) ∷ [])))
    ⊎ ((mark (pos 1) one_block <ℤ pos 0)
        × (get (pos 1) (pos 0) one_block ≡ ok none)
        × (handle_block_pull_req (pull_of 0) one_block
            ≡ ok (record one_block { pending = insert (slot_of 1 0) 5 one_block.pending }, [])))
pull_lem_example =
    pull_lem (pull_of 0) one_block (none ∷ some (block_of 1 1 0 0) ∷ []) one_block-IsWellFormed
      (omega arith) second_line

missing_first : get (pos 1) (pos 0) one_block ≡ ok none
unfolding get get_at row get_or lookup new_dag ◌-ℤ◌
missing_first = refl

abbrev silence : List Sent
silence = []

push-pull_example :
    (silence ≡ [])
    × (block 5 (some (block_of 1 0 0 0)) ∷ [] ≡ block 5 (some (block_of 1 0 0 0)) ∷ [])
    × (block 5 (some (block_of 1 0 0 0)) ∷ [] ≡ block 5 (some (block_of 1 0 0 0)) ∷ [])
push-pull_example =
    push-pull (pull_of 0) (block_of 1 0 0 0) (block_of 1 0 0 0) one_block waiting filled filled []
      (block 5 (some (block_of 1 0 0 0)) ∷ []) (block 5 (some (block_of 1 0 0 0)) ∷ [])
      one_block-IsWellFormed (omega arith) (unfold get_or lookup new_dag in omega arith)
      missing_first refl refl pulled arrived arrived_again

own_line : line (pos 0) one_block ≡ ok []
unfolding row new_dag
own_line = refl

ref_lem_example :
    (refs : List Header) × (reply : List Header) × (handle_ref_req
        (record { round = pos 1; ref_resp_ch = 4 })
        one_block
      ≡ ok (one_block, headers 4 reply ∷ []))
    × ((h : Header) → Listed h refs ↔ (IsLatest one_block.cache h × IsRef (pos 1) h))
    × Distinct (map author_of refs)
    × (((3 ≤ length refs) × (reply ≡ refs))
        ⊎ ((length refs < 3)
            × (b : Block) × (get_last? (let l : Line = [] in l) ≡ some (some b))
            × (reply ≡ b.header ∷ []))
        ⊎ ((length refs < 3) × ((let l : Line = [] in l) ≡ []) × (reply ≡ refs)))
ref_lem_example =
    unfold new_dag in
    ref_lem (record { round = pos 1; ref_resp_ch = 4 }) one_block [] one_block-IsWellFormed own_line
