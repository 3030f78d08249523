-- ===== src/Tests/Anchors.antt =====
-- Runs of the DAG: commit requests and cleanings.
use loom.Message.{Block, CommitReq, GcReq, commit_req, gc_req}
use loom.Dag.{Dag, Sent, submit, row, set_row, line, mark, get, new_dag}
use loom.Dag.Handlers.{
  handle_commit_req, handle_clean_req, is_anchor_ready, newer, cut, clean_line, clean_lines, step,
  run, anchor_loop, try_commit,
}
use loom.Dag.Commits.{
  is_led, rounds, rounds_to, is_anchor_ready_lem, awaited, noted, IsNotLater, NoneFrom,
  IsLastSupport, commit_lem,
}
use loom.Dag.Cleanup.{new_mark, clean_lem}
use loom.Dag.Hazards.{clean_dropped, clean_delayed}
use loom.Prelude.Int.{◌≤ℤ◌}
use loom.Tests.{empty_dag, block_of}
use loom.Tests.Blocks.{one_block, one_block-IsWellFormed}
use loom.Prelude.{
  ℕ, ◌≡◌, refl, ◌⊎◌, true, false, none, some, List, [], ◌∷◌, arith, if◌then◌else◌, all,
}
use loom.Prelude.Int.{pos, negsuc, leb_ℤ, ◌+ℤ◌, ◌-ℤ◌}
use loom.Prelude.Eq.{nat_eq, int_eq, string_eq, list_eq}
use loom.Prelude.Result.{ok, panic, nil_pointer}
use loom.Prelude.Map.{lookup, insert, delete_if, get_or}

-- Rounds 0 and 2 have leaders.
abbrev led : Dag
led = record empty_dag { uncommitted = (pos 0, pos 1) ∷ (pos 2, pos 3) ∷ [] }

is_anchor_ready_lem_example :
    is_anchor_ready (pos 4) led
    ≡ ok (
        all
          (is_led led.uncommitted)
          (rounds (rounds_to (led.commit_mark +ℤ pos 2) (pos 4)) (led.commit_mark +ℤ pos 2)))
is_anchor_ready_lem_example =
    is_anchor_ready_lem (pos 4) led (omega arith) (unfold new_dag in omega arith)

abbrev request : ℕ → CommitReq
request round = record { leader = pos 1; round = pos round }

-- The leader's third block of round 0 supports its first.
abbrev supported : Dag
supported = record empty_dag {
  cache = [] ∷ (none ∷ none ∷ some (block_of 1 2 0 0) ∷ []) ∷ [] ∷ [] ∷ [];
}

supported-line : line (pos 1) supported ≡ ok (none ∷ none ∷ some (block_of 1 2 0 0) ∷ [])
unfolding row
supported-line = refl

abbrev own_pending : (d : Dag) → CommitReq → CommitReq
own_pending d req = newer req d.pending_commit

commit_lem_example :
    (pos 0 ≤ℤ pos 0)
    × IsNotLater none (request 0)
    × ((request 0 ≡ request 0) ⊎ (supported.pending_commit ≡ some (request 0)))
    × (((all (is_led (noted (request 0) supported).uncommitted) (awaited (pos 0) supported) ≡ false)
          × (handle_commit_req (request 0) supported ≡ ok (noted (request 0) supported, [])))
        ⊎ ((all (is_led (noted (request 0) supported).uncommitted) (awaited (pos 0) supported)
              ≡ true)
            × (b : Block) × IsLastSupport (pos 0) (none ∷ none ∷ some (block_of 1 2 0 0) ∷ []) b
            × (handle_commit_req (request 0) supported
                ≡ ok (
                  noted (request 0) supported,
                  submit (record {
                    slot = record { author = pos 1; height = b.header.slot.height -ℤ pos 2 };
                    round = pos 0;
                  })
                      ∷ [],
                )))
        ⊎ ((all (is_led (noted (request 0) supported).uncommitted) (awaited (pos 0) supported)
              ≡ true)
            × NoneFrom (pos 0) (none ∷ none ∷ some (block_of 1 2 0 0) ∷ []) 0
            × (handle_commit_req (request 0) supported
                ≡ ok (record (noted (request 0) supported) { pending_commit = none }, []))))
unfolding new_dag
commit_lem_example =
    commit_lem (request 0) supported (none ∷ none ∷ some (block_of 1 2 0 0) ∷ []) (omega arith)
      (omega arith) supported-line

empty_line : line (pos 1) empty_dag ≡ ok []
unfolding row new_dag
empty_line = refl

clean_dropped_example :
    run (commit_req (request 0) ∷ gc_req (record { new_watermark = [] }) ∷ []) empty_dag
    ≡ panic nil_pointer
unfolding new_dag rounds_to ◌+ℤ◌ insert lookup
clean_dropped_example =
    clean_dropped (request 0) (record { new_watermark = [] }) empty_dag [] (omega arith)
      (omega arith) empty_line refl (λ j c le e. cc)

-- Round 2 has no leader yet.
abbrev behind : Dag
behind = record empty_dag { commit_mark = pos 0; pending_commit = some (request 4) }

abbrev jumped : Dag
jumped = record empty_dag { commit_mark = pos 4; pending_commit = some (request 4) }

delayed_run :
    run
      (commit_req (record { leader = pos 1; round = pos 4 })
        ∷ gc_req (record { new_watermark = [] })
        ∷ [])
      behind
    ≡ ok (jumped, [])
unfolding run step handle_commit_req handle_clean_req try_commit is_anchor_ready anchor_loop
    clean_lines new_dag ◌+ℤ◌ insert lookup delete_if
delayed_run = refl

abbrev silence : List Sent
silence = []

clean_delayed_example :
    (silence ≡ []) × (jumped.commit_mark ≡ pos 4) × (lookup (pos 4) jumped.uncommitted ≡ none)
unfolding new_dag rounds_to ◌+ℤ◌ insert lookup
clean_delayed_example =
    clean_delayed (request 4) (record { new_watermark = [] }) behind jumped [] [] (omega arith)
      (omega arith) (unfold row in refl) refl delayed_run

abbrev committing : Dag
committing = record one_block {
  pending_commit = some (request 0);
  uncommitted = (pos 0, pos 1) ∷ [];
}

abbrev wiped : Dag
wiped = record one_block {
  cache = [] ∷ (some (block_of 1 1 0 0) ∷ []) ∷ [] ∷ [] ∷ [];
  cache_mark = (pos 0, negsuc 0) ∷ (pos 1, pos 0) ∷ (pos 2, negsuc 0) ∷ (pos 3, negsuc 0) ∷ [];
  pending_commit = some (request 0);
  commit_mark = pos 0;
}

abbrev cleaning : GcReq
cleaning = record { new_watermark = (pos 1, pos 0) ∷ [] }

cleaned_up : handle_clean_req cleaning committing ≡ ok (wiped, [])
unfolding handle_clean_req clean_lines clean_line cut row set_row lookup get_or insert delete_if
    new_dag ◌-ℤ◌
cleaned_up = refl

clean_lem_example :
    (silence ≡ [])
    × (mark (pos 1) wiped ≡ new_mark (pos 1) cleaning.new_watermark committing)
    × (get (pos 1) (pos 1) wiped ≡ get (pos 1) (pos 1) committing)
    × (wiped.commit_mark ≡ pos 0)
    × (lookup (pos 2) wiped.uncommitted
        ≡ (if leb_ℤ (pos 2) (pos 0) then none else lookup (pos 2) committing.uncommitted))
    × (wiped.pending ≡ [])
clean_lem_example =
    clean_lem cleaning committing wiped [] (request 0) (pos 1) (pos 1) (pos 2)
      one_block-IsWellFormed (omega arith, tt) (refl, tt) refl
      (unfold new_mark get_or lookup new_dag in omega arith) (omega arith)
      (unfold new_mark lookup in omega arith) cleaned_up
