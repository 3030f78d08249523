-- ===== src/Tests/Proposals.antt =====
-- Runs of the core's handlers with stand-in primitives.
use loom.Prelude.Result.{explicit_panic}
use loom.Core.{received, dispatch}
use loom.Crypto.{verify}
use loom.Committee.{name}
use loom.Message.{RequestBlockMsg, ReplyBlockMsg, request_block, reply_block}
use loom.Core.Proposing.{stranger_panics}
use loom.Message.Hash.{bits, bits_fuel}
use loom.Prelude.{length, ◌++◌, ℕ, ◌≤◌, ◌↔◌, All, arith}
use loom.Committee.{hight_threshold}
use loom.Message.Hash.{echo_hash}
use loom.Aggregator.Counting.{distinct_authors}
use loom.Core.{run_events}
use loom.Core.Voting.{proposed, voter, arrivals, echoes_propose_once}
use loom.Errors.{err_signature}
use loom.Message.{Block, Echo, propose, echo, push_block, ref_req, msg_type}
use loom.Message.Hash.{block_hash, append_int}
use loom.Message.Make.{block_verify, echo_verify}
use loom.Dag.Handlers.{is_odd}
use loom.Core.{
  Effect, send, to_dag, Inputs, Core, new_core, invoke_elect, generate_block, handle_propose,
  take_blocks,
}
use loom.Core.Proposing.{
  stored, pushed, keep, generate_block_lem, handle_propose_lem, take_blocks_lem,
}
use loom.Tests.{four, toy, service, empty_batch, block_of}
use loom.Tests.Signing.{key_1}
use loom.Prelude.{
  ◌≤◌, ◌<◌, ◌≡◌, refl, ◌⊎◌, Bool, true, false, none, some, List, [], ◌∷◌, if◌then◌else◌,
}
use loom.Prelude.Int.{pos, ◌+ℤ◌, ◌-ℤ◌}
use loom.Prelude.Eq.{◌==◌, nat_eq, int_eq, string_eq, list_eq}
use loom.Prelude.Result.{ok, panic, explicit_panic}
use loom.Prelude.Map.{lookup}

abbrev core_1 : Core toy
core_1 = new_core toy (pos 1) four (pos 0) service

-- Three references open round 1, in which the leader of round 0 is elected.
abbrev inputs : Inputs
inputs = record {
  ref = (block_of 0 2 0 0).header ∷ (block_of 1 2 0 0).header ∷ (block_of 2 2 0 0).header ∷ [];
  batch = empty_batch;
  resp_ch = 3;
}

generate_block_lem_example :
    (b : Block) × (out : List Effect) × (generate_block toy inputs (pos 3) (pos 0) (pos 0) core_1
      ≡ ok (b, to_dag (ref_req (record { round = pos 0; ref_resp_ch = 3 })) ∷ out))
    × (block_verify toy b four ≡ ok true)
    × (b.header.slot ≡ record { author = pos 1; height = pos 3 })
    × (b.batch ≡ empty_batch)
    × (b.ref ≡ inputs.ref)
    × (((3 ≤ 1) × (b.header.round ≡ pos 0) × (b.header.first_ref_h ≡ pos 0) × (out ≡ []))
        ⊎ ((1 < 3)
            × (b.header.round ≡ pos 0 +ℤ pos 1)
            × (b.header.first_ref_h ≡ pos 3)
            × (out ≡ (
                if is_odd (pos 0 +ℤ pos 1)
                then invoke_elect toy (pos 0 +ℤ pos 1 -ℤ pos 1) core_1
                else []))))
generate_block_lem_example = generate_block_lem toy inputs (pos 3) (pos 0) (pos 0) core_1 key_1

refused : block_verify toy (block_of 0 2 0 0) four ≡ ok false
unfolding block_verify verify name lookup block_hash append_int bits bits_fuel
refused = refl

handle_propose_lem_example :
    ((false ≡ true)
      × ((e : Echo) × (handle_propose toy (block_of 0 2 0 0) core_1
            ≡ ok (
              core_1,
              none,
              send (pos 1) (pos 0) (echo e) ∷ to_dag (push_block (block_of 0 2 0 0)) ∷ [],
            ))
          × (echo_verify toy e four ≡ ok true)
          × (e.author ≡ pos 1)
          × (e.header ≡ (block_of 0 2 0 0).header)))
    ⊎ ((false ≡ false)
        × (handle_propose toy (block_of 0 2 0 0) core_1
            ≡ ok (
              core_1,
              some (err_signature (msg_type (propose (block_of 0 2 0 0))) (pos 2) (pos 0)),
              [],
            )))
handle_propose_lem_example = handle_propose_lem toy (block_of 0 2 0 0) core_1 false key_1 refused

-- The digest of the block: author 0 and height 2 in binary digits.
abbrev signed_block : Block
signed_block = record (block_of 0 2 0 0) { sig = record { sig = 48 ∷ 49 ∷ 48 ∷ [] } }

abbrev mixed : List Block
mixed = block_of 0 2 0 0 ∷ signed_block ∷ []

abbrev is_signed : Block → Bool
is_signed b = b.sig.sig == 48 ∷ 49 ∷ 48 ∷ []

accepted : block_verify toy signed_block four ≡ ok true
unfolding block_verify verify name lookup block_hash append_int bits bits_fuel
accepted = refl

take_blocks_lem_example :
    (out : List Effect) × (take_blocks toy mixed core_1 ≡ ok (core_1, out))
    × (stored out ≡ mixed)
    × (pushed out ≡ keep is_signed mixed)
take_blocks_lem_example = take_blocks_lem toy mixed core_1 is_signed key_1 (refused, (accepted, tt))

abbrev strange_echo : Echo
strange_echo = record {
  author = pos 9;
  header = (block_of 0 2 0 0).header;
  sig = record { sig = [] };
}

abbrev strange_request : RequestBlockMsg
strange_request = record {
  author = pos 9;
  miss_block = [];
  signature = record { sig = [] };
  req_id = pos 0;
  ts = pos 0;
}

abbrev strange_reply : ReplyBlockMsg
strange_reply = record {
  author = pos 9;
  blocks = [];
  req_id = pos 0;
  signature = record { sig = [] };
}

stranger_panics_example :
    (dispatch toy (received (propose (block_of 9 2 0 0))) inputs core_1 ≡ panic explicit_panic)
    × (dispatch toy (received (echo strange_echo)) inputs core_1 ≡ panic explicit_panic)
    × (dispatch toy (received (request_block strange_request)) inputs core_1 ≡ panic explicit_panic)
    × (dispatch toy (received (reply_block strange_reply)) inputs core_1 ≡ panic explicit_panic)
unfolding lookup
stranger_panics_example =
    stranger_panics toy (block_of 9 2 0 0) strange_echo strange_request strange_reply inputs core_1
      refl refl refl refl

-- Accepted echoes of node 1's block of height 2: its signature is its digest.
abbrev vote : ℕ → List ℕ → Echo
vote i digits = record {
  author = pos i;
  header = (block_of 1 2 0 0).header;
  sig = record { sig = digits ++ 49 ∷ 49 ∷ 48 ∷ [] };
}

abbrev ballot : List Echo
ballot = vote 0 (48 ∷ []) ∷ vote 1 (49 ∷ []) ∷ vote 3 (49 ∷ 49 ∷ []) ∷ []

ballot_valid : All (λ e. (e.header.slot.height ≡ pos 2) × (echo_verify toy e four ≡ ok true)) ballot
unfolding echo_verify verify name lookup echo_hash append_int bits bits_fuel
ballot_valid = ((refl, refl), ((refl, refl), ((refl, refl), tt)))

echoes_propose_once_example :
    (end : Core toy) × (out : List Effect) × (run_events toy (arrivals toy inputs ballot) core_1
      ≡ ok (end, out))
    × (length (proposed out) ≤ 1)
    × ((length (proposed out) ≡ 1)
        ↔ (hight_threshold four ≤ length (distinct_authors voter [] ballot)))
    × All (λ b. b.header.slot.height ≡ pos 2 +ℤ pos 1) (proposed out)
echoes_propose_once_example =
    echoes_propose_once toy (pos 2) ballot inputs core_1 key_1 (unfold lookup in refl) (omega arith)
      ballot_valid (refl, (refl, (refl, tt)))
