-- ===== src/Core/Proposing.antt =====
-- What the handlers of core/core.go do with a proposal and a reply, and what a node proposes.
use loom.Prelude.Result.{explicit_panic}
use loom.Prelude.Map.{lookup}
use loom.Prelude.{All}
use loom.Core.{received, dispatch, handle_echo, handle_request_block, handle_reply_block}
use loom.Message.{RequestBlockMsg, request_block, reply_block}
use loom.Message.Make.{request_block_verify, reply_block_verify}
use loom.Crypto.{verify}
use loom.Committee.{name}
use loom.Committee.{Committee}
use loom.Crypto.{Signature, Digest}
use loom.Message.Hash.{echo_hash, request_block_hash, reply_block_hash}
use loom.Errors.{err_signature}
use loom.Committee.{NodeId}
use loom.Crypto.{Primitives}
use loom.Message.{Block, Echo, ReplyBlockMsg, propose, echo, push_block, ref_req, msg_type}
use loom.Message.Hash.{block_hash}
use loom.Message.Make.{block_verify, echo_verify}
use loom.Message.Signed.{IsKeyPair, block_verify-new_block, echo_verify-new_echo}
use loom.Dag.Handlers.{is_odd}
use loom.Core.{
  Effect, send, to_dag, store_block, Inputs, Core, invoke_elect, generate_block, handle_propose,
  take_blocks,
}
use loom.Prelude.{
  ◌≤◌, ◌<◌, ◌≡◌, refl, ◌⊎◌, inl, inr, Bool, true, false, none, some, List, [], ◌∷◌, arith, ltb,
  if◌then◌else◌, Bool-cases, ltb→lt, length, All,
}
use loom.Prelude.Int.{ℤ, pos, ◌+ℤ◌, ◌-ℤ◌}
use loom.Prelude.Eq.{nat_eq, int_eq, string_eq, list_eq}
use loom.Prelude.Result.{ok, panic, explicit_panic}
use loom.Prelude.Map.{lookup}

-- The blocks that a list of effects gives to the store.
unfoldable pub stored : List Effect → List Block
stored [] = []
stored (store_block d b ∷ out) = b ∷ stored out
stored (x ∷ out) = stored out

-- The blocks that a list of effects gives to the DAG.
unfoldable pub pushed : List Effect → List Block
pushed [] = []
pushed (to_dag (push_block b) ∷ out) = b ∷ pushed out
pushed (x ∷ out) = pushed out

unfoldable pub keep : (Block → Bool) → List Block → List Block
keep f [] = []
keep f (b ∷ bs) = if f b then b ∷ keep f bs else keep f bs

module _ (p : Primitives) where
  -- With a private key that belongs to its public key in the committee, a block that a node makes is made without a fault, is accepted under the node's committee, and
  -- stands at the height asked for with the references of the DAG and the batch of the pool. With at
  -- most one reference it stays in the round and keeps the first reference height; with more it is
  -- the first of the next round, and the node takes part in the election of the round it leaves if
  -- the next one is odd. The DAG is asked for references of the old round in both cases.
  pub generate_block_lem :
      (i : Inputs) (height round old : ℤ) (core : Core p)
      → IsKeyPair p core.committee core.node_id core.sig_service
      → (b : Block) × (out : List Effect) × (generate_block p i height round old core
          ≡ ok (b, to_dag (ref_req (record { round = round; ref_resp_ch = i.resp_ch })) ∷ out))
        × (block_verify p b core.committee ≡ ok true)
        × (b.header.slot ≡ record { author = core.node_id; height = height })
        × (b.batch ≡ i.batch)
        × (b.ref ≡ i.ref)
        × (((length i.ref ≤ 1)
              × (b.header.round ≡ round)
              × (b.header.first_ref_h ≡ old)
              × (out ≡ []))
            ⊎ ((1 < length i.ref)
                × (b.header.round ≡ round +ℤ pos 1)
                × (b.header.first_ref_h ≡ height)
                × (out ≡ (
                    if is_odd (round +ℤ pos 1)
                    then invoke_elect p (round +ℤ pos 1 -ℤ pos 1) core
                    else []))))
  unfolding generate_block
  generate_block_lem i height round old core k = elim (Bool-cases (ltb 1 (length i.ref))) [
    | inl many ↦
        let (b, made, valid, at_slot, in_round, first, batch, ref) =
          block_verify-new_block p core.committee core.node_id core.sig_service height
            (round +ℤ pos 1) height i.batch i.ref k in
        (
          b,
          _,
          rw (many, made) refl,
          valid,
          at_slot,
          batch,
          ref,
          inr (ltb→lt 1 (length i.ref) many, in_round, first, refl),
        )
    | inr few ↦
        let (b, made, valid, at_slot, in_round, first, batch, ref) =
          block_verify-new_block p core.committee core.node_id core.sig_service height round old
            i.batch i.ref k in
        (
          b,
          [],
          rw (few, made) refl,
          valid,
          at_slot,
          batch,
          ref,
          inl (ground arith, in_round, first, refl),
        )
  ]

  -- A proposal whose signature is checked without a fault, at a node whose private key belongs to its
  -- public key in the committee: if it is accepted, the node sends its
  -- author an echo of its header that the committee accepts from the node, and then gives the block to
  -- the DAG; if not, the handler returns the signature error and does nothing. The core's state stays.
  pub handle_propose_lem :
      (b : Block) (core : Core p) (valid : Bool)
      → IsKeyPair p core.committee core.node_id core.sig_service
      → block_verify p b core.committee ≡ ok valid
      → ((valid ≡ true)
          × ((e : Echo) × (handle_propose p b core
                ≡ ok (
                  core,
                  none,
                  send core.node_id b.header.slot.author (echo e) ∷ to_dag (push_block b) ∷ [],
                ))
              × (echo_verify p e core.committee ≡ ok true)
              × (e.author ≡ core.node_id)
              × (e.header ≡ b.header)))
        ⊎ ((valid ≡ false)
            × (handle_propose p b core
                ≡ ok (
                  core,
                  some (
                      err_signature
                        (msg_type (propose b))
                        b.header.slot.height
                        b.header.slot.author),
                  [],
                )))
  unfolding handle_propose
  handle_propose_lem b core true k v =
      let (e, made, accepted, author, header) =
        echo_verify-new_echo p core.committee core.node_id core.sig_service b k in
      inl (refl, (e, rw (v, made) refl, accepted, author, header))
  handle_propose_lem b core false k v = inr (refl, rw v refl)

  -- The blocks of a reply, whose signatures are checked without a fault, at a node whose private key
  -- belongs to its public key in the committee: all of them, also those that
  -- are refused, are written to the store, in their order; exactly the accepted ones are given to the
  -- DAG, in their order. The core's state stays.
  pub take_blocks_lem :
      (bs : List Block) (core : Core p) (accepts : Block → Bool)
      → IsKeyPair p core.committee core.node_id core.sig_service
      → All (λ b. block_verify p b core.committee ≡ ok (accepts b)) bs
      → (out : List Effect) × (take_blocks p bs core ≡ ok (core, out))
        × (stored out ≡ bs)
        × (pushed out ≡ keep accepts bs)
  unfolding take_blocks stored pushed keep
  take_blocks_lem [] core accepts k v = ([], refl, refl, refl)
  take_blocks_lem (b ∷ bs) core accepts k v =
      let (out, taken, all_stored, kept) = take_blocks_lem bs core accepts k v.1 in
      elim (handle_propose_lem b core (accepts b) k v.0) [
        | inl (yes_b, (e, done, _, _, _)) ↦ (
          store_block (block_hash p b) b
              ∷ send core.node_id b.header.slot.author (echo e)
              ∷ to_dag (push_block b)
              ∷ out,
          rw (done, taken) refl,
          rw all_stored refl,
          rw (kept, yes_b) refl,
        )
        | inr (no_b, done) ↦ (
          store_block (block_hash p b) b ∷ out,
          rw (done, taken) refl,
          rw all_stored refl,
          rw (kept, no_b) refl,
        )
      ]

  verify-stranger :
      (sig : Signature) (c : Committee) (a : NodeId) (d : Digest)
      → lookup a c.authorities ≡ none
      → verify p sig (name c a) d ≡ panic explicit_panic
  unfolding verify name
  verify-stranger sig c a d h = ground arith

  -- A proposal, an echo, a request or a reply whose author is not in the committee stops the node by a
  -- panic.
  pub stranger_panics :
      (b : Block) (e : Echo) (r : RequestBlockMsg) (y : ReplyBlockMsg) (i : Inputs) (core : Core p)
      → lookup b.header.slot.author core.committee.authorities ≡ none
      → lookup e.author core.committee.authorities ≡ none
      → lookup r.author core.committee.authorities ≡ none
      → lookup y.author core.committee.authorities ≡ none
      → (dispatch p (received (propose b)) i core ≡ panic explicit_panic)
        × (dispatch p (received (echo e)) i core ≡ panic explicit_panic)
        × (dispatch p (received (request_block r)) i core ≡ panic explicit_panic)
        × (dispatch p (received (reply_block y)) i core ≡ panic explicit_panic)
  unfolding dispatch handle_propose handle_echo handle_request_block handle_reply_block block_verify
      echo_verify request_block_verify reply_block_verify
  stranger_panics b e r y i core hb he hr hy =
      let key = core.committee in
      (
        rw (verify-stranger b.sig key b.header.slot.author (block_hash p b) hb) refl,
        rw (verify-stranger e.sig key e.author (echo_hash p e) he) refl,
        rw (verify-stranger r.signature key r.author (request_block_hash p r) hr) refl,
        rw (verify-stranger y.signature key y.author (reply_block_hash p y) hy) refl,
      )
