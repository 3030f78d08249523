-- ===== src/Core.antt =====
-- core/core.go: the handlers of the messages from the network, and the dispatch of `Run`.
-- A handler gives the new state, the error that it returns and what it does elsewhere, in order: what
-- it hands to the transmitor, to its own receive channel, to the DAG, to the store and to the
-- retriever. What it gets back in the middle, the references of the DAG and a batch of the pool, is
-- its `Inputs`. The errors of `RequestSignature` and of `NewBlock` are always nil, and those of gob's
-- encoder are left to the store.
pub mod Proposing
pub mod Voting
use loom.Errors.{Error, err_signature}
use loom.Committee.{NodeId, Committee, no_node}
use loom.Crypto.{Digest, Primitives, SigService}
use loom.Message.{
  Header, Batch, Block, Echo, Elect, RequestBlockMsg, ReplyBlockMsg, NetMessage, propose, echo,
  elect, request_block, reply_block, loop_back, Channel, DagMessage, push_block, ref_req,
  commit_req, msg_type,
}
use loom.Message.Hash.{block_hash}
use loom.Message.Make.{
  new_block, new_echo, new_elect_msg, block_verify, echo_verify, request_block_verify,
  reply_block_verify,
}
use loom.Aggregator.{Aggregator, new_aggregator, push, take}
use loom.Elector
use loom.Elector.{Elector, new_elector, try_get_leader, remove_by}
use loom.Dag.Handlers.{is_odd}
use loom.Prelude.{
  ℕ, zero, suc, ◌+◌, ◌-◌, ◌*◌, ◌/◌, ◌%◌, ◌^◌, ◌≤◌, ◌<◌, ◌≡◌, refl, sym, ap, ◌∙◌, ◌≢◌, ◌↔◌, ◌⊎◌, inl,
  inr, Bool, true, false, not, ◌&&◌, ◌||◌, Option, none, some, List, [], ◌∷◌, ◌++◌, map, arith, ltb,
  leb, eqb, if◌then◌else◌, Bool-cases, Option-cases, ltb→lt, lt→ltb, leb→le, length, length-append,
  All, any, all, get_elem?, set, drop, replicate, get_last?, List-cases, length-set,
  get_elem?-set_self, get_elem?-set_ne, get_elem?-append_left, get_elem?-append_right,
  get_elem?-out, get_elem?-in, get_elem?-drop, get_elem?-replicate, length-replicate, length-drop,
  length-map,
}
use loom.Prelude.Int.{
  ℤ, pos, negsuc, pos_part, neg_part, ◌≤ℤ◌, ◌<ℤ◌, ltb_ℤ, leb_ℤ, eqb_ℤ, eqb_ℤ_iff, eq_of_parts,
  IsInt, wrap, wrap_parts, ◌+ℤ◌, ◌-ℤ◌, IsSmall, -ℤ_parts, +ℤ_parts, parts_apart, offset_pos,
  offset_neg,
}
use loom.Prelude.Eq.{Eq, ◌==◌, nat_eq, int_eq, string_eq, list_eq, ==-refl, ==-false, ==-cases}
use loom.Prelude.Result.{
  Result, ok, panic, Fault, nil_pointer, index_out_of_range, slice_out_of_range, explicit_panic,
  divide_by_zero, endless_loop, ◌>>=◌, or_panic, or_panic-eq-ok, Result-cases, >>=-eq-ok, >>=-ok,
}
use loom.Prelude.Map.{
  Map, lookup, insert, delete, delete_if, get_or, lookup-insert, lookup-delete, lookup-delete_if,
  get_or-cons, get_or-insert,
}

-- What the code does outside its own state.
pub data Effect : Type 0 where
  -- `transmitor.Send(from, to, msg)`; `no_node` sends to all others.
  send : NodeId → NodeId → NetMessage → Effect
  -- `transmitor.RecvChannel() <- msg`
  receive : NetMessage → Effect
  -- `dagCh <- msg`
  to_dag : DagMessage → Effect
  -- `store.Write` of a block under its digest, by `storeBlock`
  store_block : Digest → Block → Effect
  -- `go retriever.processRequest` and `go retriever.processReply`
  process_request : RequestBlockMsg → Effect
  process_reply : ReplyBlockMsg → Effect

-- The answers that a handler waits for.
pub record Inputs : Type 0 where
  pub ref : List Header
  pub batch : Batch
  pub resp_ch : Channel

-- What arrives at the `select` of `Run`.
pub data Event : Type 0 where
  received : NetMessage → Event
  looped_back : Block → Event

module _ (p : Primitives) where
  pub record Core : Type 0 where
    pub node_id : NodeId
    pub committee : Committee
    pub faults : ℤ
    pub sig_service : SigService p
    pub elector : Elector p
    pub vote_ag : Map ℤ (Aggregator Echo)

  abbrev pub new_core : NodeId → Committee → ℤ → SigService p → Core
  new_core node_id c faults s = record {
    node_id = node_id;
    committee = c;
    faults = faults;
    sig_service = s;
    elector = new_elector p s c;
    vote_ag = [];
  }

  abbrev pub Done : Type 0
  Done = Result (Core × Option Error × List Effect)

  -- `invokeElect`; its error is dropped by its caller.
  unfoldable pub invoke_elect : ℤ → Core → List Effect
  unfolding new_elect_msg
  invoke_elect round core = elim (new_elect_msg p core.node_id round core.sig_service) [
    | none ↦ []
    | some e ↦ send core.node_id no_node (elect e) ∷ receive (elect e) ∷ []
  ]

  -- `generateBlock`: more than one reference opens a new round.
  unfoldable pub generate_block : Inputs → ℤ → ℤ → ℤ → Core → Result (Block × List Effect)
  unfolding new_block
  generate_block i height round old_first_ref_h core =
      let asked = to_dag (ref_req (record { round = round; ref_resp_ch = i.resp_ch })) in
      let opens = ltb 1 (length i.ref) in
      let round' = if opens then round +ℤ pos 1 else round in
      let first_ref_h = if opens then height else old_first_ref_h in
      let elects = if opens && is_odd round' then invoke_elect (round' -ℤ pos 1) core else [] in
      new_block p core.node_id height round' first_ref_h i.batch i.ref core.sig_service >>= λ b.
      ok (b, asked ∷ elects)

  unfoldable pub propose_block : Inputs → ℤ → ℤ → ℤ → Core → Result (List Effect)
  unfolding generate_block
  propose_block i height round old_first_ref_h core =
      generate_block i height round old_first_ref_h core >>= λ (b, out).
      ok (out ++ send core.node_id no_node (propose b) ∷ receive (propose b) ∷ [])

  unfoldable pub handle_propose : Block → Core → Done
  unfolding block_verify new_echo
  handle_propose b core = block_verify p b core.committee >>= λ valid.
      if not valid
      then ok (
        core,
        some (err_signature (msg_type (propose b)) b.header.slot.height b.header.slot.author),
        [],
      )
      else (new_echo p core.node_id b core.sig_service >>= λ e. ok (
        core,
        none,
        send core.node_id b.header.slot.author (echo e) ∷ to_dag (push_block b) ∷ [],
      ))

  abbrev pub or_new : Committee → Option (Aggregator Echo) → Aggregator Echo
  or_new c none = new_aggregator c
  or_new c (some ag) = ag

  -- The aggregator of a height, and writing it back.
  abbrev pub votes_at : ℤ → Core → Aggregator Echo
  votes_at height core = or_new core.committee (lookup height core.vote_ag)

  abbrev pub with_votes : ℤ → Aggregator Echo → Core → Core
  with_votes height ag core = record core { vote_ag = insert height ag core.vote_ag }

  -- A full count makes the node propose its next block; the error is dropped.
  unfoldable pub propose_next : Inputs → Echo → Option (List Echo) → Core → Done
  unfolding propose_block
  propose_next i e none core = ok (core, none, [])
  propose_next i e (some votes) core =
      propose_block i (e.header.slot.height +ℤ pos 1) e.header.round e.header.first_ref_h core
      >>= λ out. ok (core, none, out)

  -- The part of `handleEcho` behind the check of the signature.
  unfoldable pub count_echo : Inputs → Echo → Core → Done
  count_echo i e core =
      let height = e.header.slot.height in
      let (votes, ag) = take (push e.author e (votes_at height core)) in
      propose_next i e votes (with_votes height ag core)

  unfoldable pub handle_echo : Inputs → Echo → Core → Done
  unfolding echo_verify
  handle_echo i e core = echo_verify p e core.committee >>= λ valid.
      if not valid
      then ok (core, some (err_signature (msg_type (echo e)) e.header.slot.height e.author), [])
      else count_echo i e core

  -- The part of `handleElect` behind `Add`.
  unfoldable pub announce : Elect → Elector p → Core → Done
  announce m e core =
      let (known, leader) = try_get_leader p m.round e in
      if known
      then ok (
        record core { elector = remove_by p m.round e },
        none,
        to_dag (commit_req (record { leader = leader; round = m.round })) ∷ [],
      )
      else ok (record core { elector = e }, none, [])

  unfoldable pub handle_elect : Elect → Core → Done
  unfolding announce
  handle_elect m core = Elector.add p m core.elector >>= λ (e, err). elim err [
    | some x ↦ ok (record core { elector = e }, some x, [])
    | none ↦ announce m e core
  ]

  unfoldable pub handle_request_block : RequestBlockMsg → Core → Done
  unfolding request_block_verify
  handle_request_block r core = request_block_verify p r core.committee >>= λ valid.
      if not valid
      then ok (core, some (err_signature (msg_type (request_block r)) (negsuc 0) r.author), [])
      else ok (core, none, process_request r ∷ [])

  -- The loop of `handleReplyBlock`; an error of a block is dropped.
  unfoldable pub take_blocks : List Block → Core → Result (Core × List Effect)
  take_blocks [] core = ok (core, [])
  take_blocks (b ∷ bs) core = handle_propose b core >>= λ (core', err, out).
      take_blocks bs core' >>= λ (end, rest). ok (end, store_block (block_hash p b) b ∷ out ++ rest)

  unfoldable pub handle_reply_block : ReplyBlockMsg → Core → Done
  unfolding reply_block_verify take_blocks
  handle_reply_block r core = reply_block_verify p r core.committee >>= λ valid.
      if not valid
      then ok (core, some (err_signature (msg_type (reply_block r)) (negsuc 0) r.author), [])
      else (take_blocks r.blocks core >>= λ (core', out).
          ok (core', none, out ++ process_reply r ∷ []))

  unfoldable pub handle_loop_back : Block → Core → Done
  handle_loop_back b core = handle_propose b core >>= λ (core', err, out). ok (core', none, out)

  -- One turn of `Run`. The switch has no case for a loop-back message of the network.
  unfoldable pub dispatch : Event → Inputs → Core → Done
  dispatch (looped_back b) i core = handle_loop_back b core
  dispatch (received (propose b)) i core = handle_propose b core
  dispatch (received (echo e)) i core = handle_echo i e core
  dispatch (received (elect m)) i core = handle_elect m core
  dispatch (received (request_block r)) i core = handle_request_block r core
  dispatch (received (reply_block r)) i core = handle_reply_block r core
  dispatch (received (loop_back l)) i core = ok (core, none, [])

  -- The loop of `Run`: an error is logged.
  unfoldable pub run_events : List (Event × Inputs) → Core → Result (Core × List Effect)
  run_events [] core = ok (core, [])
  run_events ((e, i) ∷ es) core = dispatch e i core >>= λ (core', err, out).
      run_events es core' >>= λ (end, rest). ok (end, out ++ rest)

  -- `Run`: a node whose id is below `Faults` does nothing.
  unfoldable pub run_core : Inputs → List (Event × Inputs) → Core → Result (Core × List Effect)
  unfolding propose_block
  run_core first es core =
      if leb_ℤ core.faults core.node_id
      then (propose_block first (pos 0) (pos 0) (pos 0) core >>= λ out.
          run_events es core >>= λ (end, rest). ok (end, out ++ rest))
      else ok (core, [])
