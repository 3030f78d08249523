-- ===== src/Retriever.antt =====
-- core/retriever.go: the requests for missing blocks, their replies, and the blocks that are looped back.
-- `reqChannel` and the ticker make the turns of `run`, one after the other; a turn carries the clock's
-- reading. `requestBlocks` and `processReply` put one turn each on the channel. The set `pending` is
-- the list of its members. A range over the map of requests has the order of the association list.
-- `none` is an error of the store or of gob's decoder, which are parameters. The counter of requests
-- stays below 2^63. `read` is what the store answers to the goroutines of `loopBack`: a block that is there
-- stays there. Logging is left out.
pub mod Tracking
pub mod Backing
pub mod Pending
pub mod Counting
pub mod Waiting
pub mod Asking
use loom.Committee.{NodeId, no_node}
use loom.Crypto.{Bytes, Digest, Primitives, SigService}
use loom.Message.{Block, RequestBlockMsg, ReplyBlockMsg, NetMessage, request_block, reply_block}
use loom.Message.Make.{new_request_block, new_reply_block_msg}
use loom.Prelude.{
  ℕ, zero, suc, ◌+◌, ◌-◌, ◌*◌, ◌/◌, ◌%◌, ◌^◌, ◌≤◌, ◌<◌, ◌≡◌, refl, sym, ap, ◌∙◌, ◌≢◌, ◌↔◌, ◌⊎◌, inl,
  inr, Bool, true, false, not, ◌&&◌, ◌||◌, Option, none, some, List, [], ◌∷◌, ◌++◌, map, arith, ltb,
  leb, eqb, if◌then◌else◌, Bool-cases, Option-cases, ltb→lt, lt→ltb, leb→le, length, length-append,
  All, any, all, get_elem?, set, drop, replicate, get_last?, List-cases, length-set,
  get_elem?-set_self, get_elem?-set_ne, get_elem?-append_left, get_elem?-append_right,
  get_elem?-out, get_elem?-in, get_elem?-drop, get_elem?-replicate, length-replicate, length-drop,
  length-map,
}
use loom.Prelude.Int.{
  ℤ, pos, negsuc, pos_part, neg_part, ◌≤ℤ◌, ◌<ℤ◌, ltb_ℤ, leb_ℤ, eqb_ℤ, eqb_ℤ_iff, eq_of_parts,
  IsInt, wrap, wrap_parts, ◌+ℤ◌, ◌-ℤ◌, IsSmall, -ℤ_parts, +ℤ_parts, parts_apart, offset_pos,
  offset_neg,
}
use loom.Prelude.Eq.{Eq, ◌==◌, nat_eq, int_eq, string_eq, list_eq, ==-refl, ==-false, ==-cases}
use loom.Prelude.Result.{
  Result, ok, panic, Fault, nil_pointer, index_out_of_range, slice_out_of_range, explicit_panic,
  divide_by_zero, endless_loop, ◌>>=◌, or_panic, or_panic-eq-ok, Result-cases, >>=-eq-ok, >>=-ok,
}
use loom.Prelude.Map.{
  Map, lookup, insert, delete, delete_if, get_or, lookup-insert, lookup-delete, lookup-delete_if,
  get_or-cons, get_or-insert,
}
use loom.Prelude.Distinct.{
  contains, Distinct, Within, remove, common, length-common, contains-append, contains-remove,
  length-remove, length-Within, Distinct-append,
}

pub data Turn : Type 0 where
  -- A `ReqType` of the channel: the missing references, the node to ask and the block that waits.
  ask : List Digest → NodeId → Digest → Turn
  -- A `ReplyType`, with the id of the request.
  answered : ℤ → Turn
  tick : Turn

-- What a turn does elsewhere.
pub data Action : Type 0 where
  -- `transmitor.Send(from, to, msg)`
  transmit : NodeId → NodeId → NetMessage → Action
  -- `go r.loopBack(digest)`
  spawn_loop_back : Digest → Action

-- `requestBlocks` and `processReply`: what they put on the channel.
abbrev pub request_blocks : List Digest → NodeId → Digest → Turn
request_blocks digest node_id back_block = ask digest node_id back_block

abbrev pub process_reply : ReplyBlockMsg → Turn
process_reply reply = answered reply.req_id

-- The zero `Digest`.
abbrev pub no_digest : Digest
no_digest = replicate 32 0

module _ (p : Primitives) where
  pub record Retriever : Type 0 where
    pub node_id : NodeId
    pub cnt : ℕ
    pub pending : List Digest
    pub requests : Map ℤ RequestBlockMsg
    pub loop_back_blocks : Map ℤ Digest
    pub loop_back_cnts : Map ℤ ℤ
    pub miss2_blocks : Map Digest (List ℤ)
    pub sig_service : SigService p
    pub retry_delay : ℤ

  abbrev pub new_retriever : NodeId → SigService p → ℤ → Retriever
  new_retriever node_id s retry_delay = record {
    node_id = node_id;
    cnt = 0;
    pending = [];
    requests = [];
    loop_back_blocks = [];
    loop_back_cnts = [];
    miss2_blocks = [];
    sig_service = s;
    retry_delay = retry_delay;
  }

  abbrev pub noted : ℤ → Digest → Retriever → Retriever
  noted id d r = record r {
    miss2_blocks = insert d (get_or d r.miss2_blocks [] ++ id ∷ []) r.miss2_blocks;
    pending = if contains d r.pending then r.pending else d ∷ r.pending;
  }

  -- The loop over `missRefs`: the digests that nobody asks for yet, which are pending from here on.
  unfoldable pub filter_refs : ℤ → List Digest → Retriever → List Digest × Retriever
  filter_refs id [] r = ([], r)
  filter_refs id (d ∷ ds) r =
      let known = contains d r.pending in
      let (miss_blocks, end) = filter_refs id ds (noted id d r) in
      ((if known then miss_blocks else d ∷ miss_blocks), end)

  abbrev pub register : List Digest → Digest → Retriever → Retriever
  register miss_refs back_block r = record r {
    loop_back_blocks = insert (pos r.cnt) back_block r.loop_back_blocks;
    loop_back_cnts = insert (pos r.cnt) (pos (length miss_refs)) r.loop_back_cnts;
  }

  -- The request goes out where a digest is left to ask for.
  unfoldable pub send_request :
      List Digest → NodeId → ℤ → Retriever → Result (Retriever × List Action)
  unfolding new_request_block
  send_request [] node_id now r = ok (r, [])
  send_request (d ∷ ds) node_id now r =
      new_request_block p r.node_id (d ∷ ds) (pos r.cnt) now r.sig_service >>= λ request. ok (
        record r { requests = insert request.req_id request r.requests },
        transmit request.author node_id (request_block request) ∷ [],
      )

  unfoldable pub handle_ask :
      List Digest → NodeId → Digest → ℤ → Retriever → Result (Retriever × List Action)
  unfolding filter_refs send_request
  handle_ask miss_refs node_id back_block now r =
      let (miss_blocks, r') = filter_refs (pos r.cnt) miss_refs (register miss_refs back_block r) in
      send_request miss_blocks node_id now r' >>= λ (r'', out).
      ok (record r'' { cnt = r''.cnt + 1 }, out)

  -- The loop over the requests that miss a digest: one that misses nothing more is looped back.
  unfoldable pub count_down : List ℤ → Retriever → List Action × Retriever
  count_down [] r = ([], r)
  count_down (id ∷ ids) r =
      let left = get_or id r.loop_back_cnts (pos 0) -ℤ pos 1 in
      let r' = record r { loop_back_cnts = insert id left r.loop_back_cnts } in
      let (out, end) = count_down ids r' in
      (
        (if eqb_ℤ left (pos 0)
            then spawn_loop_back (get_or id r.loop_back_blocks no_digest) ∷ out
            else out),
        end,
      )

  unfoldable pub settle : List Digest → Retriever → List Action × Retriever
  unfolding count_down
  settle [] r = ([], r)
  settle (d ∷ ds) r =
      let (out, r') = count_down (get_or d r.miss2_blocks []) r in
      let (rest, end) = settle ds (record r' { pending = remove d r'.pending }) in
      (out ++ rest, end)

  unfoldable pub handle_reply : ℤ → Retriever → Retriever × List Action
  unfolding settle
  handle_reply req_id r = elim (lookup req_id r.requests) [
    | none ↦ (r, [])
    | some req ↦
        let (out, r') = settle req.miss_block r in
        (record r' { requests = delete req.req_id r'.requests }, out)
  ]

  -- A request that is as old as the delay is made anew and sent to all.
  unfoldable pub refresh : ℤ → RequestBlockMsg → Retriever → Result (Retriever × List Action)
  unfolding new_request_block
  refresh now req r =
      if leb_ℤ r.retry_delay (now -ℤ req.ts)
      then (new_request_block p req.author req.miss_block req.req_id now r.sig_service
          >>= λ request. ok (
            record r { requests = insert req.req_id request r.requests },
            transmit r.node_id no_node (request_block request) ∷ [],
          ))
      else ok (r, [])

  unfoldable pub retry : ℤ → Map ℤ RequestBlockMsg → Retriever → Result (Retriever × List Action)
  unfolding refresh
  retry now [] r = ok (r, [])
  retry now ((id, req) ∷ rest) r =
      refresh now req r >>= λ (r', out). retry now rest r' >>= λ (end, more). ok (end, out ++ more)

  -- One turn of `run`, at a reading of the clock.
  unfoldable pub turn : Turn → ℤ → Retriever → Result (Retriever × List Action)
  unfolding handle_ask handle_reply retry
  turn (ask miss_refs node_id back_block) now r = handle_ask miss_refs node_id back_block now r
  turn (answered req_id) now r = ok (handle_reply req_id r)
  turn tick now r = retry now r.requests r

  -- The loop of `run`, once its ticker runs.
  unfoldable pub run_turns : List (Turn × ℤ) → Retriever → Result (Retriever × List Action)
  unfolding turn
  run_turns [] r = ok (r, [])
  run_turns ((t, now) ∷ ts) r =
      turn t now r >>= λ (r', out). run_turns ts r' >>= λ (end, more). ok (end, out ++ more)

  module _ (read : Digest → Option Bytes) (decode : Bytes → Option Block) where
    -- The loop of `processRequest`: a block that is missing is passed over, and `none` is the return at
    -- one that does not decode.
    unfoldable pub stored_blocks : List Digest → Option (List Block)
    stored_blocks [] = some []
    stored_blocks (d ∷ ds) = elim (read d) [
      | none ↦ stored_blocks ds
      | some val ↦ elim (decode val) [
        | none ↦ none
        | some b ↦ elim (stored_blocks ds) [ none ↦ none | some bs ↦ some (b ∷ bs) ]
      ]
    ]

    unfoldable pub process_request : RequestBlockMsg → Retriever → Result (List Action)
    unfolding stored_blocks new_reply_block_msg
    process_request request r = elim (stored_blocks request.miss_block) [
      | none ↦ ok []
      | some blocks ↦
          new_reply_block_msg p r.node_id blocks request.req_id r.sig_service >>= λ reply.
          ok (transmit r.node_id request.author (reply_block reply) ∷ [])
    ]

    -- `loopBack`: the block that goes to the core.
    unfoldable pub loop_back : Digest → Result Block
    loop_back block_hash =
        or_panic explicit_panic (read block_hash) >>= λ val. or_panic explicit_panic (decode val)

    -- The goroutines of `loopBack` that a run starts. A panic of one of them stops the node.
    unfoldable pub loop_backs : List Action → Result (List Block)
    unfolding loop_back
    loop_backs [] = ok []
    loop_backs (transmit from to msg ∷ out) = loop_backs out
    loop_backs (spawn_loop_back d ∷ out) = loop_back d >>= λ b. loop_backs out >>= λ bs. ok (b ∷ bs)

    -- `run`, with the blocks that come back to the core. `time.NewTicker` panics unless the delay is
    -- positive.
    unfoldable pub run_retriever :
        List (Turn × ℤ) → Retriever → Result (Retriever × List Action × List Block)
    unfolding run_turns loop_backs
    run_retriever ts r =
        if ltb_ℤ (pos 0) r.retry_delay
        then (run_turns ts r >>= λ (end, out). loop_backs out >>= λ blocks. ok (end, out, blocks))
        else panic explicit_panic
