-- ===== src/Dag/Handlers.antt =====
-- core/dag.go: the handlers and the dispatch of `run`.
use loom.Committee.{NodeId, hight_threshold}
use loom.Message.{
  Slot, Header, Block, CommitReq, CheckReq, RefReq, BlockPullReq, GcReq, DagMessage, push_block,
  check_req, ref_req, commit_req, block_pull_req, gc_req, slot_eq,
}
use loom.Dag.{Line, Dag, Sent, headers, block, submit, Outcome, mark, line, set_line, index, at}
use loom.Prelude.{
  ℕ, zero, suc, ◌+◌, ◌-◌, ◌%◌, Bool, true, false, not, ◌&&◌, ◌||◌, Option, none, some, List, [],
  ◌∷◌, ◌++◌, ltb, leb, eqb, if◌then◌else◌, length, set, drop, replicate, get_last?,
}
use loom.Prelude.Int.{ℤ, pos, negsuc, pos_part, neg_part, ltb_ℤ, leb_ℤ, ◌+ℤ◌, ◌-ℤ◌}
use loom.Prelude.Eq.{◌==◌, nat_eq, int_eq, string_eq, list_eq}
use loom.Prelude.Result.{
  Result, ok, panic, nil_pointer, index_out_of_range, slice_out_of_range, endless_loop, ◌>>=◌,
  or_panic,
}
use loom.Prelude.Map.{Map, lookup, insert, delete_if}

unfoldable pub is_missing : Header → Dag → Result Bool
is_missing h d = line h.slot.author d >>= λ l. ok (elim (index h.slot d) [
  | pos i ↦ leb (length l) i || elim (at l i) [ none ↦ true | some b ↦ false ]
  | negsuc i ↦ false
])

unfoldable pub missing_of : List Header → Dag → Result (List Header)
missing_of [] d = ok []
missing_of (h ∷ hs) d =
    is_missing h d >>= λ miss. missing_of hs d >>= λ rest. ok (if miss then h ∷ rest else rest)

unfoldable pub handle_check_req : CheckReq → Dag → Outcome
handle_check_req req d =
    missing_of req.items d >>= λ miss. ok (d, headers req.miss_resp_ch miss ∷ [])

-- The line with the block at index i: written over, or behind nil blocks that fill the gap.
unfoldable pub push_line : ℕ → Block → Line → Line
push_line i b l =
    if ltb i (length l)
    then set l i (some b)
    else set (l ++ replicate (i + 1 - length l) none) i (some b)

-- The reply to a registered pull. The entry stays registered.
unfoldable pub answer : Block → Dag → List Sent
answer b d = elim (lookup b.header.slot d.pending) [ none ↦ [] | some ch ↦ block ch (some b) ∷ [] ]

-- The push at a given index; below the watermark the block is dropped.
unfoldable pub push_at : ℤ → Block → Dag → Outcome
push_at (negsuc i) b d = ok (d, [])
push_at (pos i) b d = line b.header.slot.author d >>= λ l.
    ok (set_line b.header.slot.author (push_line i b l) d, answer b d)

unfoldable pub handle_block_push_req : Block → Dag → Outcome
handle_block_push_req b d = push_at (index b.header.slot d) b d

-- `round%2 == 0` and `round%2 == 1`: Go's remainder has the sign of the round.
abbrev pub is_even : ℤ → Bool
is_even (pos n) = eqb (n % 2) 0
is_even (negsuc n) = eqb ((n + 1) % 2) 0

abbrev pub is_odd : ℤ → Bool
is_odd (pos n) = eqb (n % 2) 1
is_odd (negsuc n) = false

-- A header of the round that may be referred to: it is of a later round, or its author has made
-- enough blocks in this one.
unfoldable pub is_qualified : ℤ → Header → Bool
is_qualified round h =
    ltb_ℤ round h.round
    || is_even round && leb_ℤ (pos 2) (h.slot.height -ℤ h.first_ref_h)
    || is_odd round && leb_ℤ (pos 1) (h.slot.height -ℤ h.first_ref_h)

-- The last block of a line. An empty line has none; a nil block is dereferenced.
unfoldable pub latest : Line → Result (Option Header)
latest l = elim (get_last? l) [
  | none ↦ ok none
  | some last ↦ or_panic nil_pointer last >>= λ b. ok (some b.header)
]

-- What a line contributes to the references of a round.
unfoldable pub offer : ℤ → Option Header → List Header → List Header
offer round none rest = rest
offer round (some h) rest =
    if ltb_ℤ h.round round then rest else if is_qualified round h then h ∷ rest else rest

unfoldable pub refs_of : ℤ → List Line → Result (List Header)
refs_of round [] = ok []
refs_of round (l ∷ ls) =
    latest l >>= λ last. refs_of round ls >>= λ rest. ok (offer round last rest)

-- Below the threshold the last block of the node's own line is the only reference, if there is one.
unfoldable pub plain_ref : List Header → Dag → Result (List Header)
plain_ref refs d =
    if ltb (length refs) (hight_threshold d.committee)
    then (line d.node_id d >>= λ own.
        latest own >>= λ last. ok (elim last [ none ↦ refs | some h ↦ h ∷ [] ]))
    else ok refs

unfoldable pub handle_ref_req : RefReq → Dag → Outcome
handle_ref_req req d = refs_of req.round d.cache >>= λ refs.
    plain_ref refs d >>= λ ref. ok (d, headers req.ref_resp_ch ref ∷ [])

-- The loop of `isAnchorReady` from round r on; each turn takes r two further, and the fuel is the
-- distance to `cur_r`. `none` is a loop that has not ended.
unfoldable pub anchor_loop : ℕ → ℤ → ℤ → Map ℤ NodeId → Option Bool
anchor_loop zero r cur_r m = if leb_ℤ r cur_r then none else some true
anchor_loop (suc fuel) r cur_r m =
    let rest = anchor_loop fuel (r +ℤ pos 2) cur_r m in
    if leb_ℤ r cur_r
    then (elim (lookup r m) [ none ↦ some false | some leader ↦ rest ])
    else some true

abbrev pub anchor_fuel : ℤ → ℤ → ℕ
anchor_fuel r cur_r = pos_part cur_r + neg_part r - (pos_part r + neg_part cur_r) + 1

unfoldable pub is_anchor_ready : ℤ → Dag → Result Bool
is_anchor_ready cur_r d =
    let r = d.commit_mark +ℤ pos 2 in
    or_panic endless_loop (anchor_loop (anchor_fuel r cur_r) r cur_r d.uncommitted)

-- A block of the leader's line that lets the anchor two heights below it be submitted.
abbrev pub is_support : ℤ → Block → Bool
is_support round b =
    (b.header.round == round) && leb_ℤ (pos 2) (b.header.slot.height -ℤ b.header.first_ref_h)

-- The search from the end of the line down; nil blocks are skipped.
unfoldable pub find_support : ℤ → Line → Option Block
find_support round [] = none
find_support round (x ∷ l) = elim (find_support round l) [
  | some b ↦ some b
  | none ↦ elim x [ none ↦ none | some b ↦ if is_support round b then some b else none ]
]

-- The part of `handleCommitReq` behind the choice of the pending request.
unfoldable pub try_commit : CommitReq → Dag → Outcome
try_commit pc d = is_anchor_ready pc.round d >>= λ ready.
    if not ready
    then ok (d, [])
    else (line pc.leader d >>= λ l. ok (elim (find_support pc.round l) [
      | none ↦ (record d { pending_commit = none }, [])
      | some b ↦
          let s : Slot = record { author = pc.leader; height = b.header.slot.height -ℤ pos 2 } in
          (d, submit (record { slot = s; round = pc.round }) ∷ [])
    ]))

-- The pending request gives way to one of a later round.
abbrev pub newer : CommitReq → Option CommitReq → CommitReq
newer req none = req
newer req (some old) = if ltb_ℤ old.round req.round then req else old

unfoldable pub handle_commit_req : CommitReq → Dag → Outcome
handle_commit_req req d =
    let pc = newer req d.pending_commit in
    try_commit pc (record d {
      uncommitted = insert req.round req.leader d.uncommitted;
      pending_commit = some pc;
    })

-- The reply at a given index: a negative one would be out of range.
unfoldable pub pull_at : ℤ → Line → BlockPullReq → Dag → Outcome
pull_at (negsuc i) l req d = panic index_out_of_range
pull_at (pos i) l req d = elim (at l i) [
  | some b ↦ ok (d, block req.block_pull_ch (some b) ∷ [])
  | none ↦ ok (record d { pending = insert req.slot req.block_pull_ch d.pending }, [])
]

unfoldable pub handle_block_pull_req : BlockPullReq → Dag → Outcome
handle_block_pull_req req d =
    if leb_ℤ req.slot.height (mark req.slot.author d)
    then ok (d, block req.block_pull_ch none ∷ [])
    else (line req.slot.author d >>= λ l. pull_at (index req.slot d) l req d)

-- `d.cache[id][next:]`
unfoldable pub cut : ℤ → Line → Result Line
cut (negsuc n) l = panic slice_out_of_range
cut (pos n) l = if leb n (length l) then ok (drop n l) else panic slice_out_of_range

-- One turn of the first loop of `handleCleanReq`; an empty line is not cut.
unfoldable pub clean_line : NodeId → ℤ → Dag → Result Dag
clean_line id wm d = line id d >>= λ l.
    (if eqb (length l) 0 then ok l else cut (wm -ℤ mark id d) l) >>= λ l'.
    ok (record (set_line id l' d) { cache_mark = insert id wm d.cache_mark })

unfoldable pub clean_lines : Map NodeId ℤ → Dag → Result Dag
clean_lines [] d = ok d
clean_lines ((id, wm) ∷ rest) d = clean_line id wm d >>= λ d'. clean_lines rest d'

-- What a cleaning does behind its loop over the lines.
abbrev pub cleaned : CommitReq → Dag → Dag
cleaned pc d = record d {
  commit_mark = pc.round;
  uncommitted = delete_if (λ r. leb_ℤ r pc.round) d.uncommitted;
  pending = [];
}

-- The round of the pending commit is dereferenced first, in what is logged.
unfoldable pub handle_clean_req : GcReq → Dag → Outcome
handle_clean_req req d = or_panic nil_pointer d.pending_commit >>= λ pc.
    clean_lines req.new_watermark d >>= λ d'. ok (cleaned pc d', [])

-- The switch of `run`, which has no case for a `checkReq`.
unfoldable pub step : DagMessage → Dag → Outcome
step (push_block b) d = handle_block_push_req b d
step (ref_req r) d = handle_ref_req r d
step (commit_req r) d = handle_commit_req r d
step (block_pull_req r) d = handle_block_pull_req r d
step (gc_req r) d = handle_clean_req r d
step (check_req r) d = ok (d, [])

-- The messages of `opCh` in order, with all that is sent.
unfoldable pub run : List DagMessage → Dag → Outcome
run [] d = ok (d, [])
run (m ∷ ms) d = step m d >>= λ (d', out). run ms d' >>= λ (d'', rest). ok (d'', out ++ rest)
