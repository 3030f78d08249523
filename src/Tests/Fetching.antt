-- ===== src/Tests/Fetching.antt =====
-- Runs of the retriever and the store.
use loom.Crypto.{Bytes, Digest}
use loom.Message.{Block, RequestBlockMsg, ReplyBlockMsg, reply_block}
use loom.Message.Hash.{block_hash, append_int, bits, bits_fuel}
use loom.Retriever.{
  Turn, ask, answered, tick, Action, transmit, Retriever, new_retriever, run_retriever,
  process_request, loop_back,
}
use loom.Retriever.Tracking.{Asks}
use loom.Retriever.Pending.{run_retriever-pending}
use loom.Store.{Nuts, Codec, StoreReq, read_req, write_req, serve_all, read, store_blocks, stored}
use loom.Store.Log.{IsDatabase, last_write, or_value, read-serve_all}
use loom.Store.Blocks.{RoundTrips, Apart, In, process_request-stored}
use loom.Tests.{toy, service, block_of}
use loom.Prelude.{
  zero, suc, ◌||◌, if◌then◌else◌, ◌≡◌, refl, sym, ap, ◌∙◌, ◌≢◌, ◌↔◌, true, false, Option, none,
  some, List, [], ◌∷◌, map, arith,
}
use loom.Prelude.Int.{ℤ, pos, negsuc}
use loom.Prelude.Eq.{◌==◌, nat_eq, int_eq, string_eq, list_eq, ==-refl, ==-false}
use loom.Prelude.Result.{ok}
use loom.Prelude.Map.{Map, lookup, insert, lookup-insert}
use loom.Prelude.Distinct.{contains}

-- Blocks 7 and 8 miss digests, 2 of them both; the reply to the first request settles 1 and 2.
abbrev turns : List (Turn × ℤ)
turns =
    (ask ((1 ∷ []) ∷ (2 ∷ []) ∷ []) (pos 2) (7 ∷ []), pos 100)
    ∷ (ask ((2 ∷ []) ∷ (3 ∷ []) ∷ []) (pos 3) (8 ∷ []), pos 200)
    ∷ (tick, pos 5150)
    ∷ (answered (pos 0), pos 5160)
    ∷ (answered (pos 9), pos 5170)
    ∷ []

-- The store has blocks 7 and 8.
abbrev waiting_blocks : Digest → Option Bytes
waiting_blocks d = if d == (7 ∷ []) || d == (8 ∷ []) then some d else none

abbrev decoded : Bytes → Option Block
decoded val = elim val [ [] ↦ none | h ∷ rest ↦ some (block_of 0 h 0 0) ]

run_retriever-pending_example :
    (end : Retriever toy) × (out : List Action) × (blocks : List Block) × (run_retriever toy
        waiting_blocks decoded turns
        (new_retriever toy (pos 1) service (pos 5000))
      ≡ ok (end, out, blocks))
    × ((d : Digest) → (contains d end.pending ≡ true) ↔ ((id : ℤ) × Asks end.requests id d))
    × ((i j : ℤ) (d : Digest) → Asks end.requests i d → Asks end.requests j d → i ≡ j)
run_retriever-pending_example =
    run_retriever-pending toy waiting_blocks decoded (pos 1) service (pos 5000) turns (omega arith)
      refl
      (
        (block_of 0 7 0 0, unfold loop_back in refl),
        ((block_of 0 8 0 0, unfold loop_back in refl), (tt, (tt, (tt, tt)))),
      )

-- A database that never fails.
abbrev memory : Nuts
memory = record {
  State = Map Bytes Bytes;
  Err = Unit;
  begin = λ s. none;
  get = λ bucket key s. elim (lookup key s) [ none ↦ ([], some tt) | some val ↦ (val, none) ];
  put = λ bucket key val s. (insert key val s, none);
}

memory-IsDatabase : IsDatabase memory
memory-IsDatabase = record {
  starts = λ s. refl;
  put_back = λ key val s done. rw (memory, lookup-insert key key val s) (rw (==-refl key) refl);
  put_others =
      λ key k val s other. rw (memory, lookup-insert key k val s) (rw (==-false key k other) refl);
  rolled_back = λ key val s e failed. cc;
}

abbrev requests : List (StoreReq memory)
requests =
    write_req (1 ∷ []) (5 ∷ []) none
    ∷ read_req (1 ∷ []) [] none
    ∷ write_req (2 ∷ []) (6 ∷ []) none
    ∷ []

read-serve_all_example :
    read memory (1 ∷ []) (serve_all memory requests []).1
    ≡ or_value memory
        (last_write memory (1 ∷ []) (serve_all memory requests []).0)
        (read memory (1 ∷ []) [])
read-serve_all_example = read-serve_all memory (1 ∷ []) requests [] memory-IsDatabase

-- A coding of the blocks of author 0 in round 0, by their height.
abbrev by_height : Codec
by_height = record {
  encode = λ b. elim b.header.slot.height [ pos h ↦ some (h ∷ []) | negsuc h ↦ none ];
  decode = λ val. elim val [ [] ↦ none | h ∷ rest ↦ some (block_of 0 h 0 0) ];
}

abbrev two_blocks : List Block
two_blocks = block_of 0 2 0 0 ∷ block_of 0 3 0 0 ∷ []

two_blocks-RoundTrips : RoundTrips by_height two_blocks
two_blocks-RoundTrips b (zero, there) =
    let mine : block_of 0 2 0 0 ≡ b = cc in (2 ∷ [], ap by_height.encode (sym mine), ap some mine)
two_blocks-RoundTrips b (suc zero, there) =
    let mine : block_of 0 3 0 0 ≡ b = cc in (3 ∷ [], ap by_height.encode (sym mine), ap some mine)
two_blocks-RoundTrips b (suc (suc i), there) = absurd (cc)

hashes_apart : block_hash toy (block_of 0 2 0 0) ≢ block_hash toy (block_of 0 3 0 0)
unfolding block_hash append_int bits bits_fuel
hashes_apart same =
    let t : false ≡ true =
      (list_eq.same_iff (block_hash toy (block_of 0 2 0 0)) (block_hash toy (block_of 0 3 0 0))).1
        same in
    cc

two_blocks-Apart : Apart memory toy by_height two_blocks
two_blocks-Apart a b (zero, at_a) (zero, at_b) same = cc
two_blocks-Apart a b (zero, at_a) (suc zero, at_b) same =
    let (is_2, is_3) : (block_of 0 2 0 0 ≡ a) × (block_of 0 3 0 0 ≡ b) = (cc, cc) in
    absurd (hashes_apart (ap (block_hash toy) is_2 ∙ same ∙ ap (block_hash toy) (sym is_3)))
two_blocks-Apart a b (suc zero, at_a) (zero, at_b) same =
    let (is_3, is_2) : (block_of 0 3 0 0 ≡ a) × (block_of 0 2 0 0 ≡ b) = (cc, cc) in
    absurd (hashes_apart (ap (block_hash toy) is_2 ∙ sym same ∙ ap (block_hash toy) (sym is_3)))
two_blocks-Apart a b (suc zero, at_a) (suc zero, at_b) same = cc
two_blocks-Apart a b (suc (suc i), at_a) in_b same = absurd (cc)
two_blocks-Apart a b (zero, at_a) (suc (suc i), at_b) same = absurd (cc)
two_blocks-Apart a b (suc zero, at_a) (suc (suc i), at_b) same = absurd (cc)

-- Node 2 asks node 1 for both blocks.
abbrev both : RequestBlockMsg
both = record {
  author = pos 2;
  miss_block = map (block_hash toy) two_blocks;
  signature = record { sig = [] };
  req_id = pos 4;
  ts = pos 0;
}

abbrev kept : Digest → Option Bytes
kept = stored memory (store_blocks memory toy by_height two_blocks [])

process_request-stored_example :
    (reply : ReplyBlockMsg) × (process_request toy kept by_height.decode both
        (new_retriever toy (pos 1) service (pos 5000))
      ≡ ok (transmit (pos 1) (pos 2) (reply_block reply) ∷ []))
    × (reply.blocks ≡ two_blocks)
    × (reply.req_id ≡ pos 4)
    × ((w : Block)
        → In two_blocks w
        → loop_back toy kept by_height.decode (block_hash toy w) ≡ ok w)
process_request-stored_example =
    process_request-stored memory toy by_height two_blocks two_blocks [] both
      (new_retriever toy (pos 1) service (pos 5000)) memory-IsDatabase two_blocks-RoundTrips
      (λ key val s. refl) two_blocks-Apart ((0, refl), ((1, refl), tt)) refl refl
