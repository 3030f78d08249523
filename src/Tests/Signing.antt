-- ===== src/Tests/Signing.antt =====
-- Runs of the signatures, the keys and the election with stand-in primitives.
use loom.Committee.{no_node, size, name}
use loom.Crypto.{Bytes, Digest, combine_intact_ts_partial}
use loom.Message.{Block, Header, Elect, Echo, RequestBlockMsg, ReplyBlockMsg}
use loom.Message.Hash.{elect_hash, append_int}
use loom.Message.Make.{
  new_block, new_echo, new_request_block, new_reply_block_msg, block_verify, echo_verify,
  request_block_verify, reply_block_verify,
}
use loom.Message.Signed.{
  IsKeyPair, block_verify-new_block, echo_verify-new_echo, verify-new_request_and_reply,
  echo_verify-replayed,
}
use loom.Aggregator.{push, take}
use loom.Elector.{elect_from, Elector, new_elector, reveal, add, try_get_leader, elect_from}
use loom.Elector.Agreement.{big_endian, reveal_lem, SharesKey, IsUnique, add-agree}
use loom.Tests.{four, toy, service, empty_batch, slot_of, block_of}
use loom.Prelude.{
  ℕ, ◌%◌, ◌≤◌, ◌<◌, ◌≡◌, refl, ◌⊎◌, true, false, none, List, [], ◌∷◌, ◌++◌, map, arith, length,
}
use loom.Prelude.Int.{pos}
use loom.Prelude.Eq.{nat_eq, int_eq, string_eq, list_eq, ==-refl}
use loom.Prelude.Result.{ok, panic, index_out_of_range}
use loom.Prelude.Map.{lookup, insert}

pub key_1 : IsKeyPair toy four (pos 1) service
key_1 = unfold name lookup in record { pub_len = refl; pri_len = refl; accepts = λ d. ==-refl d }

abbrev cited : List Header
cited = (block_of 0 2 0 0).header ∷ []

block_verify-new_block_example :
    (b : Block) × (new_block toy (pos 1) (pos 3) (pos 0) (pos 0) empty_batch cited service ≡ ok b)
    × (block_verify toy b four ≡ ok true)
    × (b.header.slot ≡ record { author = pos 1; height = pos 3 })
    × (b.header.round ≡ pos 0)
    × (b.header.first_ref_h ≡ pos 0)
    × (b.batch ≡ empty_batch)
    × (b.ref ≡ cited)
block_verify-new_block_example =
    block_verify-new_block toy four (pos 1) service (pos 3) (pos 0) (pos 0) empty_batch cited key_1

echo_verify-new_echo_example :
    (e : Echo) × (new_echo toy (pos 1) (block_of 2 5 1 4) service ≡ ok e)
    × (echo_verify toy e four ≡ ok true)
    × (e.author ≡ pos 1)
    × (e.header ≡ (block_of 2 5 1 4).header)
echo_verify-new_echo_example =
    echo_verify-new_echo toy four (pos 1) service (block_of 2 5 1 4) key_1

abbrev asked_for : List Digest
asked_for = (1 ∷ 2 ∷ []) ∷ []

verify-new_request_and_reply_example :
    ((r : RequestBlockMsg) × (new_request_block toy (pos 1) asked_for (pos 7) (pos 99) service
        ≡ ok r)
      × (request_block_verify toy r four ≡ ok true)
      × (r.miss_block ≡ asked_for))
    × ((r : ReplyBlockMsg) × (new_reply_block_msg toy
            (pos 1)
            (block_of 0 2 0 0 ∷ [])
            (pos 7)
            service
          ≡ ok r)
        × (reply_block_verify toy r four ≡ ok true)
        × (r.blocks ≡ block_of 0 2 0 0 ∷ []))
verify-new_request_and_reply_example =
    verify-new_request_and_reply toy four (pos 1) service asked_for (pos 7) (pos 99)
      (block_of 0 2 0 0 ∷ []) key_1

abbrev echo_of : ℕ → ℕ → Echo
echo_of author height = record {
  author = pos 0;
  header = record { slot = slot_of author height; round = pos 0; first_ref_h = pos 0 };
  sig = record { sig = [] };
}

echo_verify-replayed_example :
    echo_verify toy (echo_of 1 2) four ≡ echo_verify toy (echo_of 3 0) four
echo_verify-replayed_example =
    echo_verify-replayed toy four (pos 0) (record { sig = [] }) 1 0 (pos 0) (pos 0) (pos 0) (pos 0)
      (omega arith) (omega arith)

abbrev intact : Bytes
intact = 0 ∷ 0 ∷ 1 ∷ 7 ∷ 9 ∷ []

reveal_lem_example :
    ((4 ≤ length intact)
      × (reveal four intact ≡ ok (pos (big_endian intact % size four)))
      × (big_endian intact % size four < size four))
    ⊎ ((length intact < 4) × (reveal four intact ≡ panic index_out_of_range))
reveal_lem_example = reveal_lem four intact (omega arith)

abbrev share_of : ℕ → ℕ → Elect
share_of author round = record {
  author = pos author;
  round = pos round;
  sig_share = record { partial_sig = author ∷ [] };
}

abbrev waiting_for : List ℕ → Elector toy
waiting_for authors = record (new_elector toy service four) {
  ag =
      (
        pos 2,
        record {
          items = map (λ i. share_of i 2) authors;
          used = map (λ (i : ℕ). pos i) authors;
          committee = four;
        },
      )
      ∷ [];
}

-- The third share reveals node 6 % 4.
abbrev revealed : List ℕ → ℕ → Elector toy
revealed authors last = record (new_elector toy service four) {
  leader = (pos 2, pos 2) ∷ [];
  ag =
      (
        pos 2,
        record {
          items = [];
          used = map (λ (i : ℕ). pos i) authors ++ pos last ∷ [];
          committee = four;
        },
      )
      ∷ [];
}

added : add toy (share_of 2 2) (waiting_for (0 ∷ 1 ∷ [])) ≡ ok (revealed (0 ∷ 1 ∷ []) 2, none)
unfolding add elect_from push take lookup insert combine_intact_ts_partial reveal elect_hash
    append_int
added = refl

added_elsewhere :
    add toy (share_of 0 2) (waiting_for (3 ∷ 1 ∷ [])) ≡ ok (revealed (3 ∷ 1 ∷ []) 0, none)
unfolding add elect_from push take lookup insert combine_intact_ts_partial reveal elect_hash
    append_int
added_elsewhere = refl

toy-IsUnique : IsUnique toy
toy-IsUnique key d xs ys t n x y h k = cc

same_key : SharesKey toy (waiting_for (0 ∷ 1 ∷ [])) (waiting_for (3 ∷ 1 ∷ []))
same_key = record { pub_poly = refl; t = refl; n = refl; committee = refl }

no_leader : (e : List ℕ) → try_get_leader toy (pos 2) (waiting_for e) ≡ (false, no_node)
unfolding try_get_leader lookup
no_leader e = refl

has_leader : (e : List ℕ) (i : ℕ) → try_get_leader toy (pos 2) (revealed e i) ≡ (true, pos 2)
unfolding try_get_leader lookup
has_leader e i = refl

add-agree_example : pos 2 ≡ pos 2
add-agree_example =
    add-agree toy (share_of 2 2) (share_of 0 2) (waiting_for (0 ∷ 1 ∷ [])) (revealed (0 ∷ 1 ∷ []) 2)
      (waiting_for (3 ∷ 1 ∷ [])) (revealed (3 ∷ 1 ∷ []) 0) none none (pos 2) (pos 2) toy-IsUnique
      same_key refl (no_leader (0 ∷ 1 ∷ [])) (no_leader (3 ∷ 1 ∷ [])) added added_elsewhere
      (has_leader (0 ∷ 1 ∷ []) 2) (has_leader (3 ∷ 1 ∷ []) 0)
