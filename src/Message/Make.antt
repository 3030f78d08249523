-- ===== src/Message/Make.antt =====
-- core/message.go: the constructors that sign a message, and the `Verify` methods.
-- `RequestSignature` returns no error, so the only failure is its panic.
use loom.Committee.{NodeId, Committee, name}
use loom.Crypto.{
  Digest, Signature, Primitives, SigService, verify, verify_share, request_signature,
  request_ts_signature,
}
use loom.Message.{Slot, Header, Batch, Block, Echo, Elect, RequestBlockMsg, ReplyBlockMsg}
use loom.Message.Hash.{block_hash, echo_hash, elect_hash, request_block_hash, reply_block_hash}
use loom.Prelude.{Bool, Option, none, some, List, []}
use loom.Prelude.Int.{ℤ}
use loom.Prelude.Result.{Result, ok, ◌>>=◌}

abbrev unsigned : Signature
unsigned = record { sig = [] }

module _ (p : Primitives) where
  unfoldable pub new_block : NodeId → ℤ → ℤ → ℤ → Batch → List Header → SigService p → Result Block
  unfolding request_signature block_hash
  new_block author height round first_h batch ref s =
      let slot : Slot = record { author = author; height = height } in
      let block : Block = record {
        header = record { slot = slot; round = round; first_ref_h = first_h };
        batch = batch;
        ref = ref;
        sig = unsigned;
      } in
      request_signature p s (block_hash p block) >>= λ sig. ok (record block { sig = sig })

  unfoldable pub new_echo : NodeId → Block → SigService p → Result Echo
  unfolding request_signature echo_hash
  new_echo author block s =
      let e : Echo = record { author = author; header = block.header; sig = unsigned } in
      request_signature p s (echo_hash p e) >>= λ sig. ok (record e { sig = sig })

  -- `none` is the error of the threshold signature.
  unfoldable pub new_elect_msg : NodeId → ℤ → SigService p → Option Elect
  unfolding request_ts_signature elect_hash
  new_elect_msg author round s =
      let e : Elect = record {
        author = author;
        round = round;
        sig_share = record { partial_sig = [] };
      } in
      elim (request_ts_signature p s (elect_hash p e)) [
        | none ↦ none
        | some share ↦ some (record e { sig_share = share })
      ]

  unfoldable pub new_request_block :
      NodeId → List Digest → ℤ → ℤ → SigService p → Result RequestBlockMsg
  unfolding request_signature request_block_hash
  new_request_block author miss_block req_id ts s =
      let msg : RequestBlockMsg = record {
        author = author;
        miss_block = miss_block;
        signature = unsigned;
        req_id = req_id;
        ts = ts;
      } in
      request_signature p s (request_block_hash p msg) >>= λ sig.
      ok (record msg { signature = sig })

  unfoldable pub new_reply_block_msg : NodeId → List Block → ℤ → SigService p → Result ReplyBlockMsg
  unfolding request_signature reply_block_hash
  new_reply_block_msg author blocks req_id s =
      let msg : ReplyBlockMsg = record {
        author = author;
        blocks = blocks;
        req_id = req_id;
        signature = unsigned;
      } in
      request_signature p s (reply_block_hash p msg) >>= λ sig. ok (record msg { signature = sig })

  unfoldable pub block_verify : Block → Committee → Result Bool
  unfolding verify block_hash
  block_verify b c = verify p b.sig (name c b.header.slot.author) (block_hash p b)

  unfoldable pub echo_verify : Echo → Committee → Result Bool
  unfolding verify echo_hash
  echo_verify e c = verify p e.sig (name c e.author) (echo_hash p e)

  unfoldable pub elect_verify : Elect → Bool
  unfolding verify_share elect_hash
  elect_verify e = verify_share e.sig_share (elect_hash p e)

  unfoldable pub request_block_verify : RequestBlockMsg → Committee → Result Bool
  unfolding verify request_block_hash
  request_block_verify r c = verify p r.signature (name c r.author) (request_block_hash p r)

  unfoldable pub reply_block_verify : ReplyBlockMsg → Committee → Result Bool
  unfolding verify reply_block_hash
  reply_block_verify r c = verify p r.signature (name c r.author) (reply_block_hash p r)
