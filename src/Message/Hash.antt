-- ===== src/Message/Hash.antt =====
-- core/message.go: the digests of the messages, which are what the signatures cover.
-- `strconv.AppendInt(nil, v, 2)` is the standard library: the binary digits of v in ASCII, behind a
-- minus sign where v is negative.
use loom.Crypto.{Bytes, Digest, Primitives, Hasher, new_hasher, add, sum256}
use loom.Message.{Block, Echo, Elect, RequestBlockMsg, ReplyBlockMsg, LoopBackMsg}
use loom.Prelude.{ℕ, zero, suc, ◌+◌, ◌/◌, ◌%◌, true, false, List, [], ◌∷◌, ltb}
use loom.Prelude.Int.{ℤ, pos, negsuc}

-- One digit per round: `n` rounds are enough for n, which halves each time.
unfoldable pub bits_fuel : ℕ → ℕ → Bytes → Bytes
bits_fuel zero n acc = acc
bits_fuel (suc fuel) n acc = elim (ltb n 2) [
  | true ↦ (48 + n) ∷ acc
  | false ↦ bits_fuel fuel (n / 2) ((48 + n % 2) ∷ acc)
]

unfoldable pub bits : ℕ → Bytes
unfolding bits_fuel
bits n = bits_fuel (suc n) n []

unfoldable pub append_int : ℤ → Bytes
unfolding bits
append_int (pos n) = bits n
append_int (negsuc n) = 45 ∷ bits (suc n)

-- `hasher.Add` of each element of a list.
abbrev pub add_all : List Bytes → Hasher → Hasher
add_all [] h = h
add_all (x ∷ xs) h = add_all xs (add x h)

module _ (p : Primitives) where
  unfoldable pub block_hash : Block → Digest
  unfolding append_int
  block_hash b =
      (sum256 p [] (
        add_all b.batch.txs (
          add (append_int b.header.slot.height)
            (add (append_int b.header.slot.author) new_hasher)))).0

  unfoldable pub echo_hash : Echo → Digest
  unfolding append_int
  echo_hash e =
      (sum256 p [] (
        add (append_int e.header.slot.height)
          (add (append_int e.header.slot.author) (add (append_int e.author) new_hasher)))).0

  unfoldable pub elect_hash : Elect → Digest
  unfolding append_int
  elect_hash e = (sum256 p [] (add (append_int e.round) new_hasher)).0

  unfoldable pub request_block_hash : RequestBlockMsg → Digest
  unfolding append_int
  request_block_hash r =
      (sum256 p []
        (add_all r.miss_block (add (append_int r.req_id) (add (append_int r.author) new_hasher)))).0

  unfoldable pub reply_block_hash : ReplyBlockMsg → Digest
  unfolding append_int
  reply_block_hash r =
      (sum256 p [] (add (append_int r.req_id) (add (append_int r.author) new_hasher))).0

  unfoldable pub loop_back_hash : LoopBackMsg → Digest
  loop_back_hash l = (sum256 p l.block_hash new_hasher).0
