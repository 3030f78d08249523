-- ===== src/Store/Blocks.antt =====
-- core/core.go and core/retriever.go on the store: the blocks that are stored are those that are found.
use loom.Crypto.{Bytes, Digest, Primitives}
use loom.Message.{Block, RequestBlockMsg, ReplyBlockMsg, reply_block}
use loom.Message.Hash.{block_hash, reply_block_hash}
use loom.Message.Make.{new_reply_block_msg}
use loom.Retriever.{Retriever, transmit, stored_blocks, process_request, loop_back}
use loom.Store.{
  Nuts, Codec, default_bucket, serve, write, store_block, store_blocks, stored, unless_error,
}
use loom.Store.Log.{IsDatabase, last_write, read-put}
use loom.Prelude.{
  ℕ, zero, suc, ◌≡◌, refl, ap, ◌∙◌, ◌≢◌, ◌⊎◌, inl, inr, none, some, List, [], ◌∷◌, map,
  if◌then◌else◌, Bool-cases, length, get_elem?,
}
use loom.Prelude.Eq.{◌==◌, nat_eq, int_eq, string_eq, list_eq, ==-false, ==-cases}
use loom.Prelude.Result.{ok}

abbrev pub In : List Block → Block → Type 0
In blocks b = (i : ℕ) × (get_elem? blocks i ≡ some b)

-- gob's coding reads back what it wrote of a block, and of each block of a list.
abbrev pub Coded : Codec → Block → Type 0
Coded c b = (val : Bytes) × (c.encode b ≡ some val) × (c.decode val ≡ some b)

abbrev pub RoundTrips : Codec → List Block → Type 0
RoundTrips c blocks = (b : Block) → In blocks b → Coded c b

module _ (n : Nuts) (p : Primitives) (c : Codec) where
  -- Two of the blocks with one digest are the same block.
  abbrev pub Apart : List Block → Type 0
  Apart blocks = (a b : Block) → In blocks a → In blocks b → block_hash p a ≡ block_hash p b → a ≡ b

  abbrev pub Writes : Type 0
  Writes = (key val : Bytes) (s : n.State) → (n.put default_bucket key val s).1 ≡ none

  stored-store_block :
      (b : Block) (d : Digest) (s : n.State)
      → IsDatabase n
      → Coded c b
      → Writes
      → stored n (store_block n p c b s) d
        ≡ (if block_hash p b == d then c.encode b else stored n s d)
  unfolding stored store_block write serve last_write
  stored-store_block b d s h coded writes =
      let (val, encodes, decodes) = coded in
      let found = read-put n d (block_hash p b) val s h in
      let done = writes (block_hash p b) val s in
      let put = n.put default_bucket (block_hash p b) val s in
      let made : store_block n p c b s ≡ put.0 = rw (store_block, encodes) refl in
      ap (λ x. stored n x d) made
      ∙ ap (unless_error n) found
      ∙ elim (Bool-cases (block_hash p b == d)) [
        | inl same ↦ rw (done, same, encodes) refl
        | inr other ↦ rw (done, other) refl
      ]

  -- What holds of a block that is still to be stored, or is stored, holds behind another block.
  still :
      (a b : Block) (bs : List Block) (s s' : n.State)
      → block_hash p a ≢ block_hash p b
      → stored n s' (block_hash p b) ≡ stored n s (block_hash p b)
      → In (a ∷ bs) b ⊎ (stored n s (block_hash p b) ≡ c.encode b)
      → In bs b ⊎ (stored n s' (block_hash p b) ≡ c.encode b)
  still a b bs s s' other past (inl (zero, there)) =
      let same : a ≡ b = cc in absurd (other (ap (block_hash p) same))
  still a b bs s s' other past (inl (suc i, there)) = inl (i, there)
  still a b bs s s' other past (inr kept) = inr (past ∙ kept)

  stored-store_blocks :
      (bs : List Block) (b : Block) (s : n.State)
      → IsDatabase n
      → RoundTrips c bs
      → Writes
      → ((a : Block) → In bs a → block_hash p a ≡ block_hash p b → a ≡ b)
      → In bs b ⊎ (stored n s (block_hash p b) ≡ c.encode b)
      → stored n (store_blocks n p c bs s) (block_hash p b) ≡ c.encode b
  unfolding store_blocks
  stored-store_blocks [] b s h trips writes apart (inl (i, there)) = absurd (cc)
  stored-store_blocks [] b s h trips writes apart (inr kept) = kept
  stored-store_blocks (a ∷ bs) b s h trips writes apart known =
      let one = stored-store_block a (block_hash p b) s h (trips a (0, refl)) writes in
      let s' = store_block n p c a s in
      let rest =
        stored-store_blocks bs b s' h (λ x (i, there). trips x (suc i, there)) writes
          (λ x (i, there). apart x (suc i, there)) in
      elim (==-cases (block_hash p a) (block_hash p b)) [
        | inl same ↦
            let is_b : a ≡ b = apart a (0, refl) same in
            rest (
              inr (
                one
                ∙ rw ((list_eq.same_iff (block_hash p a) (block_hash p b)).1 same)
                    (ap c.encode is_b)))
        | inr other ↦
            let past : stored n s' (block_hash p b) ≡ stored n s (block_hash p b) =
              one ∙ rw (==-false (block_hash p a) (block_hash p b) other) refl in
            rest (still a b bs s s' other past known)
      ]

  -- Each of the digests is that of a block in the list.
  abbrev pub AllIn : List Block → List Block → Type 0
  AllIn blocks [] = Unit
  AllIn blocks (w ∷ wanted) = In blocks w × AllIn blocks wanted

  stored_blocks-found :
      (bs wanted : List Block) (s : n.State)
      → IsDatabase n
      → RoundTrips c bs
      → Writes
      → Apart bs
      → AllIn bs wanted
      → stored_blocks p (stored n (store_blocks n p c bs s)) c.decode (map (block_hash p) wanted)
        ≡ some wanted
  unfolding stored_blocks
  stored_blocks-found bs [] s h trips writes apart wants = refl
  stored_blocks-found bs (w ∷ wanted) s h trips writes apart (here, wants) =
      let (val, encodes, decodes) = trips w here in
      let found =
        stored-store_blocks bs w s h trips writes (λ a there. apart a w there here) (inl here) in
      let rest = stored_blocks-found bs wanted s h trips writes apart wants in
      rw (stored_blocks, found, encodes, decodes, rest) refl

  -- On an open database whose writes succeed, with a coding that reads back what it wrote of the blocks stored, and with
  -- blocks of which no two different ones have one digest: a request for the digests of stored blocks,
  -- at a node with a private key of 64 bytes, is answered to its author with these blocks in the order of the request, under
  -- the id of the request; and each of these blocks can be looped back.
  pub process_request-stored :
      (bs wanted : List Block) (s : n.State) (request : RequestBlockMsg) (r : Retriever p)
      → IsDatabase n
      → RoundTrips c bs
      → Writes
      → Apart bs
      → AllIn bs wanted
      → request.miss_block ≡ map (block_hash p) wanted
      → length r.sig_service.pri_key ≡ 64
      → (reply : ReplyBlockMsg) × (process_request p
            (stored n (store_blocks n p c bs s))
            c.decode
            request
            r
          ≡ ok (transmit r.node_id request.author (reply_block reply) ∷ []))
        × (reply.blocks ≡ wanted)
        × (reply.req_id ≡ request.req_id)
        × ((w : Block)
            → In bs w
            → loop_back p (stored n (store_blocks n p c bs s)) c.decode (block_hash p w) ≡ ok w)
  unfolding process_request new_reply_block_msg loop_back
  process_request-stored bs wanted s request r h trips writes apart wants asks len =
      let sign = λ (x : Bytes).
        let reply : ReplyBlockMsg = record {
          author = r.node_id;
          blocks = wanted;
          req_id = request.req_id;
          signature = record { sig = x };
        } in
        reply in
      let reply = sign (p.ed_sign r.sig_service.pri_key (reply_block_hash p (sign []))) in
      let found : stored_blocks p (stored n (store_blocks n p c bs s)) c.decode request.miss_block
          ≡ some wanted =
        ap (stored_blocks p (stored n (store_blocks n p c bs s)) c.decode) asks
        ∙ stored_blocks-found bs wanted s h trips writes apart wants in
      (
        reply,
        rw (process_request, found, len) refl,
        refl,
        refl,
        λ w there.
            let (val, encodes, decodes) = trips w there in
            let found =
              stored-store_blocks bs w s h trips writes (λ a in_bs. apart a w in_bs there)
                (inl there) in
            rw (found, encodes, decodes) refl,
      )
