-- ===== src/Message/Signed.antt =====
-- What the signatures of core/message.go promise, and what they leave open.
use loom.Committee.{NodeId, Committee, name}
use loom.Crypto.{Bytes, Digest, Signature, Primitives, SigService, verify}
use loom.Message.{Slot, Header, Batch, Block, Echo, RequestBlockMsg, ReplyBlockMsg}
use loom.Message.Hash.{
  bits_fuel, bits, append_int, block_hash, echo_hash, request_block_hash, reply_block_hash,
}
use loom.Message.Make.{
  new_block, new_echo, new_request_block, new_reply_block_msg, block_verify, echo_verify,
  request_block_verify, reply_block_verify,
}
use mathlib.Core.Path.{ap₂, ◌≡⟨◌⟩◌, ◌∎}
use mathlib.Core.List.{append_assoc}
use loom.Prelude.{
  ℕ, zero, suc, ◌+◌, ◌/◌, ◌%◌, ◌≤◌, ◌<◌, ◌≡◌, refl, sym, ap, ◌∙◌, true, List, [], ◌∷◌, ◌++◌, arith,
  length,
}
use loom.Prelude.Int.{ℤ, pos}
use loom.Prelude.Result.{ok}

module _ (p : Primitives) where
  -- The node's private key belongs to the public key that the committee has for it, in the sense
  -- that Ed25519 documents: a signature by the one is accepted under the other.
  pub record IsKeyPair (c : Committee) (id : NodeId) (s : SigService p) : Type 0 where
    pub pub_len : length (name c id) ≡ 32
    pub pri_len : length s.pri_key ≡ 64
    pub accepts : (d : Digest) → p.ed_verify (name c id) d (p.ed_sign s.pri_key d) ≡ true

  -- With a private key that belongs to its public key in the committee, a block that a node makes under
  -- its own id is made without a fault, holds what was asked for, and
  -- is accepted by every node with the same committee.
  pub block_verify-new_block :
      (c : Committee) (id : NodeId) (s : SigService p) (height round first_h : ℤ) (batch : Batch)
      (ref : List Header)
      → IsKeyPair c id s
      → (b : Block) × (new_block p id height round first_h batch ref s ≡ ok b)
        × (block_verify p b c ≡ ok true)
        × (b.header.slot ≡ record { author = id; height = height })
        × (b.header.round ≡ round)
        × (b.header.first_ref_h ≡ first_h)
        × (b.batch ≡ batch)
        × (b.ref ≡ ref)
  unfolding new_block block_verify
  block_verify-new_block c id s height round first_h batch ref k =
      let slot : Slot = record { author = id; height = height } in
      let header : Header = record { slot = slot; round = round; first_ref_h = first_h } in
      let sign = λ (x : Bytes).
        let b : Block = record {
          header = header;
          batch = batch;
          ref = ref;
          sig = record { sig = x };
        } in
        b in
      let digest : Digest = block_hash p (sign []) in
      (
        sign (p.ed_sign s.pri_key digest),
        ground arith,
        ground (arith, k.accepts digest),
        refl,
        refl,
        refl,
        refl,
        refl,
      )

  -- With a private key that belongs to its public key in the committee, the echo that a node makes of a
  -- block it got is made without a fault, repeats the block's header
  -- under the node's id, and is accepted by every node with the same committee.
  pub echo_verify-new_echo :
      (c : Committee) (id : NodeId) (s : SigService p) (got : Block)
      → IsKeyPair c id s
      → (e : Echo) × (new_echo p id got s ≡ ok e)
        × (echo_verify p e c ≡ ok true)
        × (e.author ≡ id)
        × (e.header ≡ got.header)
  unfolding new_echo echo_verify
  echo_verify-new_echo c id s got k =
      let sign = λ (x : Bytes).
        let e : Echo = record { author = id; header = got.header; sig = record { sig = x } } in e in
      let digest : Digest = echo_hash p (sign []) in
      (
        sign (p.ed_sign s.pri_key digest),
        ground arith,
        ground (arith, k.accepts digest),
        refl,
        refl,
      )

  -- With a private key that belongs to its public key in the committee, a node makes a request for
  -- blocks and a reply without a fault, with the digests and the blocks asked for, and every node with
  -- the same committee accepts them.
  pub verify-new_request_and_reply :
      (c : Committee) (id : NodeId) (s : SigService p) (miss : List Digest) (req_id ts : ℤ)
      (blocks : List Block)
      → IsKeyPair c id s
      → ((r : RequestBlockMsg) × (new_request_block p id miss req_id ts s ≡ ok r)
          × (request_block_verify p r c ≡ ok true)
          × (r.miss_block ≡ miss))
        × ((r : ReplyBlockMsg) × (new_reply_block_msg p id blocks req_id s ≡ ok r)
            × (reply_block_verify p r c ≡ ok true)
            × (r.blocks ≡ blocks))
  unfolding new_request_block new_reply_block_msg request_block_verify reply_block_verify
  verify-new_request_and_reply c id s miss req_id ts blocks k =
      let ask = λ (x : Bytes).
        let r : RequestBlockMsg = record {
          author = id;
          miss_block = miss;
          signature = record { sig = x };
          req_id = req_id;
          ts = ts;
        } in
        r in
      let answer = λ (x : Bytes).
        let r : ReplyBlockMsg = record {
          author = id;
          blocks = blocks;
          req_id = req_id;
          signature = record { sig = x };
        } in
        r in
      let asked : Digest = request_block_hash p (ask []) in
      let answered : Digest = reply_block_hash p (answer []) in
      (
        (ask (p.ed_sign s.pri_key asked), ground arith, ground (arith, k.accepts asked), refl),
        (
          answer (p.ed_sign s.pri_key answered),
          ground arith,
          ground (arith, k.accepts answered),
          refl,
        ),
      )

bits_fuel-acc : (f n : ℕ) (acc : Bytes) → bits_fuel f n acc ≡ bits_fuel f n [] ++ acc
unfolding bits_fuel
bits_fuel-acc zero n acc = refl
bits_fuel-acc (suc f) n acc = ground (
  arith,
  bits_fuel-acc f (n / 2) ((48 + n % 2) ∷ acc),
  bits_fuel-acc f (n / 2) ((48 + n % 2) ∷ []),
  append_assoc (bits_fuel f (n / 2) []) ((48 + n % 2) ∷ []) acc,
)

-- More fuel than the number changes nothing.
bits_fuel-enough : (f g n : ℕ) (acc : Bytes) → n < f → n < g → bits_fuel f n acc ≡ bits_fuel g n acc
unfolding bits_fuel
bits_fuel-enough zero g n acc h k = absurd (omega arith)
bits_fuel-enough (suc f) zero n acc h k = absurd (omega arith)
bits_fuel-enough (suc f) (suc g) n acc h k =
    ground (arith, bits_fuel-enough f g (n / 2) ((48 + n % 2) ∷ acc))

bits_fuel-step :
    (f n : ℕ) (acc : Bytes)
    → 2 ≤ n
    → bits_fuel (suc f) n acc ≡ bits_fuel f (n / 2) ((48 + n % 2) ∷ acc)
unfolding bits_fuel
bits_fuel-step f n acc h = ground arith

bits-fuel : (n : ℕ) → bits n ≡ bits_fuel (suc n) n []
unfolding bits
bits-fuel n = refl

-- An odd number ends in the digit 1, an even one in 0, behind the digits of its half.
bits-digit : (n d m : ℕ) → 0 < n → d < 2 → m ≡ n + n + d → bits m ≡ bits n ++ (48 + d) ∷ []
bits-digit n d m h k e =
    let half : m / 2 ≡ n = omega arith in
    let last : m % 2 ≡ d = omega arith in
    bits m
    ≡⟨ bits-fuel m ⟩ bits_fuel (suc m) m []
    ≡⟨ bits_fuel-step m m [] (omega arith) ⟩ bits_fuel m (m / 2) ((48 + m % 2) ∷ [])
    ≡⟨ ap₂ (λ (x y : ℕ). bits_fuel m x ((48 + y) ∷ [])) half last ⟩ bits_fuel m n ((48 + d) ∷ [])
    ≡⟨ bits_fuel-enough m (suc n) n ((48 + d) ∷ []) (omega arith) (omega arith) ⟩
      bits_fuel (suc n) n ((48 + d) ∷ [])
    ≡⟨ bits_fuel-acc (suc n) n ((48 + d) ∷ []) ⟩ bits_fuel (suc n) n [] ++ (48 + d) ∷ []
    ≡⟨ ap (λ (x : Bytes). x ++ (48 + d) ∷ []) (sym (bits-fuel n)) ⟩ bits n ++ (48 + d) ∷ [] ∎

bits-small : (b : ℕ) → b < 2 → bits b ≡ (48 + b) ∷ []
unfolding bits
bits-small b h = ground arith

-- The digits of an author a and a height 2+b (b < 2) in a row are those of 2a+1 and b.
bits_shift : (a b : ℕ) → 0 < a → b < 2 → bits a ++ bits (2 + b) ≡ bits (a + a + 1) ++ bits b
bits_shift a b h k =
    rw
      (
        bits-digit 1 b (2 + b) (omega arith) k (omega arith),
        bits-digit a 1 (a + a + 1) h (omega arith) refl,
        bits-small b k,
        bits-small 1 (omega arith),
      )
      (sym (append_assoc (bits a) (49 ∷ []) ((48 + b) ∷ [])))

module _ (p : Primitives) where
  echo_hash-replayed :
      (voter : NodeId) (sig : Signature) (a b : ℕ) (r r' f f' : ℤ)
      → 0 < a
      → b < 2
      → echo_hash p (record {
        author = voter;
        header = record {
          slot = record { author = pos a; height = pos (2 + b) };
          round = r;
          first_ref_h = f;
        };
        sig = sig;
      })
        ≡ echo_hash p (record {
          author = voter;
          header = record {
            slot = record { author = pos (a + a + 1); height = pos b };
            round = r';
            first_ref_h = f';
          };
          sig = sig;
        })
  unfolding echo_hash
  echo_hash-replayed voter sig a b r r' f f' h k =
      let v : Bytes = append_int voter in
      ap (λ (x : Bytes). p.sha256 (x ++ []))
        (append_assoc v (bits a) (bits (2 + b))
          ∙ ap (λ (x : Bytes). v ++ x) (bits_shift a b h k)
          ∙ sym (append_assoc v (bits (a + a + 1)) (bits b)))

  -- The fields of an echo's digest run into one another: an echo for the block of author a ≥ 1 at
  -- height 2 or 3 is accepted or refused as the same echo is, with the same signature, for the block
  -- of author 2a+1 at height 0 or 1, in any round.
  pub echo_verify-replayed :
      (c : Committee) (voter : NodeId) (sig : Signature) (a b : ℕ) (r r' f f' : ℤ)
      → 0 < a
      → b < 2
      → echo_verify p
          (record {
            author = voter;
            header = record {
              slot = record { author = pos a; height = pos (2 + b) };
              round = r;
              first_ref_h = f;
            };
            sig = sig;
          })
          c
        ≡ echo_verify p
            (record {
              author = voter;
              header = record {
                slot = record { author = pos (a + a + 1); height = pos b };
                round = r';
                first_ref_h = f';
              };
              sig = sig;
            })
            c
  unfolding echo_verify
  echo_verify-replayed c voter sig a b r r' f f' h k =
      ap (λ (d : Digest). verify p sig (name c voter) d)
        (echo_hash-replayed voter sig a b r r' f f' h k)
