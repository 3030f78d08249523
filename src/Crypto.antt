-- ===== src/Crypto.antt =====
-- crypto/crypto.go: the hasher, the signatures and the service that makes them, threshold shares,
-- and the hexadecimal form of keys.
-- The algorithms themselves (SHA-256, Ed25519, BLS threshold signatures) are third-party code, a
-- parameter `Primitives`. A byte is a number, a digest the list of its bytes. The service goroutine
-- answers one request at a time over a channel of the request's own, so a request is a call.
pub mod Hex
pub mod Threshold
use loom.Prelude.{
  ℕ, eqb, if◌then◌else◌, Bool, true, Option, none, some, List, [], ◌++◌, map, length,
}
use loom.Prelude.Result.{Result, ok, panic, Fault, explicit_panic}
use loom.Committee.{PublicKey}

abbrev pub Bytes : Type 0
Bytes = List ℕ

-- `HashSize` bytes.
abbrev pub Digest : Type 0
Digest = List ℕ

abbrev pub PrivateKey : Type 0
PrivateKey = List ℕ

-- What the program calls of crypto/sha256, crypto/ed25519 and kyber's tbls. `none` is an error.
pub record Primitives : Type 1 where
  pub PubPoly : Type 0
  pub PriShare : Type 0
  pub sha256 : Bytes → Digest
  pub ed_sign : PrivateKey → Digest → Bytes
  pub ed_verify : PublicKey → Digest → Bytes → Bool
  pub tbls_sign : PriShare → Digest → Option Bytes
  pub tbls_recover : PubPoly → Digest → List Bytes → ℕ → ℕ → Option Bytes

pub record Hasher : Type 0 where
  pub fed : Bytes

abbrev pub new_hasher : Hasher
new_hasher = record { fed = [] }

abbrev pub add : Bytes → Hasher → Hasher
add bytes h = record { fed = h.fed ++ bytes }

pub record Signature : Type 0 where
  pub sig : Bytes

pub record SignatureShare : Type 0 where
  pub partial_sig : Bytes

-- `SignatureShare.Verify` accepts every share.
unfoldable pub verify_share : SignatureShare → Digest → Bool
verify_share share digest = true

module _ (p : Primitives) where
  open p use {PubPoly, PriShare, sha256, ed_sign, ed_verify, tbls_sign, tbls_recover}

  -- `Sum256` empties the hasher behind it.
  abbrev pub sum256 : Bytes → Hasher → Digest × Hasher
  sum256 bytes h = (sha256 (h.fed ++ bytes), new_hasher)

  pub record SecretShareKey : Type 0 where
    pub pub_poly : PubPoly
    pub pri_share : PriShare
    pub n : ℕ
    pub t : ℕ

  pub record SigService : Type 0 where
    pub pri_key : PrivateKey
    pub share_key : SecretShareKey

  -- `Signature.Verify`. `ed25519.Verify` panics at a public key that is not 32 bytes long.
  unfoldable pub verify : Signature → PublicKey → Digest → Result Bool
  verify s key digest =
      if eqb (length key) 32 then ok (ed_verify key digest s.sig) else panic explicit_panic

  -- `RequestSignature`. `ed25519.Sign` panics at a private key that is not 64 bytes long.
  unfoldable pub request_signature : SigService → Digest → Result Signature
  request_signature s digest =
      if eqb (length s.pri_key) 64
      then ok (record { sig = ed_sign s.pri_key digest })
      else panic explicit_panic

  -- `RequestTsSugnature`; `none` is the error of `tbls.Sign`.
  unfoldable pub request_ts_signature : SigService → Digest → Option SignatureShare
  request_ts_signature s digest = elim (tbls_sign s.share_key.pri_share digest) [
    | none ↦ none
    | some partial ↦ some (record { partial_sig = partial })
  ]

  -- `CombineIntactTSPartial`; `none` is the error of `tbls.Recover`.
  unfoldable pub combine_intact_ts_partial :
      List SignatureShare → SecretShareKey → Digest → Option Bytes
  combine_intact_ts_partial shares key digest =
      tbls_recover key.pub_poly digest (map (λ s. s.partial_sig) shares) key.t key.n
