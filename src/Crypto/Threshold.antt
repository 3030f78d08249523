-- ===== src/Crypto/Threshold.antt =====
-- crypto/crypto.go, `TSPartialMarshalled` to `DecodeTSPublicKey`: the keys of the threshold signatures
-- as bytes.
-- kyber's scalars, points and polynomials are third-party code, the parameter `Kyber`; encoding/json on
-- the two intermediate types is the parameter `Json`. `none` is an error.
use loom.Crypto.{Bytes, Primitives}
use loom.Prelude.{◌≡◌, refl, ap, Option, none, some, List, [], ◌∷◌}
use loom.Prelude.Int.{ℤ}

pub record TsPartialMarshalled : Type 0 where
  pub i : ℤ
  pub binary : Bytes

pub record TsPublicMarshalled : Type 0 where
  pub base_bytes : Bytes
  pub commit_bytes : List Bytes

pub record Json : Type 0 where
  pub encode_partial : TsPartialMarshalled → Option Bytes
  pub decode_partial : Bytes → Option TsPartialMarshalled
  pub encode_public : TsPublicMarshalled → Option Bytes
  pub decode_public : Bytes → Option TsPublicMarshalled

pub record Kyber (p : Primitives) : Type 1 where
  pub Scalar : Type 0
  pub Point : Type 0
  -- The fields of `share.PriShare`, and the share of two fields.
  pub share_i : p.PriShare → ℤ
  pub share_v : p.PriShare → Scalar
  pub make_share : ℤ → Scalar → p.PriShare
  -- `PubPoly.Info` and `share.NewPubPoly`
  pub info : p.PubPoly → Point × List Point
  pub new_pub_poly : Point → List Point → p.PubPoly
  pub marshal_scalar : Scalar → Option Bytes
  pub unmarshal_scalar : Bytes → Option Scalar
  pub marshal_point : Point → Option Bytes
  pub unmarshal_point : Bytes → Option Point

abbrev pub then_some {ℓ} : {A B : Type ℓ} → Option A → (A → Option B) → Option B
then_some none f = none
then_some (some a) f = f a

-- A loop that stops at the first error.
abbrev pub each {ℓ} : {A B : Type ℓ} → (A → Option B) → List A → Option (List B)
each f [] = some []
each f (x ∷ xs) = then_some (f x) (λ y. then_some (each f xs) (λ ys. some (y ∷ ys)))

module _ (p : Primitives) (k : Kyber p) (j : Json) where
  unfoldable pub marshall_ts_partial_key : p.PriShare → Option TsPartialMarshalled
  marshall_ts_partial_key s =
      then_some (k.marshal_scalar (k.share_v s))
        (λ share_as_bytes. some (record { i = k.share_i s; binary = share_as_bytes }))

  unfoldable pub un_marshall_ts_partial_key : TsPartialMarshalled → Option p.PriShare
  un_marshall_ts_partial_key par =
      then_some (k.unmarshal_scalar par.binary) (λ v. some (k.make_share par.i v))

  unfoldable pub encode_ts_partial_key : p.PriShare → Option Bytes
  unfolding marshall_ts_partial_key
  encode_ts_partial_key s = then_some (marshall_ts_partial_key s) j.encode_partial

  unfoldable pub decode_ts_partial_key : Bytes → Option p.PriShare
  unfolding un_marshall_ts_partial_key
  decode_ts_partial_key val = then_some (j.decode_partial val) un_marshall_ts_partial_key

  unfoldable pub marshall_ts_public_key : p.PubPoly → Option TsPublicMarshalled
  marshall_ts_public_key poly =
      let (base, commits) = k.info poly in
      then_some (k.marshal_point base) (λ base_as_bytes.
        then_some (each k.marshal_point commits) (λ commit_bytes.
          some (record { base_bytes = base_as_bytes; commit_bytes = commit_bytes })))

  unfoldable pub un_marshall_ts_public_key : TsPublicMarshalled → Option p.PubPoly
  un_marshall_ts_public_key tspm = then_some (k.unmarshal_point tspm.base_bytes) (λ base_decoded.
      then_some (each k.unmarshal_point tspm.commit_bytes)
        (λ commits_decoded. some (k.new_pub_poly base_decoded commits_decoded)))

  unfoldable pub encode_ts_public_key : p.PubPoly → Option Bytes
  unfolding marshall_ts_public_key
  encode_ts_public_key poly = then_some (marshall_ts_public_key poly) j.encode_public

  unfoldable pub decode_ts_public_key : Bytes → Option p.PubPoly
  unfolding un_marshall_ts_public_key
  decode_ts_public_key val = then_some (j.decode_public val) un_marshall_ts_public_key

  -- What kyber and encoding/json document: marshalled values are read back, and a key is made of its parts.
  pub record AreInverse : Type 0 where
    pub scalars :
        (v : k.Scalar)
        → (val : Bytes) × (k.marshal_scalar v ≡ some val) × (k.unmarshal_scalar val ≡ some v)
    pub points :
        (v : k.Point)
        → (val : Bytes) × (k.marshal_point v ≡ some val) × (k.unmarshal_point val ≡ some v)
    pub of_fields : (s : p.PriShare) → k.make_share (k.share_i s) (k.share_v s) ≡ s
    pub of_info : (poly : p.PubPoly) → k.new_pub_poly (k.info poly).0 (k.info poly).1 ≡ poly
    pub partials :
        (m : TsPartialMarshalled)
        → (val : Bytes) × (j.encode_partial m ≡ some val) × (j.decode_partial val ≡ some m)
    pub publics :
        (poly : p.PubPoly) (m : TsPublicMarshalled)
        → marshall_ts_public_key poly ≡ some m
        → (val : Bytes) × (j.encode_public m ≡ some val) × (j.decode_public val ≡ some m)

  pub decode_ts_partial_key-encode :
      (s : p.PriShare)
      → AreInverse
      → (val : Bytes) × (encode_ts_partial_key s ≡ some val) × (decode_ts_partial_key val ≡ some s)
  unfolding encode_ts_partial_key decode_ts_partial_key marshall_ts_partial_key
      un_marshall_ts_partial_key
  decode_ts_partial_key-encode s h =
      let (bytes, marshals, unmarshals) = h.scalars (k.share_v s) in
      let (val, encodes, decodes) = h.partials (record { i = k.share_i s; binary = bytes }) in
      (val, rw (marshals, encodes) refl, rw (decodes, unmarshals) (ap some (h.of_fields s)))

  each-points :
      (points : List k.Point)
      → AreInverse
      → (vals : List Bytes) × (each k.marshal_point points ≡ some vals)
        × (each k.unmarshal_point vals ≡ some points)
  each-points [] h = ([], refl, refl)
  each-points (x ∷ xs) h =
      let (val, marshals, unmarshals) = h.points x in
      let (vals, all_marshal, all_unmarshal) = each-points xs h in
      (val ∷ vals, rw (each, marshals, all_marshal) refl, rw (each, unmarshals, all_unmarshal) refl)

  pub decode_ts_public_key-encode :
      (poly : p.PubPoly)
      → AreInverse
      → (val : Bytes) × (encode_ts_public_key poly ≡ some val)
        × (decode_ts_public_key val ≡ some poly)
  unfolding encode_ts_public_key decode_ts_public_key marshall_ts_public_key
      un_marshall_ts_public_key
  decode_ts_public_key-encode poly h =
      let (base, commits) = k.info poly in
      let (base_val, marshals, unmarshals) = h.points base in
      let (vals, all_marshal, all_unmarshal) = each-points commits h in
      let m : TsPublicMarshalled = record { base_bytes = base_val; commit_bytes = vals } in
      let marshalled : marshall_ts_public_key poly ≡ some m = rw (marshals, all_marshal) refl in
      let (val, encodes, decodes) = h.publics poly m marshalled in
      (
        val,
        rw (marshals, all_marshal, encodes) refl,
        rw (decodes, unmarshals, all_unmarshal) (ap some (h.of_info poly)),
      )
