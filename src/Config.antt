-- ===== src/Config.antt =====
-- config/config.go: the key files and the committee file, as they are written and read back.
-- What encoding/json makes of a file is the map of its values, where a string is the list of its bytes.
-- `Texts` holds the conversions of the standard library, `Coding` the bytes of threshold keys, which
-- Crypto.Threshold makes. A `range` over a map has the order of the association list. Opening and
-- writing files is left out.
pub mod RoundTrip
use Prim.Native.String.{String}
use loom.Committee.{NodeId, PublicKey, Authority, Committee, hight_threshold}
use loom.Crypto.{Bytes, PrivateKey, Primitives, SecretShareKey}
use loom.Crypto.Threshold.{
  Kyber, Json, encode_ts_partial_key, decode_ts_partial_key, encode_ts_public_key,
  decode_ts_public_key,
}
use loom.Crypto.Hex.{encode_key, decode_key}
use loom.Prelude.{
  ℕ, zero, suc, ◌+◌, ◌-◌, ◌*◌, ◌/◌, ◌%◌, ◌^◌, ◌≤◌, ◌<◌, ◌≡◌, refl, sym, ap, ◌∙◌, ◌≢◌, ◌↔◌, ◌⊎◌, inl,
  inr, Bool, true, false, not, ◌&&◌, ◌||◌, Option, none, some, List, [], ◌∷◌, ◌++◌, map, arith, ltb,
  leb, eqb, if◌then◌else◌, Bool-cases, Option-cases, ltb→lt, lt→ltb, leb→le, length, length-append,
  All, any, all, get_elem?, set, drop, replicate, get_last?, List-cases, length-set,
  get_elem?-set_self, get_elem?-set_ne, get_elem?-append_left, get_elem?-append_right,
  get_elem?-out, get_elem?-in, get_elem?-drop, get_elem?-replicate, length-replicate, length-drop,
  length-map,
}
use loom.Prelude.Int.{
  ℤ, pos, negsuc, pos_part, neg_part, ◌≤ℤ◌, ◌<ℤ◌, ltb_ℤ, leb_ℤ, eqb_ℤ, eqb_ℤ_iff, eq_of_parts,
  IsInt, wrap, wrap_parts, ◌+ℤ◌, ◌-ℤ◌, IsSmall, -ℤ_parts, +ℤ_parts, parts_apart, offset_pos,
  offset_neg,
}
use loom.Prelude.Eq.{Eq, ◌==◌, nat_eq, int_eq, string_eq, list_eq, ==-refl, ==-false, ==-cases}
use loom.Prelude.Result.{
  Result, ok, panic, Fault, nil_pointer, index_out_of_range, slice_out_of_range, explicit_panic,
  divide_by_zero, endless_loop, ◌>>=◌, or_panic, or_panic-eq-ok, Result-cases, >>=-eq-ok, >>=-ok,
  failed_assertion,
}
use loom.Prelude.Map.{
  Map, lookup, insert, delete, delete_if, get_or, lookup-insert, lookup-delete, lookup-delete_if,
  get_or-cons, get_or-insert,
}

pub data Leaf : Type 0 where
  text : Bytes → Leaf
  number : ℤ → Leaf

-- The values of a file, as deep as the program reads it.
pub data Value : Type 0 where
  leaf : Leaf → Value
  object : Map String Leaf → Value

abbrev pub Data : Type 0
Data = Map String Value

-- A file, as `readFromFile` finds it: it may not open or not decode.
pub data File : Type 0 where
  not_opened : File
  not_decoded : File
  contents : Data → File

-- `strconv.Itoa`, `strconv.Atoi` with 0 at an error, and an address to bytes and back.
pub record Texts : Type 0 where
  pub itoa : NodeId → String
  pub atoi : String → NodeId
  pub to_bytes : String → Bytes
  pub of_bytes : Bytes → String

pub record Coding (p : Primitives) : Type 0 where
  pub encode_share : p.PriShare → Option Bytes
  pub decode_share : Bytes → Option p.PriShare
  pub encode_pub : p.PubPoly → Option Bytes
  pub decode_pub : Bytes → Option p.PubPoly

-- The coding of crypto/crypto.go.
abbrev pub ts_coding : (p : Primitives) → Kyber p → Json → Coding p
ts_coding p k j = record {
  encode_share = encode_ts_partial_key p k j;
  decode_share = decode_ts_partial_key p k j;
  encode_pub = encode_ts_public_key p k j;
  decode_pub = decode_ts_public_key p k j;
}

-- `none` is an error of the decoder.
abbrev pub read_from_file : File → Result (Option Data)
read_from_file not_opened = panic explicit_panic
read_from_file not_decoded = ok none
read_from_file (contents data_read) = ok (some data_read)

-- The type assertions, which fail on a missing value too.
abbrev pub as_text : Option Leaf → Result Bytes
as_text none = panic failed_assertion
as_text (some (text t)) = ok t
as_text (some (number n)) = panic failed_assertion

-- The bits of n beyond the 53 of a float64, for n < 2^1024.
unfoldable spare_bits : ℕ → ℕ → ℕ
spare_bits zero n = 0
spare_bits (suc k) n = let rest = spare_bits k (n / 2) in if ltb n (2 ^ 53) then 0 else suc rest

-- n to 53 bits, to the nearest, at a tie to the even one.
unfoldable pub rounded : ℕ → ℕ
unfolding spare_bits
rounded n =
    let unit = 2 ^ spare_bits 1024 n in
    let q = n / unit in
    let r = n % unit in
    (if ltb unit (2 * r) || (eqb unit (2 * r) && eqb (q % 2) 1) then q + 1 else q) * unit

-- The float64 nearest to a natural number.
unfoldable pub nearest_float64 : ℕ → ℕ
nearest_float64 n = if ltb n (2 ^ 53) then n else rounded n

-- `int(x)` of the float64 x that a number of the file is read as. Beyond an int, Go leaves it to the
-- machine; this is what amd64 gives.
unfoldable pub int_of_float64 : ℤ → ℤ
unfolding nearest_float64
int_of_float64 (pos n) =
    let x = nearest_float64 n in if ltb x (2 ^ 63) then pos x else negsuc (2 ^ 63 - 1)
int_of_float64 (negsuc n) =
    let x = nearest_float64 (n + 1) in
    if leb x (2 ^ 63) then negsuc (x - 1) else negsuc (2 ^ 63 - 1)

-- A number comes as a float64, which the code cuts to an int.
unfoldable pub as_number : Option Leaf → Result ℤ
unfolding int_of_float64
as_number none = panic failed_assertion
as_number (some (text t)) = panic failed_assertion
as_number (some (number n)) = ok (int_of_float64 n)

abbrev pub as_leaf : Option Value → Option Leaf
as_leaf none = none
as_leaf (some (leaf l)) = some l
as_leaf (some (object m)) = none

abbrev pub as_object : Value → Result (Map String Leaf)
as_object (leaf l) = panic failed_assertion
as_object (object m) = ok m

-- One file of `GenerateKeyFiles`.
abbrev pub key_file : PrivateKey → PublicKey → Data
key_file pri key =
    ("public", leaf (text (encode_key key))) ∷ ("private", leaf (text (encode_key pri))) ∷ []

-- `GenKeysFromFile` on what was read.
unfoldable pub keys_of : Data → Result (Option (PublicKey × PrivateKey))
unfolding lookup decode_key
keys_of d = as_text (as_leaf (lookup "public" d)) >>= λ key.
    as_text (as_leaf (lookup "private" d)) >>= λ pri. ok (elim (decode_key key) [
      | none ↦ none
      | some public ↦ elim (decode_key pri) [ none ↦ none | some private ↦ some (public, private) ]
    ])

unfoldable pub gen_keys_from_file : File → Result (Option (PublicKey × PrivateKey))
unfolding keys_of
gen_keys_from_file f = read_from_file f >>= λ o. elim o [ none ↦ ok none | some d ↦ keys_of d ]

-- A file gets an empty text where the encoder fails.
abbrev pub or_empty : Option Bytes → Bytes
or_empty none = []
or_empty (some val) = val

module _ (p : Primitives) (c : Coding p) where
  -- One file of `GenerateTsKeyFiles`.
  abbrev pub ts_key_file : p.PriShare → p.PubPoly → ℤ → ℤ → Data
  ts_key_file share poly n t =
      ("share", leaf (text (or_empty (c.encode_share share))))
      ∷ ("pub", leaf (text (or_empty (c.encode_pub poly))))
      ∷ ("N", leaf (number n))
      ∷ ("T", leaf (number t))
      ∷ []

  -- `GenTsKeyFromFile` on what was read: the fields of the `SecretShareKey`.
  unfoldable pub ts_key_of : Data → Result (Option (p.PriShare × p.PubPoly × ℤ × ℤ))
  unfolding lookup as_number
  ts_key_of d = as_text (as_leaf (lookup "share" d)) >>= λ share.
      as_text (as_leaf (lookup "pub" d)) >>= λ poly. as_number (as_leaf (lookup "N" d)) >>= λ n.
      as_number (as_leaf (lookup "T" d)) >>= λ t. ok (elim (c.decode_share share) [
        | none ↦ none
        | some s ↦ elim (c.decode_pub poly) [ none ↦ none | some q ↦ some (s, q, n, t) ]
      ])

  unfoldable pub gen_ts_key_from_file : File → Result (Option (p.PriShare × p.PubPoly × ℤ × ℤ))
  unfolding ts_key_of
  gen_ts_key_from_file f =
      read_from_file f >>= λ o. elim o [ none ↦ ok none | some d ↦ ts_key_of d ]

module _ (x : Texts) where
  -- One turn of `GenCommitteeFromFile`: an error in the key's text leaves an empty key.
  unfoldable pub add_entry : String → Value → Map NodeId Authority → Result (Map NodeId Authority)
  unfolding lookup insert decode_key
  add_entry id item authorities = as_object item >>= λ info.
      as_text (lookup "name" info) >>= λ name. as_text (lookup "addr" info) >>= λ addr. ok (
        insert (x.atoi id)
          (record { name = or_empty (decode_key name); id = x.atoi id; addr = x.of_bytes addr })
          authorities)

  unfoldable pub add_entries : Data → Map NodeId Authority → Result (Map NodeId Authority)
  unfolding add_entry
  add_entries [] authorities = ok authorities
  add_entries ((id, item) ∷ rest) authorities =
      add_entry id item authorities >>= λ more. add_entries rest more

  unfoldable pub gen_committee_from_file : File → Result (Option Committee)
  unfolding add_entries
  gen_committee_from_file f = read_from_file f >>= λ o. elim o [
    | none ↦ ok none
    | some d ↦
        (add_entries d [] >>= λ authorities. ok (some (record { authorities = authorities })))
  ]

  abbrev pub entry : NodeId → Authority → Value
  entry id item = object (
      ("name", text (encode_key item.name))
      ∷ ("node_id", number id)
      ∷ ("addr", text (x.to_bytes item.addr))
      ∷ [])

  -- The loop of `GenerateSmapleCommittee`.
  unfoldable pub write_entries : Map NodeId Authority → Data → Data
  unfolding insert
  write_entries [] d = d
  write_entries ((id, item) ∷ rest) d = write_entries rest (insert (x.itoa id) (entry id item) d)

-- The generation of keys, the i-th call giving the i-th pair, and `fmt.Sprintf("127.0.0.1:%d", i)`.
pub record Generators (p : Primitives) : Type 0 where
  pub gen_ed25519_keys : ℕ → PrivateKey × PublicKey
  pub gen_ts_keys : ℕ → ℕ → List p.PriShare × p.PubPoly
  pub sprint : ℕ → String

-- `DefaultPort`
abbrev pub default_port : ℕ
default_port = 9000

module _ (p : Primitives) (g : Generators p) where
  -- The first loop of `GenDefaultCommittee`, from i on.
  unfoldable pub default_authorities :
      ℕ → ℕ → Map NodeId Authority → Map NodeId Authority × List PrivateKey
  unfolding insert
  default_authorities zero i authorities = (authorities, [])
  default_authorities (suc k) i authorities =
      let (pri, key) = g.gen_ed25519_keys i in
      let (all, keys) = default_authorities k (i + 1) (
        insert (pos i) (record { name = key; id = pos i; addr = g.sprint (default_port + i) })
          authorities) in
      (all, pri ∷ keys)

  -- Its second loop.
  unfoldable pub default_shares :
      ℕ → ℕ → List p.PriShare → p.PubPoly → ℕ → ℕ → Result (List (SecretShareKey p))
  default_shares zero i shares poly n t = ok []
  default_shares (suc k) i shares poly n t =
      or_panic index_out_of_range (get_elem? shares i) >>= λ share.
      default_shares k (i + 1) shares poly n t >>= λ rest.
      ok ((record { pub_poly = poly; pri_share = share; n = n; t = t }) ∷ rest)

  unfoldable pub gen_default_committee :
      ℕ → Result (Committee × List PrivateKey × List (SecretShareKey p))
  unfolding default_authorities default_shares
  gen_default_committee n =
      let (authorities, pri_keys) = default_authorities n 0 [] in
      let c : Committee = record { authorities = authorities } in
      let (shares, poly) = g.gen_ts_keys (hight_threshold c) n in
      default_shares n 0 shares poly n (hight_threshold c) >>= λ share_keys.
      ok (c, pri_keys, share_keys)
