-- ===== src/Config/RoundTrip.antt =====
-- config/config.go: what is written to the files is what is read from them.
use Prim.Native.String.{String}
use mathlib.Core.Path.{ap₂}
use mathlib.Core.List.{append-nil, append_assoc}
use loom.Committee.{NodeId, PublicKey, Authority, Committee}
use loom.Crypto.{Bytes, PrivateKey, Primitives}
use loom.Crypto.Threshold.{
  Kyber, Json, AreInverse, decode_ts_partial_key-encode, decode_ts_public_key-encode,
}
use loom.Crypto.Hex.{AreBytes, decode_key-encode_key}
use loom.Config.{
  leaf, text, number, Data, contents, Texts, Coding, ts_coding, or_empty, key_file,
  gen_keys_from_file, keys_of, ts_key_file, ts_key_of, gen_ts_key_from_file, add_entry, add_entries,
  gen_committee_from_file, entry, write_entries, pos_part, int_of_float64, as_number,
  nearest_float64, neg_part, pos, negsuc,
}
use loom.Prelude.Keys.{keys}
use loom.Prelude.{
  ◌<◌, ◌^◌, ◌+◌, lt→ltb, ltb, leb, ◌≡◌, refl, sym, ap, ◌∙◌, ◌≢◌, inl, inr, Bool, true, false, ◌||◌,
  some, [], ◌∷◌, ◌++◌, arith, Bool-cases, All,
}
use loom.Prelude.Int.{ℤ}
use loom.Prelude.Eq.{Eq, ◌==◌, nat_eq, int_eq, string_eq, list_eq, ==-refl, ==-false}
use loom.Prelude.Result.{ok, >>=-ok}
use loom.Prelude.Map.{Map, lookup, insert}
use loom.Prelude.Distinct.{contains, Distinct}

-- The coding of threshold keys reads back what it wrote.
pub record ReadsBack (p : Primitives) (c : Coding p) : Type 0 where
  pub shares :
      (s : p.PriShare)
      → (val : Bytes) × (c.encode_share s ≡ some val) × (c.decode_share val ≡ some s)
  pub polys :
      (q : p.PubPoly) → (val : Bytes) × (c.encode_pub q ≡ some val) × (c.decode_pub val ≡ some q)

pub ts_coding-ReadsBack :
    (p : Primitives) (k : Kyber p) (j : Json) → AreInverse p k j → ReadsBack p (ts_coding p k j)
ts_coding-ReadsBack p k j h = record {
  shares = λ s. decode_ts_partial_key-encode p k j s h;
  polys = λ q. decode_ts_public_key-encode p k j q h;
}

-- Between -2^53 and 2^53.
abbrev pub IsExact : ℤ → Type 0
IsExact n = (pos_part n < 2 ^ 53) × (neg_part n < 2 ^ 53)

-- A float64 holds the integers below 2^53 as they are.
int_of_float64-small : (n : ℤ) → pos_part n < 2 ^ 53 → neg_part n < 2 ^ 53 → int_of_float64 n ≡ n
unfolding int_of_float64 nearest_float64
int_of_float64-small (pos n) few less =
    let (small, fits) : (ltb n (2 ^ 53) ≡ true) × (ltb n (2 ^ 63) ≡ true) =
      (lt→ltb n (2 ^ 53) few, lt→ltb n (2 ^ 63) (omega arith)) in
    rw (small, fits) refl
int_of_float64-small (negsuc n) few less =
    let small : ltb (n + 1) (2 ^ 53) ≡ true = lt→ltb (n + 1) (2 ^ 53) (omega arith) in
    let fits : leb (n + 1) (2 ^ 63) ≡ true = ground arith in
    rw (small, fits) (ap negsuc (omega arith))

ts_key_of-ts_key_file :
    (p : Primitives) (c : Coding p) (share : p.PriShare) (poly : p.PubPoly) (n t : ℤ)
    → IsExact n
    → IsExact t
    → ReadsBack p c
    → gen_ts_key_from_file p c (contents (ts_key_file p c share poly n t))
      ≡ ok (some (share, poly, n, t))
unfolding gen_ts_key_from_file ts_key_of lookup as_number
ts_key_of-ts_key_file p c share poly n t exact_n exact_t back =
    let (share_val, encodes, decodes) = back.shares share in
    let (poly_val, encodes_pub, decodes_pub) = back.polys poly in
    let file = λ (a b : Bytes).
      let d : Data =
        ("share", leaf (text a))
        ∷ ("pub", leaf (text b))
        ∷ ("N", leaf (number n))
        ∷ ("T", leaf (number t))
        ∷ [] in
      d in
    let as_written : ts_key_file p c share poly n t ≡ file share_val poly_val =
      ap₂ file (ap or_empty encodes) (ap or_empty encodes_pub) in
    ap (λ d. gen_ts_key_from_file p c (contents d)) as_written
    ∙ rw
        (
          decodes,
          decodes_pub,
          int_of_float64-small n exact_n.0 exact_n.1,
          int_of_float64-small t exact_t.0 exact_t.1,
        )
        refl

-- Where kyber's scalars and points and the JSON documents of keys are read back as they were written, and the
-- two counts are between -2^53 and 2^53, a node reads from the two key files that are written for it its own
-- pair of keys of bytes, and its own share, the public polynomial and the two counts.
pub gen_keys_from_file-key_file :
    (p : Primitives) (k : Kyber p) (j : Json) (pri : PrivateKey) (key : PublicKey)
    (share : p.PriShare) (poly : p.PubPoly) (n t : ℤ)
    → AreBytes pri
    → AreBytes key
    → IsExact n
    → IsExact t
    → AreInverse p k j
    → (gen_keys_from_file (contents (key_file pri key)) ≡ ok (some (key, pri)))
      × (gen_ts_key_from_file p
            (ts_coding p k j)
            (contents (ts_key_file p (ts_coding p k j) share poly n t))
          ≡ ok (some (share, poly, n, t)))
unfolding gen_keys_from_file keys_of lookup
gen_keys_from_file-key_file p k j pri key share poly n t of_pri of_key exact_n exact_t h =
    let read_key = (decode_key-encode_key key of_key).0 in
    let read_pri = (decode_key-encode_key pri of_pri).0 in
    (
      rw (read_key, read_pri) refl,
      ts_key_of-ts_key_file p (ts_coding p k j) share poly n t exact_n exact_t
          (ts_coding-ReadsBack p k j h),
    )

or_false : (a b : Bool) → (a || b) ≡ false → (a ≡ false) × (b ≡ false)
or_false a b h = ground arith

or_right : (a b : Bool) → b ≡ true → (a || b) ≡ true
or_right a b h = ground arith

module _ {K V : Type 0} ⦃e : Eq K⦄ where
  insert-new :
      (k : K) (v : V) (m : Map K V) → contains k (keys m) ≡ false → insert k v m ≡ m ++ (k, v) ∷ []
  unfolding insert
  insert-new k v [] new = refl
  insert-new k v ((i, w) ∷ m) new = elim (Bool-cases (i == k)) [
    | inl same ↦ absurd (cc ((or_false (i == k) (contains k (keys m)) new).0))
    | inr other ↦ rw other (
        ap (λ (l : Map K V). (i, w) ∷ l)
          (insert-new k v m ((or_false (i == k) (contains k (keys m)) new).1)))
  ]

  contains-keys-append :
      (k j : K) (v : V) (m : Map K V)
      → contains j (keys (m ++ (k, v) ∷ [])) ≡ contains j (keys m) || (k == j)
  contains-keys-append k j v [] = ground arith
  contains-keys-append k j v ((i, w) ∷ m) = ground (arith, contains-keys-append k j v m)

module _ (x : Texts) where
  -- What the conversions of the standard library do to the entries of a committee, whose keys are bytes.
  abbrev pub IsReadable : Map NodeId Authority → Type 0
  IsReadable = All (λ (id, a).
      (x.atoi (x.itoa id) ≡ id)
      × (a.id ≡ id)
      × AreBytes a.name
      × (x.of_bytes (x.to_bytes a.addr) ≡ a.addr))

  abbrev written : Map NodeId Authority → Data
  written [] = []
  written ((id, a) ∷ rest) = (x.itoa id, entry x id a) ∷ written rest

  -- An entry of the file is read back as it was.
  add_entry-entry :
      (id : NodeId) (a : Authority) (before : Map NodeId Authority)
      → x.atoi (x.itoa id) ≡ id
      → a.id ≡ id
      → AreBytes a.name
      → x.of_bytes (x.to_bytes a.addr) ≡ a.addr
      → add_entry x (x.itoa id) (entry x id a) before ≡ ok (insert id a before)
  unfolding add_entry lookup
  add_entry-entry id a before back own bytes same =
      let read_name = (decode_key-encode_key a.name bytes).0 in
      let put = λ (i : NodeId).
        let all : Map NodeId Authority =
          insert id (record { name = a.name; id = i; addr = a.addr }) before in
        all in
      rw (read_name, back, same) (ap (λ i. ok (put i)) (sym own))

  add_entries-written :
      (rest before : Map NodeId Authority)
      → IsReadable rest
      → Distinct (keys rest)
      → ((id : NodeId) → contains id (keys rest) ≡ true → contains id (keys before) ≡ false)
      → add_entries x (written rest) before ≡ ok (before ++ rest)
  unfolding add_entries
  add_entries-written [] before readable d new = ap ok (sym (append-nil before))
  add_entries-written ((id, a) ∷ rest) before ((back, own, bytes, same), readable) (alone, d) new =
      let appended = insert-new id a before (new id (ground (arith, int_eq.same_iff id id))) in
      let later = add_entries-written rest (before ++ (id, a) ∷ []) readable d (λ j in_rest.
        let not_before = new j (ground (arith, in_rest)) in
        contains-keys-append id j a before
        ∙ rw not_before (
            ==-false id j
              (λ same_id. cc (ap (λ k. contains k (keys rest)) same_id, alone, in_rest)))) in
      let added : add_entry x (x.itoa id) (entry x id a) before ≡ ok (before ++ (id, a) ∷ []) =
        add_entry-entry id a before back own bytes same ∙ ap ok appended in
      >>=-ok (add_entry x (x.itoa id) (entry x id a) before) (add_entries x (written rest)) added
      ∙ later
      ∙ ap ok (append_assoc before ((id, a) ∷ []) rest)

  itoa-apart :
      (rest : Map NodeId Authority) (id : NodeId)
      → x.atoi (x.itoa id) ≡ id
      → IsReadable rest
      → contains id (keys rest) ≡ false
      → contains (x.itoa id) (keys (written rest)) ≡ false
  itoa-apart [] id back readable new = refl
  itoa-apart ((j, a) ∷ rest) id back ((back_j, _, _, _), readable) new =
      let (other, later) = or_false (j == id) (contains id (keys rest)) new in
      let apart : x.itoa j ≢ x.itoa id = λ same.
        let same_id : j ≡ id = sym back_j ∙ ap x.atoi same ∙ back in
        cc (other, (int_eq.same_iff j id).1 same_id) in
      rw (==-false (x.itoa j) (x.itoa id) apart) (itoa-apart rest id back readable later)

  write_entries-written :
      (rest : Map NodeId Authority) (d : Data)
      → IsReadable rest
      → Distinct (keys rest)
      → ((key : String) → contains key (keys (written rest)) ≡ true → contains key (keys d) ≡ false)
      → write_entries x rest d ≡ d ++ written rest
  unfolding write_entries
  write_entries-written [] d readable alone new = sym (append-nil d)
  write_entries-written ((id, a) ∷ rest) d (here, readable) (alone, distinct) new =
      let key = x.itoa id in
      let appended = insert-new key (entry x id a) d (new key (rw (==-refl key) refl)) in
      let apart = itoa-apart rest id here.0 readable alone in
      let still = λ (k : String) (in_rest : contains k (keys (written rest)) ≡ true).
        let not_before : contains k (keys d) ≡ false =
          new k (or_right (key == k) (contains k (keys (written rest))) in_rest) in
        contains-keys-append key k (entry x id a) d
        ∙ rw not_before (
            ==-false key k
              (λ same. cc (ap (λ s. contains s (keys (written rest))) same, apart, in_rest))) in
      let later =
        write_entries-written rest (d ++ (key, entry x id a) ∷ []) readable distinct still in
      ap (write_entries x rest) appended
      ∙ later
      ∙ append_assoc d ((key, entry x id a) ∷ []) (written rest)

  -- A committee whose ids stand once and with the authorities that have them, whose keys are bytes, and
  -- whose ids and addresses the standard library converts back, is read from the file that is written for it.
  pub gen_committee_from_file-write_entries :
      (c : Committee)
      → Distinct (keys c.authorities)
      → IsReadable c.authorities
      → gen_committee_from_file x (contents (write_entries x c.authorities [])) ≡ ok (some c)
  unfolding gen_committee_from_file
  gen_committee_from_file-write_entries c distinct readable =
      let wrote = write_entries-written c.authorities [] readable distinct (λ key h. refl) in
      let reads = add_entries-written c.authorities [] readable distinct (λ id h. refl) in
      rw (wrote, reads) refl
