-- ===== src/Tests/Files.antt =====
-- Runs of the configuration and the coding of threshold keys, with stand-ins for the libraries.
use loom.Committee.{Committee}
use loom.Crypto.{Bytes}
use loom.Crypto.Threshold.{
  Kyber, Json, TsPartialMarshalled, TsPublicMarshalled, AreInverse, marshall_ts_public_key,
}
use loom.Config.{
  int_of_float64, nearest_float64, rounded, contents, Texts, ts_coding, key_file,
  gen_keys_from_file, ts_key_file, gen_ts_key_from_file, gen_committee_from_file, write_entries,
}
use loom.Config.RoundTrip.{
  IsReadable, gen_keys_from_file-key_file, gen_committee_from_file-write_entries,
}
use loom.Tests.{toy}
use loom.Prelude.{
  ◌^◌, ◌+◌, ℕ, zero, suc, ◌≡◌, refl, sym, ap, none, some, [], ◌∷◌, arith, if◌then◌else◌,
}
use loom.Prelude.Int.{negsuc, ℤ, pos, negsuc}
use loom.Prelude.Eq.{◌==◌, nat_eq, int_eq, string_eq, list_eq}
use loom.Prelude.Result.{ok}

-- A share and a polynomial are numbers, a scalar a number, and the only point is the unit's.
abbrev plain : Kyber toy
plain = record {
  Scalar = ℕ;
  Point = ℕ;
  share_i = λ s. pos 1;
  share_v = λ s. s;
  make_share = λ i v. v;
  info = λ q. (q, []);
  new_pub_poly = λ base commits. base;
  marshal_scalar = λ v. some (v ∷ []);
  unmarshal_scalar = λ val. elim val [ [] ↦ none | v ∷ rest ↦ some v ];
  marshal_point = λ v. some (v ∷ []);
  unmarshal_point = λ val. elim val [ [] ↦ none | v ∷ rest ↦ some v ];
}

abbrev documents : Json
documents = record {
  encode_partial = λ m. some (elim m.i [ pos n ↦ 0 ∷ n ∷ m.binary | negsuc n ↦ 1 ∷ n ∷ m.binary ]);
  decode_partial = λ val. elim val [
    | [] ↦ none
    | sign ∷ rest ↦ elim rest [
      | [] ↦ none
      | n ∷ binary ↦
          some (record { i = elim sign [ zero ↦ pos n | suc k ↦ negsuc n ]; binary = binary })
    ]
  ];
  encode_public = λ m. some m.base_bytes;
  decode_public = λ val. some (record { base_bytes = val; commit_bytes = [] });
}

partial_back :
    (i : ℤ) (binary : Bytes)
    → let m : TsPartialMarshalled = record { i = i; binary = binary } in
      (val : Bytes) × (documents.encode_partial m ≡ some val)
      × (documents.decode_partial val ≡ some m)
partial_back (pos n) binary = (0 ∷ n ∷ binary, refl, refl)
partial_back (negsuc n) binary = (1 ∷ n ∷ binary, refl, refl)

plain-AreInverse : AreInverse toy plain documents
unfolding marshall_ts_public_key
plain-AreInverse = record {
  scalars = λ v. (v ∷ [], refl, refl);
  points = λ v. (v ∷ [], refl, refl);
  of_fields = λ s. refl;
  of_info = λ q. refl;
  partials = λ m. partial_back m.i m.binary;
  publics = λ q m made.
      let of_base : TsPublicMarshalled = record { base_bytes = q ∷ []; commit_bytes = [] } in
      let same : of_base ≡ m = cc in (q ∷ [], ap documents.encode_public (sym same), ap some same);
}

-- 2^53 + 1 is not a float64.
rounds_down : int_of_float64 (pos (2 ^ 53 + 1)) ≡ pos (2 ^ 53)
unfolding int_of_float64 nearest_float64 rounded
rounds_down = refl

rounds_up : int_of_float64 (negsuc (2 ^ 53 + 2)) ≡ negsuc (2 ^ 53 + 3)
unfolding int_of_float64 nearest_float64 rounded
rounds_up = refl

gen_keys_from_file-key_file_example :
    (gen_keys_from_file (contents (key_file (1 ∷ 255 ∷ []) (7 ∷ 16 ∷ [])))
      ≡ ok (some (7 ∷ 16 ∷ [], 1 ∷ 255 ∷ [])))
    × (gen_ts_key_from_file toy
          (ts_coding toy plain documents)
          (contents (ts_key_file toy (ts_coding toy plain documents) 5 9 (pos 4) (pos 3)))
        ≡ ok (some (5, 9, pos 4, pos 3)))
gen_keys_from_file-key_file_example =
    gen_keys_from_file-key_file toy plain documents (1 ∷ 255 ∷ []) (7 ∷ 16 ∷ []) 5 9 (pos 4) (pos 3)
      (omega arith, (omega arith, tt)) (omega arith, (omega arith, tt)) (omega arith, omega arith)
      (omega arith, omega arith) plain-AreInverse

abbrev decimal : Texts
decimal = record {
  itoa = λ i. if i == pos 0 then "0" else "1";
  atoi = λ s. if s == "0" then pos 0 else pos 1;
  to_bytes = λ s. if s == "a:9000" then 0 ∷ [] else 1 ∷ [];
  of_bytes = λ b. if b == (0 ∷ []) then "a:9000" else "b:9001";
}

abbrev pair : Committee
pair = record {
  authorities =
      (pos 0, record { name = 7 ∷ []; id = pos 0; addr = "a:9000" })
      ∷ (pos 1, record { name = 8 ∷ []; id = pos 1; addr = "b:9001" })
      ∷ [];
}

pair-IsReadable : IsReadable decimal pair.authorities
pair-IsReadable =
    ((refl, refl, (omega arith, tt), refl), ((refl, refl, (omega arith, tt), refl), tt))

gen_committee_from_file-write_entries_example :
    gen_committee_from_file decimal (contents (write_entries decimal pair.authorities []))
    ≡ ok (some pair)
gen_committee_from_file-write_entries_example =
    gen_committee_from_file-write_entries decimal pair (refl, (refl, tt)) pair-IsReadable
