-- ===== src/Network/Codec.antt =====
-- network/codec.go, and its use in network/network.go by the goroutine of a connection and by
-- `serveConn`: messages as frames of a type id and a value.
-- encoding/gob is third-party code, the parameter `Gob`. A stream is the list of the values encoded on
-- it, in their order. A connection that breaks is one that ends.
use loom.Crypto.{Bytes}
use loom.Prelude.{
  ℕ, ◌≡◌, refl, sym, ap, ◌∙◌, Bool, true, false, Option, none, some, List, [], ◌∷◌, ◌++◌,
  if◌then◌else◌, Option-cases, All, inl, inr,
}
use loom.Prelude.Result.{Result, ok, panic, nil_pointer, ◌>>=◌}

-- What gob encodes: an `int`, or a message by the bytes of its value.
pub data Part : Type 0 where
  type_id : ℕ → Part
  value : Bytes → Part

-- `Encode` of a message, which writes nothing at an error, and `Decode` into a value of a type by its id.
pub record Gob (M : Type 0) : Type 0 where
  pub msg_type : M → ℕ
  pub encode : M → Option Bytes
  pub decode : ℕ → Bytes → Option M
  -- The keys of `types`.
  pub is_known : ℕ → Bool

module _ {M : Type 0} (g : Gob M) where
  -- `Write`: what it leaves on the stream, and whether it ends without an error.
  unfoldable pub write : M → List Part × Bool
  write msg = elim (g.encode msg) [
    | none ↦ (type_id (g.msg_type msg) ∷ [], false)
    | some val ↦ (type_id (g.msg_type msg) ∷ value val ∷ [], true)
  ]

  -- The goroutine of a connection returns at the first error.
  unfoldable pub write_all : List M → List Part
  unfolding write
  write_all [] = []
  write_all (msg ∷ msgs) =
      let rest = write_all msgs in
      let (parts, fine) = write msg in parts ++ (if fine then rest else [])

  -- `serveConn` around `Read`: the messages handed on up to the first error. A type id without a type
  -- makes `reflect.New` panic.
  unfoldable pub serve_conn : List Part → Result (List M)
  serve_conn [] = ok []
  serve_conn (value val ∷ parts) = ok []
  serve_conn (type_id t ∷ []) = if g.is_known t then ok [] else panic nil_pointer
  serve_conn (type_id t ∷ type_id u ∷ parts) = if g.is_known t then ok [] else panic nil_pointer
  serve_conn (type_id t ∷ value val ∷ parts) =
      if g.is_known t
      then elim (g.decode t val) [
        | none ↦ ok []
        | some msg ↦ serve_conn parts >>= λ msgs. ok (msg ∷ msgs)
      ]
      else panic nil_pointer

  -- The messages before the first that does not encode.
  abbrev pub encodable : List M → List M
  encodable [] = []
  encodable (msg ∷ msgs) = elim (g.encode msg) [ none ↦ [] | some val ↦ msg ∷ encodable msgs ]

  -- The type of a message is known, and gob reads back what it wrote of it.
  abbrev pub IsCoded : M → Type 0
  IsCoded msg =
      (g.is_known (g.msg_type msg) ≡ true)
      × ((val : Bytes) → g.encode msg ≡ some val → g.decode (g.msg_type msg) val ≡ some msg)

  -- Where the types of the messages are known and gob reads back what it wrote of them, the far end of a
  -- connection hands on exactly the messages before the first that does not encode, in their order,
  -- and does not fault.
  pub serve_conn-write_all :
      (msgs : List M) → All IsCoded msgs → serve_conn (write_all msgs) ≡ ok (encodable msgs)
  unfolding serve_conn write_all write
  serve_conn-write_all [] coded = refl
  serve_conn-write_all (msg ∷ msgs) ((known, back), coded) = elim (Option-cases (g.encode msg)) [
    | inl failed ↦
        let wrote : write_all (msg ∷ msgs) ≡ type_id (g.msg_type msg) ∷ [] =
          rw (write_all, write, failed) refl in
        let taken : encodable (msg ∷ msgs) ≡ [] = rw (encodable, failed) refl in
        let served : serve_conn (type_id (g.msg_type msg) ∷ []) ≡ ok [] =
          rw (serve_conn, known) refl in
        ap serve_conn wrote ∙ served ∙ ap ok (sym taken)
    | inr (val, encoded) ↦
        let rest = serve_conn-write_all msgs coded in
        let wrote : write_all (msg ∷ msgs) ≡ type_id (g.msg_type msg) ∷ value val ∷ write_all msgs =
          rw (write_all, write, encoded) refl in
        let taken : encodable (msg ∷ msgs) ≡ msg ∷ encodable msgs = rw (encodable, encoded) refl in
        let served : serve_conn (type_id (g.msg_type msg) ∷ value val ∷ write_all msgs)
            ≡ ok (msg ∷ encodable msgs) =
          rw (serve_conn, known, back val encoded, rest) refl in
        ap serve_conn wrote ∙ served ∙ ap ok (sym taken)
  ]
