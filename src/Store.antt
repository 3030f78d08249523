-- ===== src/Store.antt =====
-- store/store.go and store/nutsdb.go: the key-value store behind the one goroutine that serves it, and
-- the blocks that core/core.go keeps in it.
-- The embedded database is third-party code, the parameter `Nuts`; gob is another, `Codec`. The request
-- channel is the list of the requests in their order, each answered on its own channel, so a caller's
-- read or write is the request that it waits for.
pub mod Log
pub mod Blocks
use loom.Crypto.{Bytes, Digest, Primitives}
use loom.Message.{Block}
use loom.Message.Hash.{block_hash}
use loom.Prelude.{Option, none, some, List, [], ◌∷◌}

-- What the program calls of nutsdb. `begin` is the error with which a read transaction does not start,
-- `put` a whole `Update` with one `Put`, committed or rolled back.
pub record Nuts : Type 1 where
  pub State : Type 0
  pub Err : Type 0
  pub begin : State → Option Err
  pub get : Bytes → Bytes → State → Bytes × Option Err
  pub put : Bytes → Bytes → Bytes → State → State × Option Err

-- gob's coding of a block. `none` is an error.
pub record Codec : Type 0 where
  pub encode : Block → Option Bytes
  pub decode : Bytes → Option Block

-- `DefaultBucket`, by its bytes.
abbrev pub default_bucket : Bytes
default_bucket = 68 ∷ 101 ∷ 102 ∷ 97 ∷ 117 ∷ 108 ∷ 116 ∷ 66 ∷ 117 ∷ 99 ∷ 107 ∷ 101 ∷ 116 ∷ []

module _ (n : Nuts) where
  open n use {State, Err}

  -- `NutsDB.Get` drops what `View` returns: where no transaction starts, both results are nil.
  unfoldable pub nuts_get : Bytes → State → Bytes × Option Err
  nuts_get key s = elim (n.begin s) [ some e ↦ ([], none) | none ↦ n.get default_bucket key s ]

  abbrev pub nuts_put : Bytes → Bytes → State → State × Option Err
  nuts_put key val s = n.put default_bucket key val s

  -- `storeReq` without its channel; the constructor is its `typ`.
  pub data StoreReq : Type 0 where
    read_req : Bytes → Bytes → Option Err → StoreReq
    write_req : Bytes → Bytes → Option Err → StoreReq

  -- One turn of the goroutine: the request as it goes back, and the database.
  unfoldable pub serve : StoreReq → State → StoreReq × State
  unfolding nuts_get
  serve (read_req key old_val old_err) s =
      let (val, err) = nuts_get key s in (read_req key val err, s)
  serve (write_req key val old_err) s =
      let (s', err) = nuts_put key val s in (write_req key val err, s')

  unfoldable pub serve_all : List StoreReq → State → List StoreReq × State
  unfolding serve
  serve_all [] s = ([], s)
  serve_all (r ∷ rs) s =
      let (r', s') = serve r s in let (rest, end) = serve_all rs s' in (r' ∷ rest, end)

  abbrev pub answer : StoreReq → Bytes × Option Err
  answer (read_req key val err) = (val, err)
  answer (write_req key val err) = (val, err)

  -- `Read` and `Write` on a channel with nothing before them.
  unfoldable pub read : Bytes → State → Bytes × Option Err
  unfolding serve
  read key s = answer (serve (read_req key [] none) s).0

  unfoldable pub write : Bytes → Bytes → State → State × Option Err
  unfolding serve
  write key val s = let (r, s') = serve (write_req key val none) s in (s', (answer r).1)

  -- What a caller that looks at the error gets of the store.
  abbrev pub unless_error : Bytes × Option Err → Option Bytes
  unless_error (val, none) = some val
  unless_error (val, some e) = none

  -- `getBlock`; `none` is an error.
  unfoldable pub get_block : Codec → Digest → State → Option Block
  unfolding read
  get_block c digest s = elim (unless_error (read digest s)) [
    | none ↦ none
    | some val ↦ c.decode val
  ]

  unfoldable pub stored : State → Digest → Option Bytes
  unfolding read
  stored s digest = unless_error (read digest s)

  module _ (p : Primitives) (c : Codec) where
    -- `storeBlock`: the error of the write is dropped.
    unfoldable pub store_block : Block → State → State
    unfolding write
    store_block b s = elim (c.encode b) [ none ↦ s | some val ↦ (write (block_hash p b) val s).0 ]

    unfoldable pub store_blocks : List Block → State → State
    unfolding store_block
    store_blocks [] s = s
    store_blocks (b ∷ bs) s = store_blocks bs (store_block b s)
