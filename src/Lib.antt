-- ===== src/Lib.antt =====
-- Loom: the consensus core of a DAG-based Byzantine fault tolerant protocol.
--
-- A node's core (core/core.go) takes the messages of the network. A block that it accepts it answers
-- by an echo and pushes to its DAG (core/dag.go); enough echoes of its own block make it propose the
-- next, with references that it asks of the DAG; enough shares of a round reveal the round's leader
-- (core/aggregator.go), which it tells the DAG. The DAG submits anchors to the commitor
-- (core/commitor.go), which pulls the blocks behind them, puts them in an order, executes them and
-- asks the DAG for a cleaning. What nodes exchange is in core/message.go, its signatures in
-- crypto/crypto.go, and the thresholds in core/config.go. A proposal takes its batch from the pool
-- (pool/pool.go). Blocks that a node misses are asked for by the retriever (core/retriever.go), which
-- answers the requests of others from the store (store/store.go). What a node sends goes through the
-- transmitor (core/transimtor.go) to the sender's connections (network/network.go). Keys and the
-- committee come from files (config/config.go).
--
-- Prelude and its modules: shared helpers on lists, maps, integers and code that may panic.
-- Committee, Committee.Quorum: core/config.go, `Committee`: `HightThreshold` is `hight_threshold`,
--   and so on: a name of the code is spelled here with small letters and _.
-- Crypto, Crypto.Hex: crypto/crypto.go. The primitives of third parties are the parameter
--   `Primitives`; what a theorem needs of them is a named hypothesis (`IsKeyPair`, `IsUnique`).
-- Message, Message.Hash, Message.Make, Message.Signed: core/message.go and pool/message.go.
-- Errors: core/error.go.
-- Aggregator, Aggregator.Counting: core/aggregator.go, `Aggregator`.
-- Elector, Elector.Agreement: core/aggregator.go, `Elector`.
-- Dag, Dag.Handlers: core/dag.go, the state `dag` and one function per handler. Dag.Lines to
--   Dag.Steps: the invariant. Dag.Blocks: pushes and pulls. Dag.Latest, Dag.Refs: references. Dag.Commits: commit
--   requests. Dag.Cleanup: cleanings. Dag.Hazards: where commits and cleanings meet badly.
-- Commitor: core/commitor.go. Commitor.Walk: the search behind its loops. Commitor.Ordering:
--   `commitAnchor`. Commitor.Pulls, Commitor.Anchors: step 1 of `commit2`. Commitor.Executing: its step
--   2. Commitor.Heights: the watermarks. Commitor.Submitting: `commit2` as a whole.
-- Core: core/core.go. Core.Proposing: proposals and replies. Core.Voting: runs of echoes.
-- Pool: pool/pool.go and pool/config.go. Pool.Batcher: what the pool promises. Pool.Ring, Pool.Holds
--   and Pool.Refine: the ring queue against it. Pool.Stuck: batches as large as the queue.
-- Store: store/store.go, store/nutsdb.go, and `storeBlock` and `getBlock` of core/core.go. Store.Log:
--   reads behind writes. Store.Blocks: blocks in the store, with the retriever's answers.
-- Retriever: core/retriever.go. Retriever.Tracking, Retriever.Pending: what is pending.
--   Retriever.Backing: what is looped back is in the store.
--   Retriever.Counting, Retriever.Asking, Retriever.Waiting: the blocks that wait, and their loop back.
-- Network, Network.Lines: network/network.go, the sender. Network.Codec: network/codec.go and what
--   both ends of a connection do with it. Transmitor, Transmitor.Inbox: core/transimtor.go and the
--   parameters of core/config.go.
-- Crypto.Threshold: the bytes of threshold keys. Config, Config.RoundTrip: config/config.go.
-- Tests and its modules: runs on concrete data, with stand-in primitives.
--
-- A Go `int` is an integer whose sums and differences wrap around at 64 bits; `IsSmall` bounds one by
-- 2^62, so that differences of two do not wrap. A map is an association list. A goroutine's channel
-- is the order of the messages it takes, and what it sends is part of its outcome. A panic is a value
-- of `Result`. Loops that are not over a list run on fuel: `isAnchorReady` on the distance of its
-- rounds, of which each turn takes two; `commitAnchor` on one more than all references of the pulled
-- blocks, since each turn takes a slot off the queue and each block puts its references on it once;
-- the pulling loop of `commit2` takes its fuel as an argument, for which the references of the
-- blocks that the DAG has are the measure.
--
-- A pull of a block that the DAG never gets is never answered, and `commit2` waits: `World` has that
-- answer, and the outcome of the loop tells waiting from an end and from fuel that is used up. The
-- goroutines of `loopBack` and the ticker of the retriever panic in `run_retriever`. The numbers of the
-- key files are float64s, as encoding/json reads them: `int_of_float64` rounds to 53 bits.
--
-- Databases, sockets, kyber, encoding/json and encoding/gob are parameters of the definitions that
-- use them: `Nuts`, `dial`, `Kyber`, `Json`, `Codec`, `Gob`. What a theorem needs of them is a hypothesis
-- (`IsDatabase`, `AreInverse`, `RoundTrips`).
--
-- Not modelled: dialling and accepting in network/network.go, logger/, node/, main.go and
-- core/consensus.go, which are I/O around libraries; the opening of files and of the database; the
-- generation of keys; the scheduling of goroutines, of which a model takes one order of events, and
-- sends that wait on a full channel.
pub mod Prelude
pub mod Committee
pub mod Crypto
pub mod Message
pub mod Errors
pub mod Aggregator
pub mod Elector
pub mod Dag
pub mod Commitor
pub mod Core
pub mod Pool
pub mod Store
pub mod Retriever
pub mod Network
pub mod Transmitor
pub mod Config
pub mod Tests
