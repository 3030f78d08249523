-- ===== src/Pool.antt =====
-- pool/pool.go and pool/config.go: the ring queue of transactions, the batches that are made of it, and
-- the maker of transactions.
-- The channel of batches is the list of those in it. A send on a full channel waits, so the step that
-- makes a batch stands where the send comes about. The two channels' goroutines are the order of the
-- events. The indices stay below a slice's length, so that adding 1 to one does not wrap; `rind` is an
-- integer, since it starts at -1. The log is left out.
pub mod Ring
pub mod Batcher
pub mod Holds
pub mod Refine
pub mod Stuck
use loom.Message.{Transaction, Batch}
use loom.Prelude.{
  ℕ, zero, suc, ◌+◌, ◌-◌, ◌*◌, ◌/◌, ◌%◌, ◌^◌, ◌≤◌, ◌<◌, ◌≡◌, refl, sym, ap, ◌∙◌, ◌≢◌, ◌↔◌, ◌⊎◌, inl,
  inr, Bool, true, false, not, ◌&&◌, ◌||◌, Option, none, some, List, [], ◌∷◌, ◌++◌, map, arith, ltb,
  leb, eqb, if◌then◌else◌, Bool-cases, Option-cases, ltb→lt, lt→ltb, leb→le, length, length-append,
  All, any, all, get_elem?, set, drop, replicate, get_last?, List-cases, length-set,
  get_elem?-set_self, get_elem?-set_ne, get_elem?-append_left, get_elem?-append_right,
  get_elem?-out, get_elem?-in, get_elem?-drop, get_elem?-replicate, length-replicate, length-drop,
  length-map,
}
use loom.Prelude.Int.{
  ℤ, pos, negsuc, pos_part, neg_part, ◌≤ℤ◌, ◌<ℤ◌, ltb_ℤ, leb_ℤ, eqb_ℤ, eqb_ℤ_iff, eq_of_parts,
  IsInt, wrap, wrap_parts, ◌+ℤ◌, ◌-ℤ◌, IsSmall, -ℤ_parts, +ℤ_parts, parts_apart, offset_pos,
  offset_neg,
}
use loom.Prelude.Result.{
  Result, ok, panic, Fault, nil_pointer, index_out_of_range, slice_out_of_range, explicit_panic,
  divide_by_zero, endless_loop, ◌>>=◌, or_panic, or_panic-eq-ok, Result-cases, >>=-eq-ok, >>=-ok,
}

pub record Parameters : Type 0 where
  pub rate : ℕ
  pub tx_size : ℕ
  pub batch_size : ℕ
  pub max_queue_size : ℕ

abbrev pub default_parameters : Parameters
default_parameters = record { rate = 1000; tx_size = 16; batch_size = 200; max_queue_size = 10000 }

pub record TxQueue : Type 0 where
  pub queue : List Transaction
  pub batch_channel : List Batch
  pub wind : ℕ
  pub rind : ℤ
  pub nums : ℕ
  pub max_queue_size : ℕ
  pub batch_size : ℕ
  pub n : ℕ
  pub id : ℕ
  pub bcnt : ℕ

abbrev pub new_tx_queue : ℕ → ℕ → ℕ → ℕ → TxQueue
new_tx_queue max_queue_size batch_size n id = record {
  queue = replicate max_queue_size [];
  batch_channel = [];
  wind = 0;
  rind = negsuc 0;
  nums = 0;
  max_queue_size = max_queue_size;
  batch_size = batch_size;
  n = n;
  id = id;
  bcnt = 0;
}

-- `(q.rind + 1) % q.maxQueueSize`; Go's remainder has the sign of what is divided.
abbrev pub advance : ℤ → ℕ → ℤ
advance (pos i) m = pos ((i + 1) % m)
advance (negsuc zero) m = pos 0
advance (negsuc (suc i)) m = elim (suc i % m) [ zero ↦ pos 0 | suc k ↦ negsuc k ]

-- `q.queue[q.rind]`
abbrev pub read : ℤ → List Transaction → Result Transaction
read (pos i) queue = or_panic index_out_of_range (get_elem? queue i)
read (negsuc i) queue = panic index_out_of_range

-- The loop of `make`, with the read index behind it.
unfoldable pub read_loop : ℕ → ℤ → List Transaction → ℕ → Result (List Transaction × ℤ)
read_loop zero rind queue m = ok ([], rind)
read_loop (suc k) rind queue m =
    let r = advance rind m in
    read r queue >>= λ tx. read_loop k r queue m >>= λ (txs, end). ok (tx ∷ txs, end)

-- `make`, where at least a batch is in the queue.
unfoldable pub make_batch : TxQueue → Result TxQueue
make_batch q = read_loop q.batch_size q.rind q.queue q.max_queue_size >>= λ (txs, rind).
    ok (record q {
      batch_channel =
          q.batch_channel ++ (record { id = wrap (q.id + q.n * q.bcnt) 0; txs = txs }) ∷ [];
      rind = rind;
      nums = q.nums - q.batch_size;
      bcnt = q.bcnt + 1;
    })

-- The write of a transaction: a write out of bounds panics, and so with an empty queue.
unfoldable pub put_tx : Transaction → TxQueue → Result TxQueue
put_tx tx q =
    if ltb q.wind (length q.queue)
    then ok (record q {
      queue = set q.queue q.wind tx;
      wind = (q.wind + 1) % q.max_queue_size;
      nums = q.nums + 1;
    })
    else panic index_out_of_range

-- One turn of the loop of `run`. A full queue drops the transaction.
unfoldable pub take_tx : Transaction → TxQueue → Result TxQueue
unfolding put_tx make_batch
take_tx tx q =
    if eqb_ℤ (pos q.wind) q.rind
    then ok q
    else (put_tx tx q >>= λ q'. if leb q'.batch_size q'.nums then make_batch q' else ok q')

-- `get`, with the batch of id -1 where there is none.
unfoldable pub get_batch : TxQueue → Batch × TxQueue
get_batch q = elim q.batch_channel [
  | [] ↦ (record { id = negsuc 0; txs = [] }, q)
  | b ∷ bs ↦ (b, record q { batch_channel = bs })
]

pub data PoolEvent : Type 0 where
  arrive : Transaction → PoolEvent
  get : PoolEvent

-- The batches that `GetBatch` answers along a run of events, and the queue behind it.
unfoldable pub run_pool : List PoolEvent → TxQueue → Result (List Batch × TxQueue)
unfolding take_tx get_batch
run_pool [] q = ok ([], q)
run_pool (arrive tx ∷ es) q = take_tx tx q >>= λ q'. run_pool es q'
run_pool (get ∷ es) q =
    let (b, q') = get_batch q in run_pool es q' >>= λ (bs, end). ok (b ∷ bs, end)

-- `PRECISION`
abbrev pub precision : ℕ
precision = 20

-- The transactions that the maker sends at one tick.
abbrev pub burst : Parameters → List Transaction
burst p = replicate (p.rate / precision) (replicate p.tx_size 0)

-- The queue of `NewPool`.
abbrev pub new_pool : Parameters → ℕ → ℕ → TxQueue
new_pool p n id = new_tx_queue p.max_queue_size p.batch_size n id
