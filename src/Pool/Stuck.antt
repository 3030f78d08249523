-- ===== src/Pool/Stuck.antt =====
-- pool/pool.go where a batch is as large as the queue.
use native.Mathlib.Nat.{mod-eq_of_lt, mod_self}
use loom.Message.{Transaction, Batch}
use loom.Pool.{
  TxQueue, new_tx_queue, read_loop, make_batch, put_tx, take_tx, get_batch, PoolEvent, arrive, get,
  run_pool,
}
use loom.Pool.Holds.{get_batch-empty, get_batch-ready}
use loom.Prelude.{
  ℕ, zero, suc, ◌+◌, ◌-◌, ◌*◌, ◌%◌, ◌≤◌, ◌<◌, ◌≡◌, refl, sym, ap, ◌∙◌, ◌≢◌, ◌⊎◌, inl, inr, false,
  List, [], ◌∷◌, ◌++◌, arith, length, set, List-cases, length-set, get_elem?-in, length-replicate,
}
use loom.Prelude.Int.{ℤ, pos, negsuc, eqb_ℤ, eqb_ℤ_iff, wrap}
use loom.Prelude.Result.{ok}

-- Along the run: still filling the first batch, or behind it, with the read index at the last place.
data Stage (m : ℕ) (q : TxQueue) : Type 0 where
  filling : q.rind ≡ negsuc 0 → q.bcnt ≡ 0 → q.wind ≡ q.nums → q.nums < m → Stage m q
  full_once : q.rind ≡ pos (m - 1) → q.bcnt ≡ 1 → q.wind ≡ q.nums → q.nums < m → Stage m q

record IsRing (m : ℕ) (q : TxQueue) : Type 0 where
  size : length q.queue ≡ m
  max : q.max_queue_size ≡ m
  batch : q.batch_size ≡ m
  some_room : 0 < m

read_on :
    (k s : ℕ) (queue : List Transaction) (m : ℕ)
    → length queue ≡ m
    → s + k < m
    → (txs : List Transaction) × (read_loop k (pos s) queue m ≡ ok (txs, pos (s + k)))
unfolding read_loop
read_on zero s queue m size lt = ([], ap (λ (x : ℕ). ok ([], pos x)) (omega arith))
read_on (suc k) s queue m size lt =
    let (tx, there) = get_elem?-in queue (s + 1) (omega arith) in
    let (txs, rest) = read_on k (s + 1) queue m size (omega arith) in
    let next : (s + 1) % m ≡ s + 1 = mod-eq_of_lt (omega arith) in
    let same : s + 1 + k ≡ s + suc k = omega arith in (tx ∷ txs, rw (next, there, rest, same) refl)

-- A first batch as large as the queue is read to its last place.
read_first :
    (m : ℕ) (queue : List Transaction)
    → length queue ≡ m
    → 0 < m
    → (txs : List Transaction) × (read_loop m (negsuc 0) queue m ≡ ok (txs, pos (m - 1)))
unfolding read_loop
read_first zero queue size p = absurd (omega arith)
read_first (suc k) queue size p =
    let (tx, there) = get_elem?-in queue 0 (omega arith) in
    let (txs, rest) = read_on k 0 queue (suc k) size (omega arith) in
    let same : 0 + k ≡ suc k - 1 = omega arith in (tx ∷ txs, rw (there, rest, same) refl)

abbrev grown : Transaction → TxQueue → TxQueue
grown tx q = record q {
  queue = set q.queue q.wind tx;
  wind = (q.wind + 1) % q.max_queue_size;
  nums = q.nums + 1;
}

grown-IsRing : (m : ℕ) (tx : Transaction) (q : TxQueue) → IsRing m q → IsRing m (grown tx q)
grown-IsRing m tx q r = record {
  size = length-set q.queue q.wind tx ∙ r.size;
  max = r.max;
  batch = r.batch;
  some_room = r.some_room;
}

-- A turn that is neither dropped nor the last of a batch.
take_tx-plain :
    (m : ℕ) (tx : Transaction) (q : TxQueue)
    → IsRing m q
    → eqb_ℤ (pos q.wind) q.rind ≡ false
    → q.wind < m
    → q.nums + 1 < m
    → take_tx tx q ≡ ok (grown tx q)
unfolding take_tx put_tx
take_tx-plain m tx q r free lt more = ground (arith, r.size, r.batch)

take_tx-last :
    (m : ℕ) (tx : Transaction) (q : TxQueue)
    → IsRing m q
    → eqb_ℤ (pos q.wind) q.rind ≡ false
    → q.wind < m
    → q.nums + 1 ≡ m
    → take_tx tx q ≡ make_batch (grown tx q)
unfolding take_tx put_tx
take_tx-last m tx q r free lt full = ground (arith, r.size, r.batch)

take_tx-full : (q : TxQueue) (tx : Transaction) → pos q.wind ≡ q.rind → take_tx tx q ≡ ok q
unfolding take_tx
take_tx-full q tx same = let full = (eqb_ℤ_iff (pos q.wind) q.rind).1 same in rw full refl

lt_or_eq : {a m : ℕ} → a < m → (a + 1 < m) ⊎ (a + 1 ≡ m)
lt_or_eq {a} {m} lt = ground arith

-- The queue stands still in one way or the other: it goes on, and no second batch comes about.
GoesOn : ℕ → TxQueue → Type 0
GoesOn m q = IsRing m q × Stage m q

grown-filling :
    (m : ℕ) (tx : Transaction) (q : TxQueue)
    → IsRing m q
    → q.rind ≡ negsuc 0
    → q.bcnt ≡ 0
    → q.wind ≡ q.nums
    → q.nums + 1 < m
    → Stage m (grown tx q)
grown-filling m tx q r at_rind no_batch even more =
    filling at_rind no_batch (rw r.max (mod-eq_of_lt (omega arith) ∙ ap (λ x. x + 1) even)) more

grown-full_once :
    (m : ℕ) (tx : Transaction) (q : TxQueue)
    → IsRing m q
    → q.rind ≡ pos (m - 1)
    → q.bcnt ≡ 1
    → q.wind ≡ q.nums
    → q.nums + 1 < m
    → Stage m (grown tx q)
grown-full_once m tx q r at_rind one_batch even more =
    full_once at_rind one_batch (rw r.max (mod-eq_of_lt (omega arith) ∙ ap (λ x. x + 1) even)) more

abbrev made : List Transaction → ℤ → TxQueue → TxQueue
made txs end q = record q {
  batch_channel = q.batch_channel ++ (record { id = wrap (q.id + q.n * q.bcnt) 0; txs = txs }) ∷ [];
  rind = end;
  nums = q.nums - q.batch_size;
  bcnt = q.bcnt + 1;
}

make_batch-made :
    (q : TxQueue) (txs : List Transaction) (end : ℤ)
    → read_loop q.batch_size q.rind q.queue q.max_queue_size ≡ ok (txs, end)
    → make_batch q ≡ ok (made txs end q)
unfolding make_batch
make_batch-made q txs end reads = rw reads refl

make_batch-first :
    (m : ℕ) (tx : Transaction) (q : TxQueue)
    → IsRing m q
    → q.rind ≡ negsuc 0
    → q.bcnt ≡ 0
    → q.wind ≡ q.nums
    → q.nums + 1 ≡ m
    → (q' : TxQueue) × (make_batch (grown tx q) ≡ ok q') × GoesOn m q'
unfolding make_batch GoesOn
make_batch-first m tx q r at_rind no_batch even full =
    let r' = grown-IsRing m tx q r in
    let (txs, reads) = read_first m (grown tx q).queue r'.size r.some_room in
    let end = made txs (pos (m - 1)) (grown tx q) in
    let wraps : end.wind ≡ 0 = rw r.max (ap (λ x. x % m) (omega arith) ∙ mod_self m) in
    let none_left : end.nums ≡ 0 = rw r.batch (omega arith) in
    let ring : IsRing m end = record {
      size = r'.size;
      max = r.max;
      batch = r.batch;
      some_room = r.some_room;
    } in
    (
      end,
      make_batch-made (grown tx q) txs (pos (m - 1)) (rw (r.batch, r.max, at_rind) reads),
      (
        ring,
        full_once refl (ap (λ x. x + 1) no_batch) (wraps ∙ sym none_left)
            (rw none_left r.some_room),
      ),
    )

take_tx-GoesOn :
    (m : ℕ) (tx : Transaction) (q : TxQueue)
    → GoesOn m q
    → (q' : TxQueue) × (take_tx tx q ≡ ok q') × GoesOn m q'
unfolding GoesOn
take_tx-GoesOn m tx q (r, filling at_rind no_batch even lt) =
    let free : eqb_ℤ (pos q.wind) q.rind ≡ false = rw at_rind refl in
    let inside : q.wind < m = omega arith in
    elim (lt_or_eq lt) [
      | inl more ↦ (
        _,
        take_tx-plain m tx q r free inside more,
        (grown-IsRing m tx q r, grown-filling m tx q r at_rind no_batch even more),
      )
      | inr full ↦
          let (q', makes, goes) = make_batch-first m tx q r at_rind no_batch even full in
          (q', take_tx-last m tx q r free inside full ∙ makes, goes)
    ]
take_tx-GoesOn m tx q (r, full_once at_rind one_batch even lt) = elim (lt_or_eq lt) [
  | inl more ↦
      let apart : q.wind ≢ m - 1 = λ same. absurd (omega arith) in
      let free : eqb_ℤ (pos q.wind) q.rind ≡ false = rw at_rind (ground arith) in
      let inside : q.wind < m = omega arith in
      (
        _,
        take_tx-plain m tx q r free inside more,
        (grown-IsRing m tx q r, grown-full_once m tx q r at_rind one_batch even more),
      )
  | inr full ↦
      let same : q.wind ≡ m - 1 = omega arith in
      (q, take_tx-full q tx (ap pos same ∙ sym at_rind), (r, full_once at_rind one_batch even lt))
]

handed-GoesOn :
    (m : ℕ) (q : TxQueue) (bs : List Batch)
    → GoesOn m q
    → GoesOn m (record q { batch_channel = bs })
unfolding GoesOn
handed-GoesOn m q bs (r, stage) = (
  record { size = r.size; max = r.max; batch = r.batch; some_room = r.some_room },
  elim stage [
    | filling at_rind no_batch even lt ↦ filling at_rind no_batch even lt
    | full_once at_rind one_batch even lt ↦ full_once at_rind one_batch even lt
  ],
)

get_batch-GoesOn : (m : ℕ) (q : TxQueue) → GoesOn m q → GoesOn m (get_batch q).1
get_batch-GoesOn m q goes = elim (List-cases q.batch_channel) [
  | inl empty ↦ rw (get_batch-empty q empty) goes
  | inr (b, bs, ready) ↦ rw (get_batch-ready q b bs ready) (handed-GoesOn m q bs goes)
]

made_once : (m : ℕ) (q : TxQueue) → GoesOn m q → q.bcnt ≤ 1
unfolding GoesOn
made_once m q (r, filling at_rind no_batch even lt) = omega arith
made_once m q (r, full_once at_rind one_batch even lt) = omega arith

run_pool-GoesOn :
    (m : ℕ) (es : List PoolEvent) (q : TxQueue)
    → GoesOn m q
    → (out : List Batch) × (end : TxQueue) × (run_pool es q ≡ ok (out, end)) × GoesOn m end
unfolding run_pool
run_pool-GoesOn m [] q goes = ([], q, refl, goes)
run_pool-GoesOn m (arrive tx ∷ es) q goes =
    let (q', takes, goes') = take_tx-GoesOn m tx q goes in
    let (out, end, runs, goes'') = run_pool-GoesOn m es q' goes' in
    (out, end, rw takes runs, goes'')
run_pool-GoesOn m (get ∷ es) q goes =
    let (out, end, runs, goes') =
      run_pool-GoesOn m es (get_batch q).1 (get_batch-GoesOn m q goes) in
    ((get_batch q).0 ∷ out, end, rw runs refl, goes')

-- With batches as large as the queue, the queue makes at most one batch, however many transactions come:
-- the code takes it for full, once the write index stands on the last place read, and drops what comes.
pub run_pool-stuck :
    (m n id : ℕ) (es : List PoolEvent)
    → 0 < m
    → (out : List Batch) × (end : TxQueue) × (run_pool es (new_tx_queue m m n id) ≡ ok (out, end))
      × (end.bcnt ≤ 1)
unfolding GoesOn
run_pool-stuck m n id es p =
    let ring : IsRing m (new_tx_queue m m n id) = record {
      size = length-replicate m [];
      max = refl;
      batch = refl;
      some_room = p;
    } in
    let (out, end, runs, goes) =
      run_pool-GoesOn m es (new_tx_queue m m n id) (ring, filling refl refl refl p) in
    (out, end, runs, made_once m end goes)
