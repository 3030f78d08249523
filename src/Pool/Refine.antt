-- ===== src/Pool/Refine.antt =====
-- The ring queue of pool/pool.go does what a batcher does, where a batch is smaller than the queue.
use mathlib.Core.Path.{subst}
use loom.Message.{Transaction, Batch}
use loom.Pool.{TxQueue, new_tx_queue, take_tx, get_batch, PoolEvent, arrive, get, run_pool}
use loom.Pool.Ring.{here_eq}
use loom.Pool.Batcher.{
  all_txs, arrived, AreFull, inside-run_batcher, run_batcher-AreFull, Batcher, accept, hand_out,
  run_batcher, empty_batcher,
}
use loom.Prelude.{
  ℕ, ◌+◌, ◌<◌, ◌≡◌, refl, sym, ap, ◌∙◌, ◌⊎◌, inl, inr, false, List, [], ◌∷◌, ◌++◌, arith, leb,
  Bool-cases, leb→le, length, length-append, All, List-cases, length-replicate,
}
use loom.Prelude.Result.{ok}
use loom.Pool.Holds.{
  get_batch-empty, Holds, hand_out-empty, grown, hand_out-ready, length-held, grown-Holds,
  make_batch-Holds, get_batch-ready, take_tx-eq,
}

module _ (b n id : ℕ) where
  length-waiting :
      (tx : Transaction) (q : TxQueue) (s : Batcher)
      → Holds b n id q s
      → length (s.waiting ++ tx ∷ []) ≡ q.nums + 1
  length-waiting tx q s h =
      omega (arith, length-append {0} s.waiting (tx ∷ []), length-held b n id q s h)

  -- One transaction.
  take_tx-Holds :
      (tx : Transaction) (q : TxQueue) (s : Batcher)
      → Holds b n id q s
      → (q' : TxQueue) × (take_tx tx q ≡ ok q') × Holds b n id q' (accept b n id tx s)
  unfolding accept
  take_tx-Holds tx q s h =
      let same : leb b (q.nums + 1) ≡ leb q.batch_size (q.nums + 1) =
        ap (λ k. leb k (q.nums + 1)) (sym h.batch) in
      elim (Bool-cases (leb q.batch_size (q.nums + 1))) [
        | inl full ↦
            let (q', made, held) =
              make_batch-Holds b n id tx q s h
                (omega (arith, leb→le b (q.nums + 1) (same ∙ full), h.few)) in
            (
              q',
              take_tx-eq b n id tx q s h ∙ rw full made,
              rw (length-waiting tx q s h, same, full) held,
            )
        | inr more ↦
            let under : leb b (q.nums + 1) ≡ false = same ∙ more in
            (
              grown b n id tx q,
              take_tx-eq b n id tx q s h ∙ rw more refl,
              rw (length-waiting tx q s h, under) (grown-Holds b n id tx q s h (ground arith)),
            )
      ]

  new_tx_queue-Holds : (m : ℕ) → 0 < b → b < m → Holds b n id (new_tx_queue m b n id) empty_batcher
  new_tx_queue-Holds m pos_b lt = record {
    batch = refl;
    nodes = refl;
    node = refl;
    size = length-replicate m [];
    room = lt;
    few = pos_b;
    start = 0;
    next = refl;
    in_ring = omega arith;
    behind = inl refl;
    write = sym (here_eq 0 m (omega arith));
    held = refl;
    ready = refl;
    made = refl;
  }

  get_batch-Holds :
      (q : TxQueue) (s : Batcher)
      → Holds b n id q s
      → ((get_batch q).0 ≡ (hand_out s).0) × Holds b n id (get_batch q).1 (hand_out s).1
  unfolding get_batch
  get_batch-Holds q s h = elim (List-cases s.ready) [
    | inl empty ↦
        let e = get_batch-empty q (h.ready ∙ empty) in
        let g = hand_out-empty s empty in
        (
          ap (λ p. p.0) e ∙ sym (ap (λ p. p.0) g),
          subst (Holds b n id (get_batch q).1) (sym (ap (λ p. p.1) g))
              (subst (λ x. Holds b n id x s) (sym (ap (λ p. p.1) e)) h),
        )
    | inr (x, xs, some_ready) ↦
        let e = get_batch-ready q x xs (h.ready ∙ some_ready) in
        let g = hand_out-ready s x xs some_ready in
        let q' = record q { batch_channel = xs } in
        let s' = record s { ready = xs } in
        let held : Holds b n id q' s' = record {
          batch = h.batch;
          nodes = h.nodes;
          node = h.node;
          size = h.size;
          room = h.room;
          few = h.few;
          start = h.start;
          next = h.next;
          in_ring = h.in_ring;
          behind = h.behind;
          write = h.write;
          held = h.held;
          ready = refl;
          made = h.made;
        } in
        (
          ap (λ p. p.0) e ∙ sym (ap (λ p. p.0) g),
          subst (Holds b n id (get_batch q).1) (sym (ap (λ p. p.1) g))
              (subst (λ x. Holds b n id x s') (sym (ap (λ p. p.1) e)) held),
        )
  ]

  run_pool-Holds :
      (es : List PoolEvent) (q : TxQueue) (s : Batcher)
      → Holds b n id q s
      → (end : TxQueue) × (run_pool es q ≡ ok ((run_batcher b n id es s).0, end))
        × Holds b n id end (run_batcher b n id es s).1
  unfolding run_pool run_batcher
  run_pool-Holds [] q s h = (q, refl, h)
  run_pool-Holds (arrive tx ∷ es) q s h =
      let (q', taken, held) = take_tx-Holds tx q s h in
      let (end, done, at_end) = run_pool-Holds es q' (accept b n id tx s) held in
      (end, rw taken done, at_end)
  run_pool-Holds (get ∷ es) q s h =
      let (same, held) = get_batch-Holds q s h in
      let (end, done, at_end) = run_pool-Holds es (get_batch q).1 (hand_out s).1 held in
      (end, rw (done, same) refl, at_end)

  -- From a new queue with room for more than one batch, no sequence of arriving transactions and
  -- `GetBatch` calls tells the ring from the batcher: it never faults and drops nothing, and every call
  -- gets the batch that the batcher hands out.
  pub run_pool-refines :
      (m : ℕ) (es : List PoolEvent)
      → 0 < b
      → b < m
      → (end : TxQueue) × (run_pool es (new_tx_queue m b n id)
          ≡ ok ((run_batcher b n id es empty_batcher).0, end))
        × (end.batch_channel ≡ (run_batcher b n id es empty_batcher).1.ready)
        × (end.nums ≡ length (run_batcher b n id es empty_batcher).1.waiting)
  run_pool-refines m es pos_b lt =
      let (end, done, h) =
        run_pool-Holds es (new_tx_queue m b n id) empty_batcher (new_tx_queue-Holds m pos_b lt) in
      (end, done, h.ready, sym (length-held b n id end (run_batcher b n id es empty_batcher).1 h))

-- From a new queue with room for more than one batch, no sequence of arriving transactions and
-- `GetBatch` calls makes the pool fault. What was handed out, what waits in the channel and fewer
-- transactions than a batch holds are together all that arrived, in the order in which it arrived, and
-- each batch handed out or waiting is full, but for the empty ones handed out where none waits.
pub run_pool-keeps :
    (m b n id : ℕ) (es : List PoolEvent)
    → 0 < b
    → b < m
    → (out : List Batch) × (end : TxQueue) × (rest : List Transaction) × (run_pool es
          (new_tx_queue m b n id)
        ≡ ok (out, end))
      × (all_txs out ++ (all_txs end.batch_channel ++ rest) ≡ arrived es)
      × (length rest < b)
      × All (λ x. (x.txs ≡ []) ⊎ (length x.txs ≡ b)) out
      × All (λ x. length x.txs ≡ b) end.batch_channel
run_pool-keeps m b n id es pos_b lt =
    let (end, done, ready, _) = run_pool-refines b n id m es pos_b lt in
    let (out, last) = run_batcher b n id es empty_batcher in
    let (handed, full, few) = run_batcher-AreFull b n id es empty_batcher tt pos_b in
    (
      out,
      end,
      last.waiting,
      done,
      ap (λ (bs : List Batch). all_txs out ++ (all_txs bs ++ last.waiting)) ready
          ∙ inside-run_batcher b n id es empty_batcher,
      few,
      handed,
      subst (AreFull b n id) (sym ready) full,
    )
