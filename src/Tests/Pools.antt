-- ===== src/Tests/Pools.antt =====
-- Runs of the pool.
use loom.Message.{Transaction, Batch}
use loom.Pool.{TxQueue, new_tx_queue, PoolEvent, arrive, get, run_pool}
use loom.Pool.Batcher.{run_batcher, empty_batcher, all_txs, arrived}
use loom.Pool.Refine.{run_pool-refines, run_pool-keeps}
use loom.Pool.Stuck.{run_pool-stuck}
use loom.Prelude.{ℕ, ◌≤◌, ◌<◌, ◌≡◌, refl, ◌⊎◌, List, [], ◌∷◌, ◌++◌, arith, length, All}
use loom.Prelude.Int.{pos, negsuc, wrap}
use loom.Prelude.Result.{ok}

abbrev tx : ℕ → PoolEvent
tx k = arrive (k ∷ [])

abbrev busy : List PoolEvent
busy = tx 1 ∷ get ∷ tx 2 ∷ tx 3 ∷ tx 4 ∷ tx 5 ∷ get ∷ get ∷ get ∷ []

-- The batches of node 1 of 4 have the ids 1, 5 and so on.
busy_batches :
    (run_batcher 2 4 1 busy empty_batcher).0
    ≡ (record { id = negsuc 0; txs = [] })
      ∷ (record { id = pos 1; txs = (1 ∷ []) ∷ (2 ∷ []) ∷ [] })
      ∷ (record { id = pos 5; txs = (3 ∷ []) ∷ (4 ∷ []) ∷ [] })
      ∷ (record { id = negsuc 0; txs = [] })
      ∷ []
unfolding run_batcher wrap
busy_batches = refl

run_pool-refines_example :
    (end : TxQueue) × (run_pool busy (new_tx_queue 3 2 4 1)
      ≡ ok ((run_batcher 2 4 1 busy empty_batcher).0, end))
    × (end.batch_channel ≡ (run_batcher 2 4 1 busy empty_batcher).1.ready)
    × (end.nums ≡ length (run_batcher 2 4 1 busy empty_batcher).1.waiting)
run_pool-refines_example = run_pool-refines 2 4 1 3 busy (omega arith) (omega arith)

run_pool-keeps_example :
    (out : List Batch) × (end : TxQueue) × (rest : List Transaction) × (run_pool busy
        (new_tx_queue 3 2 4 1)
      ≡ ok (out, end))
    × (all_txs out ++ (all_txs end.batch_channel ++ rest) ≡ arrived busy)
    × (length rest < 2)
    × All (λ x. (x.txs ≡ []) ⊎ (length x.txs ≡ 2)) out
    × All (λ x. length x.txs ≡ 2) end.batch_channel
run_pool-keeps_example = run_pool-keeps 3 2 4 1 busy (omega arith) (omega arith)

run_pool-stuck_example :
    (out : List Batch) × (end : TxQueue) × (run_pool busy (new_tx_queue 2 2 4 1) ≡ ok (out, end))
    × (end.bcnt ≤ 1)
run_pool-stuck_example = run_pool-stuck 2 4 1 busy (omega arith)
