-- ===== src/Pool/Batcher.antt =====
-- What the pool promises: transactions come out in batches, in the order in which they came in.
use loom.Message.{Transaction, Batch}
use mathlib.Core.List.{append-nil, append_assoc}
use mathlib.Core.Path.{subst}
use loom.Pool.{PoolEvent, arrive, get}
use loom.Prelude.{
  ℕ, ◌+◌, ◌*◌, ◌<◌, ◌≡◌, refl, sym, ap, ◌∙◌, ◌⊎◌, inl, inr, List, [], ◌∷◌, ◌++◌, arith, leb,
  if◌then◌else◌, Bool-cases, leb→le, length, length-append, All, List-cases,
}
use loom.Prelude.Int.{negsuc, wrap}

-- The transactions that wait for their batch, the batches that wait for a `get`, and the batches made.
pub record Batcher : Type 0 where
  pub waiting : List Transaction
  pub ready : List Batch
  pub made : ℕ

abbrev pub hand_out : Batcher → Batch × Batcher
hand_out s = elim s.ready [
  | [] ↦ (record { id = negsuc 0; txs = [] }, s)
  | b ∷ bs ↦ (b, record s { ready = bs })
]

module _ (batch_size n id : ℕ) where
  abbrev pub numbered : ℕ → List Transaction → Batch
  numbered k txs = record { id = wrap (id + n * k) 0; txs = txs }

  unfoldable pub accept : Transaction → Batcher → Batcher
  accept tx s =
      let waiting = s.waiting ++ tx ∷ [] in
      if leb batch_size (length waiting)
      then record {
        waiting = [];
        ready = s.ready ++ numbered s.made waiting ∷ [];
        made = s.made + 1;
      }
      else record s { waiting = waiting }

  unfoldable pub run_batcher : List PoolEvent → Batcher → List Batch × Batcher
  unfolding accept
  run_batcher [] s = ([], s)
  run_batcher (arrive tx ∷ es) s = run_batcher es (accept tx s)
  run_batcher (get ∷ es) s =
      let (b, s') = hand_out s in let (bs, end) = run_batcher es s' in (b ∷ bs, end)

abbrev pub empty_batcher : Batcher
empty_batcher = record { waiting = []; ready = []; made = 0 }

-- The transactions of batches in a row, and those that a run of events brings.
abbrev pub all_txs : List Batch → List Transaction
all_txs [] = []
all_txs (b ∷ bs) = b.txs ++ all_txs bs

abbrev pub arrived : List PoolEvent → List Transaction
arrived [] = []
arrived (arrive tx ∷ es) = tx ∷ arrived es
arrived (get ∷ es) = arrived es

-- What a batcher holds, oldest first.
abbrev pub inside : Batcher → List Transaction
inside s = all_txs s.ready ++ s.waiting

all_txs-append : (xs ys : List Batch) → all_txs (xs ++ ys) ≡ all_txs xs ++ all_txs ys
all_txs-append [] ys = refl
all_txs-append (x ∷ xs) ys =
    rw (all_txs-append xs ys) (sym (append_assoc x.txs (all_txs xs) (all_txs ys)))

inside-hand_out : (s : Batcher) → (hand_out s).0.txs ++ inside (hand_out s).1 ≡ inside s
inside-hand_out s = go s.ready s.waiting s.made
  where
    go :
        (ready : List Batch) (waiting : List Transaction) (made : ℕ)
        → let s : Batcher = record { waiting = waiting; ready = ready; made = made } in
          (hand_out s).0.txs ++ inside (hand_out s).1 ≡ inside s
    go [] waiting made = refl
    go (b ∷ bs) waiting made = sym (append_assoc b.txs (all_txs bs) waiting)

module _ (batch_size n id : ℕ) where
  inside-accept :
      (tx : Transaction) (s : Batcher) → inside (accept batch_size n id tx s) ≡ inside s ++ tx ∷ []
  unfolding accept
  inside-accept tx s = elim (Bool-cases (leb batch_size (length (s.waiting ++ tx ∷ [])))) [
    | inl full ↦ rw full (simp (all_txs-append, append-nil, append_assoc))
    | inr more ↦ rw more (sym (append_assoc (all_txs s.ready) s.waiting (tx ∷ [])))
  ]

  -- What was handed out and what is still inside are, in order, what was inside and what came.
  pub inside-run_batcher :
      (es : List PoolEvent) (s : Batcher)
      → let (out, end) = run_batcher batch_size n id es s in
        all_txs out ++ inside end ≡ inside s ++ arrived es
  unfolding run_batcher
  inside-run_batcher [] s = sym (append-nil (inside s))
  inside-run_batcher (arrive tx ∷ es) s =
      inside-run_batcher es (accept batch_size n id tx s)
      ∙ rw (inside-accept tx s) (append_assoc (inside s) (tx ∷ []) (arrived es))
  inside-run_batcher (get ∷ es) s =
      let (b, s') = hand_out s in
      let (out, end) = run_batcher batch_size n id es s' in
      append_assoc b.txs (all_txs out) (inside end)
      ∙ ap (λ (l : List Transaction). b.txs ++ l) (inside-run_batcher es s')
      ∙ sym (append_assoc b.txs (inside s') (arrived es))
      ∙ ap (λ (l : List Transaction). l ++ arrived es) (inside-hand_out s)

  -- A batch holds as many transactions as it is to hold.
  abbrev pub AreFull : List Batch → Type 0
  AreFull = All (λ b. length b.txs ≡ batch_size)

  AreFull-append :
      (xs : List Batch) (b : Batch)
      → AreFull xs
      → length b.txs ≡ batch_size
      → AreFull (xs ++ b ∷ [])
  AreFull-append [] b h k = (k, tt)
  AreFull-append (x ∷ xs) b h k = (h.0, AreFull-append xs b h.1 k)

  accept-AreFull :
      (tx : Transaction) (s : Batcher)
      → AreFull s.ready
      → length s.waiting < batch_size
      → AreFull (accept batch_size n id tx s).ready
        × (length (accept batch_size n id tx s).waiting < batch_size)
  unfolding accept
  accept-AreFull tx s h lt = elim (Bool-cases (leb batch_size (length (s.waiting ++ tx ∷ [])))) [
    | inl full ↦ rw full (
      AreFull-append s.ready _ h (
          omega (
            arith,
            leb→le batch_size (length (s.waiting ++ tx ∷ [])) full,
            length-append {0} s.waiting (tx ∷ []),
          )),
      omega arith,
    )
    | inr more ↦ rw more (h, ground arith)
  ]

  -- Handed out is a full batch, or an empty one where there is none.
  abbrev pub IsHanded : Batch → Type 0
  IsHanded b = (b.txs ≡ []) ⊎ (length b.txs ≡ batch_size)

  hand_out-AreFull :
      (s : Batcher)
      → AreFull s.ready
      → IsHanded (hand_out s).0
        × AreFull (hand_out s).1.ready
        × ((hand_out s).1.waiting ≡ s.waiting)
  hand_out-AreFull s h = elim (List-cases s.ready) [
    | inl empty ↦ ground arith
    | inr (b, bs, some_ready) ↦
        let full : AreFull (b ∷ bs) = subst AreFull some_ready h in
        (inr (ground arith), subst AreFull (ground arith) full.1, ground arith)
  ]

  pub run_batcher-AreFull :
      (es : List PoolEvent) (s : Batcher)
      → AreFull s.ready
      → length s.waiting < batch_size
      → let (out, end) = run_batcher batch_size n id es s in
        All IsHanded out × AreFull end.ready × (length end.waiting < batch_size)
  unfolding run_batcher
  run_batcher-AreFull [] s h lt = (tt, h, lt)
  run_batcher-AreFull (arrive tx ∷ es) s h lt =
      let (h', lt') = accept-AreFull tx s h lt in
      run_batcher-AreFull es (accept batch_size n id tx s) h' lt'
  run_batcher-AreFull (get ∷ es) s h lt =
      let (handed, h', same) = hand_out-AreFull s h in
      let (out, end, few) =
        run_batcher-AreFull es (hand_out s).1 h' (omega (arith, ap length same)) in
      ((handed, out), end, few)
