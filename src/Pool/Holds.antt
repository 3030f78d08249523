-- ===== src/Pool/Holds.antt =====
-- The ring queue of pool/pool.go while it holds what a batcher has, where a batch is smaller than it.
use mathlib.Core.List.{map-append}
use mathlib.Core.Path.{ap₂}
use native.Mathlib.Nat.{mod-add-mod}
use loom.Message.{Transaction, Batch}
use loom.Pool.{TxQueue, advance, read_loop, make_batch, put_tx, take_tx, get_batch}
use loom.Pool.Ring.{items, read_loop-items, round_ne, step_round, here_eq, items-set}
use loom.Pool.Batcher.{Batcher, hand_out}
use loom.Prelude.{
  ℕ, zero, suc, ◌+◌, ◌-◌, ◌*◌, ◌%◌, ◌<◌, ◌≡◌, refl, sym, ap, ◌∙◌, ◌≢◌, ◌⊎◌, inl, inr, false, Option,
  some, List, [], ◌∷◌, ◌++◌, map, arith, leb, if◌then◌else◌, lt→ltb, length, set, length-set,
  length-map,
}
use loom.Prelude.Int.{ℤ, pos, negsuc, eqb_ℤ, wrap}
use loom.Prelude.Result.{ok}

not_full :
    (m start nums wind : ℕ) (rind : ℤ)
    → start < m
    → suc nums < m
    → advance rind m ≡ pos start
    → (rind ≡ negsuc 0) ⊎ ((r : ℕ) × (rind ≡ pos r) × (r < m))
    → wind ≡ (start + nums) % m
    → eqb_ℤ (pos wind) rind ≡ false
not_full m start nums wind rind inside lt next (inl fresh) w = rw fresh refl
not_full m start nums wind rind inside lt next (inr (r, at_r, in_ring)) w =
    let from_r : pos ((r + 1) % m) ≡ pos start = ap (λ z. advance z m) (sym at_r) ∙ next in
    let is_start : (r + 1) % m ≡ start = cc in
    let at_wind : wind ≡ (r + suc nums) % m =
      w ∙ ap (λ x. (x + nums) % m) (sym is_start) ∙ step_round r nums m (omega arith) in
    let apart = round_ne r (suc nums) m in_ring (omega arith) lt in
    let ne : wind ≢ r = λ same. apart (sym at_wind ∙ same) in rw at_r (ground arith)

length-items : (queue : List Transaction) (m s k : ℕ) → length (items queue m s k) ≡ k
length-items queue m s zero = refl
length-items queue m s (suc k) = ap suc (length-items queue m ((s + 1) % m) k)

one_more : (s k m : ℕ) → ((s + k) % m + 1) % m ≡ (s + (k + 1)) % m
one_more s k m = mod-add-mod (s + k) m 1 ∙ ap (λ x. x % m) (omega arith)

abbrev pub no_batch : Batch
no_batch = record { id = negsuc 0; txs = [] }

pub get_batch-empty : (q : TxQueue) → q.batch_channel ≡ [] → get_batch q ≡ (no_batch, q)
unfolding get_batch
get_batch-empty q h = ground arith

pub get_batch-ready :
    (q : TxQueue) (b : Batch) (bs : List Batch)
    → q.batch_channel ≡ b ∷ bs
    → get_batch q ≡ (b, record q { batch_channel = bs })
unfolding get_batch
get_batch-ready q b bs h = ground arith

pub hand_out-empty : (s : Batcher) → s.ready ≡ [] → hand_out s ≡ (no_batch, s)
hand_out-empty s h = ground arith

pub hand_out-ready :
    (s : Batcher) (b : Batch) (bs : List Batch)
    → s.ready ≡ b ∷ bs
    → hand_out s ≡ (b, record s { ready = bs })
hand_out-ready s b bs h = ground arith

module _ (b n id : ℕ) where
  -- The queue holds what the batcher has: from `start` on stand the transactions that wait.
  pub record Holds (q : TxQueue) (s : Batcher) : Type 0 where
    pub batch : q.batch_size ≡ b
    pub nodes : q.n ≡ n
    pub node : q.id ≡ id
    pub size : length q.queue ≡ q.max_queue_size
    pub room : b < q.max_queue_size
    pub few : q.nums < b
    pub start : ℕ
    pub next : advance q.rind q.max_queue_size ≡ pos start
    pub in_ring : start < q.max_queue_size
    pub behind : (q.rind ≡ negsuc 0) ⊎ ((r : ℕ) × (q.rind ≡ pos r) × (r < q.max_queue_size))
    pub write : q.wind ≡ (start + q.nums) % q.max_queue_size
    pub held : items q.queue q.max_queue_size start q.nums ≡ map some s.waiting
    pub ready : q.batch_channel ≡ s.ready
    pub made : q.bcnt ≡ s.made

  pub length-held : (q : TxQueue) (s : Batcher) → Holds q s → length s.waiting ≡ q.nums
  length-held q s h =
      sym (length-map {0, 0} some s.waiting)
      ∙ ap length (sym h.held)
      ∙ length-items q.queue q.max_queue_size h.start q.nums

  -- The queue with one more transaction in it.
  abbrev pub grown : Transaction → TxQueue → TxQueue
  grown tx q = record q {
    queue = set q.queue q.wind tx;
    wind = (q.wind + 1) % q.max_queue_size;
    nums = q.nums + 1;
  }

  held-grown :
      (tx : Transaction) (q : TxQueue) (s : Batcher) (h : Holds q s)
      → items (grown tx q).queue q.max_queue_size h.start (q.nums + 1)
        ≡ map some (s.waiting ++ tx ∷ [])
  held-grown tx q s h =
      let one_is_suc : q.nums + 1 ≡ suc q.nums = omega arith in
      ap (items (grown tx q).queue q.max_queue_size h.start) one_is_suc
      ∙ items-set q.nums q.queue q.max_queue_size h.start q.wind tx h.size h.in_ring
          (omega (arith, h.few, h.room)) h.write
      ∙ ap (λ (os : List (Option Transaction)). os ++ some tx ∷ []) h.held
      ∙ sym (map-append some s.waiting (tx ∷ []))

  put_tx-grown :
      (tx : Transaction) (q : TxQueue) (s : Batcher) → Holds q s → put_tx tx q ≡ ok (grown tx q)
  unfolding put_tx
  put_tx-grown tx q s h =
      let inside : q.wind < length q.queue = omega (arith, h.write, h.size, h.in_ring) in
      rw (lt→ltb q.wind (length q.queue) inside) refl

  pub take_tx-eq :
      (tx : Transaction) (q : TxQueue) (s : Batcher)
      → Holds q s
      → take_tx tx q
        ≡ (if leb q.batch_size (q.nums + 1) then make_batch (grown tx q) else ok (grown tx q))
  unfolding take_tx
  take_tx-eq tx q s h =
      let free : eqb_ℤ (pos q.wind) q.rind ≡ false =
        not_full q.max_queue_size h.start q.nums q.wind q.rind h.in_ring
          (omega (arith, h.few, h.room)) h.next h.behind h.write in
      rw (free, put_tx-grown tx q s h) refl

  -- The batch that is due.
  abbrev due : Transaction → Batcher → Batcher
  due tx s = record {
    waiting = [];
    ready = s.ready ++ (record { id = wrap (id + n * s.made) 0; txs = s.waiting ++ tx ∷ [] }) ∷ [];
    made = s.made + 1;
  }

  pub make_batch-Holds :
      (tx : Transaction) (q : TxQueue) (s : Batcher)
      → Holds q s
      → q.nums + 1 ≡ b
      → (q' : TxQueue) × (make_batch (grown tx q) ≡ ok q') × Holds q' (due tx s)
  unfolding make_batch
  make_batch-Holds tx q s h full =
      let m = q.max_queue_size in
      let queue = set q.queue q.wind tx in
      let (end, read_all, next, behind) =
        read_loop-items (q.nums + 1) q.rind queue m h.start (s.waiting ++ tx ∷ []) h.in_ring h.next
          (held-grown tx q s h) in
      let read_batch : read_loop q.batch_size q.rind queue m ≡ ok (s.waiting ++ tx ∷ [], end) =
        ap (λ k. read_loop k q.rind queue m) (h.batch ∙ sym full) ∙ read_all in
      let q' : TxQueue = record (grown tx q) {
        batch_channel =
            q.batch_channel
            ++ (record { id = wrap (q.id + q.n * q.bcnt) 0; txs = s.waiting ++ tx ∷ [] }) ∷ [];
        rind = end;
        nums = q.nums + 1 - q.batch_size;
        bcnt = q.bcnt + 1;
      } in
      let start = (h.start + (q.nums + 1)) % m in
      let inside : start < m = omega (arith, h.in_ring) in
      let write : q'.wind ≡ (start + 0) % m =
        ap (λ w. (w + 1) % m) h.write ∙ one_more h.start q.nums m ∙ sym (here_eq start m inside) in
      let id_same : wrap (q.id + q.n * q.bcnt) 0 ≡ wrap (id + n * s.made) 0 =
        ap (λ k. wrap k 0) (ap₂ ◌+◌ h.node (ap₂ ◌*◌ h.nodes h.made)) in
      let none_left : q'.nums ≡ 0 = omega (arith, full, h.batch) in
      (
        q',
        rw read_batch refl,
        record {
          batch = h.batch;
          nodes = h.nodes;
          node = h.node;
          size = length-set q.queue q.wind tx ∙ h.size;
          room = h.room;
          few = omega (arith, none_left, h.few);
          start = start;
          next = next;
          in_ring = inside;
          behind = elim behind [
            | inl (none_read, _) ↦ absurd (omega arith)
            | inr (r, at_r, in_r) ↦ inr (r, at_r, in_r)
          ];
          write = write ∙ ap (λ k. (start + k) % m) (sym none_left);
          held = ap (items queue m start) none_left;
          ready =
              ap₂
                (λ (bs : List Batch) (i : ℤ).
                  bs ++ (record { id = i; txs = s.waiting ++ tx ∷ [] }) ∷ [])
                h.ready id_same;
          made = ap (λ k. k + 1) h.made;
        },
      )

  pub grown-Holds :
      (tx : Transaction) (q : TxQueue) (s : Batcher)
      → Holds q s
      → q.nums + 1 < b
      → Holds (grown tx q) (record s { waiting = s.waiting ++ tx ∷ [] })
  grown-Holds tx q s h more = record {
    batch = h.batch;
    nodes = h.nodes;
    node = h.node;
    size = length-set q.queue q.wind tx ∙ h.size;
    room = h.room;
    few = more;
    start = h.start;
    next = h.next;
    in_ring = h.in_ring;
    behind = h.behind;
    write = ap (λ w. (w + 1) % q.max_queue_size) h.write ∙ one_more h.start q.nums q.max_queue_size;
    held = held-grown tx q s h;
    ready = h.ready;
    made = h.made;
  }
