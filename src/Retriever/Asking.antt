-- ===== src/Retriever/Asking.antt =====
-- core/retriever.go: a request for the references that a block waits for.
use mathlib.Core.Path.{ap₂}
use mathlib.Core.List.{append-nil, append_assoc}
use loom.Committee.{NodeId}
use loom.Crypto.{Digest, Primitives, SigService}
use loom.Message.Make.{new_request_block}
use loom.Message.{RequestBlockMsg, request_block}
use loom.Retriever.{
  Action, transmit, Retriever, no_digest, noted, filter_refs, register, send_request, handle_ask,
}
use loom.Retriever.Pending.{contains-filter_refs, new_request_block-made}
use loom.Retriever.Counting.{Waiter, occurs, users, Serves}
use loom.Retriever.Waiting.{Awaits}
use loom.Prelude.{
  ℕ, suc, Bool, not, ◌&&◌, ◌||◌, if◌then◌else◌, some, ◌+◌, ◌^◌, ◌<◌, ◌≡◌, refl, sym, ap, ◌∙◌, ◌≢◌,
  ◌⊎◌, inl, inr, true, false, List, [], ◌∷◌, ◌++◌, arith, Bool-cases, length, length-append,
  replicate,
}
use loom.Prelude.Int.{ℤ, pos, pos_part}
use loom.Prelude.Eq.{◌==◌, nat_eq, int_eq, string_eq, list_eq, ==-refl, ==-false, ==-cases}
use loom.Prelude.Result.{ok}
use loom.Prelude.Map.{Map, insert, lookup, lookup-insert, get_or, get_or-insert}
use loom.Prelude.Distinct.{contains, Distinct}

users-append :
    (d : Digest) (ws : List Waiter) (refs : List Digest) (back : Digest) (k : ℕ)
    → users d k (ws ++ (refs, back) ∷ [])
      ≡ users d k ws ++ replicate (occurs d refs) (pos (k + length ws))
users-append d [] refs back k =
    append-nil (replicate (occurs d refs) (pos k))
    ∙ ap (λ n. replicate (occurs d refs) (pos n)) (omega arith)
users-append d ((left, b) ∷ ws) refs back k =
    ap (λ l. replicate (occurs d left) (pos k) ++ l) (users-append d ws refs back (k + 1))
    ∙ sym (
        append_assoc (replicate (occurs d left) (pos k)) (users d (k + 1) ws)
          (replicate (occurs d refs) (pos (k + 1 + length ws))))
    ∙ ap
        (λ n.
          (replicate (occurs d left) (pos k) ++ users d (k + 1) ws)
          ++ replicate (occurs d refs) (pos n))
        (omega arith)

module _ (p : Primitives) where
  record Notes (id : ℤ) (refs : List Digest) (r r' : Retriever p) : Type 0 where
    same_cnt : r'.cnt ≡ r.cnt
    same_cnts : r'.loop_back_cnts ≡ r.loop_back_cnts
    same_blocks : r'.loop_back_blocks ≡ r.loop_back_blocks
    same_service : r'.sig_service ≡ r.sig_service
    same_node : r'.node_id ≡ r.node_id
    same_requests : r'.requests ≡ r.requests
    users_of :
        (d : Digest)
        → get_or d r'.miss2_blocks [] ≡ get_or d r.miss2_blocks [] ++ replicate (occurs d refs) id

  filter_refs-Notes :
      (id : ℤ) (refs : List Digest) (r : Retriever p) → Notes id refs r (filter_refs p id refs r).1
  unfolding filter_refs
  filter_refs-Notes id [] r = record {
    same_cnt = refl;
    same_cnts = refl;
    same_blocks = refl;
    same_service = refl;
    same_node = refl;
    same_requests = refl;
    users_of = λ d. sym (append-nil (get_or d r.miss2_blocks []));
  }
  filter_refs-Notes id (x ∷ xs) r =
      let n = filter_refs-Notes id xs (noted p id x r) in
      let old = get_or x r.miss2_blocks [] in
      record {
        same_cnt = n.same_cnt;
        same_cnts = n.same_cnts;
        same_blocks = n.same_blocks;
        same_service = n.same_service;
        same_node = n.same_node;
        same_requests = n.same_requests;
        users_of = λ d.
            n.users_of d
            ∙ ap (λ l. l ++ replicate (occurs d xs) id)
                (get_or-insert x d (old ++ id ∷ []) [] r.miss2_blocks)
            ∙ elim (==-cases x d) [
              | inl same ↦
                  let at_d : old ≡ get_or d r.miss2_blocks [] =
                    ap (λ y. get_or y r.miss2_blocks []) same in
                  rw ((list_eq.same_iff x d).1 same) (
                    append_assoc old (id ∷ []) (replicate (occurs d xs) id)
                    ∙ ap (λ l. l ++ id ∷ replicate (occurs d xs) id) at_d)
              | inr other ↦ rw (==-false x d other) refl
            ];
      }

  -- Left to ask for are the references that were not pending, each once.
  contains-left :
      (id : ℤ) (refs : List Digest) (r : Retriever p) (d : Digest)
      → contains d (filter_refs p id refs r).0 ≡ contains d refs && not (contains d r.pending)
  unfolding filter_refs
  contains-left id [] r d = refl
  contains-left id (x ∷ xs) r d = elim (Bool-cases (contains x r.pending)) [
    | inl known ↦ elim (==-cases x d) [
      | inl same ↦
          let pends : contains d r.pending ≡ true =
            sym (ap (λ y. contains y r.pending) same) ∙ known in
          ground (arith, contains-left id xs (noted p id x r) d)
      | inr other ↦ ground (arith, contains-left id xs (noted p id x r) d, ==-false x d other)
    ]
    | inr new ↦ elim (==-cases x d) [
      | inl same ↦
          let free : contains d r.pending ≡ false =
            sym (ap (λ y. contains y r.pending) same) ∙ new in
          ground (arith, contains-left id xs (noted p id x r) d, (list_eq.same_iff x d).1 same)
      | inr other ↦ ground (arith, contains-left id xs (noted p id x r) d, ==-false x d other)
    ]
  ]

  Distinct-unless :
      (known : Bool) (x : Digest) (xs : List Digest)
      → Distinct xs
      → (known ≡ false → contains x xs ≡ false)
      → Distinct (if known then xs else x ∷ xs)
  Distinct-unless true x xs d new = d
  Distinct-unless false x xs d new = (new refl, d)

  left-Distinct :
      (id : ℤ) (refs : List Digest) (r : Retriever p) → Distinct (filter_refs p id refs r).0
  unfolding filter_refs
  left-Distinct id [] r = tt
  left-Distinct id (x ∷ xs) r =
      Distinct-unless (contains x r.pending) x (filter_refs p id xs (noted p id x r)).0
        (left-Distinct id xs (noted p id x r))
        (λ new. ground (arith, contains-left id xs (noted p id x r) x, ==-refl x))

  Serves-append :
      (r r' : Retriever p) (ws : List Waiter) (refs : List Digest) (back : Digest) (k : ℕ)
      → ((j : ℕ)
          → j ≢ k + length ws
          → get_or (pos j) r'.loop_back_cnts (pos 0) ≡ get_or (pos j) r.loop_back_cnts (pos 0))
      → ((j : ℕ)
          → j ≢ k + length ws
          → get_or (pos j) r'.loop_back_blocks no_digest
            ≡ get_or (pos j) r.loop_back_blocks no_digest)
      → get_or (pos (k + length ws)) r'.loop_back_cnts (pos 0) ≡ pos (length refs)
      → get_or (pos (k + length ws)) r'.loop_back_blocks no_digest ≡ back
      → length refs < 2 ^ 62
      → Serves p r k ws
      → Serves p r' k (ws ++ (refs, back) ∷ [])
  Serves-append r r' [] refs back k cnts blocks cnt block short h =
      let here : k + 0 ≡ k = omega arith in
      (
        ap (λ n. get_or (pos n) r'.loop_back_cnts (pos 0)) (sym here) ∙ cnt,
        ap (λ n. get_or (pos n) r'.loop_back_blocks no_digest) (sym here) ∙ block,
        short,
        tt,
      )
  Serves-append r r' ((left, b) ∷ ws) refs back k cnts blocks cnt block short
        (count, mine, few, h) =
      let shift : k + suc (length ws) ≡ k + 1 + length ws = omega arith in
      (
        cnts k (λ e. absurd (omega arith)) ∙ count,
        blocks k (λ e. absurd (omega arith)) ∙ mine,
        few,
        Serves-append r r' ws refs back (k + 1) (λ j ne. cnts j (λ e. ne (e ∙ shift)))
            (λ j ne. blocks j (λ e. ne (e ∙ shift)))
            (ap (λ n. get_or (pos n) r'.loop_back_cnts (pos 0)) (sym shift) ∙ cnt)
            (ap (λ n. get_or (pos n) r'.loop_back_blocks no_digest) (sym shift) ∙ block) short h,
      )

  -- What is sent and kept for the digests to ask for: nothing where there are none, and otherwise one
  -- request under the current number.
  abbrev pub Sends :
      Retriever p → NodeId → List Digest → Map ℤ RequestBlockMsg → List Action → Type 0
  Sends r node_id miss requests out =
      ((miss ≡ []) × (out ≡ []) × (requests ≡ r.requests))
      ⊎ ((req : RequestBlockMsg) × (miss ≢ [])
          × (out ≡ transmit r.node_id node_id (request_block req) ∷ [])
          × (req.req_id ≡ pos r.cnt)
          × (req.miss_block ≡ miss)
          × ((id : ℤ)
              → lookup id requests ≡ (if pos r.cnt == id then some req else lookup id r.requests)))

  Asked : Retriever p → NodeId → List Digest → ℤ → Type 0
  Asked r node_id miss now =
      (requests : Map ℤ RequestBlockMsg) × (out : List Action) × (send_request p miss node_id now r
        ≡ ok (record r { requests = requests }, out))
      × Sends r node_id miss requests out

  new_request_block-author :
      (author : NodeId) (miss : List Digest) (id ts : ℤ) (s : SigService p) (req : RequestBlockMsg)
      → new_request_block p author miss id ts s ≡ ok req
      → req.author ≡ author
  unfolding new_request_block
  new_request_block-author author miss id ts s req made = ground arith

  send_request-Asked :
      (r : Retriever p) (node_id : NodeId) (miss : List Digest) (now : ℤ)
      → length r.sig_service.pri_key ≡ 64
      → Asked r node_id miss now
  unfolding send_request Asked
  send_request-Asked r node_id [] now len = (r.requests, [], refl, inl (refl, refl, refl))
  send_request-Asked r node_id (d ∷ ds) now len =
      let miss : List Digest = d ∷ ds in
      let (req, made, mine, digests) =
        new_request_block-made p r.node_id miss (pos r.cnt) now r.sig_service len in
      let own = new_request_block-author r.node_id miss (pos r.cnt) now r.sig_service req made in
      (
        insert req.req_id req r.requests,
        transmit req.author node_id (request_block req) ∷ [],
        rw made refl,
        inr (
          req,
          λ empty. cc,
          ap (λ a. transmit a node_id (request_block req) ∷ []) own,
          mine,
          digests,
          λ id.
              lookup-insert req.req_id id req r.requests
              ∙ ap (λ i. if i == id then some req else lookup id r.requests) mine,
        ),
      )

  Sends-start :
      (r r1 : Retriever p) (node_id : NodeId) (miss : List Digest)
      (requests : Map ℤ RequestBlockMsg) (out : List Action)
      → r1.node_id ≡ r.node_id
      → r1.cnt ≡ r.cnt
      → r1.requests ≡ r.requests
      → Sends r1 node_id miss requests out
      → Sends r node_id miss requests out
  Sends-start r r1 node_id miss requests out node cnt kept (inl (none_left, quiet, same)) =
      inl (none_left, quiet, same ∙ kept)
  Sends-start r r1 node_id miss requests out node cnt kept
        (inr (req, some_left, sent, id, digests, finds)) =
      inr (
        req,
        some_left,
        sent ∙ ap (λ a. transmit a node_id (request_block req) ∷ []) node,
        id ∙ ap pos cnt,
        digests,
        λ i.
            finds i
            ∙ ap₂
                (λ (c : ℕ) (m : Map ℤ RequestBlockMsg). if pos c == i then some req else lookup i m)
                cnt kept,
      )

  -- Where the retriever knows its waiters and has a private key of 64 bytes, and the references that are
  -- not pending were never noted and are missed by no waiter, a request is taken without a fault. The block
  -- becomes the last of the waiters, and the references become pending. Let miss be the references that were
  -- not pending, each once. Where there are none, nothing is sent and no request is kept. Otherwise one
  -- message goes out, to the node asked: the request of miss, which is kept under the current number.
  pub handle_ask-Awaits :
      (r : Retriever p) (ws : List Waiter) (refs : List Digest) (node_id : NodeId) (back : Digest)
      (now : ℤ)
      → Awaits p r ws
      → length r.sig_service.pri_key ≡ 64
      → length refs < 2 ^ 62
      → ((d : Digest)
          → contains d refs ≡ true
          → contains d r.pending ≡ false
          → (get_or d r.miss2_blocks [] ≡ []) × (users d 0 ws ≡ []))
      → (end : Retriever p) × (out : List Action) × (miss : List Digest) × (handle_ask p refs
            node_id back now r
          ≡ ok (end, out))
        × Awaits p end (ws ++ (refs, back) ∷ [])
        × ((d : Digest) → contains d end.pending ≡ contains d refs || contains d r.pending)
        × ((d : Digest) → contains d miss ≡ contains d refs && not (contains d r.pending))
        × Distinct miss
        × Sends r node_id miss end.requests out
  unfolding handle_ask Asked
  handle_ask-Awaits r ws refs node_id back now h len short new =
      let start = register p refs back r in
      let n = filter_refs-Notes (pos r.cnt) refs start in
      let (left, r1) = filter_refs p (pos r.cnt) refs start in
      let (requests, out, sent, sends) =
        send_request-Asked r1 node_id left now (ap (λ k. length k.pri_key) n.same_service ∙ len) in
      let end : Retriever p = record r1 { requests = requests; cnt = r1.cnt + 1 } in
      let last : r.cnt ≡ 0 + length ws = h.given_out ∙ omega arith in
      let served : Serves p end 0 (ws ++ (refs, back) ∷ []) =
        Serves-append r end ws refs back 0
          (λ j ne.
            ap (λ m. get_or (pos j) m (pos 0)) n.same_cnts
            ∙ get_or-insert (pos r.cnt) (pos j) (pos (length refs)) (pos 0) r.loop_back_cnts
            ∙ rw (==-false (pos r.cnt) (pos j) (λ e. ne (ap pos_part (sym e) ∙ last))) refl)
          (λ j ne.
            ap (λ m. get_or (pos j) m no_digest) n.same_blocks
            ∙ get_or-insert (pos r.cnt) (pos j) back no_digest r.loop_back_blocks
            ∙ rw (==-false (pos r.cnt) (pos j) (λ e. ne (ap pos_part (sym e) ∙ last))) refl)
          (ap (λ i. get_or (pos i) r1.loop_back_cnts (pos 0)) (sym last)
            ∙ ap (λ m. get_or (pos r.cnt) m (pos 0)) n.same_cnts
            ∙ get_or-insert (pos r.cnt) (pos r.cnt) (pos (length refs)) (pos 0) r.loop_back_cnts
            ∙ rw (==-refl (pos r.cnt)) refl)
          (ap (λ i. get_or (pos i) r1.loop_back_blocks no_digest) (sym last)
            ∙ ap (λ m. get_or (pos r.cnt) m no_digest) n.same_blocks
            ∙ get_or-insert (pos r.cnt) (pos r.cnt) back no_digest r.loop_back_blocks
            ∙ rw (==-refl (pos r.cnt)) refl)
          short h.serves in
      let before = λ (d : Digest) (pends : contains d r1.pending ≡ true).
        let grown = (contains-filter_refs p (pos r.cnt) refs start d).0 in
        let was : get_or d r.miss2_blocks [] ≡ users d 0 ws =
          elim (Bool-cases (contains d r.pending)) [
            | inl pending ↦ h.known d pending
            | inr fresh ↦
                let asked_now : contains d left ≡ true = ground (arith, grown, fresh, pends) in
                let named : contains d refs ≡ true =
                  ground (arith, contains-left (pos r.cnt) refs start d) in
                let (never, nobody) = new d named fresh in never ∙ sym nobody
          ] in
        was in
      (
        end,
        out,
        left,
        rw sent refl,
        record {
          given_out =
              ap (λ i. i + 1) (n.same_cnt ∙ h.given_out)
              ∙ sym (length-append ws ((refs, back) ∷ []));
          serves = served;
          known = λ d pends.
              n.users_of d
              ∙ ap₂ (λ (l : List ℤ) (i : ℕ). l ++ replicate (occurs d refs) (pos i))
                  (before d pends) last
              ∙ sym (users-append d ws refs back 0);
        },
        λ d.
            let (grown, kept) = contains-filter_refs p (pos r.cnt) refs start d in
            ground (arith, grown, contains-left (pos r.cnt) refs start d),
        contains-left (pos r.cnt) refs start,
        left-Distinct (pos r.cnt) refs start,
        Sends-start r r1 node_id left requests out n.same_node n.same_cnt n.same_requests sends,
      )
