-- ===== src/Retriever/Pending.antt =====
-- core/retriever.go: a digest is pending exactly as long as one request for it is kept.
use loom.Committee.{NodeId, no_node}
use loom.Crypto.{Bytes, Digest, Primitives, SigService}
use loom.Message.{Block, request_block, RequestBlockMsg}
use loom.Retriever.Backing.{HandsIn, run_turns-Leaves, loop_backs-ok}
use loom.Message.Hash.{request_block_hash}
use loom.Message.Make.{new_request_block}
use loom.Retriever.{
  Turn, ask, answered, tick, Action, transmit, Retriever, new_retriever, noted, filter_refs,
  register, send_request, handle_ask, count_down, settle, handle_reply, refresh, retry, turn,
  run_turns, run_retriever, loop_backs,
}
use loom.Retriever.Tracking.{
  Requests, Asks, IsTracked, no_requests, Kept, Kept-insert, StillAsked, Kept-StillAsked,
  Finds-StillAsked, insert_new-IsTracked, set-IsTracked, renew-IsTracked, delete-IsTracked,
}
use loom.Prelude.Keys.{Distinct-Finds}
use loom.Prelude.{
  ◌+◌, Option, All, ◌≡◌, refl, sym, ap, ◌∙◌, ◌↔◌, inl, inr, true, false, ◌||◌, some, List, [], ◌∷◌,
  ◌++◌, arith, if◌then◌else◌, Bool-cases, Option-cases, length,
}
use loom.Prelude.Int.{ℤ, pos, ◌<ℤ◌, ltb_ℤ, leb_ℤ, ◌-ℤ◌}
use loom.Prelude.Eq.{nat_eq, int_eq, string_eq, list_eq}
use loom.Prelude.Result.{ok}
use loom.Prelude.Map.{lookup, insert, get_or}
use loom.Prelude.Distinct.{contains, remove, contains-remove}

module _ (p : Primitives) where
  -- What the loops of `run` leave alone.
  pub record Framed (r r' : Retriever p) : Type 0 where
    pub same_requests : r'.requests ≡ r.requests
    pub same_cnt : r'.cnt ≡ r.cnt
    pub same_service : r'.sig_service ≡ r.sig_service

  pub filter_refs-Framed :
      (id : ℤ) (ds : List Digest) (r : Retriever p) → Framed r (filter_refs p id ds r).1
  unfolding filter_refs
  filter_refs-Framed id [] r = record { same_requests = refl; same_cnt = refl; same_service = refl }
  filter_refs-Framed id (d ∷ ds) r =
      let f = filter_refs-Framed id ds _ in
      record {
        same_requests = f.same_requests;
        same_cnt = f.same_cnt;
        same_service = f.same_service;
      }

  -- The digests left to ask for were not pending, and are the ones that become so.
  pub contains-filter_refs :
      (id : ℤ) (ds : List Digest) (r : Retriever p) (x : Digest)
      → (contains x (filter_refs p id ds r).1.pending
          ≡ contains x (filter_refs p id ds r).0 || contains x r.pending)
        × (contains x r.pending ≡ true → contains x (filter_refs p id ds r).0 ≡ false)
  unfolding filter_refs
  contains-filter_refs id [] r x = (refl, λ h. refl)
  contains-filter_refs id (d ∷ ds) r x =
      let (there, apart) = contains-filter_refs id ds (noted p id d r) x in
      let same = list_eq.same_iff d x in
      (
        ground (arith, there),
        λ h. elim (Bool-cases (contains d r.pending)) [
          | inl known ↦ ground (arith, apart)
          | inr new ↦ ground (arith, apart, same)
        ],
      )

  count_down-Framed :
      (ids : List ℤ) (r : Retriever p)
      → Framed r (count_down p ids r).1 × ((count_down p ids r).1.pending ≡ r.pending)
  unfolding count_down
  count_down-Framed [] r =
      (record { same_requests = refl; same_cnt = refl; same_service = refl }, refl)
  count_down-Framed (id ∷ ids) r =
      let (f, same) = count_down-Framed ids _ in
      (
        record {
          same_requests = f.same_requests;
          same_cnt = f.same_cnt;
          same_service = f.same_service;
        },
        same,
      )

  pub settle-Framed : (ds : List Digest) (r : Retriever p) → Framed r (settle p ds r).1
  unfolding settle
  settle-Framed [] r = record { same_requests = refl; same_cnt = refl; same_service = refl }
  settle-Framed (d ∷ ds) r =
      let (f, same) = count_down-Framed (get_or d r.miss2_blocks []) r in
      let g = settle-Framed ds _ in
      record {
        same_requests = g.same_requests ∙ f.same_requests;
        same_cnt = g.same_cnt ∙ f.same_cnt;
        same_service = g.same_service ∙ f.same_service;
      }

  pub contains-settle :
      (ds : List Digest) (r : Retriever p) (x : Digest)
      → contains x (settle p ds r).1.pending
        ≡ (if contains x ds then false else contains x r.pending)
  unfolding settle
  contains-settle [] r x = refl
  contains-settle (d ∷ ds) r x =
      let ids = get_or d r.miss2_blocks [] in
      let (f, same) = count_down-Framed ids r in
      let r' = (count_down p ids r).1 in
      contains-settle ds (record r' { pending = remove d r'.pending }) x
      ∙ ground (arith, contains-remove d x r'.pending, same)

  -- With a key of the right length a request is made, with the digests and under the id asked for.
  pub new_request_block-made :
      (author : NodeId) (miss : List Digest) (id ts : ℤ) (s : SigService p)
      → length s.pri_key ≡ 64
      → (req : RequestBlockMsg) × (new_request_block p author miss id ts s ≡ ok req)
        × (req.req_id ≡ id)
        × (req.miss_block ≡ miss)
  unfolding new_request_block
  new_request_block-made author miss id ts s len =
      let sign = λ (x : Bytes).
        let req : RequestBlockMsg = record {
          author = author;
          miss_block = miss;
          signature = record { sig = x };
          req_id = id;
          ts = ts;
        } in
        req in
      (sign (p.ed_sign s.pri_key (request_block_hash p (sign []))), ground arith, refl, refl)

  record IsSound (s : SigService p) (r : Retriever p) : Type 0 where
    service : r.sig_service ≡ s
    tracked : IsTracked r.pending r.requests r.cnt

  send_request-IsTracked :
      (s : SigService p) (before miss : List Digest) (node_id : NodeId) (now : ℤ) (r : Retriever p)
      → length s.pri_key ≡ 64
      → r.sig_service ≡ s
      → IsTracked before r.requests r.cnt
      → ((x : Digest) → contains x r.pending ≡ contains x miss || contains x before)
      → ((x : Digest) → contains x before ≡ true → contains x miss ≡ false)
      → (r' : Retriever p) × (out : List Action) × (send_request p miss node_id now r
          ≡ ok (r', out))
        × (r'.sig_service ≡ s)
        × IsTracked r'.pending r'.requests (r'.cnt + 1)
  unfolding send_request
  send_request-IsTracked s before [] node_id now r len service t grows new =
      (r, [], refl, service, set-IsTracked before r.pending r.requests r.cnt t grows)
  send_request-IsTracked s before (d ∷ ds) node_id now r len service t grows new =
      let miss : List Digest = d ∷ ds in
      let (req, made, mine, digests) =
        new_request_block-made r.node_id miss (pos r.cnt) now r.sig_service
          (ap (λ k. length k.pri_key) service ∙ len) in
      let tracked =
        insert_new-IsTracked before r.pending r.requests r.cnt req t mine
          (λ x. grows x ∙ ap (λ l. contains x l || contains x before) (sym digests))
          (λ x h. ap (contains x) digests ∙ new x h) in
      (
        record r { requests = insert req.req_id req r.requests },
        transmit req.author node_id (request_block req) ∷ [],
        rw made refl,
        service,
        rw mine tracked,
      )

  handle_ask-IsSound :
      (s : SigService p) (miss : List Digest) (node_id : NodeId) (back : Digest) (now : ℤ)
      (r : Retriever p)
      → length s.pri_key ≡ 64
      → IsSound s r
      → (r' : Retriever p) × (out : List Action) × (handle_ask p miss node_id back now r
          ≡ ok (r', out))
        × IsSound s r'
  unfolding handle_ask
  handle_ask-IsSound s miss node_id back now r len h =
      let start = register p miss back r in
      let f = filter_refs-Framed (pos r.cnt) miss start in
      let (left, noted_all) = filter_refs p (pos r.cnt) miss start in
      let (r', out, sent, service, t) =
        send_request-IsTracked s r.pending left node_id now noted_all len
          (f.same_service ∙ h.service) (rw (f.same_requests, f.same_cnt) h.tracked)
          (λ x. (contains-filter_refs (pos r.cnt) miss start x).0)
          (λ x. (contains-filter_refs (pos r.cnt) miss start x).1) in
      (record r' { cnt = r'.cnt + 1 }, out, rw sent refl, record { service = service; tracked = t })

  handle_reply-IsSound :
      (s : SigService p) (id : ℤ) (r : Retriever p)
      → IsSound s r
      → IsSound s (handle_reply p id r).0
  unfolding handle_reply
  handle_reply-IsSound s id r h = elim (Option-cases (lookup id r.requests)) [
    | inl unknown ↦ rw (handle_reply, unknown) h
    | inr (req, known) ↦
        let f = settle-Framed req.miss_block r in
        let mine : req.req_id ≡ id = h.tracked.own_id id req known in
        let t =
          delete-IsTracked r.pending (settle p req.miss_block r).1.pending r.requests r.cnt id req
            h.tracked known (contains-settle req.miss_block r) in
        rw (handle_reply, known)
          (record {
            service = f.same_service ∙ h.service;
            tracked = rw (f.same_requests, f.same_cnt, mine) t;
          })
  ]

  refresh-IsSound :
      (s : SigService p) (now : ℤ) (req old : RequestBlockMsg) (r : Retriever p)
      → length s.pri_key ≡ 64
      → IsSound s r
      → lookup req.req_id r.requests ≡ some old
      → req.miss_block ≡ old.miss_block
      → (r' : Retriever p) × (out : List Action) × (refresh p now req r ≡ ok (r', out))
        × IsSound s r'
        × Kept r.requests r'.requests
  unfolding refresh new_request_block-made
  refresh-IsSound s now req old r len h known digests =
      elim (Bool-cases (leb_ℤ r.retry_delay (now -ℤ req.ts))) [
        | inl overdue ↦
            let (new, made, mine, as_asked) =
              new_request_block-made req.author req.miss_block req.req_id now r.sig_service
                (ap (λ k. length k.pri_key) h.service ∙ len) in
            let same : new.miss_block ≡ old.miss_block = as_asked ∙ digests in
            (
              record r { requests = insert new.req_id new r.requests },
              transmit r.node_id no_node (request_block new) ∷ [],
              rw (overdue, made) refl,
              record {
                service = h.service;
                tracked = rw mine (
                    renew-IsTracked r.pending r.requests r.cnt req.req_id old new h.tracked known
                      mine same);
              },
              rw mine (Kept-insert req.req_id old new r.requests known same),
            )
        | inr young ↦ (r, [], rw young refl, h, λ id was there. (was, there, refl))
      ]

  retry-IsSound :
      (s : SigService p) (now : ℤ) (part : Requests) (r : Retriever p)
      → length s.pri_key ≡ 64
      → IsSound s r
      → StillAsked r.requests part
      → (r' : Retriever p) × (out : List Action) × (retry p now part r ≡ ok (r', out))
        × IsSound s r'
  unfolding retry
  retry-IsSound s now [] r len h still = (r, [], refl, h)
  retry-IsSound s now ((id, req) ∷ part) r len h ((old, known, digests), still) =
      let (r', out, refreshed, h', kept) = refresh-IsSound s now req old r len h known digests in
      let (end, more, rest, sound) =
        retry-IsSound s now part r' len h'
          (Kept-StillAsked r.requests r'.requests part kept still) in
      (end, out ++ more, rw (refreshed, rest) refl, sound)

  turn-IsSound :
      (s : SigService p) (t : Turn) (now : ℤ) (r : Retriever p)
      → length s.pri_key ≡ 64
      → IsSound s r
      → (r' : Retriever p) × (out : List Action) × (turn p t now r ≡ ok (r', out)) × IsSound s r'
  unfolding turn
  turn-IsSound s (ask miss node_id back) now r len h =
      handle_ask-IsSound s miss node_id back now r len h
  turn-IsSound s (answered id) now r len h = (_, _, refl, handle_reply-IsSound s id r h)
  turn-IsSound s tick now r len h = retry-IsSound s now r.requests r len h (
      Finds-StillAsked r.requests r.requests h.tracked.own_id
        (Distinct-Finds r.requests h.tracked.distinct))

  run_turns-IsSound :
      (s : SigService p) (ts : List (Turn × ℤ)) (r : Retriever p)
      → length s.pri_key ≡ 64
      → IsSound s r
      → (end : Retriever p) × (out : List Action) × (run_turns p ts r ≡ ok (end, out))
        × IsSound s end
  unfolding run_turns
  run_turns-IsSound s [] r len h = (r, [], refl, h)
  run_turns-IsSound s ((t, now) ∷ ts) r len h =
      let (r', out, turns, h') = turn-IsSound s t now r len h in
      let (end, more, runs, sound) = run_turns-IsSound s ts r' len h' in
      (end, out ++ more, rw (turns, runs) refl, sound)

  run_retriever-ok :
      (read : Digest → Option Bytes) (decode : Bytes → Option Block) (ts : List (Turn × ℤ))
      (r end : Retriever p) (out : List Action) (blocks : List Block)
      → pos 0 <ℤ r.retry_delay
      → run_turns p ts r ≡ ok (end, out)
      → loop_backs p read decode out ≡ ok blocks
      → run_retriever p read decode ts r ≡ ok (end, out, blocks)
  unfolding run_retriever
  run_retriever-ok read decode ts r end out blocks ticks runs backs =
      let runs_on : ltb_ℤ (pos 0) r.retry_delay ≡ true = ground arith in
      rw (runs_on, runs, backs) refl

  -- With a positive delay, a private key of 64 bytes, and the blocks that wait for others in the store, the
  -- retriever and the loop backs that it starts get through every sequence of requests, replies and ticks
  -- without a fault. Behind it, a digest is pending exactly where one of the requests that it keeps asks for
  -- it, and no two of these ask for the same digest.
  pub run_retriever-pending :
      (read : Digest → Option Bytes) (decode : Bytes → Option Block) (node_id : NodeId)
      (s : SigService p) (retry_delay : ℤ) (ts : List (Turn × ℤ))
      → pos 0 <ℤ retry_delay
      → length s.pri_key ≡ 64
      → All (λ t. HandsIn p read decode t.0) ts
      → (end : Retriever p) × (out : List Action) × (blocks : List Block) × (run_retriever p read
            decode ts
            (new_retriever p node_id s retry_delay)
          ≡ ok (end, out, blocks))
        × ((d : Digest) → (contains d end.pending ≡ true) ↔ ((id : ℤ) × Asks end.requests id d))
        × ((i j : ℤ) (d : Digest) → Asks end.requests i d → Asks end.requests j d → i ≡ j)
  run_retriever-pending read decode node_id s retry_delay ts ticks len hands =
      let start = new_retriever p node_id s retry_delay in
      let (end, out, runs, sound) =
        run_turns-IsSound s ts start len (record { service = refl; tracked = no_requests }) in
      let t = sound.tracked in
      let (fine, _) =
        run_turns-Leaves p read decode ts start (end, out) hands
          (λ d id asks. absurd (unfold get_or lookup in cc)) runs in
      let (blocks, backs) = loop_backs-ok p read decode out fine in
      (
        end,
        out,
        blocks,
        run_retriever-ok read decode ts start end out blocks ticks runs backs,
        λ d. (t.asked d, λ (id, asks). t.held id d asks),
        t.apart,
      )
