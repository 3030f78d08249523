-- ===== src/Retriever/Backing.antt =====
-- core/retriever.go: every block that is looped back was handed in with a request for its references.
use mathlib.Core.Path.{subst}
use loom.Committee.{NodeId}
use loom.Crypto.{Bytes, Digest, Primitives}
use loom.Message.{Block, RequestBlockMsg}
use loom.Message.Make.{new_request_block}
use loom.Retriever.{
  Turn, ask, answered, tick, Action, transmit, spawn_loop_back, Retriever, no_digest, noted,
  filter_refs, register, send_request, handle_ask, count_down, settle, handle_reply, refresh, retry,
  turn, run_turns, loop_back, loop_backs,
}
use loom.Prelude.{
  ◌≡◌, Bool, Option, refl, sym, ap, ◌∙◌, inl, inr, true, false, ◌||◌, List, [], ◌∷◌, ◌++◌, arith,
  Bool-cases, All, Option-cases,
}
use loom.Prelude.Int.{ℤ, pos, eqb_ℤ, leb_ℤ, ◌-ℤ◌}
use loom.Prelude.Eq.{nat_eq, int_eq, string_eq, list_eq, ==-cases, ==-false, ==-refl, ◌==◌}
use loom.Prelude.Result.{ok, >>=-eq-ok}
use loom.Prelude.Map.{Map, lookup, insert, get_or, get_or-insert}
use loom.Prelude.Distinct.{contains, contains-append, remove}

All-append : {A : Type 0} (P : A → Type 0) (xs ys : List A) → All P xs → All P ys → All P (xs ++ ys)
All-append P [] ys h k = k
All-append P (x ∷ xs) ys (here, h) k = (here, All-append P xs ys h k)

ok_eq : {A : Type 0} (a b : A) → ok a ≡ ok b → a ≡ b
ok_eq a b h = cc

left_of : (a b : Bool) → b ≡ false → (a || (b || false)) ≡ true → a ≡ true
left_of a b h k = ground arith

module _ (p : Primitives) (read : Digest → Option Bytes) (decode : Bytes → Option Block) where
  -- `loopBack` finds the block of the digest.
  abbrev pub IsStored : Digest → Type 0
  IsStored d = (b : Block) × (loop_back p read decode d ≡ ok b)

  -- What a turn hands in to be looped back is in the store.
  abbrev pub HandsIn : Turn → Type 0
  HandsIn (ask miss_refs node_id back_block) = IsStored back_block
  HandsIn (answered req_id) = Unit
  HandsIn tick = Unit

  abbrev pub IsFine : Action → Type 0
  IsFine (transmit from to msg) = Unit
  IsFine (spawn_loop_back d) = IsStored d

  abbrev Registered : Retriever p → ℤ → Type 0
  Registered r id = IsStored (get_or id r.loop_back_blocks no_digest)

  -- The blocks of all requests that miss a digest are in the store.
  abbrev pub IsBacked : Retriever p → Type 0
  IsBacked r =
      (d : Digest) (id : ℤ) → contains id (get_or d r.miss2_blocks []) ≡ true → Registered r id

  record Same (r r' : Retriever p) : Type 0 where
    blocks : r'.loop_back_blocks ≡ r.loop_back_blocks
    users : r'.miss2_blocks ≡ r.miss2_blocks

  Same-IsBacked : (r r' : Retriever p) → Same r r' → IsBacked r → IsBacked r'
  Same-IsBacked r r' same h d id asks =
      subst (λ m. IsStored (get_or id m no_digest)) (sym same.blocks)
        (h d id (ap (λ m. contains id (get_or d m [])) (sym same.users) ∙ asks))

  count_down-IsFine :
      (ids : List ℤ) (r : Retriever p)
      → ((id : ℤ) → contains id ids ≡ true → Registered r id)
      → All IsFine (count_down p ids r).0 × Same r (count_down p ids r).1
  unfolding count_down
  count_down-IsFine [] r h = (tt, record { blocks = refl; users = refl })
  count_down-IsFine (id ∷ ids) r h =
      let left = get_or id r.loop_back_cnts (pos 0) -ℤ pos 1 in
      let r1 : Retriever p = record r { loop_back_cnts = insert id left r.loop_back_cnts } in
      let (fine, same) = count_down-IsFine ids r1 (λ j k. h j (ground arith)) in
      let mine : Registered r id = h id (rw (==-refl id) refl) in
      (
        elim (Bool-cases (eqb_ℤ left (pos 0))) [
          | inl done ↦ rw done (mine, fine)
          | inr more ↦ rw more fine
        ],
        record { blocks = same.blocks; users = same.users },
      )

  settle-IsFine :
      (ds : List Digest) (r : Retriever p)
      → IsBacked r
      → All IsFine (settle p ds r).0 × IsBacked (settle p ds r).1
  unfolding settle
  settle-IsFine [] r h = (tt, h)
  settle-IsFine (d ∷ ds) r h =
      let ids = get_or d r.miss2_blocks [] in
      let (fine, same) = count_down-IsFine ids r (h d) in
      let (out, r1) = count_down p ids r in
      let r2 : Retriever p = record r1 { pending = remove d r1.pending } in
      let backed = Same-IsBacked r r2 (record { blocks = same.blocks; users = same.users }) h in
      let (rest, end) = settle-IsFine ds r2 backed in
      (All-append IsFine out (settle p ds r2).0 fine rest, end)

  noted-IsBacked :
      (id : ℤ) (x : Digest) (r : Retriever p)
      → IsBacked r
      → Registered r id
      → IsBacked (noted p id x r)
  noted-IsBacked id x r h mine d j asks =
      let old = get_or x r.miss2_blocks [] in
      let now = get_or-insert x d (old ++ id ∷ []) [] r.miss2_blocks in
      elim (==-cases x d) [
        | inl same ↦
            let in_old : (contains j old || contains j (id ∷ [])) ≡ true =
              sym (contains-append j old (id ∷ []))
              ∙ sym (ap (contains j) (now ∙ rw ((list_eq.same_iff x d).1 same) refl))
              ∙ asks in
            elim (==-cases id j) [
              | inl is_id ↦ subst (Registered r) is_id mine
              | inr other ↦ h x j (left_of (contains j old) (id == j) (==-false id j other) in_old)
            ]
        | inr other ↦ h d j (sym (ap (contains j) (now ∙ rw (==-false x d other) refl)) ∙ asks)
      ]

  filter_refs-IsBacked :
      (id : ℤ) (refs : List Digest) (r : Retriever p)
      → IsBacked r
      → Registered r id
      → IsBacked (filter_refs p id refs r).1
  unfolding filter_refs
  filter_refs-IsBacked id [] r h mine = h
  filter_refs-IsBacked id (x ∷ xs) r h mine =
      filter_refs-IsBacked id xs (noted p id x r) (noted-IsBacked id x r h mine) mine

  register-IsBacked :
      (refs : List Digest) (back : Digest) (r : Retriever p)
      → IsStored back
      → IsBacked r
      → IsBacked (register p refs back r) × Registered (register p refs back r) (pos r.cnt)
  register-IsBacked refs back r stored h =
      let at_id = λ (j : ℤ). get_or-insert (pos r.cnt) j back no_digest r.loop_back_blocks in
      (
        λ d j asks. elim (==-cases (pos r.cnt) j) [
          | inl same ↦
              subst IsStored (sym (at_id j ∙ rw ((int_eq.same_iff (pos r.cnt) j).1 same) refl))
                stored
          | inr other ↦
              subst IsStored (sym (at_id j ∙ rw (==-false (pos r.cnt) j other) refl)) (h d j asks)
        ],
        subst IsStored (sym (at_id (pos r.cnt) ∙ rw (==-refl (pos r.cnt)) refl)) stored,
      )

  -- What a part of a turn leaves.
  abbrev pub Leaves : Retriever p × List Action → Type 0
  Leaves x = All IsFine x.1 × IsBacked x.0

  send_request-Leaves :
      (miss : List Digest) (node_id : NodeId) (now : ℤ) (r : Retriever p)
      (x : Retriever p × List Action)
      → IsBacked r
      → send_request p miss node_id now r ≡ ok x
      → Leaves x
  unfolding send_request
  send_request-Leaves [] node_id now r x h sent = subst Leaves (ok_eq _ _ sent) (tt, h)
  send_request-Leaves (d ∷ ds) node_id now r x h sent =
      let (req, made, done) =
        >>=-eq-ok (new_request_block p r.node_id (d ∷ ds) (pos r.cnt) now r.sig_service) _ sent in
      subst Leaves (ok_eq _ _ done) ((tt, tt), h)

  handle_ask-Leaves :
      (miss : List Digest) (node_id : NodeId) (back : Digest) (now : ℤ) (r : Retriever p)
      (x : Retriever p × List Action)
      → IsStored back
      → IsBacked r
      → handle_ask p miss node_id back now r ≡ ok x
      → Leaves x
  unfolding handle_ask
  handle_ask-Leaves miss node_id back now r x stored h asked =
      let (backed, mine) = register-IsBacked miss back r stored h in
      let start = register p miss back r in
      let (left, r1) = filter_refs p (pos r.cnt) miss start in
      let backed1 = filter_refs-IsBacked (pos r.cnt) miss start backed mine in
      let (y, sent, done) = >>=-eq-ok (send_request p left node_id now r1) _ asked in
      subst Leaves (ok_eq _ _ done) (send_request-Leaves left node_id now r1 y backed1 sent)

  handle_reply-Leaves : (id : ℤ) (r : Retriever p) → IsBacked r → Leaves (handle_reply p id r)
  unfolding handle_reply
  handle_reply-Leaves id r h = elim (Option-cases (lookup id r.requests)) [
    | inl unknown ↦ rw (handle_reply, unknown) (tt, h)
    | inr (req, known) ↦ rw (handle_reply, known) (settle-IsFine req.miss_block r h)
  ]

  refresh-Leaves :
      (now : ℤ) (req : RequestBlockMsg) (r : Retriever p) (x : Retriever p × List Action)
      → IsBacked r
      → refresh p now req r ≡ ok x
      → Leaves x
  unfolding refresh
  refresh-Leaves now req r x h sent = elim (Bool-cases (leb_ℤ r.retry_delay (now -ℤ req.ts))) [
    | inl overdue ↦
        let (new, made, done) =
          >>=-eq-ok (new_request_block p req.author req.miss_block req.req_id now r.sig_service) _
            (rw overdue at sent) in
        subst Leaves (ok_eq _ _ done) ((tt, tt), h)
    | inr young ↦ subst Leaves (ok_eq (r, []) x (rw young at sent)) (tt, h)
  ]

  -- One part after another.
  Leaves-more :
      (out : List Action) (y : Retriever p × List Action)
      → All IsFine out
      → Leaves y
      → Leaves (y.0, out ++ y.1)
  Leaves-more out y fine (fines, backed) = (All-append IsFine out y.1 fine fines, backed)

  retry-Leaves :
      (now : ℤ) (part : Map ℤ RequestBlockMsg) (r : Retriever p) (x : Retriever p × List Action)
      → IsBacked r
      → retry p now part r ≡ ok x
      → Leaves x
  unfolding retry
  retry-Leaves now [] r x h done = subst Leaves (ok_eq _ _ done) (tt, h)
  retry-Leaves now ((id, req) ∷ part) r x h done =
      let (y, sent, rest) = >>=-eq-ok (refresh p now req r) _ done in
      let (z, later, last) = >>=-eq-ok (retry p now part y.0) _ rest in
      let (fine, backed) = refresh-Leaves now req r y h sent in
      subst Leaves (ok_eq _ _ last)
        (Leaves-more y.1 z fine (retry-Leaves now part y.0 z backed later))

  turn-Leaves :
      (t : Turn) (now : ℤ) (r : Retriever p) (x : Retriever p × List Action)
      → HandsIn t
      → IsBacked r
      → turn p t now r ≡ ok x
      → Leaves x
  unfolding turn
  turn-Leaves (ask miss node_id back) now r x stored h done =
      handle_ask-Leaves miss node_id back now r x stored h done
  turn-Leaves (answered id) now r x stored h done =
      subst Leaves (ok_eq _ _ done) (handle_reply-Leaves id r h)
  turn-Leaves tick now r x stored h done = retry-Leaves now r.requests r x h done

  pub run_turns-Leaves :
      (ts : List (Turn × ℤ)) (r : Retriever p) (x : Retriever p × List Action)
      → All (λ t. HandsIn t.0) ts
      → IsBacked r
      → run_turns p ts r ≡ ok x
      → Leaves x
  unfolding run_turns
  run_turns-Leaves [] r x hands h done = subst Leaves (ok_eq _ _ done) (tt, h)
  run_turns-Leaves ((t, now) ∷ ts) r x (stored, hands) h done =
      let (y, sent, rest) = >>=-eq-ok (turn p t now r) _ done in
      let (z, later, last) = >>=-eq-ok (run_turns p ts y.0) _ rest in
      let (fine, backed) = turn-Leaves t now r y stored h sent in
      subst Leaves (ok_eq _ _ last)
        (Leaves-more y.1 z fine (run_turns-Leaves ts y.0 z hands backed later))

  -- No goroutine of `loopBack` panics where all of them find their block.
  pub loop_backs-ok :
      (out : List Action)
      → All IsFine out
      → (blocks : List Block) × (loop_backs p read decode out ≡ ok blocks)
  unfolding loop_backs
  loop_backs-ok [] h = ([], refl)
  loop_backs-ok (transmit from to msg ∷ out) (_, h) = loop_backs-ok out h
  loop_backs-ok (spawn_loop_back d ∷ out) ((b, found), h) =
      let (bs, rest) = loop_backs-ok out h in (b ∷ bs, rw (found, rest) refl)
