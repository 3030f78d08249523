-- ===== src/Retriever/Waiting.antt =====
-- core/retriever.go: when a block that waits for others is looped back.
use mathlib.Core.Path.{ap₂, subst}
use loom.Crypto.{Digest, Primitives}
use mathlib.Core.List.{map-append}
use loom.Message.{RequestBlockMsg}
use loom.Retriever.{Action, spawn_loop_back, Retriever, count_down, settle, handle_reply}
use loom.Retriever.Pending.{settle-Framed, contains-settle}
use loom.Prelude.{
  ℕ, suc, ◌+◌, ◌≡◌, refl, sym, ap, ◌∙◌, ◌≢◌, inl, inr, Bool, true, false, ◌||◌, some, List, [], ◌∷◌,
  ◌++◌, map, arith, if◌then◌else◌, Bool-cases, length, replicate,
}
use loom.Prelude.Int.{ℤ, pos}
use loom.Prelude.Eq.{◌==◌, nat_eq, int_eq, string_eq, list_eq, ==-refl, ==-false, ==-cases}
use loom.Prelude.Map.{lookup, delete, get_or}
use loom.Prelude.Distinct.{contains, Distinct, remove}
use loom.Retriever.Counting.{
  Waiter, occurs, users, strike, done_by, Serves, Serves-keep, CountsDown, count_users,
}

-- Digests arrive one after the other.
abbrev pub strike_all : List Digest → List Waiter → List Waiter
strike_all [] ws = ws
strike_all (d ∷ ds) ws = strike_all ds (strike d ws)

abbrev pub done_by_all : List Digest → List Waiter → List Digest
done_by_all [] ws = []
done_by_all (d ∷ ds) ws = done_by d ws ++ done_by_all ds (strike d ws)

pub occurs-remove : (d e : Digest) (xs : List Digest) → d ≢ e → occurs e (remove d xs) ≡ occurs e xs
unfolding remove
occurs-remove d e [] apart = refl
occurs-remove d e (x ∷ xs) apart = elim (==-cases x d) [
  | inl same ↦
      let other : (x == e) ≡ false = ==-false x e (λ is_e. apart (sym same ∙ is_e)) in
      rw ((list_eq.same_iff x d).1 same, other) (occurs-remove d e xs apart)
  | inr other ↦ rw (==-false x d other) (elim (Bool-cases (x == e)) [
    | inl t ↦ rw t (ap suc (occurs-remove d e xs apart))
    | inr f ↦ rw f (occurs-remove d e xs apart)
  ])
]

users-strike :
    (d e : Digest) (ws : List Waiter) (k : ℕ) → d ≢ e → users e k (strike d ws) ≡ users e k ws
users-strike d e [] k apart = refl
users-strike d e ((left, b) ∷ ws) k apart =
    ap₂ (λ (c : ℕ) (rest : List ℤ). replicate c (pos k) ++ rest) (occurs-remove d e left apart)
      (users-strike d e ws (k + 1) apart)

pub or_false : (a b : Bool) → (a || b) ≡ false → (a ≡ false) × (b ≡ false)
or_false a b h = ground arith

not_settled : (a b : Bool) → (if a then false else b) ≡ true → (a ≡ false) × (b ≡ true)
not_settled a b h = ground arith

length-strike : (d : Digest) (ws : List Waiter) → length (strike d ws) ≡ length ws
length-strike d [] = refl
length-strike d ((left, b) ∷ ws) = ap suc (length-strike d ws)

length-strike_all : (ds : List Digest) (ws : List Waiter) → length (strike_all ds ws) ≡ length ws
length-strike_all [] ws = refl
length-strike_all (d ∷ ds) ws = length-strike_all ds (strike d ws) ∙ length-strike d ws

users-strike_all :
    (ds : List Digest) (e : Digest) (ws : List Waiter)
    → contains e ds ≡ false
    → users e 0 (strike_all ds ws) ≡ users e 0 ws
users-strike_all [] e ws absent = refl
users-strike_all (d ∷ ds) e ws absent =
    let (other, later) = or_false (d == e) (contains e ds) absent in
    users-strike_all ds e (strike d ws) later
    ∙ users-strike d e ws 0 (λ same. cc (other, (list_eq.same_iff d e).1 same))

module _ (p : Primitives) where
  Settles : List Digest → List Waiter → Retriever p → List Action × Retriever p → Type 0
  Settles ds ws r (out, r') =
      (out ≡ map spawn_loop_back (done_by_all ds ws))
      × Serves p r' 0 (strike_all ds ws)
      × (r'.miss2_blocks ≡ r.miss2_blocks)

  settle-Serves :
      (ds : List Digest) (ws : List Waiter) (r : Retriever p)
      → Serves p r 0 ws
      → Distinct ds
      → ((e : Digest) → contains e ds ≡ true → get_or e r.miss2_blocks [] ≡ users e 0 ws)
      → Settles ds ws r (settle p ds r)
  unfolding settle Settles
  settle-Serves [] ws r h d known = (refl, h, refl)
  settle-Serves (d ∷ ds) ws r h (alone, distinct) known =
      let ids : get_or d r.miss2_blocks [] ≡ users d 0 ws = known d (rw (==-refl d) refl) in
      let (out, served, _, counted) =
        subst (λ l. CountsDown p d ws 0 r (count_down p l r)) (sym ids)
          (count_users p d ws 0 r h) in
      let r1 = (count_down p (get_or d r.miss2_blocks []) r).1 in
      let r2 : Retriever p = record r1 { pending = remove d r1.pending } in
      let still = λ (e : Digest) (in_ds : contains e ds ≡ true).
        let apart : d ≢ e = λ same. cc (ap (λ x. contains x ds) same, alone, in_ds) in
        ap (λ m. get_or e m []) counted.same_users
        ∙ known e (elim (Bool-cases (d == e)) [ inl t ↦ rw t refl | inr f ↦ rw f in_ds ])
        ∙ sym (users-strike d e ws 0 apart) in
      let (rest, end, same) =
        settle-Serves ds (strike d ws) r2
          (Serves-keep p r1 r2 (strike d ws) 0 (λ j le. refl) refl served) distinct still in
      (
        ap₂ (λ (x y : List Action). x ++ y) out rest
            ∙ sym (map-append spawn_loop_back (done_by d ws) (done_by_all ds (strike d ws))),
        end,
        same ∙ counted.same_users,
      )

  -- The retriever knows its waiters: request i waits for the i-th one's digests.
  pub record Awaits (r : Retriever p) (ws : List Waiter) : Type 0 where
    pub given_out : r.cnt ≡ length ws
    pub serves : Serves p r 0 ws
    pub known :
        (d : Digest) → contains d r.pending ≡ true → get_or d r.miss2_blocks [] ≡ users d 0 ws

  -- Where the retriever knows its waiters, the reply to a request that is kept, for pending digests none of
  -- which stands twice, loops back exactly the blocks that waited for nothing else, those of one digest
  -- in the order of their requests; and it knows the waiters with the digests struck out.
  pub handle_reply-Awaits :
      (r : Retriever p) (ws : List Waiter) (req : RequestBlockMsg)
      → Awaits r ws
      → lookup req.req_id r.requests ≡ some req
      → Distinct req.miss_block
      → ((d : Digest) → contains d req.miss_block ≡ true → contains d r.pending ≡ true)
      → ((handle_reply p req.req_id r).1 ≡ map spawn_loop_back (done_by_all req.miss_block ws))
        × Awaits (handle_reply p req.req_id r).0 (strike_all req.miss_block ws)
  unfolding Settles handle_reply
  handle_reply-Awaits r ws req h kept distinct pends =
      let (out, served, same) =
        settle-Serves req.miss_block ws r h.serves distinct (λ e asks. h.known e (pends e asks)) in
      let (acts, r1) = settle p req.miss_block r in
      let end : Retriever p = record r1 { requests = delete req.req_id r1.requests } in
      let whole : handle_reply p req.req_id r ≡ (end, acts) = rw (handle_reply, kept) refl in
      let f = settle-Framed p req.miss_block r in
      let awaits : Awaits end (strike_all req.miss_block ws) = record {
        given_out = f.same_cnt ∙ h.given_out ∙ sym (length-strike_all req.miss_block ws);
        serves = Serves-keep p r1 end (strike_all req.miss_block ws) 0 (λ j le. refl) refl served;
        known = λ d still.
            let left = contains-settle p req.miss_block r d in
            let (not_here, before) =
              not_settled (contains d req.miss_block) (contains d r.pending) (sym left ∙ still) in
            ap (λ m. get_or d m []) same
            ∙ h.known d before
            ∙ sym (users-strike_all req.miss_block d ws not_here);
      } in
      subst
        (λ (res : Retriever p × List Action).
          (res.1 ≡ map spawn_loop_back (done_by_all req.miss_block ws))
          × Awaits res.0 (strike_all req.miss_block ws))
        (sym whole) (out, awaits)
