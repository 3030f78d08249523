-- ===== src/Retriever/Counting.antt =====
-- core/retriever.go: the counts of the blocks that wait, as one digest arrives.
use mathlib.Core.Path.{ap₂, subst}
use loom.Crypto.{Digest, Primitives}
use loom.Retriever.{Action, spawn_loop_back, Retriever, no_digest, count_down}
use loom.Prelude.{
  ℕ, zero, suc, ◌+◌, ◌^◌, ◌≤◌, ◌<◌, ◌≡◌, refl, sym, ap, ◌∙◌, ◌≢◌, inl, inr, Bool, true, false, ◌&&◌,
  List, [], ◌∷◌, ◌++◌, map, arith, ltb, eqb, if◌then◌else◌, Bool-cases, length, replicate,
}
use loom.Prelude.Int.{ℤ, pos, pos_part, eqb_ℤ, eq_of_parts, ◌-ℤ◌, -ℤ_parts, parts_apart}
use loom.Prelude.Eq.{◌==◌, nat_eq, int_eq, string_eq, list_eq, ==-refl, ==-false}
use loom.Prelude.Map.{insert, get_or, get_or-insert}
use loom.Prelude.Distinct.{contains, remove}

-- The digests that a block still waits for, and the block's own.
abbrev pub Waiter : Type 0
Waiter = List Digest × Digest

abbrev pub occurs : Digest → List Digest → ℕ
occurs d [] = 0
occurs d (x ∷ xs) = if x == d then suc (occurs d xs) else occurs d xs

-- The requests that miss a digest, from id k on, as often as each does.
abbrev pub users : Digest → ℕ → List Waiter → List ℤ
users d k [] = []
users d k ((left, b) ∷ ws) = replicate (occurs d left) (pos k) ++ users d (k + 1) ws

abbrev is_nil : List Digest → Bool
is_nil [] = true
is_nil (x ∷ xs) = false

-- A digest arrives: nobody waits for it any more, and blocks that waited for nothing else are done.
abbrev pub strike : Digest → List Waiter → List Waiter
strike d [] = []
strike d ((left, b) ∷ ws) = (remove d left, b) ∷ strike d ws

abbrev pub done_by : Digest → List Waiter → List Digest
done_by d [] = []
done_by d ((left, b) ∷ ws) =
    if contains d left && is_nil (remove d left) then b ∷ done_by d ws else done_by d ws

length-remove-occurs :
    (d : Digest) (xs : List Digest) → length (remove d xs) + occurs d xs ≡ length xs
unfolding remove
length-remove-occurs d [] = refl
length-remove-occurs d (x ∷ xs) = ground (arith, length-remove-occurs d xs)

less_one : (m : ℕ) → m < 2 ^ 62 → pos (suc m) -ℤ pos 1 ≡ pos m
less_one m lt =
    eq_of_parts _ _
      (omega (arith, -ℤ_parts (pos (suc m)) (pos 1), parts_apart (pos (suc m) -ℤ pos 1)))

spawned :
    (c n : ℕ) (left : ℤ) (x : Action) (out : List Action)
    → left ≡ pos (n + c)
    → out ≡ (if ltb 0 c && eqb n 0 then x ∷ [] else [])
    → (if eqb_ℤ left (pos 0) then x ∷ out else out)
      ≡ (if ltb 0 (suc c) && eqb n 0 then x ∷ [] else [])
spawned zero zero left x out next outs = rw (next, outs) (ground arith)
spawned zero (suc n) left x out next outs = rw (next, outs) (ground arith)
spawned (suc c) zero left x out next outs = rw (next, outs) (ground arith)
spawned (suc c) (suc n) left x out next outs = rw (next, outs) (ground arith)

pub occurs-contains : (d : Digest) (xs : List Digest) → ltb 0 (occurs d xs) ≡ contains d xs
occurs-contains d [] = refl
occurs-contains d (x ∷ xs) = ground (arith, occurs-contains d xs)

eqb-length : (xs : List Digest) → eqb (length xs) 0 ≡ is_nil xs
eqb-length [] = refl
eqb-length (x ∷ xs) = ground arith

pos_apart : (j k : ℕ) → j ≢ k → pos j ≢ pos k
pos_apart j k apart e = apart (ap pos_part e)

module _ (p : Primitives) where
  -- The counts and the blocks that the retriever keeps are those of the waiters, from id k on.
  abbrev pub Serves : Retriever p → ℕ → List Waiter → Type 0
  Serves r k [] = Unit
  Serves r k ((left, b) ∷ ws) =
      (get_or (pos k) r.loop_back_cnts (pos 0) ≡ pos (length left))
      × (get_or (pos k) r.loop_back_blocks no_digest ≡ b)
      × (length left < 2 ^ 62)
      × Serves r (k + 1) ws

  count_down-append :
      (xs ys : List ℤ) (r : Retriever p)
      → count_down p (xs ++ ys) r ≡ (
        (count_down p xs r).0 ++ (count_down p ys (count_down p xs r).1).0,
        (count_down p ys (count_down p xs r).1).1,
      )
  unfolding count_down
  count_down-append [] ys r = refl
  count_down-append (id ∷ xs) ys r =
      let next = count_down-append xs ys (record r {
        loop_back_cnts = insert id (get_or id r.loop_back_cnts (pos 0) -ℤ pos 1) r.loop_back_cnts;
      }) in
      elim (Bool-cases (eqb_ℤ (get_or id r.loop_back_cnts (pos 0) -ℤ pos 1) (pos 0))) [
        | inl zero_left ↦ rw (zero_left, next) refl
        | inr more ↦ rw (more, next) refl
      ]

  -- Only the counts change.
  pub record Counted (r r' : Retriever p) : Type 0 where
    pub same_pending : r'.pending ≡ r.pending
    pub same_blocks : r'.loop_back_blocks ≡ r.loop_back_blocks
    pub same_users : r'.miss2_blocks ≡ r.miss2_blocks

  count_replicate :
      (c n : ℕ) (id : ℤ) (r : Retriever p)
      → n + c < 2 ^ 62
      → get_or id r.loop_back_cnts (pos 0) ≡ pos (n + c)
      → let (out, r') = count_down p (replicate c id) r in
        (out ≡ (
          if ltb 0 c && eqb n 0
          then spawn_loop_back (get_or id r.loop_back_blocks no_digest) ∷ []
          else []))
        × (get_or id r'.loop_back_cnts (pos 0) ≡ pos n)
        × ((j : ℤ)
            → j ≢ id
            → get_or j r'.loop_back_cnts (pos 0) ≡ get_or j r.loop_back_cnts (pos 0))
        × Counted r r'
  unfolding count_down
  count_replicate zero n id r lt now = (
    refl,
    now ∙ ap pos (omega arith),
    λ j other. refl,
    record { same_pending = refl; same_blocks = refl; same_users = refl },
  )
  count_replicate (suc c) n id r lt now =
      let left = get_or id r.loop_back_cnts (pos 0) -ℤ pos 1 in
      let is_suc : n + suc c ≡ suc (n + c) = omega arith in
      let next : left ≡ pos (n + c) =
        ap (λ z. z -ℤ pos 1) (now ∙ ap pos is_suc) ∙ less_one (n + c) (omega arith) in
      let r1 : Retriever p = record r { loop_back_cnts = insert id left r.loop_back_cnts } in
      let at_id : get_or id r1.loop_back_cnts (pos 0) ≡ pos (n + c) =
        get_or-insert id id left (pos 0) r.loop_back_cnts ∙ rw (==-refl id) next in
      let (out, at_end, others, counted) = count_replicate c n id r1 (omega arith) at_id in
      (
        spawned c n left (spawn_loop_back (get_or id r.loop_back_blocks no_digest)) _ next out,
        at_end,
        λ j other.
            others j other
            ∙ get_or-insert id j left (pos 0) r.loop_back_cnts
            ∙ rw (==-false id j (λ e. other (sym e))) refl,
        record {
          same_pending = counted.same_pending;
          same_blocks = counted.same_blocks;
          same_users = counted.same_users;
        },
      )

  pub Serves-keep :
      (r r' : Retriever p) (ws : List Waiter) (k : ℕ)
      → ((j : ℕ)
          → k ≤ j
          → get_or (pos j) r'.loop_back_cnts (pos 0) ≡ get_or (pos j) r.loop_back_cnts (pos 0))
      → r'.loop_back_blocks ≡ r.loop_back_blocks
      → Serves r k ws
      → Serves r' k ws
  Serves-keep r r' [] k same blocks h = tt
  Serves-keep r r' ((left, b) ∷ ws) k same blocks (count, block, short, h) = (
    same k (omega arith) ∙ count,
    ap (λ m. get_or (pos k) m no_digest) blocks ∙ block,
    short,
    Serves-keep r r' ws (k + 1) (λ j le. same j (omega arith)) blocks h,
  )

  -- The blocks that are done go out in the order of their requests, and the others wait on.
  abbrev pub CountsDown :
      Digest → List Waiter → ℕ → Retriever p → List Action × Retriever p → Type 0
  CountsDown d ws k r (out, r') =
      (out ≡ map spawn_loop_back (done_by d ws))
      × Serves r' k (strike d ws)
      × ((j : ℕ)
          → j < k
          → get_or (pos j) r'.loop_back_cnts (pos 0) ≡ get_or (pos j) r.loop_back_cnts (pos 0))
      × Counted r r'

  -- The waiters from id k on, under one digest.
  pub count_users :
      (d : Digest) (ws : List Waiter) (k : ℕ) (r : Retriever p)
      → Serves r k ws
      → CountsDown d ws k r (count_down p (users d k ws) r)
  unfolding count_down
  count_users d [] k r h = (
    refl,
    tt,
    λ j lt. refl,
    record { same_pending = refl; same_blocks = refl; same_users = refl },
  )
  count_users d ((left, b) ∷ ws) k r (count, block, short, h) =
      let c = occurs d left in
      let rest = remove d left in
      let split : length rest + c ≡ length left = length-remove-occurs d left in
      let (out, at_k, others, counted) =
        count_replicate c (length rest) (pos k) r (omega arith) (count ∙ ap pos (sym split)) in
      let r1 = (count_down p (replicate c (pos k)) r).1 in
      let served : Serves r1 (k + 1) ws =
        Serves-keep r r1 ws (k + 1)
          (λ j le. others (pos j) (λ e. pos_apart j k (λ same. absurd (omega arith)) e))
          counted.same_blocks h in
      let (outs, later, before, counted') = count_users d ws (k + 1) r1 served in
      let whole = count_down-append (replicate c (pos k)) (users d (k + 1) ws) r in
      let r2 = (count_down p (users d (k + 1) ws) r1).1 in
      let both : Counted r r2 = record {
        same_pending = counted'.same_pending ∙ counted.same_pending;
        same_blocks = counted'.same_blocks ∙ counted.same_blocks;
        same_users = counted'.same_users ∙ counted.same_users;
      } in
      let mine : get_or (pos k) r2.loop_back_blocks no_digest ≡ b =
        ap (λ m. get_or (pos k) m no_digest) both.same_blocks ∙ block in
      let shorter : length rest < 2 ^ 62 = omega arith in
      let is_done : (ltb 0 c && eqb (length rest) 0) ≡ (contains d left && is_nil rest) =
        ap₂ (λ x y. x && y) (occurs-contains d left) (eqb-length rest) in
      subst (CountsDown d ((left, b) ∷ ws) k r) (sym whole) (
        ap₂ (λ (x y : List Action). x ++ y)
              (out
                ∙ ap₂ (λ (t : Bool) (x : Digest). if t then spawn_loop_back x ∷ [] else []) is_done
                    block)
              outs
            ∙ elim (Bool-cases (contains d left && is_nil rest)) [
              | inl yes_done ↦ rw yes_done refl
              | inr waits ↦ rw waits refl
            ],
        (before k (omega arith) ∙ at_k, mine, shorter, later),
        λ j lt.
            before j (omega arith)
            ∙ others (pos j) (λ e. pos_apart j k (λ same. absurd (omega arith)) e),
        both,
      )
