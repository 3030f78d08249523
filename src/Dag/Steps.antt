-- ===== src/Dag/Steps.antt =====
-- The invariant of core/dag.go over any sequence of messages, from the state of `NewDag` on.
use loom.Committee.{NodeId, Committee, size}
use loom.Message.{
  CommitReq, BlockPullReq, RefReq, DagMessage, push_block, check_req, ref_req, commit_req,
  block_pull_req, gc_req,
}
use loom.Dag.{Line, Dag, Sent, row, line, mark, index, at, new_dag, fresh_marks}
use loom.Dag.Handlers.{
  pull_at, handle_ref_req, handle_commit_req, handle_block_pull_req, try_commit, plain_ref, refs_of,
  step, run,
}
use native.Mathlib.Decide.{dec_lt}
use loom.Prelude.{
  ℕ, zero, suc, ◌≡◌, ap, inl, inr, List, [], ◌∷◌, ◌++◌, arith, Bool-cases, All, replicate,
  get_elem?-out, get_elem?-replicate, length-replicate,
}
use loom.Prelude.Int.{ℤ, pos, negsuc, leb_ℤ, IsSmall}
use loom.Prelude.Eq.{◌==◌, nat_eq, int_eq, string_eq, list_eq}
use loom.Prelude.Result.{ok, >>=-eq-ok}
use loom.Prelude.Map.{Map, lookup, get_or, get_or-cons}
use loom.Dag.Invariant.{IsWellFormed, push-IsWellFormed}
use loom.Dag.Cleaning.{AreSmall, clean-IsWellFormed}

-- Reference, commit and pull requests leave the cache and the watermarks as they are.
record KeepsCache (d d' : Dag) : Type 0 where
  committee : d'.committee ≡ d.committee
  cache : d'.cache ≡ d.cache
  cache_mark : d'.cache_mark ≡ d.cache_mark

KeepsCache-IsWellFormed : (d d' : Dag) → KeepsCache d d' → IsWellFormed d → IsWellFormed d'
KeepsCache-IsWellFormed d d' k w = rw (k.committee, k.cache, k.cache_mark) w

pub ref-same :
    (req : RefReq) (d d' : Dag) (out : List Sent) → handle_ref_req req d ≡ ok (d', out) → d' ≡ d
unfolding handle_ref_req
ref-same req d d' out h =
    let (refs, _, h₁) = >>=-eq-ok (refs_of req.round d.cache) _ h in
    let (ref, _, h₂) = >>=-eq-ok (plain_ref refs d) _ h₁ in cc

commit-KeepsCache :
    (req : CommitReq) (d d' : Dag) (out : List Sent)
    → handle_commit_req req d ≡ ok (d', out)
    → KeepsCache d d'
unfolding handle_commit_req try_commit
commit-KeepsCache req d d' out h = ground arith

pull_at-KeepsCache :
    (z : ℤ) (l : Line) (req : BlockPullReq) (d d' : Dag) (out : List Sent)
    → pull_at z l req d ≡ ok (d', out)
    → KeepsCache d d'
unfolding pull_at
pull_at-KeepsCache (negsuc i) l req d d' out h = absurd (cc)
pull_at-KeepsCache (pos i) l req d d' out h = ground arith

pull-KeepsCache :
    (req : BlockPullReq) (d d' : Dag) (out : List Sent)
    → handle_block_pull_req req d ≡ ok (d', out)
    → KeepsCache d d'
unfolding handle_block_pull_req
pull-KeepsCache req d d' out h =
    elim (Bool-cases (leb_ℤ req.slot.height (mark req.slot.author d))) [
      | inl old ↦ ground arith
      | inr new ↦
          let (l, _, rest) =
            >>=-eq-ok (line req.slot.author d) (λ (l : Line). pull_at (index req.slot d) l req d)
              (ground arith) in
          pull_at-KeepsCache (index req.slot d) l req d d' out rest
    ]

-- A message whose height or watermarks are in the range that the invariant keeps.
abbrev pub IsFit : DagMessage → Type 0
IsFit (push_block b) = IsSmall b.header.slot.height
IsFit (gc_req r) = AreSmall r.new_watermark
IsFit m = Unit

-- Every handler keeps the invariant: whatever message the DAG takes, if it ends without a fault.
pub step-IsWellFormed :
    (m : DagMessage) (d d' : Dag) (out : List Sent)
    → IsFit m
    → IsWellFormed d
    → step m d ≡ ok (d', out)
    → IsWellFormed d'
unfolding step
step-IsWellFormed (push_block b) d d' out f w h = push-IsWellFormed b d d' out f w h
step-IsWellFormed (check_req r) d d' out f w h = let same : d ≡ d' = cc in rw (← same) w
step-IsWellFormed (ref_req r) d d' out f w h = rw (ref-same r d d' out h) w
step-IsWellFormed (commit_req r) d d' out f w h =
    KeepsCache-IsWellFormed d d' (commit-KeepsCache r d d' out h) w
step-IsWellFormed (block_pull_req r) d d' out f w h =
    KeepsCache-IsWellFormed d d' (pull-KeepsCache r d d' out h) w
step-IsWellFormed (gc_req r) d d' out f w h = clean-IsWellFormed r d d' out f w h

-- Whatever sequence of messages a well-formed DAG takes, with the heights of the blocks and the new
-- watermarks in range: if it ends without a fault, the DAG is well-formed behind it (each line ends in
-- a block, and each block stands in its author's line at the index of its height).
pub run-IsWellFormed :
    (ms : List DagMessage) (d d' : Dag) (out : List Sent)
    → All IsFit ms
    → IsWellFormed d
    → run ms d ≡ ok (d', out)
    → IsWellFormed d'
unfolding run
run-IsWellFormed [] d d' out f w h = let same : d ≡ d' = cc in rw (← same) w
run-IsWellFormed (m ∷ ms) d d' out f w h =
    let ((d₁, out₁), first, h₁) = >>=-eq-ok (step m d) _ h in
    let ((d₂, out₂), rest, h₂) = >>=-eq-ok (run ms d₁) _ h₁ in
    let same : d₂ ≡ d' = cc in
    rw (← same)
      (run-IsWellFormed ms d₁ d₂ out₂ f.1 (step-IsWellFormed m d d₁ out₁ f.0 w first) rest)

get_or-IsSmall : (a : NodeId) (m : Map NodeId ℤ) → AreSmall m → IsSmall (get_or a m (pos 0))
get_or-IsSmall a [] h = unfold get_or lookup in omega arith
get_or-IsSmall a ((k, v) ∷ m) h =
    rw (get_or-cons k a v (pos 0) m)
      (elim (Bool-cases (k == a)) [ inl t ↦ rw t h.0 | inr f ↦ rw f (get_or-IsSmall a m h.1) ])

fresh_marks-AreSmall : (n : ℕ) → AreSmall (fresh_marks n)
fresh_marks-AreSmall zero = tt
fresh_marks-AreSmall (suc n) = snoc (fresh_marks n) (fresh_marks-AreSmall n)
  where
    snoc : (m : Map NodeId ℤ) → AreSmall m → AreSmall (m ++ (pos n, negsuc 0) ∷ [])
    snoc [] h = omega arith
    snoc (e ∷ m) h = (h.0, snoc m h.1)

row-fresh : (a : NodeId) (n : ℕ) (l : Line) → row a (replicate n []) ≡ ok l → l ≡ []
unfolding row
row-fresh (negsuc i) n l h = absurd (cc)
row-fresh (pos i) n l h = elim (dec_lt i n) [
  | yes p ↦ cc (h, get_elem?-replicate n i (let e : Line = [] in e) p)
  | no q ↦ absurd (
      cc (
        h,
        get_elem?-out (replicate n (let e : Line = [] in e)) i
            (omega (arith, length-replicate {0} n (let e : Line = [] in e))),
      ))
]

-- The state that `NewDag` makes is well-formed.
pub new_dag-IsWellFormed : (i : NodeId) (c : Committee) → IsWellFormed (new_dag i c)
unfolding new_dag
new_dag-IsWellFormed i c = record {
  rows = length-replicate (size c) [];
  small = λ a. get_or-IsSmall a (fresh_marks (size c)) (fresh_marks-AreSmall (size c));
  ends = λ a l h. inl (row-fresh a (size c) l h);
  placed = λ a l j b h k. absurd (cc (k, ap (λ (x : Line). at x j) (row-fresh a (size c) l h)));
}
