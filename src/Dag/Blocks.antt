-- ===== src/Dag/Blocks.antt =====
-- Pushing and pulling blocks (core/dag.go): a pushed block is what is read and pulled at its slot.
use mathlib.Core.Path.{subst}
use loom.Committee.{NodeId}
use loom.Message.{Slot, Block, Channel, BlockPullReq, slot_eq}
use loom.Dag.{Line, Dag, Sent, block, line, set_line, mark, index, at, join, get, get_at}
use loom.Dag.Handlers.{pull_at, push_line, answer, handle_block_push_req, handle_block_pull_req}
use loom.Dag.Lines.{at-push_line_self, at-push_line_ne}
use loom.Dag.Invariant.{IsWellFormed, push_at-cases, row-set_row_self, row-set_row_ne}
use loom.Prelude.{
  ℕ, ◌+◌, ◌-◌, ◌≡◌, refl, sym, ap, ◌∙◌, ◌≢◌, ◌⊎◌, inl, inr, ◌&&◌, Option, none, some, List, [], ◌∷◌,
  arith, if◌then◌else◌, Bool-cases, Option-cases,
}
use loom.Prelude.Int.{
  ℤ, pos, negsuc, pos_part, neg_part, ◌≤ℤ◌, ◌<ℤ◌, leb_ℤ, eqb_ℤ_iff, eq_of_parts, ◌-ℤ◌, IsSmall,
  offset_pos,
}
use loom.Prelude.Eq.{◌==◌, nat_eq, int_eq, string_eq, list_eq, ==-refl, ==-false, ==-cases}
use loom.Prelude.Result.{Result, ok, ◌>>=◌, >>=-eq-ok, >>=-ok}
use loom.Prelude.Map.{lookup, insert, lookup-insert}

-- Above the watermark a height has an index, below it none.
pub index_above : (h m : ℤ) → IsSmall h → IsSmall m → m <ℤ h → (i : ℕ) × (h -ℤ m -ℤ pos 1 ≡ pos i)
index_above h m sh sm lt =
    let i = pos_part h + neg_part m - (neg_part h + pos_part m) - 1 in
    (i, (offset_pos h m i sh sm).1 (omega arith))

pub get-eq :
    (a : NodeId) (h : ℤ) (d : Dag) (i : ℕ) (l : Line)
    → h -ℤ mark a d -ℤ pos 1 ≡ pos i
    → line a d ≡ ok l
    → get a h d ≡ ok (at l i)
unfolding get get_at
get-eq a h d i l e found =
    ap (λ (z : ℤ). get_at z a d) e ∙ >>=-ok (line a d) (λ x. ok (at x i)) found

pub get_at-row :
    (z : ℤ) (a : NodeId) (d' d : Dag) → line a d' ≡ line a d → get_at z a d' ≡ get_at z a d
unfolding get_at
get_at-row (negsuc i) a d' d h = refl
get_at-row (pos i) a d' d h = ap (λ (r : Result Line). r >>= λ l. ok (at l i)) h

-- Two heights of one author at one index are the same.
index_injective :
    (h k m : ℤ) (i : ℕ)
    → IsSmall h
    → IsSmall k
    → IsSmall m
    → h -ℤ m -ℤ pos 1 ≡ pos i
    → k -ℤ m -ℤ pos 1 ≡ pos i
    → h ≡ k
index_injective h k m i sh sk sm p q =
    eq_of_parts h k (omega (arith, (offset_pos h m i sh sm).0 p, (offset_pos k m i sk sm).0 q))

-- The line of the pushed block's author.
get-push_own :
    (b : Block) (d d' : Dag) (out : List Sent) (h : ℤ)
    → IsWellFormed d
    → IsSmall b.header.slot.height
    → mark b.header.slot.author d <ℤ b.header.slot.height
    → handle_block_push_req b d ≡ ok (d', out)
    → IsSmall h
    → mark b.header.slot.author d <ℤ h
    → get b.header.slot.author h d'
      ≡ (if b.header.slot.height == h then ok (some b) else get b.header.slot.author h d)
unfolding handle_block_push_req
get-push_own b d d' out h w sb above pushed sh above_h =
    let a = b.header.slot.author in
    let m = mark a d in
    let (i, at_i) = index_above b.header.slot.height m sb (w.small a) above in
    let (j, at_j) = index_above h m sh (w.small a) above_h in
    elim (push_at-cases (index b.header.slot d) b d d' out pushed) [
      | inl (k, below, _, _) ↦ absurd (cc (at_i, below))
      | inr (k, own, at_k, found, same, _) ↦
          let new =
            get-eq a h (set_line a (push_line k b own) d) j (push_line k b own) at_j
              (row-set_row_self a own (push_line k b own) d.cache found) in
          rw same (elim (==-cases b.header.slot.height h) [
            | inl height ↦
                let there : k ≡ j =
                  ap pos_part (sym at_k ∙ ap (λ x. x -ℤ m -ℤ pos 1) height ∙ at_j) in
                rw ((eqb_ℤ_iff b.header.slot.height h).1 height) (
                  new
                  ∙ ap ok (
                      ap (at (push_line k b own)) (sym there)
                      ∙ ap join (at-push_line_self k b own)))
            | inr ne ↦ rw (==-false b.header.slot.height h ne) (
                new
                ∙ ap ok (
                    at-push_line_ne k j b own (λ e. ne (
                      index_injective b.header.slot.height h m j sb sh (w.small a) (at_k ∙ ap pos e)
                        at_j)))
                ∙ sym (get-eq a h d j own at_j found))
          ])
    ]

-- The line of another author.
get-push_other :
    (b : Block) (d d' : Dag) (out : List Sent) (a : NodeId) (h : ℤ)
    → handle_block_push_req b d ≡ ok (d', out)
    → b.header.slot.author ≢ a
    → get a h d' ≡ get a h d
unfolding handle_block_push_req get
get-push_other b d d' out a h pushed ne =
    elim (push_at-cases (index b.header.slot d) b d d' out pushed) [
      | inl (k, _, same, _) ↦ ap (get a h) same
      | inr (k, own, _, _, same, _) ↦
          ap (get a h) same
          ∙ get_at-row (h -ℤ mark a d -ℤ pos 1) a
              (set_line b.header.slot.author (push_line k b own) d) d
              (row-set_row_ne b.header.slot.author a (push_line k b own) d.cache ne)
    ]

-- In a well-formed DAG, with heights in range: a block above its author's watermark that is pushed without a fault is what is read at its slot
-- afterwards, and every other slot above its author's watermark reads as before.
pub get-push :
    (b : Block) (d d' : Dag) (out : List Sent) (a : NodeId) (h : ℤ)
    → IsWellFormed d
    → IsSmall b.header.slot.height
    → mark b.header.slot.author d <ℤ b.header.slot.height
    → handle_block_push_req b d ≡ ok (d', out)
    → IsSmall h
    → mark a d <ℤ h
    → get a h d' ≡ (
        if (b.header.slot.author == a) && (b.header.slot.height == h)
        then ok (some b)
        else get a h d)
get-push b d d' out a h w sb above pushed sh above_h =
    let own = b.header.slot.author in
    elim (==-cases own a) [
      | inl same ↦
          subst
            (λ x.
              mark x d <ℤ h
              → get x h d'
                ≡ (if (own == x) && (b.header.slot.height == h) then ok (some b) else get x h d))
            same (λ up. rw (==-refl own) (get-push_own b d d' out h w sb above pushed sh up))
            above_h
      | inr ne ↦ rw (==-false own a ne) (get-push_other b d d' out a h pushed ne)
    ]

pull_at-pos :
    (i : ℕ) (l : Line) (req : BlockPullReq) (d : Dag) (b : Option Block)
    → at l i ≡ b
    → pull_at (pos i) l req d ≡ elim b [
      | some x ↦ ok (d, block req.block_pull_ch (some x) ∷ [])
      | none ↦ ok (record d { pending = insert req.slot req.block_pull_ch d.pending }, [])
    ]
unfolding pull_at
pull_at-pos i l req d b h = ground arith

-- In a well-formed DAG, what the asker of a slot of a member of the committee, at a height in range,
-- is told: nothing to fetch at or below the watermark; above it the block, if
-- it is there; otherwise the reply waits, and only then is the slot registered.
pub pull_lem :
    (req : BlockPullReq) (d : Dag) (l : Line)
    → IsWellFormed d
    → IsSmall req.slot.height
    → line req.slot.author d ≡ ok l
    → ((req.slot.height ≤ℤ mark req.slot.author d)
        × (handle_block_pull_req req d ≡ ok (d, block req.block_pull_ch none ∷ [])))
      ⊎ ((b : Block) × (mark req.slot.author d <ℤ req.slot.height)
          × (get req.slot.author req.slot.height d ≡ ok (some b))
          × (b.header.slot ≡ req.slot)
          × (handle_block_pull_req req d ≡ ok (d, block req.block_pull_ch (some b) ∷ [])))
      ⊎ ((mark req.slot.author d <ℤ req.slot.height)
          × (get req.slot.author req.slot.height d ≡ ok none)
          × (handle_block_pull_req req d
              ≡ ok (record d { pending = insert req.slot req.block_pull_ch d.pending }, [])))
unfolding handle_block_pull_req
pull_lem req d l w small found =
    let a = req.slot.author in
    let h = req.slot.height in
    elim (Bool-cases (leb_ℤ h (mark a d))) [
      | inl old ↦ inl (ground arith, rw old)
      | inr new ↦
          let above : mark a d <ℤ h = ground arith in
          let (i, at_i) = index_above h (mark a d) small (w.small a) above in
          let pull : (b : Option Block)
              → at l i ≡ b
              → handle_block_pull_req req d ≡ pull_at (pos i) l req d =
            λ b e. rw new (
              >>=-ok (line a d) (λ x. pull_at (index req.slot d) x req d) found
              ∙ ap (λ z. pull_at z l req d) at_i) in
          let read = get-eq a h d i l at_i found in
          elim (Option-cases (at l i)) [
            | inl empty ↦ inr (
                inr (above, read ∙ ap ok empty, pull none empty ∙ pull_at-pos i l req d none empty))
            | inr (b, held) ↦
                let (author, sb, at_b) = w.placed a l i b found held in
                let height : b.header.slot.height ≡ h =
                  index_injective b.header.slot.height h (mark a d) i sb small (w.small a) at_b
                    at_i in
                inr (
                  inl (
                    b,
                    above,
                    read ∙ ap ok held,
                    (λ k. record { author = author k; height = height k }),
                    pull (some b) held ∙ pull_at-pos i l req d (some b) held,
                  ))
          ]
    ]

answer-registered :
    (b : Block) (s : Slot) (ch : Channel) (d : Dag)
    → b.header.slot ≡ s
    → lookup s d.pending ≡ some ch
    → answer b d ≡ block ch (some b) ∷ []
unfolding answer
answer-registered b s ch d same found =
    let e : lookup b.header.slot d.pending ≡ some ch = ap (λ x. lookup x d.pending) same ∙ found in
    ground arith

push-out :
    (b : Block) (d d' : Dag) (out : List Sent) (i : ℕ)
    → index b.header.slot d ≡ pos i
    → handle_block_push_req b d ≡ ok (d', out)
    → (out ≡ answer b d) × (d'.pending ≡ d.pending) × (d'.cache_mark ≡ d.cache_mark)
unfolding handle_block_push_req
push-out b d d' out i at_i h = elim (push_at-cases (index b.header.slot d) b d d' out h) [
  | inl (k, below, _, _) ↦ absurd (cc (at_i, below))
  | inr (k, own, _, _, same, sent) ↦
      (sent, ap (λ (x : Dag). x.pending) same, ap (λ (x : Dag). x.cache_mark) same)
]

pull-line :
    (req : BlockPullReq) (d d' : Dag) (out : List Sent)
    → mark req.slot.author d <ℤ req.slot.height
    → handle_block_pull_req req d ≡ ok (d', out)
    → (l : Line) × (line req.slot.author d ≡ ok l)
unfolding handle_block_pull_req
pull-line req d d' out above h =
    let (l, found, _) =
      >>=-eq-ok (line req.slot.author d) (λ (l : Line). pull_at (index req.slot d) l req d)
        {b = (d', out)} (ground arith) in
    (l, found)

-- In a well-formed DAG, a pull of a slot above the watermark, in range, that is not there yet and then
-- a push of its block, each without a fault: the asker gets the
-- block when it comes. The entry stays registered, so a second push of the slot sends to the same
-- asker again.
pub push-pull :
    (req : BlockPullReq) (b c : Block) (d d₁ d₂ d₃ : Dag) (out₁ out₂ out₃ : List Sent)
    → IsWellFormed d
    → IsSmall req.slot.height
    → mark req.slot.author d <ℤ req.slot.height
    → get req.slot.author req.slot.height d ≡ ok none
    → b.header.slot ≡ req.slot
    → c.header.slot ≡ req.slot
    → handle_block_pull_req req d ≡ ok (d₁, out₁)
    → handle_block_push_req b d₁ ≡ ok (d₂, out₂)
    → handle_block_push_req c d₂ ≡ ok (d₃, out₃)
    → (out₁ ≡ [])
      × (out₂ ≡ block req.block_pull_ch (some b) ∷ [])
      × (out₃ ≡ block req.block_pull_ch (some c) ∷ [])
push-pull req b c d d₁ d₂ d₃ out₁ out₂ out₃ w small above empty sb sc p₁ p₂ p₃ =
    let s = req.slot in
    let ch = req.block_pull_ch in
    let (l, found) = pull-line req d d₁ out₁ above p₁ in
    let (i, at_i) = index_above s.height (mark s.author d) small (w.small s.author) above in
    elim (pull_lem req d l w small found) [
      | inl (old, _) ↦ absurd (omega arith)
      | inr (inl (x, _, held, _, _)) ↦ absurd (cc (held, empty))
      | inr (inr (_, _, pulled)) ↦
          let same : d₁ ≡ record d { pending = insert s ch d.pending } = cc in
          let waits : lookup s d₁.pending ≡ some ch =
            ap (λ (x : Dag). lookup s x.pending) same
            ∙ lookup-insert s s ch d.pending
            ∙ rw (==-refl s) refl in
          let at_b : index b.header.slot d₁ ≡ pos i = rw (sb, same) at_i in
          let (sent₂, pending₂, mark₂) = push-out b d₁ d₂ out₂ i at_b p₂ in
          let at_c : index c.header.slot d₂ ≡ pos i = rw (sc, mark₂, same) at_i in
          let (sent₃, _, _) = push-out c d₂ d₃ out₃ i at_c p₃ in
          (
            cc,
            sent₂ ∙ answer-registered b s ch d₁ sb waits,
            sent₃ ∙ answer-registered c s ch d₂ sc (ap (lookup s) pending₂ ∙ waits),
          )
    ]
