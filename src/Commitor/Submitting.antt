-- ===== src/Commitor/Submitting.antt =====
-- `commit2` of core/commitor.go as a whole: what it executes, and where it waits.
use mathlib.Core.Path.{subst}
use loom.Message.{Slot, Block, SubmitReq, GcReq, slot_eq}
use loom.Commitor.{
  World, never, done, waits, Pulling, pull_loop, sort, watermarks, zero_slot, commit_anchors,
  commit2,
}
use loom.Commitor.Walk.{cost, Covers, Reach, here, next, Candidate}
use loom.Commitor.Ordering.{slots, in_pulled, pulled-Covers, contains-sort}
use loom.Commitor.Pulls.{block_at, pull_loop_lem}
use loom.Commitor.Anchors.{AreHighest, first-AreHighest, pull_loop-AreHighest}
use loom.Commitor.Heights.{AreWatermarks, watermarks-AreWatermarks}
use loom.Commitor.Executing.{IsCommitted, map-held, map-agree, commit_anchors-AreBlocksOf}
use loom.Prelude.{
  ℕ, suc, ◌≤◌, ◌≡◌, refl, sym, ap, ◌∙◌, ◌⊎◌, ◌↔◌, inl, inr, true, Option, none, some, List, [], ◌∷◌,
  map, arith, Bool-cases, Option-cases, List-cases, if◌then◌else◌,
}
use loom.Prelude.Int.{ℤ, ltb_ℤ}
use loom.Prelude.Eq.{◌==◌, nat_eq, int_eq, string_eq, list_eq, ==-refl}
use loom.Prelude.Map.{Map, lookup, get_or}
use loom.Prelude.Distinct.{contains, Distinct}

abbrev rounds_of : Map ℤ Slot → List ℤ
rounds_of anchors = map (λ (a : ℤ × Slot). a.0) anchors

rounds_of-lookup :
    (r : ℤ) (t : Slot) (anchors : Map ℤ Slot)
    → lookup r anchors ≡ some t
    → contains r (rounds_of anchors) ≡ true
unfolding lookup
rounds_of-lookup r t [] h = cc
rounds_of-lookup r t ((k, u) ∷ m) h = ground (arith, rounds_of-lookup r t m)

lookup-rounds_of :
    (r : ℤ) (anchors : Map ℤ Slot)
    → contains r (rounds_of anchors) ≡ true
    → (t : Slot) × (lookup r anchors ≡ some t)
unfolding lookup
lookup-rounds_of r [] h = absurd (cc)
lookup-rounds_of r ((k, u) ∷ m) h = elim (Bool-cases (k == r)) [
  | inl same ↦ (u, rw same refl)
  | inr other ↦ let (t, there) = lookup-rounds_of r m (ground arith) in (t, rw other there)
]

get_or-some :
    (r : ℤ) (t : Slot) (anchors : Map ℤ Slot)
    → lookup r anchors ≡ some t
    → get_or r anchors zero_slot ≡ t
unfolding get_or
get_or-some r t anchors h = ground arith

-- The slots that an anchor reaches over what was pulled.
abbrev pub IsReached : Pulling → Slot → Type 0
IsReached p s =
    (r : ℤ) × (t : Slot) × (lookup r p.anchors ≡ some t) × Reach (in_pulled p.pulled) t s

IsReached-IsCommitted :
    (p : Pulling) (s : Slot)
    → IsCommitted (sort ltb_ℤ (rounds_of p.anchors)) p.anchors p.pulled s ↔ IsReached p s
IsReached-IsCommitted p s = (
  λ (r, listed, g).
      let (t, there) =
        lookup-rounds_of r p.anchors (sym (contains-sort ltb_ℤ r (rounds_of p.anchors)) ∙ listed) in
      let of_t = subst (λ u. Reach (in_pulled p.pulled) u s) (get_or-some r t p.anchors there) g in
      (r, t, there, of_t),
  λ (r, t, there, g). (
    r,
    contains-sort ltb_ℤ r (rounds_of p.anchors) ∙ rounds_of-lookup r t p.anchors there,
    subst (λ u. Reach (in_pulled p.pulled) u s) (sym (get_or-some r t p.anchors there)) g,
  ),
)

commit2-waits :
    (w : World) (fuel : ℕ) (req : SubmitReq)
    → pull_loop w fuel (req.slot ∷ []) [] ((req.round, req.slot) ∷ []) ≡ waits
    → commit2 w fuel req ≡ waits
unfolding commit2
commit2-waits w fuel req h = ground arith

commit2-idle :
    (w : World) (fuel : ℕ) (req : SubmitReq) (p : Pulling)
    → pull_loop w fuel (req.slot ∷ []) [] ((req.round, req.slot) ∷ []) ≡ done p
    → p.pulled ≡ []
    → commit2 w fuel req ≡ done ([], none)
unfolding commit2
commit2-idle w fuel req p h k = ground arith

commit2-busy :
    (w : World) (fuel : ℕ) (req : SubmitReq) (p : Pulling) (e : Slot × Block)
    (m left : Map Slot Block) (executed : List Block)
    → pull_loop w fuel (req.slot ∷ []) [] ((req.round, req.slot) ∷ []) ≡ done p
    → p.pulled ≡ e ∷ m
    → commit_anchors (sort ltb_ℤ (rounds_of p.anchors)) p.anchors p.pulled ≡ some (executed, left)
    → commit2 w fuel req ≡ done (executed, some (record { new_watermark = watermarks p.pulled [] }))
unfolding commit2
commit2-busy w fuel req p e m left executed h k g = ground arith

Reach-start : (f : Slot → Option Block) (a s : Slot) → Reach f a s → (b : Block) × (f a ≡ some b)
Reach-start f a s (here {b} e) = (b, e)
Reach-start f a s (next g e k h) = Reach-start f a _ g

Reach-empty : (m : Map Slot Block) (t s : Slot) → m ≡ [] → ¬ Reach (in_pulled m) t s
unfolding lookup
Reach-empty m t s empty g =
    let (b, there) = Reach-start (in_pulled m) t s g in
    let nothing : lookup t m ≡ none = ap (λ n. lookup t n) empty in cc (nothing, there)

-- How `commit2` ends: nothing was there to commit, or the anchor of the round submitted is executed with
-- all that the anchors reach, and a cleaning up to the heights pulled is asked for.
abbrev pub Commits : World → SubmitReq → Pulling → List Slot → Option GcReq → Type 0
Commits w req p order gc =
    ((block_at w req.slot ≡ none) × (order ≡ []) × (gc ≡ none))
    ⊎ ((b : Block) × (t : Slot) × (g : GcReq) × (block_at w req.slot ≡ some b)
        × (lookup req.round p.anchors ≡ some t)
        × (contains t order ≡ true)
        × (gc ≡ some g)
        × AreWatermarks p.pulled g.new_watermark)

-- The anchor of a round is a slot that was pulled.
anchor-pulled :
    (w : World) (req : SubmitReq) (p : Pulling) (r : ℤ) (t : Slot) (b : Block)
    → ((s : Slot) (c : Block) → block_at w s ≡ some c → c.header.slot ≡ s)
    → ((s : Slot) (c : Block) → lookup s p.pulled ≡ some c → block_at w s ≡ some c)
    → AreHighest w req.round req.slot p.pulled p.anchors
    → lookup req.slot p.pulled ≡ some b
    → lookup r p.anchors ≡ some t
    → (c : Block) × (lookup t p.pulled ≡ some c)
anchor-pulled w req p r t b placed held h first there = elim (h.own r t there) [
  | inl (_, is_a) ↦ (b, ap (λ y. lookup y p.pulled) is_a ∙ first)
  | inr (s, c, at_s, _, _, is_t) ↦
      let same : t ≡ s = sym is_t ∙ placed s c (held s c at_s) in
      (c, ap (λ y. lookup y p.pulled) same ∙ at_s)
]

-- What is executed, for what was pulled.
abbrev pub Executes : World → ℕ → SubmitReq → Pulling → Type 0
Executes w fuel req p =
    (executed : List Block) × (gc : Option GcReq) × (order : List Slot) × (commit2 w fuel req
      ≡ done (executed, gc))
    × (map (block_at w) order ≡ map some executed)
    × Distinct order
    × ((s : Slot) → (contains s order ≡ true) ↔ IsReached p s)
    × Commits w req p order gc

idle-Executes :
    (w : World) (fuel : ℕ) (req : SubmitReq) (p : Pulling)
    → pull_loop w fuel (req.slot ∷ []) [] ((req.round, req.slot) ∷ []) ≡ done p
    → ((s : Slot) → (contains s (slots p.pulled) ≡ true) ↔ Reach (block_at w) req.slot s)
    → p.pulled ≡ []
    → Executes w fuel req p
idle-Executes w fuel req p ended reach empty =
    let nothing : block_at w req.slot ≡ none = elim (Option-cases (block_at w req.slot)) [
      | inl nil ↦ nil
      | inr (b, there) ↦ let listed = (reach req.slot).1 (here there) in absurd (cc (listed))
    ] in
    (
      [],
      none,
      [],
      commit2-idle w fuel req p ended empty,
      refl,
      tt,
      λ s. (λ h. absurd (cc), λ (r, t, there, g). absurd (Reach-empty p.pulled t s empty g)),
      inl (nothing, refl, refl),
    )

busy-Executes :
    (w : World) (fuel : ℕ) (req : SubmitReq) (p : Pulling) (e : Slot × Block) (m : Map Slot Block)
    → ((s : Slot) (b : Block) → block_at w s ≡ some b → b.header.slot ≡ s)
    → pull_loop w fuel (req.slot ∷ []) [] ((req.round, req.slot) ∷ []) ≡ done p
    → Distinct (slots p.pulled)
    → ((s : Slot) → (contains s (slots p.pulled) ≡ true) ↔ Reach (block_at w) req.slot s)
    → ((s : Slot)
        → lookup s p.pulled ≡ (if contains s (slots p.pulled) then block_at w s else none))
    → AreHighest w req.round req.slot p.pulled p.anchors
    → p.pulled ≡ e ∷ m
    → Executes w fuel req p
busy-Executes w fuel req p e m placed ended apart reach held anchors full =
    let f = block_at w in
    let (executed, left, order, committed, (once, blocks), exactly) =
      commit_anchors-AreBlocksOf (sort ltb_ℤ (rounds_of p.anchors)) p.anchors p.pulled apart in
    let of_world = λ (s : Slot) (b : Block) (at_s : lookup s p.pulled ≡ some b).
      let listed : contains s (slots p.pulled) ≡ true = pulled-Covers p.pulled s b at_s in
      let same : lookup s p.pulled ≡ f s = held s ∙ rw listed refl in
      let found : f s ≡ some b = sym same ∙ at_s in found in
    let (b, known) = Reach-start f req.slot e.0 ((reach e.0).0 (rw full (rw (==-refl e.0) refl))) in
    let first : lookup req.slot p.pulled ≡ some b =
      held req.slot ∙ rw ((reach req.slot).1 (here known)) known in
    let (t, there, _) = anchors.submitted in
    let (c, at_t) = anchor-pulled w req p req.round t b placed of_world anchors first there in
    let iff = λ (s : Slot).
      let (reached, back) = IsReached-IsCommitted p s in
      let both : (contains s order ≡ true) ↔ IsReached p s =
        (λ h. reached ((exactly s).0 h), λ h. (exactly s).1 (back h)) in
      both in
    (
      executed,
      some (record { new_watermark = watermarks p.pulled [] }),
      order,
      commit2-busy w fuel req p e m left executed ended full committed,
      map-agree f (in_pulled p.pulled) order (λ s k.
            let (d, at_s) = map-held (in_pulled p.pulled) order executed s blocks k in
            of_world s d at_s ∙ sym at_s)
          ∙ blocks,
      once,
      iff,
      inr (
        b,
        t,
        record { new_watermark = watermarks p.pulled [] },
        known,
        there,
        (iff t).1 (req.round, t, there, here {b = c} at_t),
        refl,
        watermarks-AreWatermarks p.pulled,
      ),
    )

-- Let the DAG have blocks for finitely many slots, each block under its own slot, and the fuel be enough
-- for their references. Then a submitted request is committed, or `commit2` waits for ever in the pull of
-- a slot that is never answered and that is the submitted one or one that a pulled block refers to.
-- Where it is committed, what is pulled are the slots that the submitted one reaches; the anchors are for
-- each round the highest of the leader's blocks pulled that are one height or more into it, and for the
-- round submitted at least the slot submitted. What is executed are, each once, the DAG's blocks of the
-- slots that the anchors reach over the blocks pulled. Unless the DAG has no block for the submitted slot,
-- the anchor of the round submitted is among them, and a cleaning is asked for, up to the highest height of
-- each author that was pulled; otherwise nothing happens.
pub commit2_lem :
    (w : World) (fuel : ℕ) (req : SubmitReq) (us : List Slot)
    → Covers (block_at w) us
    → suc (cost (block_at w) us []) ≤ fuel
    → ((s : Slot) (b : Block) → block_at w s ≡ some b → b.header.slot ≡ s)
    → ((p : Pulling) × (pull_loop w fuel (req.slot ∷ []) [] ((req.round, req.slot) ∷ []) ≡ done p)
        × ((s : Slot) → (contains s (slots p.pulled) ≡ true) ↔ Reach (block_at w) req.slot s)
        × AreHighest w req.round req.slot p.pulled p.anchors
        × Executes w fuel req p)
      ⊎ ((s : Slot) × (commit2 w fuel req ≡ waits)
          × Candidate (block_at w) req.slot s
          × (w.pull s ≡ never))
commit2_lem w fuel req us c enough placed =
    elim (pull_loop_lem w fuel req.slot ((req.round, req.slot) ∷ []) us c enough) [
      | inr (s, silent, cited_s, unanswered) ↦
          inr (s, commit2-waits w fuel req silent, cited_s, unanswered)
      | inl (p, ended, apart, reach, held) ↦
          let anchors =
            pull_loop-AreHighest w req.round req.slot fuel (req.slot ∷ []) []
              ((req.round, req.slot) ∷ []) p (first-AreHighest w req.round req.slot) ended in
          inl (
            p,
            ended,
            reach,
            anchors,
            elim (List-cases p.pulled) [
              | inl empty ↦ idle-Executes w fuel req p ended reach empty
              | inr (e, m, full) ↦
                  busy-Executes w fuel req p e m placed ended apart reach held anchors full
            ],
          )
    ]
