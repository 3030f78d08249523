-- ===== src/Dag/Cleanup.antt =====
-- `handleCleanReq` of core/dag.go: what a cleaning keeps, and what it removes.
use loom.Committee.{NodeId}
use loom.Message.{CommitReq, GcReq}
use loom.Dag.{Line, Dag, Sent, line, mark, at, join, get, get_at}
use loom.Dag.Handlers.{clean_line, clean_lines, cleaned, handle_clean_req}
use loom.Dag.Invariant.{IsWellFormed, row-set_row_self, row-set_row_ne}
use loom.Dag.Cleaning.{AreSmall, clean_line-cases, clean_line-IsWellFormed}
use loom.Dag.Blocks.{get-eq, get_at-row, index_above}
use loom.Prelude.{
  ◌+◌, ◌≡◌, refl, sym, ap, ◌∙◌, ◌≢◌, inl, inr, false, none, some, List, [], ◌∷◌, map, arith,
  if◌then◌else◌, Option-cases, get_elem?-drop,
}
use loom.Prelude.Int.{
  ℤ, pos, pos_part, neg_part, ◌≤ℤ◌, ◌<ℤ◌, leb_ℤ, eqb_ℤ_iff, ◌-ℤ◌, IsSmall, -ℤ_parts, offset_pos,
}
use loom.Prelude.Eq.{nat_eq, int_eq, string_eq, list_eq, ==-refl, ==-false, ==-cases}
use loom.Prelude.Result.{ok, nil_pointer, or_panic, or_panic-eq-ok, >>=-eq-ok}
use loom.Prelude.Map.{Map, lookup, lookup-delete_if, get_or-insert}
use loom.Prelude.Distinct.{contains, Distinct}

abbrev pub authors : Map NodeId ℤ → List NodeId
authors wms = map (λ entry. entry.0) wms

-- A turn for another author changes nothing that is read of this one.
clean_line-other :
    (a b : NodeId) (wm h : ℤ) (d d' : Dag)
    → clean_line a wm d ≡ ok d'
    → a ≢ b
    → (mark b d' ≡ mark b d) × (get b h d' ≡ get b h d)
unfolding get
clean_line-other a b wm h d d' cut_off ne =
    let (l, l', found, same, _) = clean_line-cases a wm d d' cut_off in
    let kept : mark b d' ≡ mark b d =
      ap (mark b) same ∙ get_or-insert a b wm (pos 0) d.cache_mark ∙ rw (==-false a b ne) refl in
    let own : line b d' ≡ line b d = ap (line b) same ∙ row-set_row_ne a b l' d.cache ne in
    (
      kept,
      ap (λ m. get_at (h -ℤ m -ℤ pos 1) b d') kept ∙ get_at-row (h -ℤ mark b d -ℤ pos 1) b d' d own,
    )

-- A turn for this author moves its watermark, and what stands above that is read as before.
clean_line_self :
    (a : NodeId) (wm h : ℤ) (d d' : Dag)
    → IsWellFormed d
    → IsSmall wm
    → IsSmall h
    → mark a d ≤ℤ wm
    → wm <ℤ h
    → clean_line a wm d ≡ ok d'
    → (mark a d' ≡ wm) × (get a h d' ≡ get a h d)
clean_line_self a wm h d d' w sw sh up above cut_off =
    let (l, l', found, same, kind) = clean_line-cases a wm d d' cut_off in
    let moved : mark a d' ≡ wm =
      ap (mark a) same ∙ get_or-insert a a wm (pos 0) d.cache_mark ∙ rw (==-refl a) refl in
    let now : line a d' ≡ ok l' = ap (line a) same ∙ row-set_row_self a l l' d.cache found in
    let (i, at_i) = index_above h wm sh sw above in
    let read = get-eq a h d' i l' (rw moved at_i) now in
    let (j, at_j) = index_above h (mark a d) sh (w.small a) (omega arith) in
    (
      moved,
      elim kind [
        | inl (empty, empty') ↦ rw (read, get-eq a h d j l at_j found, empty, empty')
        | inr (n, e, _, rest) ↦
            let j_is : j ≡ n + i = omega (
              arith,
              (offset_pos h wm i sh sw).0 at_i,
              (offset_pos h (mark a d) j sh (w.small a)).0 at_j,
              -ℤ_parts wm (mark a d),
              ap pos_part e,
              ap neg_part e,
            ) in
            read
            ∙ ap ok (ap (λ (x : Line). at x i) rest ∙ ap join (get_elem?-drop n i j l j_is))
            ∙ sym (get-eq a h d j l at_j found)
      ],
    )

clean_lines-other :
    (wms : Map NodeId ℤ) (b : NodeId) (h : ℤ) (d d' : Dag)
    → clean_lines wms d ≡ ok d'
    → contains b (authors wms) ≡ false
    → (mark b d' ≡ mark b d) × (get b h d' ≡ get b h d)
unfolding clean_lines
clean_lines-other [] b h d d' c out =
    let same : d' ≡ d = cc in (ap (mark b) same, ap (get b h) same)
clean_lines-other ((a, wm) ∷ wms) b h d d' c out =
    let (d₁, first, rest) = >>=-eq-ok (clean_line a wm d) (λ (x : Dag). clean_lines wms x) c in
    let (m₁, g₁) = clean_line-other a b wm h d d₁ first (λ e. ground (arith, eqb_ℤ_iff a b)) in
    let (m₂, g₂) = clean_lines-other wms b h d₁ d' rest (ground arith) in (m₂ ∙ m₁, g₂ ∙ g₁)

clean_lines-listed :
    (wms : Map NodeId ℤ) (b : NodeId) (wm h : ℤ) (d d' : Dag)
    → IsWellFormed d
    → AreSmall wms
    → IsSmall h
    → Distinct (authors wms)
    → lookup b wms ≡ some wm
    → mark b d ≤ℤ wm
    → wm <ℤ h
    → clean_lines wms d ≡ ok d'
    → (mark b d' ≡ wm) × (get b h d' ≡ get b h d)
unfolding clean_lines lookup
clean_lines-listed [] b wm h d d' w sw sh dist found up above c = absurd (cc)
clean_lines-listed ((a, v) ∷ wms) b wm h d d' w sw sh dist found up above c =
    let (d₁, first, rest) = >>=-eq-ok (clean_line a v d) (λ (x : Dag). clean_lines wms x) c in
    elim (==-cases a b) [
      | inl same ↦
          let v_is : v ≡ wm = ground (arith, eqb_ℤ_iff a b) in
          let unlisted : contains b (authors wms) ≡ false =
            ap (λ x. contains x (authors wms)) (sym same) ∙ dist.0 in
          let first' : clean_line b wm d ≡ ok d₁ = rw (← same, ← v_is) first in
          let (m₁, g₁) = clean_line_self b wm h d d₁ w (rw (← v_is) sw.0) sh up above first' in
          let (m₂, g₂) = clean_lines-other wms b h d₁ d' rest unlisted in (m₂ ∙ m₁, g₂ ∙ g₁)
      | inr ne ↦
          let (m₁, g₁) = clean_line-other a b v h d d₁ first ne in
          let (m₂, g₂) =
            clean_lines-listed wms b wm h d₁ d' (clean_line-IsWellFormed a v d d₁ sw.0 w first) sw.1
              sh dist.1 (ground (arith, eqb_ℤ_iff a b)) (rw m₁ up) above rest in
          (m₂, g₂ ∙ g₁)
    ]

-- The author's watermark behind a cleaning.
unfoldable pub new_mark : NodeId → Map NodeId ℤ → Dag → ℤ
new_mark a wms d = elim (lookup a wms) [ none ↦ mark a d | some wm ↦ wm ]

new_mark-none :
    (a : NodeId) (wms : Map NodeId ℤ) (d : Dag) → lookup a wms ≡ none → new_mark a wms d ≡ mark a d
unfolding new_mark
new_mark-none a wms d h = ground arith

new_mark-some :
    (a : NodeId) (wms : Map NodeId ℤ) (d : Dag) (wm : ℤ)
    → lookup a wms ≡ some wm
    → new_mark a wms d ≡ wm
unfolding new_mark
new_mark-some a wms d wm h = ground arith

lookup-contains :
    (a : NodeId) (wms : Map NodeId ℤ) → lookup a wms ≡ none → contains a (authors wms) ≡ false
unfolding lookup
lookup-contains a [] h = refl
lookup-contains a ((k, v) ∷ wms) h = ground (arith, lookup-contains a wms)

pub clean_lines-uncommitted :
    (wms : Map NodeId ℤ) (d d' : Dag) → clean_lines wms d ≡ ok d' → d'.uncommitted ≡ d.uncommitted
unfolding clean_lines
clean_lines-uncommitted [] d d' c = let same : d' ≡ d = cc in ap (λ (x : Dag). x.uncommitted) same
clean_lines-uncommitted ((a, wm) ∷ wms) d d' c =
    let (d₁, first, rest) = >>=-eq-ok (clean_line a wm d) (λ (x : Dag). clean_lines wms x) c in
    let (_, _, _, same, _) = clean_line-cases a wm d d₁ first in
    clean_lines-uncommitted wms d₁ d' rest ∙ ap (λ (x : Dag). x.uncommitted) same

get-cleaned : (a : NodeId) (h : ℤ) (pc : CommitReq) (d : Dag) → get a h (cleaned pc d) ≡ get a h d
unfolding get
get-cleaned a h pc d = get_at-row (h -ℤ mark a d -ℤ pos 1) a (cleaned pc d) d refl

clean_lines-author :
    (wms : Map NodeId ℤ) (a : NodeId) (h : ℤ) (d d' : Dag)
    → IsWellFormed d
    → AreSmall wms
    → Distinct (authors wms)
    → mark a d ≤ℤ new_mark a wms d
    → IsSmall h
    → new_mark a wms d <ℤ h
    → clean_lines wms d ≡ ok d'
    → (mark a d' ≡ new_mark a wms d) × (get a h d' ≡ get a h d)
clean_lines-author wms a h d d' w sw dist up sh above c = elim (Option-cases (lookup a wms)) [
  | inl unlisted ↦
      let (m, g) = clean_lines-other wms a h d d' c (lookup-contains a wms unlisted) in
      (m ∙ sym (new_mark-none a wms d unlisted), g)
  | inr (wm, listed) ↦
      let is_wm : new_mark a wms d ≡ wm = new_mark-some a wms d wm listed in
      let (m, g) =
        clean_lines-listed wms a wm h d d' w sw sh dist listed (rw is_wm at up) (rw is_wm at above)
          c in
      (m ∙ sym is_wm, g)
]

-- In a well-formed DAG with a pending commit, with new watermarks in range, one for each author listed:
-- a cleaning that ends without a fault and does not lower a watermark moves each listed author's watermark to the new value and no
-- other; what stands above an author's new watermark is read as before; the round of the pending
-- commit becomes the last committed one; the leaders up to it are gone and the later ones stay; and
-- no pull is registered any more.
pub clean_lem :
    (req : GcReq) (d d' : Dag) (out : List Sent) (pc : CommitReq) (a : NodeId) (h r : ℤ)
    → IsWellFormed d
    → AreSmall req.new_watermark
    → Distinct (authors req.new_watermark)
    → d.pending_commit ≡ some pc
    → mark a d ≤ℤ new_mark a req.new_watermark d
    → IsSmall h
    → new_mark a req.new_watermark d <ℤ h
    → handle_clean_req req d ≡ ok (d', out)
    → (out ≡ [])
      × (mark a d' ≡ new_mark a req.new_watermark d)
      × (get a h d' ≡ get a h d)
      × (d'.commit_mark ≡ pc.round)
      × (lookup r d'.uncommitted ≡ (if leb_ℤ r pc.round then none else lookup r d.uncommitted))
      × (d'.pending ≡ [])
unfolding handle_clean_req
clean_lem req d d' out pc a h r w sw dist pend up sh above c =
    let (pc', there, rest) = >>=-eq-ok (or_panic nil_pointer d.pending_commit) _ c in
    let (d₁, cut_off, done) = >>=-eq-ok (clean_lines req.new_watermark d) _ rest in
    let is_pc : pc' ≡ pc = cc (or_panic-eq-ok nil_pointer d.pending_commit there, pend) in
    let same : d' ≡ cleaned pc d₁ = cc in
    let (m, g) = clean_lines-author req.new_watermark a h d d₁ w sw dist up sh above cut_off in
    (
      cc,
      ap (mark a) same ∙ m,
      ap (get a h) same ∙ get-cleaned a h pc d₁ ∙ g,
      ap (λ (x : Dag). x.commit_mark) same,
      ap (λ (x : Dag). lookup r x.uncommitted) same
          ∙ lookup-delete_if (λ k. leb_ℤ k pc.round) r d₁.uncommitted
          ∙ ap (λ m. if leb_ℤ r pc.round then none else lookup r m)
              (clean_lines-uncommitted req.new_watermark d d₁ cut_off),
      ap (λ (x : Dag). x.pending) same,
    )
