-- ===== src/Dag/Cleaning.antt =====
-- `handleCleanReq` of core/dag.go: the cut of the lines, and that it keeps the invariant.
use loom.Committee.{NodeId}
use loom.Message.{GcReq}
use loom.Dag.{Line, Dag, Sent, line, set_line, mark, at, join}
use loom.Dag.Handlers.{cleaned, handle_clean_req, clean_line, clean_lines, cut}
use loom.Dag.Lines.{drop-EndsInBlock, cut-eq-ok}
use loom.Prelude.{
  ℕ, ◌+◌, ◌≤◌, ◌≡◌, refl, sym, ap, ◌∙◌, ◌⊎◌, inl, inr, List, [], ◌∷◌, arith, eqb, if◌then◌else◌,
  length, All, drop, get_elem?-drop,
}
use loom.Prelude.Int.{ℤ, pos, pos_part, neg_part, ◌-ℤ◌, IsSmall, -ℤ_parts, offset_pos}
use loom.Prelude.Eq.{nat_eq, int_eq, string_eq, list_eq, ==-refl, ==-false}
use loom.Prelude.Result.{ok, nil_pointer, or_panic, >>=-eq-ok}
use loom.Prelude.Map.{Map, insert, get_or, get_or-insert}
use loom.Dag.Invariant.{IsWellFormed, store-IsStored}

trim-cases :
    (z : ℤ) (l l' : Line)
    → (if eqb (length l) 0 then ok l else cut z l) ≡ ok l'
    → ((l ≡ []) × (l' ≡ [])) ⊎ ((n : ℕ) × (z ≡ pos n) × (n ≤ length l) × (l' ≡ drop n l))
trim-cases z [] l' h = inl (refl, cc)
trim-cases z (x ∷ l) l' h = inr (cut-eq-ok z (x ∷ l) l' (ground arith))

-- One turn of a cleaning: the line is empty, or loses the blocks up to its new watermark.
pub clean_line-cases :
    (a : NodeId) (wm : ℤ) (d d' : Dag)
    → clean_line a wm d ≡ ok d'
    → (l : Line) × (l' : Line) × (line a d ≡ ok l)
      × (d' ≡ record (set_line a l' d) { cache_mark = insert a wm d.cache_mark })
      × (((l ≡ []) × (l' ≡ []))
          ⊎ ((n : ℕ) × (wm -ℤ mark a d ≡ pos n) × (n ≤ length l) × (l' ≡ drop n l)))
unfolding clean_line
clean_line-cases a wm d d' h =
    let (l, found, h₁) = >>=-eq-ok (line a d) _ h in
    let (l', kept, h₂) =
      >>=-eq-ok (if eqb (length l) 0 then ok l else cut (wm -ℤ mark a d) l) _ h₁ in
    (l, l', found, cc, trim-cases (wm -ℤ mark a d) l l' kept)

-- A block n places above the old watermark is at the place that the new watermark gives it.
shift_index :
    (h m wm : ℤ) (n i : ℕ)
    → IsSmall h
    → IsSmall m
    → IsSmall wm
    → wm -ℤ m ≡ pos n
    → h -ℤ m -ℤ pos 1 ≡ pos (n + i)
    → h -ℤ wm -ℤ pos 1 ≡ pos i
shift_index h m wm n i sh sm sw e k =
    let far = (offset_pos h m (n + i) sh sm).0 k in
    (offset_pos h wm i sh sw).1 (omega (arith, far, -ℤ_parts wm m, ap pos_part e, ap neg_part e))

pub clean_line-IsWellFormed :
    (a : NodeId) (wm : ℤ) (d d' : Dag)
    → IsSmall wm
    → IsWellFormed d
    → clean_line a wm d ≡ ok d'
    → IsWellFormed d'
clean_line-IsWellFormed a wm d d' small w h =
    let (l, l', found, same, kind) = clean_line-cases a wm d d' h in
    let own : get_or a (insert a wm d.cache_mark) (pos 0) ≡ wm =
      get_or-insert a a wm (pos 0) d.cache_mark ∙ rw (==-refl a) refl in
    rw same (
      store-IsStored d.committee d.cache d.cache_mark (insert a wm d.cache_mark) a l l' w found
        (rw own small)
        (λ b ne. get_or-insert a b wm (pos 0) d.cache_mark ∙ rw (==-false a b ne) refl)
        (elim kind [
          | inl (_, empty) ↦ inl empty
          | inr (n, _, _, cut_off) ↦ rw cut_off (drop-EndsInBlock n l (w.ends a l found))
        ])
        (λ i b k. elim kind [
          | inl (_, empty) ↦ absurd (cc (k, empty))
          | inr (n, e, _, cut_off) ↦
              let old = w.placed a l (n + i) b found (
                sym (ap join (get_elem?-drop n i (n + i) l refl))
                ∙ sym (ap (λ (x : Line). at x i) cut_off)
                ∙ k) in
              (
                old.0,
                old.1,
                rw own (
                    shift_index b.header.slot.height (mark a d) wm n i old.1 (w.small a) small e
                      old.2),
              )
        ]))

-- The watermarks of a cleaning.
abbrev pub AreSmall : Map NodeId ℤ → Type 0
AreSmall = All (λ entry. IsSmall entry.1)

pub clean_lines-IsWellFormed :
    (wms : Map NodeId ℤ) (d d' : Dag)
    → AreSmall wms
    → IsWellFormed d
    → clean_lines wms d ≡ ok d'
    → IsWellFormed d'
unfolding clean_lines
clean_lines-IsWellFormed [] d d' small w h = let same : d ≡ d' = cc in rw (← same) w
clean_lines-IsWellFormed ((a, wm) ∷ wms) d d' small w h =
    let (d₁, first, rest) = >>=-eq-ok (clean_line a wm d) (λ (x : Dag). clean_lines wms x) h in
    clean_lines-IsWellFormed wms d₁ d' small.1 (clean_line-IsWellFormed a wm d d₁ small.0 w first)
      rest

pub clean-IsWellFormed :
    (req : GcReq) (d d' : Dag) (out : List Sent)
    → AreSmall req.new_watermark
    → IsWellFormed d
    → handle_clean_req req d ≡ ok (d', out)
    → IsWellFormed d'
unfolding handle_clean_req
clean-IsWellFormed req d d' out small w h =
    let (pc, _, h₁) = >>=-eq-ok (or_panic nil_pointer d.pending_commit) _ h in
    let (d₁, cleaned_lines, h₂) = >>=-eq-ok (clean_lines req.new_watermark d) _ h₁ in
    let same : d' ≡ cleaned pc d₁ = cc in
    rw same (clean_lines-IsWellFormed req.new_watermark d d₁ small w cleaned_lines)
