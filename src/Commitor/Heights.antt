-- ===== src/Commitor/Heights.antt =====
-- The watermarks that `commit2` of core/commitor.go asks the DAG to clean up to.
use mathlib.Core.Path.{subst}
use loom.Committee.{NodeId}
use loom.Message.{Slot, Block, slot_eq}
use loom.Commitor.{watermarks}
use loom.Commitor.Ordering.{slots}
use loom.Prelude.{
  ◌≡◌, refl, sym, ap, ◌∙◌, ◌⊎◌, inl, inr, true, some, none, arith, Bool-cases, Option-cases,
  if◌then◌else◌, Bool, [], ◌∷◌,
}
use loom.Prelude.Int.{ℤ, ltb_ℤ, ◌≤ℤ◌, ◌<ℤ◌}
use loom.Prelude.Eq.{nat_eq, int_eq, string_eq, list_eq, ==-refl, ==-false, ==-cases}
use loom.Prelude.Map.{Map, lookup, insert, lookup-insert}
use loom.Prelude.Distinct.{contains}

-- The author has a watermark of at least the height h.
abbrev pub IsCovered : Map NodeId ℤ → NodeId → ℤ → Type 0
IsCovered wm author h = (top : ℤ) × (lookup author wm ≡ some top) × (h ≤ℤ top)

-- Each author's watermark is the highest of its heights that were pulled.
pub record AreWatermarks (pulled : Map Slot Block) (wm : Map NodeId ℤ) : Type 0 where
  pub covers : (s : Slot) → contains s (slots pulled) ≡ true → IsCovered wm s.author s.height
  pub own :
      (author : NodeId) (h : ℤ)
      → lookup author wm ≡ some h
      → (s : Slot) × (contains s (slots pulled) ≡ true) × (s.author ≡ author) × (s.height ≡ h)

-- The watermarks with one more slot.
raised : Slot → Map NodeId ℤ → Map NodeId ℤ
raised s wm =
    let higher : Bool = elim (lookup s.author wm) [ none ↦ true | some h ↦ ltb_ℤ h s.height ] in
    if higher then insert s.author s.height wm else wm

raised-cases :
    (s : Slot) (wm : Map NodeId ℤ)
    → ((raised s wm ≡ insert s.author s.height wm)
        × ((old : ℤ) → lookup s.author wm ≡ some old → old <ℤ s.height))
      ⊎ ((raised s wm ≡ wm) × IsCovered wm s.author s.height)
unfolding raised
raised-cases s wm = elim (Option-cases (lookup s.author wm)) [
  | inl none_there ↦ inl (rw none_there refl, λ old there. cc (none_there, there))
  | inr (h, there) ↦ elim (Bool-cases (ltb_ℤ h s.height)) [
    | inl lower ↦ inl (
      rw (there, lower) refl,
      λ old there_old. let same : h ≡ old = cc in subst (λ y. y <ℤ s.height) same (ground arith),
    )
    | inr high ↦ inr (rw (there, high) refl, (h, there, ground arith))
  ]
]

raised-covers : (s : Slot) (wm : Map NodeId ℤ) → IsCovered (raised s wm) s.author s.height
raised-covers s wm = elim (raised-cases s wm) [
  | inl (put, _) ↦
      subst (λ m. IsCovered m s.author s.height) (sym put)
        (
          s.height,
          lookup-insert s.author s.author s.height wm ∙ rw (==-refl s.author) refl,
          omega arith,
        )
  | inr (same, there) ↦ subst (λ m. IsCovered m s.author s.height) (sym same) there
]

raised-keeps :
    (s : Slot) (wm : Map NodeId ℤ) (author : NodeId) (h : ℤ)
    → IsCovered wm author h
    → IsCovered (raised s wm) author h
raised-keeps s wm author h (top, there, le) = elim (raised-cases s wm) [
  | inr (same, _) ↦ subst (λ m. IsCovered m author h) (sym same) (top, there, le)
  | inl (put, above) ↦
      subst (λ m. IsCovered m author h) (sym put)
        (elim (==-cases s.author author) [
          | inl mine ↦
              let lower = above top (ap (λ i. lookup i wm) mine ∙ there) in
              (
                s.height,
                lookup-insert s.author author s.height wm
                    ∙ rw ((int_eq.same_iff s.author author).1 mine) refl,
                omega (arith, lower, le),
              )
          | inr other ↦ (
            top,
            lookup-insert s.author author s.height wm ∙ rw (==-false s.author author other) there,
            le,
          )
        ])
]

raised-own :
    (s : Slot) (wm : Map NodeId ℤ) (author : NodeId) (h : ℤ)
    → lookup author (raised s wm) ≡ some h
    → (lookup author wm ≡ some h) ⊎ ((s.author ≡ author) × (s.height ≡ h))
raised-own s wm author h there = elim (raised-cases s wm) [
  | inr (same, _) ↦ inl (ap (lookup author) (sym same) ∙ there)
  | inl (put, _) ↦
      let found =
        sym (lookup-insert s.author author s.height wm) ∙ ap (lookup author) (sym put) ∙ there in
      elim (==-cases s.author author) [
        | inl mine ↦
            let is_h : s.height ≡ h = cc (rw ((int_eq.same_iff s.author author).1 mine) at found) in
            inr (mine, is_h)
        | inr other ↦ inl (rw (==-false s.author author other) at found)
      ]
]

watermarks-cons :
    (s : Slot) (b : Block) (m : Map Slot Block) (wm : Map NodeId ℤ)
    → watermarks ((s, b) ∷ m) wm ≡ watermarks m (raised s wm)
unfolding watermarks raised
watermarks-cons s b m wm = refl

watermarks-keeps :
    (m : Map Slot Block) (wm : Map NodeId ℤ) (author : NodeId) (h : ℤ)
    → IsCovered wm author h
    → IsCovered (watermarks m wm) author h
watermarks-keeps [] wm author h there = unfold watermarks in there
watermarks-keeps ((s, b) ∷ m) wm author h there =
    subst (λ x. IsCovered x author h) (sym (watermarks-cons s b m wm))
      (watermarks-keeps m (raised s wm) author h (raised-keeps s wm author h there))

watermarks-covers :
    (m : Map Slot Block) (wm : Map NodeId ℤ) (s : Slot)
    → contains s (slots m) ≡ true
    → IsCovered (watermarks m wm) s.author s.height
watermarks-covers [] wm s listed = absurd (cc)
watermarks-covers ((k, b) ∷ m) wm s listed =
    subst (λ x. IsCovered x s.author s.height) (sym (watermarks-cons k b m wm))
      (elim (==-cases k s) [
        | inl same ↦ watermarks-keeps m (raised k wm) s.author s.height (
            subst (λ (y : Slot). IsCovered (raised k wm) y.author y.height) same
              (raised-covers k wm))
        | inr other ↦ watermarks-covers m (raised k wm) s (rw (==-false k s other) at listed)
      ])

watermarks-own :
    (m : Map Slot Block) (wm : Map NodeId ℤ) (author : NodeId) (h : ℤ)
    → lookup author (watermarks m wm) ≡ some h
    → (lookup author wm ≡ some h)
      ⊎ ((s : Slot) × (contains s (slots m) ≡ true) × (s.author ≡ author) × (s.height ≡ h))
watermarks-own [] wm author h there = inl (unfold watermarks in there)
watermarks-own ((k, b) ∷ m) wm author h there =
    elim (watermarks-own m (raised k wm) author h
      (ap (lookup author) (sym (watermarks-cons k b m wm)) ∙ there)) [
        | inr (s, listed, mine, is_h) ↦ inr (s, ground arith, mine, is_h)
        | inl before ↦ elim (raised-own k wm author h before) [
          | inl old ↦ inl old
          | inr (mine, is_h) ↦ inr (k, rw (==-refl k) refl, mine, is_h)
        ]
      ]

pub watermarks-AreWatermarks :
    (pulled : Map Slot Block) → AreWatermarks pulled (watermarks pulled [])
watermarks-AreWatermarks pulled = record {
  covers = watermarks-covers pulled [];
  own = λ author h there. elim (watermarks-own pulled [] author h there) [
    | inl old ↦ absurd (unfold lookup in cc (old))
    | inr found ↦ found
  ];
}
