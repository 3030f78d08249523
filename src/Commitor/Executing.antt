-- ===== src/Commitor/Executing.antt =====
-- Step 2 of `commit2` in core/commitor.go: what the anchors execute, one after the other.
use mathlib.Core.List.{map-append}
use mathlib.Core.Path.{ap₂, subst}
use loom.Message.{Slot, Block, slot_eq}
use loom.Commitor.{
  sort, zero_slot, exec_all, commit_less, walk_pulled, total_refs, commit_anchor, commit_anchors,
}
use loom.Commitor.Walk.{Reach, here, next}
use loom.Commitor.Ordering.{slots, in_pulled, commit_anchor_lem}
use loom.Prelude.{
  suc, ◌≡◌, refl, sym, ap, ◌∙◌, ◌⊎◌, ◌↔◌, ◌||◌, Bool, if◌then◌else◌, inl, inr, true, false, Option,
  none, some, List, [], ◌∷◌, ◌++◌, map, arith, Bool-cases, Option-cases,
}
use loom.Prelude.Int.{ℤ}
use loom.Prelude.Eq.{◌==◌, nat_eq, int_eq, string_eq, list_eq, ==-refl, ==-false, ==-cases}
use loom.Prelude.Map.{Map, delete, get_or, lookup}
use loom.Prelude.Distinct.{contains, Distinct, Distinct-append, contains-append}

slots-delete :
    (x s : Slot) (m : Map Slot Block)
    → contains s (slots m) ≡ false
    → contains s (slots (delete x m)) ≡ false
unfolding delete
slots-delete x s [] h = refl
slots-delete x s ((k, b) ∷ m) h = ground (arith, slots-delete x s m)

delete-Distinct :
    (x : Slot) (m : Map Slot Block) → Distinct (slots m) → Distinct (slots (delete x m))
unfolding delete
delete-Distinct x [] d = tt
delete-Distinct x ((k, b) ∷ m) d = elim (Bool-cases (k == x)) [
  | inl t ↦ rw t (delete-Distinct x m d.1)
  | inr f ↦ rw f (slots-delete x k m d.0, delete-Distinct x m d.1)
]

exec_all-Distinct :
    (order : List Slot) (m : Map Slot Block)
    → Distinct (slots m)
    → Distinct (slots (exec_all order m).1)
unfolding exec_all
exec_all-Distinct [] m d = d
exec_all-Distinct (x ∷ xs) m d = exec_all-Distinct xs (delete x m) (delete-Distinct x m d)

-- What `commitAnchor` leaves has no slot twice either.
commit_anchor-Distinct :
    (anchor : Slot) (pulled left : Map Slot Block) (executed : List Block)
    → Distinct (slots pulled)
    → commit_anchor anchor pulled ≡ some (executed, left)
    → Distinct (slots left)
unfolding commit_anchor
commit_anchor-Distinct anchor pulled left executed d h =
    elim (Option-cases (walk_pulled (suc (total_refs pulled)) (anchor ∷ []) [] pulled)) [
      | inl none_there ↦ absurd (ground arith)
      | inr (found, ends) ↦
          let order = sort (commit_less anchor.author) found in
          let same : (exec_all order pulled).1 ≡ left = ground arith in
          rw (← same) (exec_all-Distinct order pulled d)
    ]

-- The blocks are those of the slots of a list without a repetition.
abbrev pub AreBlocksOf : (Slot → Option Block) → List Slot → List Block → Type 0
AreBlocksOf f order executed = Distinct order × (map f order ≡ map some executed)

pub map-held :
    (f : Slot → Option Block) (order : List Slot) (executed : List Block) (s : Slot)
    → map f order ≡ map some executed
    → contains s order ≡ true
    → (b : Block) × (f s ≡ some b)
map-held f [] executed s h k = absurd (cc)
map-held f (x ∷ xs) [] s h k = absurd (cc)
map-held f (x ∷ xs) (b ∷ bs) s h k = elim (==-cases x s) [
  | inl same ↦ (b, cc (h, ap f same))
  | inr ne ↦ map-held f xs bs s (cc (h)) (ground (arith, ==-false x s ne))
]

pub map-agree :
    (f g : Slot → Option Block) (order : List Slot)
    → ((s : Slot) → contains s order ≡ true → f s ≡ g s)
    → map f order ≡ map g order
map-agree f g [] h = refl
map-agree f g (x ∷ xs) h =
    ap₂ (λ (o : Option Block) (os : List (Option Block)). o ∷ os) (h x (rw (==-refl x) refl))
      (map-agree f g xs (λ s k. h s (ground arith)))

commit_anchors-cons :
    (r : ℤ) (rs : List ℤ) (anchors : Map ℤ Slot) (pulled left left' : Map Slot Block)
    (executed executed' : List Block)
    → commit_anchor (get_or r anchors zero_slot) pulled ≡ some (executed, left)
    → commit_anchors rs anchors left ≡ some (executed', left')
    → commit_anchors (r ∷ rs) anchors pulled ≡ some (executed ++ executed', left')
unfolding commit_anchors
commit_anchors-cons r rs anchors pulled left left' executed executed' h k = ground arith

or_right : (a : Bool) {b : Bool} → b ≡ true → (a || b) ≡ true
or_right a h = ground arith

-- The slots that the anchors of the rounds reach over the pulled blocks.
abbrev pub IsCommitted : List ℤ → Map ℤ Slot → Map Slot Block → Slot → Type 0
IsCommitted rounds anchors pulled s =
    (r : ℤ) × (contains r rounds ≡ true) × Reach (in_pulled pulled) (get_or r anchors zero_slot) s

-- What one anchor leaves behind.
abbrev Leaves : Map Slot Block → List Slot → Map Slot Block → Type 0
Leaves pulled order left =
    (s : Slot) → lookup s left ≡ (if contains s order then none else lookup s pulled)

left-pulled :
    (pulled left : Map Slot Block) (order : List Slot) (s : Slot) (b : Block)
    → Leaves pulled order left
    → lookup s left ≡ some b
    → (contains s order ≡ false) × (lookup s pulled ≡ some b)
left-pulled pulled left order s b gone h = elim (Bool-cases (contains s order)) [
  | inl taken ↦
      let nothing : lookup s left ≡ none = gone s ∙ rw taken refl in absurd (cc (nothing, h))
  | inr stays ↦
      let same : lookup s left ≡ lookup s pulled = gone s ∙ rw stays refl in (stays, sym same ∙ h)
]

stays-left :
    (pulled left : Map Slot Block) (order : List Slot) (s : Slot) (b : Block)
    → Leaves pulled order left
    → contains s order ≡ false
    → lookup s pulled ≡ some b
    → lookup s left ≡ some b
stays-left pulled left order s b gone stays h = gone s ∙ rw stays h

-- A later anchor reaches over what is left no more than over what was pulled,
Reach-pulled :
    (pulled left : Map Slot Block) (order : List Slot) (t s : Slot)
    → Leaves pulled order left
    → Reach (in_pulled left) t s
    → Reach (in_pulled pulled) t s
Reach-pulled pulled left order t s gone (here {b} e) =
    here {b = b} ((left-pulled pulled left order t b gone e).1)
Reach-pulled pulled left order t s gone (next {s = u} {b = b} {c = c} g e k h) =
    next {b = b} {c = c} (Reach-pulled pulled left order t u gone g)
      ((left-pulled pulled left order u b gone e).1) k
      ((left-pulled pulled left order s c gone h).1)

-- and what it reaches over the pulled blocks was executed before or is still reached.
Reach-left :
    (pulled left : Map Slot Block) (order : List Slot) (anchor t s : Slot)
    → Leaves pulled order left
    → ((u : Slot) → (contains u order ≡ true) ↔ Reach (in_pulled pulled) anchor u)
    → Reach (in_pulled pulled) t s
    → (contains s order ≡ true) ⊎ Reach (in_pulled left) t s
Reach-left pulled left order anchor t s gone reach (here {b} e) =
    elim (Bool-cases (contains s order)) [
      | inl taken ↦ inl taken
      | inr stays ↦ inr (here {b = b} (stays-left pulled left order t b gone stays e))
    ]
Reach-left pulled left order anchor t s gone reach (next {s = u} {b = b} {c = c} g e k h) =
    elim (Bool-cases (contains s order)) [
      | inl taken ↦ inl taken
      | inr stays ↦ elim (Bool-cases (contains u order)) [
        | inl before ↦ inl ((reach s).1 (next {b = b} {c = c} ((reach u).0 before) e k h))
        | inr still ↦ elim (Reach-left pulled left order anchor t u gone reach g) [
          | inl before ↦ absurd (cc (before, still))
          | inr later ↦ inr (
              next {b = b} {c = c} later (stays-left pulled left order u b gone still e) k
                (stays-left pulled left order s c gone stays h))
        ]
      ]
    ]

-- One anchor, and then the others over what it leaves.
IsCommitted-cons :
    (r : ℤ) (rs : List ℤ) (anchors : Map ℤ Slot) (pulled left : Map Slot Block)
    (order order' : List Slot)
    → Leaves pulled order left
    → ((u : Slot)
        → (contains u order ≡ true) ↔ Reach (in_pulled pulled) (get_or r anchors zero_slot) u)
    → ((u : Slot) → (contains u order' ≡ true) ↔ IsCommitted rs anchors left u)
    → (s : Slot) → (contains s (order ++ order') ≡ true) ↔ IsCommitted (r ∷ rs) anchors pulled s
IsCommitted-cons r rs anchors pulled left order order' gone reach later s = (
  λ both. elim (Bool-cases (contains s order)) [
    | inl first ↦ (r, rw (==-refl r) refl, (reach s).0 first)
    | inr not_first ↦
        let second : contains s order' ≡ true = ground (arith, contains-append s order order') in
        let (r', listed, g) = (later s).0 second in
        (r', ground arith, Reach-pulled pulled left order (get_or r' anchors zero_slot) s gone g)
  ],
  λ (r', listed, g). contains-append s order order' ∙ elim (==-cases r r') [
    | inl same ↦
        let first : contains s order ≡ true =
          (reach s).1
            (subst (λ i. Reach (in_pulled pulled) (get_or i anchors zero_slot) s) (sym same) g) in
        rw first refl
    | inr other ↦
        let in_rs : contains r' rs ≡ true = ground (arith, ==-false r r' other) in
        elim (Reach-left pulled left order (get_or r anchors zero_slot)
          (get_or r' anchors zero_slot) s gone reach g) [
            | inl first ↦ rw first refl
            | inr still ↦ or_right (contains s order) ((later s).1 (r', in_rs, still))
          ]
  ],
)

-- `commit_anchors` executes, each once, the slots that the anchors reach.
pub commit_anchors-AreBlocksOf :
    (rounds : List ℤ) (anchors : Map ℤ Slot) (pulled : Map Slot Block)
    → Distinct (slots pulled)
    → (executed : List Block) × (left : Map Slot Block) × (order : List Slot) × (commit_anchors
          rounds anchors pulled
        ≡ some (executed, left))
      × AreBlocksOf (in_pulled pulled) order executed
      × ((s : Slot) → (contains s order ≡ true) ↔ IsCommitted rounds anchors pulled s)
unfolding commit_anchors
commit_anchors-AreBlocksOf [] anchors pulled d =
    ([], pulled, [], refl, (tt, refl), λ s. (λ h. absurd (cc), λ (r, h, g). absurd (cc)))
commit_anchors-AreBlocksOf (r ∷ rs) anchors pulled d =
    let anchor = get_or r anchors zero_slot in
    let (order, executed, left, done, blocks, apart, reach, _, gone) =
      commit_anchor_lem anchor pulled d in
    let (executed', left', order', done', (apart', blocks'), later) =
      commit_anchors-AreBlocksOf rs anchors left
        (commit_anchor-Distinct anchor pulled left executed d done) in
    let fresh = λ (s : Slot) (k : contains s order' ≡ true).
      let (b, held) = map-held (in_pulled left) order' executed' s blocks' k in
      let new : contains s order ≡ false = elim (Bool-cases (contains s order)) [
        | inl old ↦ absurd (ground (arith, gone s))
        | inr new ↦ new
      ] in
      new in
    (
      executed ++ executed',
      left',
      order ++ order',
      commit_anchors-cons r rs anchors pulled left left' executed executed' done done',
      (
        Distinct-append order order' apart apart' (λ s k. elim (Bool-cases (contains s order')) [
          | inl both ↦ absurd (cc (fresh s both, k))
          | inr new ↦ new
        ]),
        map-append (in_pulled pulled) order order'
            ∙ ap₂ (λ (x y : List (Option Block)). x ++ y) blocks
                (map-agree (in_pulled pulled) (in_pulled left) order'
                    (λ s k. sym (gone s ∙ rw (fresh s k) refl))
                  ∙ blocks')
            ∙ sym (map-append (λ (b : Block). some b) executed executed'),
      ),
      IsCommitted-cons r rs anchors pulled left order order' gone reach later,
    )
