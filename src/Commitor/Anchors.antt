-- ===== src/Commitor/Anchors.antt =====
-- The map `anchors` of step 1 of `commit2` in core/commitor.go.
use mathlib.Core.Path.{subst}
use loom.Committee.{NodeId}
use loom.Message.{Slot, Block, slot_eq}
use loom.Commitor.{World, Pulling, update_anchor, pull_turn, pull_loop, done, ref_slots}
use loom.Commitor.Pulls.{
  answer-cases, pull_loop-turn, pull_turn-pulled, pull_turn-nil, pull_turn-never, pull_turn-new,
  state,
}
use loom.Prelude.{
  ◌≡◌, refl, sym, ap, ◌∙◌, ◌⊎◌, inl, inr, true, false, some, none, arith, Bool-cases, Option-cases,
  if◌then◌else◌, Bool, ◌&&◌, Option, ◌≢◌, ℕ, zero, suc, List, [], ◌∷◌, ◌++◌,
}
use loom.Prelude.Int.{ℤ, pos, ltb_ℤ, leb_ℤ, ◌≤ℤ◌, ◌<ℤ◌, ◌-ℤ◌}
use loom.Prelude.Eq.{◌==◌, nat_eq, int_eq, string_eq, list_eq, ==-refl, ==-false, ==-cases}
use loom.Prelude.Map.{Map, lookup, insert, lookup-insert}

-- The block of a leader that is not committed, one height or more into its round.
abbrev pub IsSafe : Map ℤ NodeId → Block → Type 0
IsSafe leaders b =
    (lookup b.header.round leaders ≡ some b.header.slot.author)
    × (pos 1 ≤ℤ (b.header.slot.height -ℤ b.header.first_ref_h))

-- A round of the anchors with at least the height h.
abbrev pub HasAnchor : Map ℤ Slot → ℤ → ℤ → Type 0
HasAnchor anchors r h = (t : Slot) × (lookup r anchors ≡ some t) × (h ≤ℤ t.height)

-- The anchors are the highest safe blocks pulled, and for the round submitted the slot submitted, if it
-- has no higher one.
pub record AreHighest (w : World) (round : ℤ) (a : Slot) (pulled : Map Slot Block)
    (anchors : Map ℤ Slot) : Type 0 where
  pub submitted : HasAnchor anchors round a.height
  pub highest :
      (s : Slot) (b : Block)
      → lookup s pulled ≡ some b
      → IsSafe (w.uncommitted s) b
      → HasAnchor anchors b.header.round b.header.slot.height
  pub own :
      (r : ℤ) (t : Slot)
      → lookup r anchors ≡ some t
      → ((r ≡ round) × (t ≡ a))
        ⊎ ((s : Slot) × (b : Block) × (lookup s pulled ≡ some b)
            × IsSafe (w.uncommitted s) b
            × (b.header.round ≡ r)
            × (b.header.slot ≡ t))

higher_test : Block → Map ℤ Slot → Bool
higher_test b anchors = elim (lookup b.header.round anchors) [
  | none ↦ true
  | some old ↦ ltb_ℤ old.height b.header.slot.height
]

safe_test : (leaders : Map ℤ NodeId) (b : Block) → Bool
safe_test leaders b =
    let is_leader : Bool = elim (lookup b.header.round leaders) [
      | none ↦ false
      | some leader ↦ b.header.slot.author == leader
    ] in
    is_leader && leb_ℤ (pos 1) (b.header.slot.height -ℤ b.header.first_ref_h)

safe_test-cases :
    (leaders : Map ℤ NodeId) (b : Block)
    → (IsSafe leaders b × (safe_test leaders b ≡ true))
      ⊎ ((¬ IsSafe leaders b) × (safe_test leaders b ≡ false))
unfolding safe_test
safe_test-cases leaders b = elim (Option-cases (lookup b.header.round leaders)) [
  | inl none_there ↦ inr (λ safe. cc (none_there, safe.0), rw none_there refl)
  | inr (leader, there) ↦ elim (==-cases b.header.slot.author leader) [
    | inr other ↦ inr (
      λ safe.
          let same : leader ≡ b.header.slot.author = cc (there, safe.0) in
          absurd (other (sym same)),
      rw (there, ==-false b.header.slot.author leader other) refl,
    )
    | inl same ↦
        let is_leader : (b.header.slot.author == leader) ≡ true =
          (int_eq.same_iff b.header.slot.author leader).1 same in
        let listed : lookup b.header.round leaders ≡ some b.header.slot.author =
          there ∙ ap some (sym same) in
        let d = b.header.slot.height -ℤ b.header.first_ref_h in
        elim (Bool-cases (leb_ℤ (pos 1) d)) [
          | inl deep ↦ inl ((listed, ground arith), rw (there, is_leader, deep) refl)
          | inr low ↦ inr (λ safe. ground (arith, safe.1), rw (there, is_leader, low) refl)
        ]
  ]
]

update_anchor-test :
    (leaders : Map ℤ NodeId) (b : Block) (anchors : Map ℤ Slot)
    → update_anchor leaders b anchors ≡ (
        if safe_test leaders b && higher_test b anchors
        then insert b.header.round b.header.slot anchors
        else anchors)
unfolding update_anchor safe_test higher_test
update_anchor-test leaders b anchors = ground arith

higher_test-cases :
    (b : Block) (anchors : Map ℤ Slot)
    → ((higher_test b anchors ≡ true)
        × ((old : Slot)
            → lookup b.header.round anchors ≡ some old
            → old.height <ℤ b.header.slot.height))
      ⊎ ((higher_test b anchors ≡ false) × HasAnchor anchors b.header.round b.header.slot.height)
unfolding higher_test
higher_test-cases b anchors = elim (Option-cases (lookup b.header.round anchors)) [
  | inl none_there ↦ inl (rw (higher_test, none_there) refl, λ old there. cc (none_there, there))
  | inr (old, there) ↦ elim (Bool-cases (ltb_ℤ old.height b.header.slot.height)) [
    | inl lower ↦ inl (
      rw (higher_test, there, lower) refl,
      λ o there_o.
          let same : old ≡ o = cc in
          subst (λ (y : Slot). y.height <ℤ b.header.slot.height) same (ground arith),
    )
    | inr high ↦ inr (rw (higher_test, there, high) refl, (old, there, ground arith))
  ]
]

update_anchor-cases :
    (leaders : Map ℤ NodeId) (b : Block) (anchors : Map ℤ Slot)
    → (IsSafe leaders b
        × (update_anchor leaders b anchors ≡ insert b.header.round b.header.slot anchors)
        × ((old : Slot)
            → lookup b.header.round anchors ≡ some old
            → old.height <ℤ b.header.slot.height))
      ⊎ ((update_anchor leaders b anchors ≡ anchors)
          × (IsSafe leaders b → HasAnchor anchors b.header.round b.header.slot.height))
update_anchor-cases leaders b anchors =
    let test = update_anchor-test leaders b anchors in
    elim (safe_test-cases leaders b) [
      | inr (bad, no_test) ↦ inr (test ∙ rw no_test refl, λ safe. absurd (bad safe))
      | inl (safe, yes_test) ↦ elim (higher_test-cases b anchors) [
        | inl (high, above) ↦ inl (safe, test ∙ rw (yes_test, high) refl, above)
        | inr (low, there) ↦ inr (test ∙ rw (yes_test, low) refl, λ _. there)
      ]
    ]

-- With the slot of a safe and higher block put in.
HasAnchor-insert :
    (anchors : Map ℤ Slot) (k r : ℤ) (t : Slot) (h : ℤ)
    → ((old : Slot) → lookup k anchors ≡ some old → old.height <ℤ t.height)
    → HasAnchor anchors r h
    → HasAnchor (insert k t anchors) r h
HasAnchor-insert anchors k r t h above (old, there, le) = elim (==-cases k r) [
  | inl same ↦
      let lower = above old (ap (λ i. lookup i anchors) same ∙ there) in
      (
        t,
        lookup-insert k r t anchors ∙ rw ((int_eq.same_iff k r).1 same) refl,
        omega (arith, lower, le),
      )
  | inr other ↦ (old, lookup-insert k r t anchors ∙ rw (==-false k r other) there, le)
]

-- The blocks pulled before are still there.
lookup-kept :
    (x s : Slot) (b c : Block) (pulled : Map Slot Block)
    → lookup x pulled ≡ none
    → lookup s pulled ≡ some c
    → lookup s (insert x b pulled) ≡ some c
lookup-kept x s b c pulled new there =
    let apart : x ≢ s = λ same.
      let both : lookup x pulled ≡ lookup s pulled = ap (λ y. lookup y pulled) same in
      cc (both, new, there) in
    lookup-insert x s b pulled ∙ rw (==-false x s apart) there

lookup-new :
    (x : Slot) (b : Block) (pulled : Map Slot Block) → lookup x (insert x b pulled) ≡ some b
lookup-new x b pulled = lookup-insert x x b pulled ∙ rw (==-refl x) refl

Own : World → ℤ → Slot → Map Slot Block → ℤ → Slot → Type 0
Own w round a pulled r t =
    ((r ≡ round) × (t ≡ a))
    ⊎ ((s : Slot) × (b : Block) × (lookup s pulled ≡ some b)
        × IsSafe (w.uncommitted s) b
        × (b.header.round ≡ r)
        × (b.header.slot ≡ t))

Own-kept :
    (w : World) (round : ℤ) (a x : Slot) (b : Block) (pulled : Map Slot Block) (r : ℤ) (t : Slot)
    → lookup x pulled ≡ none
    → Own w round a pulled r t
    → Own w round a (insert x b pulled) r t
unfolding Own
Own-kept w round a x b pulled r t new (inl h) = inl h
Own-kept w round a x b pulled r t new (inr (s, c, there, safe, of_round, is_t)) =
    inr (s, c, lookup-kept x s b c pulled new there, safe, of_round, is_t)

-- A block that is pulled keeps the anchors the highest.
step-AreHighest :
    (w : World) (round : ℤ) (a x : Slot) (b : Block) (pulled : Map Slot Block)
    (anchors : Map ℤ Slot)
    → lookup x pulled ≡ none
    → AreHighest w round a pulled anchors
    → AreHighest w round a (insert x b pulled) (update_anchor (w.uncommitted x) b anchors)
unfolding Own
step-AreHighest w round a x b pulled anchors new h =
    let k = b.header.round in
    let t = b.header.slot in
    elim (update_anchor-cases (w.uncommitted x) b anchors) [
      | inl (safe, updated, above) ↦
          subst (AreHighest w round a (insert x b pulled)) (sym updated) (record {
            submitted = HasAnchor-insert anchors k round t a.height above h.submitted;
            highest = λ s c there safe_c.
                let found = sym (lookup-insert x s b pulled) ∙ there in
                elim (==-cases x s) [
                  | inl same ↦
                      let is_b : b ≡ c = cc (rw ((slot_eq.same_iff x s).1 same) at found) in
                      subst
                        (λ y. HasAnchor (insert k t anchors) y.header.round y.header.slot.height)
                        is_b (t, lookup-insert k k t anchors ∙ rw (==-refl k) refl, omega arith)
                  | inr other ↦
                      HasAnchor-insert anchors k c.header.round t c.header.slot.height above
                        (h.highest s c (rw (==-false x s other) at found) safe_c)
                ];
            own = λ r u there.
                let found = sym (lookup-insert k r t anchors) ∙ there in
                elim (==-cases k r) [
                  | inl same ↦
                      let is_u : t ≡ u = cc (rw ((int_eq.same_iff k r).1 same) at found) in
                      inr (x, b, lookup-new x b pulled, safe, same, is_u)
                  | inr other ↦
                      Own-kept w round a x b pulled r u new
                        (h.own r u (rw (==-false k r other) at found))
                ];
          })
      | inr (kept, there_if) ↦ subst (AreHighest w round a (insert x b pulled)) (sym kept) (record {
        submitted = h.submitted;
        highest = λ s c there safe_c.
            let found = sym (lookup-insert x s b pulled) ∙ there in
            elim (==-cases x s) [
              | inl same ↦
                  let is_b : b ≡ c = cc (rw ((slot_eq.same_iff x s).1 same) at found) in
                  let of_x : IsSafe (w.uncommitted x) b =
                    subst (λ y. IsSafe (w.uncommitted x) y) (sym is_b)
                      (subst (λ y. IsSafe (w.uncommitted y) c) (sym same) safe_c) in
                  subst (λ y. HasAnchor anchors y.header.round y.header.slot.height) is_b
                    (there_if of_x)
              | inr other ↦ h.highest s c (rw (==-false x s other) at found) safe_c
            ];
        own = λ r u there. Own-kept w round a x b pulled r u new (h.own r u there);
      })
    ]

-- Whatever the loop of step 1 ends in.
pub pull_loop-AreHighest :
    (w : World) (round : ℤ) (a : Slot) (fuel : ℕ) (q : List Slot) (pulled : Map Slot Block)
    (anchors : Map ℤ Slot) (p : Pulling)
    → AreHighest w round a pulled anchors
    → pull_loop w fuel q pulled anchors ≡ done p
    → AreHighest w round a p.pulled p.anchors
unfolding pull_loop
pull_loop-AreHighest w round a fuel [] pulled anchors p h ends =
    let same : state [] pulled anchors ≡ p = cc in
    subst (λ (x : Pulling). AreHighest w round a x.pulled x.anchors) same h
pull_loop-AreHighest w round a zero (x ∷ q) pulled anchors p h ends = absurd (cc)
pull_loop-AreHighest w round a (suc fuel) (x ∷ q) pulled anchors p h ends =
    let s = state q pulled anchors in
    let goes = λ (t : Option Pulling) (turns : pull_turn w x s ≡ t).
      sym (pull_loop-turn w fuel x q pulled anchors t turns) ∙ ends in
    elim (Option-cases (lookup x pulled)) [
      | inr (b, old) ↦
          pull_loop-AreHighest w round a fuel q pulled anchors p h
            (goes (some s) (pull_turn-pulled w x s b old))
      | inl new ↦ elim (answer-cases w x) [
        | inl silent ↦ absurd (cc (goes none (pull_turn-never w x s new silent)))
        | inr (inl (nil, _)) ↦
            pull_loop-AreHighest w round a fuel q pulled anchors p h
              (goes (some s) (pull_turn-nil w x s nil))
        | inr (inr (b, sent, _)) ↦
            pull_loop-AreHighest w round a fuel (q ++ ref_slots b) (insert x b pulled)
              (update_anchor (w.uncommitted x) b anchors) p
              (step-AreHighest w round a x b pulled anchors new h)
              (goes _ (pull_turn-new w x s b new sent))
      ]
    ]

pub first-AreHighest :
    (w : World) (round : ℤ) (a : Slot) → AreHighest w round a [] ((round, a) ∷ [])
unfolding lookup
first-AreHighest w round a = record {
  submitted = (a, rw (==-refl round) refl, omega arith);
  highest = λ s b there safe. cc;
  own = λ r t there. elim (==-cases round r) [
    | inl same ↦
        let is_a : a ≡ t = cc (rw ((int_eq.same_iff round r).1 same) at there) in
        inl (sym same, sym is_a)
    | inr other ↦ absurd (cc (rw (==-false round r other) at there))
  ];
}
