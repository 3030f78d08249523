-- ===== src/Commitor.antt =====
-- core/commitor.go: pulls the blocks behind a submitted slot from the DAG, puts them in an order, and
-- executes them.
-- The commitor runs beside the DAG. What it meets while one request is at work is its `World`: `pull`
-- is the answer of the DAG to the pull of a slot, and `uncommitted` the DAG's own map of leaders, which
-- the request shares, as it is when the block of a slot has arrived. The DAG answers the pull of an
-- absent slot above the watermark when the block is pushed, which may never be: then `pullBlock` waits
-- on its channel for ever. `pull` may be a function: a block is pulled once, and nil is answered at or
-- below the watermark, which stays as it is until the commitor asks for a cleaning at the end. `sort.Slice` and `sort.Ints` are insertion
-- sorts: the orders are strict on what is sorted, so that any sort gives the same.
-- Logging in `exec` aside, executing a block is taking note of it.
pub mod Walk
pub mod Ordering
pub mod Pulls
pub mod Executing
pub mod Anchors
pub mod Heights
pub mod Submitting
use loom.Committee.{NodeId}
use loom.Message.{Slot, Header, Block, SubmitReq, GcReq, slot_eq}
use loom.Prelude.{
  ℕ, zero, suc, ◌+◌, ◌-◌, ◌*◌, ◌/◌, ◌%◌, ◌^◌, ◌≤◌, ◌<◌, ◌≡◌, refl, sym, ap, ◌∙◌, ◌≢◌, ◌↔◌, ◌⊎◌, inl,
  inr, Bool, true, false, not, ◌&&◌, ◌||◌, Option, none, some, List, [], ◌∷◌, ◌++◌, map, arith, ltb,
  leb, eqb, if◌then◌else◌, Bool-cases, Option-cases, ltb→lt, lt→ltb, leb→le, length, length-append,
  All, any, all, get_elem?, set, drop, replicate, get_last?, List-cases, length-set,
  get_elem?-set_self, get_elem?-set_ne, get_elem?-append_left, get_elem?-append_right,
  get_elem?-out, get_elem?-in, get_elem?-drop, get_elem?-replicate, length-replicate, length-drop,
  length-map,
}
use loom.Prelude.Int.{
  ℤ, pos, negsuc, pos_part, neg_part, ◌≤ℤ◌, ◌<ℤ◌, ltb_ℤ, leb_ℤ, eqb_ℤ, eqb_ℤ_iff, eq_of_parts,
  IsInt, wrap, wrap_parts, ◌+ℤ◌, ◌-ℤ◌, IsSmall, -ℤ_parts, +ℤ_parts, parts_apart, offset_pos,
  offset_neg,
}
use loom.Prelude.Eq.{Eq, ◌==◌, nat_eq, int_eq, string_eq, list_eq, ==-refl, ==-false, ==-cases}
use loom.Prelude.Map.{
  Map, lookup, insert, delete, delete_if, get_or, lookup-insert, lookup-delete, lookup-delete_if,
  get_or-cons, get_or-insert,
}
use loom.Prelude.Distinct.{
  contains, Distinct, Within, remove, common, length-common, contains-append, contains-remove,
  length-remove, length-Within, Distinct-append,
}

-- What comes on the channel of a pull: a block, nil, or nothing ever.
pub data Answer : Type 0 where
  sends_block : Block → Answer
  sends_nil : Answer
  never : Answer

pub record World : Type 0 where
  pub pull : Slot → Answer
  pub uncommitted : Slot → Map ℤ NodeId

-- How a loop ends: with a result, in a pull that is never answered, or not within its fuel.
pub data Ended {ℓ} (A : Type ℓ) : Type ℓ where
  done : A → Ended A
  waits : Ended A
  runs_on : Ended A

abbrev pub ref_slots : Block → List Slot
ref_slots b = map (λ (h : Header). h.slot) b.ref

-- An insertion sort by a test `less`.
module _ {A : Type 0} (less : A → A → Bool) where
  unfoldable pub insert_sorted : A → List A → List A
  insert_sorted x [] = x ∷ []
  insert_sorted x (y ∷ ys) = if less y x then y ∷ insert_sorted x ys else x ∷ y ∷ ys

  unfoldable pub sort : List A → List A
  sort [] = []
  sort (x ∷ xs) = insert_sorted x (sort xs)

-- The comparison of `commitAnchor`: by height for one author, the anchor's author last, otherwise by
-- author.
unfoldable pub commit_less : NodeId → Slot → Slot → Bool
commit_less leader s t =
    if s.author == t.author
    then ltb_ℤ s.height t.height
    else if s.author == leader
    then false
    else if t.author == leader
    then true
    else ltb_ℤ s.author t.author

-- The first loop of `commitAnchor`. The set `visited` has the members of `ordered`. `none` is a loop
-- that has not ended.
walk_turn : Slot → List Slot → List Slot → Map Slot Block → List Slot × List Slot
walk_turn head q ordered pulled = elim (lookup head pulled) [
  | none ↦ (q, ordered)
  | some cur ↦
      if contains head ordered then (q, ordered) else (q ++ ref_slots cur, ordered ++ head ∷ [])
]

unfoldable pub walk_pulled : ℕ → List Slot → List Slot → Map Slot Block → Option (List Slot)
unfolding walk_turn
walk_pulled fuel [] ordered pulled = some ordered
walk_pulled zero (head ∷ q) ordered pulled = none
walk_pulled (suc fuel) (head ∷ q) ordered pulled =
    let (q', ordered') = walk_turn head q ordered pulled in walk_pulled fuel q' ordered' pulled

-- Each turn takes one slot off the queue, and each block puts its references on it once.
abbrev pub total_refs : Map Slot Block → ℕ
total_refs [] = 0
total_refs ((s, b) ∷ m) = length b.ref + total_refs m

-- The last loop of `commitAnchor`: execute and delete each slot.
unfoldable pub exec_all : List Slot → Map Slot Block → List Block × Map Slot Block
exec_all [] pulled = ([], pulled)
exec_all (s ∷ ss) pulled =
    let (rest, end) = exec_all ss (delete s pulled) in
    (elim (lookup s pulled) [ none ↦ rest | some b ↦ b ∷ rest ], end)

unfoldable pub commit_anchor : Slot → Map Slot Block → Option (List Block × Map Slot Block)
commit_anchor anchor pulled = elim (walk_pulled (suc (total_refs pulled)) (anchor ∷ []) [] pulled) [
  | none ↦ none
  | some ordered ↦ some (exec_all (sort (commit_less anchor.author) ordered) pulled)
]

-- The highest block of a leader that is one height into its round becomes the round's anchor.
unfoldable pub update_anchor : Map ℤ NodeId → Block → Map ℤ Slot → Map ℤ Slot
update_anchor leaders cur anchors =
    let b = cur.header in
    let higher : Bool = elim (lookup b.round anchors) [
      | none ↦ true
      | some old ↦ ltb_ℤ old.height b.slot.height
    ] in
    let is_leader : Bool = elim (lookup b.round leaders) [
      | none ↦ false
      | some leader ↦ b.slot.author == leader
    ] in
    if is_leader && leb_ℤ (pos 1) (b.slot.height -ℤ b.first_ref_h) && higher
    then insert b.round b.slot anchors
    else anchors

-- The state of the loop of step 1 of `commit2`.
pub record Pulling : Type 0 where
  pub q : List Slot
  pub pulled : Map Slot Block
  pub anchors : Map ℤ Slot

-- One turn of it, `none` where the pull is never answered.
unfoldable pub pull_turn : World → Slot → Pulling → Option Pulling
pull_turn w head p = elim (lookup head p.pulled) [
  | some b ↦ some p
  | none ↦ elim (w.pull head) [
    | never ↦ none
    | sends_nil ↦ some p
    | sends_block cur ↦ some (record {
      q = p.q ++ ref_slots cur;
      pulled = insert head cur p.pulled;
      anchors = update_anchor (w.uncommitted head) cur p.anchors;
    })
  ]
]

unfoldable pub pull_loop : World → ℕ → List Slot → Map Slot Block → Map ℤ Slot → Ended Pulling
pull_loop w fuel [] pulled anchors = done (record { q = []; pulled = pulled; anchors = anchors })
pull_loop w zero (head ∷ q) pulled anchors = runs_on
pull_loop w (suc fuel) (head ∷ q) pulled anchors =
    elim (pull_turn w head (record { q = q; pulled = pulled; anchors = anchors })) [
      | none ↦ waits
      | some p ↦ pull_loop w fuel p.q p.pulled p.anchors
    ]

-- The highest height of each author.
unfoldable pub watermarks : Map Slot Block → Map NodeId ℤ → Map NodeId ℤ
watermarks [] wm = wm
watermarks ((s, b) ∷ m) wm =
    let higher : Bool = elim (lookup s.author wm) [ none ↦ true | some h ↦ ltb_ℤ h s.height ] in
    watermarks m (if higher then insert s.author s.height wm else wm)

abbrev zero_slot : Slot
zero_slot = record { author = pos 0; height = pos 0 }

-- Step 2 of `commit2`: the anchors in the order of their rounds.
unfoldable pub commit_anchors :
    List ℤ → Map ℤ Slot → Map Slot Block → Option (List Block × Map Slot Block)
commit_anchors [] anchors pulled = some ([], pulled)
commit_anchors (r ∷ rs) anchors pulled =
    let rest = λ (x : List Block × Map Slot Block). commit_anchors rs anchors x.1 in
    elim (commit_anchor (get_or r anchors zero_slot) pulled) [
      | none ↦ none
      | some x ↦ elim (rest x) [ none ↦ none | some y ↦ some (x.0 ++ y.0, y.1) ]
    ]

abbrev pub Commit : Type 0
Commit = List Block × Option GcReq

-- What is executed, and the cleaning asked for, if anything was pulled.
unfoldable pub commit2 : World → ℕ → SubmitReq → Ended Commit
commit2 w fuel req = elim (pull_loop w fuel (req.slot ∷ []) [] ((req.round, req.slot) ∷ [])) [
  | runs_on ↦ runs_on
  | waits ↦ waits
  | done p ↦ elim p.pulled [
    | [] ↦ done ([], none)
    | _ ∷ _ ↦
        let rounds = sort ltb_ℤ (map (λ (a : ℤ × Slot). a.0) p.anchors) in
        elim (commit_anchors rounds p.anchors p.pulled) [
          | none ↦ runs_on
          | some (executed, left) ↦
              done (executed, some (record { new_watermark = watermarks p.pulled [] }))
        ]
  ]
]
