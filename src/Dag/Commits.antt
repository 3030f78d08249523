-- ===== src/Dag/Commits.antt =====
-- `isAnchorReady` and `handleCommitReq` of core/dag.go: when an anchor is submitted, and which.
use loom.Committee.{NodeId}
use loom.Message.{Block, CommitReq}
use loom.Dag.{Line, Dag, submit, line, at, ltb_ℤ}
use loom.Dag.Handlers.{
  anchor_loop, anchor_fuel, is_anchor_ready, is_support, find_support, try_commit, newer,
  handle_commit_req,
}
use loom.Prelude.{
  leb→le, ℕ, zero, suc, ◌+◌, ◌-◌, ◌/◌, ◌^◌, ◌≤◌, ◌<◌, ◌≡◌, refl, ap, ◌∙◌, ◌⊎◌, inl, inr, Bool, true,
  false, ◌&&◌, Option, none, some, List, [], ◌∷◌, arith, if◌then◌else◌, Bool-cases, Option-cases,
  leb→le, all,
}
use loom.Prelude.Int.{
  ℤ, pos, pos_part, neg_part, ◌≤ℤ◌, leb_ℤ, ◌+ℤ◌, ◌-ℤ◌, IsSmall, +ℤ_parts, parts_apart,
}
use loom.Prelude.Eq.{nat_eq, int_eq, string_eq, list_eq}
use loom.Prelude.Result.{ok, endless_loop, or_panic, >>=-ok}
use loom.Prelude.Map.{Map, lookup, insert}

-- The rounds r, r + 2, r + 4, …, as many as the number says.
abbrev pub rounds : ℕ → ℤ → List ℤ
rounds zero r = []
rounds (suc n) r = r ∷ rounds n (r +ℤ pos 2)

-- How many of these do not exceed a bound.
unfoldable pub rounds_to : ℤ → ℤ → ℕ
rounds_to r cur =
    if leb_ℤ r cur then (pos_part cur + neg_part r - (pos_part r + neg_part cur)) / 2 + 1 else 0

abbrev pub is_led : Map ℤ NodeId → ℤ → Bool
is_led m r = elim (lookup r m) [ none ↦ false | some leader ↦ true ]

rounds_to-step :
    (r cur : ℤ)
    → IsSmall cur
    → neg_part r < 2 ^ 62
    → leb_ℤ r cur ≡ true
    → rounds_to r cur ≡ suc (rounds_to (r +ℤ pos 2) cur)
unfolding rounds_to
rounds_to-step r cur sc lo h =
    ground (arith, +ℤ_parts r (pos 2), parts_apart (r +ℤ pos 2), parts_apart r, parts_apart cur)

rounds_to-over : (r cur : ℤ) → leb_ℤ r cur ≡ false → rounds_to r cur ≡ 0
unfolding rounds_to
rounds_to-over r cur h = rw h

rounds_to-fuel : (r cur : ℤ) → rounds_to r cur ≤ anchor_fuel r cur
unfolding rounds_to
rounds_to-fuel r cur = ground arith

not_lower :
    (r cur : ℤ)
    → IsSmall cur
    → neg_part r < 2 ^ 62
    → leb_ℤ r cur ≡ true
    → neg_part (r +ℤ pos 2) < 2 ^ 62
not_lower r cur sc lo h =
    let le : r ≤ℤ cur = leb→le (pos_part r + neg_part cur) (pos_part cur + neg_part r) h in
    omega (arith, +ℤ_parts r (pos 2), parts_apart (r +ℤ pos 2), parts_apart r, parts_apart cur)

-- One turn of the loop.
anchor_loop-suc :
    (fuel : ℕ) (r cur : ℤ) (m : Map ℤ NodeId) (rest : Bool)
    → leb_ℤ r cur ≡ true
    → anchor_loop fuel (r +ℤ pos 2) cur m ≡ some rest
    → anchor_loop (suc fuel) r cur m ≡ some (is_led m r && rest)
unfolding anchor_loop
anchor_loop-suc fuel r cur m rest h e = rw h (elim (Option-cases (lookup r m)) [
  | inl no_leader ↦ ground arith
  | inr (l, led) ↦ ground arith
])

-- With fuel for all its rounds the loop ends, and says whether each of them has a leader.
anchor_loop-all :
    (fuel : ℕ) (r cur : ℤ) (m : Map ℤ NodeId)
    → IsSmall cur
    → neg_part r < 2 ^ 62
    → rounds_to r cur ≤ fuel
    → anchor_loop fuel r cur m ≡ some (all (is_led m) (rounds (rounds_to r cur) r))
anchor_loop-all zero r cur m sc lo h = elim (Bool-cases (leb_ℤ r cur)) [
  | inr over ↦ rw (rounds_to-over r cur over) (unfold anchor_loop in rw over)
  | inl under ↦ absurd (omega (arith, rounds_to-step r cur sc lo under))
]
anchor_loop-all (suc fuel) r cur m sc lo h = elim (Bool-cases (leb_ℤ r cur)) [
  | inr over ↦ rw (rounds_to-over r cur over) (unfold anchor_loop in rw over)
  | inl under ↦
      let step = rounds_to-step r cur sc lo under in
      let rest =
        anchor_loop-all fuel (r +ℤ pos 2) cur m sc (not_lower r cur sc lo under)
          (omega (arith, step)) in
      rw step (
        anchor_loop-suc fuel r cur m
          (all (is_led m) (rounds (rounds_to (r +ℤ pos 2) cur) (r +ℤ pos 2))) under rest)
]

-- With the rounds in range, `isAnchorReady` ends, and says whether every second round from the one after the last committed
-- anchor up to the given one has a leader.
pub is_anchor_ready_lem :
    (cur : ℤ) (d : Dag)
    → IsSmall cur
    → IsSmall d.commit_mark
    → is_anchor_ready cur d
      ≡ ok (
          all
            (is_led d.uncommitted)
            (rounds (rounds_to (d.commit_mark +ℤ pos 2) cur) (d.commit_mark +ℤ pos 2)))
unfolding is_anchor_ready
is_anchor_ready_lem cur d sc sm =
    let r = d.commit_mark +ℤ pos 2 in
    let lo : neg_part r < 2 ^ 62 =
      omega (arith, +ℤ_parts d.commit_mark (pos 2), parts_apart r, parts_apart d.commit_mark) in
    ap (or_panic endless_loop)
      (anchor_loop-all (anchor_fuel r cur) r cur d.uncommitted sc lo (rounds_to-fuel r cur))

-- From place i on, no block of the line is a support.
abbrev pub NoneFrom : ℤ → Line → ℕ → Type 0
NoneFrom round l i = (j : ℕ) (c : Block) → i ≤ j → at l j ≡ some c → is_support round c ≡ false

-- The last support of a line.
pub record IsLastSupport (round : ℤ) (l : Line) (b : Block) : Type 0 where
  pub place : ℕ
  pub held : at l place ≡ some b
  pub supports : is_support round b ≡ true
  pub last : NoneFrom round l (suc place)

NoneFrom-cons :
    (round : ℤ) (x : Option Block) (l : Line) (i : ℕ)
    → NoneFrom round l i
    → NoneFrom round (x ∷ l) (suc i)
NoneFrom-cons round x l i h zero c le e = absurd (omega arith)
NoneFrom-cons round x l i h (suc j) c le e = h j c (omega arith) e

NoneFrom-head :
    (round : ℤ) (x : Option Block) (l : Line)
    → ((c : Block) → x ≡ some c → is_support round c ≡ false)
    → NoneFrom round l 0
    → NoneFrom round (x ∷ l) 0
NoneFrom-head round x l h t zero c le e = h c e
NoneFrom-head round x l h t (suc j) c le e = t j c (omega arith) e

-- The search from the end finds the last support of the line, or there is none.
pub find_support_lem :
    (round : ℤ) (l : Line)
    → ((find_support round l ≡ none) × NoneFrom round l 0)
      ⊎ ((b : Block) × (find_support round l ≡ some b) × IsLastSupport round l b)
unfolding find_support
find_support_lem round [] = inl (refl, λ j c le e. cc)
find_support_lem round (x ∷ l) = elim (find_support_lem round l) [
  | inr (b, found, h) ↦ inr (
    b,
    rw found,
    record {
      place = suc h.place;
      held = h.held;
      supports = h.supports;
      last = NoneFrom-cons round x l (suc h.place) h.last;
    },
  )
  | inl (missing, nowhere) ↦ elim (Option-cases x) [
    | inl empty ↦ inl (rw (missing, empty), NoneFrom-head round x l (λ c e. cc) nowhere)
    | inr (b, is_b) ↦ elim (Bool-cases (is_support round b)) [
      | inl good ↦ inr (
        b,
        rw (missing, is_b, good),
        record {
          place = 0;
          held = is_b;
          supports = good;
          last = NoneFrom-cons round x l 0 nowhere;
        },
      )
      | inr bad ↦ inl (
        rw (missing, is_b, bad),
        NoneFrom-head round x l (λ c e. let same : c ≡ b = cc in rw same bad) nowhere,
      )
    ]
  ]
]

-- The rounds of which `isAnchorReady` wants a leader before an anchor of round r is committed.
abbrev pub awaited : ℤ → Dag → List ℤ
awaited r d = rounds (rounds_to (d.commit_mark +ℤ pos 2) r) (d.commit_mark +ℤ pos 2)

-- The state with a commit request taken in.
abbrev pub noted : CommitReq → Dag → Dag
noted req d = record d {
  uncommitted = insert req.round req.leader d.uncommitted;
  pending_commit = some (newer req d.pending_commit);
}

-- The outcomes of a commit request.
pub commit_cases :
    (req : CommitReq) (d : Dag) (l : Line)
    → let pc = newer req d.pending_commit in
      IsSmall pc.round
      → IsSmall d.commit_mark
      → line pc.leader d ≡ ok l
      → ((all (is_led (noted req d).uncommitted) (awaited pc.round d) ≡ false)
          × (handle_commit_req req d ≡ ok (noted req d, [])))
        ⊎ ((all (is_led (noted req d).uncommitted) (awaited pc.round d) ≡ true)
            × (b : Block) × IsLastSupport pc.round l b
            × (handle_commit_req req d
                ≡ ok (
                  noted req d,
                  submit (record {
                    slot = record { author = pc.leader; height = b.header.slot.height -ℤ pos 2 };
                    round = pc.round;
                  })
                      ∷ [],
                )))
        ⊎ ((all (is_led (noted req d).uncommitted) (awaited pc.round d) ≡ true)
            × NoneFrom pc.round l 0
            × (handle_commit_req req d ≡ ok (record (noted req d) { pending_commit = none }, [])))
unfolding handle_commit_req try_commit
commit_cases req d l sp sm found =
    let pc = newer req d.pending_commit in
    let ready = is_anchor_ready_lem pc.round (noted req d) sp sm in
    elim (Bool-cases (all (is_led (noted req d).uncommitted) (awaited pc.round d))) [
      | inr late ↦
          inl (late, >>=-ok (is_anchor_ready pc.round (noted req d)) _ (ready ∙ ap ok late))
      | inl on_time ↦ elim (find_support_lem pc.round l) [
        | inl (missing, nowhere) ↦ inr (
            inr (
              on_time,
              nowhere,
              >>=-ok (is_anchor_ready pc.round (noted req d)) _ (ready ∙ ap ok on_time)
                  ∙ >>=-ok (line pc.leader (noted req d)) _ found
                  ∙ rw missing,
            ))
        | inr (b, there, last) ↦ inr (
            inl (
              on_time,
              b,
              last,
              >>=-ok (is_anchor_ready pc.round (noted req d)) _ (ready ∙ ap ok on_time)
                  ∙ >>=-ok (line pc.leader (noted req d)) _ found
                  ∙ rw there,
            ))
      ]
    ]

-- An earlier pending request, if there is one, is of no later round.
abbrev pub IsNotLater : Option CommitReq → CommitReq → Type 0
IsNotLater none pc = Unit
IsNotLater (some old) pc = old.round ≤ℤ pc.round

-- What the choice of the pending request is.
newer-cases :
    (req : CommitReq) (old : Option CommitReq)
    → (req.round ≤ℤ (newer req old).round)
      × IsNotLater old (newer req old)
      × ((newer req old ≡ req) ⊎ (old ≡ some (newer req old)))
newer-cases req none = (ground arith, tt, inl refl)
newer-cases req (some old) = elim (Bool-cases (ltb_ℤ old.round req.round)) [
  | inl later ↦ rw later (ground arith, ground arith, inl refl)
  | inr other ↦ rw other (ground arith, ground arith, inr refl)
]

-- With the last committed round and the pending one in range, and the pending leader a member of the
-- committee: a commit request enters its leader; the pending request is then this one or the one before,
-- and neither is of a later round. The pending request is delayed while an awaited round has no leader. Otherwise the
-- last block of its leader's line that is of its round and two heights into it has the slot two
-- heights lower submitted; without such a block the pending request is dropped.
pub commit_lem :
    (req : CommitReq) (d : Dag) (l : Line)
    → let pc = newer req d.pending_commit in
      IsSmall pc.round
      → IsSmall d.commit_mark
      → line pc.leader d ≡ ok l
      → (req.round ≤ℤ pc.round)
        × IsNotLater d.pending_commit pc
        × ((pc ≡ req) ⊎ (d.pending_commit ≡ some pc))
        × (((all (is_led (noted req d).uncommitted) (awaited pc.round d) ≡ false)
              × (handle_commit_req req d ≡ ok (noted req d, [])))
            ⊎ ((all (is_led (noted req d).uncommitted) (awaited pc.round d) ≡ true)
                × (b : Block) × IsLastSupport pc.round l b
                × (handle_commit_req req d
                    ≡ ok (
                      noted req d,
                      submit (record {
                        slot = record {
                          author = pc.leader;
                          height = b.header.slot.height -ℤ pos 2;
                        };
                        round = pc.round;
                      })
                          ∷ [],
                    )))
            ⊎ ((all (is_led (noted req d).uncommitted) (awaited pc.round d) ≡ true)
                × NoneFrom pc.round l 0
                × (handle_commit_req req d
                    ≡ ok (record (noted req d) { pending_commit = none }, []))))
commit_lem req d l sp sm found =
    let (later, no_later, source) = newer-cases req d.pending_commit in
    (later, no_later, source, commit_cases req d l sp sm found)
