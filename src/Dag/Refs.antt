-- ===== src/Dag/Refs.antt =====
-- `handleRefReq` of core/dag.go: the references for a new block.
use native.Mathlib.Decide.{dec_lt}
use mathlib.Core.Path.{subst}
use loom.Committee.{NodeId, hight_threshold}
use loom.Message.{Header, Block, RefReq}
use loom.Dag.{Line, Dag, headers, row, line, at}
use loom.Dag.Handlers.{is_qualified, latest, offer, refs_of, plain_ref, handle_ref_req}
use loom.Dag.Lines.{EndsInBlock}
use loom.Dag.Invariant.{IsWellFormed}
use loom.Prelude.{
  lt→ltb, ℕ, ◌↔◌, suc, ◌+◌, ◌≤◌, ◌<◌, ◌≡◌, refl, sym, ap, ◌∙◌, ◌⊎◌, inl, inr, true, false, Option,
  none, some, List, [], ◌∷◌, map, arith, ltb, if◌then◌else◌, Bool-cases, length, All, get_elem?,
  get_last?,
}
use loom.Prelude.Int.{ℤ, pos, ltb_ℤ, eqb_ℤ_iff}
use loom.Prelude.Eq.{nat_eq, int_eq, string_eq, list_eq}
use loom.Prelude.Result.{ok, index_out_of_range, ◌>>=◌, or_panic, >>=-ok}
use loom.Prelude.Distinct.{contains, Distinct}
use loom.Dag.Latest.{IsRef, Listed, IsLatest, Exact, Exact-nil, Exact-skip, Exact-cons}

abbrev pub author_of : Header → NodeId
author_of h = h.slot.author

latest-ok :
    (l : Line)
    → EndsInBlock l
    → ((l ≡ []) × (latest l ≡ ok none))
      ⊎ ((b : Block) × (get_last? l ≡ some (some b)) × (latest l ≡ ok (some b.header)))
unfolding latest
latest-ok l (inl e) = inl (e, rw e refl)
latest-ok l (inr (b, e)) = inr (b, e, ground arith)

-- The last entry has an index.
at_of_get_last? : (l : Line) (b : Block) → get_last? l ≡ some (some b) → (i : ℕ) × (at l i ≡ some b)
at_of_get_last? [] b h = absurd (cc)
at_of_get_last? (x ∷ []) b h = (0, cc)
at_of_get_last? (x ∷ y ∷ l) b h = let (i, e) = at_of_get_last? (y ∷ l) b h in (suc i, e)

-- The last blocks of the lines from the k-th on are of the authors k, k+1, …
record IsRowsFrom (k : ℕ) (cache : List Line) : Type 0 where
  ends : (i : ℕ) (l : Line) → get_elem? cache i ≡ some l → EndsInBlock l
  authors :
      (i : ℕ) (l : Line) (b : Block)
      → get_elem? cache i ≡ some l
      → get_last? l ≡ some (some b)
      → b.header.slot.author ≡ pos (k + i)

IsRowsFrom-tail :
    (k : ℕ) (l : Line) (cache : List Line) → IsRowsFrom k (l ∷ cache) → IsRowsFrom (suc k) cache
IsRowsFrom-tail k l cache h = record {
  ends = λ i x e. h.ends (suc i) x e;
  authors = λ i x b e f. h.authors (suc i) x b e f ∙ ap pos (omega arith);
}

-- References are of different authors, none before the k-th.
record AreRefs (r : ℤ) (k : ℕ) (refs : List Header) : Type 0 where
  good : All (IsRef r) refs
  later : (j : ℕ) → j < k → contains (pos j) (map author_of refs) ≡ false
  apart : Distinct (map author_of refs)

IsRef-qualified :
    (r : ℤ) (h : Header) → IsRef r h → (ltb_ℤ h.round r ≡ false) × (is_qualified r h ≡ true)
unfolding is_qualified
IsRef-qualified r h good = ground arith

qualified-IsRef :
    (r : ℤ) (h : Header) → ltb_ℤ h.round r ≡ false → is_qualified r h ≡ true → IsRef r h
unfolding is_qualified
qualified-IsRef r h late good = ground arith

offer-cases :
    (r : ℤ) (last : Option Header) (rest : List Header)
    → ((offer r last rest ≡ rest) × ((h : Header) → last ≡ some h → ¬ IsRef r h))
      ⊎ ((h : Header) × (last ≡ some h) × IsRef r h × (offer r last rest ≡ h ∷ rest))
unfolding offer
offer-cases r none rest = inl (refl, λ h same good. cc)
offer-cases r (some h) rest = elim (Bool-cases (ltb_ℤ h.round r)) [
  | inl old ↦ inl (
    rw old refl,
    λ x same good.
        let is_h : h ≡ x = cc in
        cc (old, (IsRef-qualified r h (subst (IsRef r) (sym is_h) good)).0),
  )
  | inr late ↦ elim (Bool-cases (is_qualified r h)) [
    | inl good ↦ inr (h, refl, qualified-IsRef r h late good, rw (late, good))
    | inr bad ↦ inl (
      rw (late, bad) refl,
      λ x same good.
          let is_h : h ≡ x = cc in
          cc (bad, (IsRef-qualified r h (subst (IsRef r) (sym is_h) good)).1),
    )
  ]
]

offer-none : (r : ℤ) (rest : List Header) → offer r none rest ≡ rest
unfolding offer
offer-none r rest = refl

AreRefs-weaken : (r : ℤ) (k : ℕ) (refs : List Header) → AreRefs r (suc k) refs → AreRefs r k refs
AreRefs-weaken r k refs h = record {
  good = h.good;
  later = λ j lt. h.later j (omega arith);
  apart = h.apart;
}

AreRefs-cons :
    (r : ℤ) (k : ℕ) (h : Header) (refs : List Header)
    → author_of h ≡ pos k
    → IsRef r h
    → AreRefs r (suc k) refs
    → AreRefs r k (h ∷ refs)
AreRefs-cons r k h refs own good rest = record {
  good = (good, rest.good);
  later = λ j lt. ground (arith, rest.later j, eqb_ℤ_iff (author_of h) (pos j));
  apart = (rw own (rest.later k (omega arith)), rest.apart);
}

refs_of-cons :
    (r : ℤ) (l : Line) (cache : List Line) (last : Option Header) (rest : List Header)
    → latest l ≡ ok last
    → refs_of r cache ≡ ok rest
    → refs_of r (l ∷ cache) ≡ ok (offer r last rest)
unfolding refs_of
refs_of-cons r l cache last rest e f =
    >>=-ok (latest l) (λ x. refs_of r cache >>= λ y. ok (offer r x y)) e
    ∙ >>=-ok (refs_of r cache) (λ y. ok (offer r last y)) f

refs_of-AreRefs :
    (r : ℤ) (k : ℕ) (cache : List Line)
    → IsRowsFrom k cache
    → (refs : List Header) × (refs_of r cache ≡ ok refs) × AreRefs r k refs × Exact r cache refs
refs_of-AreRefs r k [] h = (
  [],
  unfold refs_of in refl,
  record { good = tt; later = λ j lt. refl; apart = tt },
  Exact-nil r,
)
refs_of-AreRefs r k (l ∷ cache) h =
    let (rest, found, good, exact) =
      refs_of-AreRefs r (suc k) cache (IsRowsFrom-tail k l cache h) in
    elim (latest-ok l (h.ends 0 l refl)) [
      | inl (empty, e) ↦ (
        offer r none rest,
        refs_of-cons r l cache none rest e found,
        rw (offer-none r rest) (AreRefs-weaken r k rest good),
        rw (offer-none r rest) (
            Exact-skip r l cache rest
              (λ b last good.
                let nothing : get_last? l ≡ none = ap get_last? empty in cc (nothing, last))
              exact),
      )
      | inr (b, last, e) ↦
          let own : b.header.slot.author ≡ pos k =
            h.authors 0 l b refl last ∙ ap pos (omega arith) in
          let offered = offer r (some b.header) rest in
          let (refs, whole) : AreRefs r k offered × Exact r (l ∷ cache) offered =
            elim (offer-cases r (some b.header) rest) [
              | inl (none_new, bad) ↦ rw none_new (
                AreRefs-weaken r k rest good,
                Exact-skip r l cache rest
                    (λ c here.
                      let is_b : b ≡ c = cc in
                      bad c.header (ap (λ (y : Block). some y.header) is_b))
                    exact,
              )
              | inr (x, same, is_ref, new) ↦
                  let is_b : x ≡ b.header = cc in
                  rw (new, is_b)
                    (
                      AreRefs-cons r k b.header rest own (subst (IsRef r) is_b is_ref) good,
                      Exact-cons r l cache b rest last (subst (IsRef r) is_b is_ref) exact,
                    )
            ] in
          (offered, refs_of-cons r l cache (some b.header) rest e found, refs, whole)
    ]

rows-IsRowsFrom : (d : Dag) → IsWellFormed d → IsRowsFrom 0 d.cache
rows-IsRowsFrom d w = record {
  ends = λ i l e. w.ends (pos i) l (row-pos i l d.cache e);
  authors = λ i l b e f.
      let (j, at_j) = at_of_get_last? l b f in
      (w.placed (pos i) l j b (row-pos i l d.cache e) at_j).0 ∙ ap pos (omega arith);
}
  where
    row-pos :
        (i : ℕ) (l : Line) (cache : List Line)
        → get_elem? cache i ≡ some l
        → row (pos i) cache ≡ ok l
    row-pos i l cache e = unfold row in ap (or_panic index_out_of_range) e

-- The choice between the references found and the node's own last block.
abbrev chosen : ℕ → List Header → Option Header → List Header
chosen thld refs none = refs
chosen thld refs (some h) = if ltb (length refs) thld then h ∷ [] else refs

plain_ref-eq :
    (refs : List Header) (d : Dag) (own : Line) (last : Option Header)
    → line d.node_id d ≡ ok own
    → latest own ≡ ok last
    → plain_ref refs d ≡ ok (chosen (hight_threshold d.committee) refs last)
unfolding plain_ref
plain_ref-eq refs d own last mine e =
    elim (Bool-cases (ltb (length refs) (hight_threshold d.committee))) [
      | inl few ↦
          rw few (>>=-ok (line d.node_id d) _ mine ∙ >>=-ok (latest own) _ e ∙ pick last few)
      | inr many ↦ rw many (ap ok (sym (keep last many)))
    ]
  where
    pick :
        (o : Option Header)
        → ltb (length refs) (hight_threshold d.committee) ≡ true
        → ok (elim o [ none ↦ refs | some h ↦ h ∷ [] ])
          ≡ ok (chosen (hight_threshold d.committee) refs o)
    pick none f = refl
    pick (some h) f = rw f

    keep :
        (o : Option Header)
        → ltb (length refs) (hight_threshold d.committee) ≡ false
        → chosen (hight_threshold d.committee) refs o ≡ refs
    keep none f = refl
    keep (some h) f = rw f

handle_ref_req-eq :
    (req : RefReq) (d : Dag) (refs reply : List Header)
    → refs_of req.round d.cache ≡ ok refs
    → plain_ref refs d ≡ ok reply
    → handle_ref_req req d ≡ ok (d, headers req.ref_resp_ch reply ∷ [])
unfolding handle_ref_req
handle_ref_req-eq req d refs reply e f =
    >>=-ok (refs_of req.round d.cache) _ e ∙ >>=-ok (plain_ref refs d) _ f

-- With the invariant, and its own id in the committee, a node's reference request never faults. Let
-- refs be the headers, of different authors, that qualify among the last blocks of the lines of its
-- cache: all of these and no others. At the threshold they are the reply. Below it the reply is the node's own last block alone; but where the node's own line is empty,
-- the reply is the references found so far.
pub ref_lem :
    (req : RefReq) (d : Dag) (own : Line)
    → IsWellFormed d
    → line d.node_id d ≡ ok own
    → (refs : List Header) × (reply : List Header) × (handle_ref_req req d
        ≡ ok (d, headers req.ref_resp_ch reply ∷ []))
      × ((h : Header) → Listed h refs ↔ (IsLatest d.cache h × IsRef req.round h))
      × Distinct (map author_of refs)
      × (((hight_threshold d.committee ≤ length refs) × (reply ≡ refs))
          ⊎ ((length refs < hight_threshold d.committee)
              × (b : Block) × (get_last? own ≡ some (some b))
              × (reply ≡ b.header ∷ []))
          ⊎ ((length refs < hight_threshold d.committee) × (own ≡ []) × (reply ≡ refs)))
unfolding handle_ref_req
ref_lem req d own w mine =
    let (refs, found, good, exact) = refs_of-AreRefs req.round 0 d.cache (rows-IsRowsFrom d w) in
    let thld = hight_threshold d.committee in
    elim (latest-ok own (w.ends d.node_id own mine)) [
      | inl (empty, e) ↦ (
        refs,
        refs,
        handle_ref_req-eq req d refs refs found (plain_ref-eq refs d own none mine e),
        exact,
        good.apart,
        elim (dec_lt (length refs) thld) [
          | yes few ↦ inr (inr (few, empty, refl))
          | no many ↦ inl (omega arith, refl)
        ],
      )
      | inr (b, last, e) ↦ elim (dec_lt (length refs) thld) [
        | yes few ↦ (
          refs,
          b.header ∷ [],
          handle_ref_req-eq req d refs (b.header ∷ []) found (
              plain_ref-eq refs d own (some b.header) mine e
              ∙ rw (lt→ltb (length refs) thld few) refl),
          exact,
          good.apart,
          inr (inl (few, b, last, refl)),
        )
        | no many ↦
            let test : ltb (length refs) thld ≡ false = ground arith in
            (
              refs,
              refs,
              handle_ref_req-eq req d refs refs found
                  (plain_ref-eq refs d own (some b.header) mine e ∙ rw test refl),
              exact,
              good.apart,
              inl (omega arith, refl),
            )
      ]
    ]
