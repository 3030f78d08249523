-- ===== src/Aggregator/Counting.antt =====
-- What `Push` and `Take` of core/aggregator.go do over a whole run of messages, each pushed and
-- followed by a `Take`, as `handleEcho` and `Elector.Add` call them.
use loom.Committee.{NodeId, Committee, Authority, size, hight_threshold}
use loom.Committee.Quorum.{members}
use loom.Aggregator.{Aggregator, new_aggregator, push, take}
use native.Mathlib.Nat.{mul-add-div, div-eq_of_lt}
use native.Mathlib.Decide.{dec_lt}
use mathlib.Core.List.{map-append}
use loom.Prelude.{
  ℕ, zero, suc, ◌+◌, ◌*◌, ◌/◌, ◌≤◌, ◌<◌, ◌≡◌, refl, sym, ap, ◌∙◌, ◌↔◌, inl, inr, true, Option, none,
  some, List, [], ◌∷◌, ◌++◌, map, arith, if◌then◌else◌, Bool-cases, length, length-append, All, all,
  drop-length, length-map,
}
use loom.Prelude.Int.{eqb_ℤ_iff}
use loom.Prelude.Eq.{◌==◌, nat_eq, int_eq, string_eq, list_eq}
use loom.Prelude.Distinct.{
  contains, Distinct, Within, contains-append, length-Within, Distinct-append,
}

quotient : (t b r u : ℕ) → r < t → t * b + r ≡ u → b ≡ u / t
quotient t b r u h e =
    let whole : u / t ≡ b + r / t =
      ap (λ k. k / t) (sym e) ∙ mul-add-div {m = t} (omega arith) b r in
    omega (arith, whole, div-eq_of_lt h)

at_most_once :
    (t b r u n : ℕ) → r < t → t * b + r ≡ u → u ≤ n → n < 2 * t → (b ≤ 1) × ((b ≡ 1) ↔ (t ≤ u))
at_most_once t zero r u n h e k l = ground arith
at_most_once t (suc zero) r u n h e k l = ground arith
at_most_once t (suc (suc b)) r u n h e k l = absurd (grind arith)

module _ {M : Type 0} (author_of : M → NodeId) where
  abbrev pub collect : Option (List M) → List (List M) × Aggregator M → List (List M) × Aggregator M
  collect none r = r
  collect (some batch) r = (batch ∷ r.0, r.1)

  -- The batches taken while the messages come in, and the aggregator behind them: a `Take` follows
  -- every `Push`. A `Take` on more items than the threshold, after several pushes, takes all of them.
  unfoldable pub feed : List M → Aggregator M → List (List M) × Aggregator M
  feed [] ag = ([], ag)
  feed (m ∷ ms) ag =
      let (taken, ag') = take (push (author_of m) m ag) in collect taken (feed ms ag')

  -- The authors of a run in the order in which they first appear, behind those known before.
  unfoldable pub distinct_authors : List NodeId → List M → List NodeId
  distinct_authors known [] = known
  distinct_authors known (m ∷ ms) =
      distinct_authors (if contains (author_of m) known then known else known ++ author_of m ∷ [])
        ms

  abbrev IsBatch : Committee → List M → Type 0
  IsBatch c batch = (length batch ≡ hight_threshold c) × Distinct (map author_of batch)

  -- Between two messages: the items are of different authors, all of them used, and fewer than the
  -- threshold. Behind a `Push` they may be as many.
  record IsWaiting (c : Committee) (bound : ℕ) (ag : Aggregator M) : Type 0 where
    same : ag.committee ≡ c
    few : length ag.items < bound
    apart : Distinct (map author_of ag.items)
    used : Within (map author_of ag.items) ag.used

  push-used :
      (m : M) (ag : Aggregator M)
      → (push (author_of m) m ag).used
        ≡ (if contains (author_of m) ag.used then ag.used else ag.used ++ author_of m ∷ [])
  unfolding push
  push-used m ag = ground arith

  contains-singleton : (a b : NodeId) → contains a (b ∷ []) ≡ (b == a)
  contains-singleton a b = ground arith

  push-IsWaiting :
      (c : Committee) (bound : ℕ) (m : M) (ag : Aggregator M)
      → IsWaiting c bound ag
      → IsWaiting c (suc bound) (push (author_of m) m ag)
        × (length (push (author_of m) m ag).items + length ag.used
            ≡ length ag.items + length (push (author_of m) m ag).used)
  unfolding push
  push-IsWaiting c bound m ag w = elim (Bool-cases (contains (author_of m) ag.used)) [
    | inl known ↦
        rw known (
          record { same = w.same; few = omega (arith, w.few); apart = w.apart; used = w.used },
          refl,
        )
    | inr new ↦ rw new (
      record {
        same = w.same;
        few = omega (arith, w.few, length-append {0} ag.items (m ∷ []));
        apart = rw map-append (
            Distinct-append (map author_of ag.items) (author_of m ∷ []) w.apart (refl, tt)
              (λ a h. ground (arith, w.used a h, eqb_ℤ_iff (author_of m) a)));
        used = λ a h. ground (
          arith,
          w.used a,
          contains-append a ag.used (author_of m ∷ []),
          contains-append a (map author_of ag.items) (author_of m ∷ []),
          map-append author_of ag.items (m ∷ []),
        );
      },
      omega (
        arith,
        length-append {0} ag.items (m ∷ []),
        length-append {0} ag.used (author_of m ∷ []),
      ),
    )
  ]

  take-full :
      (ag : Aggregator M)
      → length ag.items ≡ hight_threshold ag.committee
      → take ag ≡ (some ag.items, record ag { items = [] })
  unfolding take
  take-full ag e = ground (arith, drop-length (hight_threshold ag.committee) ag.items)

  take-short :
      (ag : Aggregator M) → length ag.items < hight_threshold ag.committee → take ag ≡ (none, ag)
  unfolding take
  take-short ag e = ground arith

  -- What a run leaves: its batches, who is known, and the counts.
  record IsCounted (c : Committee) (ms : List M) (ag : Aggregator M) (batches : List (List M))
      (end : Aggregator M) : Type 0 where
    whole : All (IsBatch c) batches
    waiting : IsWaiting c (hight_threshold c) end
    known : end.used ≡ distinct_authors ag.used ms
    count :
        hight_threshold c * length batches + length end.items + length ag.used
        ≡ length ag.items + length end.used

  feed-nil : (ag : Aggregator M) → feed [] ag ≡ ([], ag)
  unfolding feed
  feed-nil ag = refl

  feed-cons :
      (m : M) (ms : List M) (ag : Aggregator M)
      → feed (m ∷ ms) ag
        ≡ collect (take (push (author_of m) m ag)).0 (feed ms (take (push (author_of m) m ag)).1)
  unfolding feed
  feed-cons m ms ag = refl

  feed-IsCounted :
      (c : Committee) (ms : List M) (ag : Aggregator M)
      → IsWaiting c (hight_threshold c) ag
      → IsCounted c ms ag (feed ms ag).0 (feed ms ag).1
  unfolding distinct_authors
  feed-IsCounted c [] ag w =
      rw feed-nil (record { whole = tt; waiting = w; known = refl; count = omega arith })
  feed-IsCounted c (m ∷ ms) ag w =
      let ag' = push (author_of m) m ag in
      let (w', counts) = push-IsWaiting c (hight_threshold c) m ag w in
      let thld : hight_threshold ag'.committee ≡ hight_threshold c = ap hight_threshold w'.same in
      elim (dec_lt (length ag'.items) (hight_threshold c)) [
        | yes short ↦
            let h =
              feed-IsCounted c ms ag'
                (record { same = w'.same; few = short; apart = w'.apart; used = w'.used }) in
            rw (feed-cons, take-short ag' (omega arith))
              (record {
                whole = h.whole;
                waiting = h.waiting;
                known = h.known ∙ ap (λ (u : List NodeId). distinct_authors u ms) (push-used m ag);
                count = omega (arith, h.count);
              })
        | no full ↦
            let ag'' = record ag' { items = [] } in
            let h =
              feed-IsCounted c ms ag''
                (record { same = w'.same; few = omega arith; apart = tt; used = λ a h. cc }) in
            rw (feed-cons, take-full ag' (omega (arith, w'.few)))
              (record {
                whole = ((omega (arith, w'.few), w'.apart), h.whole);
                waiting = h.waiting;
                known = h.known ∙ ap (λ (u : List NodeId). distinct_authors u ms) (push-used m ag);
                count = omega (arith, h.count, w'.few);
              })
      ]

  fresh-IsWaiting : (c : Committee) → IsWaiting c (hight_threshold c) (new_aggregator c)
  fresh-IsWaiting c = record { same = refl; few = omega arith; apart = tt; used = λ a h. cc }

  Distinct-known :
      (a : NodeId) (known : List NodeId)
      → Distinct known
      → Distinct (if contains a known then known else known ++ a ∷ [])
  Distinct-known a known d = elim (Bool-cases (contains a known)) [
    | inl old ↦ rw old d
    | inr new ↦
        rw new (Distinct-append known (a ∷ []) d (refl, tt) (λ b h. ground (arith, eqb_ℤ_iff a b)))
  ]

  Distinct-authors :
      (known : List NodeId) (ms : List M) → Distinct known → Distinct (distinct_authors known ms)
  unfolding distinct_authors
  Distinct-authors known [] d = d
  Distinct-authors known (m ∷ ms) d =
      Distinct-authors (if contains (author_of m) known then known else known ++ author_of m ∷ [])
        ms (Distinct-known (author_of m) known d)

  Within-authors :
      (known all : List NodeId) (ms : List M)
      → Within known all
      → All (λ m. contains (author_of m) all ≡ true) ms
      → Within (distinct_authors known ms) all
  unfolding distinct_authors
  Within-authors known all [] w h = w
  Within-authors known all (m ∷ ms) w h =
      Within-authors (if contains (author_of m) known then known else known ++ author_of m ∷ []) all
        ms
        (λ a k.
          ground (
            arith,
            w a,
            h.0,
            contains-append a known (author_of m ∷ []),
            eqb_ℤ_iff (author_of m) a,
          ))
        h.1

  -- Where a `Take` follows every `Push`, from a fresh aggregator on, every batch taken has exactly as
  -- many messages as the threshold says, all of different authors, and there are as many batches as
  -- the threshold goes into the number of different authors that sent a message.
  pub feed_lem :
      (c : Committee) (ms : List M)
      → All
          (λ batch. (length batch ≡ hight_threshold c) × Distinct (map author_of batch))
          (feed ms (new_aggregator c)).0
        × (length (feed ms (new_aggregator c)).0
            ≡ length (distinct_authors [] ms) / hight_threshold c)
  feed_lem c ms =
      let h = feed-IsCounted c ms (new_aggregator c) (fresh-IsWaiting c) in
      (
        h.whole,
        quotient (hight_threshold c) (length (feed ms (new_aggregator c)).0)
            (length (feed ms (new_aggregator c)).1.items) (length (distinct_authors [] ms))
            h.waiting.few (omega (arith, h.count, ap length h.known)),
      )

  -- Where every author is a member and the committee is smaller than twice the threshold (as it is
  -- for n = 3f+1), a batch is taken at most once, and it is taken once at least 2f+1 different
  -- members have sent a message.
  pub feed_once :
      (c : Committee) (ms : List M)
      → size c < 2 * hight_threshold c
      → All (λ m. contains (author_of m) (members c) ≡ true) ms
      → (length (feed ms (new_aggregator c)).0 ≤ 1)
        × ((length (feed ms (new_aggregator c)).0 ≡ 1)
            ↔ (hight_threshold c ≤ length (distinct_authors [] ms)))
  feed_once c ms n h =
      let counted = feed-IsCounted c ms (new_aggregator c) (fresh-IsWaiting c) in
      let seen =
        length-Within (distinct_authors [] ms) (members c) (Distinct-authors [] ms tt)
          (Within-authors [] (members c) ms (λ a k. cc) h) in
      at_most_once (hight_threshold c) (length (feed ms (new_aggregator c)).0)
        (length (feed ms (new_aggregator c)).1.items) (length (distinct_authors [] ms)) (size c)
        counted.waiting.few (omega (arith, counted.count, ap length counted.known))
        (omega
          (arith, seen, length-map {0, 0} (λ (entry : NodeId × Authority). entry.0) c.authorities))
        n
