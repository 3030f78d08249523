-- ===== src/Retriever/Tracking.antt =====
-- The digests that are pending and the requests that are kept, apart from the rest of core/retriever.go.
use loom.Crypto.{Digest}
use loom.Message.{RequestBlockMsg}
use loom.Prelude.Keys.{Finds, keys, insert-Distinct, delete-Distinct}
use loom.Prelude.{
  ℕ, ◌+◌, ◌≤◌, ◌≡◌, refl, sym, ap, ◌∙◌, ◌≢◌, ◌⊎◌, inl, inr, true, false, ◌||◌, none, some, List, [],
  ◌∷◌, arith, if◌then◌else◌, Bool-cases,
}
use loom.Prelude.Int.{ℤ, pos}
use loom.Prelude.Eq.{◌==◌, nat_eq, int_eq, string_eq, list_eq, ==-refl, ==-false, ==-cases}
use loom.Prelude.Map.{Map, lookup, insert, delete, lookup-insert, lookup-delete}
use loom.Prelude.Distinct.{contains, Distinct}

abbrev pub Requests : Type 0
Requests = Map ℤ RequestBlockMsg

-- The request under an id asks for a digest.
abbrev pub Asks : Requests → ℤ → Digest → Type 0
Asks requests id d =
    (req : RequestBlockMsg) × (lookup id requests ≡ some req) × (contains d req.miss_block ≡ true)

pub record IsTracked (pending : List Digest) (requests : Requests) (cnt : ℕ) : Type 0 where
  pub distinct : Distinct (keys requests)
  pub own_id : (id : ℤ) (req : RequestBlockMsg) → lookup id requests ≡ some req → req.req_id ≡ id
  pub fresh : (i : ℕ) → cnt ≤ i → lookup (pos i) requests ≡ none
  -- Every pending digest is asked for by a request, by one only, and only pending digests are.
  pub asked : (d : Digest) → contains d pending ≡ true → (id : ℤ) × Asks requests id d
  pub held : (id : ℤ) (d : Digest) → Asks requests id d → contains d pending ≡ true
  pub apart : (i j : ℤ) (d : Digest) → Asks requests i d → Asks requests j d → i ≡ j

-- A request that is inserted, or was there under another id.
Asks-insert :
    (new id : ℤ) (req : RequestBlockMsg) (requests : Requests) (d : Digest)
    → Asks (insert new req requests) id d
    → ((id ≡ new) × (contains d req.miss_block ≡ true)) ⊎ ((id ≢ new) × Asks requests id d)
Asks-insert new id req requests d (found, there, has) = elim (==-cases id new) [
  | inl same ↦
      let hit : lookup id (insert new req requests) ≡ some req =
        lookup-insert new id req requests ∙ rw ((int_eq.same_iff new id).1 (sym same)) refl in
      inl (same, cc)
  | inr other ↦
      let past : lookup id (insert new req requests) ≡ lookup id requests =
        lookup-insert new id req requests ∙ rw (==-false new id (λ q. other (sym q))) refl in
      inr (other, (found, sym past ∙ there, has))
]

insert-Asks :
    (new id : ℤ) (req : RequestBlockMsg) (requests : Requests) (d : Digest)
    → id ≢ new
    → Asks requests id d
    → Asks (insert new req requests) id d
insert-Asks new id req requests d other (found, there, has) =
    let past : lookup id (insert new req requests) ≡ lookup id requests =
      lookup-insert new id req requests ∙ rw (==-false new id (λ q. other (sym q))) refl in
    (found, past ∙ there, has)

insert-Asks_new :
    (new : ℤ) (req : RequestBlockMsg) (requests : Requests) (d : Digest)
    → contains d req.miss_block ≡ true
    → Asks (insert new req requests) new d
insert-Asks_new new req requests d has =
    (req, lookup-insert new new req requests ∙ rw (==-refl new) refl, has)

insert-own_id :
    (new : ℤ) (req : RequestBlockMsg) (requests : Requests)
    → ((id : ℤ) (r : RequestBlockMsg) → lookup id requests ≡ some r → r.req_id ≡ id)
    → req.req_id ≡ new
    → (id : ℤ) (r : RequestBlockMsg) → lookup id (insert new req requests) ≡ some r
    → r.req_id ≡ id
insert-own_id new req requests own mine id r h =
    ground (arith, lookup-insert new id req requests, int_eq.same_iff new id, own id r, mine, h)

abbrev Missing : Requests → ℕ → Type 0
Missing requests cnt = (i : ℕ) → cnt ≤ i → lookup (pos i) requests ≡ none

-- An id that is not given out yet is not in use.
unused :
    (requests : Requests) (cnt : ℕ) (d : Digest)
    → Missing requests cnt
    → ¬ Asks requests (pos cnt) d
unused requests cnt d fresh (req, there, has) = absurd (cc (fresh cnt (omega arith)))

-- A digest that nobody asks for yet is asked for under a new id.
pub insert_new-IsTracked :
    (before after : List Digest) (requests : Requests) (cnt : ℕ) (req : RequestBlockMsg)
    → IsTracked before requests cnt
    → req.req_id ≡ pos cnt
    → ((x : Digest) → contains x after ≡ contains x req.miss_block || contains x before)
    → ((x : Digest) → contains x before ≡ true → contains x req.miss_block ≡ false)
    → IsTracked after (insert (pos cnt) req requests) (cnt + 1)
insert_new-IsTracked before after requests cnt req t mine grows new = record {
  distinct = insert-Distinct (pos cnt) req requests t.distinct;
  own_id = insert-own_id (pos cnt) req requests t.own_id mine;
  fresh = λ i late.
      lookup-insert (pos cnt) (pos i) req requests
      ∙ ground (arith, t.fresh i, int_eq.same_iff (pos cnt) (pos i));
  asked = λ d pends. elim (Bool-cases (contains d req.miss_block)) [
    | inl asks ↦ (pos cnt, insert-Asks_new (pos cnt) req requests d asks)
    | inr other ↦
        let (id, (found, there, has)) = t.asked d (ground (arith, grows d)) in
        let taken = λ (same : id ≡ pos cnt).
          unused requests cnt d t.fresh
            (found, ap (λ k. lookup k requests) (sym same) ∙ there, has) in
        (id, insert-Asks (pos cnt) id req requests d taken (found, there, has))
  ];
  held = λ id d asks. elim (Asks-insert (pos cnt) id req requests d asks) [
    | inl (same, has) ↦ ground (arith, grows d)
    | inr (other, old) ↦ ground (arith, grows d, t.held id d old)
  ];
  apart = λ i j d a b. elim (Asks-insert (pos cnt) i req requests d a) [
    | inl (same, has) ↦ elim (Asks-insert (pos cnt) j req requests d b) [
      | inl (same', has') ↦ same ∙ sym same'
      | inr (other, old) ↦ absurd (cc (new d (t.held j d old)))
    ]
    | inr (other, old) ↦ elim (Asks-insert (pos cnt) j req requests d b) [
      | inl (same, has) ↦ absurd (cc (new d (t.held i d old)))
      | inr (other', old') ↦ t.apart i j d old old'
    ]
  ];
}

pub set-IsTracked :
    (before after : List Digest) (requests : Requests) (cnt : ℕ)
    → IsTracked before requests cnt
    → ((x : Digest) → contains x after ≡ contains x before)
    → IsTracked after requests (cnt + 1)
set-IsTracked before after requests cnt t same = record {
  distinct = t.distinct;
  own_id = t.own_id;
  fresh = λ i late. t.fresh i (omega arith);
  asked = λ d pends. t.asked d (sym (same d) ∙ pends);
  held = λ id d asks. same d ∙ t.held id d asks;
  apart = t.apart;
}

same_found :
    (id j : ℤ) (requests : Requests) (a b : RequestBlockMsg)
    → j ≡ id
    → lookup id requests ≡ some a
    → lookup j requests ≡ some b
    → a ≡ b
same_found id j requests a b same at_id at_j =
    let at_both : lookup id requests ≡ some b = ap (λ k. lookup k requests) (sym same) ∙ at_j in cc

Asks-delete :
    (old id : ℤ) (requests : Requests) (d : Digest)
    → Asks (delete old requests) id d
    → (old ≢ id) × Asks requests id d
Asks-delete old id requests d (found, there, has) = elim (==-cases old id) [
  | inl same ↦
      let gone : lookup id (delete old requests) ≡ none =
        lookup-delete old id requests ∙ rw ((int_eq.same_iff old id).1 same) refl in
      absurd (cc)
  | inr other ↦
      let past : lookup id (delete old requests) ≡ lookup id requests =
        lookup-delete old id requests ∙ rw (==-false old id other) refl in
      (other, (found, sym past ∙ there, has))
]

-- A request made anew, with the same digests.
pub renew-IsTracked :
    (pending : List Digest) (requests : Requests) (cnt : ℕ) (id : ℤ) (old req : RequestBlockMsg)
    → IsTracked pending requests cnt
    → lookup id requests ≡ some old
    → req.req_id ≡ id
    → req.miss_block ≡ old.miss_block
    → IsTracked pending (insert id req requests) cnt
renew-IsTracked pending requests cnt id old req t was mine digests =
    let back = λ (j : ℤ) (d : Digest) (asks : Asks (insert id req requests) j d).
      let there : Asks requests j d = elim (Asks-insert id j req requests d asks) [
        | inl (same, has) ↦
            (old, ap (λ k. lookup k requests) same ∙ was, sym (ap (contains d) digests) ∙ has)
        | inr (other, asks') ↦ asks'
      ] in
      there in
    record {
      distinct = insert-Distinct id req requests t.distinct;
      own_id = insert-own_id id req requests t.own_id mine;
      fresh = λ i late.
          lookup-insert id (pos i) req requests
          ∙ ground (arith, t.fresh i, int_eq.same_iff id (pos i), was);
      asked = λ d pends.
          let (j, (found, there, has)) = t.asked d pends in
          elim (==-cases j id) [
            | inl same ↦
                let is_old : old ≡ found = same_found id j requests old found same was there in
                let still =
                  ap (contains d) digests
                  ∙ ap (λ (r : RequestBlockMsg). contains d r.miss_block) is_old
                  ∙ has in
                (id, insert-Asks_new id req requests d still)
            | inr other ↦ (j, insert-Asks id j req requests d other (found, there, has))
          ];
      held = λ j d asks. t.held j d (back j d asks);
      apart = λ i j d a b. t.apart i j d (back i d a) (back j d b);
    }

-- A request that is answered goes, and its digests are no longer pending.
pub delete-IsTracked :
    (before after : List Digest) (requests : Requests) (cnt : ℕ) (id : ℤ) (req : RequestBlockMsg)
    → IsTracked before requests cnt
    → lookup id requests ≡ some req
    → ((x : Digest)
        → contains x after ≡ (if contains x req.miss_block then false else contains x before))
    → IsTracked after (delete id requests) cnt
delete-IsTracked before after requests cnt id req t was shrinks =
    let past = λ (j : ℤ). lookup-delete id j requests in
    record {
      distinct = delete-Distinct id requests t.distinct;
      own_id = λ j r h. ground (arith, past j, t.own_id j r, h);
      fresh = λ i late. past (pos i) ∙ ground (arith, t.fresh i);
      asked = λ d pends.
          let kept : contains d before ≡ true = ground (arith, shrinks d) in
          let (j, (found, there, has)) = t.asked d kept in
          let other : (id == j) ≡ false = ==-false id j (λ same.
            let mine : req ≡ found = same_found id j requests req found (sym same) was there in
            let gone : contains d req.miss_block ≡ true =
              ap (λ (r : RequestBlockMsg). contains d r.miss_block) mine ∙ has in
            let not_pending : contains d after ≡ false = shrinks d ∙ rw gone refl in absurd (cc)) in
          (j, (found, past j ∙ rw other there, has));
      held = λ j d asks.
          let (other, old) = Asks-delete id j requests d asks in
          elim (Bool-cases (contains d req.miss_block)) [
            | inl also ↦ absurd (other (t.apart id j d (req, was, also) old))
            | inr free ↦ shrinks d ∙ rw free (t.held j d old)
          ];
      apart = λ i j d a b.
          t.apart i j d (Asks-delete id i requests d a).1 (Asks-delete id j requests d b).1;
    }

pub no_requests : IsTracked [] [] 0
unfolding lookup
no_requests = record {
  distinct = tt;
  own_id = λ id req h. cc;
  fresh = λ i late. refl;
  asked = λ d pends. cc;
  held = λ id d (found, there, has). cc;
  apart = λ i j d (found, there, has) b. cc;
}

-- What was asked for under an id still is.
abbrev pub Kept : Requests → Requests → Type 0
Kept before after =
    (id : ℤ) (old : RequestBlockMsg)
    → lookup id before ≡ some old
    → (new : RequestBlockMsg) × (lookup id after ≡ some new) × (old.miss_block ≡ new.miss_block)

pub Kept-insert :
    (id : ℤ) (old req : RequestBlockMsg) (requests : Requests)
    → lookup id requests ≡ some old
    → req.miss_block ≡ old.miss_block
    → Kept requests (insert id req requests)
Kept-insert id old req requests was digests j found there = elim (==-cases id j) [
  | inl same ↦
      let mine : old ≡ found = same_found id j requests old found (sym same) was there in
      (
        req,
        lookup-insert id j req requests ∙ rw ((int_eq.same_iff id j).1 same) refl,
        ap (λ (r : RequestBlockMsg). r.miss_block) (sym mine) ∙ sym digests,
      )
  | inr other ↦ (found, lookup-insert id j req requests ∙ rw (==-false id j other) there, refl)
]

-- The requests that a range goes over are kept with the same digests, new ones in place of some.
abbrev pub StillAsked : Requests → Requests → Type 0
StillAsked requests [] = Unit
StillAsked requests ((id, req) ∷ part) =
    ((old : RequestBlockMsg) × (lookup req.req_id requests ≡ some old)
      × (req.miss_block ≡ old.miss_block))
    × StillAsked requests part

pub Kept-StillAsked :
    (before after part : Requests)
    → Kept before after
    → StillAsked before part
    → StillAsked after part
Kept-StillAsked before after [] kept still = tt
Kept-StillAsked before after ((id, req) ∷ part) kept ((old, known, digests), still) =
    let (new, there, same) = kept req.req_id old known in
    ((new, there, digests ∙ same), Kept-StillAsked before after part kept still)

pub Finds-StillAsked :
    (requests part : Requests)
    → ((id : ℤ) (req : RequestBlockMsg) → lookup id requests ≡ some req → req.req_id ≡ id)
    → Finds requests part
    → StillAsked requests part
Finds-StillAsked requests [] own finds = tt
Finds-StillAsked requests ((id, req) ∷ part) own (found, finds) = (
  (req, ap (λ k. lookup k requests) (own id req found) ∙ found, refl),
  Finds-StillAsked requests part own finds,
)
