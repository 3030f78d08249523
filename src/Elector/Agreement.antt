-- ===== src/Elector/Agreement.antt =====
-- What the elector of core/aggregator.go promises: a leader is a member, and the same everywhere.
use loom.Errors.{Error}
use loom.Committee.{NodeId, Committee, no_node, size}
use loom.Crypto.{Bytes, Digest, Primitives, combine_intact_ts_partial}
use loom.Message.{Elect}
use loom.Message.Hash.{elect_hash}
use loom.Aggregator.{Aggregator, new_aggregator, push, take}
use loom.Elector.{Elector, reveal, elect_from, add, try_get_leader}
use mathlib.Core.Path.{subst, ap₂}
use loom.Prelude.{
  ℕ, ◌+◌, ◌*◌, ◌%◌, ◌≤◌, ◌<◌, ◌≡◌, refl, ap, ◌∙◌, ◌≢◌, ◌⊎◌, inl, inr, true, false, Option, none,
  some, List, [], ◌∷◌, map, arith, Option-cases, length,
}
use loom.Prelude.Int.{ℤ, pos}
use loom.Prelude.Eq.{nat_eq, int_eq, string_eq, list_eq, ==-refl, ==-false}
use loom.Prelude.Result.{ok, panic, index_out_of_range, Result-cases}
use loom.Prelude.Map.{lookup, insert, lookup-insert}

-- The first four bytes as a big-endian number.
abbrev pub big_endian : Bytes → ℕ
big_endian (a ∷ b ∷ c ∷ d ∷ rest) = ((a * 256 + b) * 256 + c) * 256 + d
big_endian sig = 0

-- With a signature of at least four bytes and a committee that is not empty, `Reveal` gives the
-- index below the committee's size that the first four bytes select; with fewer bytes it panics.
pub reveal_lem :
    (c : Committee) (sig : Bytes)
    → 0 < size c
    → ((4 ≤ length sig)
        × (reveal c sig ≡ ok (pos (big_endian sig % size c)))
        × (big_endian sig % size c < size c))
      ⊎ ((length sig < 4) × (reveal c sig ≡ panic index_out_of_range))
unfolding reveal
reveal_lem c [] h = ground arith
reveal_lem c (a ∷ []) h = ground arith
reveal_lem c (a ∷ b ∷ []) h = ground arith
reveal_lem c (a ∷ b ∷ d ∷ []) h = ground arith
reveal_lem c (a ∷ b ∷ d ∷ f ∷ rest) h = ground arith

module _ (p : Primitives) where
  -- What a leader that `Add` enters for a round rests on.
  record IsRevealed (m : Elect) (e : Elector p) (leader : NodeId) : Type 0 where
    shares : List Bytes
    sig : Bytes
    recovered :
        p.tbls_recover e.sig_service.share_key.pub_poly
          (elect_hash p m)
          shares
          e.sig_service.share_key.t
          e.sig_service.share_key.n
        ≡ some sig
    revealed : reveal e.committee sig ≡ ok leader

  -- A step leaves the elector's service and committee, and every other round, as they are; it enters
  -- no leader, or the one that a recovered signature reveals.
  record IsStep (m : Elect) (e e' : Elector p) : Type 0 where
    service : e'.sig_service ≡ e.sig_service
    committee : e'.committee ≡ e.committee
    leader :
        (e'.leader ≡ e.leader)
        ⊎ ((l : NodeId) × (e'.leader ≡ insert m.round l e.leader) × IsRevealed m e l)

  elect_from-IsStep :
      (m : Elect) (ms : List Elect) (e e' : Elector p) (err : Option Error)
      → elect_from p m ms e ≡ ok (e', err)
      → IsStep m e e' × (e'.ag ≡ e.ag)
  unfolding elect_from combine_intact_ts_partial
  elect_from-IsStep m ms e e' err h =
      let shares : List Bytes = map (λ s. s.partial_sig) (map (λ (x : Elect). x.sig_share) ms) in
      let key = e.sig_service.share_key in
      elim (Option-cases (p.tbls_recover key.pub_poly (elect_hash p m) shares key.t key.n)) [
        | inl failed ↦ (
          record { service = ground arith; committee = ground arith; leader = inl (ground arith) },
          ground arith,
        )
        | inr (sig, got) ↦ elim (Result-cases (reveal e.committee sig)) [
          | inl (l, shown) ↦ (
            record {
              service = ground arith;
              committee = ground arith;
              leader = inr (
                l,
                ground arith,
                record { shares = shares; sig = sig; recovered = got; revealed = shown },
              );
            },
            ground arith,
          )
          | inr (f, shown) ↦ absurd (ground arith)
        ]
      ]

  add-IsStep :
      (m : Elect) (e e' : Elector p) (err : Option Error)
      → add p m e ≡ ok (e', err)
      → IsStep m e e' × ((a : Aggregator Elect) × (e'.ag ≡ insert m.round a e.ag))
  unfolding add
  add-IsStep m e e' err h =
      let a : Aggregator Elect = elim (lookup m.round e.ag) [
        | none ↦ new_aggregator e.committee
        | some a ↦ a
      ] in
      let a' = (take (push m.author m a)).1 in
      let e₁ = record e { ag = insert m.round a' e.ag } in
      elim (Option-cases (take (push m.author m a)).0) [
        | inl short ↦ (
          record { service = ground arith; committee = ground arith; leader = inl (ground arith) },
          (a', ground arith),
        )
        | inr (ms, full) ↦
            let (step, ags) = elect_from-IsStep m ms e₁ e' err (ground arith) in
            (
              record {
                service = step.service;
                committee = step.committee;
                leader = elim step.leader [
                  | inl same ↦ inl same
                  | inr (l, entered, shown) ↦ inr (
                    l,
                    entered,
                    record {
                      shares = shown.shares;
                      sig = shown.sig;
                      recovered = shown.recovered;
                      revealed = shown.revealed;
                    },
                  )
                ];
              },
              (a', ags),
            )
      ]

  -- `Add` of a share for one round that ends without a panic leaves the leader and the shares of every other round as they
  -- are, whether or not it ends in an error.
  pub add-other :
      (m : Elect) (e e' : Elector p) (err : Option Error) (r : ℤ)
      → add p m e ≡ ok (e', err)
      → m.round ≢ r
      → (lookup r e'.leader ≡ lookup r e.leader) × (lookup r e'.ag ≡ lookup r e.ag)
  add-other m e e' err r h ne =
      let (step, (a, ags)) = add-IsStep m e e' err h in
      (
        elim step.leader [
          | inl same ↦ ap (lookup r) same
          | inr (l, entered, shown) ↦
              ap (lookup r) entered ∙ rw (lookup-insert, ==-false m.round r ne) refl
        ],
        ap (lookup r) ags ∙ rw (lookup-insert, ==-false m.round r ne) refl,
      )

  add-IsRevealed :
      (m : Elect) (e e' : Elector p) (err : Option Error) (l : NodeId)
      → try_get_leader p m.round e ≡ (false, no_node)
      → add p m e ≡ ok (e', err)
      → try_get_leader p m.round e' ≡ (true, l)
      → IsRevealed m e l
  unfolding try_get_leader
  add-IsRevealed m e e' err l before h now =
      let (step, _) = add-IsStep m e e' err h in
      elim step.leader [
        | inl same ↦ absurd (ground (arith, ap (lookup m.round) same))
        | inr (l', entered, shown) ↦
            let found : lookup m.round e'.leader ≡ some l' =
              ap (lookup m.round) entered ∙ rw (lookup-insert, ==-refl m.round) refl in
            let same : l' ≡ l = ground arith in subst (IsRevealed m e) same shown
      ]

  -- Two nodes share a group key and a committee.
  pub record SharesKey (e₁ e₂ : Elector p) : Type 0 where
    pub pub_poly : e₁.sig_service.share_key.pub_poly ≡ e₂.sig_service.share_key.pub_poly
    pub t : e₁.sig_service.share_key.t ≡ e₂.sig_service.share_key.t
    pub n : e₁.sig_service.share_key.n ≡ e₂.sig_service.share_key.n
    pub committee : e₁.committee ≡ e₂.committee

  -- Threshold signatures are unique: whatever shares are combined, what is recovered for a digest is
  -- the same.
  abbrev pub IsUnique : Type 0
  IsUnique =
      (key : p.PubPoly) (d : Digest) (xs ys : List Bytes) (t n : ℕ) (x y : Bytes)
      → p.tbls_recover key d xs t n ≡ some x
      → p.tbls_recover key d ys t n ≡ some y
      → x ≡ y

  round_hash : (m₁ m₂ : Elect) → m₁.round ≡ m₂.round → elect_hash p m₁ ≡ elect_hash p m₂
  unfolding elect_hash
  round_hash m₁ m₂ h = cc

  -- Two nodes that share the group key and the committee, each with no leader for a round, reveal
  -- the same leader when a share of that round makes them reveal one, whichever shares each of them
  -- had collected, if threshold signatures are unique.
  pub add-agree :
      (m₁ m₂ : Elect) (e₁ e₁' e₂ e₂' : Elector p) (err₁ err₂ : Option Error) (l₁ l₂ : NodeId)
      → IsUnique
      → SharesKey e₁ e₂
      → m₁.round ≡ m₂.round
      → try_get_leader p m₁.round e₁ ≡ (false, no_node)
      → try_get_leader p m₂.round e₂ ≡ (false, no_node)
      → add p m₁ e₁ ≡ ok (e₁', err₁)
      → add p m₂ e₂ ≡ ok (e₂', err₂)
      → try_get_leader p m₁.round e₁' ≡ (true, l₁)
      → try_get_leader p m₂.round e₂' ≡ (true, l₂)
      → l₁ ≡ l₂
  add-agree m₁ m₂ e₁ e₁' e₂ e₂' err₁ err₂ l₁ l₂ unique k hr f₁ f₂ a₁ a₂ g₁ g₂ =
      let r₁ = add-IsRevealed m₁ e₁ e₁' err₁ l₁ f₁ a₁ g₁ in
      let r₂ = add-IsRevealed m₂ e₂ e₂' err₂ l₂ f₂ a₂ g₂ in
      let same : r₁.sig ≡ r₂.sig =
        unique e₂.sig_service.share_key.pub_poly (elect_hash p m₂) r₁.shares r₂.shares
          e₂.sig_service.share_key.t e₂.sig_service.share_key.n r₁.sig r₂.sig
          (rw (← k.pub_poly, ← k.t, ← k.n, ← round_hash m₁ m₂ hr) r₁.recovered) r₂.recovered in
      cc (r₁.revealed, r₂.revealed, ap₂ reveal k.committee same)
