-- ===== src/Elector.antt =====
-- core/aggregator.go, `Elector`: collects the threshold shares of a round, and reveals its leader.
-- The maps hold pointers to aggregators that only the elector uses, so `Push` and `Take` write the
-- new aggregator back. A step returns the new elector with the error of the code, if any.
pub mod Agreement
use loom.Errors.{Error, err_library}
use loom.Committee.{NodeId, Committee, no_node, size}
use loom.Crypto.{Bytes, Primitives, SecretShareKey, SigService, combine_intact_ts_partial}
use loom.Message.{Elect}
use loom.Message.Hash.{elect_hash}
use loom.Aggregator.{Aggregator, new_aggregator, push, take}
use loom.Prelude.{
  ℕ, zero, suc, ◌+◌, ◌-◌, ◌*◌, ◌/◌, ◌%◌, ◌^◌, ◌≤◌, ◌<◌, ◌≡◌, refl, sym, ap, ◌∙◌, ◌≢◌, ◌↔◌, ◌⊎◌, inl,
  inr, Bool, true, false, not, ◌&&◌, ◌||◌, Option, none, some, List, [], ◌∷◌, ◌++◌, map, arith, ltb,
  leb, eqb, if◌then◌else◌, Bool-cases, Option-cases, length, length-append, All, any, all,
  get_elem?, set, drop, replicate, get_last?, List-cases,
}
use loom.Prelude.Int.{
  ℤ, pos, negsuc, pos_part, neg_part, ◌≤ℤ◌, ◌<ℤ◌, ltb_ℤ, leb_ℤ, eqb_ℤ, eqb_ℤ_iff, eq_of_parts,
  IsInt, wrap, wrap_parts, ◌+ℤ◌, ◌-ℤ◌,
}
use loom.Prelude.Eq.{Eq, ◌==◌, nat_eq, int_eq, string_eq, list_eq, ==-refl, ==-false}
use loom.Prelude.Result.{
  Result, ok, panic, Fault, nil_pointer, index_out_of_range, slice_out_of_range, explicit_panic,
  divide_by_zero, ◌>>=◌, or_panic, or_panic-eq-ok,
}
use loom.Prelude.Map.{
  Map, lookup, insert, delete, delete_if, get_or, lookup-insert, lookup-delete, lookup-delete_if,
}

module _ (p : Primitives) where
  pub record Elector : Type 0 where
    pub leader : Map ℤ NodeId
    pub ag : Map ℤ (Aggregator Elect)
    pub sig_service : SigService p
    pub committee : Committee

  abbrev pub new_elector : SigService p → Committee → Elector
  new_elector s c = record { leader = []; ag = []; sig_service = s; committee = c }

-- `Reveal` reads the first four bytes; `seed<<8 + x` is `seed * 256 + x`, far below 2^63.
reveal_seed : ℕ → ℕ → ℕ → Bytes → Result ℕ
reveal_seed zero i seed sig = ok seed
reveal_seed (suc n) i seed sig =
    let rest = λ (byte : ℕ). reveal_seed n (i + 1) (seed * 2 ^ 8 + byte) sig in
    elim (get_elem? sig i) [ none ↦ panic index_out_of_range | some byte ↦ rest byte ]

-- The remainder by the size of an empty committee panics.
unfoldable pub reveal : Committee → Bytes → Result NodeId
unfolding reveal_seed
reveal c sig = reveal_seed 4 0 0 sig >>= λ seed.
    if eqb (size c) 0 then panic divide_by_zero else ok (pos (seed % size c))

module _ (p : Primitives) where
  -- What `Add` does with the messages that `Take` gave.
  unfoldable pub elect_from : Elect → List Elect → Elector p → Result (Elector p × Option Error)
  elect_from m msg e =
      let shares = map (λ (x : Elect). x.sig_share) msg in
      elim (combine_intact_ts_partial p shares e.sig_service.share_key (elect_hash p m)) [
        | none ↦ ok (e, some err_library)
        | some sig ↦ reveal e.committee sig >>= λ leader.
            ok (record e { leader = insert m.round leader e.leader }, none)
      ]

  unfoldable pub add : Elect → Elector p → Result (Elector p × Option Error)
  add m e =
      let a : Aggregator Elect = elim (lookup m.round e.ag) [
        | none ↦ new_aggregator e.committee
        | some a ↦ a
      ] in
      let (msg, a') = take (push m.author m a) in
      let e' = record e { ag = insert m.round a' e.ag } in
      elim msg [ none ↦ ok (e', none) | some ms ↦ elect_from m ms e' ]

  unfoldable pub try_get_leader : ℤ → Elector p → Bool × NodeId
  unfolding lookup
  try_get_leader round e = elim (lookup round e.leader) [
    | none ↦ (false, no_node)
    | some leader ↦ (true, leader)
  ]

  unfoldable pub remove_by : ℤ → Elector p → Elector p
  unfolding delete
  remove_by round e = record e { leader = delete round e.leader; ag = delete round e.ag }
