-- ===== src/Aggregator.antt =====
-- core/aggregator.go, `Aggregator`: collects one message of each author until the threshold is met.
-- The set `Used` is the list of its members. `Take` returns nil, here `none`, below the threshold.
pub mod Counting
use loom.Committee.{NodeId, Committee, hight_threshold}
use loom.Prelude.{
  ℕ, zero, suc, ◌+◌, ◌-◌, ◌*◌, ◌/◌, ◌%◌, ◌^◌, ◌≤◌, ◌<◌, ◌≡◌, refl, sym, ap, ◌∙◌, ◌≢◌, ◌↔◌, ◌⊎◌, inl,
  inr, Bool, true, false, not, ◌&&◌, ◌||◌, Option, none, some, List, [], ◌∷◌, ◌++◌, map, arith, ltb,
  leb, eqb, if◌then◌else◌, Bool-cases, Option-cases, length, length-append, All, any, all,
  get_elem?, set, drop, replicate, get_last?, List-cases,
}
use loom.Prelude.Int.{
  ℤ, pos, negsuc, pos_part, neg_part, ◌≤ℤ◌, ◌<ℤ◌, ltb_ℤ, leb_ℤ, eqb_ℤ, eqb_ℤ_iff, eq_of_parts,
  IsInt, wrap, wrap_parts, ◌+ℤ◌, ◌-ℤ◌,
}
use loom.Prelude.Eq.{Eq, ◌==◌, nat_eq, int_eq, string_eq, list_eq, ==-refl, ==-false}
use loom.Prelude.Distinct.{
  contains, Distinct, Within, remove, common, length-common, contains-append, contains-remove,
  length-remove, length-Within, Distinct-append,
}

pub record Aggregator (M : Type 0) : Type 0 where
  pub items : List M
  pub used : List NodeId
  pub committee : Committee

module _ {M : Type 0} where
  abbrev pub new_aggregator : Committee → Aggregator M
  new_aggregator c = record { items = []; used = []; committee = c }

  unfoldable pub push : NodeId → M → Aggregator M → Aggregator M
  push author msg ag =
      if contains author ag.used
      then ag
      else record ag { used = ag.used ++ author ∷ []; items = ag.items ++ msg ∷ [] }

  unfoldable pub take : Aggregator M → Option (List M) × Aggregator M
  take ag =
      let thld = hight_threshold ag.committee in
      if leb thld (length ag.items)
      then (some ag.items, record ag { items = drop thld ag.items })
      else (none, ag)
