-- ===== src/Tests.antt =====
-- Data for the tests: a committee of four nodes and stand-ins for the cryptographic primitives.
pub mod Quorums
pub mod Signing
pub mod Blocks
pub mod Anchors
pub mod Proposals
pub mod Execution
pub mod Pools
pub mod Fetching
pub mod Sending
pub mod Files
pub mod Waiters
use loom.Committee.{Authority, Committee, NodeId}
use loom.Crypto.{Primitives, SigService}
use loom.Message.{Batch, Slot, Block}
use loom.Dag.{Dag, new_dag}
use loom.Prelude.{
  ℕ, zero, suc, ◌+◌, ◌-◌, ◌*◌, ◌/◌, ◌%◌, ◌^◌, ◌≤◌, ◌<◌, ◌≡◌, refl, sym, ap, ◌∙◌, ◌≢◌, ◌↔◌, ◌⊎◌, inl,
  inr, Bool, true, false, not, ◌&&◌, ◌||◌, Option, none, some, List, [], ◌∷◌, ◌++◌, map, arith, ltb,
  leb, eqb, if◌then◌else◌, Bool-cases, Option-cases, ltb→lt, lt→ltb, leb→le, length, length-append,
  All, any, all, get_elem?, set, drop, replicate, get_last?, List-cases, length-set,
  get_elem?-set_self, get_elem?-set_ne, get_elem?-append_left, get_elem?-append_right,
  get_elem?-out, get_elem?-in, get_elem?-drop, get_elem?-replicate, length-replicate, length-drop,
  length-map,
}
use loom.Prelude.Int.{
  ℤ, pos, negsuc, pos_part, neg_part, ◌≤ℤ◌, ◌<ℤ◌, ltb_ℤ, leb_ℤ, eqb_ℤ, eqb_ℤ_iff, eq_of_parts,
  IsInt, wrap, wrap_parts, ◌+ℤ◌, ◌-ℤ◌, IsSmall, -ℤ_parts, +ℤ_parts, parts_apart, offset_pos,
  offset_neg,
}
use loom.Prelude.Eq.{Eq, ◌==◌, nat_eq, int_eq, string_eq, list_eq, ==-refl, ==-false, ==-cases}
use loom.Prelude.Map.{
  Map, lookup, insert, delete, delete_if, get_or, lookup-insert, lookup-delete, lookup-delete_if,
  get_or-cons, get_or-insert,
}

abbrev node : ℕ → NodeId × Authority
node i = (pos i, record { name = replicate 32 i; id = pos i; addr = "node" })

abbrev pub four : Committee
four = record { authorities = node 0 ∷ node 1 ∷ node 2 ∷ node 3 ∷ [] }

-- The digest of a text is the text, a signature is what it signs, and shares combine to 0, 0, 0, 6.
abbrev pub toy : Primitives
toy = record {
  PubPoly = ℕ;
  PriShare = ℕ;
  sha256 = λ x. x;
  ed_sign = λ key d. d;
  ed_verify = λ key d s. d == s;
  tbls_sign = λ share d. some d;
  tbls_recover = λ poly d shares t n. some (0 ∷ 0 ∷ 0 ∷ 6 ∷ []);
}

abbrev pub service : SigService toy
service = record {
  pri_key = replicate 64 1;
  share_key = record { pub_poly = 0; pri_share = 1; n = 4; t = 3 };
}

abbrev pub empty_batch : Batch
empty_batch = record { id = negsuc 0; txs = [] }

abbrev pub slot_of : ℕ → ℕ → Slot
slot_of author height = record { author = pos author; height = pos height }

abbrev pub block_of : ℕ → ℕ → ℕ → ℕ → Block
block_of author height round first = record {
  header = record { slot = slot_of author height; round = pos round; first_ref_h = pos first };
  batch = empty_batch;
  ref = [];
  sig = record { sig = [] };
}

abbrev pub empty_dag : Dag
empty_dag = record (new_dag (pos 0) four) {
  cache_mark = (pos 0, negsuc 0) ∷ (pos 1, negsuc 0) ∷ (pos 2, negsuc 0) ∷ (pos 3, negsuc 0) ∷ [];
}
