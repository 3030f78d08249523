-- ===== src/Transmitor.antt =====
-- core/transimtor.go: where a message goes, and when. core/config.go: the parameters of the consensus.
-- Its two goroutines hand messages on in their order, to the sender and from the receiver.
pub mod Inbox
use Prim.Native.String.{String}
use loom.Committee.{NodeId, Committee, no_node, address, broad_cast}
use loom.Message.{msg_type, propose}
use loom.Message
use loom.Network
use loom.Prelude.{
  ℕ, zero, suc, ◌+◌, ◌-◌, ◌*◌, ◌/◌, ◌%◌, ◌^◌, ◌≤◌, ◌<◌, ◌≡◌, refl, sym, ap, ◌∙◌, ◌≢◌, ◌↔◌, ◌⊎◌, inl,
  inr, Bool, true, false, not, ◌&&◌, ◌||◌, Option, none, some, List, [], ◌∷◌, ◌++◌, map, arith, ltb,
  leb, eqb, if◌then◌else◌, Bool-cases, Option-cases, ltb→lt, lt→ltb, leb→le, length, length-append,
  All, any, all, get_elem?, set, drop, replicate, get_last?, List-cases, length-set,
  get_elem?-set_self, get_elem?-set_ne, get_elem?-append_left, get_elem?-append_right,
  get_elem?-out, get_elem?-in, get_elem?-drop, get_elem?-replicate, length-replicate, length-drop,
  length-map,
}
use loom.Prelude.Int.{
  ℤ, pos, negsuc, pos_part, neg_part, ◌≤ℤ◌, ◌<ℤ◌, ltb_ℤ, leb_ℤ, eqb_ℤ, eqb_ℤ_iff, eq_of_parts,
  IsInt, wrap, wrap_parts, ◌+ℤ◌, ◌-ℤ◌, IsSmall, -ℤ_parts, +ℤ_parts, parts_apart, offset_pos,
  offset_neg,
}
use loom.Prelude.Eq.{Eq, ◌==◌, nat_eq, int_eq, string_eq, list_eq, ==-refl, ==-false, ==-cases}
use loom.Prelude.Map.{
  Map, lookup, insert, delete, delete_if, get_or, lookup-insert, lookup-delete, lookup-delete_if,
  get_or-cons, get_or-insert,
}

pub record Parameters : Type 0 where
  pub sync_timeout : ℤ
  pub netwrok_delay : ℤ
  pub min_block_delay : ℤ
  pub ddos : Bool
  pub faults : ℤ
  pub retry_delay : ℤ

abbrev pub default_parameters : Parameters
default_parameters = record {
  sync_timeout = pos 500;
  netwrok_delay = pos 2000;
  min_block_delay = pos 0;
  ddos = false;
  faults = pos 0;
  retry_delay = pos 5000;
}

-- A message on its way to the sender, at once or behind a delay in milliseconds.
pub record Posting : Type 0 where
  pub after_func : Option ℤ
  pub message : Network.NetMessage String Message.NetMessage

abbrev pub addresses : NodeId → NodeId → Committee → List String
addresses from to c = if to == no_node then broad_cast c from else address c to ∷ []

-- `Send`; its error is always nil.
unfoldable pub send : NodeId → NodeId → Message.NetMessage → Parameters → Committee → Posting
unfolding address broad_cast
send from to msg ps c = record {
  after_func = if ps.ddos && (msg_type msg == 0) then some ps.netwrok_delay else none;
  message = record { msg = msg; address = addresses from to c };
}
