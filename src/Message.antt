-- ===== src/Message.antt =====
-- core/message.go and pool/message.go: the data that the nodes exchange, and the requests that the
-- core, the DAG and the commitor pass to one another.
-- A reply channel is known by a number. A nil slice is the empty list. The types of the messages are
-- constructors of one data type for the network and one for the DAG's channel `opCh`.
pub mod Hash
pub mod Make
pub mod Signed
use loom.Committee.{NodeId}
use loom.Crypto.{Bytes, Digest, Signature, SignatureShare}
use loom.Prelude.{
  ℕ, zero, suc, ◌+◌, ◌-◌, ◌*◌, ◌/◌, ◌%◌, ◌^◌, ◌≤◌, ◌<◌, ◌≡◌, refl, sym, ap, ◌∙◌, ◌≢◌, ◌↔◌, ◌⊎◌, inl,
  inr, Bool, true, false, not, ◌&&◌, ◌||◌, Option, none, some, List, [], ◌∷◌, ◌++◌, map, arith, ltb,
  leb, eqb, if◌then◌else◌, Bool-cases, Option-cases, length, length-append, All, any, all,
  get_elem?, set, drop, replicate, get_last?, List-cases,
}
use loom.Prelude.Int.{
  ℤ, pos, negsuc, pos_part, neg_part, ◌≤ℤ◌, ◌<ℤ◌, ltb_ℤ, leb_ℤ, eqb_ℤ, eqb_ℤ_iff, eq_of_parts,
  IsInt, wrap, wrap_parts, ◌+ℤ◌, ◌-ℤ◌,
}
use loom.Prelude.Eq.{Eq, ◌==◌, nat_eq, int_eq, string_eq, list_eq, ==-refl, ==-false}
use loom.Prelude.Map.{
  Map, lookup, insert, delete, delete_if, get_or, lookup-insert, lookup-delete, lookup-delete_if,
}

abbrev pub Transaction : Type 0
Transaction = Bytes

pub record Batch : Type 0 where
  pub id : ℤ
  pub txs : List Transaction

pub record Slot : Type 0 where
  pub author : NodeId
  pub height : ℤ

pub record Header : Type 0 where
  pub slot : Slot
  pub round : ℤ
  pub first_ref_h : ℤ

pub record Block : Type 0 where
  pub header : Header
  pub batch : Batch
  pub ref : List Header
  pub sig : Signature

pub record Echo : Type 0 where
  pub author : NodeId
  pub header : Header
  pub sig : Signature

pub record Elect : Type 0 where
  pub author : NodeId
  pub round : ℤ
  pub sig_share : SignatureShare

pub record RequestBlockMsg : Type 0 where
  pub author : NodeId
  pub miss_block : List Digest
  pub signature : Signature
  pub req_id : ℤ
  pub ts : ℤ

pub record ReplyBlockMsg : Type 0 where
  pub author : NodeId
  pub blocks : List Block
  pub req_id : ℤ
  pub signature : Signature

pub record LoopBackMsg : Type 0 where
  pub block_hash : Digest

pub data NetMessage : Type 0 where
  propose : Block → NetMessage
  echo : Echo → NetMessage
  elect : Elect → NetMessage
  request_block : RequestBlockMsg → NetMessage
  reply_block : ReplyBlockMsg → NetMessage
  loop_back : LoopBackMsg → NetMessage

abbrev pub Channel : Type 0
Channel = ℕ

pub record CheckReq : Type 0 where
  pub items : List Header
  pub miss_resp_ch : Channel

pub record RefReq : Type 0 where
  pub round : ℤ
  pub ref_resp_ch : Channel

pub record CommitReq : Type 0 where
  pub leader : NodeId
  pub round : ℤ

-- The map of uncommitted leaders is the DAG's own, which the request shares: it is no field here, and
-- the commitor reads it where it stands (see Commitor).
pub record SubmitReq : Type 0 where
  pub slot : Slot
  pub round : ℤ

pub record BlockPullReq : Type 0 where
  pub slot : Slot
  pub block_pull_ch : Channel

pub record GcReq : Type 0 where
  pub new_watermark : Map NodeId ℤ

pub data DagMessage : Type 0 where
  push_block : Block → DagMessage
  check_req : CheckReq → DagMessage
  ref_req : RefReq → DagMessage
  commit_req : CommitReq → DagMessage
  block_pull_req : BlockPullReq → DagMessage
  gc_req : GcReq → DagMessage

-- `MsgType`, the constants numbered by `iota`.
unfoldable pub msg_type : NetMessage → ℕ
msg_type (propose b) = 0
msg_type (echo e) = 1
msg_type (elect e) = 2
msg_type (request_block r) = 3
msg_type (reply_block r) = 4
msg_type (loop_back l) = 5

unfoldable pub dag_msg_type : DagMessage → ℕ
dag_msg_type (push_block b) = 0
dag_msg_type (check_req r) = 6
dag_msg_type (ref_req r) = 7
dag_msg_type (commit_req r) = 8
dag_msg_type (block_pull_req r) = 9
dag_msg_type (gc_req r) = 11

-- Go's `==` on slots, the keys of maps.
abbrev pub eqb_slot : Slot → Slot → Bool
eqb_slot s t = (s.author == t.author) && (s.height == t.height)

pub eqb_slot_iff : (s t : Slot) → (eqb_slot s t ≡ true) ↔ (s ≡ t)
eqb_slot_iff s t = ground (arith, eqb_ℤ_iff s.author t.author, eqb_ℤ_iff s.height t.height)

instance abbrev pub slot_eq : Eq Slot
slot_eq = record { same = eqb_slot; same_iff = eqb_slot_iff }
