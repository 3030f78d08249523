-- ===== src/Dag.antt =====
-- core/dag.go: the blocks that a node holds, and the requests that it answers about them.
-- A handler gives the new state with what it sends, or the fault that it meets. The slice `cache` is
-- indexed by the author, so an author out of range is a fault. `opCh` is the order of the messages.
pub mod Handlers
pub mod Lines
pub mod Invariant
pub mod Cleaning
pub mod Blocks
pub mod Latest
pub mod Refs
pub mod Commits
pub mod Cleanup
pub mod Hazards
pub mod Steps
use loom.Committee.{NodeId, Committee, size}
use loom.Message.{Slot, Header, Block, Channel, CommitReq, SubmitReq, slot_eq}
use loom.Prelude.{
  ℕ, zero, suc, ◌+◌, ◌-◌, ◌*◌, ◌/◌, ◌%◌, ◌^◌, ◌≤◌, ◌<◌, ◌≡◌, refl, sym, ap, ◌∙◌, ◌≢◌, ◌↔◌, ◌⊎◌, inl,
  inr, Bool, true, false, not, ◌&&◌, ◌||◌, Option, none, some, List, [], ◌∷◌, ◌++◌, map, arith, ltb,
  leb, eqb, if◌then◌else◌, Bool-cases, Option-cases, length, length-append, All, any, all,
  get_elem?, set, drop, replicate, get_last?, List-cases,
}
use loom.Prelude.Int.{
  ℤ, pos, negsuc, pos_part, neg_part, ◌≤ℤ◌, ◌<ℤ◌, ltb_ℤ, leb_ℤ, eqb_ℤ, eqb_ℤ_iff, eq_of_parts,
  IsInt, wrap, wrap_parts, ◌+ℤ◌, ◌-ℤ◌,
}
use loom.Prelude.Eq.{Eq, ◌==◌, nat_eq, int_eq, string_eq, list_eq, ==-refl, ==-false}
use loom.Prelude.Result.{
  Result, ok, panic, Fault, nil_pointer, index_out_of_range, slice_out_of_range, explicit_panic,
  divide_by_zero, endless_loop, ◌>>=◌, or_panic, or_panic-eq-ok, Result-cases,
}
use loom.Prelude.Map.{
  Map, lookup, insert, delete, delete_if, get_or, lookup-insert, lookup-delete, lookup-delete_if,
}

-- A line of the cache; `none` is a nil block.
abbrev pub Line : Type 0
Line = List (Option Block)

pub record Dag : Type 0 where
  pub node_id : NodeId
  pub committee : Committee
  pub cache : List Line
  pub cache_mark : Map NodeId ℤ
  pub uncommitted : Map ℤ NodeId
  pub commit_mark : ℤ
  pub pending : Map Slot Channel
  pub pending_commit : Option CommitReq

-- What a handler sends: on a reply channel, or to the commitor.
pub data Sent : Type 0 where
  headers : Channel → List Header → Sent
  block : Channel → Option Block → Sent
  submit : SubmitReq → Sent

abbrev pub Outcome : Type 0
Outcome = Result (Dag × List Sent)

-- The loop of `NewDag` over the authors below n.
abbrev pub fresh_marks : ℕ → Map NodeId ℤ
fresh_marks zero = []
fresh_marks (suc n) = fresh_marks n ++ (pos n, negsuc 0) ∷ []

unfoldable pub new_dag : NodeId → Committee → Dag
new_dag node_id c = record {
  node_id = node_id;
  committee = c;
  cache = replicate (size c) [];
  cache_mark = fresh_marks (size c);
  uncommitted = [];
  commit_mark = negsuc 1;
  pending = [];
  pending_commit = none;
}

-- `d.cacheMark[author]`
abbrev pub mark : NodeId → Dag → ℤ
mark author d = get_or author d.cache_mark (pos 0)

-- `cache[author]`
unfoldable pub row : NodeId → List Line → Result Line
row (pos i) cache = or_panic index_out_of_range (get_elem? cache i)
row (negsuc i) cache = panic index_out_of_range

-- `cache[author] = l`, which the code writes only behind a read of it.
unfoldable pub set_row : NodeId → Line → List Line → List Line
set_row (pos i) l cache = set cache i l
set_row (negsuc i) l cache = cache

abbrev pub line : NodeId → Dag → Result Line
line author d = row author d.cache

abbrev pub set_line : NodeId → Line → Dag → Dag
set_line author l d = record d { cache = set_row author l d.cache }

-- `b.Height - d.cacheMark[b.Author] - 1`
abbrev pub index : Slot → Dag → ℤ
index s d = s.height -ℤ mark s.author d -ℤ pos 1

abbrev pub join : Option (Option Block) → Option Block
join none = none
join (some b) = b

-- `line[i]` with nil for an index out of range, where the code tests the length before.
abbrev pub at : Line → ℕ → Option Block
at l i = join (get_elem? l i)

unfoldable pub get_at : ℤ → NodeId → Dag → Result (Option Block)
get_at (negsuc i) author d = ok none
get_at (pos i) author d = line author d >>= λ l. ok (at l i)

unfoldable pub get : NodeId → ℤ → Dag → Result (Option Block)
get author height d = get_at (height -ℤ mark author d -ℤ pos 1) author d
