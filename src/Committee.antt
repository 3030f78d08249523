-- ===== src/Committee.antt =====
-- core/config.go: the committee, its thresholds and its addresses.
-- A node's id is a Go `int`; `none` is the constant NONE. The map of authorities is an association
-- list; a key is a list of bytes, and `Pubkey.Equal` compares these.
pub mod Quorum
use Prim.Native.String.{String}
use loom.Prelude.{
  ℕ, ◌+◌, ◌-◌, ◌*◌, ◌/◌, Bool, if◌then◌else◌, not, Option, none, some, List, [], ◌∷◌, length,
}
use loom.Prelude.Int.{ℤ, pos, negsuc}
use loom.Prelude.Eq.{◌==◌, int_eq, list_eq, nat_eq}
use loom.Prelude.Map.{Map, lookup}

abbrev pub NodeId : Type 0
NodeId = ℤ

-- `NONE`
abbrev pub no_node : NodeId
no_node = negsuc 0

abbrev pub PublicKey : Type 0
PublicKey = List ℕ

pub record Authority : Type 0 where
  pub name : PublicKey
  pub id : NodeId
  pub addr : String

pub record Committee : Type 0 where
  pub authorities : Map NodeId Authority

-- The range over the map; the first match wins.
unfoldable pub id_of : PublicKey → Map NodeId Authority → NodeId
id_of key [] = no_node
id_of key ((id, a) ∷ rest) = if a.name == key then id else id_of key rest

unfoldable pub id : Committee → PublicKey → NodeId
unfolding id_of
id c key = id_of key c.authorities

abbrev pub size : Committee → ℕ
size c = length c.authorities

-- The zero `Authority` of a missing key has an empty key and an empty address.
unfoldable pub name : Committee → NodeId → PublicKey
unfolding lookup
name c i = elim (lookup i c.authorities) [ none ↦ [] | some a ↦ a.name ]

unfoldable pub address : Committee → NodeId → String
unfolding lookup
address c i = elim (lookup i c.authorities) [ none ↦ "" | some a ↦ a.addr ]

unfoldable pub others : NodeId → Map NodeId Authority → List String
others i [] = []
others i ((j, a) ∷ rest) = if not (j == i) then a.addr ∷ others i rest else others i rest

unfoldable pub broad_cast : Committee → NodeId → List String
unfolding others
broad_cast c i = others i c.authorities

-- `HightThreshold`, 2f+1. Go's `(n-1)/3` is 0 at n = 0, as here.
abbrev pub hight_threshold : Committee → ℕ
hight_threshold c = 2 * ((size c - 1) / 3) + 1

-- `LowThreshold`, f+1.
abbrev pub low_threshold : Committee → ℕ
low_threshold c = (size c - 1) / 3 + 1
