-- ===== src/Network.antt =====
-- network/network.go: the sender's connections, one to an address, and the messages on each.
-- A connection is the list of the messages put on its channel, which a goroutine writes to the socket in
-- this order. Whether a dial succeeds is the network's doing: the parameter `dial` says it of each
-- attempt to reach an address, by number, and `tries` counts these. A send on a full channel waits, so
-- it stands where it comes about. An address is of any type with an equality test. gob, the sockets and the receiver's side of them are left out.
pub mod Lines
pub mod Codec
use loom.Prelude.{
  ℕ, zero, suc, ◌+◌, ◌-◌, ◌*◌, ◌/◌, ◌%◌, ◌^◌, ◌≤◌, ◌<◌, ◌≡◌, refl, sym, ap, ◌∙◌, ◌≢◌, ◌↔◌, ◌⊎◌, inl,
  inr, Bool, true, false, not, ◌&&◌, ◌||◌, Option, none, some, List, [], ◌∷◌, ◌++◌, map, arith, ltb,
  leb, eqb, if◌then◌else◌, Bool-cases, Option-cases, ltb→lt, lt→ltb, leb→le, length, length-append,
  All, any, all, get_elem?, set, drop, replicate, get_last?, List-cases, length-set,
  get_elem?-set_self, get_elem?-set_ne, get_elem?-append_left, get_elem?-append_right,
  get_elem?-out, get_elem?-in, get_elem?-drop, get_elem?-replicate, length-replicate, length-drop,
  length-map,
}
use loom.Prelude.Eq.{Eq, ◌==◌, nat_eq, int_eq, string_eq, list_eq, ==-refl, ==-false, ==-cases}
use loom.Prelude.Map.{
  Map, lookup, insert, delete, delete_if, get_or, lookup-insert, lookup-delete, lookup-delete_if,
  get_or-cons, get_or-insert,
}

module _ (A M : Type 0) where
  pub record NetMessage : Type 0 where
    pub msg : M
    pub address : List A

  pub record Sender : Type 0 where
    pub conns : Map A (List M)
    pub tries : Map A ℕ

  abbrev pub new_sender : Sender
  new_sender = record { conns = []; tries = [] }

module _ {A M : Type 0} ⦃e : Eq A⦄ (dial : A → ℕ → Bool) where
  -- `connect`, and the first message where it succeeds; an address that cannot be reached is passed
  -- over.
  unfoldable pub connect : M → A → Sender A M → Sender A M
  connect msg addr s =
      let attempt = get_or addr s.tries 0 in
      record {
        conns = if dial addr attempt then insert addr (msg ∷ []) s.conns else s.conns;
        tries = insert addr (attempt + 1) s.tries;
      }

  unfoldable pub send_to : M → A → Sender A M → Sender A M
  unfolding connect
  send_to msg addr s = elim (lookup addr s.conns) [
    | some conn ↦ record s { conns = insert addr (conn ++ msg ∷ []) s.conns }
    | none ↦ connect msg addr s
  ]

  -- The loop over the addresses of one message.
  unfoldable pub send_each : M → List A → Sender A M → Sender A M
  unfolding send_to
  send_each msg [] s = s
  send_each msg (addr ∷ addrs) s = send_each msg addrs (send_to msg addr s)

  -- `Run`, over the messages of its channel.
  unfoldable pub run : List (NetMessage A M) → Sender A M → Sender A M
  unfolding send_each
  run [] s = s
  run (m ∷ ms) s = run ms (send_each m.msg m.address s)
