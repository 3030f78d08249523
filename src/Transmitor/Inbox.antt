-- ===== src/Transmitor/Inbox.antt =====
-- core/transimtor.go on core/config.go and network/network.go: what one node gets of what another sends.
use Prim.Native.String.{String}
use mathlib.Core.List.{append-nil, append_assoc}
use loom.Committee.{NodeId, Authority, Committee, no_node, others, broad_cast, address}
use loom.Message.{msg_type}
use loom.Message
use loom.Network
use loom.Network.{new_sender, run}
use loom.Network.Lines.{Line, deliver_all, copies, addressed, line_to, line_to-run}
use loom.Transmitor.{Parameters, addresses, send}
use loom.Prelude.{
  ℕ, ◌≡◌, refl, sym, ap, ◌∙◌, ◌≢◌, inl, inr, Bool, true, false, ◌||◌, Option, none, some, List, [],
  ◌∷◌, ◌++◌, arith, if◌then◌else◌, Bool-cases, Option-cases,
}
use loom.Prelude.Eq.{◌==◌, nat_eq, int_eq, string_eq, list_eq, ==-refl, ==-false, ==-cases}
use loom.Prelude.Map.{Map, lookup}
use loom.Prelude.Distinct.{contains, Distinct}

abbrev Authorities : Type 0
Authorities = Map NodeId Authority

abbrev pub addrs : Authorities → List String
addrs [] = []
addrs ((id, a) ∷ rest) = a.addr ∷ addrs rest

or_false : (a b : Bool) → (a || b) ≡ false → (a ≡ false) × (b ≡ false)
or_false a b h = ground arith

addr-contains :
    (j : NodeId) (a : Authority) (authorities : Authorities)
    → lookup j authorities ≡ some a
    → contains a.addr (addrs authorities) ≡ true
unfolding lookup
addr-contains j a [] h = cc
addr-contains j a ((k, b) ∷ rest) h = elim (Bool-cases (k == j)) [
  | inl same ↦
      let mine : b ≡ a = ground arith in
      ap (λ x. x || contains a.addr (addrs rest))
        ((string_eq.same_iff b.addr a.addr).1 (ap (λ (x : Authority). x.addr) mine))
  | inr other ↦
      let later = addr-contains j a rest (ground arith) in
      rw later (elim (Bool-cases (b.addr == a.addr)) [ inl t ↦ rw t refl | inr f ↦ rw f refl ])
]

-- Where no address stands twice, an address belongs to one node.
one_address :
    (k j : NodeId) (a b : Authority) (authorities : Authorities)
    → Distinct (addrs authorities)
    → lookup k authorities ≡ some b
    → lookup j authorities ≡ some a
    → b.addr ≡ a.addr
    → k ≡ j
unfolding lookup
one_address k j a b [] d at_k at_j same = absurd (cc)
one_address k j a b ((i, x) ∷ rest) (new, d) at_k at_j same = elim (==-cases i k) [
  | inl is_k ↦ elim (==-cases i j) [
    | inl is_j ↦ sym is_k ∙ is_j
    | inr not_j ↦
        let mine : x ≡ b = ground (arith, int_eq.same_iff i k) in
        let later = addr-contains j a rest (ground (arith, int_eq.same_iff i j)) in
        let address_same : x.addr ≡ a.addr = ap (λ (y : Authority). y.addr) mine ∙ same in
        absurd (cc (ap (λ y. contains y (addrs rest)) address_same))
  ]
  | inr not_k ↦ elim (==-cases i j) [
    | inl is_j ↦
        let mine : x ≡ a = ground (arith, int_eq.same_iff i j) in
        let later = addr-contains k b rest (ground (arith, int_eq.same_iff i k)) in
        let address_same : x.addr ≡ b.addr = ap (λ (y : Authority). y.addr) mine ∙ sym same in
        absurd (cc (ap (λ y. contains y (addrs rest)) address_same))
    | inr not_j ↦
        one_address k j a b rest d (ground (arith, int_eq.same_iff i k))
          (ground (arith, int_eq.same_iff i j)) same
  ]
]

module _ {M : Type 0} where
  copies-others-absent :
      (addr : String) (m : M) (i : NodeId) (authorities : Authorities)
      → contains addr (addrs authorities) ≡ false
      → copies addr m (others i authorities) ≡ []
  unfolding others
  copies-others-absent addr m i [] absent = refl
  copies-others-absent addr m i ((k, b) ∷ rest) absent =
      let (not_here, later) = or_false (b.addr == addr) (contains addr (addrs rest)) absent in
      let quiet = copies-others-absent addr m i rest later in
      elim (Bool-cases (k == i)) [
        | inl left_out ↦ rw left_out quiet
        | inr listed ↦ rw (listed, not_here) quiet
      ]

  copies-others :
      (j i : NodeId) (a : Authority) (m : M) (authorities : Authorities)
      → lookup j authorities ≡ some a
      → i ≢ j
      → Distinct (addrs authorities)
      → copies a.addr m (others i authorities) ≡ m ∷ []
  unfolding lookup others
  copies-others j i a m [] here apart d = absurd (cc)
  copies-others j i a m ((k, b) ∷ rest) here apart (new, d) = elim (==-cases k j) [
    | inl is_j ↦
        let mine : b ≡ a = ground (arith, int_eq.same_iff k j) in
        let at_a : b.addr ≡ a.addr = ap (λ (y : Authority). y.addr) mine in
        let absent = ap (λ y. contains y (addrs rest)) (sym at_a) ∙ new in
        let listed = ==-false k i (λ is_i. apart (sym is_i ∙ is_j)) in
        rw (listed, (string_eq.same_iff b.addr a.addr).1 at_a)
          (ap (λ l. m ∷ l) (copies-others-absent a.addr m i rest absent))
    | inr not_j ↦
        let past : lookup j rest ≡ some a = ground (arith, int_eq.same_iff k j) in
        let elsewhere = ==-false b.addr a.addr (λ same.
          absurd (cc (ap (λ y. contains y (addrs rest)) same, addr-contains j a rest past))) in
        let once = copies-others j i a m rest past apart d in
        elim (Bool-cases (k == i)) [
          | inl left_out ↦ rw left_out once
          | inr listed ↦ rw (listed, elsewhere) once
        ]
  ]

-- A message to a node, or to all, is for node j.
abbrev pub is_for : NodeId → NodeId → Bool
is_for j to = if to == no_node then true else to == j

abbrev Sends : Type 0
Sends = List (NodeId × Message.NetMessage)

abbrev pub inbox : NodeId → Sends → List Message.NetMessage
inbox j [] = []
inbox j ((to, msg) ∷ sends) = if is_for j to then msg ∷ inbox j sends else inbox j sends

-- What `Send` makes of messages from one node, as they get to the sender.
unfoldable pub posted :
    NodeId → Parameters → Committee → Sends → List (Network.NetMessage String Message.NetMessage)
unfolding send
posted from ps c [] = []
posted from ps c ((to, msg) ∷ sends) = (send from to msg ps c).message ∷ posted from ps c sends

module _ (c : Committee) (from j : NodeId) (a : Authority) (here : lookup j c.authorities ≡ some a)
    (apart : from ≢ j) (reached : a.addr ≢ "") (distinct : Distinct (addrs c.authorities)) where
  copies-addresses :
      (to : NodeId) (msg : Message.NetMessage)
      → copies a.addr msg (addresses from to c) ≡ (if is_for j to then msg ∷ [] else [])
  unfolding broad_cast address
  copies-addresses to msg = elim (Bool-cases (to == no_node)) [
    | inl all_others ↦ rw all_others (copies-others j from a msg c.authorities here apart distinct)
    | inr one ↦ elim (==-cases to j) [
      | inl same ↦
          let at_a : address c to ≡ a.addr = ap (address c) same ∙ rw (address, here) refl in
          rw (one, (int_eq.same_iff to j).1 same, at_a, ==-refl a.addr) refl
      | inr other ↦ elim (Option-cases (lookup to c.authorities)) [
        | inl unknown ↦
            let empty : address c to ≡ "" = rw (address, unknown) refl in
            rw (one, ==-false to j other, empty, ==-false "" a.addr (λ e. reached (sym e))) refl
        | inr (b, known) ↦
            let elsewhere = λ (same : b.addr ≡ a.addr).
              other (one_address to j a b c.authorities distinct known here same) in
            let at_b : address c to ≡ b.addr = rw (address, known) refl in
            rw (one, ==-false to j other, at_b, ==-false b.addr a.addr elsewhere) refl
      ]
    ]
  ]

  addressed-posted :
      (ps : Parameters) (sends : Sends) → addressed a.addr (posted from ps c sends) ≡ inbox j sends
  unfolding posted send
  addressed-posted ps [] = refl
  addressed-posted ps ((to, msg) ∷ sends) =
      let head = copies-addresses to msg in
      let rest = addressed-posted ps sends in
      ap (λ l. l ++ addressed a.addr (posted from ps c sends)) head
      ∙ elim (Bool-cases (is_for j to)) [
        | inl for_j ↦ rw for_j (ap (λ l. msg ∷ l) rest)
        | inr not_for ↦ rw not_for rest
      ]

abbrev pub some_if_any : {M : Type 0} → List M → Option (List M)
some_if_any [] = none
some_if_any (m ∷ ms) = some (m ∷ ms)

module _ {M : Type 0} (up : ℕ → Bool) (always : (k : ℕ) → up k ≡ true) where
  deliver_all-open :
      (msgs sent : List M) (k : ℕ)
      → (deliver_all up msgs (record { sent = some sent; tried = k })).sent ≡ some (sent ++ msgs)
  deliver_all-open [] sent k = ap some (sym (append-nil sent))
  deliver_all-open (m ∷ msgs) sent k =
      deliver_all-open msgs (sent ++ m ∷ []) k ∙ ap some (append_assoc sent (m ∷ []) msgs)

  deliver_all-reached :
      (msgs : List M)
      → (deliver_all up msgs (record { sent = none; tried = 0 })).sent ≡ some_if_any msgs
  deliver_all-reached [] = refl
  deliver_all-reached (m ∷ msgs) = rw (deliver_all, always 0) (deliver_all-open msgs (m ∷ []) 1)

-- In a committee whose addresses are distinct and not empty, where every dial succeeds: after any messages that one
-- node sends, to single nodes and to all, another node's connection has got exactly those to it and those to
-- all, each once, in the order in which they reach the sender.
pub line_to-posted :
    (c : Committee) (from j : NodeId) (a : Authority) (ps : Parameters) (dial : String → ℕ → Bool)
    (sends : List (NodeId × Message.NetMessage))
    → lookup j c.authorities ≡ some a
    → from ≢ j
    → a.addr ≢ ""
    → Distinct (addrs c.authorities)
    → ((k : ℕ) → dial a.addr k ≡ true)
    → (line_to a.addr
        (run dial (posted from ps c sends) (new_sender String Message.NetMessage))).sent
      ≡ some_if_any (inbox j sends)
line_to-posted c from j a ps dial sends here apart reached distinct always =
    ap (λ (l : Line Message.NetMessage). l.sent) (line_to-run dial (posted from ps c sends) a.addr)
    ∙ deliver_all-reached (dial a.addr) always (addressed a.addr (posted from ps c sends))
    ∙ ap some_if_any (addressed-posted c from j a here apart reached distinct ps sends)
