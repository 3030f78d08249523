-- ===== src/Network/Lines.antt =====
-- network/network.go: what goes to one address hangs on nothing that goes to the others.
use loom.Network.{NetMessage, Sender, new_sender, connect, send_to, send_each, run}
use loom.Prelude.{
  ℕ, ◌+◌, ◌≡◌, refl, sym, ap, ◌∙◌, inl, inr, Bool, Option, none, some, List, [], ◌∷◌, ◌++◌, arith,
  if◌then◌else◌, Bool-cases, Option-cases,
}
use loom.Prelude.Eq.{Eq, ◌==◌, nat_eq, int_eq, string_eq, list_eq}
use loom.Prelude.Map.{lookup, get_or, lookup-insert, get_or-insert}

module _ (M : Type 0) where
  -- One address by itself: the messages that are on the way to it, where it was reached, and the attempts.
  pub record Line : Type 0 where
    pub sent : Option (List M)
    pub tried : ℕ

module _ {M : Type 0} where
  module _ (up : ℕ → Bool) where
    -- A message follows those before it. Without a connection it is lost, unless this attempt succeeds.
    abbrev pub deliver : M → Line M → Line M
    deliver msg l = elim l.sent [
      | some sent ↦ record l { sent = some (sent ++ msg ∷ []) }
      | none ↦ record { sent = if up l.tried then some (msg ∷ []) else none; tried = l.tried + 1 }
    ]

    abbrev pub deliver_all : List M → Line M → Line M
    deliver_all [] l = l
    deliver_all (msg ∷ msgs) l = deliver_all msgs (deliver msg l)

  deliver_all-append :
      (up : ℕ → Bool) (xs ys : List M) (l : Line M)
      → deliver_all up (xs ++ ys) l ≡ deliver_all up ys (deliver_all up xs l)
  deliver_all-append up [] ys l = refl
  deliver_all-append up (x ∷ xs) ys l = deliver_all-append up xs ys (deliver up x l)

module _ {A M : Type 0} ⦃e : Eq A⦄ where
  -- The messages for an address, one for each time that it is listed.
  abbrev pub copies : A → M → List A → List M
  copies addr msg [] = []
  copies addr msg (a ∷ addrs) =
      if a == addr then msg ∷ copies addr msg addrs else copies addr msg addrs

  abbrev pub addressed : A → List (NetMessage A M) → List M
  addressed addr [] = []
  addressed addr (m ∷ ms) = copies addr m.msg m.address ++ addressed addr ms

  pub line_to : A → Sender A M → Line M
  line_to addr s = record { sent = lookup addr s.conns; tried = get_or addr s.tries 0 }

  module _ (dial : A → ℕ → Bool) where
    line_to-send_to :
        (msg : M) (a addr : A) (s : Sender A M)
        → line_to addr (send_to dial msg a s)
          ≡ (if a == addr then deliver (dial addr) msg (line_to addr s) else line_to addr s)
    unfolding line_to send_to connect
    line_to-send_to msg a addr s = elim (Option-cases (lookup a s.conns)) [
      | inl new ↦
          let tried = get_or-insert a addr (get_or a s.tries 0 + 1) 0 s.tries in
          ground (arith, e.same_iff a addr, lookup-insert a addr (msg ∷ []) s.conns, tried)
      | inr (conn, known) ↦
          ground (arith, e.same_iff a addr, lookup-insert a addr (conn ++ msg ∷ []) s.conns)
    ]

    line_to-send_each :
        (msg : M) (addrs : List A) (addr : A) (s : Sender A M)
        → line_to addr (send_each dial msg addrs s)
          ≡ deliver_all (dial addr) (copies addr msg addrs) (line_to addr s)
    unfolding send_each
    line_to-send_each msg [] addr s = refl
    line_to-send_each msg (a ∷ addrs) addr s =
        line_to-send_each msg addrs addr (send_to dial msg a s)
        ∙ ap (deliver_all (dial addr) (copies addr msg addrs)) (line_to-send_to msg a addr s)
        ∙ elim (Bool-cases (a == addr)) [ inl same ↦ rw same refl | inr other ↦ rw other refl ]

    line_to-run_from :
        (ms : List (NetMessage A M)) (addr : A) (s : Sender A M)
        → line_to addr (run dial ms s)
          ≡ deliver_all (dial addr) (addressed addr ms) (line_to addr s)
    unfolding run
    line_to-run_from [] addr s = refl
    line_to-run_from (m ∷ ms) addr s =
        line_to-run_from ms addr (send_each dial m.msg m.address s)
        ∙ ap (deliver_all (dial addr) (addressed addr ms))
            (line_to-send_each m.msg m.address addr s)
        ∙ sym (
            deliver_all-append (dial addr) (copies addr m.msg m.address) (addressed addr ms)
              (line_to addr s))

    -- Whatever goes to other addresses, what is on the way to an address after a run of the sender, and
    -- the attempts to reach it, are those of this address by itself: the messages that are
    -- addressed to it, in their order, from the first attempt on that succeeds.
    pub line_to-run :
        (ms : List (NetMessage A M)) (addr : A)
        → line_to addr (run dial ms (new_sender A M))
          ≡ deliver_all (dial addr) (addressed addr ms) (record { sent = none; tried = 0 })
    unfolding line_to lookup get_or
    line_to-run ms addr = line_to-run_from ms addr (new_sender A M)
