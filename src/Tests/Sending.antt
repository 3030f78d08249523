-- ===== src/Tests/Sending.antt =====
-- Runs of the transmitor and the sender.
use Prim.Native.String.{String}
use loom.Committee.{NodeId, Authority, Committee, no_node}
use loom.Message.{propose, loop_back}
use loom.Message
use loom.Network
use loom.Network.{new_sender, run}
use loom.Network.Lines.{line_to, line_to-run}
use loom.Transmitor.{default_parameters}
use loom.Transmitor.Inbox.{posted, line_to-posted}
use loom.Tests.{block_of}
use loom.Network.Codec.{type_id, value, Gob, write_all, serve_conn, serve_conn-write_all}
use loom.Prelude.Result.{ok, panic, nil_pointer}
use loom.Prelude.{
  ℕ, ◌≡◌, refl, ◌≢◌, ◌||◌, Bool, true, false, some, none, List, [], ◌∷◌, replicate, if◌then◌else◌,
}
use loom.Prelude.Int.{pos}
use loom.Prelude.Eq.{◌==◌, nat_eq, int_eq, string_eq, list_eq}
use loom.Prelude.Map.{lookup}

abbrev at : ℕ → String → NodeId × Authority
at i addr = (pos i, record { name = replicate 32 i; id = pos i; addr = addr })

abbrev three : Committee
three = record { authorities = at 0 "host:9000" ∷ at 1 "host:9001" ∷ at 2 "host:9002" ∷ [] }

abbrev note : ℕ → Message.NetMessage
note k = loop_back (record { block_hash = k ∷ [] })

abbrev sends : List (NodeId × Message.NetMessage)
sends =
    (no_node, propose (block_of 0 2 0 0))
    ∷ (pos 2, note 1)
    ∷ (pos 1, note 2)
    ∷ (no_node, note 3)
    ∷ []

at_1 : lookup (pos 1) three.authorities ≡ some (at 1 "host:9001").1
unfolding lookup
at_1 = refl

named : (at 1 "host:9001").1.addr ≢ ""
named h = let t : false ≡ true = (string_eq.same_iff "host:9001" "").1 h in absurd (cc)

line_to-posted_example :
    (line_to "host:9001" (
      run
        (λ addr k. true)
        (posted (pos 0) default_parameters three sends)
        (new_sender String Message.NetMessage))).sent
    ≡ some (propose (block_of 0 2 0 0) ∷ note 2 ∷ note 3 ∷ [])
line_to-posted_example =
    line_to-posted three (pos 0) (pos 1) (at 1 "host:9001").1 default_parameters (λ addr k. true)
      sends at_1 (λ h. cc) named (refl, (refl, (refl, tt))) (λ k. refl)

-- Two addresses, of which 7 is reached only at the second attempt.
abbrev mixed : List (Network.NetMessage ℕ ℕ)
mixed =
    (record { msg = 1; address = 7 ∷ 8 ∷ [] })
    ∷ (record { msg = 2; address = 7 ∷ [] })
    ∷ (record { msg = 3; address = 8 ∷ 7 ∷ [] })
    ∷ []

abbrev second_time : ℕ → ℕ → Bool
second_time addr k = if addr == 7 then k == 1 else true

line_to-run_example :
    line_to 7 (run second_time mixed (new_sender ℕ ℕ))
    ≡ record { sent = some (2 ∷ 3 ∷ []); tried = 2 }
line_to-run_example = line_to-run second_time mixed 7

-- Numbers as messages: 9 does not encode.
abbrev toy_gob : Gob ℕ
toy_gob = record {
  msg_type = λ n. if n == 7 then 1 else 0;
  encode = λ n. if n == 9 then none else some (n ∷ []);
  decode = λ t val. elim val [ [] ↦ none | n ∷ rest ↦ some n ];
  is_known = λ t. (t == 0) || (t == 1);
}

serve_conn-write_all_example :
    serve_conn toy_gob (write_all toy_gob (3 ∷ 7 ∷ 9 ∷ 4 ∷ [])) ≡ ok (3 ∷ 7 ∷ [])
serve_conn-write_all_example =
    serve_conn-write_all toy_gob (3 ∷ 7 ∷ 9 ∷ 4 ∷ [])
      ((refl, λ val h. cc), ((refl, λ val h. cc), ((refl, λ val h. cc), ((refl, λ val h. cc), tt))))

-- A type id that the receiver does not know.
unknown_type : serve_conn toy_gob (type_id 5 ∷ value [] ∷ []) ≡ panic nil_pointer
unfolding serve_conn
unknown_type = refl
