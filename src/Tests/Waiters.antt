-- ===== src/Tests/Waiters.antt =====
-- Runs of the retriever's waiters.
use mathlib.Core.Path.{subst}
use loom.Crypto.{Digest}
use loom.Message.{RequestBlockMsg}
use loom.Retriever.{Action, spawn_loop_back, Retriever, new_retriever, handle_ask, handle_reply}
use loom.Retriever.Counting.{Waiter, users}
use loom.Retriever.Waiting.{strike_all, Awaits, handle_reply-Awaits}
use loom.Retriever.Asking.{Sends, handle_ask-Awaits}
use loom.Tests.{toy, service}
use loom.Prelude.{
  not, ◌&&◌, ◌||◌, ◌≡◌, refl, sym, ◌∙◌, ◌≢◌, inl, inr, true, some, List, [], ◌∷◌, arith, All,
}
use loom.Prelude.Int.{ℤ, pos}
use loom.Prelude.Eq.{nat_eq, int_eq, string_eq, list_eq, ==-false, ==-cases}
use loom.Prelude.Result.{ok}
use loom.Prelude.Map.{lookup, get_or}
use loom.Prelude.Distinct.{contains, Distinct, remove}

abbrev fresh : Retriever toy
fresh = new_retriever toy (pos 1) service (pos 5000)

fresh-Awaits : Awaits toy fresh []
fresh-Awaits = record { given_out = refl; serves = tt; known = λ d pends. cc }

nobody : (d : Digest) → get_or d fresh.miss2_blocks [] ≡ []
unfolding get_or lookup
nobody d = refl

handle_ask-Awaits_example :
    (end : Retriever toy) × (out : List Action) × (miss : List Digest) × (handle_ask toy
        ((1 ∷ []) ∷ (2 ∷ []) ∷ [])
        (pos 2)
        (7 ∷ [])
        (pos 100)
        fresh
      ≡ ok (end, out))
    × Awaits toy end (((1 ∷ []) ∷ (2 ∷ []) ∷ [], 7 ∷ []) ∷ [])
    × ((d : Digest)
        → contains d end.pending
          ≡ contains d ((1 ∷ []) ∷ (2 ∷ []) ∷ []) || contains d fresh.pending)
    × ((d : Digest)
        → contains d miss ≡ contains d ((1 ∷ []) ∷ (2 ∷ []) ∷ []) && not (contains d fresh.pending))
    × Distinct miss
    × Sends toy fresh (pos 2) miss end.requests out
handle_ask-Awaits_example =
    handle_ask-Awaits toy fresh [] ((1 ∷ []) ∷ (2 ∷ []) ∷ []) (pos 2) (7 ∷ []) (pos 100)
      fresh-Awaits refl (omega arith) (λ d asks free. (nobody d, refl))

abbrev asks_for : ℤ → List Digest → RequestBlockMsg
asks_for id miss = record {
  author = pos 1;
  miss_block = miss;
  signature = record { sig = [] };
  req_id = id;
  ts = pos 100;
}

-- Block 7 waits for 1 and 2, block 8 for 2 and 3; the second request is for 3 alone.
abbrev two_wait : Retriever toy
two_wait = record fresh {
  cnt = 2;
  pending = (3 ∷ []) ∷ (2 ∷ []) ∷ (1 ∷ []) ∷ [];
  requests =
      (pos 0, asks_for (pos 0) ((1 ∷ []) ∷ (2 ∷ []) ∷ []))
      ∷ (pos 1, asks_for (pos 1) ((3 ∷ []) ∷ []))
      ∷ [];
  loop_back_blocks = (pos 0, 7 ∷ []) ∷ (pos 1, 8 ∷ []) ∷ [];
  loop_back_cnts = (pos 0, pos 2) ∷ (pos 1, pos 2) ∷ [];
  miss2_blocks = (1 ∷ [], pos 0 ∷ []) ∷ (2 ∷ [], pos 0 ∷ pos 1 ∷ []) ∷ (3 ∷ [], pos 1 ∷ []) ∷ [];
}

abbrev waiters : List Waiter
waiters = ((1 ∷ []) ∷ (2 ∷ []) ∷ [], 7 ∷ []) ∷ ((2 ∷ []) ∷ (3 ∷ []) ∷ [], 8 ∷ []) ∷ []

contains-past : (d x : Digest) (xs : List Digest) → x ≢ d → contains d (x ∷ xs) ≡ contains d xs
contains-past d x xs other = rw (==-false x d other) refl

one_of :
    (P : Digest → Type 0) (xs : List Digest) → All P xs → (d : Digest) → contains d xs ≡ true → P d
one_of P [] h d has = absurd (cc)
one_of P (x ∷ xs) (here, h) d has = elim (==-cases x d) [
  | inl same ↦ subst P same here
  | inr other ↦ one_of P xs h d (sym (contains-past d x xs other) ∙ has)
]

two_wait-Awaits : Awaits toy two_wait waiters
unfolding get_or lookup
two_wait-Awaits = record {
  given_out = refl;
  serves = (refl, refl, omega arith, (refl, refl, omega arith, tt));
  known =
      one_of (λ d. get_or d two_wait.miss2_blocks [] ≡ users d 0 waiters) two_wait.pending
        (refl, (refl, (refl, tt)));
}

kept_0 : lookup (pos 0) two_wait.requests ≡ some (asks_for (pos 0) ((1 ∷ []) ∷ (2 ∷ []) ∷ []))
unfolding lookup
kept_0 = refl

handle_reply-Awaits_example :
    ((handle_reply toy (pos 0) two_wait).1 ≡ spawn_loop_back (7 ∷ []) ∷ [])
    × Awaits toy
        (handle_reply toy (pos 0) two_wait).0
        (strike_all ((1 ∷ []) ∷ (2 ∷ []) ∷ []) waiters)
unfolding remove
handle_reply-Awaits_example =
    handle_reply-Awaits toy two_wait waiters (asks_for (pos 0) ((1 ∷ []) ∷ (2 ∷ []) ∷ []))
      two_wait-Awaits kept_0 (refl, (refl, tt))
      (one_of (λ d. contains d two_wait.pending ≡ true) ((1 ∷ []) ∷ (2 ∷ []) ∷ [])
        (refl, (refl, tt)))
