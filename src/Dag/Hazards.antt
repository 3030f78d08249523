-- ===== src/Dag/Hazards.antt =====
-- Where core/dag.go goes wrong: a cleaning behind a commit request that was dropped or delayed.
use loom.Message.{CommitReq, GcReq, DagMessage, commit_req, gc_req}
use loom.Dag.{Line, Dag, Sent, line}
use loom.Dag.Handlers.{clean_lines, cleaned, handle_clean_req, newer, step, run}
use loom.Dag.Commits.{NoneFrom, is_led, awaited, noted, commit_cases}
use loom.Prelude.{
  ◌≡◌, refl, ap, ◌∙◌, inl, inr, true, false, none, some, List, [], ◌∷◌, ◌++◌, arith, all,
}
use loom.Prelude.Int.{ℤ, leb_ℤ, IsSmall}
use loom.Prelude.Eq.{nat_eq, int_eq, string_eq, list_eq}
use loom.Prelude.Result.{Result, ok, panic, Fault, nil_pointer, or_panic, or_panic-eq-ok, >>=-eq-ok}
use loom.Prelude.Map.{lookup, lookup-delete_if}

run-panic :
    (m n : DagMessage) (d d₁ : Dag) (out : List Sent) (f : Fault)
    → step m d ≡ ok (d₁, out)
    → step n d₁ ≡ panic f
    → run (m ∷ n ∷ []) d ≡ panic f
unfolding run
run-panic m n d d₁ out f e g = ground arith

run-eq-ok :
    (m n : DagMessage) (d d₁ d' : Dag) (out out' : List Sent)
    → step m d ≡ ok (d₁, out)
    → run (m ∷ n ∷ []) d ≡ ok (d', out')
    → (out₂ : List Sent) × (step n d₁ ≡ ok (d', out₂)) × (out' ≡ out ++ (out₂ ++ []))
unfolding run
run-eq-ok m n d d₁ d' out out' e h =
    let end : Dag × List Sent = (d', out') in
    let finish : Dag × List Sent → Result (Dag × List Sent) = λ r. ok (r.0, out ++ (r.1 ++ [])) in
    let ((d₂, out₂), first, rest) = >>=-eq-ok (step n d₁) finish {b = end} (ground arith) in
    (out₂, ground arith, ground arith)

clean-eq-ok :
    (gc : GcReq) (d d' : Dag) (out : List Sent) (pc : CommitReq)
    → d.pending_commit ≡ some pc
    → handle_clean_req gc d ≡ ok (d', out)
    → (d₁ : Dag) × (d' ≡ cleaned pc d₁) × (out ≡ [])
unfolding handle_clean_req
clean-eq-ok gc d d' out pc pend h =
    let (pc', there, rest) = >>=-eq-ok (or_panic nil_pointer d.pending_commit) _ h in
    let (d₁, _, done) = >>=-eq-ok (clean_lines gc.new_watermark d) _ rest in
    let is_pc : pc' ≡ pc = cc (or_panic-eq-ok nil_pointer d.pending_commit there, pend) in
    (d₁, cc, cc)

leb_refl : (z : ℤ) → leb_ℤ z z ≡ true
leb_refl z = ground arith

-- With the last committed round and the pending one in range, and the pending leader a member of the
-- committee: a commit request that makes the DAG drop its pending commit (no block of the leader's line supports
-- the anchor) makes the next cleaning dereference nil, whatever it cleans: the watermark that the
-- commitor sends for an anchor submitted before stops the DAG.
pub clean_dropped :
    (req : CommitReq) (gc : GcReq) (d : Dag) (l : Line)
    → IsSmall (newer req d.pending_commit).round
    → IsSmall d.commit_mark
    → line (newer req d.pending_commit).leader d ≡ ok l
    → all (is_led (noted req d).uncommitted) (awaited (newer req d.pending_commit).round d) ≡ true
    → NoneFrom (newer req d.pending_commit).round l 0
    → run (commit_req req ∷ gc_req gc ∷ []) d ≡ panic nil_pointer
clean_dropped req gc d l sp sm found ready nowhere = elim (commit_cases req d l sp sm found) [
  | inl (late, _) ↦ absurd (cc (late, ready))
  | inr (inl (_, b, last, _)) ↦
      absurd (cc (last.supports, nowhere last.place b (omega arith) last.held))
  | inr (inr (_, _, dropped)) ↦
      run-panic (commit_req req) (gc_req gc) d (record (noted req d) { pending_commit = none }) []
        nil_pointer (unfold step in dropped) (unfold step handle_clean_req in refl)
]

-- With the last committed round and the pending one in range, and the pending leader a member of the
-- committee: a cleaning, ending without a fault, behind a commit request that is delayed, since an awaited round has no leader, takes the
-- delayed round for the last committed one and forgets its leader, though nothing was submitted for
-- it: the cleaning was for an anchor of an earlier round.
pub clean_delayed :
    (req : CommitReq) (gc : GcReq) (d d' : Dag) (l : Line) (out : List Sent)
    → IsSmall (newer req d.pending_commit).round
    → IsSmall d.commit_mark
    → line (newer req d.pending_commit).leader d ≡ ok l
    → all (is_led (noted req d).uncommitted) (awaited (newer req d.pending_commit).round d) ≡ false
    → run (commit_req req ∷ gc_req gc ∷ []) d ≡ ok (d', out)
    → (out ≡ [])
      × (d'.commit_mark ≡ (newer req d.pending_commit).round)
      × (lookup (newer req d.pending_commit).round d'.uncommitted ≡ none)
clean_delayed req gc d d' l out sp sm found late h =
    let pc = newer req d.pending_commit in
    let first : step (commit_req req) d ≡ ok (noted req d, []) =
      elim (commit_cases req d l sp sm found) [
        | inl (_, delayed) ↦ unfold step in delayed
        | inr (inl (ready, _, _, _)) ↦ absurd (cc (late, ready))
        | inr (inr (ready, _, _)) ↦ absurd (cc (late, ready))
      ] in
    let (out₂, second, sent) =
      run-eq-ok (commit_req req) (gc_req gc) d (noted req d) d' [] out first h in
    let (d₁, done, silent) = clean-eq-ok gc (noted req d) d' out₂ pc refl (unfold step in second) in
    (
      cc,
      ap (λ (x : Dag). x.commit_mark) done,
      ap (λ (x : Dag). lookup pc.round x.uncommitted) done
          ∙ lookup-delete_if (λ k. leb_ℤ k pc.round) pc.round d₁.uncommitted
          ∙ rw (leb_refl pc.round),
    )
