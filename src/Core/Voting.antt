-- ===== src/Core/Voting.antt =====
-- What a run of echoes makes a node propose (core/core.go, `handleEcho`).
use mathlib.Core.Path.{subst}
use loom.Errors.{Error}
use loom.Committee.{NodeId, Committee, hight_threshold, size, no_node}
use loom.Committee.Quorum.{members}
use loom.Crypto.{Primitives}
use loom.Message.{Block, Echo, propose, echo, ref_req}
use loom.Message.Make.{echo_verify, new_elect_msg}
use loom.Message.Signed.{IsKeyPair}
use loom.Dag.Handlers.{is_odd}
use loom.Aggregator.{Aggregator, new_aggregator, push, take}
use loom.Aggregator.Counting.{collect, feed, distinct_authors, feed_once}
use loom.Core.{
  Effect, send, receive, to_dag, Inputs, Event, received, Core, invoke_elect, propose_block, or_new,
  votes_at, with_votes, propose_next, count_echo, handle_echo, dispatch, run_events,
}
use loom.Core.Proposing.{generate_block_lem}
use loom.Prelude.{
  ◌*◌, ◌≤◌, ◌<◌, ◌≡◌, refl, ap, ◌∙◌, ◌↔◌, ◌⊎◌, inl, inr, true, Option, none, some, List, [], ◌∷◌,
  ◌++◌, map, arith, Bool-cases, Option-cases, length, All,
}
use loom.Prelude.Int.{ℤ, pos, ◌+ℤ◌, ◌-ℤ◌}
use loom.Prelude.Eq.{nat_eq, int_eq, string_eq, list_eq, ==-refl}
use loom.Prelude.Result.{ok}
use loom.Prelude.Map.{lookup, insert, lookup-insert}
use loom.Prelude.Distinct.{contains}

-- The blocks that a list of effects hands to the transmitor.
unfoldable pub proposed : List Effect → List Block
proposed [] = []
proposed (send from to (propose b) ∷ out) = b ∷ proposed out
proposed (x ∷ out) = proposed out

proposed-append : (xs ys : List Effect) → proposed (xs ++ ys) ≡ proposed xs ++ proposed ys
unfolding proposed
proposed-append [] ys = refl
proposed-append (send from to (propose b) ∷ xs) ys =
    ap (λ (l : List Block). b ∷ l) (proposed-append xs ys)
proposed-append (x ∷ xs) ys = proposed-append xs ys

abbrev pub voter : Echo → NodeId
voter e = e.author

module _ (p : Primitives) where
  proposed-invoke_elect : (round : ℤ) (core : Core p) → proposed (invoke_elect p round core) ≡ []
  unfolding invoke_elect proposed
  proposed-invoke_elect round core =
      elim (Option-cases (new_elect_msg p core.node_id round core.sig_service)) [
        | inl failed ↦ ground arith
        | inr (e, made) ↦ ground arith
      ]

  -- A proposal ends, and hands over one block, of the height asked for.
  propose_block-one :
      (i : Inputs) (height round old : ℤ) (core : Core p)
      → IsKeyPair p core.committee core.node_id core.sig_service
      → (out : List Effect) × (b : Block) × (propose_block p i height round old core ≡ ok out)
        × (proposed out ≡ b ∷ [])
        × (b.header.slot.height ≡ height)
  unfolding propose_block
  propose_block-one i height round old core k =
      let (b, elects, made, _, at_slot, _, _, kind) =
        generate_block_lem p i height round old core k in
      let tail : List Effect = send core.node_id no_node (propose b) ∷ receive (propose b) ∷ [] in
      let quiet : proposed elects ≡ [] = elim kind [
        | inl (_, _, _, none_sent) ↦ rw none_sent (unfold proposed in refl)
        | inr (_, _, _, sent) ↦ rw sent (elim (Bool-cases (is_odd (round +ℤ pos 1))) [
          | inl t ↦ rw t (proposed-invoke_elect (round +ℤ pos 1 -ℤ pos 1) core)
          | inr f ↦ rw f (unfold proposed in refl)
        ])
      ] in
      let asked : Effect = to_dag (ref_req (record { round = round; ref_resp_ch = i.resp_ch })) in
      let all_sent : proposed (asked ∷ elects ++ tail) ≡ proposed elects ++ proposed tail =
        unfold proposed in proposed-append elects tail in
      (
        to_dag (ref_req (record { round = round; ref_resp_ch = i.resp_ch })) ∷ elects ++ tail,
        b,
        rw made refl,
        all_sent ∙ rw quiet (unfold proposed in refl),
        ap (λ s. s.height) at_slot,
      )

  abbrev IsVote : Committee → ℤ → Echo → Type 0
  IsVote c h e = (e.header.slot.height ≡ h) × (echo_verify p e c ≡ ok true)

  votes_at-with_votes :
      (h : ℤ) (ag : Aggregator Echo) (core : Core p) → votes_at p h (with_votes p h ag core) ≡ ag
  votes_at-with_votes h ag core =
      let there : lookup h (insert h ag core.vote_ag) ≡ some ag =
        lookup-insert h h ag core.vote_ag ∙ rw (==-refl h) refl in
      ap (or_new p core.committee) there

  -- What an echo does: a full count makes one proposal of the next height.
  abbrev IsCounted : Option (List Echo) → ℤ → List Effect → Type 0
  IsCounted taken h out =
      ((taken ≡ none) × (proposed out ≡ []))
      ⊎ ((v : List Echo) × (b : Block) × (taken ≡ some v)
          × (proposed out ≡ b ∷ [])
          × (b.header.slot.height ≡ h +ℤ pos 1))

  count_echo-IsCounted :
      (e : Echo) (i : Inputs) (core : Core p)
      → IsKeyPair p core.committee core.node_id core.sig_service
      → let h = e.header.slot.height in
        let (taken, ag) = take (push e.author e (votes_at p h core)) in
        (out : List Effect) × (count_echo p i e core ≡ ok (with_votes p h ag core, none, out))
        × IsCounted taken h out
  unfolding count_echo
  count_echo-IsCounted e i core k =
      let h = e.header.slot.height in
      let t = take (push e.author e (votes_at p h core)) in
      let core' = with_votes p h t.1 core in
      elim (Option-cases t.0) [
        | inl short ↦ (
          [],
          ap (λ (o : Option (List Echo)). propose_next p i e o core') short
              ∙ unfold propose_next in refl,
          inl (short, unfold proposed in refl),
        )
        | inr (v, full) ↦
            let (out, b, done, one, at_h) =
              propose_block-one i (h +ℤ pos 1) e.header.round e.header.first_ref_h core' k in
            (
              out,
              ap (λ (o : Option (List Echo)). propose_next p i e o core') full
                  ∙ unfold propose_next in rw done refl,
              inr (v, b, full, one, at_h),
            )
      ]

  dispatch-echo :
      (e : Echo) (i : Inputs) (core : Core p)
      → echo_verify p e core.committee ≡ ok true
      → dispatch p (received (echo e)) i core ≡ count_echo p i e core
  unfolding dispatch handle_echo
  dispatch-echo e i core valid = rw valid refl

  dispatch-vote :
      (e : Echo) (i : Inputs) (core : Core p) (h : ℤ)
      → IsKeyPair p core.committee core.node_id core.sig_service
      → e.header.slot.height ≡ h
      → echo_verify p e core.committee ≡ ok true
      → let (taken, ag) = take (push e.author e (votes_at p h core)) in
        (out : List Effect) × (dispatch p (received (echo e)) i core
          ≡ ok (with_votes p h ag core, none, out))
        × IsCounted taken h out
  dispatch-vote e i core h k at_h valid =
      subst
        (λ (x : ℤ).
          let (taken, ag) = take (push e.author e (votes_at p x core)) in
          (out : List Effect) × (dispatch p (received (echo e)) i core
            ≡ ok (with_votes p x ag core, none, out))
          × IsCounted taken x out)
        at_h
        (let (out, done, counted) = count_echo-IsCounted e i core k in
          (out, dispatch-echo e i core valid ∙ done, counted))

  run_events-cons :
      (e : Event) (i : Inputs) (es : List (Event × Inputs)) (core core' end : Core p)
      (err : Option Error) (out rest : List Effect)
      → dispatch p e i core ≡ ok (core', err, out)
      → run_events p es core' ≡ ok (end, rest)
      → run_events p ((e, i) ∷ es) core ≡ ok (end, out ++ rest)
  unfolding run_events
  run_events-cons e i es core core' end err out rest h k = rw (h, k) refl

  abbrev pub arrivals : Inputs → List Echo → List (Event × Inputs)
  arrivals i es = map (λ (e : Echo). (received (echo e), i)) es

  -- The blocks proposed in a run are as many as the batches taken, all of the next height.
  abbrev AreProposed : ℤ → List (List Echo) → List Block → Type 0
  AreProposed h batches bs =
      (length bs ≡ length batches) × All (λ b. b.header.slot.height ≡ h +ℤ pos 1) bs

  AreProposed-step :
      (h : ℤ) (taken : Option (List Echo)) (out rest : List Effect)
      (r : List (List Echo) × Aggregator Echo)
      → IsCounted taken h out
      → AreProposed h r.0 (proposed rest)
      → AreProposed h (collect voter taken r).0 (proposed (out ++ rest))
  AreProposed-step h taken out rest r (inl (short, quiet)) g =
      rw (short, proposed-append out rest, quiet) g
  AreProposed-step h taken out rest r (inr (v, b, full, one, at_h)) g =
      rw (full, proposed-append out rest, one) (omega (arith, g.0), (at_h, g.1))

  run-echoes :
      (h : ℤ) (es : List Echo) (i : Inputs) (core : Core p)
      → IsKeyPair p core.committee core.node_id core.sig_service
      → All (IsVote core.committee h) es
      → (end : Core p) × (out : List Effect) × (run_events p (arrivals i es) core ≡ ok (end, out))
        × AreProposed h (feed voter es (votes_at p h core)).0 (proposed out)
  unfolding feed
  run-echoes h [] i core k v = (core, [], unfold run_events in refl, unfold proposed in (refl, tt))
  run-echoes h (e ∷ es) i core k v =
      let same = v.0.0 in
      let t = take (push e.author e (votes_at p h core)) in
      let core' = with_votes p h t.1 core in
      let (out, done, counted) = dispatch-vote e i core h k v.0.0 v.0.1 in
      let (end, rest, run, made) = run-echoes h es i core' k v.1 in
      let made' : AreProposed h (feed voter es t.1).0 (proposed rest) =
        subst (λ (ag : Aggregator Echo). AreProposed h (feed voter es ag).0 (proposed rest))
          (votes_at-with_votes h t.1 core) made in
      (
        end,
        out ++ rest,
        run_events-cons (received (echo e)) i (arrivals i es) core core' end none out rest done run,
        AreProposed-step h t.0 out rest (feed voter es t.1) counted made',
      )

  -- Echoes of one height that are accepted under the committee, of members only, in a committee smaller
  -- than twice the threshold (as it is for n = 3f+1), arrive at a node that has none of that height yet
  -- and whose private key belongs to its public key in the committee. The node takes them without a
  -- fault, and hands over at most one block, which is of the next height; it hands one over if and only
  -- if at least 2f+1 different members have sent an echo.
  pub echoes_propose_once :
      (h : ℤ) (es : List Echo) (i : Inputs) (core : Core p)
      → IsKeyPair p core.committee core.node_id core.sig_service
      → lookup h core.vote_ag ≡ none
      → size core.committee < 2 * hight_threshold core.committee
      → All (λ e. (e.header.slot.height ≡ h) × (echo_verify p e core.committee ≡ ok true)) es
      → All (λ e. contains (voter e) (members core.committee) ≡ true) es
      → (end : Core p) × (out : List Effect) × (run_events p (arrivals i es) core ≡ ok (end, out))
        × (length (proposed out) ≤ 1)
        × ((length (proposed out) ≡ 1)
            ↔ (hight_threshold core.committee ≤ length (distinct_authors voter [] es)))
        × All (λ b. b.header.slot.height ≡ h +ℤ pos 1) (proposed out)
  echoes_propose_once h es i core k fresh n valid known =
      let (end, out, run, (count, heights)) = run-echoes h es i core k valid in
      let start : votes_at p h core ≡ new_aggregator core.committee =
        ap (or_new p core.committee) fresh in
      let same : length (proposed out) ≡ length (feed voter es (new_aggregator core.committee)).0 =
        count ∙ ap (λ (ag : Aggregator Echo). length (feed voter es ag).0) start in
      let (once, reached) = feed_once voter core.committee es n known in
      (end, out, run, rw same once, rw same reached, heights)
