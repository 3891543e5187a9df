-- ===== src/Tendermint/Rounds.antt =====
-- The order of the votes of every machine that is reached.
use nimiq_core_rs_albatross.Base.{
  ℕ, ◌+◌, ◌*◌, ◌%◌, ◌≡◌, sym, subst, Option, none, some, arith, ◌∷◌, ltb, if◌then◌else◌,
  Option-cases,
}
use nimiq_core_rs_albatross.Primitives.Word.{u32_mod}
use nimiq_core_rs_albatross.Tendermint.Utils.{
  Checkpoint, Step, VoteDecision, ProposalResult, TendermintError, AggregationResult, has_2f1_votes,
}
use nimiq_core_rs_albatross.Tendermint.Deps.{
  TendermintOutsideDeps, Tendermint, Progress, ok, err, panic, Response, done, failed, Method,
  await, ◌>>=◌, ◌>>◌,
}
use nimiq_core_rs_albatross.Tendermint.Network.{
  set_state, go_to, receive_proposal, await_proposal, broadcast_and_aggregate_prevote,
}
use nimiq_core_rs_albatross.Tendermint.Protocol.{
  set_step, proposal_for, send_proposal, propose, start_round, on_decision, on_timeout_precommit,
}
use nimiq_core_rs_albatross.Tendermint.Stream.{Turn, turn_of, decision_of, next_turn, turn}
use nimiq_core_rs_albatross.Tendermint.Trace.{looked, Log, logged, Reach, start, later}
use nimiq_core_rs_albatross.Tendermint.Rules.{Before, Ordered}
use nimiq_core_rs_albatross.Tendermint.Order.{
  CallsLater, HasRoom, Timed, InOrder, bound, Before-weaken, prevote-InOrder, await-InOrder,
  if-InOrder, on_proposal-InOrder, on_timeout_propose-InOrder, on_past_proposal-InOrder,
  on_polka-InOrder, on_nil_polka-InOrder, on_timeout_prevote-InOrder,
}

module _ {D Proposal Proof Result : Type 0} (deps : TendermintOutsideDeps D Proposal Proof Result)
    (calls : CallsLater deps) where
  open deps use {proposal_hash}

  module _ (m : Tendermint (D × Log Proof) Proposal Proof)
      (b : Before (3 * m.state.round + 1) m.deps.1) (o : Ordered m.deps.1) where
    abbrev begun :
        D → Log Proof → Option Proposal → Option ℕ → Tendermint (D × Log Proof) Proposal Proof
    begun d l proposal vr = record {
      deps = (d, l);
      state = record m.state {
        step = Step.propose;
        current_proposal = proposal;
        current_proposal_vr = vr;
        current_proof = none;
      };
    }

    send_proposal-InOrder :
        (d : D) (vr : Option ℕ) (p : Proposal)
        → InOrder deps calls
            (turn_of (send_proposal (logged deps) m.state.round vr p (begun d m.deps.1 none none)))
    unfolding send_proposal
    send_proposal-InOrder d vr p =
        await-InOrder deps calls (begun d m.deps.1 (some p) vr) m.deps.1
          (deps.broadcast_proposal d m.state.round p vr)
          (λ _.
            ◌>>◌ (set_step Step.prevote)
              (broadcast_and_aggregate_prevote (logged deps) m.state.round VoteDecision.block))
          o
          (λ u d'.
            prevote-InOrder deps calls
              (record (begun d' m.deps.1 (some p) vr) {
                state = record m.state {
                  step = Step.prevote;
                  current_proposal = some p;
                  current_proposal_vr = vr;
                  current_proof = none;
                };
              })
              VoteDecision.block b o)

    proposed-InOrder :
        (v : Option Proposal)
        → InOrder deps calls (
            turn_of (
              ◌>>=◌
                (proposal_for (logged deps) m.state.round v)
                (send_proposal (logged deps) m.state.round m.state.valid_round)
                (begun m.deps.0 m.deps.1 none none)))
    unfolding proposal_for
    proposed-InOrder (some p) = send_proposal-InOrder m.deps.0 m.state.valid_round p
    proposed-InOrder none =
        await-InOrder deps calls (begun m.deps.0 m.deps.1 none none) m.deps.1
          (deps.get_value m.deps.0 m.state.round)
          (send_proposal (logged deps) m.state.round m.state.valid_round) o
          (λ p d. send_proposal-InOrder d m.state.valid_round p)

    receive_proposal-InOrder :
        (d : D) (r : ProposalResult Proposal)
        → InOrder deps calls
            (turn_of (receive_proposal (logged deps) m.state.round r (begun d m.deps.1 none none)))
    unfolding receive_proposal
    receive_proposal-InOrder d ProposalResult.timeout = (b, o)
    receive_proposal-InOrder d (ProposalResult.proposal p none) = (b, o)
    receive_proposal-InOrder d (ProposalResult.proposal p (some vr)) =
        if-InOrder deps calls (ltb vr m.state.round)
          (◌>>=◌ (await (λ d'. (logged deps).get_aggregation d' vr Step.prevote)) judge)
          (go_to Checkpoint.on_timeout_propose) (begun d m.deps.1 none none)
          (await-InOrder deps calls (begun d m.deps.1 none none)
            (looked vr Step.prevote (deps.get_aggregation d vr Step.prevote).0 ∷ m.deps.1)
            (deps.get_aggregation d vr Step.prevote) judge o
            (λ a d'.
              if-InOrder deps calls (has_2f1_votes (proposal_hash p) a) accept
                (go_to Checkpoint.on_timeout_propose)
                (begun d'
                  (looked vr Step.prevote (deps.get_aggregation d vr Step.prevote).0 ∷ m.deps.1)
                  none none)
                (b, o) (b, o)))
          (b, o)
      where
        accept : Method (Tendermint (D × Log Proof) Proposal Proof) (Unit {0})
        accept = ◌>>◌ (set_state (λ s. record s { current_proposal = some p })) (
            ◌>>◌ (set_state (λ s. record s { current_proposal_vr = some vr }))
              (go_to Checkpoint.on_past_proposal))

        judge :
            AggregationResult Proof → Method (Tendermint (D × Log Proof) Proposal Proof) (Unit {0})
        judge a =
            if has_2f1_votes (proposal_hash p) a
            then accept
            else go_to Checkpoint.on_timeout_propose

    start_round-InOrder : InOrder deps calls (turn_of (start_round (logged deps) m))
    unfolding start_round await_proposal propose
    start_round-InOrder =
        if-InOrder deps calls (deps.is_our_turn m.deps.0 m.state.round)
          (propose (logged deps) m.state.round m.state.valid_round)
          (await_proposal (logged deps) m.state.round) (begun m.deps.0 m.deps.1 none none)
          (proposed-InOrder m.state.valid_value)
          (await-InOrder deps calls (begun m.deps.0 m.deps.1 none none) m.deps.1
            (deps.await_proposal m.deps.0 m.state.round)
            (receive_proposal (logged deps) m.state.round) o (λ r d. receive_proposal-InOrder d r))

  on_timeout_precommit-InOrder :
      (m : Tendermint (D × Log Proof) Proposal Proof)
      → Before (3 * m.state.round + 3) m.deps.1
      → Ordered m.deps.1
      → HasRoom m.state
      → InOrder deps calls (turn_of (on_timeout_precommit m))
  unfolding on_timeout_precommit
  on_timeout_precommit-InOrder m b o room = (
    Before-weaken (3 * m.state.round + 3) (3 * ((m.state.round + 1) % u32_mod) + 1) m.deps.1
        (omega arith) b,
    o,
  )

  -- A decision changes nothing.
  pub decision_same :
      (m : Tendermint (D × Log Proof) Proposal Proof) → (on_decision (logged deps) m).1 ≡ m
  unfolding on_decision
  decision_same m =
      ground (arith, Option-cases m.state.current_proposal, Option-cases m.state.current_proof)

  decision-InOrder :
      (q : Progress (Response Result) × Tendermint (D × Log Proof) Proposal Proof)
      → Ordered q.1.deps.1
      → InOrder deps calls (decision_of q)
  decision-InOrder (ok (done block), m) o = o
  decision-InOrder (ok (failed e), m) o = o
  decision-InOrder (err e, m) o = o
  decision-InOrder (panic, m) o = tt

  next_turn-InOrder :
      (c : Checkpoint) (m : Tendermint (D × Log Proof) Proposal Proof)
      → Before (bound c m.state.round) m.deps.1
      → Ordered m.deps.1
      → HasRoom m.state
      → InOrder deps calls (next_turn (logged deps) c m)
  unfolding next_turn
  next_turn-InOrder Checkpoint.start_round m b o room = start_round-InOrder m b o
  next_turn-InOrder Checkpoint.on_proposal m b o room =
      on_proposal-InOrder deps calls m m.state.step b o
  next_turn-InOrder Checkpoint.on_past_proposal m b o room =
      on_past_proposal-InOrder deps calls m m.state.step m.state.current_proposal_vr b o
  next_turn-InOrder Checkpoint.on_polka m b o room = on_polka-InOrder deps calls m m.state.step b o
  next_turn-InOrder Checkpoint.on_nil_polka m b o room =
      on_nil_polka-InOrder deps calls m m.state.step b o
  next_turn-InOrder Checkpoint.on_decision m b o room =
      decision-InOrder (on_decision (logged deps) m)
        (subst (λ x. Ordered x.deps.1) (sym (decision_same m)) o)
  next_turn-InOrder Checkpoint.on_timeout_propose m b o room =
      on_timeout_propose-InOrder deps calls m m.state.step b o
  next_turn-InOrder Checkpoint.on_timeout_prevote m b o room =
      on_timeout_prevote-InOrder deps calls m m.state.step b o
  next_turn-InOrder Checkpoint.on_timeout_precommit m b o room =
      on_timeout_precommit-InOrder m b o room

  turn-InOrder :
      (m : Tendermint (D × Log Proof) Proposal Proof)
      → Timed deps calls m
      → HasRoom m.state
      → InOrder deps calls (turn (logged deps) m)
  unfolding turn
  turn-InOrder m (b, o) room = next_turn-InOrder m.state.current_checkpoint m b o room

  Reach-Timed :
      {d : D} {m : Tendermint (D × Log Proof) Proposal Proof}
      → Reach deps HasRoom d m
      → Timed deps calls m
  Reach-Timed start = (tt, tt)
  Reach-Timed (later {m} r room e) =
      subst (InOrder deps calls) e (turn-InOrder m (Reach-Timed r) room)

  -- Where the surroundings call only for later rounds, and every machine that is left behind had
  -- room in its round number, and the last one has: every vote was cast in a later round, or in a
  -- later step of the same round, than all before it, so at most one in each step of a round; also
  -- where the next turn fails.
  pub Reach-Ordered :
      {d : D} {m : Tendermint (D × Log Proof) Proposal Proof}
      → Reach deps HasRoom d m
      → HasRoom m.state
      → Ordered m.deps.1
        × ((m' : Tendermint (D × Log Proof) Proposal Proof) (e : TendermintError)
            → turn (logged deps) m ≡ Turn.fails e m'
            → Ordered m'.deps.1)
  Reach-Ordered {m = m} r room = (
    (Reach-Timed r).1,
    λ m' e q. subst (InOrder deps calls) q (turn-InOrder m (Reach-Timed r) room),
  )
