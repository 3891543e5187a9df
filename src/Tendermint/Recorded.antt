-- ===== src/Tendermint/Recorded.antt =====
-- The methods with the record of what was asked, against those without.
use nimiq_core_rs_albatross.Base.{ℕ, ◌≡◌, refl, ap, ◌∙◌, Option, none, some, ltb, ◌∷◌}
use nimiq_core_rs_albatross.Tendermint.Utils.{
  Checkpoint, Step, VoteDecision, ProposalResult, aggregation_to_vote, has_2f1_votes,
}
use nimiq_core_rs_albatross.Tendermint.Deps.{
  TendermintOutsideDeps, Tendermint, Progress, ok, err, panic, Response, done, failed, Method, gets,
  await,
}
use nimiq_core_rs_albatross.Tendermint.Network.{
  map_option, decided_proposal, receive_proposal, await_proposal, cast_vote,
  broadcast_and_aggregate_prevote, broadcast_and_aggregate_precommit,
}
use nimiq_core_rs_albatross.Tendermint.Protocol.{
  proposal_for, send_proposal, propose, start_round, on_proposal, on_past_proposal, on_polka,
  on_nil_polka, on_decision, on_timeout_propose, on_timeout_prevote,
}
use nimiq_core_rs_albatross.Tendermint.Stream.{Turn, turn_of, decision_of, next_turn, turn}
use nimiq_core_rs_albatross.Tendermint.Trace.{voted, looked, Log, logged}
use nimiq_core_rs_albatross.Tendermint.Sim.{
  erase, Sim, bind-Sim, set-Sim, gets-Sim, unwrap-Sim, if-Sim, assert_step-Sim, unwrap_state-Sim,
  await-Sim, after_prevote-Sim, after_precommit-Sim, on_timeout_precommit-Sim,
}

module _ {D Proposal Proof Result : Type 0}
    (deps : TendermintOutsideDeps D Proposal Proof Result) where
  open deps use {proposal_hash}

  vote-Sim :
      (round : ℕ) (step : Step) (hash : Option ℕ)
      → Sim {Proposal = Proposal}
          (await (λ d. (logged deps).broadcast_and_aggregate d round step hash))
          (await (λ d. deps.broadcast_and_aggregate d round step hash))
  vote-Sim round step hash =
      await-Sim (λ d. deps.broadcast_and_aggregate d round step hash)
        (λ d. voted round step hash (deps.broadcast_and_aggregate d.0 round step hash).0 ∷ d.1)

  look-Sim :
      (round : ℕ) (step : Step)
      → Sim {Proposal = Proposal}
          (await (λ d. (logged deps).get_aggregation d round step))
          (await (λ d. deps.get_aggregation d round step))
  look-Sim round step =
      await-Sim (λ d. deps.get_aggregation d round step)
        (λ d. looked round step (deps.get_aggregation d.0 round step).0 ∷ d.1)

  wait-Sim :
      (round : ℕ)
      → Sim {Proposal = Proposal}
          (await (λ d. (logged deps).await_proposal d round))
          (await (λ d. deps.await_proposal d round))
  wait-Sim round = await-Sim (λ d. deps.await_proposal d round) (λ d. d.1)

  value-Sim :
      (round : ℕ)
      → Sim {Proposal = Proposal}
          (await (λ d. (logged deps).get_value d round))
          (await (λ d. deps.get_value d round))
  value-Sim round = await-Sim (λ d. deps.get_value d round) (λ d. d.1)

  send-Sim :
      (round : ℕ) (p : Proposal) (vr : Option ℕ)
      → Sim {Proposal = Proposal}
          (await (λ d. (logged deps).broadcast_proposal d round p vr))
          (await (λ d. deps.broadcast_proposal d round p vr))
  send-Sim round p vr = await-Sim (λ d. deps.broadcast_proposal d round p vr) (λ d. d.1)

  ruleset sims = (
    bind-Sim, set-Sim, gets-Sim, unwrap-Sim, if-Sim, assert_step-Sim, vote-Sim, look-Sim, wait-Sim,
    value-Sim, send-Sim,
  )

  cast_vote-Sim :
      (round : ℕ) (step : Step) (decision : VoteDecision)
      → Sim (cast_vote (logged deps) round step decision) (cast_vote deps round step decision)
  unfolding cast_vote
  cast_vote-Sim round step decision = bind-Sim (gets-Sim (decided_proposal decision)) (λ proposal.
      bind-Sim (vote-Sim round step (map_option proposal_hash proposal)) (λ agg.
        bind-Sim (gets-Sim (λ s. s.current_proposal))
          (λ c. unwrap-Sim (aggregation_to_vote (map_option proposal_hash c) agg))))

  broadcast_and_aggregate_prevote-Sim :
      (round : ℕ) (decision : VoteDecision)
      → Sim
          (broadcast_and_aggregate_prevote (logged deps) round decision)
          (broadcast_and_aggregate_prevote deps round decision)
  unfolding broadcast_and_aggregate_prevote
  broadcast_and_aggregate_prevote-Sim round decision =
      bind-Sim (cast_vote-Sim round Step.prevote decision) after_prevote-Sim

  broadcast_and_aggregate_precommit-Sim :
      (round : ℕ) (decision : VoteDecision)
      → Sim
          (broadcast_and_aggregate_precommit (logged deps) round decision)
          (broadcast_and_aggregate_precommit deps round decision)
  unfolding broadcast_and_aggregate_precommit
  broadcast_and_aggregate_precommit-Sim round decision =
      bind-Sim (cast_vote-Sim round Step.precommit decision) after_precommit-Sim

  receive_proposal-Sim :
      (round : ℕ) (r : ProposalResult Proposal)
      → Sim (receive_proposal (logged deps) round r) (receive_proposal deps round r)
  unfolding receive_proposal
  receive_proposal-Sim round (ProposalResult.proposal p none) = search sims
  receive_proposal-Sim round (ProposalResult.proposal p (some vr)) =
      if-Sim (ltb vr round)
        (bind-Sim (look-Sim vr Step.prevote)
          (λ a. if-Sim (has_2f1_votes (proposal_hash p) a) (search sims) (search sims)))
        (search sims)
  receive_proposal-Sim round ProposalResult.timeout = search sims

  await_proposal-Sim :
      (round : ℕ) → Sim (await_proposal (logged deps) round) (await_proposal deps round)
  unfolding await_proposal
  await_proposal-Sim round = bind-Sim (wait-Sim round) (receive_proposal-Sim round)

  proposal_for-Sim :
      (round : ℕ) (v : Option Proposal)
      → Sim (proposal_for (logged deps) round v) (proposal_for deps round v)
  unfolding proposal_for
  proposal_for-Sim round (some v) = record { same = λ m. refl }
  proposal_for-Sim round none = value-Sim round

  ruleset parts = (
    sims, broadcast_and_aggregate_prevote-Sim, broadcast_and_aggregate_precommit-Sim,
    await_proposal-Sim, proposal_for-Sim,
  )

  send_proposal-Sim :
      (round : ℕ) (vr : Option ℕ) (p : Proposal)
      → Sim (send_proposal (logged deps) round vr p) (send_proposal deps round vr p)
  unfolding send_proposal
  send_proposal-Sim round vr p = search parts

  propose-Sim :
      (round : ℕ) (vr : Option ℕ) → Sim (propose (logged deps) round vr) (propose deps round vr)
  unfolding propose
  propose-Sim round vr = search (parts, send_proposal-Sim)

  start_round-Sim : Sim (start_round (logged deps)) (start_round deps)
  unfolding start_round
  start_round-Sim = search (parts, propose-Sim) depth 12

  on_proposal-Sim : Sim (on_proposal (logged deps)) (on_proposal deps)
  unfolding on_proposal
  on_proposal-Sim = search parts

  on_past_proposal-Sim : Sim (on_past_proposal (logged deps)) (on_past_proposal deps)
  unfolding on_past_proposal
  on_past_proposal-Sim = search parts

  on_polka-Sim : Sim (on_polka (logged deps)) (on_polka deps)
  unfolding on_polka
  on_polka-Sim = search parts depth 12

  on_nil_polka-Sim : Sim (on_nil_polka (logged deps)) (on_nil_polka deps)
  unfolding on_nil_polka
  on_nil_polka-Sim = search parts

  on_timeout_propose-Sim : Sim (on_timeout_propose (logged deps)) (on_timeout_propose deps)
  unfolding on_timeout_propose
  on_timeout_propose-Sim = search parts

  on_timeout_prevote-Sim : Sim (on_timeout_prevote (logged deps)) (on_timeout_prevote deps)
  unfolding on_timeout_prevote
  on_timeout_prevote-Sim = search parts

  assemble-Sim :
      (p : Proposal) (proof : Proof)
      → Sim {Proposal = Proposal}
          (gets (λ m. (logged deps).assemble_block m.deps m.state.round p proof))
          (gets (λ m. deps.assemble_block m.deps m.state.round p proof))
  assemble-Sim p proof = record { same = λ m. refl }

  on_decision-Sim : Sim (on_decision (logged deps)) (on_decision deps)
  unfolding on_decision
  on_decision-Sim =
      bind-Sim (unwrap_state-Sim (λ s. s.current_proposal))
        (λ p. bind-Sim (unwrap_state-Sim (λ s. s.current_proof)) (assemble-Sim p))

  abbrev pub map_turn :
      Turn (Tendermint (D × Log Proof) Proposal Proof) Result
      → Turn (Tendermint D Proposal Proof) Result
  map_turn (Turn.goes_on m) = Turn.goes_on (erase m)
  map_turn (Turn.ends block m) = Turn.ends block (erase m)
  map_turn (Turn.fails e m) = Turn.fails e (erase m)
  map_turn Turn.panics = Turn.panics

  turn_of-map :
      (q : Progress (Unit {0}) × Tendermint (D × Log Proof) Proposal Proof)
      → turn_of (q.0, erase q.1) ≡ map_turn (turn_of q)
  turn_of-map (ok _, m) = refl
  turn_of-map (err e, m) = refl
  turn_of-map (panic, m) = refl

  decision_of-map :
      (q : Progress (Response Result) × Tendermint (D × Log Proof) Proposal Proof)
      → decision_of (q.0, erase q.1) ≡ map_turn (decision_of q)
  decision_of-map (ok (done block), m) = refl
  decision_of-map (ok (failed e), m) = refl
  decision_of-map (err e, m) = refl
  decision_of-map (panic, m) = refl

  method-map :
      {f : Method (Tendermint (D × Log Proof) Proposal Proof) (Unit {0})}
      {g : Method (Tendermint D Proposal Proof) (Unit {0})}
      → Sim f g
      → (m : Tendermint (D × Log Proof) Proposal Proof)
      → turn_of (g (erase m)) ≡ map_turn (turn_of (f m))
  method-map {f} s m = ap turn_of (s.same m) ∙ turn_of-map (f m)

  next_turn-map :
      (c : Checkpoint) (m : Tendermint (D × Log Proof) Proposal Proof)
      → next_turn deps c (erase m) ≡ map_turn (next_turn (logged deps) c m)
  unfolding next_turn
  next_turn-map Checkpoint.start_round m = method-map start_round-Sim m
  next_turn-map Checkpoint.on_proposal m = method-map on_proposal-Sim m
  next_turn-map Checkpoint.on_past_proposal m = method-map on_past_proposal-Sim m
  next_turn-map Checkpoint.on_polka m = method-map on_polka-Sim m
  next_turn-map Checkpoint.on_nil_polka m = method-map on_nil_polka-Sim m
  next_turn-map Checkpoint.on_decision m =
      ap decision_of (on_decision-Sim.same m) ∙ decision_of-map (on_decision (logged deps) m)
  next_turn-map Checkpoint.on_timeout_propose m = method-map on_timeout_propose-Sim m
  next_turn-map Checkpoint.on_timeout_prevote m = method-map on_timeout_prevote-Sim m
  next_turn-map Checkpoint.on_timeout_precommit m = method-map on_timeout_precommit-Sim m

  -- A turn without the record is the turn with it, the record left out.
  pub turn-map :
      (m : Tendermint (D × Log Proof) Proposal Proof)
      → turn deps (erase m) ≡ map_turn (turn (logged deps) m)
  unfolding turn
  turn-map m = next_turn-map m.state.current_checkpoint m
