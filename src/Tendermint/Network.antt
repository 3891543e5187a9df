-- ===== src/Tendermint/Network.antt =====
-- tendermint/src/network.rs: waiting for a proposal, and casting a vote and waiting for those of
-- the others; each sets the stage that follows.
use nimiq_core_rs_albatross.Base.{ℕ, Option, none, some, ltb, if◌then◌else◌}
use nimiq_core_rs_albatross.Tendermint.Utils.{
  Checkpoint, Step, VoteDecision, ProposalResult, VoteResult, TendermintState, aggregation_to_vote,
  has_2f1_votes,
}
use nimiq_core_rs_albatross.Tendermint.Deps.{
  TendermintOutsideDeps, Tendermint, modify, Method, unwrap, gets, await, ◌>>=◌, ◌>>◌,
}

abbrev pub map_option : {A B : Type 0} → (A → B) → Option A → Option B
map_option f none = none
map_option f (some a) = some (f a)

abbrev pub decided_proposal :
    {Proposal Proof : Type 0} → VoteDecision → TendermintState Proposal Proof → Option Proposal
decided_proposal VoteDecision.block s = s.current_proposal
decided_proposal VoteDecision.nil s = none

module _ {D Proposal Proof : Type 0} where
  abbrev pub set_state :
      (TendermintState Proposal Proof → TendermintState Proposal Proof)
      → Method (Tendermint D Proposal Proof) (Unit {0})
  set_state f = modify (λ m. record m { state = f m.state })

  abbrev pub go_to : Checkpoint → Method (Tendermint D Proposal Proof) (Unit {0})
  go_to c = set_state (λ s. record s { current_checkpoint = c })

  unfoldable pub start_at : ℕ → Method (Tendermint D Proposal Proof) (Unit {0})
  start_at round = do set_state (λ s. record s { round = round }); go_to Checkpoint.start_round

  unfoldable pub after_prevote : VoteResult Proof → Method (Tendermint D Proposal Proof) (Unit {0})
  unfolding start_at
  after_prevote (VoteResult.block _) = go_to Checkpoint.on_polka
  after_prevote (VoteResult.nil _) = go_to Checkpoint.on_nil_polka
  after_prevote VoteResult.timeout = go_to Checkpoint.on_timeout_prevote
  after_prevote (VoteResult.new_round round) = start_at round

  unfoldable pub after_precommit :
      VoteResult Proof → Method (Tendermint D Proposal Proof) (Unit {0})
  unfolding start_at
  after_precommit (VoteResult.block proof) = do
    set_state (λ s. record s { current_proof = some proof })
    go_to Checkpoint.on_decision
  after_precommit (VoteResult.nil _) = go_to Checkpoint.on_timeout_precommit
  after_precommit VoteResult.timeout = go_to Checkpoint.on_timeout_precommit
  after_precommit (VoteResult.new_round round) = start_at round

module _ {D Proposal Proof Result : Type 0} where
  module _ (deps : TendermintOutsideDeps D Proposal Proof Result) where
    open deps use {proposal_hash, broadcast_and_aggregate, get_aggregation}

    -- The `match` on what was received, with the test of the valid round.
    unfoldable pub receive_proposal :
        ℕ → ProposalResult Proposal → Method (Tendermint D Proposal Proof) (Unit {0})
    unfolding has_2f1_votes
    receive_proposal round (ProposalResult.proposal p none) = do
      set_state (λ s. record s { current_proposal = some p })
      go_to Checkpoint.on_proposal
    receive_proposal round (ProposalResult.proposal p (some valid_round)) =
        if ltb valid_round round
        then (do
          aggregation ← await (λ d. get_aggregation d valid_round Step.prevote)
          if has_2f1_votes (proposal_hash p) aggregation
              then (do
                set_state (λ s. record s { current_proposal = some p })
                set_state (λ s. record s { current_proposal_vr = some valid_round })
                go_to Checkpoint.on_past_proposal)
              else go_to Checkpoint.on_timeout_propose)
        else go_to Checkpoint.on_timeout_propose
    receive_proposal round ProposalResult.timeout = go_to Checkpoint.on_timeout_propose

    unfoldable pub await_proposal : ℕ → Method (Tendermint D Proposal Proof) (Unit {0})
    unfolding receive_proposal
    await_proposal round = do
      proposal_res ← await (λ d. deps.await_proposal d round)
      receive_proposal round proposal_res

    -- The part that prevotes and precommits share: cast the vote, read the answer.
    unfoldable pub cast_vote :
        ℕ → Step → VoteDecision → Method (Tendermint D Proposal Proof) (VoteResult Proof)
    unfolding aggregation_to_vote
    cast_vote round step decision = do
      proposal ← gets (λ m. decided_proposal decision m.state)
      agg ← await (λ d. broadcast_and_aggregate d round step (map_option proposal_hash proposal))
      current_proposal ← gets (λ m. m.state.current_proposal)
      unwrap (aggregation_to_vote (map_option proposal_hash current_proposal) agg)

    unfoldable pub broadcast_and_aggregate_prevote :
        ℕ → VoteDecision → Method (Tendermint D Proposal Proof) (Unit {0})
    unfolding cast_vote after_prevote
    broadcast_and_aggregate_prevote round decision = do
      prevote ← cast_vote round Step.prevote decision
      after_prevote prevote

    unfoldable pub broadcast_and_aggregate_precommit :
        ℕ → VoteDecision → Method (Tendermint D Proposal Proof) (Unit {0})
    unfolding cast_vote after_precommit
    broadcast_and_aggregate_precommit round decision = do
      precommit ← cast_vote round Step.precommit decision
      after_precommit precommit
