-- ===== src/Tendermint/Protocol.antt =====
-- tendermint/src/protocol.rs: one method for each stage of the state machine.
use nimiq_core_rs_albatross.Base.{
  ℕ, Bool, true, false, ◌||◌, Option, none, some, leb, if◌then◌else◌, is_none, unwrap_or,
}
use nimiq_core_rs_albatross.Primitives.Word.{add_u32}
use nimiq_core_rs_albatross.Tendermint.Utils.{Checkpoint, Step, VoteDecision, same_step}
use nimiq_core_rs_albatross.Tendermint.Deps.{
  TendermintOutsideDeps, Tendermint, Method, Response, pure, assert, unwrap, gets, await, ◌>>=◌,
  ◌>>◌,
}
use nimiq_core_rs_albatross.Tendermint.Network.{
  set_state, go_to, await_proposal, broadcast_and_aggregate_prevote,
  broadcast_and_aggregate_precommit,
}

-- Equality of `Option<ProposalTy>`
abbrev pub same_option : {A : Type 0} → (A → A → Bool) → Option A → Option A → Bool
same_option same none none = true
same_option same (some a) (some b) = same a b
same_option same none (some _) = false
same_option same (some _) none = false

abbrev pub vote_if : Bool → VoteDecision
vote_if true = VoteDecision.block
vote_if false = VoteDecision.nil

module _ {D Proposal Proof : Type 0} where
  abbrev pub assert_step : Step → Method (Tendermint D Proposal Proof) (Unit {0})
  assert_step step = assert (λ m. same_step m.state.step step)

  abbrev pub set_step : Step → Method (Tendermint D Proposal Proof) (Unit {0})
  set_step step = set_state (λ s. record s { step = step })

  unfoldable pub on_timeout_precommit : Method (Tendermint D Proposal Proof) (Unit {0})
  on_timeout_precommit = do
    set_state (λ s. record s { round = add_u32 s.round 1 })
    go_to Checkpoint.start_round

module _ {D Proposal Proof Result : Type 0} where
  module _ (deps : TendermintOutsideDeps D Proposal Proof Result) where
    open deps use {same_proposal, is_our_turn, get_value, assemble_block, broadcast_proposal}

    -- `valid_value`, and where there is none a new proposal.
    unfoldable pub proposal_for :
        ℕ → Option Proposal → Method (Tendermint D Proposal Proof) Proposal
    proposal_for round (some valid_value) = pure valid_value
    proposal_for round none = await (λ d. get_value d round)

    unfoldable pub send_proposal :
        ℕ → Option ℕ → Proposal → Method (Tendermint D Proposal Proof) (Unit {0})
    send_proposal round valid_round proposal = do
      set_state (λ s. record s { current_proposal = some proposal })
      set_state (λ s. record s { current_proposal_vr = valid_round })
      await (λ d. broadcast_proposal d round proposal valid_round)
      set_step Step.prevote
      broadcast_and_aggregate_prevote deps round VoteDecision.block

    unfoldable pub propose : ℕ → Option ℕ → Method (Tendermint D Proposal Proof) (Unit {0})
    unfolding proposal_for send_proposal
    propose round valid_round = do
      valid_value ← gets (λ m. m.state.valid_value)
      proposal ← proposal_for round valid_value
      send_proposal round valid_round proposal

    unfoldable pub start_round : Method (Tendermint D Proposal Proof) (Unit {0})
    unfolding propose
    start_round = do
      set_state (λ s. record s { current_proposal = none })
      set_state (λ s. record s { current_proposal_vr = none })
      set_state (λ s. record s { current_proof = none })
      set_step Step.propose
      round ← gets (λ m. m.state.round)
      valid_round ← gets (λ m. m.state.valid_round)
      our_turn ← gets (λ m. is_our_turn m.deps round)
      if our_turn then propose round valid_round else await_proposal deps round

    unfoldable pub on_proposal : Method (Tendermint D Proposal Proof) (Unit {0})
    on_proposal = do
      assert_step Step.propose
      set_step Step.prevote
      s ← gets (λ m. m.state)
      broadcast_and_aggregate_prevote deps s.round (
          vote_if
            (is_none s.locked_round || same_option same_proposal s.locked_value s.current_proposal))

    unfoldable pub on_past_proposal : Method (Tendermint D Proposal Proof) (Unit {0})
    on_past_proposal = do
      assert_step Step.propose
      set_step Step.prevote
      s ← gets (λ m. m.state)
      valid_round ← unwrap s.current_proposal_vr
      broadcast_and_aggregate_prevote deps s.round (
          vote_if (
            leb (unwrap_or s.locked_round 0) valid_round
            || same_option same_proposal s.locked_value s.current_proposal))

    unfoldable pub on_polka : Method (Tendermint D Proposal Proof) (Unit {0})
    on_polka = do
      assert_step Step.prevote
      round ← gets (λ m. m.state.round)
      set_state (λ s. record s { valid_value = s.current_proposal })
      set_state (λ s. record s { valid_round = some round })
      set_state (λ s. record s { locked_value = s.current_proposal })
      set_state (λ s. record s { locked_round = some round })
      set_step Step.precommit
      broadcast_and_aggregate_precommit deps round VoteDecision.block

    unfoldable pub on_nil_polka : Method (Tendermint D Proposal Proof) (Unit {0})
    on_nil_polka = do
      assert_step Step.prevote
      set_step Step.precommit
      round ← gets (λ m. m.state.round)
      broadcast_and_aggregate_precommit deps round VoteDecision.nil

    unfoldable pub on_decision : Method (Tendermint D Proposal Proof) (Response Result)
    on_decision = do
      proposal ← (λ m. unwrap m.state.current_proposal m)
      proof ← (λ m. unwrap m.state.current_proof m)
      gets (λ m. assemble_block m.deps m.state.round proposal proof)

    unfoldable pub on_timeout_propose : Method (Tendermint D Proposal Proof) (Unit {0})
    on_timeout_propose = do
      assert_step Step.propose
      set_step Step.prevote
      round ← gets (λ m. m.state.round)
      broadcast_and_aggregate_prevote deps round VoteDecision.nil

    unfoldable pub on_timeout_prevote : Method (Tendermint D Proposal Proof) (Unit {0})
    on_timeout_prevote = do
      assert_step Step.prevote
      set_step Step.precommit
      round ← gets (λ m. m.state.round)
      broadcast_and_aggregate_precommit deps round VoteDecision.nil
