-- ===== src/Tendermint/Liveness.antt =====
-- tendermint/src/protocol.rs and tendermint/src/stream.rs: a round in which the network does its part.
use nimiq_core_rs_albatross.Base.{
  ℕ, suc, ◌≤◌, ◌<◌, ◌≡◌, refl, sym, subst, unwrap_or, true, false, Option, none, some, List, [],
  ◌∷◌, arith, ◌⊎◌, inl, inr, Option-cases,
}
use nimiq_core_rs_albatross.Primitives.Policy.{two_third_slots}
use nimiq_core_rs_albatross.Tendermint.Utils.{
  Checkpoint, Step, ProposalResult, AggregationResult, VoteResult, Votes, TendermintReturn,
  TendermintState, get_vote, vote_count, aggregation_to_vote, has_2f1_votes,
}
use nimiq_core_rs_albatross.Tendermint.Deps.{TendermintOutsideDeps, Tendermint, done, ok}
use nimiq_core_rs_albatross.Tendermint.Network.{
  receive_proposal, await_proposal, cast_vote, after_prevote, after_precommit,
  broadcast_and_aggregate_prevote, broadcast_and_aggregate_precommit,
}
use nimiq_core_rs_albatross.Tendermint.Protocol.{
  start_round, on_proposal, on_past_proposal, on_polka, on_decision, propose, proposal_for,
  send_proposal,
}
use nimiq_core_rs_albatross.Tendermint.Stream.{
  Turn, Item, item, panicked, turn, decision_of, next_turn, items_of, run_loop,
}

-- Enough votes for the hash of the proposal are read as votes for the block.
proof_reading :
    {Proof : Type 0} (h : ℕ) (votes : Votes Proof) (proof : Proof) (n : ℕ)
    → get_vote (some h) votes ≡ some (proof, n)
    → two_third_slots ≤ n
    → aggregation_to_vote (some h) (AggregationResult.aggregation votes)
      ≡ some (VoteResult.block proof)
unfolding aggregation_to_vote vote_count
proof_reading h votes proof n found le = ground (arith, found)

block_reading :
    {Proof : Type 0} (h : ℕ) (votes : Votes Proof)
    → two_third_slots ≤ vote_count (some h) votes
    → (proof : Proof) × (aggregation_to_vote (some h) (AggregationResult.aggregation votes)
        ≡ some (VoteResult.block proof))
unfolding vote_count
block_reading h votes le = elim (Option-cases (get_vote (some h) votes)) [
  | inl absent ↦ absurd (ground (arith, absent))
  | inr ((proof, n), found) ↦ (proof, proof_reading h votes proof n found (ground (arith, found)))
]

module _ {D Proposal Proof Result : Type 0}
    (deps : TendermintOutsideDeps D Proposal Proof Result) where
  open deps use {proposal_hash, same_proposal}

  -- What the network does for a proposal in a round, whenever it is asked: enough validators vote
  -- for it in both steps, it can be sent, and a block can be made of it.
  pub record Supported (round : ℕ) (p : Proposal) : Type 0 where
    pub votes :
        (d : D) (step : Step)
        → (votes : Votes Proof) × (d' : D) × (deps.broadcast_and_aggregate d round step
              (some (proposal_hash p))
            ≡ (done (AggregationResult.aggregation votes), d'))
          × (two_third_slots ≤ vote_count (some (proposal_hash p)) votes)
    pub sent :
        (d : D) (valid_round : Option ℕ)
        → (d' : D) × (deps.broadcast_proposal d round p valid_round ≡ (done tt, d'))
    pub assembled :
        (d : D) (proof : Proof)
        → (block : Result) × (deps.assemble_block d round p proof ≡ done block)

  -- The locked proposal counts as equal to this one.
  abbrev pub LockedOn : TendermintState Proposal Proof → Proposal → Type 0
  LockedOn s p = (q : Proposal) × (s.locked_value ≡ some q) × (same_proposal q p ≡ true)

  -- The ways in which a validator comes by a proposal that it votes for: it proposes its valid
  -- value or a new one, or it hears of a new one or of one that had enough prevotes before.
  pub data Arrives (d : D) (s : TendermintState Proposal Proof) (p : Proposal) : Type 0 where
    own_valid : deps.is_our_turn d s.round ≡ true → s.valid_value ≡ some p → Arrives d s p
    own_new :
        (d1 : D)
        → deps.is_our_turn d s.round ≡ true
        → s.valid_value ≡ none
        → deps.get_value d s.round ≡ (done p, d1)
        → Arrives d s p
    heard :
        (d1 : D)
        → deps.is_our_turn d s.round ≡ false
        → deps.await_proposal d s.round ≡ (done (ProposalResult.proposal p none), d1)
        → (s.locked_round ≡ none) ⊎ LockedOn s p
        → Arrives d s p
    heard_again :
        (d1 d2 : D) (valid_round : ℕ) (votes : Votes Proof)
        → deps.is_our_turn d s.round ≡ false
        → deps.await_proposal d s.round ≡ (done (ProposalResult.proposal p (some valid_round)), d1)
        → valid_round < s.round
        → deps.get_aggregation d1 valid_round Step.prevote
          ≡ (done (AggregationResult.aggregation votes), d2)
        → two_third_slots ≤ vote_count (some (proposal_hash p)) votes
        → (unwrap_or s.locked_round 0 ≤ valid_round) ⊎ LockedOn s p
        → Arrives d s p

  -- The items end with a block that was made of the proposal in the round.
  abbrev pub Decides : ℕ → Proposal → List (Item (TendermintReturn Proposal Proof Result)) → Type 0
  Decides round p [] = ⊥
  Decides round p (item (TendermintReturn.state_update s) ∷ items) = Decides round p items
  Decides round p (item (TendermintReturn.result block) ∷ items) =
      (d : D) × (proof : Proof) × (deps.assemble_block d round p proof ≡ done block) × (items ≡ [])
  Decides round p (item (TendermintReturn.error e) ∷ items) = ⊥
  Decides round p (panicked ∷ items) = ⊥

  Decides-turn :
      (n round : ℕ) (p : Proposal) (m m' : Tendermint D Proposal Proof)
      → turn deps m ≡ Turn.goes_on m'
      → Decides round p (run_loop deps n m')
      → Decides round p (run_loop deps (suc n) m)
  unfolding run_loop
  Decides-turn n round p m m' e h =
      subst (λ t. Decides round p (items_of (run_loop deps n) t)) (sym e) h

  module _ (m : Tendermint D Proposal Proof) (p : Proposal)
      (support : Supported m.state.round p) where
    -- The machine at the stages of such a round.
    abbrev heard_machine : D → Option ℕ → Checkpoint → Tendermint D Proposal Proof
    heard_machine d valid_round c = record {
      deps = d;
      state = record m.state {
        step = Step.propose;
        current_proposal = some p;
        current_proposal_vr = valid_round;
        current_proof = none;
        current_checkpoint = c;
      };
    }

    abbrev polka_machine : D → Option ℕ → Tendermint D Proposal Proof
    polka_machine d valid_round = record {
      deps = d;
      state = record m.state {
        step = Step.prevote;
        current_proposal = some p;
        current_proposal_vr = valid_round;
        current_proof = none;
        current_checkpoint = Checkpoint.on_polka;
      };
    }

    abbrev decision_machine : D → Option ℕ → Proof → Tendermint D Proposal Proof
    decision_machine d valid_round proof = record {
      deps = d;
      state = record m.state {
        step = Step.precommit;
        valid_value = some p;
        valid_round = some m.state.round;
        locked_value = some p;
        locked_round = some m.state.round;
        current_proposal = some p;
        current_proposal_vr = valid_round;
        current_proof = some proof;
        current_checkpoint = Checkpoint.on_decision;
      };
    }

    decision-Decides :
        (n : ℕ) (d : D) (valid_round : Option ℕ) (proof : Proof)
        → Decides m.state.round p (run_loop deps (suc n) (decision_machine d valid_round proof))
    unfolding run_loop turn next_turn on_decision
    decision-Decides n d valid_round proof =
        let (block, made) = support.assembled d proof in
        subst
          (λ r.
            Decides m.state.round p (
              items_of (run_loop deps n)
                (decision_of (ok r, decision_machine d valid_round proof))))
          (sym made) (d, proof, made, refl)

    polka-turn :
        (d d' : D) (valid_round : Option ℕ) (votes : Votes Proof) (proof : Proof)
        → deps.broadcast_and_aggregate d m.state.round Step.precommit (some (proposal_hash p))
          ≡ (done (AggregationResult.aggregation votes), d')
        → aggregation_to_vote (some (proposal_hash p)) (AggregationResult.aggregation votes)
          ≡ some (VoteResult.block proof)
        → turn deps (polka_machine d valid_round)
          ≡ Turn.goes_on (decision_machine d' valid_round proof)
    unfolding turn next_turn on_polka broadcast_and_aggregate_precommit cast_vote after_precommit
    polka-turn d d' valid_round votes proof answer reading = ground (arith, answer, reading)

    polka-Decides :
        (n : ℕ) (d : D) (valid_round : Option ℕ)
        → Decides m.state.round p (run_loop deps (suc (suc n)) (polka_machine d valid_round))
    polka-Decides n d valid_round =
        let (votes, d', answer, enough) = support.votes d Step.precommit in
        let (proof, reading) = block_reading (proposal_hash p) votes enough in
        Decides-turn (suc n) m.state.round p (polka_machine d valid_round)
          (decision_machine d' valid_round proof)
          (polka-turn d d' valid_round votes proof answer reading)
          (decision-Decides n d' valid_round proof)

    -- It votes for the proposal that it heard.
    proposal-turn :
        (d d' : D) (votes : Votes Proof) (proof : Proof)
        → (m.state.locked_round ≡ none) ⊎ LockedOn m.state p
        → deps.broadcast_and_aggregate d m.state.round Step.prevote (some (proposal_hash p))
          ≡ (done (AggregationResult.aggregation votes), d')
        → aggregation_to_vote (some (proposal_hash p)) (AggregationResult.aggregation votes)
          ≡ some (VoteResult.block proof)
        → turn deps (heard_machine d none Checkpoint.on_proposal)
          ≡ Turn.goes_on (polka_machine d' none)
    unfolding turn next_turn on_proposal broadcast_and_aggregate_prevote cast_vote after_prevote
    proposal-turn d d' votes proof free answer reading = ground (arith, free, answer, reading)

    past_proposal-turn :
        (d d' : D) (valid_round : ℕ) (votes : Votes Proof) (proof : Proof)
        → (unwrap_or m.state.locked_round 0 ≤ valid_round) ⊎ LockedOn m.state p
        → deps.broadcast_and_aggregate d m.state.round Step.prevote (some (proposal_hash p))
          ≡ (done (AggregationResult.aggregation votes), d')
        → aggregation_to_vote (some (proposal_hash p)) (AggregationResult.aggregation votes)
          ≡ some (VoteResult.block proof)
        → turn deps (heard_machine d (some valid_round) Checkpoint.on_past_proposal)
          ≡ Turn.goes_on (polka_machine d' (some valid_round))
    unfolding turn next_turn on_past_proposal broadcast_and_aggregate_prevote cast_vote
        after_prevote
    past_proposal-turn d d' valid_round votes proof free answer reading =
        ground (arith, free, answer, reading)

    proposal-Decides :
        (n : ℕ) (d : D)
        → (m.state.locked_round ≡ none) ⊎ LockedOn m.state p
        → Decides m.state.round p
            (run_loop deps (suc (suc (suc n))) (heard_machine d none Checkpoint.on_proposal))
    proposal-Decides n d free =
        let (votes, d', answer, enough) = support.votes d Step.prevote in
        let (proof, reading) = block_reading (proposal_hash p) votes enough in
        Decides-turn (suc (suc n)) m.state.round p (heard_machine d none Checkpoint.on_proposal)
          (polka_machine d' none) (proposal-turn d d' votes proof free answer reading)
          (polka-Decides n d' none)

    past_proposal-Decides :
        (n : ℕ) (d : D) (valid_round : ℕ)
        → (unwrap_or m.state.locked_round 0 ≤ valid_round) ⊎ LockedOn m.state p
        → Decides m.state.round p (
            run_loop deps
              (suc (suc (suc n)))
              (heard_machine d (some valid_round) Checkpoint.on_past_proposal))
    past_proposal-Decides n d valid_round free =
        let (votes, d', answer, enough) = support.votes d Step.prevote in
        let (proof, reading) = block_reading (proposal_hash p) votes enough in
        Decides-turn (suc (suc n)) m.state.round p
          (heard_machine d (some valid_round) Checkpoint.on_past_proposal)
          (polka_machine d' (some valid_round))
          (past_proposal-turn d d' valid_round votes proof free answer reading)
          (polka-Decides n d' (some valid_round))

    -- The first turn, in each of the ways to come by the proposal.
    module _ (begins : m.state.current_checkpoint ≡ Checkpoint.start_round) where
      hears-turn :
          (d1 : D)
          → deps.is_our_turn m.deps m.state.round ≡ false
          → deps.await_proposal m.deps m.state.round ≡ (done (ProposalResult.proposal p none), d1)
          → turn deps m ≡ Turn.goes_on (heard_machine d1 none Checkpoint.on_proposal)
      unfolding turn next_turn start_round await_proposal receive_proposal
      hears-turn d1 others answer = ground (arith, begins, others, answer)

      hears_again-turn :
          (d1 d2 : D) (valid_round : ℕ) (votes : Votes Proof)
          → deps.is_our_turn m.deps m.state.round ≡ false
          → deps.await_proposal m.deps m.state.round
            ≡ (done (ProposalResult.proposal p (some valid_round)), d1)
          → valid_round < m.state.round
          → deps.get_aggregation d1 valid_round Step.prevote
            ≡ (done (AggregationResult.aggregation votes), d2)
          → two_third_slots ≤ vote_count (some (proposal_hash p)) votes
          → turn deps m
            ≡ Turn.goes_on (heard_machine d2 (some valid_round) Checkpoint.on_past_proposal)
      unfolding turn next_turn start_round await_proposal receive_proposal has_2f1_votes
      hears_again-turn d1 d2 valid_round votes others answer earlier polka enough =
          ground (arith, begins, others, answer, earlier, polka, enough)

      own_valid-turn :
          (d1 d2 : D) (votes : Votes Proof) (proof : Proof)
          → deps.is_our_turn m.deps m.state.round ≡ true
          → m.state.valid_value ≡ some p
          → deps.broadcast_proposal m.deps m.state.round p m.state.valid_round ≡ (done tt, d1)
          → deps.broadcast_and_aggregate d1 m.state.round Step.prevote (some (proposal_hash p))
            ≡ (done (AggregationResult.aggregation votes), d2)
          → aggregation_to_vote (some (proposal_hash p)) (AggregationResult.aggregation votes)
            ≡ some (VoteResult.block proof)
          → turn deps m ≡ Turn.goes_on (polka_machine d2 m.state.valid_round)
      unfolding turn next_turn start_round propose proposal_for send_proposal
          broadcast_and_aggregate_prevote cast_vote after_prevote
      own_valid-turn d1 d2 votes proof ours valid sent answer reading =
          ground (arith, begins, ours, valid, sent, answer, reading)

      own_new-turn :
          (d0 d1 d2 : D) (votes : Votes Proof) (proof : Proof)
          → deps.is_our_turn m.deps m.state.round ≡ true
          → m.state.valid_value ≡ none
          → deps.get_value m.deps m.state.round ≡ (done p, d0)
          → deps.broadcast_proposal d0 m.state.round p m.state.valid_round ≡ (done tt, d1)
          → deps.broadcast_and_aggregate d1 m.state.round Step.prevote (some (proposal_hash p))
            ≡ (done (AggregationResult.aggregation votes), d2)
          → aggregation_to_vote (some (proposal_hash p)) (AggregationResult.aggregation votes)
            ≡ some (VoteResult.block proof)
          → turn deps m ≡ Turn.goes_on (polka_machine d2 m.state.valid_round)
      unfolding turn next_turn start_round propose proposal_for send_proposal
          broadcast_and_aggregate_prevote cast_vote after_prevote
      own_new-turn d0 d1 d2 votes proof ours absent new sent answer reading =
          ground (arith, begins, ours, absent, new, sent, answer, reading)

      -- In a round in which, whenever asked, the votes for a proposal are enough in both steps, it
      -- can be sent and a block can be assembled of it, a machine at the start of the round that
      -- comes by this proposal decides within four items: it yields states and last a block that
      -- was assembled in this round of the proposal. It comes by it as proposer, by its valid
      -- value or where there is none a new one, or it hears of it, as a new proposal while it is
      -- not locked on another, or as one that had enough prevotes in an earlier round that is not
      -- before its lock, or while it is locked on it.
      pub Arrives-Decides : Arrives m.deps m.state p → Decides m.state.round p (run_loop deps 4 m)
      Arrives-Decides (heard d1 others answer free) =
          Decides-turn 3 m.state.round p m (heard_machine d1 none Checkpoint.on_proposal)
            (hears-turn d1 others answer) (proposal-Decides 0 d1 free)
      Arrives-Decides (heard_again d1 d2 vr votes others answer earlier polka enough free) =
          Decides-turn 3 m.state.round p m (heard_machine d2 (some vr) Checkpoint.on_past_proposal)
            (hears_again-turn d1 d2 vr votes others answer earlier polka enough)
            (past_proposal-Decides 0 d2 vr free)
      Arrives-Decides (own_valid ours valid) =
          let (d1, sent) = support.sent m.deps m.state.valid_round in
          let (votes, d2, answer, enough) = support.votes d1 Step.prevote in
          let (proof, reading) = block_reading (proposal_hash p) votes enough in
          Decides-turn 3 m.state.round p m (polka_machine d2 m.state.valid_round)
            (own_valid-turn d1 d2 votes proof ours valid sent answer reading)
            (polka-Decides 1 d2 m.state.valid_round)
      Arrives-Decides (own_new d0 ours absent new) =
          let (d1, sent) = support.sent d0 m.state.valid_round in
          let (votes, d2, answer, enough) = support.votes d1 Step.prevote in
          let (proof, reading) = block_reading (proposal_hash p) votes enough in
          Decides-turn 3 m.state.round p m (polka_machine d2 m.state.valid_round)
            (own_new-turn d0 d1 d2 votes proof ours absent new sent answer reading)
            (polka-Decides 1 d2 m.state.valid_round)
