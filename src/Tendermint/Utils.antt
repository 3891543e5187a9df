-- ===== src/Tendermint/Utils.antt =====
-- tendermint/src/utils.rs and tendermint/src/state.rs: the stages of the state machine, what it
-- hears from the network, its state, and how an aggregation of votes is read.
use nimiq_core_rs_albatross.Base.{
  ℕ, Bool, true, false, ◌&&◌, Option, none, some, List, [], ◌∷◌, leb, ◌==◌, is_some, if◌then◌else◌,
}
use nimiq_core_rs_albatross.Primitives.Policy.{two_third_slots}

pub data Checkpoint : Type 0 where
  start_round on_proposal on_past_proposal on_polka on_nil_polka on_decision : Checkpoint
  on_timeout_propose on_timeout_prevote on_timeout_precommit : Checkpoint

pub data Step : Type 0 where
  propose prevote precommit : Step

pub data VoteDecision : Type 0 where
  block nil : VoteDecision

pub data ProposalResult (Proposal : Type 0) : Type 0 where
  proposal : Proposal → Option ℕ → ProposalResult Proposal
  timeout : ProposalResult Proposal

pub data VoteResult (Proof : Type 0) : Type 0 where
  block : Proof → VoteResult Proof
  nil : Proof → VoteResult Proof
  timeout : VoteResult Proof
  new_round : ℕ → VoteResult Proof

-- `BTreeMap<Option<Blake2bHash>, (ProofTy, usize)>`
abbrev pub Votes : Type 0 → Type 0
Votes Proof = List (Option ℕ × (Proof × ℕ))

pub data AggregationResult (Proof : Type 0) : Type 0 where
  aggregation : Votes Proof → AggregationResult Proof
  new_round : ℕ → AggregationResult Proof

pub data TendermintError : Type 0 where
  bad_init_state aggregation_error aggregation_does_not_exist : TendermintError
  proposal_broadcast_error cannot_receive_proposal cannot_produce_proposal : TendermintError
  cannot_assemble_block : TendermintError

pub record TendermintState (Proposal Proof : Type 0) : Type 0 where
  pub round : ℕ
  pub step : Step
  pub locked_value : Option Proposal
  pub locked_round : Option ℕ
  pub valid_value : Option Proposal
  pub valid_round : Option ℕ
  pub current_checkpoint : Checkpoint
  pub current_proposal : Option Proposal
  pub current_proposal_vr : Option ℕ
  pub current_proof : Option Proof

-- `TendermintState::new`
abbrev pub new_state : {Proposal Proof : Type 0} → TendermintState Proposal Proof
new_state = record {
  round = 0;
  step = Step.propose;
  locked_value = none;
  locked_round = none;
  valid_value = none;
  valid_round = none;
  current_checkpoint = Checkpoint.start_round;
  current_proposal = none;
  current_proposal_vr = none;
  current_proof = none;
}

-- What the stream yields.
pub data TendermintReturn (Proposal Proof Result : Type 0) : Type 0 where
  result : Result → TendermintReturn Proposal Proof Result
  state_update : TendermintState Proposal Proof → TendermintReturn Proposal Proof Result
  error : TendermintError → TendermintReturn Proposal Proof Result

abbrev pub same_step : Step → Step → Bool
same_step Step.propose Step.propose = true
same_step Step.prevote Step.prevote = true
same_step Step.precommit Step.precommit = true
same_step _ _ = false

-- Equality of `Option<Blake2bHash>`
abbrev pub same_hash : Option ℕ → Option ℕ → Bool
same_hash none none = true
same_hash (some a) (some b) = a == b
same_hash none (some _) = false
same_hash (some _) none = false

module _ {Proof : Type 0} where
  -- `agg.get(&key)`
  unfoldable pub get_vote : Option ℕ → Votes Proof → Option (Proof × ℕ)
  get_vote key [] = none
  get_vote key ((k, v) ∷ agg) = if same_hash key k then some v else get_vote key agg

  -- `agg.get(&key).map_or(0, |x| x.1)`
  unfoldable pub vote_count : Option ℕ → Votes Proof → ℕ
  unfolding get_vote
  vote_count key agg = elim (get_vote key agg) [ none ↦ 0 | some (_, n) ↦ n ]

  -- The branch taken by the counts; the `unwrap()`s in it, on `none`, are a panic.
  unfoldable pub aggregation_to_vote :
      Option ℕ → AggregationResult Proof → Option (VoteResult Proof)
  unfolding get_vote vote_count
  aggregation_to_vote hash (AggregationResult.aggregation agg) =
      if is_some hash && leb two_third_slots (vote_count hash agg)
      then elim (get_vote hash agg) [
        | none ↦ none
        | some (proof, _) ↦ some (VoteResult.block proof)
      ]
      else if leb two_third_slots (vote_count none agg)
      then elim (get_vote none agg) [ none ↦ none | some (proof, _) ↦ some (VoteResult.nil proof) ]
      else some VoteResult.timeout
  aggregation_to_vote hash (AggregationResult.new_round round) = some (VoteResult.new_round round)

  unfoldable pub has_2f1_votes : ℕ → AggregationResult Proof → Bool
  unfolding vote_count
  has_2f1_votes hash (AggregationResult.aggregation agg) =
      leb two_third_slots (vote_count (some hash) agg)
  has_2f1_votes hash (AggregationResult.new_round _) = false
