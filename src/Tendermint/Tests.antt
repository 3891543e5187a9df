-- ===== src/Tendermint/Tests.antt =====
-- A validator that owns every slot, with a network that answers at once: examples for the laws.
use nimiq_core_rs_albatross.Base.{
  ℕ, ◌+◌, ◌≡◌, refl, sym, ap, subst, true, false, Option, none, some, [], ◌∷◌, arith, ◌==◌, inl,
  inr, ◌⊎◌,
}
use nimiq_core_rs_albatross.Primitives.Policy.{slots}
use nimiq_core_rs_albatross.Tendermint.Utils.{
  Checkpoint, Step, ProposalResult, AggregationResult, Votes, TendermintError, TendermintState,
  TendermintReturn, vote_count, get_vote, aggregation_to_vote,
}
use nimiq_core_rs_albatross.Tendermint.Deps.{
  TendermintOutsideDeps, Tendermint, done, failed, new_tendermint,
}
use nimiq_core_rs_albatross.Tendermint.Stream.{Turn, item, turn, next_turn, run_loop, expect_block}
use nimiq_core_rs_albatross.Tendermint.Network.{
  await_proposal, receive_proposal, cast_vote, after_prevote, after_precommit,
  broadcast_and_aggregate_prevote, broadcast_and_aggregate_precommit,
}
use nimiq_core_rs_albatross.Tendermint.Protocol.{start_round, on_proposal, on_polka, on_decision}
use nimiq_core_rs_albatross.Tendermint.Trace.{voted, Log, logged, Reach, start, later}
use nimiq_core_rs_albatross.Tendermint.Rules.{Justified, Ordered}
use nimiq_core_rs_albatross.Tendermint.Justify.{Assembled}
use nimiq_core_rs_albatross.Tendermint.Safety.{Reach-Justified, block_decided}
use nimiq_core_rs_albatross.Tendermint.Order.{CallsLater, HasRoom}
use nimiq_core_rs_albatross.Tendermint.Rounds.{Reach-Ordered}
use nimiq_core_rs_albatross.Tendermint.Liveness.{
  Supported, Arrives, heard_again, Decides, Arrives-Decides,
}
use nimiq_core_rs_albatross.Tendermint.Casts.{Holds, Cast}
use nimiq_core_rs_albatross.Tendermint.Agreement.{count, Sound}
use nimiq_core_rs_albatross.Tendermint.Consensus.{
  Validators, Follows, network, AssembledBy, agreement,
}

abbrev all_for_seven : AggregationResult ℕ
all_for_seven = AggregationResult.aggregation ((some 7, (0, 512)) ∷ [])

abbrev prompt_deps : TendermintOutsideDeps ℕ ℕ ℕ ℕ
prompt_deps = record {
  proposal_hash = λ p. p;
  same_proposal = λ p q. p == q;
  verify_state = λ d s. false;
  is_our_turn = λ d r. false;
  get_value = λ d r. (failed TendermintError.cannot_produce_proposal, d);
  assemble_block = λ d r p q. done (p + 1000);
  broadcast_proposal = λ d r p v. (done tt, d);
  await_proposal = λ d r. (done (ProposalResult.proposal 7 none), d);
  broadcast_and_aggregate = λ d r s h. (done all_for_seven, d);
  get_aggregation = λ d r s. (failed TendermintError.aggregation_does_not_exist, d);
}

abbrev state_at :
    Step → Option ℕ → Checkpoint → Option ℕ → Option ℕ → Option ℕ → TendermintState ℕ ℕ
state_at step value c round p proof = record {
  round = 0;
  step = step;
  locked_value = value;
  locked_round = round;
  valid_value = value;
  valid_round = round;
  current_checkpoint = c;
  current_proposal = p;
  current_proposal_vr = none;
  current_proof = proof;
}

abbrev proposal_state : TendermintState ℕ ℕ
proposal_state = state_at Step.propose none Checkpoint.on_proposal none (some 7) none

abbrev polka_state : TendermintState ℕ ℕ
polka_state = state_at Step.prevote none Checkpoint.on_polka none (some 7) none

abbrev decision_state : TendermintState ℕ ℕ
decision_state = state_at Step.precommit (some 7) Checkpoint.on_decision (some 0) (some 7) (some 0)

abbrev prevote_log : Log ℕ
prevote_log = voted 0 Step.prevote (some 7) (done all_for_seven) ∷ []

abbrev decision_log : Log ℕ
decision_log = voted 0 Step.precommit (some 7) (done all_for_seven) ∷ prevote_log

abbrev proposal_machine : Tendermint (ℕ × Log ℕ) ℕ ℕ
proposal_machine = record { deps = (0, []); state = proposal_state }

abbrev polka_machine : Tendermint (ℕ × Log ℕ) ℕ ℕ
polka_machine = record { deps = (0, prevote_log); state = polka_state }

abbrev decision_machine : Tendermint (ℕ × Log ℕ) ℕ ℕ
decision_machine = record { deps = (0, decision_log); state = decision_state }

proposal_turn : turn (logged prompt_deps) (new_tendermint (0, [])) ≡ Turn.goes_on proposal_machine
unfolding turn next_turn start_round await_proposal receive_proposal
proposal_turn = refl

polka_turn : turn (logged prompt_deps) proposal_machine ≡ Turn.goes_on polka_machine
unfolding turn next_turn on_proposal broadcast_and_aggregate_prevote cast_vote after_prevote
    aggregation_to_vote vote_count get_vote
polka_turn = refl

decision_turn : turn (logged prompt_deps) polka_machine ≡ Turn.goes_on decision_machine
unfolding turn next_turn on_polka broadcast_and_aggregate_precommit cast_vote after_precommit
    aggregation_to_vote vote_count get_vote
decision_turn = refl

block_turn : turn (logged prompt_deps) decision_machine ≡ Turn.ends 1007 decision_machine
unfolding turn next_turn on_decision
block_turn = refl

reach : Reach prompt_deps HasRoom 0 decision_machine
reach =
    later (later (later start (omega arith) proposal_turn) (omega arith) polka_turn) (omega arith)
      decision_turn

same_hash : (p q : ℕ) → (p == q) ≡ true → p ≡ q
same_hash p q e = ground (arith, e)

calls_later : CallsLater prompt_deps
calls_later d r s h r' d' e = cc

Reach-Justified_example :
    Justified decision_log
    × ((m : Tendermint (ℕ × Log ℕ) ℕ ℕ) (e : TendermintError)
        → turn (logged prompt_deps) decision_machine ≡ Turn.fails e m
        → Justified m.deps.1)
Reach-Justified_example = Reach-Justified prompt_deps same_hash reach

Reach-Ordered_example :
    Ordered decision_log
    × ((m : Tendermint (ℕ × Log ℕ) ℕ ℕ) (e : TendermintError)
        → turn (logged prompt_deps) decision_machine ≡ Turn.fails e m
        → Ordered m.deps.1)
Reach-Ordered_example = Reach-Ordered prompt_deps calls_later reach (omega arith)

block_decided_example : Assembled prompt_deps 1007 decision_machine
block_decided_example = block_decided prompt_deps same_hash reach 1007 decision_machine block_turn

-- The stream of this validator ends with a block.
stream_of_block :
    expect_block prompt_deps 5 0 none
    ≡ item (TendermintReturn.state_update proposal_state)
      ∷ item (TendermintReturn.state_update polka_state)
      ∷ item (TendermintReturn.state_update decision_state)
      ∷ item (TendermintReturn.result 1007)
      ∷ []
unfolding expect_block run_loop turn next_turn start_round await_proposal receive_proposal
    on_proposal on_polka on_decision broadcast_and_aggregate_prevote
    broadcast_and_aggregate_precommit cast_vote after_prevote after_precommit aggregation_to_vote
    vote_count get_vote
stream_of_block = refl

-- One that accepts every state.
abbrev trusting_deps : TendermintOutsideDeps ℕ ℕ ℕ ℕ
trusting_deps = record prompt_deps { verify_state = λ d s. true }

-- Surroundings in which the proposal of round 0 is made again in round 1.
abbrev repeating_deps : TendermintOutsideDeps ℕ ℕ ℕ ℕ
repeating_deps = record prompt_deps {
  await_proposal = λ d r. (done (ProposalResult.proposal 7 (some 0)), d);
  get_aggregation = λ d r s. (done all_for_seven, d);
}

-- A validator at the start of round 1, which locked that proposal in round 0.
abbrev locked_machine : Tendermint ℕ ℕ ℕ
locked_machine = record {
  deps = 0;
  state = record (state_at Step.precommit (some 7) Checkpoint.start_round (some 0) (some 7) none) {
    round = 1;
  };
}

supported : Supported repeating_deps 1 7
unfolding vote_count get_vote
supported = record {
  votes = λ d step. ((some 7, (0, 512)) ∷ [], d, refl, omega arith);
  sent = λ d valid_round. (d, refl);
  assembled = λ d proof. (1007, refl);
}

arrives : Arrives repeating_deps 0 locked_machine.state 7
unfolding vote_count get_vote
arrives =
    heard_again 0 0 0 ((some 7, (0, 512)) ∷ []) refl refl (omega arith) refl (omega arith)
      (inl (omega arith))

Arrives-Decides_example : Decides repeating_deps 1 7 (run_loop repeating_deps 4 locked_machine)
Arrives-Decides_example = Arrives-Decides repeating_deps locked_machine 7 supported refl arrives

abbrev validators : Validators ℕ ℕ ℕ ℕ
validators = record {
  deps = λ v. prompt_deps;
  begun = λ v. 0;
  machine = λ v. decision_machine;
  owner = λ s. 0;
  honest = λ v. true;
}

follows : (v : ℕ) → true ≡ true → Follows validators (λ p. p) v
follows v e = record {
  hashes = λ p. refl;
  equality = same_hash;
  calls = calls_later;
  reached = reach;
  room = omega arith;
}

abbrev seven_votes : Votes ℕ
seven_votes = (some 7, (0, 512)) ∷ []

every_vote :
    (r : ℕ) (step : Step) (agg : Votes ℕ)
    → Holds r step agg decision_log
    → (agg ≡ seven_votes) × Cast r step 7 decision_log
every_vote r step agg (inl (e, s, a)) = (cc, inl (e, s, refl))
every_vote r step agg (inr (inl (e, s, a))) = (cc, inr (inl (e, s, refl)))
every_vote r step agg (inr (inr h)) = absurd h

all_slots : count slots (λ s. true) ≡ 512
all_slots = refl

votes_of_seven :
    (h : ℕ)
    → ((h ≡ 7) × (vote_count (some h) seven_votes ≡ 512)) ⊎ (vote_count (some h) seven_votes ≡ 0)
unfolding vote_count get_vote
votes_of_seven h = ground arith

sound : Sound (network validators)
sound v good r step agg held h =
    let (same, cast) = every_vote r step agg held in
    elim (votes_of_seven h) [
      | inl (seven, n) ↦ (
        λ s. true,
        omega (arith, ap (vote_count (some h)) same, n),
        λ s taken good'. subst (λ x. Cast r step x decision_log) (sym seven) cast,
      )
      | inr no_votes ↦ (
        λ s. false,
        omega (arith, ap (vote_count (some h)) same, no_votes),
        λ s e good'. absurd cc,
      )
    ]

agreement_example :
    (p : ℕ) × (p' : ℕ) × AssembledBy validators 0 p 1007
    × AssembledBy validators 1 p' 1007
    × (p ≡ p')
agreement_example =
    agreement validators (λ p. p) follows (omega arith) sound 0 1 refl refl 1007 1007
      decision_machine decision_machine block_turn block_turn
