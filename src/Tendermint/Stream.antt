-- ===== src/Tendermint/Stream.antt =====
-- tendermint/src/stream.rs, `expect_block`: the loop over the stages, as the sequence of what it
-- yields.
use nimiq_core_rs_albatross.Base.{ℕ, zero, suc, true, false, Option, none, some, List, [], ◌∷◌}
use nimiq_core_rs_albatross.Tendermint.Utils.{
  Checkpoint, TendermintError, TendermintState, TendermintReturn,
}
use nimiq_core_rs_albatross.Tendermint.Deps.{
  TendermintOutsideDeps, Tendermint, Progress, ok, err, panic, Response, done, failed,
  new_tendermint,
}
use nimiq_core_rs_albatross.Tendermint.Protocol.{
  start_round, on_proposal, on_past_proposal, on_polka, on_nil_polka, on_decision,
  on_timeout_propose, on_timeout_prevote, on_timeout_precommit,
}

-- One pass of the loop: it goes on, or ends with a block, an error or a panic.
pub data Turn (M Result : Type 0) : Type 0 where
  goes_on : M → Turn M Result
  ends : Result → M → Turn M Result
  fails : TendermintError → M → Turn M Result
  panics : Turn M Result

-- What the stream gives when it is polled once more: an item, its end, or a panic.
pub data Item (A : Type 0) : Type 0 where
  item : A → Item A
  panicked : Item A

module _ {D Proposal Proof Result : Type 0} where
  abbrev pub turn_of :
      Progress (Unit {0}) × Tendermint D Proposal Proof → Turn (Tendermint D Proposal Proof) Result
  turn_of (ok _, m) = Turn.goes_on m
  turn_of (err e, m) = Turn.fails e m
  turn_of (panic, m) = Turn.panics

  abbrev pub decision_of :
      Progress (Response Result) × Tendermint D Proposal Proof
      → Turn (Tendermint D Proposal Proof) Result
  decision_of (ok (done block), m) = Turn.ends block m
  decision_of (ok (failed e), m) = Turn.fails e m
  decision_of (err e, m) = Turn.fails e m
  decision_of (panic, m) = Turn.panics

  -- What is yielded after a turn, and the items that follow where it goes on.
  abbrev pub items_of :
      (Tendermint D Proposal Proof → List (Item (TendermintReturn Proposal Proof Result)))
      → Turn (Tendermint D Proposal Proof) Result
      → List (Item (TendermintReturn Proposal Proof Result))
  items_of follow (Turn.goes_on m) = item (TendermintReturn.state_update m.state) ∷ follow m
  items_of follow (Turn.ends block m) = item (TendermintReturn.result block) ∷ []
  items_of follow (Turn.fails e m) = item (TendermintReturn.error e) ∷ []
  items_of follow Turn.panics = panicked ∷ []

  module _ (deps : TendermintOutsideDeps D Proposal Proof Result) where
    -- The `match` on the current stage.
    unfoldable pub next_turn :
        Checkpoint → Tendermint D Proposal Proof → Turn (Tendermint D Proposal Proof) Result
    next_turn Checkpoint.start_round m = turn_of (start_round deps m)
    next_turn Checkpoint.on_proposal m = turn_of (on_proposal deps m)
    next_turn Checkpoint.on_past_proposal m = turn_of (on_past_proposal deps m)
    next_turn Checkpoint.on_polka m = turn_of (on_polka deps m)
    next_turn Checkpoint.on_nil_polka m = turn_of (on_nil_polka deps m)
    next_turn Checkpoint.on_decision m = decision_of (on_decision deps m)
    next_turn Checkpoint.on_timeout_propose m = turn_of (on_timeout_propose deps m)
    next_turn Checkpoint.on_timeout_prevote m = turn_of (on_timeout_prevote deps m)
    next_turn Checkpoint.on_timeout_precommit m = turn_of (on_timeout_precommit m)

    unfoldable pub turn : Tendermint D Proposal Proof → Turn (Tendermint D Proposal Proof) Result
    turn m = next_turn m.state.current_checkpoint m

    -- The first `n` items of the loop, fewer where it ends before.
    unfoldable pub run_loop :
        ℕ → Tendermint D Proposal Proof → List (Item (TendermintReturn Proposal Proof Result))
    run_loop zero m = []
    run_loop (suc n) m = items_of (run_loop n) (turn m)

    -- The first `n` items of the stream.
    unfoldable pub expect_block :
        ℕ
        → D
        → Option (TendermintState Proposal Proof)
        → List (Item (TendermintReturn Proposal Proof Result))
    unfolding run_loop
    expect_block zero d state_opt = []
    expect_block (suc n) d none = run_loop (suc n) (new_tendermint d)
    expect_block (suc n) d (some state) = elim (deps.verify_state d state) [
      | true ↦ run_loop (suc n) (record { deps = d; state = state })
      | false ↦ item (TendermintReturn.error TendermintError.bad_init_state) ∷ []
    ]
