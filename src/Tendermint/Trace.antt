-- ===== src/Tendermint/Trace.antt =====
-- What a validator says and looks up: surroundings that keep a record of the votes that are cast
-- and of the aggregations that are read, and the machines that are reached among them.
use nimiq_core_rs_albatross.Base.{ℕ, ◌≡◌, Option, List, [], ◌∷◌}
use nimiq_core_rs_albatross.Tendermint.Utils.{Step, AggregationResult, TendermintState}
use nimiq_core_rs_albatross.Tendermint.Deps.{
  TendermintOutsideDeps, Tendermint, Response, new_tendermint,
}
use nimiq_core_rs_albatross.Tendermint.Stream.{Turn, turn}

pub data Event (Proof : Type 0) : Type 0 where
  voted : ℕ → Step → Option ℕ → Response (AggregationResult Proof) → Event Proof
  looked : ℕ → Step → Response (AggregationResult Proof) → Event Proof

-- The newest first.
abbrev pub Log : Type 0 → Type 0
Log Proof = List (Event Proof)

module _ {D Proposal Proof Result : Type 0}
    (deps : TendermintOutsideDeps D Proposal Proof Result) where
  abbrev pub logged : TendermintOutsideDeps (D × Log Proof) Proposal Proof Result
  logged = record {
    proposal_hash = deps.proposal_hash;
    same_proposal = deps.same_proposal;
    verify_state = λ d s. deps.verify_state d.0 s;
    is_our_turn = λ d r. deps.is_our_turn d.0 r;
    get_value = λ d r. ((deps.get_value d.0 r).0, ((deps.get_value d.0 r).1, d.1));
    assemble_block = λ d r p q. deps.assemble_block d.0 r p q;
    broadcast_proposal = λ d r p v.
        ((deps.broadcast_proposal d.0 r p v).0, ((deps.broadcast_proposal d.0 r p v).1, d.1));
    await_proposal = λ d r. ((deps.await_proposal d.0 r).0, ((deps.await_proposal d.0 r).1, d.1));
    broadcast_and_aggregate = λ d r s h.
        let (a, d') = deps.broadcast_and_aggregate d.0 r s h in (a, (d', voted r s h a ∷ d.1));
    get_aggregation =
        λ d r s. let (a, d') = deps.get_aggregation d.0 r s in (a, (d', looked r s a ∷ d.1));
  }

  -- The machines reached from a new one, where `Allowed` holds of each that is left behind.
  pub data Reach (Allowed : TendermintState Proposal Proof → Type 0) (d : D)
      : Tendermint (D × Log Proof) Proposal Proof → Type 0 where
    start : Reach Allowed d (new_tendermint (d, []))
    later :
        {m m' : Tendermint (D × Log Proof) Proposal Proof}
        → Reach Allowed d m
        → Allowed m.state
        → turn logged m ≡ Turn.goes_on m'
        → Reach Allowed d m'
