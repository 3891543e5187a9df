-- ===== src/Tendermint/Safety.antt =====
-- Every turn, and every machine that is reached, against the invariant; the blocks of a decision.
use nimiq_core_rs_albatross.Base.{◌≡◌, refl, sym, subst, true, inl, []}
use nimiq_core_rs_albatross.Tendermint.Utils.{Checkpoint, TendermintError, TendermintState}
use nimiq_core_rs_albatross.Tendermint.Deps.{
  TendermintOutsideDeps, Tendermint, Progress, Response, done, failed, new_tendermint,
}
use nimiq_core_rs_albatross.Tendermint.Stream.{Turn, decision_of, next_turn, turn}
use nimiq_core_rs_albatross.Tendermint.Trace.{Log, logged, Reach, start, later}
use nimiq_core_rs_albatross.Tendermint.Rules.{lock_of, Justified}
use nimiq_core_rs_albatross.Tendermint.Justify.{Stage, Inv, Fine, Decided, Assembled}
use nimiq_core_rs_albatross.Tendermint.Turns.{
  on_timeout_prevote-Fine, on_nil_polka-Fine, on_timeout_propose-Fine, on_proposal-Fine,
  on_past_proposal-Fine, on_polka-Fine,
}
use nimiq_core_rs_albatross.Tendermint.Start.{
  start_round-Fine, on_timeout_precommit-Fine, on_decision-turn,
}

module _ {D Proposal Proof Result : Type 0} (deps : TendermintOutsideDeps D Proposal Proof Result)
    (same_hash : (p q : Proposal)
      → deps.same_proposal p q ≡ true
      → deps.proposal_hash p ≡ deps.proposal_hash q) where
  abbrev M : Type 0
  M = Tendermint (D × Log Proof) Proposal Proof

  decision-Fine :
      (m : M)
      → Inv deps m
      → (p : Proposal) (proof : Proof)
      → Decided deps m.state.round (deps.proposal_hash p) proof m.deps.1
      → (r : Response Result) → deps.assemble_block m.deps.0 m.state.round p proof ≡ r
      → Fine deps (decision_of (Progress.ok r, m))
  decision-Fine m i p proof decided (done block) e = (i.justified, (p, proof, e, decided))
  decision-Fine m i p proof decided (failed _) e = i.justified

  next_turn-Fine :
      (c : Checkpoint) (m : M)
      → Inv deps m
      → Stage deps c m.state m.deps.1
      → Fine deps (next_turn (logged deps) c m)
  unfolding next_turn
  next_turn-Fine Checkpoint.start_round m i g = start_round-Fine deps same_hash m i
  next_turn-Fine Checkpoint.on_proposal m i (e, (p, ep)) =
      on_proposal-Fine deps same_hash m i e p ep
  next_turn-Fine Checkpoint.on_past_proposal m i (e, (p, vr, ep, ev, lt, seen)) =
      on_past_proposal-Fine deps same_hash m i e p vr ep ev lt seen
  next_turn-Fine Checkpoint.on_polka m i (e, (p, ep, polka)) =
      on_polka-Fine deps same_hash m i e p ep polka
  next_turn-Fine Checkpoint.on_nil_polka m i e = on_nil_polka-Fine deps same_hash m i e
  next_turn-Fine Checkpoint.on_decision m i (p, proof, ep, eq, decided) =
      subst (Fine deps) (sym (on_decision-turn deps same_hash m i p proof ep eq)) (
        decision-Fine m i p proof decided (deps.assemble_block m.deps.0 m.state.round p proof) refl)
  next_turn-Fine Checkpoint.on_timeout_propose m i e = on_timeout_propose-Fine deps same_hash m i e
  next_turn-Fine Checkpoint.on_timeout_prevote m i e = on_timeout_prevote-Fine deps same_hash m i e
  next_turn-Fine Checkpoint.on_timeout_precommit m i g =
      on_timeout_precommit-Fine deps same_hash m i

  pub turn-Fine : (m : M) → Inv deps m → Fine deps (turn (logged deps) m)
  unfolding turn
  turn-Fine m i = next_turn-Fine m.state.current_checkpoint m i i.stage

  pub new-Inv : (d : D) → Inv deps (new_tendermint (d, []))
  unfolding lock_of
  new-Inv d = record {
    justified = tt;
    locked = inl (refl, refl, refl);
    valid_value = refl;
    valid_round = refl;
    stage = tt;
  }

  pub Reach-Inv :
      {Allowed : TendermintState Proposal Proof → Type 0} {d : D} {m : M}
      → Reach deps Allowed d m
      → Inv deps m
  Reach-Inv {d = d} start = new-Inv d
  Reach-Inv (later {m} r a e) = subst (Fine deps) e (turn-Fine m (Reach-Inv r))

  module _ {Allowed : TendermintState Proposal Proof → Type 0} {d : D} {m : M}
      (reached : Reach deps Allowed d m) where
    -- Whatever the surroundings answer, where proposals that count as equal have the same hash: in
    -- every machine that is reached, and also where the next turn fails, every prevote for a block
    -- was cast with no precommit for a block before, or for the block of the newest one, or after
    -- enough prevotes for it were seen in an earlier round that is not before that precommit's;
    -- and every precommit for a block was cast right after a prevote in the same round whose
    -- aggregation has enough prevotes for that block.
    pub Reach-Justified :
        Justified m.deps.1
        × ((m' : M) (e : TendermintError)
            → turn (logged deps) m ≡ Turn.fails e m'
            → Justified m'.deps.1)
    Reach-Justified = (
      (Reach-Inv reached).justified,
      λ m' e q. subst (Fine deps) q (turn-Fine m (Reach-Inv reached)),
    )

    -- In every machine that is reached, whatever the surroundings answer and where proposals that
    -- count as equal have the same hash: if the next turn yields a block, it was assembled in the
    -- round of the machine of a proposal and a proof, and the last thing that happened was a
    -- precommit in that round whose aggregation has enough votes for the hash of this proposal,
    -- with this proof.
    pub block_decided :
        (block : Result) (m' : M)
        → turn (logged deps) m ≡ Turn.ends block m'
        → Assembled deps block m'
    block_decided block m' e = (subst (Fine deps) e (turn-Fine m (Reach-Inv reached))).1
