-- ===== src/Tendermint/Start.antt =====
-- The first turn of a round, and the last, against the invariant of the state machine.
use nimiq_core_rs_albatross.Base.{
  ℕ, ◌≤◌, ◌<◌, ◌≡◌, refl, sym, ap, ◌∙◌, subst, Bool, true, false, Option, none, some, arith, inl,
  inr, ◌∷◌, ltb, if◌then◌else◌,
}
use nimiq_core_rs_albatross.Primitives.Policy.{two_third_slots}
use nimiq_core_rs_albatross.Tendermint.Utils.{
  Checkpoint, Step, VoteDecision, ProposalResult, AggregationResult, Votes, has_2f1_votes,
  vote_count,
}
use nimiq_core_rs_albatross.Tendermint.Deps.{
  TendermintOutsideDeps, Tendermint, Progress, Response, done, failed, Method, await, ◌>>=◌, ◌>>◌,
}
use nimiq_core_rs_albatross.Tendermint.Network.{
  set_state, go_to, receive_proposal, await_proposal, broadcast_and_aggregate_prevote,
}
use nimiq_core_rs_albatross.Tendermint.Protocol.{
  set_step, proposal_for, send_proposal, propose, start_round, on_decision, on_timeout_precommit,
}
use nimiq_core_rs_albatross.Tendermint.Stream.{turn_of, decision_of}
use nimiq_core_rs_albatross.Tendermint.Trace.{looked, Log, logged}
use nimiq_core_rs_albatross.Tendermint.Rules.{lock_of, MayPrevote, Justified}
use nimiq_core_rs_albatross.Tendermint.Justify.{Locked, Stage, Inv, Fine}
use nimiq_core_rs_albatross.Tendermint.Turns.{block-Fine}

has_2f1_votes_lem :
    {Proof : Type 0} (h : ℕ) (a : AggregationResult Proof)
    → has_2f1_votes h a ≡ true
    → (votes : Votes Proof) × (a ≡ AggregationResult.aggregation votes)
      × (two_third_slots ≤ vote_count (some h) votes)
unfolding has_2f1_votes
has_2f1_votes_lem h (AggregationResult.aggregation votes) e = (votes, refl, ground (arith, e))
has_2f1_votes_lem h (AggregationResult.new_round r) e = cc

module _ {D Proposal Proof Result : Type 0} (deps : TendermintOutsideDeps D Proposal Proof Result)
    (same_hash : (p q : Proposal)
      → deps.same_proposal p q ≡ true
      → deps.proposal_hash p ≡ deps.proposal_hash q) where
  open deps use {proposal_hash}

  abbrev M : Type 0
  M = Tendermint (D × Log Proof) Proposal Proof

  -- What a call gives: an error, where nothing was said that was not allowed, or a value.
  await-Fine :
      {A : Type 0} (m : M) (l : Log Proof) (response : Response A × D) (f : A → Method M (Unit {0}))
      → Justified l
      → ((a : A) (d : D)
          → response ≡ (done a, d)
          → Fine deps (turn_of (f a (record m { deps = (d, l) }))))
      → Fine deps (turn_of (◌>>=◌ (await (λ _. (response.0, (response.1, l)))) f m))
  await-Fine m l (failed e, d) f j h = j
  await-Fine m l (done a, d) f j h = h a d refl

  if-Fine :
      (b : Bool) (f g : Method M (Unit {0})) (m : M)
      → (b ≡ true → Fine deps (turn_of (f m)))
      → (b ≡ false → Fine deps (turn_of (g m)))
      → Fine deps (turn_of ((if b then f else g) m))
  if-Fine true f g m h k = h refl
  if-Fine false f g m h k = k refl

  module _ (m : M) (i : Inv deps m) where
    answered-Inv : (d : D) → Inv deps (record m { deps = (d, m.deps.1) })
    answered-Inv d = record {
      justified = i.justified;
      locked = i.locked;
      valid_value = i.valid_value;
      valid_round = i.valid_round;
      stage = i.stage;
    }

    -- The machine that has begun its round, and what it has at the stage that follows.
    abbrev begun : D → Log Proof → Option Proposal → Option ℕ → Checkpoint → M
    begun d l proposal vr c = record {
      deps = (d, l);
      state = record m.state {
        step = Step.propose;
        current_proposal = proposal;
        current_proposal_vr = vr;
        current_proof = none;
        current_checkpoint = c;
      };
    }

    begun-Inv :
        (d : D) (l : Log Proof) (proposal : Option Proposal) (vr : Option ℕ) (c : Checkpoint)
        → Justified l
        → Locked deps m.state l
        → (let m' = begun d l proposal vr c in Stage deps c m'.state l → Inv deps m')
    begun-Inv d l proposal vr c j k stage = record {
      justified = j;
      locked = k;
      valid_value = i.valid_value;
      valid_round = i.valid_round;
      stage = stage;
    }

    send_proposal-Fine :
        (d : D) (vr : Option ℕ) (p : Proposal)
        → MayPrevote m.state.round (proposal_hash p) m.deps.1
        → Fine deps (
            turn_of (
              send_proposal
                (logged deps)
                m.state.round
                vr
                p
                (begun d m.deps.1 none none m.state.current_checkpoint)))
    unfolding send_proposal
    send_proposal-Fine d vr p may =
        await-Fine (begun d m.deps.1 (some p) vr m.state.current_checkpoint) m.deps.1
          (deps.broadcast_proposal d m.state.round p vr)
          (λ _.
            ◌>>◌ (set_step Step.prevote)
              (broadcast_and_aggregate_prevote (logged deps) m.state.round VoteDecision.block))
          i.justified
          (λ u d' q.
            block-Fine deps same_hash (record m { deps = (d', m.deps.1) }) (answered-Inv d')
              (some p) vr none may)

    -- The own proposal is the locked one, or there is no lock.
    propose-Fine : Fine deps (
        turn_of (
          propose
            (logged deps)
            m.state.round
            m.state.valid_round
            (begun m.deps.0 m.deps.1 none none m.state.current_checkpoint)))
    unfolding propose proposal_for
    propose-Fine = elim i.locked [
      | inl (lr, lv, lo) ↦ from_value none (i.valid_value ∙ lv) (
          await-Fine (begun m.deps.0 m.deps.1 none none m.state.current_checkpoint) m.deps.1
            (deps.get_value m.deps.0 m.state.round)
            (send_proposal (logged deps) m.state.round m.state.valid_round) i.justified
            (λ p d q. send_proposal-Fine d m.state.valid_round p (inl lo)))
      | inr (r, p, lr, lv, lo) ↦
          from_value (some p) (i.valid_value ∙ lv)
            (send_proposal-Fine m.deps.0 m.state.valid_round p (inr (inl (r, lo))))
    ]
      where
        from_value :
            (o : Option Proposal)
            → m.state.valid_value ≡ o
            → Fine deps (
                turn_of (
                  ◌>>=◌
                    (proposal_for (logged deps) m.state.round o)
                    (send_proposal (logged deps) m.state.round m.state.valid_round)
                    (begun m.deps.0 m.deps.1 none none m.state.current_checkpoint)))
            → Fine deps (
                turn_of (
                  ◌>>=◌
                    (proposal_for (logged deps) m.state.round m.state.valid_value)
                    (send_proposal (logged deps) m.state.round m.state.valid_round)
                    (begun m.deps.0 m.deps.1 none none m.state.current_checkpoint)))
        from_value o e h =
            subst
              (λ x. Fine deps (
                turn_of (
                  ◌>>=◌ (proposal_for (logged deps) m.state.round x)
                    (send_proposal (logged deps) m.state.round m.state.valid_round)
                    (begun m.deps.0 m.deps.1 none none m.state.current_checkpoint))))
              (sym e) h

    -- A proposal with the prevotes of an earlier round is taken, and else refused.
    abbrev accept : ℕ → Proposal → Method M (Unit {0})
    accept vr p = ◌>>◌ (set_state (λ s. record s { current_proposal = some p })) (
        ◌>>◌ (set_state (λ s. record s { current_proposal_vr = some vr }))
          (go_to Checkpoint.on_past_proposal))

    abbrev refuse : Method M (Unit {0})
    refuse = go_to Checkpoint.on_timeout_propose

    refused-Fine :
        (d : D) (l : Log Proof)
        → Justified l
        → Locked deps m.state l
        → Fine deps (turn_of (refuse (begun d l none none m.state.current_checkpoint)))
    refused-Fine d l j k = begun-Inv d l none none Checkpoint.on_timeout_propose j k refl

    past-Fine :
        (d : D) (vr : ℕ) (p : Proposal) (r : Response (AggregationResult Proof))
        (a : AggregationResult Proof)
        → r ≡ done a
        → vr < m.state.round
        → Fine deps (
            turn_of (
              (if has_2f1_votes (proposal_hash p) a then accept vr p else refuse) (
                begun d
                  (looked vr Step.prevote r ∷ m.deps.1)
                  none
                  none
                  m.state.current_checkpoint)))
    unfolding lock_of
    past-Fine d vr p r a e lt =
        if-Fine (has_2f1_votes (proposal_hash p) a) (accept vr p) refuse
          (begun d (looked vr Step.prevote r ∷ m.deps.1) none none m.state.current_checkpoint)
          (λ enough.
            let (votes, ea, le) = has_2f1_votes_lem (proposal_hash p) a enough in
            begun-Inv d (looked vr Step.prevote r ∷ m.deps.1) (some p) (some vr)
              Checkpoint.on_past_proposal i.justified i.locked
              (
                refl,
                (
                  p,
                  vr,
                  refl,
                  refl,
                  lt,
                  (
                    votes,
                    m.deps.1,
                    ap (λ x. looked vr Step.prevote x ∷ m.deps.1) (e ∙ ap done ea),
                    le,
                  ),
                ),
              ))
          (λ few. refused-Fine d (looked vr Step.prevote r ∷ m.deps.1) i.justified i.locked)

    receive_proposal-Fine :
        (d : D) (r : ProposalResult Proposal)
        → Fine deps (
            turn_of (
              receive_proposal
                (logged deps)
                m.state.round
                r
                (begun d m.deps.1 none none m.state.current_checkpoint)))
    unfolding receive_proposal
    receive_proposal-Fine d ProposalResult.timeout =
        begun-Inv d m.deps.1 none none Checkpoint.on_timeout_propose i.justified i.locked refl
    receive_proposal-Fine d (ProposalResult.proposal p none) =
        begun-Inv d m.deps.1 (some p) none Checkpoint.on_proposal i.justified i.locked
          (refl, (p, refl))
    receive_proposal-Fine d (ProposalResult.proposal p (some vr)) =
        if-Fine (ltb vr m.state.round)
          (◌>>=◌ (await (λ d'. (logged deps).get_aggregation d' vr Step.prevote))
            (λ a. if has_2f1_votes (proposal_hash p) a then accept vr p else refuse))
          refuse (begun d m.deps.1 none none m.state.current_checkpoint)
          (λ lt.
            await-Fine (begun d m.deps.1 none none m.state.current_checkpoint)
              (looked vr Step.prevote response.0 ∷ m.deps.1) response
              (λ a. if has_2f1_votes (proposal_hash p) a then accept vr p else refuse) i.justified
              (λ a d' q. past-Fine d' vr p response.0 a (ap (λ x. x.0) q) (ground (arith, lt))))
          (λ late. refused-Fine d m.deps.1 i.justified i.locked)
      where
        response : Response (AggregationResult Proof) × D
        response = deps.get_aggregation d vr Step.prevote

    pub start_round-Fine : Fine deps (turn_of (start_round (logged deps) m))
    unfolding start_round await_proposal
    start_round-Fine =
        if-Fine (deps.is_our_turn m.deps.0 m.state.round)
          (propose (logged deps) m.state.round m.state.valid_round)
          (await_proposal (logged deps) m.state.round)
          (begun m.deps.0 m.deps.1 none none m.state.current_checkpoint) (λ ours. propose-Fine)
          (λ others.
            await-Fine (begun m.deps.0 m.deps.1 none none m.state.current_checkpoint) m.deps.1
              (deps.await_proposal m.deps.0 m.state.round)
              (receive_proposal (logged deps) m.state.round) i.justified
              (λ r d q. receive_proposal-Fine d r))

    pub on_timeout_precommit-Fine : Fine deps (turn_of (on_timeout_precommit m))
    unfolding on_timeout_precommit
    on_timeout_precommit-Fine = record {
      justified = i.justified;
      locked = i.locked;
      valid_value = i.valid_value;
      valid_round = i.valid_round;
      stage = tt;
    }

    -- The block is assembled of the proposal and the proof that the stage has.
    pub on_decision-turn :
        (p : Proposal) (proof : Proof)
        → m.state.current_proposal ≡ some p
        → m.state.current_proof ≡ some proof
        → decision_of (on_decision (logged deps) m)
          ≡ decision_of (Progress.ok (deps.assemble_block m.deps.0 m.state.round p proof), m)
    unfolding on_decision
    on_decision-turn p proof ep eq = ground (arith, ep, eq)
