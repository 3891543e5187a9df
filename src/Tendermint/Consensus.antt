-- ===== src/Tendermint/Consensus.antt =====
-- Several validators that run the state machine, and the blocks that they yield.
use nimiq_core_rs_albatross.Base.{ℕ, ◌≤◌, ◌≡◌, refl, sym, ◌∙◌, subst, Bool, true, some, arith, inl}
use nimiq_core_rs_albatross.Primitives.Policy.{two_third_slots}
use nimiq_core_rs_albatross.Tendermint.Utils.{Checkpoint, Step, Votes, vote_count}
use nimiq_core_rs_albatross.Tendermint.Deps.{
  TendermintOutsideDeps, Tendermint, Progress, ok, err, panic, Response, done, failed,
}
use nimiq_core_rs_albatross.Tendermint.Protocol.{on_decision}
use nimiq_core_rs_albatross.Tendermint.Stream.{Turn, turn_of, decision_of, next_turn, turn}
use nimiq_core_rs_albatross.Tendermint.Trace.{Log, logged, Reach}
use nimiq_core_rs_albatross.Tendermint.Justify.{Assembled, Decided}
use nimiq_core_rs_albatross.Tendermint.Safety.{Reach-Justified, block_decided}
use nimiq_core_rs_albatross.Tendermint.Order.{CallsLater, HasRoom}
use nimiq_core_rs_albatross.Tendermint.Rounds.{Reach-Ordered, decision_same}
use nimiq_core_rs_albatross.Tendermint.Casts.{Holds}
use nimiq_core_rs_albatross.Tendermint.Agreement.{
  Network, Sound, LessThanThird, Quorum, quorums_agree,
}

module _ {D Proposal Proof Result : Type 0} where
  turn_of-ends :
      (q : Progress (Unit {0}) × Tendermint (D × Log Proof) Proposal Proof) (block : Result)
      (m' : Tendermint (D × Log Proof) Proposal Proof)
      → turn_of q ≡ Turn.ends block m'
      → ⊥
  turn_of-ends (ok _, m) block m' e = cc
  turn_of-ends (err x, m) block m' e = cc
  turn_of-ends (panic, m) block m' e = cc

  decision_of-ends :
      (q : Progress (Response Result) × Tendermint (D × Log Proof) Proposal Proof) (block : Result)
      (m' : Tendermint (D × Log Proof) Proposal Proof)
      → decision_of q ≡ Turn.ends block m'
      → q.1 ≡ m'
  decision_of-ends (ok (done b), m) block m' e = cc
  decision_of-ends (ok (failed x), m) block m' e = cc
  decision_of-ends (err x, m) block m' e = cc
  decision_of-ends (panic, m) block m' e = cc

  -- Enough votes for the hash, with their proof.
  Decided-Holds :
      (deps : TendermintOutsideDeps D Proposal Proof Result) (r h : ℕ) (proof : Proof)
      (l : Log Proof)
      → Decided deps r h proof l
      → (agg : Votes Proof) × Holds r Step.precommit agg l
        × (two_third_slots ≤ vote_count (some h) agg)
  unfolding vote_count
  Decided-Holds deps r h proof l (vote, votes, n, rest, e, found, le) = (
    votes,
    subst (Holds r Step.precommit votes) (sym e) (inl (refl, refl, refl)),
    ground (arith, found),
  )

  module _ (deps : TendermintOutsideDeps D Proposal Proof Result) (calls : CallsLater deps)
      (block : Result) (m' : Tendermint (D × Log Proof) Proposal Proof) where
    next_turn-ends :
        (c : Checkpoint) (m : Tendermint (D × Log Proof) Proposal Proof)
        → next_turn (logged deps) c m ≡ Turn.ends block m'
        → m ≡ m'
    unfolding next_turn
    next_turn-ends Checkpoint.on_decision m e =
        sym (decision_same deps calls m) ∙ decision_of-ends (on_decision (logged deps) m) block m' e
    next_turn-ends Checkpoint.start_round m e = absurd (turn_of-ends _ block m' e)
    next_turn-ends Checkpoint.on_proposal m e = absurd (turn_of-ends _ block m' e)
    next_turn-ends Checkpoint.on_past_proposal m e = absurd (turn_of-ends _ block m' e)
    next_turn-ends Checkpoint.on_polka m e = absurd (turn_of-ends _ block m' e)
    next_turn-ends Checkpoint.on_nil_polka m e = absurd (turn_of-ends _ block m' e)
    next_turn-ends Checkpoint.on_timeout_propose m e = absurd (turn_of-ends _ block m' e)
    next_turn-ends Checkpoint.on_timeout_prevote m e = absurd (turn_of-ends _ block m' e)
    next_turn-ends Checkpoint.on_timeout_precommit m e = absurd (turn_of-ends _ block m' e)

    turn-ends :
        (m : Tendermint (D × Log Proof) Proposal Proof)
        → turn (logged deps) m ≡ Turn.ends block m'
        → m ≡ m'
    unfolding turn
    turn-ends m e = next_turn-ends m.state.current_checkpoint m e

-- The validators, by their numbers: the surroundings of each, the machine that it has reached, the
-- slots, and which validators are not faulty.
pub record Validators (D Proposal Proof Result : Type 0) : Type 0 where
  pub deps : ℕ → TendermintOutsideDeps D Proposal Proof Result
  pub begun : ℕ → D
  pub machine : ℕ → Tendermint (D × Log Proof) Proposal Proof
  pub owner : ℕ → ℕ
  pub honest : ℕ → Bool

module _ {D Proposal Proof Result : Type 0} (vs : Validators D Proposal Proof Result) where
  open vs use {deps, begun, machine, owner, honest}

  abbrev pub network : Network Proof
  network = record { owner = owner; honest = honest; log = λ v. (machine v).deps.1 }

  -- What a validator that is not faulty does and relies on.
  pub record Follows (hash : Proposal → ℕ) (v : ℕ) : Type 0 where
    pub hashes : (p : Proposal) → (deps v).proposal_hash p ≡ hash p
    pub equality :
        (p q : Proposal)
        → (deps v).same_proposal p q ≡ true
        → (deps v).proposal_hash p ≡ (deps v).proposal_hash q
    pub calls : CallsLater (deps v)
    pub reached : Reach (deps v) HasRoom (begun v) (machine v)
    pub room : HasRoom (machine v).state

  -- A block that a validator assembled of a proposal.
  abbrev pub AssembledBy : ℕ → Proposal → Result → Type 0
  AssembledBy v p block =
      (proof : Proof) × ((deps v).assemble_block (machine v).deps.0 (machine v).state.round p proof
        ≡ done block)

  module _ (hash : Proposal → ℕ) (follows : (v : ℕ) → honest v ≡ true → Follows hash v) where
    decision-Quorum :
        (v : ℕ) (block : Result) (m : Tendermint (D × Log Proof) Proposal Proof)
        → honest v ≡ true
        → turn (logged (deps v)) (machine v) ≡ Turn.ends block m
        → (p : Proposal) × AssembledBy v p block
          × Quorum network (machine v).state.round Step.precommit (hash p)
    decision-Quorum v block m good e =
        let f = follows v good in
        let same = turn-ends (deps v) f.calls block m (machine v) e in
        let (p, proof, built, decided) =
          subst (Assembled (deps v) block) (sym same)
            (block_decided (deps v) f.equality f.reached block m e) in
        let (agg, held, enough) =
          Decided-Holds (deps v) (machine v).state.round (hash p) proof (machine v).deps.1 (
            subst (λ h. Decided (deps v) (machine v).state.round h proof (machine v).deps.1)
              (f.hashes p) decided) in
        (p, (proof, built), (v, agg, good, held, enough))

    -- Validators run the state machine, each with surroundings of its own, where those that are
    -- not faulty agree on the hash of proposals, hear of later rounds only when they are called to
    -- a new one, and have room in their round number. If less than a third of the slots is faulty,
    -- and every aggregation that a validator without a fault holds tells only of votes that were
    -- cast, where the slot is not faulty, then two such validators whose next turn yields a block
    -- assembled it of proposals with the same hash, whatever the rounds.
    pub agreement :
        LessThanThird network
        → Sound network
        → (v u : ℕ) → honest v ≡ true
        → honest u ≡ true
        → (block block' : Result) (m m' : Tendermint (D × Log Proof) Proposal Proof)
        → turn (logged (deps v)) (machine v) ≡ Turn.ends block m
        → turn (logged (deps u)) (machine u) ≡ Turn.ends block' m'
        → (p : Proposal) × (p' : Proposal) × AssembledBy v p block
          × AssembledBy u p' block'
          × (hash p ≡ hash p')
    agreement third sound v u good good' block block' m m' e e' =
        let (p, built, q) = decision-Quorum v block m good e in
        let (p', built', q') = decision-Quorum u block' m' good' e' in
        (
          p,
          p',
          built,
          built',
          quorums_agree network third sound
              (λ w g. let f = follows w g in (Reach-Justified (deps w) f.equality f.reached).0)
              (λ w g. let f = follows w g in (Reach-Ordered (deps w) f.calls f.reached f.room).0)
              (machine v).state.round (hash p) (machine u).state.round (hash p') q q',
        )
