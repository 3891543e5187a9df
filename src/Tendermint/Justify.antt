-- ===== src/Tendermint/Justify.antt =====
-- The invariant of the state machine: every vote was allowed when it was cast, the locks are those
-- of the newest precommit for a block, and each stage has what its method needs.
use nimiq_core_rs_albatross.Base.{
  ℕ, ◌≤◌, ◌<◌, ◌≡◌, refl, sym, ap, subst, Option, none, some, arith, ◌⊎◌, inl, inr, ◌∷◌,
}
use nimiq_core_rs_albatross.Primitives.Policy.{two_third_slots}
use nimiq_core_rs_albatross.Tendermint.Utils.{
  Checkpoint, Step, VoteDecision, VoteResult, AggregationResult, Votes, TendermintState, get_vote,
  vote_count,
}
use nimiq_core_rs_albatross.Tendermint.Deps.{
  TendermintOutsideDeps, Tendermint, Method, ◌>>=◌, Progress, Response, done,
}
use nimiq_core_rs_albatross.Tendermint.Network.{
  map_option, decided_proposal, broadcast_and_aggregate_prevote, broadcast_and_aggregate_precommit,
  after_prevote, after_precommit, start_at,
}
use nimiq_core_rs_albatross.Tendermint.Stream.{Turn, turn_of}
use nimiq_core_rs_albatross.Tendermint.Trace.{voted, Log, logged}
use nimiq_core_rs_albatross.Tendermint.Rules.{lock_of, Polka, Seen, MayVote, Justified}
use nimiq_core_rs_albatross.Tendermint.Votes.{Reads, cast_vote_lem, current_hash}

map_option-some :
    {A : Type 0} (f : A → ℕ) (o : Option A) (h : ℕ)
    → map_option f o ≡ some h
    → (a : A) × (o ≡ some a) × (f a ≡ h)
map_option-some f none h e = cc
map_option-some f (some a) h e = (a, refl, cc)

vote_count_of :
    {Proof : Type 0} (k h : ℕ) (votes : Votes Proof) (proof : Proof) (n : ℕ)
    → k ≡ h
    → get_vote (some h) votes ≡ some (proof, n)
    → two_third_slots ≤ n
    → two_third_slots ≤ vote_count (some k) votes
unfolding vote_count
vote_count_of k h votes proof n e found le = ground (arith, e, found)

module _ {D Proposal Proof Result : Type 0}
    (deps : TendermintOutsideDeps D Proposal Proof Result) where
  open deps use {proposal_hash}

  -- The locked proposal is that of the newest precommit for a block.
  abbrev pub Locked : TendermintState Proposal Proof → Log Proof → Type 0
  Locked s l =
      ((s.locked_round ≡ none) × (s.locked_value ≡ none) × (lock_of l ≡ none))
      ⊎ ((r : ℕ) × (p : Proposal) × (s.locked_round ≡ some r)
          × (s.locked_value ≡ some p)
          × (lock_of l ≡ some (r, proposal_hash p)))

  -- The last thing that happened was a precommit in this round, and its aggregation has enough
  -- votes for the proposal, with this proof.
  abbrev pub Decided : ℕ → ℕ → Proof → Log Proof → Type 0
  Decided r h proof l =
      (vote : Option ℕ) × (votes : Votes Proof) × (n : ℕ) × (rest : Log Proof) × (l
        ≡ voted r Step.precommit vote (done (AggregationResult.aggregation votes)) ∷ rest)
      × (get_vote (some h) votes ≡ some (proof, n))
      × (two_third_slots ≤ n)

  abbrev pub Stage : Checkpoint → TendermintState Proposal Proof → Log Proof → Type 0
  Stage Checkpoint.start_round s l = Unit
  Stage Checkpoint.on_proposal s l =
      (s.step ≡ Step.propose) × ((p : Proposal) × (s.current_proposal ≡ some p))
  Stage Checkpoint.on_past_proposal s l =
      (s.step ≡ Step.propose)
      × ((p : Proposal) × (vr : ℕ) × (s.current_proposal ≡ some p)
          × (s.current_proposal_vr ≡ some vr)
          × (vr < s.round)
          × Seen vr (proposal_hash p) l)
  Stage Checkpoint.on_polka s l =
      (s.step ≡ Step.prevote)
      × ((p : Proposal) × (s.current_proposal ≡ some p) × Polka s.round (proposal_hash p) l)
  Stage Checkpoint.on_nil_polka s l = s.step ≡ Step.prevote
  Stage Checkpoint.on_decision s l =
      (p : Proposal) × (proof : Proof) × (s.current_proposal ≡ some p)
      × (s.current_proof ≡ some proof)
      × Decided s.round (proposal_hash p) proof l
  Stage Checkpoint.on_timeout_propose s l = s.step ≡ Step.propose
  Stage Checkpoint.on_timeout_prevote s l = s.step ≡ Step.prevote
  Stage Checkpoint.on_timeout_precommit s l = Unit

  pub record Inv (m : Tendermint (D × Log Proof) Proposal Proof) : Type 0 where
    pub justified : Justified m.deps.1
    pub locked : Locked m.state m.deps.1
    pub valid_value : m.state.valid_value ≡ m.state.locked_value
    pub valid_round : m.state.valid_round ≡ m.state.locked_round
    pub stage : Stage m.state.current_checkpoint m.state m.deps.1

  -- The block was assembled of a proposal and the proof that it had enough precommits.
  abbrev pub Assembled : Result → Tendermint (D × Log Proof) Proposal Proof → Type 0
  Assembled block m =
      (p : Proposal) × (proof : Proof) × (deps.assemble_block m.deps.0 m.state.round p proof
        ≡ done block)
      × Decided m.state.round (proposal_hash p) proof m.deps.1

  -- What a turn leaves: it does not panic, and where it goes on the invariant holds.
  abbrev pub Fine : Turn (Tendermint (D × Log Proof) Proposal Proof) Result → Type 0
  Fine (Turn.goes_on m) = Inv m
  Fine (Turn.ends block m) = Justified m.deps.1 × Assembled block m
  Fine (Turn.fails e m) = Justified m.deps.1
  Fine Turn.panics = ⊥

  -- What holds before a vote.
  pub record Ready (m : Tendermint (D × Log Proof) Proposal Proof) (s : Step) (hash : Option ℕ)
      : Type 0 where
    pub may_vote : MayVote m.state.round s hash m.deps.1
    pub was_justified : Justified m.deps.1
    pub lock :
        (a : Response (AggregationResult Proof))
        → Locked m.state (voted m.state.round s hash a ∷ m.deps.1)
    pub same_value : m.state.valid_value ≡ m.state.locked_value
    pub same_round : m.state.valid_round ≡ m.state.locked_round

  abbrev Machine : Type 0
  Machine = Tendermint (D × Log Proof) Proposal Proof

  -- A method that ends like `r` and goes on with `f`.
  abbrev bound :
      {A : Type 0}
      → Progress A × Machine
      → (A → Method Machine (Unit {0}))
      → Machine
      → Turn Machine Result
  bound r f m = turn_of (◌>>=◌ (λ (_ : Machine). r) f m)

  -- The machine after a vote, with what reading its aggregation sets.
  abbrev voting :
      Machine
      → Step
      → Option ℕ
      → Response (AggregationResult Proof)
      → D
      → ℕ
      → Option Proof
      → Checkpoint
      → Machine
  voting m step hash a d round proof c = record {
    deps = (d, voted m.state.round step hash a ∷ m.deps.1);
    state = record m.state { round = round; current_proof = proof; current_checkpoint = c };
  }

  voting-Inv :
      (m : Machine) (step : Step) (hash : Option ℕ)
      → Ready m step hash
      → (a : Response (AggregationResult Proof)) (d : D) (round : ℕ) (proof : Option Proof)
        (c : Checkpoint)
      → (let m' = voting m step hash a d round proof c in Stage c m'.state m'.deps.1 → Inv m')
  voting-Inv m step hash ready a d round proof c stage = record {
    justified = (ready.may_vote, ready.was_justified);
    locked = ready.lock a;
    valid_value = ready.same_value;
    valid_round = ready.same_round;
    stage = stage;
  }

  after_prevote-Fine :
      (m : Machine) (hash : Option ℕ)
      → m.state.step ≡ Step.prevote
      → Ready m Step.prevote hash
      → (agg : AggregationResult Proof) (d : D) (v : VoteResult Proof)
      → Reads (current_hash deps m) agg v
      → Fine (
          turn_of (
            after_prevote v (record m {
              deps = (d, voted m.state.round Step.prevote hash (done agg) ∷ m.deps.1);
            })))
  unfolding after_prevote start_at
  after_prevote-Fine m hash e ready agg d (VoteResult.block proof)
        (h, votes, n, eh, ea, found, le) =
      let (p, ep, eq) = map_option-some proposal_hash m.state.current_proposal h eh in
      voting-Inv m Step.prevote hash ready (done agg) d m.state.round m.state.current_proof
        Checkpoint.on_polka
        (
          e,
          (
            p,
            ep,
            (
              hash,
              votes,
              m.deps.1,
              ap (λ x. voted m.state.round Step.prevote hash (done x) ∷ m.deps.1) ea,
              vote_count_of (proposal_hash p) h votes proof n eq found le,
            ),
          ),
        )
  after_prevote-Fine m hash e ready agg d (VoteResult.nil proof) reads =
      voting-Inv m Step.prevote hash ready (done agg) d m.state.round m.state.current_proof
        Checkpoint.on_nil_polka e
  after_prevote-Fine m hash e ready agg d VoteResult.timeout reads =
      voting-Inv m Step.prevote hash ready (done agg) d m.state.round m.state.current_proof
        Checkpoint.on_timeout_prevote e
  after_prevote-Fine m hash e ready agg d (VoteResult.new_round round) reads =
      voting-Inv m Step.prevote hash ready (done agg) d round m.state.current_proof
        Checkpoint.start_round tt

  after_precommit-Fine :
      (m : Machine) (hash : Option ℕ)
      → Ready m Step.precommit hash
      → (agg : AggregationResult Proof) (d : D) (v : VoteResult Proof)
      → Reads (current_hash deps m) agg v
      → Fine (
          turn_of (
            after_precommit v (record m {
              deps = (d, voted m.state.round Step.precommit hash (done agg) ∷ m.deps.1);
            })))
  unfolding after_precommit start_at
  after_precommit-Fine m hash ready agg d (VoteResult.block proof)
        (h, votes, n, eh, ea, found, le) =
      let (p, ep, eq) = map_option-some proposal_hash m.state.current_proposal h eh in
      voting-Inv m Step.precommit hash ready (done agg) d m.state.round (some proof)
        Checkpoint.on_decision
        (
          p,
          proof,
          ep,
          refl,
          (
            hash,
            votes,
            n,
            m.deps.1,
            ap (λ x. voted m.state.round Step.precommit hash (done x) ∷ m.deps.1) ea,
            subst (λ x. get_vote (some x) votes ≡ some (proof, n)) (sym eq) found,
            le,
          ),
        )
  after_precommit-Fine m hash ready agg d (VoteResult.nil proof) reads =
      voting-Inv m Step.precommit hash ready (done agg) d m.state.round m.state.current_proof
        Checkpoint.on_timeout_precommit tt
  after_precommit-Fine m hash ready agg d VoteResult.timeout reads =
      voting-Inv m Step.precommit hash ready (done agg) d m.state.round m.state.current_proof
        Checkpoint.on_timeout_precommit tt
  after_precommit-Fine m hash ready agg d (VoteResult.new_round round) reads =
      voting-Inv m Step.precommit hash ready (done agg) d round m.state.current_proof
        Checkpoint.start_round tt

  pub prevote-Fine :
      (m : Machine) (decision : VoteDecision)
      → m.state.step ≡ Step.prevote
      → Ready m Step.prevote (map_option proposal_hash (decided_proposal decision m.state))
      → Fine (turn_of (broadcast_and_aggregate_prevote (logged deps) m.state.round decision m))
  unfolding broadcast_and_aggregate_prevote
  prevote-Fine m decision e ready =
      elim (cast_vote_lem deps m.state.round Step.prevote decision m) [
        | inl (_, d, q) ↦
            subst (λ r. Fine (bound r after_prevote m)) (sym q)
              (ready.may_vote, ready.was_justified)
        | inr (agg, v, d, q, reads, _) ↦
            subst (λ r. Fine (bound r after_prevote m)) (sym q)
              (after_prevote-Fine m (map_option proposal_hash (decided_proposal decision m.state)) e
                ready agg d v reads)
      ]

  pub precommit-Fine :
      (m : Machine) (decision : VoteDecision)
      → Ready m Step.precommit (map_option proposal_hash (decided_proposal decision m.state))
      → Fine (turn_of (broadcast_and_aggregate_precommit (logged deps) m.state.round decision m))
  unfolding broadcast_and_aggregate_precommit
  precommit-Fine m decision ready =
      elim (cast_vote_lem deps m.state.round Step.precommit decision m) [
        | inl (_, d, q) ↦
            subst (λ r. Fine (bound r after_precommit m)) (sym q)
              (ready.may_vote, ready.was_justified)
        | inr (agg, v, d, q, reads, _) ↦
            subst (λ r. Fine (bound r after_precommit m)) (sym q)
              (after_precommit-Fine m (map_option proposal_hash (decided_proposal decision m.state))
                ready agg d v reads)
      ]
