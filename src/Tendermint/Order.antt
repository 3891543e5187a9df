-- ===== src/Tendermint/Order.antt =====
-- The order of the votes of each method, where the surroundings only call for later rounds, and
-- the round number has room.
use nimiq_core_rs_albatross.Base.{
  ℕ, ◌+◌, ◌*◌, ◌≤◌, ◌<◌, ◌≡◌, refl, sym, ap, ◌∙◌, subst, Bool, true, false, Option, none, some,
  arith, inl, inr, [], ◌∷◌, if◌then◌else◌,
}
use nimiq_core_rs_albatross.Primitives.Word.{u32_mod}
use nimiq_core_rs_albatross.Tendermint.Utils.{
  Checkpoint, Step, VoteDecision, VoteResult, AggregationResult, TendermintState,
}
use nimiq_core_rs_albatross.Tendermint.Deps.{
  TendermintOutsideDeps, Tendermint, Progress, Response, done, failed, Method, await, ◌>>=◌,
}
use nimiq_core_rs_albatross.Tendermint.Network.{
  start_at, after_prevote, after_precommit, broadcast_and_aggregate_prevote,
  broadcast_and_aggregate_precommit,
}
use nimiq_core_rs_albatross.Tendermint.Protocol.{
  on_proposal, on_past_proposal, on_polka, on_nil_polka, on_timeout_propose, on_timeout_prevote,
}
use nimiq_core_rs_albatross.Tendermint.Stream.{Turn, turn_of}
use nimiq_core_rs_albatross.Tendermint.Trace.{voted, looked, Log, logged}
use nimiq_core_rs_albatross.Tendermint.Rules.{stamp, Before, Ordered}
use nimiq_core_rs_albatross.Tendermint.Votes.{Reads, cast_vote_lem, current_hash}

pub Before-weaken : {Proof : Type 0} (a b : ℕ) (l : Log Proof) → a ≤ b → Before a l → Before b l
Before-weaken a b [] h q = tt
Before-weaken a b (voted r s v x ∷ l) h q = (omega (arith, q.0), Before-weaken a b l h q.1)
Before-weaken a b (looked r s x ∷ l) h q = Before-weaken a b l h q

cast-Timed :
    {Proof : Type 0} (r : ℕ) (step : Step) (h : Option ℕ) (a : Response (AggregationResult Proof))
    (l : Log Proof)
    → Before (stamp r step) l
    → Ordered l
    → (n : ℕ) → stamp r step < n
    → Before n (voted r step h a ∷ l) × Ordered (voted r step h a ∷ l)
cast-Timed r step h a l b o n lt = ((lt, Before-weaken (stamp r step) n l (omega arith) b), (b, o))

-- All votes of the stages before come before this stamp.
abbrev pub bound : Checkpoint → ℕ → ℕ
bound Checkpoint.start_round r = 3 * r + 1
bound Checkpoint.on_proposal r = 3 * r + 1
bound Checkpoint.on_past_proposal r = 3 * r + 1
bound Checkpoint.on_timeout_propose r = 3 * r + 1
bound Checkpoint.on_polka r = 3 * r + 2
bound Checkpoint.on_nil_polka r = 3 * r + 2
bound Checkpoint.on_timeout_prevote r = 3 * r + 2
bound Checkpoint.on_decision r = 3 * r + 3
bound Checkpoint.on_timeout_precommit r = 3 * r + 3

-- The round can be increased without wrapping.
abbrev pub HasRoom : {Proposal Proof : Type 0} → TendermintState Proposal Proof → Type 0
HasRoom s = s.round + 1 < u32_mod

module _ {D Proposal Proof Result : Type 0}
    (deps : TendermintOutsideDeps D Proposal Proof Result) where
  -- A call for a new round is for a later one.
  abbrev pub CallsLater : Type 0
  CallsLater =
      (d : D) (r : ℕ) (s : Step) (h : Option ℕ) (r' : ℕ) (d' : D)
      → deps.broadcast_and_aggregate d r s h ≡ (done (AggregationResult.new_round r'), d')
      → r < r'

  module _ (calls : CallsLater) where
    abbrev pub M : Type 0
    M = Tendermint (D × Log Proof) Proposal Proof

    abbrev pub Timed : M → Type 0
    Timed m = Before (bound m.state.current_checkpoint m.state.round) m.deps.1 × Ordered m.deps.1

    abbrev pub InOrder : Turn M Result → Type 0
    InOrder (Turn.goes_on m) = Timed m
    InOrder (Turn.ends block m) = Ordered m.deps.1
    InOrder (Turn.fails e m) = Ordered m.deps.1
    InOrder Turn.panics = Unit

    abbrev bind_turn : {A : Type 0} → Progress A × M → (A → Method M (Unit {0})) → M → Turn M Result
    bind_turn r f m = turn_of (◌>>=◌ (λ (_ : M). r) f m)

    pub after_prevote-InOrder :
        (m : M) (h : Option ℕ) (a : Response (AggregationResult Proof)) (d : D)
        (v : VoteResult Proof)
        → Before (3 * m.state.round + 1) m.deps.1
        → Ordered m.deps.1
        → ((r : ℕ) → v ≡ VoteResult.new_round r → m.state.round < r)
        → InOrder (
            turn_of (
              after_prevote v
                (record m { deps = (d, voted m.state.round Step.prevote h a ∷ m.deps.1) })))
    unfolding after_prevote start_at
    after_prevote-InOrder m h a d (VoteResult.block proof) b o n =
        cast-Timed m.state.round Step.prevote h a m.deps.1 b o (3 * m.state.round + 2) (omega arith)
    after_prevote-InOrder m h a d (VoteResult.nil proof) b o n =
        cast-Timed m.state.round Step.prevote h a m.deps.1 b o (3 * m.state.round + 2) (omega arith)
    after_prevote-InOrder m h a d VoteResult.timeout b o n =
        cast-Timed m.state.round Step.prevote h a m.deps.1 b o (3 * m.state.round + 2) (omega arith)
    after_prevote-InOrder m h a d (VoteResult.new_round r) b o n =
        cast-Timed m.state.round Step.prevote h a m.deps.1 b o (3 * r + 1) (omega (arith, n r refl))

    pub after_precommit-InOrder :
        (m : M) (h : Option ℕ) (a : Response (AggregationResult Proof)) (d : D)
        (v : VoteResult Proof)
        → Before (3 * m.state.round + 2) m.deps.1
        → Ordered m.deps.1
        → ((r : ℕ) → v ≡ VoteResult.new_round r → m.state.round < r)
        → InOrder (
            turn_of (
              after_precommit v
                (record m { deps = (d, voted m.state.round Step.precommit h a ∷ m.deps.1) })))
    unfolding after_precommit start_at
    after_precommit-InOrder m h a d (VoteResult.block proof) b o n =
        cast-Timed m.state.round Step.precommit h a m.deps.1 b o (3 * m.state.round + 3)
          (omega arith)
    after_precommit-InOrder m h a d (VoteResult.nil proof) b o n =
        cast-Timed m.state.round Step.precommit h a m.deps.1 b o (3 * m.state.round + 3)
          (omega arith)
    after_precommit-InOrder m h a d VoteResult.timeout b o n =
        cast-Timed m.state.round Step.precommit h a m.deps.1 b o (3 * m.state.round + 3)
          (omega arith)
    after_precommit-InOrder m h a d (VoteResult.new_round r) b o n =
        cast-Timed m.state.round Step.precommit h a m.deps.1 b o (3 * r + 1)
          (omega (arith, n r refl))

    -- A reading that calls for a round is the answer of the surroundings.
    called_later :
        (m : M) (step : Step) (h : Option ℕ) (hash : Option ℕ) (agg : AggregationResult Proof)
        (v : VoteResult Proof) (d : D)
        → Reads hash agg v
        → deps.broadcast_and_aggregate m.deps.0 m.state.round step h ≡ (done agg, d)
        → (r : ℕ) → v ≡ VoteResult.new_round r
        → m.state.round < r
    called_later m step h hash agg v d reads q r e =
        calls m.deps.0 m.state.round step h r d
          (q ∙ ap (λ x. (done x, d)) (subst (Reads hash agg) e reads))

    pub prevote-InOrder :
        (m : M) (decision : VoteDecision)
        → Before (3 * m.state.round + 1) m.deps.1
        → Ordered m.deps.1
        → InOrder (turn_of (broadcast_and_aggregate_prevote (logged deps) m.state.round decision m))
    unfolding broadcast_and_aggregate_prevote
    prevote-InOrder m decision b o =
        elim (cast_vote_lem deps m.state.round Step.prevote decision m) [
          | inl (_, d, q) ↦ subst (λ r. InOrder (bind_turn r after_prevote m)) (sym q) (b, o)
          | inr (agg, v, d, q, reads, c) ↦
              subst (λ r. InOrder (bind_turn r after_prevote m)) (sym q)
                (after_prevote-InOrder m _ (done agg) d v b o
                  (called_later m Step.prevote _ (current_hash deps m) agg v d reads c))
        ]

    pub precommit-InOrder :
        (m : M) (decision : VoteDecision)
        → Before (3 * m.state.round + 2) m.deps.1
        → Ordered m.deps.1
        → InOrder
            (turn_of (broadcast_and_aggregate_precommit (logged deps) m.state.round decision m))
    unfolding broadcast_and_aggregate_precommit
    precommit-InOrder m decision b o =
        elim (cast_vote_lem deps m.state.round Step.precommit decision m) [
          | inl (_, d, q) ↦ subst (λ r. InOrder (bind_turn r after_precommit m)) (sym q) (b, o)
          | inr (agg, v, d, q, reads, c) ↦
              subst (λ r. InOrder (bind_turn r after_precommit m)) (sym q)
                (after_precommit-InOrder m _ (done agg) d v b o
                  (called_later m Step.precommit _ (current_hash deps m) agg v d reads c))
        ]

    pub await-InOrder :
        {A : Type 0} (m : M) (l : Log Proof) (response : Response A × D)
        (f : A → Method M (Unit {0}))
        → Ordered l
        → ((a : A) (d : D) → InOrder (turn_of (f a (record m { deps = (d, l) }))))
        → InOrder (turn_of (◌>>=◌ (await (λ _. (response.0, (response.1, l)))) f m))
    await-InOrder m l (failed e, d) f o h = o
    await-InOrder m l (done a, d) f o h = h a d

    pub if-InOrder :
        (c : Bool) (f g : Method M (Unit {0})) (m : M)
        → InOrder (turn_of (f m))
        → InOrder (turn_of (g m))
        → InOrder (turn_of ((if c then f else g) m))
    if-InOrder true f g m h k = h
    if-InOrder false f g m h k = k

    abbrev stepped : M → Step → M
    stepped m step = record m { state = record m.state { step = step } }

    -- The methods that prevote assert the first step, and panic in any other.
    pub on_proposal-InOrder :
        (m : M) (step : Step)
        → Before (3 * m.state.round + 1) m.deps.1
        → Ordered m.deps.1
        → InOrder (turn_of (on_proposal (logged deps) (stepped m step)))
    unfolding on_proposal
    on_proposal-InOrder m Step.propose b o = prevote-InOrder (stepped m Step.prevote) _ b o
    on_proposal-InOrder m Step.prevote b o = tt
    on_proposal-InOrder m Step.precommit b o = tt

    pub on_timeout_propose-InOrder :
        (m : M) (step : Step)
        → Before (3 * m.state.round + 1) m.deps.1
        → Ordered m.deps.1
        → InOrder (turn_of (on_timeout_propose (logged deps) (stepped m step)))
    unfolding on_timeout_propose
    on_timeout_propose-InOrder m Step.propose b o = prevote-InOrder (stepped m Step.prevote) _ b o
    on_timeout_propose-InOrder m Step.prevote b o = tt
    on_timeout_propose-InOrder m Step.precommit b o = tt

    abbrev with_round : M → Step → Option ℕ → M
    with_round m step vr = record m {
      state = record m.state { step = step; current_proposal_vr = vr };
    }

    pub on_past_proposal-InOrder :
        (m : M) (step : Step) (vr : Option ℕ)
        → Before (3 * m.state.round + 1) m.deps.1
        → Ordered m.deps.1
        → InOrder (turn_of (on_past_proposal (logged deps) (with_round m step vr)))
    unfolding on_past_proposal
    on_past_proposal-InOrder m Step.propose (some vr) b o =
        prevote-InOrder (with_round m Step.prevote (some vr)) _ b o
    on_past_proposal-InOrder m Step.propose none b o = tt
    on_past_proposal-InOrder m Step.prevote vr b o = tt
    on_past_proposal-InOrder m Step.precommit vr b o = tt

    -- The methods that precommit assert the second step.
    pub on_polka-InOrder :
        (m : M) (step : Step)
        → Before (3 * m.state.round + 2) m.deps.1
        → Ordered m.deps.1
        → InOrder (turn_of (on_polka (logged deps) (stepped m step)))
    unfolding on_polka
    on_polka-InOrder m Step.prevote b o = precommit-InOrder _ VoteDecision.block b o
    on_polka-InOrder m Step.propose b o = tt
    on_polka-InOrder m Step.precommit b o = tt

    pub on_nil_polka-InOrder :
        (m : M) (step : Step)
        → Before (3 * m.state.round + 2) m.deps.1
        → Ordered m.deps.1
        → InOrder (turn_of (on_nil_polka (logged deps) (stepped m step)))
    unfolding on_nil_polka
    on_nil_polka-InOrder m Step.prevote b o = precommit-InOrder _ VoteDecision.nil b o
    on_nil_polka-InOrder m Step.propose b o = tt
    on_nil_polka-InOrder m Step.precommit b o = tt

    pub on_timeout_prevote-InOrder :
        (m : M) (step : Step)
        → Before (3 * m.state.round + 2) m.deps.1
        → Ordered m.deps.1
        → InOrder (turn_of (on_timeout_prevote (logged deps) (stepped m step)))
    unfolding on_timeout_prevote
    on_timeout_prevote-InOrder m Step.prevote b o = precommit-InOrder _ VoteDecision.nil b o
    on_timeout_prevote-InOrder m Step.propose b o = tt
    on_timeout_prevote-InOrder m Step.precommit b o = tt
