-- ===== src/Tendermint/Votes.antt =====
-- What casting a vote gives: the aggregation that is read, by all its cases.
use nimiq_core_rs_albatross.Base.{
  ℕ, ◌≤◌, ◌≡◌, refl, true, false, Option, none, some, arith, Option-cases, Bool-cases, leb, is_some,
  ◌&&◌, ◌⊎◌, inl, inr, ◌∷◌,
}
use nimiq_core_rs_albatross.Primitives.Policy.{two_third_slots}
use nimiq_core_rs_albatross.Tendermint.Utils.{
  Step, VoteDecision, VoteResult, AggregationResult, Votes, TendermintError, get_vote, vote_count,
  aggregation_to_vote,
}
use nimiq_core_rs_albatross.Tendermint.Deps.{
  TendermintOutsideDeps, Tendermint, ok, err, Response, done, failed,
}
use nimiq_core_rs_albatross.Tendermint.Network.{map_option, decided_proposal, cast_vote}
use nimiq_core_rs_albatross.Tendermint.Trace.{voted, Log, logged}

module _ {Proof : Type 0} where
  -- What a reading says of the aggregation; a proof is that of enough votes for the hash.
  abbrev pub Reads : Option ℕ → AggregationResult Proof → VoteResult Proof → Type 0
  Reads hash agg (VoteResult.block proof) =
      (h : ℕ) × (votes : Votes Proof) × (n : ℕ) × (hash ≡ some h)
      × (agg ≡ AggregationResult.aggregation votes)
      × (get_vote (some h) votes ≡ some (proof, n))
      × (two_third_slots ≤ n)
  Reads hash agg (VoteResult.nil proof) = Unit
  Reads hash agg VoteResult.timeout = Unit
  Reads hash agg (VoteResult.new_round round) = agg ≡ AggregationResult.new_round round

  -- Enough votes for a key, with their proof, or too few.
  pub enough_votes :
      (key : Option ℕ) (votes : Votes Proof)
      → ((proof : Proof) × (n : ℕ) × (get_vote key votes ≡ some (proof, n))
          × (two_third_slots ≤ n)
          × (leb two_third_slots (vote_count key votes) ≡ true))
        ⊎ (leb two_third_slots (vote_count key votes) ≡ false)
  unfolding vote_count
  enough_votes key votes = elim (Option-cases (get_vote key votes)) [
    | inl absent ↦ inr (ground (arith, absent))
    | inr ((proof, n), found) ↦ elim (Bool-cases (leb two_third_slots n)) [
      | inl many ↦ inl (proof, n, found, ground (arith, many), ground (arith, found, many))
      | inr few ↦ inr (ground (arith, found, few))
    ]
  ]

  -- Too few votes for the block, or no block: the votes for none are read.
  nil_reading :
      (hash : Option ℕ) (votes : Votes Proof)
      → (is_some hash && leb two_third_slots (vote_count hash votes)) ≡ false
      → (v : VoteResult Proof) × (aggregation_to_vote hash (AggregationResult.aggregation votes)
          ≡ some v)
        × Reads hash (AggregationResult.aggregation votes) v
  unfolding aggregation_to_vote
  nil_reading hash votes few = elim (enough_votes none votes) [
    | inl (proof, n, found, le, test) ↦ (VoteResult.nil proof, ground (arith, few, found, test), tt)
    | inr too_few ↦ (VoteResult.timeout, ground (arith, few, too_few), tt)
  ]

  pub aggregation_to_vote_lem :
      (hash : Option ℕ) (agg : AggregationResult Proof)
      → (v : VoteResult Proof) × (aggregation_to_vote hash agg ≡ some v) × Reads hash agg v
  unfolding aggregation_to_vote
  aggregation_to_vote_lem hash (AggregationResult.new_round round) =
      (VoteResult.new_round round, refl, refl)
  aggregation_to_vote_lem none (AggregationResult.aggregation votes) = nil_reading none votes refl
  aggregation_to_vote_lem (some h) (AggregationResult.aggregation votes) =
      elim (enough_votes (some h) votes) [
        | inl (proof, n, found, le, test) ↦ (
          VoteResult.block proof,
          ground (arith, found, test),
          (h, votes, n, refl, refl, found, le),
        )
        | inr few ↦ nil_reading (some h) votes few
      ]

pub Response-cases :
    {A D : Type 0} (p : Response A × D)
    → ((e : TendermintError) × (d : D) × (p ≡ (failed e, d)))
      ⊎ ((a : A) × (d : D) × (p ≡ (done a, d)))
Response-cases (failed e, d) = inl (e, d, refl)
Response-cases (done a, d) = inr (a, d, refl)

module _ {D Proposal Proof Result : Type 0}
    (deps : TendermintOutsideDeps D Proposal Proof Result) where
  abbrev pub current_hash : Tendermint (D × Log Proof) Proposal Proof → Option ℕ
  current_hash m = map_option deps.proposal_hash m.state.current_proposal

  -- Casting a vote records it; it fails where the surroundings fail, and else gives a reading.
  pub cast_vote_lem :
      (round : ℕ) (step : Step) (decision : VoteDecision)
      (m : Tendermint (D × Log Proof) Proposal Proof)
      → let hash = map_option deps.proposal_hash (decided_proposal decision m.state) in
        let after = λ (d : D) (a : Response (AggregationResult Proof)). record m {
          deps = (d, voted round step hash a ∷ m.deps.1);
        } in
        ((e : TendermintError) × (d : D) × (cast_vote (logged deps) round step decision m
            ≡ (err e, after d (failed e))))
        ⊎ ((agg : AggregationResult Proof) × (v : VoteResult Proof) × (d : D) × (cast_vote
                (logged deps)
                round
                step
                decision
                m
              ≡ (ok v, after d (done agg)))
            × Reads (current_hash m) agg v
            × (deps.broadcast_and_aggregate m.deps.0 round step hash ≡ (done agg, d)))
  unfolding cast_vote
  cast_vote_lem round step decision m =
      let hash = map_option deps.proposal_hash (decided_proposal decision m.state) in
      elim (Response-cases (deps.broadcast_and_aggregate m.deps.0 round step hash)) [
        | inl (e, d, q) ↦ inl (e, d, ground (arith, q))
        | inr (agg, d, q) ↦
            let (v, reading, reads) = aggregation_to_vote_lem (current_hash m) agg in
            inr (agg, v, d, ground (arith, q, reading), reads, q)
      ]
