-- ===== src/Tendermint/Turns.antt =====
-- The turns in the middle of a round against the invariant of the state machine.
use nimiq_core_rs_albatross.Base.{
  ℕ, ◌<◌, ◌≡◌, refl, sym, ap, ◌∙◌, subst, Bool, true, false, ◌||◌, Option, none, some, arith, inl,
  inr, Bool-cases, leb, is_none, unwrap_or,
}
use nimiq_core_rs_albatross.Tendermint.Utils.{Step, VoteDecision, TendermintState}
use nimiq_core_rs_albatross.Tendermint.Deps.{TendermintOutsideDeps, Tendermint}
use nimiq_core_rs_albatross.Tendermint.Network.{map_option, broadcast_and_aggregate_prevote}
use nimiq_core_rs_albatross.Tendermint.Protocol.{
  same_option, vote_if, on_proposal, on_past_proposal, on_polka, on_nil_polka, on_timeout_propose,
  on_timeout_prevote,
}
use nimiq_core_rs_albatross.Tendermint.Stream.{Turn, turn_of}
use nimiq_core_rs_albatross.Tendermint.Trace.{Log, logged}
use nimiq_core_rs_albatross.Tendermint.Rules.{lock_of, MayVote, MayPrevote, Seen, Polka}
use nimiq_core_rs_albatross.Tendermint.Justify.{
  Locked, Inv, Fine, Ready, prevote-Fine, precommit-Fine,
}

module _ {D Proposal Proof Result : Type 0} (deps : TendermintOutsideDeps D Proposal Proof Result)
    (same_hash : (p q : Proposal)
      → deps.same_proposal p q ≡ true
      → deps.proposal_hash p ≡ deps.proposal_hash q) where
  open deps use {proposal_hash, same_proposal}

  abbrev pub Machine : Type 0
  Machine = Tendermint (D × Log Proof) Proposal Proof

  -- The machine at another step, with another proposal: the locks stay.
  abbrev pub at_step : Machine → Step → Option Proposal → Option ℕ → Option Proof → Machine
  at_step m step proposal vr proof = record m {
    state = record m.state {
      step = step;
      current_proposal = proposal;
      current_proposal_vr = vr;
      current_proof = proof;
    };
  }

  module _ (m : Machine) (i : Inv deps m) where
    -- A prevote that is allowed, and any vote for nothing, moves no lock.
    prevote-Ready :
        (hash : Option ℕ) (vr : Option ℕ) (proof : Option Proof) (proposal : Option Proposal)
        → MayVote m.state.round Step.prevote hash m.deps.1
        → Ready deps (at_step m Step.prevote proposal vr proof) Step.prevote hash
    unfolding lock_of
    prevote-Ready hash vr proof proposal may = record {
      may_vote = may;
      was_justified = i.justified;
      lock = λ a. i.locked;
      same_value = i.valid_value;
      same_round = i.valid_round;
    }

    nil-Ready :
        Ready deps
          (at_step m Step.precommit m.state.current_proposal m.state.current_proposal_vr
            m.state.current_proof)
          Step.precommit
          none
    unfolding lock_of
    nil-Ready = record {
      may_vote = tt;
      was_justified = i.justified;
      lock = λ a. i.locked;
      same_value = i.valid_value;
      same_round = i.valid_round;
    }

  -- A vote for the proposal `p`.
  may_vote :
      (m : Machine) (p : Proposal)
      → m.state.current_proposal ≡ some p
      → MayPrevote m.state.round (proposal_hash p) m.deps.1
      → MayVote m.state.round Step.prevote
          (map_option proposal_hash m.state.current_proposal)
          m.deps.1
  may_vote m p ep h =
      subst (λ x. MayVote m.state.round Step.prevote (map_option proposal_hash x) m.deps.1) (sym ep)
        h

  -- The machine that has locked its proposal.
  abbrev on_lock : Machine → Machine
  on_lock m = record m {
    state = record m.state {
      step = Step.precommit;
      valid_value = m.state.current_proposal;
      valid_round = some m.state.round;
      locked_value = m.state.current_proposal;
      locked_round = some m.state.round;
    };
  }

  lock-Ready :
      (m : Machine)
      → Inv deps m
      → (p : Proposal) → m.state.current_proposal ≡ some p
      → Polka m.state.round (proposal_hash p) m.deps.1
      → Ready deps (on_lock m) Step.precommit (some (proposal_hash p))
  unfolding lock_of
  lock-Ready m i p ep polka = record {
    may_vote = polka;
    was_justified = i.justified;
    lock = λ a. inr (m.state.round, p, refl, ep, refl);
    same_value = refl;
    same_round = refl;
  }

  -- The machine at another step.
  abbrev stepped : Machine → Step → Machine
  stepped m step = record m { state = record m.state { step = step } }

  -- A method that asserts a step is looked at where the machine is at that step.
  at_asserted :
      (method : Machine → Turn Machine Result) (m : Machine) (step : Step)
      → m.state.step ≡ step
      → Fine deps (method (stepped m step))
      → Fine deps (method m)
  at_asserted method m step e h = subst (λ t. Fine deps (method (stepped m t))) (sym e) h

  pub on_timeout_prevote-Fine :
      (m : Machine)
      → Inv deps m
      → m.state.step ≡ Step.prevote
      → Fine deps (turn_of (on_timeout_prevote (logged deps) m))
  unfolding on_timeout_prevote
  on_timeout_prevote-Fine m i e =
      at_asserted (λ x. turn_of (on_timeout_prevote (logged deps) x)) m Step.prevote e
        (precommit-Fine deps (stepped m Step.precommit) VoteDecision.nil (nil-Ready m i))

  pub on_nil_polka-Fine :
      (m : Machine)
      → Inv deps m
      → m.state.step ≡ Step.prevote
      → Fine deps (turn_of (on_nil_polka (logged deps) m))
  unfolding on_nil_polka
  on_nil_polka-Fine m i e =
      at_asserted (λ x. turn_of (on_nil_polka (logged deps) x)) m Step.prevote e
        (precommit-Fine deps (stepped m Step.precommit) VoteDecision.nil (nil-Ready m i))

  pub on_timeout_propose-Fine :
      (m : Machine)
      → Inv deps m
      → m.state.step ≡ Step.propose
      → Fine deps (turn_of (on_timeout_propose (logged deps) m))
  unfolding on_timeout_propose
  on_timeout_propose-Fine m i e =
      at_asserted (λ x. turn_of (on_timeout_propose (logged deps) x)) m Step.propose e
        (prevote-Fine deps (stepped m Step.prevote) VoteDecision.nil refl (
          prevote-Ready m i none m.state.current_proposal_vr m.state.current_proof
            m.state.current_proposal tt))

  module _ (m : Machine) (i : Inv deps m) (proposal : Option Proposal) (vr : Option ℕ)
      (proof : Option Proof) where
    -- A prevote for the proposal that is allowed, and one for nothing.
    pub block-Fine :
        MayVote m.state.round Step.prevote (map_option proposal_hash proposal) m.deps.1
        → Fine deps (
            turn_of (
              broadcast_and_aggregate_prevote
                (logged deps)
                m.state.round
                VoteDecision.block
                (at_step m Step.prevote proposal vr proof)))
    block-Fine may =
        prevote-Fine deps (at_step m Step.prevote proposal vr proof) VoteDecision.block refl
          (prevote-Ready m i (map_option proposal_hash proposal) vr proof proposal may)

    -- A prevote by the outcome of a test: it is allowed where a block that passed it is.
    vote_if-Fine :
        (test : Bool)
        → (test ≡ true
            → MayVote m.state.round Step.prevote (map_option proposal_hash proposal) m.deps.1)
        → Fine deps (
            turn_of (
              broadcast_and_aggregate_prevote
                (logged deps)
                m.state.round
                (vote_if test)
                (at_step m Step.prevote proposal vr proof)))
    vote_if-Fine true may = block-Fine (may refl)
    vote_if-Fine false may =
        prevote-Fine deps (at_step m Step.prevote proposal vr proof) VoteDecision.nil refl
          (prevote-Ready m i none vr proof proposal tt)

  -- What the tests of the two methods make of the proposal: it is the locked one, or nothing is
  -- locked, or the lock is not newer than the round of the prevotes that were seen.
  module _ (s : TendermintState Proposal Proof) (l : Log Proof) (p : Proposal)
      (e : s.current_proposal ≡ some p) where
    same-MayPrevote :
        Locked deps s l
        → same_option same_proposal s.locked_value s.current_proposal ≡ true
        → MayPrevote s.round (proposal_hash p) l
    same-MayPrevote (inl (lr, lv, lo)) h = inl lo
    same-MayPrevote (inr (r, q, lr, lv, lo)) h =
        inr (inl (r, lo ∙ ap (λ x. some (r, x)) (same_hash q p (ground (arith, lv, e, h)))))

    first-MayPrevote :
        Locked deps s l
        → (is_none s.locked_round || same_option same_proposal s.locked_value s.current_proposal)
          ≡ true
        → MayPrevote s.round (proposal_hash p) l
    first-MayPrevote (inl (lr, lv, lo)) h = inl lo
    first-MayPrevote (inr (r, q, lr, lv, lo)) h =
        same-MayPrevote (inr (r, q, lr, lv, lo)) (ground (arith, lr, h))

    past-MayPrevote :
        (vr : ℕ)
        → vr < s.round
        → Seen vr (proposal_hash p) l
        → Locked deps s l
        → (leb (unwrap_or s.locked_round 0) vr
            || same_option same_proposal s.locked_value s.current_proposal)
          ≡ true
        → MayPrevote s.round (proposal_hash p) l
    past-MayPrevote vr lt seen (inl (lr, lv, lo)) h = inl lo
    past-MayPrevote vr lt seen (inr (r, q, lr, lv, lo)) h = elim (Bool-cases (leb r vr)) [
      | inl newer ↦ inr (inr (r, proposal_hash q, vr, lo, ground (arith, newer), lt, seen))
      | inr older ↦ same-MayPrevote (inr (r, q, lr, lv, lo)) (ground (arith, lr, h, older))
    ]

  pub on_proposal-Fine :
      (m : Machine)
      → Inv deps m
      → m.state.step ≡ Step.propose
      → (p : Proposal) → m.state.current_proposal ≡ some p
      → Fine deps (turn_of (on_proposal (logged deps) m))
  unfolding on_proposal
  on_proposal-Fine m i e p ep =
      at_asserted (λ x. turn_of (on_proposal (logged deps) x)) m Step.propose e
        (vote_if-Fine m i m.state.current_proposal m.state.current_proposal_vr m.state.current_proof
          (is_none m.state.locked_round
            || same_option same_proposal m.state.locked_value m.state.current_proposal)
          (λ h. may_vote m p ep (first-MayPrevote m.state m.deps.1 p ep i.locked h)))

  pub on_past_proposal-Fine :
      (m : Machine)
      → Inv deps m
      → m.state.step ≡ Step.propose
      → (p : Proposal) (vr : ℕ) → m.state.current_proposal ≡ some p
      → m.state.current_proposal_vr ≡ some vr
      → vr < m.state.round
      → Seen vr (proposal_hash p) m.deps.1
      → Fine deps (turn_of (on_past_proposal (logged deps) m))
  unfolding on_past_proposal
  on_past_proposal-Fine m i e p vr ep ev lt seen =
      at_asserted (λ x. turn_of (on_past_proposal (logged deps) x)) m Step.propose e
        (subst
          (λ o. Fine deps (
            turn_of (
              on_past_proposal (logged deps)
                (at_step m Step.propose m.state.current_proposal o m.state.current_proof))))
          (sym ev)
          (vote_if-Fine m i m.state.current_proposal (some vr) m.state.current_proof
            (leb (unwrap_or m.state.locked_round 0) vr
              || same_option same_proposal m.state.locked_value m.state.current_proposal)
            (λ h. may_vote m p ep (past-MayPrevote m.state m.deps.1 p ep vr lt seen i.locked h))))

  pub on_polka-Fine :
      (m : Machine)
      → Inv deps m
      → m.state.step ≡ Step.prevote
      → (p : Proposal) → m.state.current_proposal ≡ some p
      → Polka m.state.round (proposal_hash p) m.deps.1
      → Fine deps (turn_of (on_polka (logged deps) m))
  unfolding on_polka
  on_polka-Fine m i e p ep polka =
      at_asserted (λ x. turn_of (on_polka (logged deps) x)) m Step.prevote e
        (precommit-Fine deps (on_lock m) VoteDecision.block (
          subst (λ h. Ready deps (on_lock m) Step.precommit h)
            (sym (ap (map_option proposal_hash) ep)) (lock-Ready m i p ep polka)))
