-- ===== src/Tendermint/Deps.antt =====
-- tendermint/src/outside_deps.rs and tendermint/src/tendermint.rs: what the state machine asks of
-- its surroundings, which answer as they please and may change by answering, and the machine.
use nimiq_core_rs_albatross.Base.{ℕ, Bool, Option, none, some}
use nimiq_core_rs_albatross.Tendermint.Utils.{
  Step, ProposalResult, AggregationResult, TendermintError, TendermintState, new_state,
}

-- `Result<A, TendermintError>`
pub data Response (A : Type 0) : Type 0 where
  done : A → Response A
  failed : TendermintError → Response A

-- `D` is the state of the surroundings. The traits that a proposal has are `proposal_hash` and
-- `same_proposal`.
pub record TendermintOutsideDeps (D Proposal Proof Result : Type 0) : Type 0 where
  pub proposal_hash : Proposal → ℕ
  pub same_proposal : Proposal → Proposal → Bool
  pub verify_state : D → TendermintState Proposal Proof → Bool
  pub is_our_turn : D → ℕ → Bool
  pub get_value : D → ℕ → Response Proposal × D
  pub assemble_block : D → ℕ → Proposal → Proof → Response Result
  pub broadcast_proposal : D → ℕ → Proposal → Option ℕ → Response (Unit {0}) × D
  pub await_proposal : D → ℕ → Response (ProposalResult Proposal) × D
  pub broadcast_and_aggregate : D → ℕ → Step → Option ℕ → Response (AggregationResult Proof) × D
  pub get_aggregation : D → ℕ → Step → Response (AggregationResult Proof) × D

pub record Tendermint (D Proposal Proof : Type 0) : Type 0 where
  pub deps : D
  pub state : TendermintState Proposal Proof

-- `Tendermint::new`
abbrev pub new_tendermint : {D Proposal Proof : Type 0} → D → Tendermint D Proposal Proof
new_tendermint d = record { deps = d; state = new_state }

-- A method changes the machine, and gives a value or an error, or panics.
pub data Progress (A : Type 0) : Type 0 where
  ok : A → Progress A
  err : TendermintError → Progress A
  panic : Progress A

abbrev pub Method : Type 0 → Type 0 → Type 0
Method M A = M → Progress A × M

module _ {M : Type 0} where
  abbrev pub pure : {A : Type 0} → A → Method M A
  pure a m = (ok a, m)

  abbrev pub modify : (M → M) → Method M (Unit {0})
  modify f m = (ok tt, f m)

  -- `assert!`
  abbrev pub assert : (M → Bool) → Method M (Unit {0})
  assert test m = elim (test m) [ Bool.true ↦ (ok tt, m) | Bool.false ↦ (panic, m) ]

  -- `unwrap()`
  abbrev pub unwrap : {A : Type 0} → Option A → Method M A
  unwrap none m = (panic, m)
  unwrap (some a) m = (ok a, m)

  infixl 5 ◌>>=◌ ◌>>◌
  abbrev pub ◌>>=◌ : {A B : Type 0} → (Method M A) → (A → Method M B) → Method M B
  ◌>>=◌ f g m =
      let (r, m') = f m in elim r [ ok a ↦ g a m' | err e ↦ (err e, m') | panic ↦ (panic, m') ]

  abbrev pub ◌>>◌ : {A B : Type 0} → (Method M A) → (Method M B) → Method M B
  f >> g = f >>= λ _. g

  abbrev pub gets : {A : Type 0} → (M → A) → Method M A
  gets f m = (ok (f m), m)

module _ {D Proposal Proof : Type 0} where
  -- `self.deps.call(..).await?`
  abbrev pub await : {A : Type 0} → (D → Response A × D) → Method (Tendermint D Proposal Proof) A
  await call m =
      let (r, d) = call m.deps in
      let m' = record m { deps = d } in elim r [ done a ↦ (ok a, m') | failed e ↦ (err e, m') ]
