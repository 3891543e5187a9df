-- ===== src/Account/Staking/Reversal.antt =====
-- Operations of the staking contract, each followed by its reversal with the receipt that it
-- returned.
pub mod Inactive
pub mod Retired
pub mod Change
pub mod Active
pub mod SlashSteps
pub mod Slash
use nimiq_core_rs_albatross.Base.{◌≡◌}
use nimiq_core_rs_albatross.Account.Outcome.{Outcome, ok, err, panic, Action}
use nimiq_core_rs_albatross.Account.Staking.State.{StakingContract}

-- A call that began at `s`: if it succeeded, undoing it succeeds and leads back to `s`; it does not
-- panic.
abbrev pub Reverts :
    {A : Type 0}
    → StakingContract
    → (A → Action StakingContract (Unit {0}))
    → Outcome A × StakingContract
    → Type 0
Reverts s undo (ok receipt, s') = undo receipt s' ≡ (ok tt, s)
Reverts s undo (err e, s') = Unit
Reverts s undo (panic, s') = ⊥
