-- ===== src/Account/Dispatch.antt =====
-- primitives/account/src/lib.rs: an account of any kind, which passes each call on to its own kind.
-- The calls that a kind refuses are its constant errors, in vesting_contract.rs and htlc_contract.rs.
pub mod Debit
pub mod Reversal
pub mod Tests
use nimiq_core_rs_albatross.Base.{ℕ, Option, Bool, true, false, ◌==◌}
use nimiq_core_rs_albatross.Primitives.Coin.{Coin}
use nimiq_core_rs_albatross.Account.Outcome.{
  AccountType, invalid_for_recipient, invalid_inherent, Outcome, ok, err, panic, Action, pure,
  raise, get_self, ◌>>=◌, ◌>>◌,
}
use nimiq_core_rs_albatross.Account.Basic
use nimiq_core_rs_albatross.Account.Basic.{BasicAccount}
use nimiq_core_rs_albatross.Account.Vesting
use nimiq_core_rs_albatross.Account.Vesting.{VestingContract, Decoders}
use nimiq_core_rs_albatross.Account.Htlc
use nimiq_core_rs_albatross.Account.Htlc.{HashedTimeLockedContract, Codecs}
use nimiq_core_rs_albatross.Account.Staking.State.{StakingContract}
use nimiq_core_rs_albatross.Account.Staking.Wire.{Wire, Transaction}
use nimiq_core_rs_albatross.Account.Staking.Inherents
use nimiq_core_rs_albatross.Account.Staking.Inherents.{Inherent}
use nimiq_core_rs_albatross.Account.Staking.Transactions

pub data Account : Type 0 where
  basic : BasicAccount → Account
  vesting : VestingContract → Account
  htlc : HashedTimeLockedContract → Account
  staking : StakingContract → Account

unfoldable pub account_type : Account → AccountType
account_type (basic a) = AccountType.basic
account_type (vesting v) = AccountType.vesting
account_type (htlc v) = AccountType.htlc
account_type (staking s) = AccountType.staking

unfoldable pub balance : Account → Coin
balance (basic a) = a.balance
balance (vesting v) = v.balance
balance (htlc v) = v.balance
balance (staking s) = s.balance

unfoldable pub is_to_be_pruned : Account → Bool
unfolding balance
is_to_be_pruned (basic a) = false
is_to_be_pruned (staking s) = false
is_to_be_pruned (vesting v) = balance (vesting v) == 0
is_to_be_pruned (htlc v) = balance (htlc v) == 0

unfoldable pub is_initial : Account → Bool
is_initial (basic a) = a.balance == 0
is_initial (vesting v) = false
is_initial (htlc v) = false
is_initial (staking s) = false

-- A call on the account inside: what it leaves is stored in the same kind.
abbrev pub within : {S A : Type 0} → (S → Account) → Outcome A × S → Outcome A × Account
within wrap (r, s) = (r, wrap s)

module _ (w : Wire) (d : Decoders w.Bytes) (c : Codecs w.Bytes) where
  open w use {Bytes}

  unfoldable pub new_contract : AccountType → Coin → Transaction Bytes → Outcome Account
  new_contract AccountType.basic value tx = err invalid_for_recipient
  new_contract AccountType.vesting value tx = elim (Vesting.create d value tx) [
    | ok v ↦ ok (vesting v)
    | err e ↦ err e
    | panic ↦ panic
  ]
  new_contract AccountType.htlc value tx = elim (Htlc.create c value tx) [
    | ok v ↦ ok (htlc v)
    | err e ↦ err e
    | panic ↦ panic
  ]
  new_contract AccountType.staking value tx = err invalid_for_recipient

  unfoldable pub check_incoming_transaction : Action Account (Unit {0})
  check_incoming_transaction (basic a) = pure tt (basic a)
  check_incoming_transaction (vesting v) = raise invalid_for_recipient (vesting v)
  check_incoming_transaction (htlc v) = raise invalid_for_recipient (htlc v)
  check_incoming_transaction (staking s) = pure tt (staking s)

  unfoldable pub invoke_commit_incoming : Transaction Bytes → ℕ → Action Account (Option Bytes)
  invoke_commit_incoming tx height (basic a) = within basic (Basic.commit_incoming_transaction tx a)
  invoke_commit_incoming tx height (vesting v) = raise invalid_for_recipient (vesting v)
  invoke_commit_incoming tx height (htlc v) = raise invalid_for_recipient (htlc v)
  invoke_commit_incoming tx height (staking s) =
      within staking (Transactions.commit_incoming_transaction w tx height s)

  unfoldable pub commit_incoming_transaction : Transaction Bytes → ℕ → Action Account (Option Bytes)
  unfolding check_incoming_transaction invoke_commit_incoming
  commit_incoming_transaction tx height = do
    check_incoming_transaction
    invoke_commit_incoming tx height

  unfoldable pub revert_incoming_transaction :
      Transaction Bytes → Option Bytes → Action Account (Unit {0})
  revert_incoming_transaction tx receipt (basic a) =
      within basic (Basic.revert_incoming_transaction tx receipt a)
  revert_incoming_transaction tx receipt (vesting v) = raise invalid_for_recipient (vesting v)
  revert_incoming_transaction tx receipt (htlc v) = raise invalid_for_recipient (htlc v)
  revert_incoming_transaction tx receipt (staking s) =
      within staking (Transactions.revert_incoming_transaction w tx receipt s)

  unfoldable pub check_outgoing_transaction : Transaction Bytes → ℕ → ℕ → Action Account (Unit {0})
  check_outgoing_transaction tx height time (basic a) =
      within basic (Basic.check_outgoing_transaction tx a)
  check_outgoing_transaction tx height time (vesting v) =
      within vesting (Vesting.check_outgoing_transaction d tx time v)
  check_outgoing_transaction tx height time (htlc v) =
      within htlc (Htlc.check_outgoing_transaction c tx time v)
  check_outgoing_transaction tx height time (staking s) =
      within staking (Transactions.check_outgoing_transaction w tx height s)

  unfoldable pub commit_outgoing_transaction :
      Transaction Bytes → ℕ → ℕ → Action Account (Option Bytes)
  commit_outgoing_transaction tx height time (basic a) =
      within basic (Basic.commit_outgoing_transaction tx a)
  commit_outgoing_transaction tx height time (vesting v) =
      within vesting (Vesting.commit_outgoing_transaction d tx time v)
  commit_outgoing_transaction tx height time (htlc v) =
      within htlc (Htlc.commit_outgoing_transaction c tx time v)
  commit_outgoing_transaction tx height time (staking s) =
      within staking (Transactions.commit_outgoing_transaction w tx height s)

  unfoldable pub revert_outgoing_transaction :
      Transaction Bytes → Option Bytes → Action Account (Unit {0})
  revert_outgoing_transaction tx receipt (basic a) =
      within basic (Basic.revert_outgoing_transaction tx receipt a)
  revert_outgoing_transaction tx receipt (vesting v) =
      within vesting (Vesting.revert_outgoing_transaction d tx receipt v)
  revert_outgoing_transaction tx receipt (htlc v) =
      within htlc (Htlc.revert_outgoing_transaction c tx receipt v)
  revert_outgoing_transaction tx receipt (staking s) =
      within staking (Transactions.revert_outgoing_transaction w tx receipt s)

  unfoldable pub check_inherent : Inherent Bytes → Action Account (Unit {0})
  check_inherent inherent (basic a) = within basic (Basic.check_inherent inherent a)
  check_inherent inherent (vesting v) = raise invalid_inherent (vesting v)
  check_inherent inherent (htlc v) = raise invalid_inherent (htlc v)
  check_inherent inherent (staking s) = within staking (Inherents.check_inherent w inherent s)

  unfoldable pub commit_inherent : Inherent Bytes → ℕ → Action Account (Option Bytes)
  commit_inherent inherent height (basic a) = within basic (Basic.commit_inherent inherent a)
  commit_inherent inherent height (vesting v) = raise invalid_inherent (vesting v)
  commit_inherent inherent height (htlc v) = raise invalid_inherent (htlc v)
  commit_inherent inherent height (staking s) =
      within staking (Inherents.commit_inherent w inherent height s)

  unfoldable pub revert_inherent : Inherent Bytes → ℕ → Option Bytes → Action Account (Unit {0})
  revert_inherent inherent height receipt (basic a) =
      within basic (Basic.revert_inherent inherent receipt a)
  revert_inherent inherent height receipt (vesting v) = raise invalid_inherent (vesting v)
  revert_inherent inherent height receipt (htlc v) = raise invalid_inherent (htlc v)
  revert_inherent inherent height receipt (staking s) =
      within staking (Inherents.revert_inherent w inherent height receipt s)
