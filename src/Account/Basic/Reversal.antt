-- ===== src/Account/Basic/Reversal.antt =====
-- Every change of a basic account can be reverted with the receipt that it returned.
use nimiq_core_rs_albatross.Base.{◌≤◌, ◌≡◌, Option, arith}
use nimiq_core_rs_albatross.Primitives.Coin.{max_safe_value}
use nimiq_core_rs_albatross.Account.Outcome.{ok}
use nimiq_core_rs_albatross.Account.Balance.{balance_add, balance_sub}
use nimiq_core_rs_albatross.Account.Staking.Wire.{Transaction}
use nimiq_core_rs_albatross.Account.Staking.Inherents.{Inherent}
use nimiq_core_rs_albatross.Account.Basic.{
  BasicAccount, commit_incoming_transaction, revert_incoming_transaction,
  commit_outgoing_transaction, revert_outgoing_transaction, commit_inherent, revert_inherent,
}

module _ {Bytes : Type 0} (a a' : BasicAccount) (receipt : Option Bytes)
    (r : a.balance ≤ max_safe_value) where
  -- If a transaction to a basic account with a balance in range was committed, reverting it with the
  -- receipt succeeds and gives the account back.
  pub revert_incoming_transaction-commit_incoming_transaction :
      (tx : Transaction Bytes)
      → commit_incoming_transaction tx a ≡ (ok receipt, a')
      → revert_incoming_transaction tx receipt a' ≡ (ok tt, a)
  unfolding commit_incoming_transaction revert_incoming_transaction balance_add balance_sub
  revert_incoming_transaction-commit_incoming_transaction tx h = ground (arith, r, h)

  -- If a transaction from a basic account with a balance in range was committed, reverting it with
  -- the receipt succeeds and gives the account back.
  pub revert_outgoing_transaction-commit_outgoing_transaction :
      (tx : Transaction Bytes)
      → commit_outgoing_transaction tx a ≡ (ok receipt, a')
      → revert_outgoing_transaction tx receipt a' ≡ (ok tt, a)
  unfolding commit_outgoing_transaction revert_outgoing_transaction balance_add balance_sub
  revert_outgoing_transaction-commit_outgoing_transaction tx h = ground (arith, r, h)

  -- If a reward to a basic account with a balance in range was committed, reverting it with the
  -- receipt succeeds and gives the account back.
  pub revert_inherent-commit_inherent :
      (inherent : Inherent Bytes)
      → commit_inherent inherent a ≡ (ok receipt, a')
      → revert_inherent inherent receipt a' ≡ (ok tt, a)
  unfolding commit_inherent revert_inherent balance_add balance_sub
  revert_inherent-commit_inherent inherent h = ground (arith, r, h)
