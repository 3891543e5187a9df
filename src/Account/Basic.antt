-- ===== src/Account/Basic.antt =====
-- primitives/account/src/basic_account.rs: an account that is only a balance.
pub mod Reversal
use nimiq_core_rs_albatross.Base.{ℕ, Option, none, some, is_some}
use nimiq_core_rs_albatross.Primitives.Coin.{Coin}
use nimiq_core_rs_albatross.Account.Outcome.{
  invalid_inherent, invalid_receipt, Action, pure, raise, lift, raise_if, get_self, put_self, ◌>>=◌,
  ◌>>◌,
}
use nimiq_core_rs_albatross.Account.Balance.{balance_add, balance_sub, balance_sufficient}
use nimiq_core_rs_albatross.Account.Staking.Wire.{Transaction, total_value}
use nimiq_core_rs_albatross.Account.Staking.Inherents.{Inherent, InherentType}

pub record BasicAccount : Type 0 where
  pub balance : Coin

module _ {Bytes : Type 0} where
  unfoldable pub commit_incoming_transaction :
      Transaction Bytes → Action BasicAccount (Option Bytes)
  commit_incoming_transaction tx = do
    self ← get_self
    balance ← lift (balance_add self.balance tx.value)
    put_self (record { balance = balance })
    pure none

  unfoldable pub revert_incoming_transaction :
      Transaction Bytes → Option Bytes → Action BasicAccount (Unit {0})
  revert_incoming_transaction tx receipt = do
    self ← get_self
    raise_if (is_some receipt) invalid_receipt
    balance ← lift (balance_sub self.balance tx.value)
    put_self (record { balance = balance })

  unfoldable pub check_outgoing_transaction : Transaction Bytes → Action BasicAccount (Unit {0})
  unfolding total_value balance_sufficient
  check_outgoing_transaction tx = do
    self ← get_self
    total ← lift (total_value tx)
    lift (balance_sufficient self.balance total)

  unfoldable pub commit_outgoing_transaction :
      Transaction Bytes → Action BasicAccount (Option Bytes)
  commit_outgoing_transaction tx = do
    self ← get_self
    total ← lift (total_value tx)
    balance ← lift (balance_sub self.balance total)
    put_self (record { balance = balance })
    pure none

  unfoldable pub revert_outgoing_transaction :
      Transaction Bytes → Option Bytes → Action BasicAccount (Unit {0})
  revert_outgoing_transaction tx receipt = do
    self ← get_self
    raise_if (is_some receipt) invalid_receipt
    total ← lift (total_value tx)
    balance ← lift (balance_add self.balance total)
    put_self (record { balance = balance })

  unfoldable pub check_inherent : Inherent Bytes → Action BasicAccount (Unit {0})
  check_inherent inherent = elim inherent.ty [
    | InherentType.reward ↦ pure tt
    | _ ↦ raise invalid_inherent
  ]

  unfoldable pub commit_inherent : Inherent Bytes → Action BasicAccount (Option Bytes)
  unfolding check_inherent
  commit_inherent inherent = do
    check_inherent inherent
    self ← get_self
    balance ← lift (balance_add self.balance inherent.value)
    put_self (record { balance = balance })
    pure none

  unfoldable pub revert_inherent : Inherent Bytes → Option Bytes → Action BasicAccount (Unit {0})
  unfolding check_inherent
  revert_inherent inherent receipt = do
    raise_if (is_some receipt) invalid_receipt
    check_inherent inherent
    self ← get_self
    balance ← lift (balance_sub self.balance inherent.value)
    put_self (record { balance = balance })
