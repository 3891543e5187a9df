-- ===== src/Account/Staking/Transactions/Incoming.antt =====
-- primitives/account/src/staking_contract/actions/mod.rs: what a transaction to the contract does,
-- from outside or from the contract itself, and its reversal.
use nimiq_core_rs_albatross.Base.{ℕ, not, Option, none, some, ◌==◌, if◌then◌else◌, unwrap_or}
use nimiq_core_rs_albatross.Account.Outcome.{Action, pure, lift, ◌>>=◌, ◌>>◌}
use nimiq_core_rs_albatross.Account.Staking.State.{Address, StakingContract}
use nimiq_core_rs_albatross.Account.Staking.Staker.{
  stake, revert_stake, retire_recipient, revert_retire_recipient, reactivate_recipient,
  revert_reactivate_recipient,
}
use nimiq_core_rs_albatross.Account.Staking.Lifecycle.{
  create_validator, revert_create_validator, update_validator, revert_update_validator,
  retire_validator, revert_retire_validator, reactivate_validator, revert_reactivate_validator,
  unpark_validator, revert_unpark_validator,
}
use nimiq_core_rs_albatross.Account.Staking.Wire.{
  Wire, Transaction, IncomingStakingTransactionData, SelfStakingTransactionData, deserialize,
  full_parse, read_receipt, conditional_deserialize, encode_some, get_self_signer,
}

module _ (w : Wire) where
  open w use {
    Bytes, length, incoming_data, self_data, outgoing_proof, signature_proof,
    inactive_stake_receipt, update_validator_receipt, drop_validator_receipt,
    inactive_validator_receipt, unpark_receipt,
  }

  -- The `match data` for a transaction from outside.
  unfoldable pub commit_incoming_data :
      Transaction Bytes → ℕ → IncomingStakingTransactionData → Action StakingContract (Option Bytes)
  commit_incoming_data tx block_height
        (IncomingStakingTransactionData.create_validator validator_key _ reward_address) =
      do create_validator validator_key reward_address tx.value; pure none
  commit_incoming_data tx block_height
        (IncomingStakingTransactionData.update_validator old_key new_key _ new_reward_address _) =
      do
        receipt ← update_validator old_key new_key new_reward_address
        pure (some (update_validator_receipt.encode receipt))
  commit_incoming_data tx block_height
        (IncomingStakingTransactionData.retire_validator validator_key _) =
      do retire_validator validator_key block_height; pure none
  commit_incoming_data tx block_height
        (IncomingStakingTransactionData.reactivate_validator validator_key _) =
      do
        receipt ← reactivate_validator validator_key
        pure (some (inactive_validator_receipt.encode receipt))
  commit_incoming_data tx block_height
        (IncomingStakingTransactionData.unpark_validator validator_key _) =
      do receipt ← unpark_validator validator_key; pure (some (unpark_receipt.encode receipt))
  commit_incoming_data tx block_height
        (IncomingStakingTransactionData.stake validator_key staker_address) =
      do stake (unwrap_or staker_address tx.sender) tx.value validator_key; pure none

  unfoldable pub commit_incoming_self :
      Transaction Bytes
      → ℕ
      → Address
      → SelfStakingTransactionData
      → Action StakingContract (Option Bytes)
  commit_incoming_self tx block_height staker_address (SelfStakingTransactionData.retire_stake _) =
      do
        receipt ← retire_recipient staker_address tx.value (some block_height)
        pure (encode_some inactive_stake_receipt receipt)
  commit_incoming_self tx block_height staker_address
        (SelfStakingTransactionData.reactivate_stake validator_key) =
      do reactivate_recipient staker_address tx.value validator_key; pure none

  unfoldable pub commit_incoming_transaction :
      Transaction Bytes → ℕ → Action StakingContract (Option Bytes)
  unfolding full_parse deserialize get_self_signer commit_incoming_data commit_incoming_self
  commit_incoming_transaction tx block_height =
      if not (tx.sender == tx.recipient)
      then (do
        parsed ← lift (full_parse length incoming_data tx.tx_data)
        commit_incoming_data tx block_height parsed)
      else (do
        parsed ← lift (deserialize self_data tx.tx_data)
        staker_address ← lift (get_self_signer w tx)
        commit_incoming_self tx block_height staker_address parsed)

  unfoldable pub revert_incoming_data :
      Transaction Bytes
      → Option Bytes
      → IncomingStakingTransactionData
      → Action StakingContract (Unit {0})
  unfolding read_receipt
  revert_incoming_data tx receipt
        (IncomingStakingTransactionData.create_validator validator_key _ _) =
      revert_create_validator validator_key tx.value
  revert_incoming_data tx receipt
        (IncomingStakingTransactionData.update_validator old_key new_key _ _ _) =
      do
        r ← lift (read_receipt update_validator_receipt receipt)
        revert_update_validator old_key new_key r
  revert_incoming_data tx receipt
        (IncomingStakingTransactionData.retire_validator validator_key _) =
      revert_retire_validator validator_key
  revert_incoming_data tx receipt
        (IncomingStakingTransactionData.reactivate_validator validator_key _) =
      do
        r ← lift (read_receipt inactive_validator_receipt receipt)
        revert_reactivate_validator validator_key r
  revert_incoming_data tx receipt
        (IncomingStakingTransactionData.unpark_validator validator_key _) =
      do r ← lift (read_receipt unpark_receipt receipt); revert_unpark_validator validator_key r
  revert_incoming_data tx receipt
        (IncomingStakingTransactionData.stake validator_key staker_address) =
      revert_stake (unwrap_or staker_address tx.sender) tx.value validator_key

  unfoldable pub revert_incoming_self :
      Transaction Bytes
      → Option Bytes
      → Address
      → SelfStakingTransactionData
      → Action StakingContract (Unit {0})
  unfolding conditional_deserialize
  revert_incoming_self tx receipt staker_address (SelfStakingTransactionData.retire_stake _) = do
    r ← lift (conditional_deserialize inactive_stake_receipt receipt)
    revert_retire_recipient staker_address tx.value r
  revert_incoming_self tx receipt staker_address
        (SelfStakingTransactionData.reactivate_stake validator_key) =
      revert_reactivate_recipient staker_address tx.value validator_key

  unfoldable pub revert_incoming_transaction :
      Transaction Bytes → Option Bytes → Action StakingContract (Unit {0})
  unfolding deserialize get_self_signer revert_incoming_data revert_incoming_self
  revert_incoming_transaction tx receipt =
      if not (tx.sender == tx.recipient)
      then (do
        parsed ← lift (deserialize incoming_data tx.tx_data)
        revert_incoming_data tx receipt parsed)
      else (do
        parsed ← lift (deserialize self_data tx.tx_data)
        staker_address ← lift (get_self_signer w tx)
        revert_incoming_self tx receipt staker_address parsed)
