-- ===== src/Account/Staking/Transactions/Outgoing.antt =====
-- primitives/account/src/staking_contract/actions/mod.rs: the check of a transaction that takes
-- coins out of the contract, to outside or to itself, what it does, and its reversal.
use nimiq_core_rs_albatross.Base.{
  ℕ, not, Option, none, some, List, [], ◌∷◌, ltb, ◌==◌, if◌then◌else◌,
}
use nimiq_core_rs_albatross.Primitives.Coin.{Coin, add, sub}
use nimiq_core_rs_albatross.Primitives.Coin
use nimiq_core_rs_albatross.Primitives.Policy.{election_block_after}
use nimiq_core_rs_albatross.Collections.Map.{Map, get}
use nimiq_core_rs_albatross.Account.Outcome.{
  invalid_for_sender, insufficient_funds, Action, pure, lift, or_raise, raise_if, get_self, ◌>>=◌,
  ◌>>◌,
}
use nimiq_core_rs_albatross.Account.Balance.{balance_sufficient}
use nimiq_core_rs_albatross.Account.Staking.State.{Address, StakingContract}
use nimiq_core_rs_albatross.Account.Staking.Contract.{get_validator}
use nimiq_core_rs_albatross.Account.Staking.Staker.{
  retire_sender, revert_retire_sender, reactivate_sender, revert_reactivate_sender, unstake,
  revert_unstake,
}
use nimiq_core_rs_albatross.Account.Staking.Lifecycle.{drop_validator, revert_drop_validator}
use nimiq_core_rs_albatross.Account.Staking.Wire.{
  Wire, Transaction, OutgoingStakingTransactionProof, SelfStakingTransactionData, total_value,
  deserialize, read_receipt, conditional_deserialize, encode_some, get_self_signer,
}

-- The stakes held by a validator, in the order of the map.
abbrev pub values : Map Coin → List Coin
values [] = []
values ((_, c) ∷ m) = c ∷ values m

module _ (w : Wire) where
  open w use {
    Bytes, length, incoming_data, self_data, outgoing_proof, signature_proof,
    inactive_stake_receipt, update_validator_receipt, drop_validator_receipt,
    inactive_validator_receipt, unpark_receipt,
  }

  unfoldable pub check_outgoing_proof :
      Transaction Bytes → ℕ → OutgoingStakingTransactionProof → Action StakingContract (Unit {0})
  unfolding total_value balance_sufficient election_block_after
  check_outgoing_proof tx block_height (OutgoingStakingTransactionProof.unstake proof) = do
    self ← get_self
    inactive_stake ←
        or_raise (get proof.compute_signer self.inactive_stake_by_address) invalid_for_sender
    raise_if (ltb block_height (election_block_after inactive_stake.retire_time)) invalid_for_sender
    total ← lift (total_value tx)
    lift (balance_sufficient inactive_stake.balance total)
  check_outgoing_proof tx block_height
        (OutgoingStakingTransactionProof.drop_validator validator_key _) =
      do
        self ← get_self
        i ← or_raise (get validator_key self.inactive_validators_by_key) invalid_for_sender
        raise_if (ltb block_height (election_block_after i.retire_time)) invalid_for_sender
        let staker_stake = Coin.sum (values i.validator.active_stake_by_address)
        total ← lift (total_value tx)
        raise_if (not (sub i.validator.balance staker_stake == total))
            (insufficient_funds (add staker_stake total) i.validator.balance)

  unfoldable pub check_outgoing_self :
      Transaction Bytes → Address → SelfStakingTransactionData → Action StakingContract (Unit {0})
  unfolding total_value balance_sufficient get_validator
  check_outgoing_self tx staker_address (SelfStakingTransactionData.retire_stake validator_key) = do
    self ← get_self
    validator ← or_raise (get_validator validator_key self) invalid_for_sender
    held ← or_raise (get staker_address validator.active_stake_by_address) invalid_for_sender
    total ← lift (total_value tx)
    lift (balance_sufficient held total)
  check_outgoing_self tx staker_address
        (SelfStakingTransactionData.reactivate_stake validator_key) =
      do
        self ← get_self
        inactive_stake ←
            or_raise (get staker_address self.inactive_stake_by_address) invalid_for_sender
        or_raise (get_validator validator_key self) invalid_for_sender
        total ← lift (total_value tx)
        lift (balance_sufficient inactive_stake.balance total)

  unfoldable pub check_outgoing_transaction :
      Transaction Bytes → ℕ → Action StakingContract (Unit {0})
  unfolding deserialize get_self_signer check_outgoing_proof check_outgoing_self
  check_outgoing_transaction tx block_height =
      if not (tx.sender == tx.recipient)
      then (do
        proof ← lift (deserialize outgoing_proof tx.proof)
        check_outgoing_proof tx block_height proof)
      else (do
        parsed ← lift (deserialize self_data tx.tx_data)
        staker_address ← lift (get_self_signer w tx)
        check_outgoing_self tx staker_address parsed)

  unfoldable pub commit_outgoing_proof :
      Transaction Bytes → OutgoingStakingTransactionProof → Action StakingContract (Option Bytes)
  unfolding total_value
  commit_outgoing_proof tx (OutgoingStakingTransactionProof.unstake proof) = do
    total ← lift (total_value tx)
    receipt ← unstake proof.compute_signer total
    pure (encode_some inactive_stake_receipt receipt)
  commit_outgoing_proof tx (OutgoingStakingTransactionProof.drop_validator validator_key _) = do
    total ← lift (total_value tx)
    receipt ← drop_validator validator_key total
    pure (some (drop_validator_receipt.encode receipt))

  unfoldable pub commit_outgoing_self :
      Transaction Bytes
      → Address
      → SelfStakingTransactionData
      → Action StakingContract (Option Bytes)
  unfolding total_value
  commit_outgoing_self tx staker_address (SelfStakingTransactionData.retire_stake validator_key) =
      do total ← lift (total_value tx); retire_sender staker_address total validator_key; pure none
  commit_outgoing_self tx staker_address (SelfStakingTransactionData.reactivate_stake _) = do
    total ← lift (total_value tx)
    receipt ← reactivate_sender staker_address total none
    pure (encode_some inactive_stake_receipt receipt)

  unfoldable pub commit_outgoing_transaction :
      Transaction Bytes → ℕ → Action StakingContract (Option Bytes)
  unfolding check_outgoing_transaction commit_outgoing_proof commit_outgoing_self
  commit_outgoing_transaction tx block_height =
      check_outgoing_transaction tx block_height
      >> (if not (tx.sender == tx.recipient)
          then (do
            proof ← lift (deserialize outgoing_proof tx.proof)
            commit_outgoing_proof tx proof)
          else (do
            parsed ← lift (deserialize self_data tx.tx_data)
            staker_address ← lift (get_self_signer w tx)
            commit_outgoing_self tx staker_address parsed))

  unfoldable pub revert_outgoing_proof :
      Transaction Bytes
      → Option Bytes
      → OutgoingStakingTransactionProof
      → Action StakingContract (Unit {0})
  unfolding total_value read_receipt conditional_deserialize
  revert_outgoing_proof tx receipt (OutgoingStakingTransactionProof.unstake proof) = do
    r ← lift (conditional_deserialize inactive_stake_receipt receipt)
    total ← lift (total_value tx)
    revert_unstake proof.compute_signer total r
  revert_outgoing_proof tx receipt
        (OutgoingStakingTransactionProof.drop_validator validator_key _) =
      do
        r ← lift (read_receipt drop_validator_receipt receipt)
        total ← lift (total_value tx)
        revert_drop_validator validator_key total r

  unfoldable pub revert_outgoing_self :
      Transaction Bytes
      → Option Bytes
      → Address
      → SelfStakingTransactionData
      → Action StakingContract (Unit {0})
  unfolding total_value conditional_deserialize
  revert_outgoing_self tx receipt staker_address
        (SelfStakingTransactionData.retire_stake validator_key) =
      do total ← lift (total_value tx); revert_retire_sender staker_address total validator_key
  revert_outgoing_self tx receipt staker_address (SelfStakingTransactionData.reactivate_stake _) =
      do
        r ← lift (conditional_deserialize inactive_stake_receipt receipt)
        total ← lift (total_value tx)
        revert_reactivate_sender staker_address total r

  unfoldable pub revert_outgoing_transaction :
      Transaction Bytes → Option Bytes → Action StakingContract (Unit {0})
  unfolding deserialize get_self_signer revert_outgoing_proof revert_outgoing_self
  revert_outgoing_transaction tx receipt =
      if not (tx.sender == tx.recipient)
      then (do
        proof ← lift (deserialize outgoing_proof tx.proof)
        revert_outgoing_proof tx receipt proof)
      else (do
        parsed ← lift (deserialize self_data tx.tx_data)
        staker_address ← lift (get_self_signer w tx)
        revert_outgoing_self tx receipt staker_address parsed)
