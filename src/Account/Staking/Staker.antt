-- ===== src/Account/Staking/Staker.antt =====
-- primitives/account/src/staking_contract/actions/staker.rs: staking, retiring, re-activating and
-- unstaking, each with its reversal.
use nimiq_core_rs_albatross.Base.{
  ℕ, Bool, ◌&&◌, not, Option, none, some, ltb, ◌==◌, if◌then◌else◌, is_some, is_none, unwrap_or,
}
use nimiq_core_rs_albatross.Primitives.Coin.{Coin}
use nimiq_core_rs_albatross.Collections.Map.{get, insert, remove, contains_key}
use nimiq_core_rs_albatross.Account.Outcome.{
  invalid_for_sender, invalid_for_recipient, invalid_receipt, Action, pure, abort, lift, or_raise,
  unwrap, raise_if, modify, get_self, ◌>>=◌, ◌>>◌,
}
use nimiq_core_rs_albatross.Account.Balance.{balance_add, balance_sub}
use nimiq_core_rs_albatross.Account.Staking.State.{
  Address, BlsPublicKey, InactiveStake, StakingContract,
}
use nimiq_core_rs_albatross.Account.Staking.Entry.{try_add_stake, try_sub_stake}
use nimiq_core_rs_albatross.Account.Staking.Contract.{remove_validator, restore_validator}

pub record InactiveStakeReceipt : Type 0 where
  pub retire_time : ℕ

abbrev pub set_balance : Coin → StakingContract → StakingContract
set_balance balance self = record self { balance = balance }

abbrev pub put_inactive : Address → InactiveStake → StakingContract → StakingContract
put_inactive a stake self = record self {
  inactive_stake_by_address = insert a stake self.inactive_stake_by_address;
}

abbrev pub take_inactive : Address → StakingContract → StakingContract
take_inactive a self = record self {
  inactive_stake_by_address = remove a self.inactive_stake_by_address;
}

-- The four operations on active stake share this course: they compute the new balance, change the
-- validator between `remove_validator` and `restore_validator`, and set the balance.
unfoldable pub stake : Address → Coin → BlsPublicKey → Action StakingContract (Unit {0})
stake staker_address value validator_key = do
  self ← get_self
  new_balance ← lift (balance_add self.balance value)
  entry ← or_raise (← remove_validator validator_key) invalid_for_recipient
  restore_validator (try_add_stake entry staker_address value)
  modify (set_balance new_balance)

unfoldable pub revert_stake : Address → Coin → BlsPublicKey → Action StakingContract (Unit {0})
revert_stake staker_address value validator_key = do
  self ← get_self
  new_balance ← lift (balance_sub self.balance value)
  entry ← or_raise (← remove_validator validator_key) invalid_for_recipient
  restore_validator (try_sub_stake entry staker_address value invalid_for_recipient)
  modify (set_balance new_balance)

unfoldable pub retire_sender : Address → Coin → BlsPublicKey → Action StakingContract (Unit {0})
retire_sender staker_address value validator_key = do
  self ← get_self
  new_balance ← lift (balance_sub self.balance value)
  entry ← or_raise (← remove_validator validator_key) invalid_for_sender
  restore_validator (try_sub_stake entry staker_address value invalid_for_sender)
  modify (set_balance new_balance)

unfoldable pub revert_retire_sender :
    Address → Coin → BlsPublicKey → Action StakingContract (Unit {0})
revert_retire_sender staker_address value validator_key = do
  self ← get_self
  new_balance ← lift (balance_add self.balance value)
  entry ← or_raise (← remove_validator validator_key) invalid_for_sender
  restore_validator (try_add_stake entry staker_address value)
  modify (set_balance new_balance)

-- The two branches of `if let Some(inactive_stake) = …remove(staker_address)`.
unfoldable pub retire_into :
    Address
    → Coin
    → Option ℕ
    → Option InactiveStake
    → Action StakingContract (Option InactiveStakeReceipt)
retire_into staker_address value new_retire_time (some inactive_stake) = do
  modify (take_inactive staker_address)
  balance ← lift (balance_add inactive_stake.balance value)
  modify (
      put_inactive staker_address (record {
        balance = balance;
        retire_time = unwrap_or new_retire_time inactive_stake.retire_time;
      }))
  pure (some (record { retire_time = inactive_stake.retire_time }))
retire_into staker_address value new_retire_time none = do
  retire_time ← unwrap new_retire_time
  modify (put_inactive staker_address (record { balance = value; retire_time = retire_time }))
  pure none

unfoldable pub retire_recipient :
    Address → Coin → Option ℕ → Action StakingContract (Option InactiveStakeReceipt)
unfolding retire_into
retire_recipient staker_address value new_retire_time = do
  self ← get_self
  raise_if
      (not (contains_key staker_address self.inactive_stake_by_address) && is_none new_retire_time)
      invalid_receipt
  balance ← lift (balance_add self.balance value)
  modify (set_balance balance)
  retire_into staker_address value new_retire_time
      (get staker_address self.inactive_stake_by_address)

-- What is left of an inactive stake after `value` was taken.
unfoldable pub reactivate_sender :
    Address → Coin → Option ℕ → Action StakingContract (Option InactiveStakeReceipt)
reactivate_sender staker_address value new_retire_time = do
  self ← get_self
  modify (take_inactive staker_address)
  inactive_stake ←
      or_raise (get staker_address self.inactive_stake_by_address) invalid_for_recipient
  balance ← lift (balance_sub self.balance value)
  modify (set_balance balance)
  if ltb value inactive_stake.balance
      then (do
        rest ← lift (balance_sub inactive_stake.balance value)
        modify (
            put_inactive staker_address (record {
              balance = rest;
              retire_time = unwrap_or new_retire_time inactive_stake.retire_time;
            }))
        pure none)
      else pure (some (record { retire_time = inactive_stake.retire_time }))

-- `receipt.map(|r| r.retire_time)`
abbrev pub receipt_time : Option InactiveStakeReceipt → Option ℕ
receipt_time none = none
receipt_time (some r) = some r.retire_time

abbrev xor_bool : Bool → Bool → Bool
xor_bool a b = if a then not b else b

unfoldable pub revert_retire_recipient :
    Address → Coin → Option InactiveStakeReceipt → Action StakingContract (Unit {0})
revert_retire_recipient staker_address value receipt = do
  self ← get_self
  inactive_stake ←
      or_raise (get staker_address self.inactive_stake_by_address) invalid_for_recipient
  raise_if (xor_bool (ltb value inactive_stake.balance) (is_some receipt)) invalid_for_recipient
  reactivate_sender staker_address value (some (unwrap_or (receipt_time receipt) 0))
  pure tt

unfoldable pub revert_reactivate_sender :
    Address → Coin → Option InactiveStakeReceipt → Action StakingContract (Unit {0})
revert_reactivate_sender staker_address value receipt = do
  retire_recipient staker_address value (receipt_time receipt)
  pure tt

unfoldable pub reactivate_recipient :
    Address → Coin → BlsPublicKey → Action StakingContract (Unit {0})
reactivate_recipient staker_address value validator_key = stake staker_address value validator_key

unfoldable pub revert_reactivate_recipient :
    Address → Coin → BlsPublicKey → Action StakingContract (Unit {0})
revert_reactivate_recipient staker_address value validator_key =
    revert_stake staker_address value validator_key

unfoldable pub unstake : Address → Coin → Action StakingContract (Option InactiveStakeReceipt)
unstake staker_address total_value = do
  self ← get_self
  modify (take_inactive staker_address)
  inactive_stake ← or_raise (get staker_address self.inactive_stake_by_address) invalid_for_sender
  balance ← lift (balance_sub self.balance total_value)
  modify (set_balance balance)
  if ltb total_value inactive_stake.balance
      then (do
        rest ← lift (balance_sub inactive_stake.balance total_value)
        modify (
            put_inactive staker_address
              (record { balance = rest; retire_time = inactive_stake.retire_time }))
        pure none)
      else (if inactive_stake.balance == total_value
          then pure (some (record { retire_time = inactive_stake.retire_time }))
          else abort)

-- The two branches of `if let Some(inactive_stake) = …remove(staker_address)`.
unfoldable pub restore_unstaked :
    Address
    → Coin
    → Option InactiveStakeReceipt
    → Option InactiveStake
    → Action StakingContract (Unit {0})
restore_unstaked staker_address total_value receipt (some inactive_stake) = do
  modify (take_inactive staker_address)
  raise_if (is_some receipt) invalid_receipt
  balance ← lift (balance_add inactive_stake.balance total_value)
  modify (
      put_inactive staker_address
        (record { balance = balance; retire_time = inactive_stake.retire_time }))
restore_unstaked staker_address total_value receipt none = do
  r ← or_raise receipt invalid_receipt
  modify
      (put_inactive staker_address (record { balance = total_value; retire_time = r.retire_time }))

unfoldable pub revert_unstake :
    Address → Coin → Option InactiveStakeReceipt → Action StakingContract (Unit {0})
unfolding restore_unstaked
revert_unstake staker_address total_value receipt = do
  self ← get_self
  balance ← lift (balance_add self.balance total_value)
  modify (set_balance balance)
  restore_unstaked staker_address total_value receipt
      (get staker_address self.inactive_stake_by_address)
