-- ===== src/Account/Staking/Lifecycle.antt =====
-- primitives/account/src/staking_contract/actions/validator.rs: creating, updating, retiring,
-- re-activating, unparking and dropping a validator, each with its reversal.
use nimiq_core_rs_albatross.Base.{
  ℕ, Bool, ◌&&◌, ◌||◌, not, Option, none, some, [], ◌∷◌, if◌then◌else◌, is_none, unwrap_or, false,
}
use nimiq_core_rs_albatross.Primitives.Coin.{Coin, add}
use nimiq_core_rs_albatross.Collections.Map.{Map, KeySet, get, insert, remove, contains_key}
use nimiq_core_rs_albatross.Account.Outcome.{
  invalid_for_recipient, Action, pure, lift, gets, or_raise, unwrap, raise_if, modify, get_self,
  ◌>>=◌, ◌>>◌,
}
use nimiq_core_rs_albatross.Account.Balance.{balance_add, balance_sub}
use nimiq_core_rs_albatross.Account.Staking.State.{
  Address, BlsPublicKey, Validator, InactiveValidator, StakingContract, SlotSet, sorted_insert,
  sorted_remove,
}
use nimiq_core_rs_albatross.Account.Staking.Entry.{new_validator, as_validator, update_entry}
use nimiq_core_rs_albatross.Account.Staking.Contract.{remove_validator, restore_validator}
use nimiq_core_rs_albatross.Account.Staking.Staker.{
  InactiveStakeReceipt, set_balance, retire_recipient, revert_retire_recipient,
}

pub record UnparkReceipt : Type 0 where
  pub current_epoch : Bool
  pub previous_epoch : Bool
  pub current_disabled_slots : Option SlotSet
  pub previous_disabled_slots : Option SlotSet

pub record UpdateValidatorReceipt : Type 0 where
  pub old_reward_address : Address

pub record RetirementReceipt : Type 0 where
  pub stake : Coin
  pub inactive_stake_receipt : Option InactiveStakeReceipt

pub record DropValidatorReceipt : Type 0 where
  pub reward_address : Address
  pub retirement_by_address : Map RetirementReceipt
  pub retire_time : ℕ
  pub unpark_receipt : UnparkReceipt

pub record InactiveValidatorReceipt : Type 0 where
  pub retire_time : ℕ

-- A validator enters the two containers of active ones, and leaves them.
abbrev pub put_active : BlsPublicKey → Validator → StakingContract → StakingContract
put_active key v self = record self {
  active_validators_sorted = sorted_insert v self.active_validators_sorted;
  active_validators_by_key = insert key v self.active_validators_by_key;
}

abbrev pub drop_active_key : BlsPublicKey → StakingContract → StakingContract
drop_active_key key self = record self {
  active_validators_by_key = remove key self.active_validators_by_key;
}

abbrev pub drop_active_sorted : Validator → StakingContract → StakingContract
drop_active_sorted v self = record self {
  active_validators_sorted = sorted_remove v self.active_validators_sorted;
}

abbrev pub put_retired : BlsPublicKey → InactiveValidator → StakingContract → StakingContract
put_retired key i self = record self {
  inactive_validators_by_key = insert key i self.inactive_validators_by_key;
}

abbrev pub drop_retired : BlsPublicKey → StakingContract → StakingContract
drop_retired key self = record self {
  inactive_validators_by_key = remove key self.inactive_validators_by_key;
}

unfoldable pub create_validator : BlsPublicKey → Address → Coin → Action StakingContract (Unit {0})
unfolding new_validator
create_validator validator_key reward_address initial_stake = do
  self ← get_self
  raise_if
      (contains_key validator_key self.active_validators_by_key
        || contains_key validator_key self.inactive_validators_by_key)
      invalid_for_recipient
  balance ← lift (balance_add self.balance initial_stake)
  modify (set_balance balance)
  modify (put_active validator_key (new_validator initial_stake reward_address validator_key))

unfoldable pub revert_create_validator : BlsPublicKey → Coin → Action StakingContract (Unit {0})
revert_create_validator validator_key initial_stake = do
  self ← get_self
  validator ← or_raise (get validator_key self.active_validators_by_key) invalid_for_recipient
  modify (drop_active_key validator_key)
  balance ← lift (balance_sub self.balance initial_stake)
  modify (set_balance balance)
  modify (drop_active_sorted validator)

unfoldable pub update_validator :
    BlsPublicKey
    → Option BlsPublicKey
    → Option Address
    → Action StakingContract UpdateValidatorReceipt
update_validator old_validator_key new_validator_key new_reward_address = do
  entry ← or_raise (← remove_validator old_validator_key) invalid_for_recipient
  restore_validator (update_entry entry new_reward_address new_validator_key)
  pure (record { old_reward_address = (as_validator entry).reward_address })

unfoldable pub revert_update_validator :
    BlsPublicKey → Option BlsPublicKey → UpdateValidatorReceipt → Action StakingContract (Unit {0})
revert_update_validator old_validator_key new_validator_key receipt = do
  entry ←
      or_raise (← remove_validator (unwrap_or new_validator_key old_validator_key))
        invalid_for_recipient
  restore_validator (update_entry entry (some receipt.old_reward_address) (some old_validator_key))

unfoldable pub retire_validator : BlsPublicKey → ℕ → Action StakingContract (Unit {0})
retire_validator validator_key block_height = do
  self ← get_self
  validator ← or_raise (get validator_key self.active_validators_by_key) invalid_for_recipient
  modify (drop_active_key validator_key)
  modify (drop_active_sorted validator)
  modify (put_retired validator_key (record { validator = validator; retire_time = block_height }))

unfoldable pub reactivate_validator : BlsPublicKey → Action StakingContract InactiveValidatorReceipt
reactivate_validator validator_key = do
  self ← get_self
  i ← or_raise (get validator_key self.inactive_validators_by_key) invalid_for_recipient
  modify (drop_retired validator_key)
  modify (put_active validator_key i.validator)
  pure (record { retire_time = i.retire_time })

unfoldable pub revert_retire_validator : BlsPublicKey → Action StakingContract (Unit {0})
revert_retire_validator validator_key = do reactivate_validator validator_key; pure tt

unfoldable pub revert_reactivate_validator :
    BlsPublicKey → InactiveValidatorReceipt → Action StakingContract (Unit {0})
revert_reactivate_validator validator_key receipt =
    retire_validator validator_key receipt.retire_time

-- Whether a validator is in the parking lists or has disabled slots.
unfoldable pub is_parked : BlsPublicKey → StakingContract → Bool
unfolding get
is_parked key self =
    contains_key key self.current_epoch_parking
    || (contains_key key self.previous_epoch_parking
        || (contains_key key self.current_disabled_slots
            || contains_key key self.previous_disabled_slots))

abbrev pub clear_parking : BlsPublicKey → StakingContract → StakingContract
clear_parking key self = record self {
  current_epoch_parking = remove key self.current_epoch_parking;
  previous_epoch_parking = remove key self.previous_epoch_parking;
  current_disabled_slots = remove key self.current_disabled_slots;
  previous_disabled_slots = remove key self.previous_disabled_slots;
}

unfoldable pub unpark_validator : BlsPublicKey → Action StakingContract UnparkReceipt
unpark_validator key = do
  self ← get_self
  modify (clear_parking key)
  let current_epoch = contains_key key self.current_epoch_parking
  let previous_epoch = contains_key key self.previous_epoch_parking
  let current_slots = get key self.current_disabled_slots
  let previous_slots = get key self.previous_disabled_slots
  raise_if
      (not current_epoch
        && (not previous_epoch && (is_none current_slots && is_none previous_slots)))
      invalid_for_recipient
  pure (record {
    current_epoch = current_epoch;
    previous_epoch = previous_epoch;
    current_disabled_slots = current_slots;
    previous_disabled_slots = previous_slots;
  })

abbrev pub insert_if : BlsPublicKey → Bool → KeySet → KeySet
insert_if key c m = if c then insert key tt m else m

abbrev pub insert_some : BlsPublicKey → Option SlotSet → Map SlotSet → Map SlotSet
insert_some key none m = m
insert_some key (some slots) m = insert key slots m

unfoldable pub revert_unpark_validator :
    BlsPublicKey → UnparkReceipt → Action StakingContract (Unit {0})
revert_unpark_validator key receipt = modify λ self. record self {
  current_epoch_parking = insert_if key receipt.current_epoch self.current_epoch_parking;
  previous_epoch_parking = insert_if key receipt.previous_epoch self.previous_epoch_parking;
  current_disabled_slots =
      insert_some key receipt.current_disabled_slots self.current_disabled_slots;
  previous_disabled_slots =
      insert_some key receipt.previous_disabled_slots self.previous_disabled_slots;
}

-- The loop of `drop_validator` over the stakes of the validator.
unfoldable pub retire_all :
    ℕ → Map Coin → Map RetirementReceipt → Action StakingContract (Map RetirementReceipt)
retire_all retire_time [] receipts = pure receipts
retire_all retire_time ((staker_address, stake) ∷ stakes) receipts = do
  receipt ← retire_recipient staker_address stake (some retire_time)
  retire_all retire_time stakes
      (insert staker_address (record { stake = stake; inactive_stake_receipt = receipt }) receipts)

abbrev pub no_unpark : UnparkReceipt
no_unpark = record {
  current_epoch = false;
  previous_epoch = false;
  current_disabled_slots = none;
  previous_disabled_slots = none;
}

-- The validator is unparked if it is parked, so that this cannot fail.
unfoldable pub unpark_if_parked : BlsPublicKey → Action StakingContract UnparkReceipt
unpark_if_parked key self =
    (if is_parked key self then unpark_validator key else pure no_unpark) self

-- `drop_validator` from the loop on.
unfoldable pub retire_stakers :
    BlsPublicKey → InactiveValidator → Action StakingContract DropValidatorReceipt
retire_stakers validator_key i = do
  retirement_by_address ← retire_all i.retire_time i.validator.active_stake_by_address []
  unpark_receipt ← unpark_if_parked validator_key
  pure (record {
    reward_address = i.validator.reward_address;
    retirement_by_address = retirement_by_address;
    retire_time = i.retire_time;
    unpark_receipt = unpark_receipt;
  })

unfoldable pub drop_validator : BlsPublicKey → Coin → Action StakingContract DropValidatorReceipt
drop_validator validator_key _ = do
  self ← get_self
  i ← unwrap (get validator_key self.inactive_validators_by_key)
  modify (drop_retired validator_key)
  balance ← lift (balance_sub self.balance i.validator.balance)
  modify (set_balance balance)
  retire_stakers validator_key i

-- The loop of `revert_drop_validator` over the receipts: the stakes and the total.
unfoldable pub unretire_all :
    Map RetirementReceipt → Map Coin → Coin → Action StakingContract (Map Coin × Coin)
unretire_all [] stakes total_value = pure (stakes, total_value)
unretire_all ((staker_address, receipt) ∷ receipts) stakes total_value = do
  revert_retire_recipient staker_address receipt.stake receipt.inactive_stake_receipt
  unretire_all receipts (insert staker_address receipt.stake stakes) (add total_value receipt.stake)

unfoldable pub revert_drop_validator :
    BlsPublicKey → Coin → DropValidatorReceipt → Action StakingContract (Unit {0})
revert_drop_validator validator_key value receipt = do
  self ← get_self
  restored ← unretire_all receipt.retirement_by_address [] value
  current ← gets (λ s. s.balance)
  balance ← lift (balance_add current restored.1)
  modify (set_balance balance)
  revert_unpark_validator validator_key receipt.unpark_receipt
  modify (
      put_retired validator_key (record {
        validator = record {
          balance = restored.1;
          reward_address = receipt.reward_address;
          validator_key = validator_key;
          active_stake_by_address = restored.0;
        };
        retire_time = receipt.retire_time;
      }))
