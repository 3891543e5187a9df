-- ===== src/Account/Staking/Entry.antt =====
-- primitives/account/src/staking_contract/validator.rs: the stakes of one validator, and the entry
-- by which the contract takes a validator out, tries to change it and puts it back. The stakes
-- stand behind a lock, so `add_stake` and `sub_stake` change the validator that they are called on
-- and return a new one.
use nimiq_core_rs_albatross.Base.{Option, some, if◌then◌else◌, unwrap_or}
use nimiq_core_rs_albatross.Primitives.Coin.{Coin, is_zero, add}
use nimiq_core_rs_albatross.Collections.Map.{empty, get, insert, remove}
use nimiq_core_rs_albatross.Account.Outcome.{
  AccountError, Outcome, ok, err, panic, Action, pure, lift, or_raise, modify, get_self, ◌>>=◌,
  ◌>>◌,
}
use nimiq_core_rs_albatross.Account.Balance.{balance_add, balance_sub}
use nimiq_core_rs_albatross.Account.Staking.State.{
  Address, BlsPublicKey, Validator, InactiveValidator,
}

-- `Validator::new`
unfoldable pub new_validator : Coin → Address → BlsPublicKey → Validator
new_validator initial_balance reward_address validator_key = record {
  balance = initial_balance;
  reward_address = reward_address;
  validator_key = validator_key;
  active_stake_by_address = empty;
}

-- `mem::take` leaves the old validator without stakes.
unfoldable pub with_balance : Coin → Action Validator Validator
with_balance balance v =
    (ok (record v { balance = balance }), record v { active_stake_by_address = empty })

-- `Validator::update_validator`
unfoldable pub update_validator_fields :
    Option Address → Option BlsPublicKey → Action Validator Validator
update_validator_fields new_reward_address new_validator_key v = (
  ok (record v {
    reward_address = unwrap_or new_reward_address v.reward_address;
    validator_key = unwrap_or new_validator_key v.validator_key;
  }),
  record v { active_stake_by_address = empty },
)

unfoldable pub add_stake : Address → Coin → Action Validator Validator
unfolding with_balance
add_stake staker_address stake = do
  self ← get_self
  new_balance ← lift (balance_add self.balance stake)
  validator ← with_balance new_balance
  pure (record validator {
    active_stake_by_address =
        insert staker_address
          (add (unwrap_or (get staker_address validator.active_stake_by_address) 0) stake)
          validator.active_stake_by_address;
  })

unfoldable pub sub_stake : Address → Coin → AccountError → Action Validator Validator
unfolding with_balance is_zero
sub_stake staker_address value not_present_error = do
  self ← get_self
  stake ← or_raise (get staker_address self.active_stake_by_address) not_present_error
  left ← lift (balance_sub stake value)
  modify (λ v. record v {
    active_stake_by_address =
        if is_zero left
        then remove staker_address v.active_stake_by_address
        else insert staker_address left v.active_stake_by_address;
  })
  new_balance ← lift (balance_sub self.balance value)
  with_balance new_balance

pub data ValidatorEntry : Type 0 where
  active : Validator → Option AccountError → ValidatorEntry
  inactive : InactiveValidator → Option AccountError → ValidatorEntry

unfoldable pub as_validator : ValidatorEntry → Validator
as_validator (active validator error) = validator
as_validator (inactive entry error) = entry.validator

-- The first two clauses of `replace`: the new validator; it also writes what a method left behind.
unfoldable pub with_validator : ValidatorEntry → Validator → ValidatorEntry
with_validator (active _ error) v = active v error
with_validator (inactive entry error) v = inactive (record entry { validator = v }) error

unfoldable pub with_error : ValidatorEntry → AccountError → ValidatorEntry
with_error (active v _) e = active v (some e)
with_error (inactive entry _) e = inactive entry (some e)

-- `ValidatorEntry::replace`; a validator's methods do not panic.
unfoldable pub replace : ValidatorEntry → Outcome Validator × Validator → ValidatorEntry
unfolding with_validator with_error
replace entry (ok new_validator, old) = with_validator entry new_validator
replace entry (err e, old) = with_error (with_validator entry old) e
replace entry (panic, old) = with_validator entry old

unfoldable pub update_entry : ValidatorEntry → Option Address → Option BlsPublicKey → ValidatorEntry
unfolding replace as_validator update_validator_fields
update_entry entry new_reward_address new_validator_key =
    replace entry
      (update_validator_fields new_reward_address new_validator_key (as_validator entry))

unfoldable pub try_add_stake : ValidatorEntry → Address → Coin → ValidatorEntry
unfolding replace as_validator add_stake
try_add_stake entry staker_address stake =
    replace entry (add_stake staker_address stake (as_validator entry))

unfoldable pub try_sub_stake : ValidatorEntry → Address → Coin → AccountError → ValidatorEntry
unfolding replace as_validator sub_stake
try_sub_stake entry staker_address value not_present_error =
    replace entry (sub_stake staker_address value not_present_error (as_validator entry))
