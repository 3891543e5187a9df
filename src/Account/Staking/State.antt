-- ===== src/Account/Staking/State.antt =====
-- primitives/account/src/staking_contract/{mod.rs, validator.rs}: the contract's state. Addresses
-- (20 bytes) and BLS keys (285 bytes) are only compared, as big-endian numbers; a map is in the
-- order of its keys. A validator is reached through an Arc from two containers; both hold the same
-- value here. A BitSet of slots is the set of its members.
use nimiq_core_rs_albatross.Base.{ℕ, List, [], ◌∷◌, compare, Ordering}
use nimiq_core_rs_albatross.Primitives.Coin.{Coin}
use nimiq_core_rs_albatross.Collections.Map.{Map, KeySet}

abbrev pub Address : Type 0
Address = ℕ

abbrev pub BlsPublicKey : Type 0
BlsPublicKey = ℕ

abbrev pub SlotSet : Type 0
SlotSet = KeySet

pub record Validator : Type 0 where
  pub balance : Coin
  pub reward_address : Address
  pub validator_key : BlsPublicKey
  pub active_stake_by_address : Map Coin

pub record InactiveValidator : Type 0 where
  pub validator : Validator
  pub retire_time : ℕ

pub record InactiveStake : Type 0 where
  pub balance : Coin
  pub retire_time : ℕ

-- `Ord for Validator`: highest to lowest balances, then by the key.
abbrev then_with : Ordering → Ordering → Ordering
then_with Ordering.eq o = o
then_with Ordering.lt o = Ordering.lt
then_with Ordering.gt o = Ordering.gt

unfoldable pub cmp : Validator → Validator → Ordering
cmp a b = then_with (compare b.balance a.balance) (compare a.validator_key b.validator_key)

-- `BTreeSet<Arc<Validator>>`, in ascending order. An insertion keeps an equal element.
unfoldable pub sorted_insert : Validator → List Validator → List Validator
unfolding cmp
sorted_insert v [] = v ∷ []
sorted_insert v (u ∷ us) =
    let rest = sorted_insert v us in
    elim (cmp v u) [ Ordering.lt ↦ v ∷ u ∷ us | Ordering.eq ↦ u ∷ us | Ordering.gt ↦ u ∷ rest ]

unfoldable pub sorted_remove : Validator → List Validator → List Validator
unfolding cmp
sorted_remove v [] = []
sorted_remove v (u ∷ us) =
    let rest = sorted_remove v us in
    elim (cmp v u) [ Ordering.lt ↦ u ∷ us | Ordering.eq ↦ us | Ordering.gt ↦ u ∷ rest ]

pub record StakingContract : Type 0 where
  pub balance : Coin
  pub active_validators_sorted : List Validator
  pub active_validators_by_key : Map Validator
  pub inactive_stake_by_address : Map InactiveStake
  pub inactive_validators_by_key : Map InactiveValidator
  pub current_epoch_parking : KeySet
  pub previous_epoch_parking : KeySet
  pub current_lost_rewards : SlotSet
  pub previous_lost_rewards : SlotSet
  pub current_disabled_slots : Map SlotSet
  pub previous_disabled_slots : Map SlotSet

-- `Default for StakingContract`
unfoldable pub default_contract : StakingContract
default_contract = record {
  balance = 0;
  active_validators_sorted = [];
  active_validators_by_key = [];
  inactive_stake_by_address = [];
  inactive_validators_by_key = [];
  current_epoch_parking = [];
  previous_epoch_parking = [];
  current_lost_rewards = [];
  previous_lost_rewards = [];
  current_disabled_slots = [];
  previous_disabled_slots = [];
}
