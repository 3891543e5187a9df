-- ===== src/Account/Staking/Contract.antt =====
-- primitives/account/src/staking_contract/mod.rs: looking up a validator, taking it out of the
-- contract and putting it back, and the sets of disabled slots.
use nimiq_core_rs_albatross.Base.{Option, none, some, [], ◌∷◌}
use nimiq_core_rs_albatross.Primitives.Coin.{Coin}
use nimiq_core_rs_albatross.Collections.Map.{Map, get, insert, remove}
use nimiq_core_rs_albatross.Account.Outcome.{AccountError, Outcome, ok, err, Action}
use nimiq_core_rs_albatross.Account.Staking.State.{
  Address, BlsPublicKey, Validator, StakingContract, SlotSet, sorted_insert, sorted_remove,
}
use nimiq_core_rs_albatross.Account.Staking.Entry.{ValidatorEntry, active, inactive}

unfoldable pub get_validator : BlsPublicKey → StakingContract → Option Validator
unfolding get
get_validator key self = elim (get key self.active_validators_by_key) [
  | some v ↦ some v
  | none ↦ elim (get key self.inactive_validators_by_key) [
    | some i ↦ some i.validator
    | none ↦ none
  ]
]

unfoldable pub get_active_stake : BlsPublicKey → Address → StakingContract → Option Coin
unfolding get
get_active_stake key staker_address self = elim (get key self.active_validators_by_key) [
  | none ↦ none
  | some v ↦ get staker_address v.active_stake_by_address
]

unfoldable pub remove_validator : BlsPublicKey → Action StakingContract (Option ValidatorEntry)
remove_validator key self = elim (get key self.active_validators_by_key) [
  | some v ↦ (
    ok (some (active v none)),
    record self {
      active_validators_by_key = remove key self.active_validators_by_key;
      active_validators_sorted = sorted_remove v self.active_validators_sorted;
    },
  )
  | none ↦ elim (get key self.inactive_validators_by_key) [
    | some i ↦ (
      ok (some (inactive i none)),
      record self { inactive_validators_by_key = remove key self.inactive_validators_by_key },
    )
    | none ↦ (ok none, self)
  ]
]

-- `error.map(Err).unwrap_or(Ok(()))`
abbrev deferred : Option AccountError → Outcome (Unit {0})
deferred none = ok tt
deferred (some e) = err e

unfoldable pub restore_validator : ValidatorEntry → Action StakingContract (Unit {0})
restore_validator (active v error) self = (
  deferred error,
  record self {
    active_validators_sorted = sorted_insert v self.active_validators_sorted;
    active_validators_by_key = insert v.validator_key v self.active_validators_by_key;
  },
)
restore_validator (inactive i error) self = (
  deferred error,
  record self {
    inactive_validators_by_key = insert i.validator.validator_key i self.inactive_validators_by_key;
  },
)

abbrev insert_slots : SlotSet → SlotSet → SlotSet
unfolding insert
insert_slots acc [] = acc
insert_slots acc ((slot, _) ∷ slots) = insert_slots (insert slot tt acc) slots

unfoldable pub union_slots : SlotSet → Map SlotSet → SlotSet
unfolding insert
union_slots acc [] = acc
union_slots acc ((_, slots) ∷ rest) = union_slots (insert_slots acc slots) rest

-- `StakingContract::previous_disabled_slots` and `current_disabled_slots`, the methods
unfoldable pub previous_disabled_slot_set : StakingContract → SlotSet
unfolding union_slots
previous_disabled_slot_set self = union_slots [] self.previous_disabled_slots

unfoldable pub current_disabled_slot_set : StakingContract → SlotSet
unfolding union_slots
current_disabled_slot_set self = union_slots [] self.current_disabled_slots
