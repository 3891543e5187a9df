-- ===== src/Account/Staking/Invariant.antt =====
-- The invariant of the staking contract: its maps are in order, every validator stands under its
-- own key and in one of the two maps, holds at least the stakes delegated to it, and the balance of
-- the contract is what the validators and the inactive stakes hold.
pub mod Stakes
pub mod Swap
use nimiq_core_rs_albatross.Base.{ℕ, ◌+◌, ◌≤◌, ◌≡◌, Option, none, some}
use nimiq_core_rs_albatross.Primitives.Coin.{Coin, max_safe_value}
use nimiq_core_rs_albatross.Collections.Map.{Map, get}
use nimiq_core_rs_albatross.Collections.Map.Order.{IsSorted}
use nimiq_core_rs_albatross.Collections.Map.Sum.{sum}
use nimiq_core_rs_albatross.Collections.Map.Entries.{AllEntries}
use nimiq_core_rs_albatross.Account.Outcome.{Outcome, ok, err, panic}
use nimiq_core_rs_albatross.Account.Staking.State.{
  Validator, InactiveValidator, InactiveStake, StakingContract,
}

abbrev pub own_coins : Coin → ℕ
own_coins c = c

abbrev pub validator_coins : Validator → ℕ
validator_coins v = v.balance

abbrev pub retired_coins : InactiveValidator → ℕ
retired_coins i = i.validator.balance

abbrev pub inactive_coins : InactiveStake → ℕ
inactive_coins i = i.balance

pub record IsFunded (k : ℕ) (v : Validator) : Type 0 where
  pub own_key : v.validator_key ≡ k
  pub stakes_sorted : IsSorted v.active_stake_by_address
  pub covered : sum own_coins v.active_stake_by_address ≤ v.balance

abbrev pub IsRetiredFunded : ℕ → InactiveValidator → Type 0
IsRetiredFunded k i = IsFunded k i.validator

-- All coins that the contract holds for somebody.
abbrev pub holdings : StakingContract → ℕ
holdings s =
    sum validator_coins s.active_validators_by_key
    + sum retired_coins s.inactive_validators_by_key
    + sum inactive_coins s.inactive_stake_by_address

pub record Inv (s : StakingContract) : Type 0 where
  pub active_sorted : IsSorted s.active_validators_by_key
  pub retired_sorted : IsSorted s.inactive_validators_by_key
  pub inactive_sorted : IsSorted s.inactive_stake_by_address
  pub active_funded : AllEntries IsFunded s.active_validators_by_key
  pub retired_funded : AllEntries IsRetiredFunded s.inactive_validators_by_key
  pub disjoint :
      (k : ℕ) (v : Validator)
      → get k s.active_validators_by_key ≡ some v
      → get k s.inactive_validators_by_key ≡ none
  pub balanced : s.balance ≡ holdings s
  pub in_range : s.balance ≤ max_safe_value

-- What a call that began at `s` has done: if it succeeds, the invariant holds and the balance has
-- grown by `plus` and shrunk by `minus`; it does not panic.
abbrev pub Settles : {A : Type 0} → ℕ → ℕ → StakingContract → Outcome A × StakingContract → Type 0
Settles plus minus s (ok _, s') = Inv s' × (s'.balance + minus ≡ s.balance + plus)
Settles plus minus s (err _, s') = Unit
Settles plus minus s (panic, s') = ⊥
