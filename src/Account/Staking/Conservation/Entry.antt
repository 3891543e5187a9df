-- ===== src/Account/Staking/Conservation/Entry.antt =====
-- The course that the operations on active stake share: a validator is taken out, changed, put back,
-- and the balance set.
use nimiq_core_rs_albatross.Base.{
  ℕ, ◌+◌, ◌≤◌, ◌≡◌, sym, subst, [], Option, none, some, arith, inl, inr, Option-cases,
}
use nimiq_core_rs_albatross.Primitives.Coin.{Coin, max_safe_value}
use nimiq_core_rs_albatross.Collections.Map.{get, remove}
use nimiq_core_rs_albatross.Collections.Map.Sum.{weight-le-sum}
use nimiq_core_rs_albatross.Collections.Map.Entries.{get-AllEntries}
use nimiq_core_rs_albatross.Account.Outcome.{
  AccountError, Outcome, ok, err, panic, Action, or_raise, modify, ◌>>=◌, ◌>>◌,
}
use nimiq_core_rs_albatross.Account.Staking.State.{
  BlsPublicKey, Validator, InactiveValidator, StakingContract, sorted_remove,
}
use nimiq_core_rs_albatross.Account.Staking.Entry.{
  ValidatorEntry, active, inactive, replace, as_validator,
}
use nimiq_core_rs_albatross.Account.Staking.Contract.{remove_validator, restore_validator}
use nimiq_core_rs_albatross.Account.Staking.Staker.{set_balance}
use nimiq_core_rs_albatross.Account.Staking.Invariant.{
  Inv, IsFunded, IsRetiredFunded, Settles, validator_coins, retired_coins,
}
use nimiq_core_rs_albatross.Account.Staking.Invariant.Stakes.{Moves}
use nimiq_core_rs_albatross.Account.Staking.Invariant.Swap.{
  exchange_active_key-Inv, exchange_retired_key-Inv,
}

abbrev pub resume :
    AccountError
    → Action Validator Validator
    → Coin
    → Outcome (Option ValidatorEntry) × StakingContract
    → Outcome (Unit {0}) × StakingContract
resume e update balance (removed, s) =
    ◌>>=◌ (λ s'. (removed, s'))
      (λ o. do
        entry ← or_raise o e
        restore_validator (replace entry (update (as_validator entry)))
        modify (set_balance balance))
      s

abbrev pub change_validator :
    BlsPublicKey
    → AccountError
    → Action Validator Validator
    → Coin
    → Action StakingContract (Unit {0})
change_validator key e update balance s = resume e update balance (remove_validator key s)

-- The contract after `remove_validator`.
abbrev pub without_active : BlsPublicKey → Validator → StakingContract → StakingContract
without_active k v s = record s {
  active_validators_by_key = remove k s.active_validators_by_key;
  active_validators_sorted = sorted_remove v s.active_validators_sorted;
}

abbrev pub without_retired : BlsPublicKey → StakingContract → StakingContract
without_retired k s = record s {
  inactive_validators_by_key = remove k s.inactive_validators_by_key;
}

-- The three results of `remove_validator`.
pub remove_validator_active :
    (k : ℕ) (v : Validator) (s : StakingContract)
    → get k s.active_validators_by_key ≡ some v
    → remove_validator k s ≡ (ok (some (active v none)), without_active k v s)
unfolding remove_validator
remove_validator_active k v s found = ground arith

pub remove_validator_retired :
    (k : ℕ) (v : InactiveValidator) (s : StakingContract)
    → get k s.active_validators_by_key ≡ none
    → get k s.inactive_validators_by_key ≡ some v
    → remove_validator k s ≡ (ok (some (inactive v none)), without_retired k s)
unfolding remove_validator
remove_validator_retired k v s free found = ground arith

pub remove_validator_absent :
    (k : ℕ) (s : StakingContract)
    → get k s.active_validators_by_key ≡ none
    → get k s.inactive_validators_by_key ≡ none
    → remove_validator k s ≡ (ok none, s)
unfolding remove_validator
remove_validator_absent k s free absent = ground arith

module _ (s : StakingContract) (i : Inv s) where
  pub get_active-IsFunded :
      (k : ℕ) (v : Validator) → get k s.active_validators_by_key ≡ some v → IsFunded k v
  get_active-IsFunded k v e =
      get-AllEntries IsFunded k v s.active_validators_by_key i.active_funded e

  pub get_retired-IsFunded :
      (k : ℕ) (v : InactiveValidator)
      → get k s.inactive_validators_by_key ≡ some v
      → IsFunded k v.validator
  get_retired-IsFunded k v e =
      get-AllEntries IsRetiredFunded k v s.inactive_validators_by_key i.retired_funded e

  pub active_balance_le :
      (k : ℕ) (v : Validator) → get k s.active_validators_by_key ≡ some v → v.balance ≤ s.balance
  active_balance_le k v e =
      ground (arith, i.balanced, weight-le-sum validator_coins k s.active_validators_by_key)

  pub retired_balance_le :
      (k : ℕ) (v : InactiveValidator)
      → get k s.inactive_validators_by_key ≡ some v
      → v.validator.balance ≤ s.balance
  retired_balance_le k v e =
      ground (arith, i.balanced, weight-le-sum retired_coins k s.inactive_validators_by_key)

  -- What stands behind `remove_validator`, with the validator's new state given.
  abbrev finish :
      ValidatorEntry → Outcome Validator × Validator → Coin → Action StakingContract (Unit {0})
  finish entry r balance = do restore_validator (replace entry r); modify (set_balance balance)

  finish_active-Settles :
      (k plus minus balance : ℕ) (v : Validator) (r : Outcome Validator × Validator)
      → get k s.active_validators_by_key ≡ some v
      → Moves plus minus k v r
      → balance + minus ≡ s.balance + plus
      → balance ≤ max_safe_value
      → Settles plus minus s (finish (active v none) r balance (without_active k v s))
  unfolding restore_validator replace
  finish_active-Settles k plus minus balance v (ok v', old) found m total bound = (
    exchange_active_key-Inv s i k balance plus minus _ v'.validator_key v v' m.0.own_key found m.0
        m.1 total bound,
    total,
  )
  finish_active-Settles k plus minus balance v (err e, old) found m total bound = tt
  finish_active-Settles k plus minus balance v (panic, old) found m total bound = elim m [ ]

  finish_retired-Settles :
      (k plus minus balance : ℕ) (v : InactiveValidator) (r : Outcome Validator × Validator)
      → get k s.inactive_validators_by_key ≡ some v
      → get k s.active_validators_by_key ≡ none
      → Moves plus minus k v.validator r
      → balance + minus ≡ s.balance + plus
      → balance ≤ max_safe_value
      → Settles plus minus s (finish (inactive v none) r balance (without_retired k s))
  unfolding restore_validator replace
  finish_retired-Settles k plus minus balance v (ok v', old) found free m total bound = (
    exchange_retired_key-Inv s i k balance plus minus [] v'.validator_key v
        (record v { validator = v' }) m.0.own_key found m.0 m.1 total bound free,
    total,
  )
  finish_retired-Settles k plus minus balance v (err e, old) found free m total bound = tt
  finish_retired-Settles k plus minus balance v (panic, old) found free m total bound = elim m [ ]

  -- A change of a funded validator is a change of the contract.
  pub change_validator-Settles :
      (k plus minus balance : ℕ) (e : AccountError) (update : Action Validator Validator)
      → ((v : Validator)
          → IsFunded k v
          → v.balance ≤ max_safe_value
          → Moves plus minus k v (update v))
      → balance + minus ≡ s.balance + plus
      → balance ≤ max_safe_value
      → Settles plus minus s (change_validator k e update balance s)
  unfolding as_validator
  change_validator-Settles k plus minus balance e update moves total bound =
      let Goal = λ (p : Outcome (Option ValidatorEntry) × StakingContract).
        Settles plus minus s (resume e update balance p) in
      elim (Option-cases (get k s.active_validators_by_key)) [
        | inr (v, found) ↦ subst Goal (sym (remove_validator_active k v s found)) (
            finish_active-Settles k plus minus balance v (update v) found
              (moves v (get_active-IsFunded k v found)
                (omega (arith, active_balance_le k v found, i.in_range)))
              total bound)
        | inl free ↦ elim (Option-cases (get k s.inactive_validators_by_key)) [
          | inr (v, found) ↦ subst Goal (sym (remove_validator_retired k v s free found)) (
              finish_retired-Settles k plus minus balance v (update v.validator) found free
                (moves v.validator (get_retired-IsFunded k v found)
                  (omega (arith, retired_balance_le k v found, i.in_range)))
                total bound)
          | inl absent ↦ subst Goal (sym (remove_validator_absent k s free absent)) tt
        ]
      ]
