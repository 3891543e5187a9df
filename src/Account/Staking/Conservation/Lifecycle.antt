-- ===== src/Account/Staking/Conservation/Lifecycle.antt =====
-- Creating, retiring, re-activating and unparking a validator: each keeps the invariant and moves
-- the contract's balance by its value.
use nimiq_core_rs_albatross.Base.{ℕ, ◌+◌, ◌≤◌, ◌≡◌, sym, subst, none, some, arith}
use nimiq_core_rs_albatross.Primitives.Coin.{max_safe_value}
use nimiq_core_rs_albatross.Collections.Map.{get}
use nimiq_core_rs_albatross.Collections.Map.Order.{IsSorted, insert-IsSorted, remove-IsSorted}
use nimiq_core_rs_albatross.Collections.Map.Sum.{sum-insert, sum-remove}
use nimiq_core_rs_albatross.Collections.Map.Entries.{insert-AllEntries, remove-AllEntries}
use nimiq_core_rs_albatross.Account.Staking.State.{Validator, InactiveValidator, StakingContract}
use nimiq_core_rs_albatross.Account.Staking.Staker.{set_balance}
use nimiq_core_rs_albatross.Account.Staking.Lifecycle.{
  put_active, put_retired, drop_active_key, drop_active_sorted, drop_retired,
}
use nimiq_core_rs_albatross.Account.Staking.Invariant.{
  Inv, IsFunded, IsRetiredFunded, validator_coins, retired_coins,
}
use nimiq_core_rs_albatross.Account.Staking.Invariant.Swap.{
  insert-Apart_left, insert-Apart_right, remove-Apart_left, remove-Apart_right,
}

module _ (s : StakingContract) (i : Inv s) (k balance : ℕ) where
  -- A funded validator comes in under a key that is free.
  pub enter_active-Inv :
      (v : Validator)
      → get k s.active_validators_by_key ≡ none
      → get k s.inactive_validators_by_key ≡ none
      → IsFunded k v
      → balance ≡ s.balance + v.balance
      → balance ≤ max_safe_value
      → Inv (set_balance balance (put_active k v s))
  enter_active-Inv v free free' f total r =
      let m = s.active_validators_by_key in
      record {
        active_sorted = insert-IsSorted k v m i.active_sorted;
        retired_sorted = i.retired_sorted;
        inactive_sorted = i.inactive_sorted;
        active_funded = insert-AllEntries IsFunded k v m f i.active_funded;
        retired_funded = i.retired_funded;
        disjoint = insert-Apart_left m s.inactive_validators_by_key i.disjoint k v free';
        balanced = ground (arith, i.balanced, sum-insert validator_coins k v m i.active_sorted);
        in_range = r;
      }

  pub enter_retired-Inv :
      (v : InactiveValidator)
      → get k s.active_validators_by_key ≡ none
      → get k s.inactive_validators_by_key ≡ none
      → IsFunded k v.validator
      → balance ≡ s.balance + v.validator.balance
      → balance ≤ max_safe_value
      → Inv (set_balance balance (put_retired k v s))
  enter_retired-Inv v free free' f total r =
      let m = s.inactive_validators_by_key in
      record {
        active_sorted = i.active_sorted;
        retired_sorted = insert-IsSorted k v m i.retired_sorted;
        inactive_sorted = i.inactive_sorted;
        active_funded = i.active_funded;
        retired_funded = insert-AllEntries IsRetiredFunded k v m f i.retired_funded;
        disjoint = insert-Apart_right s.active_validators_by_key m i.disjoint k v free;
        balanced = ground (arith, i.balanced, sum-insert retired_coins k v m i.retired_sorted);
        in_range = r;
      }

  -- A validator goes out, with what it holds.
  pub leave_active-Inv :
      (v u : Validator)
      → get k s.active_validators_by_key ≡ some v
      → balance + v.balance ≡ s.balance
      → Inv (set_balance balance (drop_active_sorted u (drop_active_key k s)))
  leave_active-Inv v u found total =
      let m = s.active_validators_by_key in
      record {
        active_sorted = remove-IsSorted k m i.active_sorted;
        retired_sorted = i.retired_sorted;
        inactive_sorted = i.inactive_sorted;
        active_funded = remove-AllEntries IsFunded k m i.active_funded;
        retired_funded = i.retired_funded;
        disjoint = remove-Apart_left m s.inactive_validators_by_key i.disjoint k i.active_sorted;
        balanced = ground (arith, i.balanced, sum-remove validator_coins k m);
        in_range = omega (arith, i.in_range);
      }

  pub leave_retired-Inv :
      (v : InactiveValidator)
      → get k s.inactive_validators_by_key ≡ some v
      → balance + v.validator.balance ≡ s.balance
      → Inv (set_balance balance (drop_retired k s))
  leave_retired-Inv v found total =
      let m = s.inactive_validators_by_key in
      record {
        active_sorted = i.active_sorted;
        retired_sorted = remove-IsSorted k m i.retired_sorted;
        inactive_sorted = i.inactive_sorted;
        active_funded = i.active_funded;
        retired_funded = remove-AllEntries IsRetiredFunded k m i.retired_funded;
        disjoint = remove-Apart_right s.active_validators_by_key m i.disjoint k i.retired_sorted;
        balanced = ground (arith, i.balanced, sum-remove retired_coins k m);
        in_range = omega (arith, i.in_range);
      }

-- The invariant does not look at the parking lists, the slots and the order of the validators.
pub other_fields-Inv :
    (s s' : StakingContract)
    → s'.balance ≡ s.balance
    → s'.active_validators_by_key ≡ s.active_validators_by_key
    → s'.inactive_validators_by_key ≡ s.inactive_validators_by_key
    → s'.inactive_stake_by_address ≡ s.inactive_stake_by_address
    → Inv s
    → Inv s'
other_fields-Inv s s' b a r t i = record {
  active_sorted = subst IsSorted (sym a) i.active_sorted;
  retired_sorted = subst IsSorted (sym r) i.retired_sorted;
  inactive_sorted = subst IsSorted (sym t) i.inactive_sorted;
  active_funded = rw a i.active_funded;
  retired_funded = rw r i.retired_funded;
  disjoint = rw (a, r) i.disjoint;
  balanced = rw (b, a, r, t) i.balanced;
  in_range = rw b i.in_range;
}
