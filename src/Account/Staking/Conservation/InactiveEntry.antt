-- ===== src/Account/Staking/Conservation/InactiveEntry.antt =====
-- The entry of an address among the inactive stakes is set, replaced or taken out together with the
-- contract's balance: the invariant stays.
use nimiq_core_rs_albatross.Base.{ℕ, ◌+◌, ◌≤◌, ◌≡◌, [], some, arith}
use nimiq_core_rs_albatross.Primitives.Coin.{max_safe_value}
use nimiq_core_rs_albatross.Collections.Map.{get, insert, remove}
use nimiq_core_rs_albatross.Collections.Map.Order.{
  insert-IsSorted, remove-IsSorted, get-remove_self,
}
use nimiq_core_rs_albatross.Collections.Map.Sum.{weight_of, sum-insert, sum-remove, weight-le-sum}
use nimiq_core_rs_albatross.Account.Staking.State.{Address, InactiveStake, StakingContract}
use nimiq_core_rs_albatross.Account.Staking.Invariant.{Inv, inactive_coins}
use nimiq_core_rs_albatross.Account.Staking.Invariant.Swap.{exchange_inactive-Inv}

module _ (s : StakingContract) (i : Inv s) (a : Address) where
  -- An inactive stake holds at most what the contract holds.
  pub inactive_balance_le :
      (st : InactiveStake) → get a s.inactive_stake_by_address ≡ some st → st.balance ≤ s.balance
  inactive_balance_le st e =
      ground (arith, i.balanced, weight-le-sum inactive_coins a s.inactive_stake_by_address)

  -- The stake of `a` becomes `new`, where it was worth `old`.
  pub put-Inv :
      (balance plus minus : ℕ) (new : InactiveStake)
      → new.balance + minus ≡ weight_of inactive_coins (get a s.inactive_stake_by_address) + plus
      → balance + minus ≡ s.balance + plus
      → balance ≤ max_safe_value
      → Inv (record s {
        balance = balance;
        inactive_stake_by_address = insert a new s.inactive_stake_by_address;
      })
  put-Inv balance plus minus new moved total r =
      let m = s.inactive_stake_by_address in
      exchange_inactive-Inv s i 0 balance plus minus [] (insert a new m)
        (insert-IsSorted a new m i.inactive_sorted)
        (omega (arith, sum-insert inactive_coins a new m i.inactive_sorted)) total r

  pub replace-Inv :
      (balance plus minus : ℕ) (new : InactiveStake)
      → new.balance + minus ≡ weight_of inactive_coins (get a s.inactive_stake_by_address) + plus
      → balance + minus ≡ s.balance + plus
      → balance ≤ max_safe_value
      → Inv (record s {
        balance = balance;
        inactive_stake_by_address = insert a new (remove a s.inactive_stake_by_address);
      })
  replace-Inv balance plus minus new moved total r =
      let m = s.inactive_stake_by_address in
      exchange_inactive-Inv s i 0 balance plus minus [] (insert a new (remove a m))
        (insert-IsSorted a new (remove a m) (remove-IsSorted a m i.inactive_sorted))
        (ground (
          arith,
          sum-insert inactive_coins a new (remove a m) (remove-IsSorted a m i.inactive_sorted),
          sum-remove inactive_coins a m,
          get-remove_self a m i.inactive_sorted,
        ))
        total r

  pub take-Inv :
      (balance plus minus : ℕ)
      → minus ≡ weight_of inactive_coins (get a s.inactive_stake_by_address) + plus
      → balance + minus ≡ s.balance + plus
      → balance ≤ max_safe_value
      → Inv (record s {
        balance = balance;
        inactive_stake_by_address = remove a s.inactive_stake_by_address;
      })
  take-Inv balance plus minus moved total r =
      let m = s.inactive_stake_by_address in
      exchange_inactive-Inv s i 0 balance plus minus [] (remove a m)
        (remove-IsSorted a m i.inactive_sorted) (omega (arith, sum-remove inactive_coins a m)) total
        r
