-- ===== src/Account/Staking/Invariant/Swap.antt =====
-- The invariant when one validator or one inactive stake of the contract is exchanged, enters or
-- leaves, and the balance moves with it. The sorted list of the active validators is free here.
use nimiq_core_rs_albatross.Base.{ℕ, ◌+◌, ◌≤◌, ◌≡◌, none, some, List, arith}
use nimiq_core_rs_albatross.Primitives.Coin.{max_safe_value}
use nimiq_core_rs_albatross.Collections.Map.{Map, get, insert, remove}
use nimiq_core_rs_albatross.Collections.Map.Order.{
  IsSorted, insert-IsSorted, remove-IsSorted, get-insert, get-remove_ne, get-remove_self,
}
use nimiq_core_rs_albatross.Collections.Map.Sum.{sum, weight_of, sum-insert, sum-remove}
use nimiq_core_rs_albatross.Collections.Map.Entries.{
  AllEntries, insert-AllEntries, remove-AllEntries,
}
use nimiq_core_rs_albatross.Account.Staking.State.{
  Validator, InactiveValidator, InactiveStake, StakingContract,
}
use nimiq_core_rs_albatross.Account.Staking.Invariant.{
  Inv, IsFunded, IsRetiredFunded, validator_coins, retired_coins, inactive_coins,
}

-- No key of `m` is a key of `n`.
abbrev pub Apart : {V W : Type 0} → Map V → Map W → Type 0
Apart {V} m n = (k : ℕ) (v : V) → get k m ≡ some v → get k n ≡ none

module _ {V W : Type 0} (m : Map V) (n : Map W) (h : Apart m n) where
  pub remove-Apart_left : (k : ℕ) → IsSorted m → Apart (remove k m) n
  remove-Apart_left k s j v e = ground (arith, h j v, get-remove_ne j k m, get-remove_self k m s)

  pub remove-Apart_right : (k : ℕ) → IsSorted n → Apart m (remove k n)
  remove-Apart_right k s j v e = ground (arith, h j v e, get-remove_ne j k n, get-remove_self k n s)

  pub insert-Apart_left : (k : ℕ) (u : V) → get k n ≡ none → Apart (insert k u m) n
  insert-Apart_left k u free j v e = ground (arith, h j v, get-insert j k u m)

  pub insert-Apart_right : (k : ℕ) (u : W) → get k m ≡ none → Apart m (insert k u n)
  insert-Apart_right k u free j v e = ground (arith, h j v e, get-insert j k u n)

-- A validator's entry is exchanged for another under the same key.
module _ {ℓ} {V : Type ℓ} (P : ℕ → V → Type 0) (w : V → ℕ) (k : ℕ) (v' : V) (m : Map V) where
  pub exchange-IsSorted : IsSorted m → IsSorted (insert k v' (remove k m))
  exchange-IsSorted s = insert-IsSorted k v' (remove k m) (remove-IsSorted k m s)

  pub exchange-AllEntries : AllEntries P m → P k v' → AllEntries P (insert k v' (remove k m))
  exchange-AllEntries a p = insert-AllEntries P k v' (remove k m) p (remove-AllEntries P k m a)

  pub sum-exchange :
      IsSorted m → sum w (insert k v' (remove k m)) + weight_of w (get k m) ≡ sum w m + w v'
  sum-exchange s = ground (
    arith,
    sum-insert w k v' (remove k m) (remove-IsSorted k m s),
    sum-remove w k m,
    get-remove_self k m s,
  )

module _ (s : StakingContract) (i : Inv s) (k balance plus minus : ℕ)
    (sorted : List Validator) where
  pub exchange_active-Inv :
      (v v' : Validator)
      → get k s.active_validators_by_key ≡ some v
      → IsFunded k v'
      → v'.balance + minus ≡ v.balance + plus
      → balance + minus ≡ s.balance + plus
      → balance ≤ max_safe_value
      → Inv (record s {
        balance = balance;
        active_validators_sorted = sorted;
        active_validators_by_key = insert k v' (remove k s.active_validators_by_key);
      })
  exchange_active-Inv v v' e f moved total r =
      let m = s.active_validators_by_key in
      record {
        active_sorted = exchange-IsSorted IsFunded validator_coins k v' m i.active_sorted;
        retired_sorted = i.retired_sorted;
        inactive_sorted = i.inactive_sorted;
        active_funded = exchange-AllEntries IsFunded validator_coins k v' m i.active_funded f;
        retired_funded = i.retired_funded;
        disjoint =
            insert-Apart_left (remove k m) s.inactive_validators_by_key
              (remove-Apart_left m s.inactive_validators_by_key i.disjoint k i.active_sorted) k v'
              (i.disjoint k v e);
        balanced =
            ground
              (arith, i.balanced, sum-exchange IsFunded validator_coins k v' m i.active_sorted);
        in_range = r;
      }

  pub exchange_active_key-Inv :
      (j : ℕ) (v v' : Validator)
      → j ≡ k
      → get k s.active_validators_by_key ≡ some v
      → IsFunded k v'
      → v'.balance + minus ≡ v.balance + plus
      → balance + minus ≡ s.balance + plus
      → balance ≤ max_safe_value
      → Inv (record s {
        balance = balance;
        active_validators_sorted = sorted;
        active_validators_by_key = insert j v' (remove k s.active_validators_by_key);
      })
  exchange_active_key-Inv j v v' own e f moved total r =
      rw own (exchange_active-Inv v v' e f moved total r)

  pub exchange_retired-Inv :
      (v v' : InactiveValidator)
      → get k s.inactive_validators_by_key ≡ some v
      → IsFunded k v'.validator
      → v'.validator.balance + minus ≡ v.validator.balance + plus
      → balance + minus ≡ s.balance + plus
      → balance ≤ max_safe_value
      → get k s.active_validators_by_key ≡ none
      → Inv (record s {
        balance = balance;
        inactive_validators_by_key = insert k v' (remove k s.inactive_validators_by_key);
      })
  exchange_retired-Inv v v' e f moved total r free =
      let m = s.inactive_validators_by_key in
      record {
        active_sorted = i.active_sorted;
        retired_sorted = exchange-IsSorted IsRetiredFunded retired_coins k v' m i.retired_sorted;
        inactive_sorted = i.inactive_sorted;
        active_funded = i.active_funded;
        retired_funded =
            exchange-AllEntries IsRetiredFunded retired_coins k v' m i.retired_funded f;
        disjoint =
            insert-Apart_right s.active_validators_by_key (remove k m)
              (remove-Apart_right s.active_validators_by_key m i.disjoint k i.retired_sorted) k v'
              free;
        balanced =
            ground (
              arith,
              i.balanced,
              sum-exchange IsRetiredFunded retired_coins k v' m i.retired_sorted,
            );
        in_range = r;
      }

  pub exchange_retired_key-Inv :
      (j : ℕ) (v v' : InactiveValidator)
      → j ≡ k
      → get k s.inactive_validators_by_key ≡ some v
      → IsFunded k v'.validator
      → v'.validator.balance + minus ≡ v.validator.balance + plus
      → balance + minus ≡ s.balance + plus
      → balance ≤ max_safe_value
      → get k s.active_validators_by_key ≡ none
      → Inv (record s {
        balance = balance;
        inactive_validators_by_key = insert j v' (remove k s.inactive_validators_by_key);
      })
  exchange_retired_key-Inv j v v' own e f moved total r free =
      rw own (exchange_retired-Inv v v' e f moved total r free)

  -- The inactive stakes are replaced by others that hold as much more or less.
  pub exchange_inactive-Inv :
      (stakes : Map InactiveStake)
      → IsSorted stakes
      → sum inactive_coins stakes + minus ≡ sum inactive_coins s.inactive_stake_by_address + plus
      → balance + minus ≡ s.balance + plus
      → balance ≤ max_safe_value
      → Inv (record s { balance = balance; inactive_stake_by_address = stakes })
  exchange_inactive-Inv stakes o moved total r = record {
    active_sorted = i.active_sorted;
    retired_sorted = i.retired_sorted;
    inactive_sorted = o;
    active_funded = i.active_funded;
    retired_funded = i.retired_funded;
    disjoint = i.disjoint;
    balanced = omega (arith, i.balanced);
    in_range = r;
  }
