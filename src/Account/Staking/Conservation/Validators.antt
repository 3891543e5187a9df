-- ===== src/Account/Staking/Conservation/Validators.antt =====
-- The operations on validators: each keeps the invariant, moves the contract's balance by its
-- value, and does not panic.
use nimiq_core_rs_albatross.Base.{
  ℕ, ◌+◌, ◌-◌, ◌≤◌, ◌≡◌, refl, sym, subst, none, some, arith, inl, inr, Option-cases,
}
use nimiq_core_rs_albatross.Primitives.Coin.{Coin, max_safe_value}
use nimiq_core_rs_albatross.Collections.Map.{get}
use nimiq_core_rs_albatross.Collections.Map.Order.{get-remove_self}
use nimiq_core_rs_albatross.Collections.Map.Sum.{sum}
use nimiq_core_rs_albatross.Account.Outcome.{ok}
use nimiq_core_rs_albatross.Account.Balance.{balance_add_ok, balance_add-cases, balance_sub_ok}
use nimiq_core_rs_albatross.Account.Staking.State.{
  Address, BlsPublicKey, Validator, InactiveValidator, StakingContract,
}
use nimiq_core_rs_albatross.Account.Staking.Entry.{new_validator}
use nimiq_core_rs_albatross.Account.Staking.Staker.{set_balance}
use nimiq_core_rs_albatross.Account.Staking.Lifecycle.{
  create_validator, revert_create_validator, retire_validator, reactivate_validator,
  unpark_validator, revert_unpark_validator, revert_retire_validator, revert_reactivate_validator,
  clear_parking, put_active, put_retired, drop_active_key, drop_active_sorted, drop_retired,
  UnparkReceipt, InactiveValidatorReceipt,
}
use nimiq_core_rs_albatross.Account.Staking.Invariant.{Inv, IsFunded, Settles}
use nimiq_core_rs_albatross.Account.Staking.Conservation.Entry.{
  get_active-IsFunded, get_retired-IsFunded, active_balance_le, retired_balance_le,
}
use nimiq_core_rs_albatross.Account.Staking.Conservation.Inactive.{discard-Settles}
use nimiq_core_rs_albatross.Account.Staking.Conservation.Lifecycle.{
  enter_active-Inv, enter_retired-Inv, leave_active-Inv, leave_retired-Inv, other_fields-Inv,
}

new_validator-IsFunded :
    (k : BlsPublicKey) (a : Address) (c : Coin) → IsFunded k (new_validator c a k)
unfolding new_validator sum
new_validator-IsFunded k a c = ground arith

module _ (s : StakingContract) (i : Inv s) (k : BlsPublicKey) where
  -- How a retirement, a re-activation, a creation and its reversal end.
  pub retire_validator_lem :
      (height : ℕ) (v : Validator)
      → get k s.active_validators_by_key ≡ some v
      → retire_validator k height s ≡ (
        ok tt,
        put_retired k
            (record { validator = v; retire_time = height })
            (drop_active_sorted v (drop_active_key k s)),
      )
  unfolding retire_validator
  retire_validator_lem height v found = ground arith

  pub reactivate_validator_lem :
      (v : InactiveValidator)
      → get k s.inactive_validators_by_key ≡ some v
      → reactivate_validator k s
        ≡ (ok (record { retire_time = v.retire_time }), put_active k v.validator (drop_retired k s))
  unfolding reactivate_validator
  reactivate_validator_lem v found = ground arith

  pub create_validator_lem :
      (a : Address) (c : Coin)
      → get k s.active_validators_by_key ≡ none
      → get k s.inactive_validators_by_key ≡ none
      → s.balance + c ≤ max_safe_value
      → create_validator k a c s
        ≡ (ok tt, set_balance (s.balance + c) (put_active k (new_validator c a k) s))
  unfolding create_validator
  create_validator_lem a c free free' r = ground (arith, balance_add_ok s.balance c r)

  revert_create_validator_lem :
      (v : Validator) (c : Coin)
      → get k s.active_validators_by_key ≡ some v
      → c ≤ s.balance
      → revert_create_validator k c s
        ≡ (ok tt, set_balance (s.balance - c) (drop_active_sorted v (drop_active_key k s)))
  unfolding revert_create_validator
  revert_create_validator_lem v c found le =
      ground (arith, balance_sub_ok s.balance c i.in_range le)

  -- Creating a validator in a contract with the invariant does not panic; if it succeeds, the
  -- invariant holds again and the balance is more by exactly the initial stake.
  pub create_validator-Settles : (a : Address) (c : Coin) → Settles c 0 s (create_validator k a c s)
  create_validator-Settles a c = elim (Option-cases (get k s.active_validators_by_key)) [
    | inr (v, taken) ↦ unfold create_validator in ground arith
    | inl free ↦ elim (Option-cases (get k s.inactive_validators_by_key)) [
      | inr (v, taken) ↦ unfold create_validator in ground arith
      | inl free' ↦ elim (balance_add-cases s.balance c) [
        | inr (over, e) ↦ unfold create_validator in ground arith
        | inl (r, _) ↦
            let v = new_validator c a k in
            subst (Settles c 0 s) (sym (create_validator_lem a c free free' r)) (
              enter_active-Inv s i k (s.balance + c) v free free' (new_validator-IsFunded k a c)
                  (unfold new_validator in refl) r,
              omega arith,
            )
      ]
    ]
  ]

  -- In a contract with the invariant, reverting the creation of an active validator that holds
  -- exactly its initial stake does not panic; if it succeeds, the invariant holds again and the
  -- balance is less by exactly that stake.
  pub revert_create_validator-Settles :
      (v : Validator) (c : Coin)
      → get k s.active_validators_by_key ≡ some v
      → v.balance ≡ c
      → Settles 0 c s (revert_create_validator k c s)
  revert_create_validator-Settles v c found own =
      let le : c ≤ s.balance = omega (arith, active_balance_le s i k v found) in
      subst (Settles 0 c s) (sym (revert_create_validator_lem v c found le))
        (leave_active-Inv s i k (s.balance - c) v v found (omega arith), omega arith)

  -- Retiring a validator of a contract with the invariant does not panic; if it succeeds, the
  -- invariant holds again and the balance is as before.
  pub retire_validator-Settles : (height : ℕ) → Settles 0 0 s (retire_validator k height s)
  retire_validator-Settles height = elim (Option-cases (get k s.active_validators_by_key)) [
    | inl absent ↦ unfold retire_validator in ground arith
    | inr (v, found) ↦
        let le = active_balance_le s i k v found in
        let s' = set_balance (s.balance - v.balance) (drop_active_sorted v (drop_active_key k s)) in
        let i' = leave_active-Inv s i k (s.balance - v.balance) v v found (omega (arith, le)) in
        subst (Settles 0 0 s) (sym (retire_validator_lem height v found)) (
          enter_retired-Inv s' i' k s.balance (record { validator = v; retire_time = height })
              (get-remove_self k s.active_validators_by_key i.active_sorted) (i.disjoint k v found)
              (get_active-IsFunded s i k v found) (omega (arith, le)) i.in_range,
          refl,
        )
  ]

  -- A retired validator is not an active one.
  pub retired_free :
      (v : InactiveValidator)
      → get k s.inactive_validators_by_key ≡ some v
      → get k s.active_validators_by_key ≡ none
  retired_free v found = elim (Option-cases (get k s.active_validators_by_key)) [
    | inl free ↦ free
    | inr (u, e) ↦ cc (i.disjoint k u e)
  ]

  -- Re-activating a validator of a contract with the invariant does not panic; if it succeeds, the
  -- invariant holds again and the balance is as before.
  pub reactivate_validator-Settles : Settles 0 0 s (reactivate_validator k s)
  reactivate_validator-Settles = elim (Option-cases (get k s.inactive_validators_by_key)) [
    | inl absent ↦ unfold reactivate_validator in ground arith
    | inr (v, found) ↦
        let le = retired_balance_le s i k v found in
        let s' = set_balance (s.balance - v.validator.balance) (drop_retired k s) in
        let i' =
          leave_retired-Inv s i k (s.balance - v.validator.balance) v found (omega (arith, le)) in
        subst (Settles 0 0 s) (sym (reactivate_validator_lem v found)) (
          enter_active-Inv s' i' k s.balance v.validator (retired_free v found)
              (get-remove_self k s.inactive_validators_by_key i.retired_sorted)
              (get_retired-IsFunded s i k v found) (omega (arith, le)) i.in_range,
          refl,
        )
  ]

  pub revert_retire_validator-Settles : Settles 0 0 s (revert_retire_validator k s)
  unfolding revert_retire_validator
  revert_retire_validator-Settles =
      discard-Settles 0 0 s (reactivate_validator k s) reactivate_validator-Settles

  pub revert_reactivate_validator-Settles :
      (receipt : InactiveValidatorReceipt) → Settles 0 0 s (revert_reactivate_validator k receipt s)
  unfolding revert_reactivate_validator
  revert_reactivate_validator-Settles receipt = retire_validator-Settles receipt.retire_time

  -- Parking lists and disabled slots hold no coins.
  pub unpark_validator-Settles : Settles 0 0 s (unpark_validator k s)
  unfolding unpark_validator
  unpark_validator-Settles =
      let i' = other_fields-Inv s (clear_parking k s) refl refl refl refl i in ground (arith, i')

  pub revert_unpark_validator-Settles :
      (receipt : UnparkReceipt) → Settles 0 0 s (revert_unpark_validator k receipt s)
  unfolding revert_unpark_validator
  revert_unpark_validator-Settles receipt = (other_fields-Inv s _ refl refl refl refl i, refl)
