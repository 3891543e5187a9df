-- ===== src/Account/Staking/Conservation/Update.antt =====
-- Updating a validator's key and reward address: the invariant is kept where the new key is free.
use nimiq_core_rs_albatross.Base.{
  ℕ, ◌+◌, ◌-◌, ◌<◌, ◌≡◌, ◌≢◌, ◌⊎◌, refl, sym, subst, Option, none, some, arith, inl, inr,
  Option-cases, unwrap_or, true,
}
use nimiq_core_rs_albatross.Collections.Map.{Map, get, remove}
use nimiq_core_rs_albatross.Collections.Map.Order.{
  get-remove_self, get-remove_ne, get-insert_self, remove-IsSorted, IsSorted,
}
use nimiq_core_rs_albatross.Collections.Map.Sum.{sum-insert, sum-remove}
use nimiq_core_rs_albatross.Account.Outcome.{ok, is_ok}
use nimiq_core_rs_albatross.Account.Staking.State.{
  Address, BlsPublicKey, Validator, InactiveValidator, StakingContract,
}
use nimiq_core_rs_albatross.Account.Staking.Entry.{update_entry}
use nimiq_core_rs_albatross.Account.Staking.Contract.{remove_validator, restore_validator}
use nimiq_core_rs_albatross.Account.Staking.Staker.{set_balance}
use nimiq_core_rs_albatross.Account.Staking.Lifecycle.{
  update_validator, put_active, put_retired, drop_active_key, drop_active_sorted, drop_retired,
}
use nimiq_core_rs_albatross.Account.Staking.Invariant.{
  Inv, IsFunded, Settles, holdings, validator_coins,
}
use nimiq_core_rs_albatross.Account.Staking.Conservation.Entry.{
  get_active-IsFunded, get_retired-IsFunded, active_balance_le, retired_balance_le,
}
use nimiq_core_rs_albatross.Account.Staking.Conservation.Lifecycle.{
  enter_active-Inv, enter_retired-Inv, leave_active-Inv, leave_retired-Inv,
}
use nimiq_core_rs_albatross.Account.Staking.Conservation.Validators.{retired_free}

-- No validator stands under `k`.
pub record IsFree (s : StakingContract) (k : BlsPublicKey) : Type 0 where
  pub free_active : get k s.active_validators_by_key ≡ none
  pub free_retired : get k s.inactive_validators_by_key ≡ none

-- The validator as an update leaves it.
abbrev pub updated : Option BlsPublicKey → Option Address → Validator → Validator
updated new_key new_address v = record v {
  reward_address = unwrap_or new_address v.reward_address;
  validator_key = unwrap_or new_key v.validator_key;
}

get-remove_other :
    {V : Type 0} (j k : ℕ) (m : Map V)
    → IsSorted m
    → (j ≡ k) ⊎ (get j m ≡ none)
    → get j (remove k m) ≡ none
get-remove_other j k m o (inl e) = rw e (get-remove_self k m o)
get-remove_other j k m o (inr h) = ground (arith, h, get-remove_ne j k m, get-remove_self k m o)

module _ (s : StakingContract) (old : BlsPublicKey) (new_key : Option BlsPublicKey)
    (new_address : Option Address) where
  pub update_validator_active :
      (v : Validator)
      → get old s.active_validators_by_key ≡ some v
      → update_validator old new_key new_address s ≡ (
        ok (record { old_reward_address = v.reward_address }),
        put_active
            (updated new_key new_address v).validator_key
            (updated new_key new_address v)
            (drop_active_sorted v (drop_active_key old s)),
      )
  unfolding update_validator remove_validator restore_validator update_entry
  update_validator_active v found = ground arith

  pub update_validator_retired :
      (v : InactiveValidator)
      → get old s.active_validators_by_key ≡ none
      → get old s.inactive_validators_by_key ≡ some v
      → let v' = updated new_key new_address v.validator in
        update_validator old new_key new_address s ≡ (
          ok (record { old_reward_address = v.validator.reward_address }),
          put_retired v'.validator_key (record v { validator = v' }) (drop_retired old s),
        )
  unfolding update_validator remove_validator restore_validator update_entry
  update_validator_retired v free found = ground arith

module _ (s : StakingContract) (i : Inv s) (old : BlsPublicKey) (new_key : Option BlsPublicKey)
    (new_address : Option Address)
    (target : (unwrap_or new_key old ≡ old) ⊎ IsFree s (unwrap_or new_key old)) where
  target_key :
      (v : Validator) → IsFunded old v → unwrap_or new_key v.validator_key ≡ unwrap_or new_key old
  target_key v f = ground (arith, f.own_key)

  update_active-Settles :
      (v : Validator)
      → get old s.active_validators_by_key ≡ some v
      → Settles 0 0 s (update_validator old new_key new_address s)
  update_active-Settles v found =
      let le = active_balance_le s i old v found in
      let f = get_active-IsFunded s i old v found in
      let v' = updated new_key new_address v in
      let s' = set_balance (s.balance - v.balance) (drop_active_sorted v (drop_active_key old s)) in
      let i' = leave_active-Inv s i old (s.balance - v.balance) v v found (omega (arith, le)) in
      let free_active =
        get-remove_other v'.validator_key old s.active_validators_by_key i.active_sorted
          (ground (arith, target_key v f)) in
      let free_retired : get v'.validator_key s.inactive_validators_by_key ≡ none =
        ground (arith, target_key v f, i.disjoint old v found) in
      subst (Settles 0 0 s) (sym (update_validator_active s old new_key new_address v found)) (
        enter_active-Inv s' i' v'.validator_key s.balance v' free_active free_retired
            (record { own_key = refl; stakes_sorted = f.stakes_sorted; covered = f.covered })
            (omega (arith, le)) i.in_range,
        refl,
      )

  update_retired-Settles :
      (v : InactiveValidator)
      → get old s.inactive_validators_by_key ≡ some v
      → Settles 0 0 s (update_validator old new_key new_address s)
  update_retired-Settles v found =
      let le = retired_balance_le s i old v found in
      let f = get_retired-IsFunded s i old v found in
      let v' = updated new_key new_address v.validator in
      let s' = set_balance (s.balance - v.validator.balance) (drop_retired old s) in
      let i' =
        leave_retired-Inv s i old (s.balance - v.validator.balance) v found (omega (arith, le)) in
      let free = retired_free s i old v found in
      let free_active : get v'.validator_key s.active_validators_by_key ≡ none =
        ground (arith, target_key v.validator f, free) in
      let free_retired =
        get-remove_other v'.validator_key old s.inactive_validators_by_key i.retired_sorted
          (ground (arith, target_key v.validator f)) in
      subst (Settles 0 0 s) (sym (update_validator_retired s old new_key new_address v free found))
        (
          enter_retired-Inv s' i' v'.validator_key s.balance (record v { validator = v' })
              free_active free_retired
              (record { own_key = refl; stakes_sorted = f.stakes_sorted; covered = f.covered })
              (omega (arith, le)) i.in_range,
          refl,
        )

  -- Updating a validator of a contract with the invariant, to its own key or to one under which no
  -- validator stands: the call does not panic, and if it succeeds the invariant holds again and
  -- the balance is as before.
  pub update_validator-Settles : Settles 0 0 s (update_validator old new_key new_address s)
  update_validator-Settles = elim (Option-cases (get old s.active_validators_by_key)) [
    | inr (v, found) ↦ update_active-Settles v found
    | inl free ↦ elim (Option-cases (get old s.inactive_validators_by_key)) [
      | inr (v, found) ↦ update_retired-Settles v found
      | inl absent ↦ unfold update_validator remove_validator in ground arith
    ]
  ]

-- In a contract with the invariant, an update of an active validator to the key of another active
-- validator that holds coins succeeds: the other validator is replaced, its coins stay in the
-- balance but belong to nobody, and the invariant is broken.
pub update_validator_overwrites :
    (s : StakingContract) (old taken : BlsPublicKey) (address : Option Address) (v u : Validator)
    → Inv s
    → get old s.active_validators_by_key ≡ some v
    → get taken s.active_validators_by_key ≡ some u
    → taken ≢ old
    → 0 < u.balance
    → let (r, s') = update_validator old (some taken) address s in
      (is_ok r ≡ true)
      × (s'.balance ≡ holdings s' + u.balance)
      × (get taken s'.active_validators_by_key ≡ some (updated (some taken) address v))
      × ¬ Inv s'
update_validator_overwrites s old taken address v u i found there ne pos =
    let m = s.active_validators_by_key in
    let v' = updated (some taken) address v in
    let s' = put_active taken v' (drop_active_sorted v (drop_active_key old s)) in
    let lost : s'.balance ≡ holdings s' + u.balance = ground (
      arith,
      i.balanced,
      sum-remove validator_coins old m,
      sum-insert validator_coins taken v' (remove old m) (remove-IsSorted old m i.active_sorted),
      get-remove_ne taken old m ne,
    ) in
    rw (update_validator_active s old (some taken) address v found)
      (refl, lost, get-insert_self taken v' (remove old m), λ i'. omega (arith, lost, i'.balanced))
