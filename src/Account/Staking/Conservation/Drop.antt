-- ===== src/Account/Staking/Conservation/Drop.antt =====
-- account/src/staking_contract/validator.rs: dropping a validator and the coins it involves.
use nimiq_core_rs_albatross.Base.{
  ℕ, ◌+◌, ◌-◌, ◌≤◌, ◌≡◌, refl, sym, subst, some, [], ◌∷◌, arith, Bool-cases, inl, inr,
}
use native.Mathlib.Nat.{add-zero}
use nimiq_core_rs_albatross.Primitives.Coin.{Coin}
use nimiq_core_rs_albatross.Collections.Map.{Map, get, insert}
use nimiq_core_rs_albatross.Collections.Map.Sum.{sum}
use nimiq_core_rs_albatross.Account.Outcome.{Outcome, ok, err, panic, pure, ◌>>=◌}
use nimiq_core_rs_albatross.Account.Balance.{balance_sub_ok}
use nimiq_core_rs_albatross.Account.Staking.State.{BlsPublicKey, InactiveValidator, StakingContract}
use nimiq_core_rs_albatross.Account.Staking.Staker.{set_balance, retire_recipient}
use nimiq_core_rs_albatross.Account.Staking.Lifecycle.{
  RetirementReceipt, UnparkReceipt, DropValidatorReceipt, retire_all, is_parked, drop_validator,
  drop_retired, unpark_if_parked, retire_stakers,
}
use nimiq_core_rs_albatross.Account.Staking.Invariant.{Inv, Settles, own_coins}
use nimiq_core_rs_albatross.Account.Staking.Conservation.Entry.{retired_balance_le}
use nimiq_core_rs_albatross.Account.Staking.Conservation.Inactive.{retire_recipient-Settles}
use nimiq_core_rs_albatross.Account.Staking.Conservation.Lifecycle.{leave_retired-Inv}
use nimiq_core_rs_albatross.Account.Staking.Conservation.Validators.{unpark_validator-Settles}
use nimiq_core_rs_albatross.Account.Staking.Conservation.Bind.{bind-Settles}
use nimiq_core_rs_albatross.Account.Staking.Conservation.Handover.{
  HandsOver, retire_stakers-HandsOver,
}

-- The loop adds all stakes to the contract.
pub retire_all-Settles :
    (time : ℕ) (stakes : Map Coin) (receipts : Map RetirementReceipt) (s : StakingContract)
    → Inv s
    → Settles (sum own_coins stakes) 0 s (retire_all time stakes receipts s)
unfolding retire_all sum
retire_all-Settles time [] receipts s i = (i, omega arith)
retire_all-Settles time ((a, stake) ∷ stakes) receipts s i =
    bind-Settles stake 0 (sum own_coins stakes) 0 s (retire_recipient a stake (some time))
      (λ receipt.
        retire_all time stakes
          (insert a (record { stake = stake; inactive_stake_receipt = receipt }) receipts))
      (retire_recipient-Settles s i a stake (some time))
      (λ receipt s' i' _.
        retire_all-Settles time stakes
          (insert a (record { stake = stake; inactive_stake_receipt = receipt }) receipts) s' i')

-- What follows the loop moves nothing.
unpark_if_parked-Settles :
    (k : BlsPublicKey) (s : StakingContract) → Inv s → Settles 0 0 s (unpark_if_parked k s)
unfolding unpark_if_parked
unpark_if_parked-Settles k s i = elim (Bool-cases (is_parked k s)) [
  | inl e ↦ rw (e, Settles) (unpark_validator-Settles s i k)
  | inr e ↦ rw (e, Settles) (i, refl)
]

retire_stakers-Settles :
    (k : BlsPublicKey) (v : InactiveValidator) (s : StakingContract)
    → Inv s
    → Settles (sum own_coins v.validator.active_stake_by_address) 0 s (retire_stakers k v s)
unfolding retire_stakers
retire_stakers-Settles k v s i =
    let stakes = v.validator.active_stake_by_address in
    let result = λ (receipts : Map RetirementReceipt) (r : UnparkReceipt).
      let d : DropValidatorReceipt = record {
        reward_address = v.validator.reward_address;
        retirement_by_address = receipts;
        retire_time = v.retire_time;
        unpark_receipt = r;
      } in
      d in
    let h : Settles (sum own_coins stakes + 0) 0 s (retire_stakers k v s) =
      bind-Settles (sum own_coins stakes) 0 0 0 s (retire_all v.retire_time stakes [])
        (λ receipts. do unpark_receipt ← unpark_if_parked k; pure (result receipts unpark_receipt))
        (retire_all-Settles v.retire_time stakes [] s i)
        (λ receipts s' i' _.
          bind-Settles 0 0 0 0 s' (unpark_if_parked k) (λ r. pure (result receipts r))
            (unpark_if_parked-Settles k s' i') (λ r s'' i'' _. (i'', refl))) in
    subst (λ t. Settles t 0 s (retire_stakers k v s)) (add-zero (sum own_coins stakes)) h

drop_validator_lem :
    (s : StakingContract) (k : BlsPublicKey) (v : InactiveValidator) (total : Coin)
    → Inv s
    → get k s.inactive_validators_by_key ≡ some v
    → v.validator.balance ≤ s.balance
    → drop_validator k total s
      ≡ retire_stakers k v (set_balance (s.balance - v.validator.balance) (drop_retired k s))
unfolding drop_validator
drop_validator_lem s k v total i found le =
    ground (arith, balance_sub_ok s.balance v.validator.balance i.in_range le)

-- The same movement, seen from another starting point.
settle :
    {A : Type 0} (p m : ℕ) (s s' : StakingContract) (r : Outcome A × StakingContract)
    → s'.balance + (m + p) ≡ s.balance
    → Settles p 0 s' r
    → Settles 0 m s r
settle p m s s' (ok a, t) e h = (h.0, omega (arith, h.1))
settle p m s s' (err x, t) e h = h
settle p m s s' (panic, t) e h = h

-- Dropping a retired validator of a contract with the invariant, where the total is its balance
-- less the stakes delegated to it, does not panic; if it succeeds, the invariant holds again, the
-- balance is less by exactly the total, and the inactive stake of every address has grown by
-- exactly what the address had among the stakes delegated to the validator.
pub drop_validator-Settles :
    (s : StakingContract) (k : BlsPublicKey) (v : InactiveValidator) (total : Coin)
    → Inv s
    → get k s.inactive_validators_by_key ≡ some v
    → total + sum own_coins v.validator.active_stake_by_address ≡ v.validator.balance
    → Settles 0 total s (drop_validator k total s)
      × HandsOver v.validator.active_stake_by_address s (drop_validator k total s)
drop_validator-Settles s k v total i found own =
    let le = retired_balance_le s i k v found in
    let stakes = sum own_coins v.validator.active_stake_by_address in
    let balance = s.balance - v.validator.balance in
    let s' = set_balance balance (drop_retired k s) in
    let same = sym (drop_validator_lem s k v total i found le) in
    (
      subst (Settles 0 total s) same (
          settle stakes total s s' (retire_stakers k v s') (omega (arith, le)) (
            retire_stakers-Settles k v s'
              (leave_retired-Inv s i k balance v found (omega (arith, le))))),
      subst (HandsOver v.validator.active_stake_by_address s) same
          (retire_stakers-HandsOver k v s'),
    )
