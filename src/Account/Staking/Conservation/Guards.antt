-- ===== src/Account/Staking/Conservation/Guards.antt =====
-- The checks of a transaction that takes coins out of the staking contract: one that passes leaves
-- the contract as it was, and gives what the operation behind it needs.
use nimiq_core_rs_albatross.Base.{
  ℕ, ◌+◌, ◌≤◌, ◌≡◌, ◌⊎◌, refl, sym, subst, some, [], ◌∷◌, arith, inl, inr, Option-cases,
}
use nimiq_core_rs_albatross.Primitives.Coin.{Coin, checked_add, sub}
use nimiq_core_rs_albatross.Primitives.Coin.Checked.{total, sum_lem}
use nimiq_core_rs_albatross.Collections.Map.{Map, get}
use nimiq_core_rs_albatross.Collections.Map.Sum.{sum}
use nimiq_core_rs_albatross.Account.Outcome.{AccountError, Outcome, ok, err, panic, Action, ◌>>◌}
use nimiq_core_rs_albatross.Account.Balance.{balance_sufficient}
use nimiq_core_rs_albatross.Account.Staking.State.{
  Address, BlsPublicKey, InactiveStake, InactiveValidator, StakingContract,
}
use nimiq_core_rs_albatross.Account.Staking.Contract.{get_validator}
use nimiq_core_rs_albatross.Account.Staking.Wire.{
  Wire, Transaction, OutgoingStakingTransactionProof, SelfStakingTransactionData, SignatureProof,
  total_value,
}
use nimiq_core_rs_albatross.Account.Staking.Transactions.{
  values, check_outgoing_proof, check_outgoing_self,
}
use nimiq_core_rs_albatross.Account.Staking.Invariant.{Inv, Settles, own_coins}
use nimiq_core_rs_albatross.Account.Staking.Conservation.Entry.{
  get_retired-IsFunded, retired_balance_le,
}

total-values : (m : Map Coin) → total (values m) ≡ sum own_coins m
unfolding sum
total-values [] = refl
total-values ((a, c) ∷ m) = omega (arith, total-values m)

-- A check that passes gives `P` and leaves the contract as it was.
abbrev pub Guards : Type 0 → StakingContract → Outcome (Unit {0}) × StakingContract → Type 0
Guards P s (ok _, s') = P × (s' ≡ s)
Guards P s (err _, s') = Unit
Guards P s (panic, s') = ⊥

pub guard-Settles :
    {A P : Type 0} (p m : ℕ) (s : StakingContract) (r : Outcome (Unit {0}) × StakingContract)
    (f : Action StakingContract A)
    → Guards P s r
    → (P → Settles p m s (f s))
    → Settles p m s (◌>>◌ (λ (_ : StakingContract). r) f s)
guard-Settles p m s (ok u, s') f (h, e) k = subst (λ t. Settles p m s (f t)) (sym e) (k h)
guard-Settles p m s (err e, s') f h k = tt
guard-Settles p m s (panic, s') f h k = h

-- The inactive stake of `a` covers `c`.
abbrev pub Covers : StakingContract → Address → ℕ → Type 0
Covers s a c =
    (st : InactiveStake) × (get a s.inactive_stake_by_address ≡ some st) × (c ≤ st.balance)

-- The retired validator `k` has `c` of its own.
abbrev pub Owns : StakingContract → BlsPublicKey → ℕ → Type 0
Owns s k c =
    (v : InactiveValidator) × (get k s.inactive_validators_by_key ≡ some v)
    × (c + sum own_coins v.validator.active_stake_by_address ≡ v.validator.balance)

pub total_value-cases :
    {Bytes : Type 0} (tx : Transaction Bytes)
    → (total_value tx ≡ ok (tx.value + tx.fee)) ⊎ ((e : AccountError) × (total_value tx ≡ err e))
unfolding total_value checked_add
total_value-cases tx = ground arith

module _ (w : Wire) where
  open w use {Bytes}

  pub unstake-Guards :
      (tx : Transaction Bytes) (height : ℕ) (p : SignatureProof) (s : StakingContract)
      → Guards
          (Covers s p.compute_signer (tx.value + tx.fee))
          s
          (check_outgoing_proof w tx height (OutgoingStakingTransactionProof.unstake p) s)
  unfolding check_outgoing_proof balance_sufficient
  unstake-Guards tx height p s =
      elim (Option-cases (get p.compute_signer s.inactive_stake_by_address)) [
        | inl absent ↦ ground (arith, absent)
        | inr (st, found) ↦ ground (arith, found, total_value-cases tx)
      ]

  pub drop_validator-Guards :
      (tx : Transaction Bytes) (height : ℕ) (k : BlsPublicKey) (sig : ℕ) (s : StakingContract)
      → Inv s
      → Guards (Owns s k (tx.value + tx.fee)) s (
          check_outgoing_proof w tx height (OutgoingStakingTransactionProof.drop_validator k sig) s)
  unfolding check_outgoing_proof sub
  drop_validator-Guards tx height k sig s i =
      elim (Option-cases (get k s.inactive_validators_by_key)) [
        | inl absent ↦ ground (arith, absent)
        | inr (v, found) ↦
            let stakes = v.validator.active_stake_by_address in
            let f = get_retired-IsFunded s i k v found in
            let le = retired_balance_le s i k v found in
            ground (
              arith,
              found,
              total_value-cases tx,
              total-values stakes,
              sum_lem (values stakes),
              f.covered,
              le,
              i.in_range,
            )
      ]

  pub retire_stake-Guards :
      (tx : Transaction Bytes) (a : Address) (k : BlsPublicKey) (s : StakingContract)
      → Guards
          (Unit {0})
          s
          (check_outgoing_self w tx a (SelfStakingTransactionData.retire_stake k) s)
  unfolding check_outgoing_self balance_sufficient get_validator
  retire_stake-Guards tx a k s =
      ground (arith, Option-cases (get k s.active_validators_by_key), total_value-cases tx)

  pub reactivate_stake-Guards :
      (tx : Transaction Bytes) (a : Address) (k : BlsPublicKey) (s : StakingContract)
      → Guards
          (Covers s a (tx.value + tx.fee))
          s
          (check_outgoing_self w tx a (SelfStakingTransactionData.reactivate_stake k) s)
  unfolding check_outgoing_self balance_sufficient get_validator
  reactivate_stake-Guards tx a k s = elim (Option-cases (get a s.inactive_stake_by_address)) [
    | inl absent ↦ ground (arith, absent)
    | inr (st, found) ↦ ground (
      arith,
      found,
      total_value-cases tx,
      Option-cases (get k s.active_validators_by_key),
      Option-cases (get k s.inactive_validators_by_key),
    )
  ]
