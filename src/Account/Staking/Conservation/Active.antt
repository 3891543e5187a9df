-- ===== src/Account/Staking/Conservation/Active.antt =====
-- The four operations on active stake, and those on inactive stake: each keeps the invariant,
-- moves the contract's balance by its value, and does not panic.
use nimiq_core_rs_albatross.Base.{◌+◌, ◌-◌, ◌≤◌, arith, inl, inr}
use nimiq_core_rs_albatross.Primitives.Coin.{Coin, max_safe_value}
use nimiq_core_rs_albatross.Account.Outcome.{
  AccountError, invalid_for_sender, invalid_for_recipient,
}
use nimiq_core_rs_albatross.Account.Balance.{balance_add-cases, balance_sub-cases}
use nimiq_core_rs_albatross.Account.Staking.State.{Address, BlsPublicKey, StakingContract}
use nimiq_core_rs_albatross.Account.Staking.Entry.{
  add_stake, sub_stake, try_add_stake, try_sub_stake,
}
use nimiq_core_rs_albatross.Account.Staking.Staker.{
  stake, revert_stake, retire_sender, revert_retire_sender,
}
use nimiq_core_rs_albatross.Account.Staking.Invariant.{Inv, Settles}
use nimiq_core_rs_albatross.Account.Staking.Invariant.Stakes.{add_stake-Moves, sub_stake-Moves}
use nimiq_core_rs_albatross.Account.Staking.Conservation.Entry.{
  change_validator, change_validator-Settles,
}

module _ (s : StakingContract) (i : Inv s) (a : Address) (value : Coin) (k : BlsPublicKey) where
  add_course :
      (e : AccountError)
      → s.balance + value ≤ max_safe_value
      → Settles value 0 s (change_validator k e (add_stake a value) (s.balance + value) s)
  add_course e r =
      change_validator-Settles s i k value 0 (s.balance + value) e (add_stake a value)
        (λ v f _. add_stake-Moves k a value v f) (omega arith) r

  sub_course :
      (e e' : AccountError)
      → value ≤ s.balance
      → Settles 0 value s (change_validator k e (sub_stake a value e') (s.balance - value) s)
  sub_course e e' r =
      change_validator-Settles s i k 0 value (s.balance - value) e (sub_stake a value e')
        (λ v f b. sub_stake-Moves k a value e' v f b) (omega arith) (omega (arith, i.in_range))

  -- Staking with a contract that has the invariant does not panic; if it succeeds, the invariant
  -- holds again and the balance is more by exactly the value.
  pub stake-Settles : Settles value 0 s (stake a value k s)
  unfolding stake try_add_stake
  stake-Settles = elim (balance_add-cases s.balance value) [
    | inl (r, e) ↦ rw (e, Settles) (add_course invalid_for_recipient r)
    | inr (r, e) ↦ rw (e, Settles) tt
  ]

  -- Reverting a stake, with a contract that has the invariant, does not panic; if it succeeds, the
  -- invariant holds again and the balance is less by exactly the value.
  pub revert_stake-Settles : Settles 0 value s (revert_stake a value k s)
  unfolding revert_stake try_sub_stake
  revert_stake-Settles = elim (balance_sub-cases s.balance value i.in_range) [
    | inl (r, e) ↦ rw (e, Settles) (sub_course invalid_for_recipient invalid_for_recipient r)
    | inr (r, e) ↦ rw (e, Settles) tt
  ]

  -- Taking active stake from a validator for its retirement, in a contract with the invariant,
  -- does not panic; if it succeeds, the invariant holds again and the balance is less by exactly
  -- the value.
  pub retire_sender-Settles : Settles 0 value s (retire_sender a value k s)
  unfolding retire_sender try_sub_stake
  retire_sender-Settles = elim (balance_sub-cases s.balance value i.in_range) [
    | inl (r, e) ↦ rw (e, Settles) (sub_course invalid_for_sender invalid_for_sender r)
    | inr (r, e) ↦ rw (e, Settles) tt
  ]

  pub revert_retire_sender-Settles : Settles value 0 s (revert_retire_sender a value k s)
  unfolding revert_retire_sender try_add_stake
  revert_retire_sender-Settles = elim (balance_add-cases s.balance value) [
    | inl (r, e) ↦ rw (e, Settles) (add_course invalid_for_sender r)
    | inr (r, e) ↦ rw (e, Settles) tt
  ]
