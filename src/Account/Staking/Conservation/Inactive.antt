-- ===== src/Account/Staking/Conservation/Inactive.antt =====
-- The operations on inactive stake: each keeps the invariant, moves the contract's balance by its
-- value, and does not panic.
use nimiq_core_rs_albatross.Base.{
  ℕ, ◌+◌, ◌-◌, ◌≤◌, ◌≡◌, ◌⊎◌, Option, none, some, arith, inl, inr, Option-cases, unwrap_or, sym,
  subst, order_cases,
}
use nimiq_core_rs_albatross.Primitives.Coin.{Coin, max_safe_value}
use nimiq_core_rs_albatross.Collections.Map.{get}
use nimiq_core_rs_albatross.Account.Outcome.{
  Outcome, ok, err, panic, invalid_coin_value, invalid_for_recipient, pure, ◌>>◌,
}
use nimiq_core_rs_albatross.Account.Balance.{balance_add, balance_add_ok, balance_add-cases}
use nimiq_core_rs_albatross.Account.Staking.State.{Address, InactiveStake, StakingContract}
use nimiq_core_rs_albatross.Account.Staking.Staker.{
  InactiveStakeReceipt, retire_recipient, reactivate_sender, revert_retire_recipient,
  revert_reactivate_sender, unstake, revert_unstake, receipt_time,
}
use nimiq_core_rs_albatross.Account.Staking.Results.{
  stake_at, retire_recipient_found, retire_recipient_new, reactivate_sender_part,
  reactivate_sender_all, unstake_part, unstake_all, revert_unstake_found, revert_unstake_new,
}
use nimiq_core_rs_albatross.Account.Staking.Invariant.{Inv, Settles}
use nimiq_core_rs_albatross.Account.Staking.Conservation.InactiveEntry.{
  inactive_balance_le, put-Inv, replace-Inv, take-Inv,
}

-- `m.map(|_| ())`
abbrev pub discard :
    {A : Type 0} → Outcome A × StakingContract → Outcome (Unit {0}) × StakingContract
discard (r, s) = ◌>>◌ (λ s'. (r, s')) (pure tt) s

pub discard-Settles :
    {A : Type 0} (plus minus : ℕ) (s : StakingContract) (r : Outcome A × StakingContract)
    → Settles plus minus s r
    → Settles plus minus s (discard r)
discard-Settles plus minus s (ok a, s') h = h
discard-Settles plus minus s (err e, s') h = h
discard-Settles plus minus s (panic, s') h = h

-- A reversal of a retirement is refused, or is a re-activation.
pub revert_retire_recipient_cases :
    (s : StakingContract) (a : Address) (value : Coin) (receipt : Option InactiveStakeReceipt)
    (st : InactiveStake)
    → get a s.inactive_stake_by_address ≡ some st
    → (revert_retire_recipient a value receipt s ≡ (err invalid_for_recipient, s))
      ⊎ (revert_retire_recipient a value receipt s
          ≡ discard (reactivate_sender a value (some (unwrap_or (receipt_time receipt) 0)) s))
unfolding revert_retire_recipient
revert_retire_recipient_cases s a value receipt st found = ground arith

module _ (s : StakingContract) (i : Inv s) (a : Address) (value : Coin) where
  -- Adding to the inactive stake of an address, with or without a new time, in a contract with the
  -- invariant: the call does not panic; if it succeeds, the invariant holds again and the balance
  -- is more by exactly the value.
  pub retire_recipient-Settles :
      (time : Option ℕ) → Settles value 0 s (retire_recipient a value time s)
  retire_recipient-Settles time = elim (balance_add-cases s.balance value) [
    | inr (over, e) ↦ retire_overflow time e
    | inl (r, _) ↦ elim (Option-cases (get a s.inactive_stake_by_address)) [
      | inr (st, found) ↦
          let new = stake_at (st.balance + value) (unwrap_or time st.retire_time) in
          subst (Settles value 0 s)
            (sym (
              retire_recipient_found s a value time st found r
                (omega (arith, inactive_balance_le s i a st found))))
            (
              replace-Inv s i a (s.balance + value) value 0 new (ground arith) (omega arith) r,
              omega arith,
            )
      | inl absent ↦ retire_new time absent r
    ]
  ]
    where
      retire_overflow :
          (t : Option ℕ)
          → balance_add s.balance value ≡ err invalid_coin_value
          → Settles value 0 s (retire_recipient a value t s)
      retire_overflow t e = unfold retire_recipient in ground arith

      retire_new :
          (t : Option ℕ)
          → get a s.inactive_stake_by_address ≡ none
          → s.balance + value ≤ max_safe_value
          → Settles value 0 s (retire_recipient a value t s)
      retire_new none absent r = unfold retire_recipient in ground arith
      retire_new (some t) absent r =
          subst (Settles value 0 s) (sym (retire_recipient_new s a value t absent r)) (
            put-Inv s i a (s.balance + value) value 0 (stake_at value t) (ground arith)
                (omega arith) r,
            omega arith,
          )

  -- In a contract with the invariant, taking from an inactive stake at most what it holds does not
  -- panic; if it succeeds, the invariant holds again and the balance is less by exactly the value.
  pub reactivate_sender-Settles :
      (time : Option ℕ) (st : InactiveStake)
      → get a s.inactive_stake_by_address ≡ some st
      → value ≤ st.balance
      → Settles 0 value s (reactivate_sender a value time s)
  reactivate_sender-Settles time st found covers =
      let le : value ≤ s.balance = omega (arith, inactive_balance_le s i a st found) in
      let ok_range : st.balance ≤ max_safe_value =
        omega (arith, inactive_balance_le s i a st found, i.in_range) in
      elim (order_cases value st.balance) [
        | inl part ↦
            subst (Settles 0 value s)
              (sym (reactivate_sender_part s a value time st found le i.in_range part ok_range))
              (
                replace-Inv s i a (s.balance - value) 0 value
                    (stake_at (st.balance - value) (unwrap_or time st.retire_time)) (ground arith)
                    (omega arith) (omega (arith, i.in_range)),
                omega arith,
              )
        | inr all ↦
            subst (Settles 0 value s)
              (sym
                (reactivate_sender_all s a value time st found le i.in_range (ground (arith, all))))
              (
                take-Inv s i a (s.balance - value) 0 value (ground (arith, all)) (omega arith)
                    (omega (arith, i.in_range)),
                omega arith,
              )
      ]

  -- In a contract with the invariant, unstaking at most what the inactive stake holds does not
  -- panic; if it succeeds, the invariant holds again and the balance is less by exactly the value.
  pub unstake-Settles :
      (st : InactiveStake)
      → get a s.inactive_stake_by_address ≡ some st
      → value ≤ st.balance
      → Settles 0 value s (unstake a value s)
  unstake-Settles st found covers =
      let le : value ≤ s.balance = omega (arith, inactive_balance_le s i a st found) in
      let ok_range : st.balance ≤ max_safe_value =
        omega (arith, inactive_balance_le s i a st found, i.in_range) in
      elim (order_cases value st.balance) [
        | inl part ↦
            subst (Settles 0 value s)
              (sym (unstake_part s a value st found le i.in_range part ok_range))
              (
                replace-Inv s i a (s.balance - value) 0 value
                    (stake_at (st.balance - value) st.retire_time) (ground arith) (omega arith)
                    (omega (arith, i.in_range)),
                omega arith,
              )
        | inr all ↦
            subst (Settles 0 value s)
              (sym (unstake_all s a value st found le i.in_range (ground (arith, all))))
              (
                take-Inv s i a (s.balance - value) 0 value (ground (arith, all)) (omega arith)
                    (omega (arith, i.in_range)),
                omega arith,
              )
      ]

  -- In a contract with the invariant, reverting a retirement of at most what the inactive stake
  -- holds, with any receipt or none, does not panic; if it succeeds, the invariant holds again and
  -- the balance is less by exactly the value.
  pub revert_retire_recipient-Settles :
      (receipt : Option InactiveStakeReceipt) (st : InactiveStake)
      → get a s.inactive_stake_by_address ≡ some st
      → value ≤ st.balance
      → Settles 0 value s (revert_retire_recipient a value receipt s)
  revert_retire_recipient-Settles receipt st found covers =
      elim (revert_retire_recipient_cases s a value receipt st found) [
        | inl e ↦ subst (Settles 0 value s) (sym e) tt
        | inr e ↦ subst (Settles 0 value s) (sym e) (
            discard-Settles 0 value s (reactivate_sender a value _ s)
              (reactivate_sender-Settles _ st found covers))
      ]

  -- Reverting a re-activation.
  pub revert_reactivate_sender-Settles :
      (receipt : Option InactiveStakeReceipt)
      → Settles value 0 s (revert_reactivate_sender a value receipt s)
  unfolding revert_reactivate_sender
  revert_reactivate_sender-Settles receipt =
      discard-Settles value 0 s (retire_recipient a value (receipt_time receipt) s)
        (retire_recipient-Settles (receipt_time receipt))

  -- Reverting an unstaking in a contract with the invariant, with any receipt or none, does not
  -- panic; if it succeeds, the invariant holds again and the balance is more by exactly the value.
  pub revert_unstake-Settles :
      (receipt : Option InactiveStakeReceipt) → Settles value 0 s (revert_unstake a value receipt s)
  revert_unstake-Settles receipt = elim (balance_add-cases s.balance value) [
    | inr (over, e) ↦ overflow receipt e
    | inl (r, _) ↦ elim (Option-cases (get a s.inactive_stake_by_address)) [
      | inr (st, found) ↦
          fits_found receipt st found r (omega (arith, inactive_balance_le s i a st found))
      | inl absent ↦ fits_new receipt absent r
    ]
  ]
    where
      overflow :
          (t : Option InactiveStakeReceipt)
          → balance_add s.balance value ≡ err invalid_coin_value
          → Settles value 0 s (revert_unstake a value t s)
      overflow t e = unfold revert_unstake in ground arith

      fits_found :
          (t : Option InactiveStakeReceipt) (st : InactiveStake)
          → get a s.inactive_stake_by_address ≡ some st
          → s.balance + value ≤ max_safe_value
          → st.balance + value ≤ max_safe_value
          → Settles value 0 s (revert_unstake a value t s)
      fits_found (some t) st found r q =
          unfold revert_unstake in ground (arith, balance_add_ok s.balance value r)
      fits_found none st found r q =
          subst (Settles value 0 s) (sym (revert_unstake_found s a value st found r q)) (
            replace-Inv s i a (s.balance + value) value 0
                (stake_at (st.balance + value) st.retire_time) (ground arith) (omega arith) r,
            omega arith,
          )

      fits_new :
          (t : Option InactiveStakeReceipt)
          → get a s.inactive_stake_by_address ≡ none
          → s.balance + value ≤ max_safe_value
          → Settles value 0 s (revert_unstake a value t s)
      fits_new none absent r =
          unfold revert_unstake in ground (arith, balance_add_ok s.balance value r)
      fits_new (some t) absent r =
          subst (Settles value 0 s) (sym (revert_unstake_new s a value t absent r)) (
            put-Inv s i a (s.balance + value) value 0 (stake_at value t.retire_time) (ground arith)
                (omega arith) r,
            omega arith,
          )
