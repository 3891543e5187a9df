-- ===== src/Account/Staking/Results.antt =====
-- How the operations on inactive stake end, as equations: the result and the whole new state.
use nimiq_core_rs_albatross.Base.{ℕ, ◌+◌, ◌-◌, ◌≤◌, ◌<◌, ◌≡◌, Option, none, some, arith, unwrap_or}
use nimiq_core_rs_albatross.Primitives.Coin.{Coin, max_safe_value}
use nimiq_core_rs_albatross.Collections.Map.{Map, get, insert, remove}
use nimiq_core_rs_albatross.Account.Outcome.{ok}
use nimiq_core_rs_albatross.Account.Balance.{balance_add_ok, balance_sub_ok}
use nimiq_core_rs_albatross.Account.Staking.State.{Address, InactiveStake, StakingContract}
use nimiq_core_rs_albatross.Account.Staking.Staker.{
  InactiveStakeReceipt, retire_recipient, reactivate_sender, unstake, revert_unstake,
}

abbrev pub with_inactive : Coin → Map InactiveStake → StakingContract → StakingContract
with_inactive balance stakes s = record s { balance = balance; inactive_stake_by_address = stakes }

abbrev pub receipt_of : InactiveStake → InactiveStakeReceipt
receipt_of st = record { retire_time = st.retire_time }

abbrev pub stake_at : Coin → ℕ → InactiveStake
stake_at balance time = record { balance = balance; retire_time = time }

module _ (s : StakingContract) (a : Address) (value : Coin) where
  pub retire_recipient_found :
      (time : Option ℕ) (st : InactiveStake)
      → get a s.inactive_stake_by_address ≡ some st
      → s.balance + value ≤ max_safe_value
      → st.balance + value ≤ max_safe_value
      → retire_recipient a value time s ≡ (
        ok (some (receipt_of st)),
        with_inactive
            (s.balance + value)
            (insert a
              (stake_at (st.balance + value) (unwrap_or time st.retire_time))
              (remove a s.inactive_stake_by_address))
            s,
      )
  unfolding retire_recipient
  retire_recipient_found time st found r q =
      ground (arith, balance_add_ok s.balance value r, balance_add_ok st.balance value q)

  pub retire_recipient_new :
      (time : ℕ)
      → get a s.inactive_stake_by_address ≡ none
      → s.balance + value ≤ max_safe_value
      → retire_recipient a value (some time) s ≡ (
        ok none,
        with_inactive
            (s.balance + value)
            (insert a (stake_at value time) s.inactive_stake_by_address)
            s,
      )
  unfolding retire_recipient
  retire_recipient_new time absent r = ground (arith, balance_add_ok s.balance value r)

  pub reactivate_sender_part :
      (time : Option ℕ) (st : InactiveStake)
      → get a s.inactive_stake_by_address ≡ some st
      → value ≤ s.balance
      → s.balance ≤ max_safe_value
      → value < st.balance
      → st.balance ≤ max_safe_value
      → reactivate_sender a value time s ≡ (
        ok none,
        with_inactive
            (s.balance - value)
            (insert a
              (stake_at (st.balance - value) (unwrap_or time st.retire_time))
              (remove a s.inactive_stake_by_address))
            s,
      )
  unfolding reactivate_sender
  reactivate_sender_part time st found le r part q =
      ground (arith, balance_sub_ok s.balance value r le, balance_sub_ok st.balance value q)

  pub reactivate_sender_all :
      (time : Option ℕ) (st : InactiveStake)
      → get a s.inactive_stake_by_address ≡ some st
      → value ≤ s.balance
      → s.balance ≤ max_safe_value
      → st.balance ≤ value
      → reactivate_sender a value time s ≡ (
        ok (some (receipt_of st)),
        with_inactive (s.balance - value) (remove a s.inactive_stake_by_address) s,
      )
  unfolding reactivate_sender
  reactivate_sender_all time st found le r all = ground (arith, balance_sub_ok s.balance value r le)

  pub unstake_part :
      (st : InactiveStake)
      → get a s.inactive_stake_by_address ≡ some st
      → value ≤ s.balance
      → s.balance ≤ max_safe_value
      → value < st.balance
      → st.balance ≤ max_safe_value
      → unstake a value s ≡ (
        ok none,
        with_inactive
            (s.balance - value)
            (insert a
              (stake_at (st.balance - value) st.retire_time)
              (remove a s.inactive_stake_by_address))
            s,
      )
  unfolding unstake
  unstake_part st found le r part q =
      ground (arith, balance_sub_ok s.balance value r le, balance_sub_ok st.balance value q)

  pub unstake_all :
      (st : InactiveStake)
      → get a s.inactive_stake_by_address ≡ some st
      → value ≤ s.balance
      → s.balance ≤ max_safe_value
      → st.balance ≡ value
      → unstake a value s ≡ (
        ok (some (receipt_of st)),
        with_inactive (s.balance - value) (remove a s.inactive_stake_by_address) s,
      )
  unfolding unstake
  unstake_all st found le r all = ground (arith, balance_sub_ok s.balance value r le)

  pub revert_unstake_found :
      (st : InactiveStake)
      → get a s.inactive_stake_by_address ≡ some st
      → s.balance + value ≤ max_safe_value
      → st.balance + value ≤ max_safe_value
      → revert_unstake a value none s ≡ (
        ok tt,
        with_inactive
            (s.balance + value)
            (insert a
              (stake_at (st.balance + value) st.retire_time)
              (remove a s.inactive_stake_by_address))
            s,
      )
  unfolding revert_unstake
  revert_unstake_found st found r q =
      ground (arith, balance_add_ok s.balance value r, balance_add_ok st.balance value q)

  pub revert_unstake_new :
      (receipt : InactiveStakeReceipt)
      → get a s.inactive_stake_by_address ≡ none
      → s.balance + value ≤ max_safe_value
      → revert_unstake a value (some receipt) s ≡ (
        ok tt,
        with_inactive
            (s.balance + value)
            (insert a (stake_at value receipt.retire_time) s.inactive_stake_by_address)
            s,
      )
  unfolding revert_unstake
  revert_unstake_new receipt absent r = ground (arith, balance_add_ok s.balance value r)
