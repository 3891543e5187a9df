-- ===== src/Account/Staking/Reversal/Retired.antt =====
-- Undoing the receiving side of a retirement.
use nimiq_core_rs_albatross.Base.{
  ℕ, ◌+◌, ◌-◌, ◌≤◌, ◌<◌, ◌≡◌, refl, sym, ap, ◌∙◌, subst, Option, none, some, arith, inl, inr,
  Option-cases, unwrap_or,
}
use nimiq_core_rs_albatross.Primitives.Coin.{Coin, max_safe_value}
use nimiq_core_rs_albatross.Collections.Map.{get, insert, remove}
use nimiq_core_rs_albatross.Collections.Map.Order.{remove-insert, get-insert_self}
use nimiq_core_rs_albatross.Account.Outcome.{ok, err, invalid_coin_value}
use nimiq_core_rs_albatross.Account.Balance.{balance_add, balance_add-cases}
use nimiq_core_rs_albatross.Account.Staking.State.{Address, InactiveStake, StakingContract}
use nimiq_core_rs_albatross.Account.Staking.Staker.{
  InactiveStakeReceipt, retire_recipient, revert_retire_recipient, reactivate_sender,
}
use nimiq_core_rs_albatross.Account.Staking.Results.{
  stake_at, receipt_of, with_inactive, retire_recipient_found, retire_recipient_new,
  reactivate_sender_part, reactivate_sender_all,
}
use nimiq_core_rs_albatross.Account.Staking.Invariant.{Inv}
use nimiq_core_rs_albatross.Account.Staking.Conservation.InactiveEntry.{inactive_balance_le}
use nimiq_core_rs_albatross.Account.Staking.Conservation.Inactive.{discard}
use nimiq_core_rs_albatross.Account.Staking.Reversal.{Reverts}
use nimiq_core_rs_albatross.Account.Staking.Reversal.Inactive.{replace_back, back}

-- A reversal that is not refused is a re-activation.
revert_retire_part :
    (s : StakingContract) (a : Address) (value : Coin) (receipt : InactiveStakeReceipt)
    (st : InactiveStake)
    → get a s.inactive_stake_by_address ≡ some st
    → value < st.balance
    → revert_retire_recipient a value (some receipt) s
      ≡ discard (reactivate_sender a value (some receipt.retire_time) s)
unfolding revert_retire_recipient
revert_retire_part s a value receipt st found part = ground (arith, found, part)

revert_retire_all :
    (s : StakingContract) (a : Address) (value : Coin) (st : InactiveStake)
    → get a s.inactive_stake_by_address ≡ some st
    → st.balance ≡ value
    → revert_retire_recipient a value none s ≡ discard (reactivate_sender a value (some 0) s)
unfolding revert_retire_recipient
revert_retire_all s a value st found all = ground (arith, found, all)

module _ (s : StakingContract) (i : Inv s) (a : Address) (value : Coin) where
  undo_retire_found :
      (time : Option ℕ) (st : InactiveStake)
      → get a s.inactive_stake_by_address ≡ some st
      → 0 < st.balance
      → s.balance + value ≤ max_safe_value
      → Reverts s
          (λ receipt. revert_retire_recipient a value receipt)
          (retire_recipient a value time s)
  undo_retire_found time st found pos r =
      let le = inactive_balance_le s i a st found in
      let m = s.inactive_stake_by_address in
      let new = stake_at (st.balance + value) (unwrap_or time st.retire_time) in
      let s' = with_inactive (s.balance + value) (insert a new (remove a m)) s in
      let there : get a s'.inactive_stake_by_address ≡ some new =
        get-insert_self a new (remove a m) in
      let old : stake_at (st.balance + value - value) st.retire_time ≡ st =
        ap (λ b. stake_at b st.retire_time) (omega arith) in
      subst (Reverts s (λ receipt. revert_retire_recipient a value receipt))
        (sym (retire_recipient_found s a value time st found r (omega (arith, r, le))))
        (revert_retire_part s' a value (receipt_of st) new there (omega (arith, pos))
          ∙ ap discard (
              reactivate_sender_part s' a value (some st.retire_time) new there (omega arith) r
                (omega (arith, pos)) (omega (arith, r, le)))
          ∙ ap (λ t. (ok tt, t))
              (back s (s.balance + value - value)
                (insert a (stake_at (st.balance + value - value) st.retire_time)
                  (remove a (insert a new (remove a m))))
                (omega arith)
                (ap (λ x. insert a x (remove a (insert a new (remove a m)))) old
                  ∙ replace_back a st new m i.inactive_sorted found)))

  undo_retire_new :
      (time : ℕ)
      → get a s.inactive_stake_by_address ≡ none
      → s.balance + value ≤ max_safe_value
      → Reverts s
          (λ receipt. revert_retire_recipient a value receipt)
          (retire_recipient a value (some time) s)
  undo_retire_new time absent r =
      let m = s.inactive_stake_by_address in
      let new = stake_at value time in
      let s' = with_inactive (s.balance + value) (insert a new m) s in
      let there : get a s'.inactive_stake_by_address ≡ some new = get-insert_self a new m in
      subst (Reverts s (λ receipt. revert_retire_recipient a value receipt))
        (sym (retire_recipient_new s a value time absent r))
        (revert_retire_all s' a value new there refl
          ∙ ap discard
              (reactivate_sender_all s' a value (some 0) new there (omega arith) r (omega arith))
          ∙ ap (λ t. (ok tt, t))
              (back s (s.balance + value - value) (remove a (insert a new m)) (omega arith)
                (remove-insert a new m absent)))

  undo_retire_overflow :
      (time : Option ℕ)
      → balance_add s.balance value ≡ err invalid_coin_value
      → Reverts s
          (λ receipt. revert_retire_recipient a value receipt)
          (retire_recipient a value time s)
  undo_retire_overflow time e = unfold retire_recipient in ground (arith, e)

  undo_retire_absent :
      (time : Option ℕ)
      → get a s.inactive_stake_by_address ≡ none
      → s.balance + value ≤ max_safe_value
      → Reverts s
          (λ receipt. revert_retire_recipient a value receipt)
          (retire_recipient a value time s)
  undo_retire_absent none absent r = unfold retire_recipient in ground (arith, absent)
  undo_retire_absent (some time) absent r = undo_retire_new time absent r

  -- Adding to the inactive stake of an address, in a contract with the invariant and where a stake
  -- that was there before was not empty, does not panic, and if it succeeds, its reversal with the
  -- receipt succeeds and gives the contract back.
  pub revert_retire_recipient-retire_recipient :
      (time : Option ℕ)
      → ((st : InactiveStake) → get a s.inactive_stake_by_address ≡ some st → 0 < st.balance)
      → Reverts s
          (λ receipt. revert_retire_recipient a value receipt)
          (retire_recipient a value time s)
  revert_retire_recipient-retire_recipient time pos = elim (balance_add-cases s.balance value) [
    | inr (over, e) ↦ undo_retire_overflow time e
    | inl (r, e) ↦ elim (Option-cases (get a s.inactive_stake_by_address)) [
      | inl absent ↦ undo_retire_absent time absent r
      | inr (st, found) ↦ undo_retire_found time st found (pos st found) r
    ]
  ]
