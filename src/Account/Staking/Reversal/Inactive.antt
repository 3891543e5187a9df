-- ===== src/Account/Staking/Reversal/Inactive.antt =====
-- Undoing the operations on inactive stake.
use nimiq_core_rs_albatross.Base.{
  ℕ, ◌+◌, ◌-◌, ◌≤◌, ◌<◌, ◌≡◌, refl, sym, ap, ◌∙◌, subst, none, some, arith, inl, inr, order_cases,
}
use nimiq_core_rs_albatross.Primitives.Coin.{Coin}
use nimiq_core_rs_albatross.Collections.Map.{Map, get, insert, remove}
use nimiq_core_rs_albatross.Collections.Map.Order.{
  IsSorted, insert-remove, remove_absent, remove-insert_self, get-insert_self, get-remove_self,
  remove-IsSorted,
}
use nimiq_core_rs_albatross.Account.Outcome.{ok}
use nimiq_core_rs_albatross.Account.Staking.State.{Address, InactiveStake, StakingContract}
use nimiq_core_rs_albatross.Account.Staking.Staker.{
  reactivate_sender, revert_reactivate_sender, unstake, revert_unstake,
}
use nimiq_core_rs_albatross.Account.Staking.Results.{
  stake_at, receipt_of, with_inactive, retire_recipient_found, retire_recipient_new,
  reactivate_sender_part, reactivate_sender_all, unstake_part, unstake_all, revert_unstake_found,
  revert_unstake_new,
}
use nimiq_core_rs_albatross.Account.Staking.Invariant.{Inv}
use nimiq_core_rs_albatross.Account.Staking.Conservation.InactiveEntry.{inactive_balance_le}
use nimiq_core_rs_albatross.Account.Staking.Conservation.Inactive.{discard}
use nimiq_core_rs_albatross.Account.Staking.Reversal.{Reverts}

module _ {V : Type 0} (k : ℕ) (v w : V) (m : Map V) (o : IsSorted m)
    (found : get k m ≡ some v) where
  -- Replacing an entry and then replacing it by what it was.
  pub replace_back : insert k v (remove k (insert k w (remove k m))) ≡ m
  replace_back =
      ap (λ t. insert k v t)
        (remove-insert_self k w (remove k m) (remove-IsSorted k m o)
          ∙ remove_absent k (remove k m) (get-remove_self k m o))
      ∙ insert-remove k v m o found

-- The balance and the inactive stakes are all that these operations write.
pub back :
    (s : StakingContract) (balance : Coin) (m : Map InactiveStake)
    → balance ≡ s.balance
    → m ≡ s.inactive_stake_by_address
    → with_inactive balance m s ≡ s
back s balance m e f = rw (e, f) refl

module _ (s : StakingContract) (i : Inv s) (a : Address) (value : Coin) (st : InactiveStake)
    (found : get a s.inactive_stake_by_address ≡ some st) where
  -- What was a part of a stake is added to the rest.
  stake_whole : value ≤ st.balance → stake_at (st.balance - value + value) st.retire_time ≡ st
  stake_whole le = ap (λ b. stake_at b st.retire_time) (omega (arith, le))

  rejoined :
      value ≤ st.balance
      → let m = s.inactive_stake_by_address in
        let rest = stake_at (st.balance - value) st.retire_time in
        with_inactive
          (s.balance - value + value)
          (insert a
            (stake_at (st.balance - value + value) st.retire_time)
            (remove a (insert a rest (remove a m))))
          s
        ≡ s
  rejoined le =
      let m = s.inactive_stake_by_address in
      let others =
        remove a (insert a (stake_at (st.balance - value) st.retire_time) (remove a m)) in
      back s (s.balance - value + value)
        (insert a (stake_at (st.balance - value + value) st.retire_time) others)
        (omega (arith, le, inactive_balance_le s i a st found))
        (ap (λ x. insert a x others) (stake_whole le)
          ∙ replace_back a st (stake_at (st.balance - value) st.retire_time) m i.inactive_sorted
              found)

  -- A whole stake that was taken is put back.
  returned :
      value ≡ st.balance
      → with_inactive
          (s.balance - value + value)
          (insert a (stake_at value st.retire_time) (remove a s.inactive_stake_by_address))
          s
        ≡ s
  returned all =
      let others = remove a s.inactive_stake_by_address in
      back s (s.balance - value + value) (insert a (stake_at value st.retire_time) others)
        (omega (arith, all, inactive_balance_le s i a st found))
        (ap (λ b. insert a (stake_at b st.retire_time) others) all
          ∙ insert-remove a st s.inactive_stake_by_address i.inactive_sorted found)

  undo_unstake_part :
      value < st.balance → Reverts s (λ receipt. revert_unstake a value receipt) (unstake a value s)
  undo_unstake_part part =
      let le = inactive_balance_le s i a st found in
      let m = s.inactive_stake_by_address in
      let rest = stake_at (st.balance - value) st.retire_time in
      let s' = with_inactive (s.balance - value) (insert a rest (remove a m)) s in
      subst (Reverts s (λ receipt. revert_unstake a value receipt))
        (sym (
          unstake_part s a value st found (omega (arith, part, le)) i.in_range part
            (omega (arith, le, i.in_range))))
        (revert_unstake_found s' a value rest (get-insert_self a rest (remove a m))
            (omega (arith, part, le, i.in_range)) (omega (arith, part, le, i.in_range))
          ∙ ap (λ t. (ok tt, t)) (rejoined (omega (arith, part))))

  undo_unstake_all :
      value ≡ st.balance → Reverts s (λ receipt. revert_unstake a value receipt) (unstake a value s)
  undo_unstake_all all =
      let le = inactive_balance_le s i a st found in
      let m = s.inactive_stake_by_address in
      let s' = with_inactive (s.balance - value) (remove a m) s in
      subst (Reverts s (λ receipt. revert_unstake a value receipt))
        (sym (unstake_all s a value st found (omega (arith, all, le)) i.in_range (sym all)))
        (revert_unstake_new s' a value (receipt_of st) (get-remove_self a m i.inactive_sorted)
            (omega (arith, all, le, i.in_range))
          ∙ ap (λ t. (ok tt, t)) (returned all))

  -- Unstaking at most what the inactive stake holds, in a contract with the invariant, does not
  -- panic, and if it succeeds, its reversal with the receipt succeeds and gives the contract back.
  pub revert_unstake-unstake :
      value ≤ st.balance → Reverts s (λ receipt. revert_unstake a value receipt) (unstake a value s)
  revert_unstake-unstake le = elim (order_cases value st.balance) [
    | inl part ↦ undo_unstake_part part
    | inr (inl all) ↦ undo_unstake_all all
    | inr (inr more) ↦ ground (arith, le, more)
  ]

  undo_reactivate_part :
      value < st.balance
      → Reverts s
          (λ receipt. revert_reactivate_sender a value receipt)
          (reactivate_sender a value none s)
  undo_reactivate_part part =
      let le = inactive_balance_le s i a st found in
      let m = s.inactive_stake_by_address in
      let rest = stake_at (st.balance - value) st.retire_time in
      let s' = with_inactive (s.balance - value) (insert a rest (remove a m)) s in
      subst (Reverts s (λ receipt. revert_reactivate_sender a value receipt))
        (sym (
          reactivate_sender_part s a value none st found (omega (arith, part, le)) i.in_range part
            (omega (arith, le, i.in_range))))
        (unfold revert_reactivate_sender in
          ap discard (
            retire_recipient_found s' a value none rest (get-insert_self a rest (remove a m))
              (omega (arith, part, le, i.in_range)) (omega (arith, part, le, i.in_range)))
          ∙ ap (λ t. (ok tt, t)) (rejoined (omega (arith, part))))

  undo_reactivate_all :
      value ≡ st.balance
      → Reverts s
          (λ receipt. revert_reactivate_sender a value receipt)
          (reactivate_sender a value none s)
  undo_reactivate_all all =
      let le = inactive_balance_le s i a st found in
      let m = s.inactive_stake_by_address in
      let s' = with_inactive (s.balance - value) (remove a m) s in
      subst (Reverts s (λ receipt. revert_reactivate_sender a value receipt))
        (sym (
          reactivate_sender_all s a value none st found (omega (arith, all, le)) i.in_range
            (omega (arith, all))))
        (unfold revert_reactivate_sender in
          ap discard (
            retire_recipient_new s' a value st.retire_time (get-remove_self a m i.inactive_sorted)
              (omega (arith, all, le, i.in_range)))
          ∙ ap (λ t. (ok tt, t)) (returned all))

  -- Taking at most what the inactive stake holds for a re-activation, in a contract with the
  -- invariant, does not panic, and if it succeeds, its reversal with the receipt succeeds and
  -- gives the contract back.
  pub revert_reactivate_sender-reactivate_sender :
      value ≤ st.balance
      → Reverts s
          (λ receipt. revert_reactivate_sender a value receipt)
          (reactivate_sender a value none s)
  revert_reactivate_sender-reactivate_sender le = elim (order_cases value st.balance) [
    | inl part ↦ undo_reactivate_part part
    | inr (inl all) ↦ undo_reactivate_all all
    | inr (inr more) ↦ ground (arith, le, more)
  ]
