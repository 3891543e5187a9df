-- ===== src/Account/Staking/Reversal/Active.antt =====
-- Undoing the operations on active stake.
use nimiq_core_rs_albatross.Base.{
  ℕ, ◌+◌, ◌-◌, ◌≤◌, ◌≡◌, ◌≢◌, refl, sym, ap, ◌∙◌, subst, some, arith, inl, inr, Option-cases,
}
use nimiq_core_rs_albatross.Primitives.Coin.{Coin, max_safe_value, add, is_zero}
use nimiq_core_rs_albatross.Collections.Map.{get}
use nimiq_core_rs_albatross.Collections.Map.Order.{
  insert-remove, remove-insert, insert-insert, insert_same, get-insert_self, get-remove_self,
}
use nimiq_core_rs_albatross.Collections.Map.Sum.{weight-le-sum}
use nimiq_core_rs_albatross.Account.Outcome.{
  AccountError, Outcome, ok, err, panic, invalid_for_recipient, invalid_for_sender,
}
use nimiq_core_rs_albatross.Account.Balance.{
  balance_add, balance_sub, balance_add-cases, balance_sub-cases, balance_add_ok, balance_sub_ok,
}
use nimiq_core_rs_albatross.Account.Staking.State.{
  Address, BlsPublicKey, Validator, StakingContract,
}
use nimiq_core_rs_albatross.Account.Staking.Entry.{
  add_stake, sub_stake, try_add_stake, try_sub_stake,
}
use nimiq_core_rs_albatross.Account.Staking.Contract.{get_validator}
use nimiq_core_rs_albatross.Account.Staking.Staker.{
  stake, revert_stake, retire_sender, revert_retire_sender,
}
use nimiq_core_rs_albatross.Account.Staking.Invariant.{Inv, IsFunded, Settles, own_coins}
use nimiq_core_rs_albatross.Account.Staking.Conservation.Active.{
  stake-Settles, retire_sender-Settles,
}
use nimiq_core_rs_albatross.Account.Staking.Conservation.Entry.{change_validator}
use nimiq_core_rs_albatross.Account.Staking.Sorted.Coherence.{IsCoherent}
use nimiq_core_rs_albatross.Account.Staking.Reversal.{Reverts}
use nimiq_core_rs_albatross.Account.Staking.Reversal.Change.{Undone, change_back}

module _ (k : ℕ) (a : Address) (value : Coin) (v : Validator) (f : IsFunded k v)
    (r : v.balance ≤ max_safe_value) where
  -- Adding a stake and taking it again, unless the validator keeps an empty stake of that address.
  sub_stake-add_stake :
      (e : AccountError)
      → get a v.active_stake_by_address ≢ some 0
      → Undone k v (sub_stake a value e) (add_stake a value v)
  unfolding add_stake sub_stake add is_zero balance_add balance_sub
  sub_stake-add_stake e ne =
      let m = v.active_stake_by_address in
      elim (Option-cases (get a m)) [
        | inl absent ↦
            ground (arith, absent, r, get-insert_self a value m, remove-insert a value m absent)
        | inr (held, found) ↦
            let le = weight-le-sum own_coins a m in
            ground (
              arith,
              found,
              r,
              ne,
              le,
              f.covered,
              get-insert_self a (held + value) m,
              insert-insert a held (held + value) m,
              insert_same a held m f.stakes_sorted found,
            )
      ]

  add_stake-sub_stake : (e : AccountError) → Undone k v (add_stake a value) (sub_stake a value e v)
  unfolding add_stake sub_stake add is_zero balance_add balance_sub
  add_stake-sub_stake e =
      let m = v.active_stake_by_address in
      elim (Option-cases (get a m)) [
        | inl absent ↦ ground (arith, absent)
        | inr (held, found) ↦
            let le = weight-le-sum own_coins a m in
            ground (
              arith,
              found,
              r,
              le,
              f.covered,
              get-insert_self a (held - value) m,
              insert-insert a held (held - value) m,
              insert_same a held m f.stakes_sorted found,
              get-remove_self a m f.stakes_sorted,
              insert-remove a held m f.stakes_sorted found,
            )
      ]

module _ (s : StakingContract) (i : Inv s) (c : IsCoherent s) (a : Address) (value : Coin)
    (k : BlsPublicKey) where
  -- The reversals take the balance back to what it was.
  undo_stake :
      s.balance + value ≤ max_safe_value
      → ((v : Validator) → get_validator k s ≡ some v → get a v.active_stake_by_address ≢ some 0)
      → Reverts s
          (λ _.
            change_validator k invalid_for_recipient
              (sub_stake a value invalid_for_recipient)
              (s.balance + value - value))
          (change_validator k invalid_for_recipient (add_stake a value) (s.balance + value) s)
  undo_stake r ne =
      change_back s i c k invalid_for_recipient invalid_for_recipient (add_stake a value)
        (sub_stake a value invalid_for_recipient) (s.balance + value) (s.balance + value - value)
        (omega arith)
        (λ v found f b. sub_stake-add_stake k a value v f b invalid_for_recipient (ne v found))

  undo_retire_sender :
      value ≤ s.balance
      → Reverts s
          (λ _.
            change_validator k invalid_for_sender (add_stake a value) (s.balance - value + value))
          (change_validator k invalid_for_sender
            (sub_stake a value invalid_for_sender)
            (s.balance - value)
            s)
  undo_retire_sender r =
      change_back s i c k invalid_for_sender invalid_for_sender
        (sub_stake a value invalid_for_sender) (add_stake a value) (s.balance - value)
        (s.balance - value + value) (omega (arith, r))
        (λ v found f b. add_stake-sub_stake k a value v f b invalid_for_sender)

-- The four operations, where the balance allows them, are changes of a validator.
module _ (s : StakingContract) (a : Address) (value : Coin) (k : BlsPublicKey) where
  stake_change :
      s.balance + value ≤ max_safe_value
      → stake a value k s
        ≡ change_validator k invalid_for_recipient (add_stake a value) (s.balance + value) s
  unfolding stake try_add_stake
  stake_change r = rw (balance_add_ok s.balance value r) refl

  revert_stake_change :
      s.balance ≤ max_safe_value
      → value ≤ s.balance
      → revert_stake a value k s
        ≡ change_validator k invalid_for_recipient
            (sub_stake a value invalid_for_recipient)
            (s.balance - value)
            s
  unfolding revert_stake try_sub_stake
  revert_stake_change r le = rw (balance_sub_ok s.balance value r le) refl

  retire_sender_change :
      s.balance ≤ max_safe_value
      → value ≤ s.balance
      → retire_sender a value k s
        ≡ change_validator k invalid_for_sender
            (sub_stake a value invalid_for_sender)
            (s.balance - value)
            s
  unfolding retire_sender try_sub_stake
  retire_sender_change r le = rw (balance_sub_ok s.balance value r le) refl

  revert_retire_sender_change :
      s.balance + value ≤ max_safe_value
      → revert_retire_sender a value k s
        ≡ change_validator k invalid_for_sender (add_stake a value) (s.balance + value) s
  unfolding revert_retire_sender try_add_stake
  revert_retire_sender_change r = rw (balance_add_ok s.balance value r) refl

module _ (s : StakingContract) (a : Address) (value : Coin) (k : BlsPublicKey) where
  as_revert_stake :
      (r : Outcome (Unit {0}) × StakingContract)
      → Settles value 0 s r
      → Reverts s
          (λ _.
            change_validator k invalid_for_recipient
              (sub_stake a value invalid_for_recipient)
              (s.balance + value - value))
          r
      → Reverts s (λ _. revert_stake a value k) r
  as_revert_stake (ok x, s') h u =
      revert_stake_change s' a value k h.0.in_range (omega (arith, h.1))
      ∙ ap
          (λ b.
            change_validator k invalid_for_recipient (sub_stake a value invalid_for_recipient) b s')
          (omega (arith, h.1))
      ∙ u
  as_revert_stake (err e, s') h u = tt
  as_revert_stake (panic, s') h u = u

  as_revert_retire_sender :
      (r : Outcome (Unit {0}) × StakingContract)
      → s.balance ≤ max_safe_value
      → Settles 0 value s r
      → Reverts s
          (λ _.
            change_validator k invalid_for_sender (add_stake a value) (s.balance - value + value))
          r
      → Reverts s (λ _. revert_retire_sender a value k) r
  as_revert_retire_sender (ok x, s') q h u =
      revert_retire_sender_change s' a value k (omega (arith, h.1, q))
      ∙ ap (λ b. change_validator k invalid_for_sender (add_stake a value) b s')
          (omega (arith, h.1))
      ∙ u
  as_revert_retire_sender (err e, s') q h u = tt
  as_revert_retire_sender (panic, s') q h u = u

  -- Staking with a validator, in a contract with the invariant whose sorted set belongs to its
  -- map, and where the validator does not keep an empty stake of that address: it does not panic,
  -- and if it succeeds, its reversal succeeds and gives the contract back.
  pub revert_stake-stake :
      Inv s
      → IsCoherent s
      → ((v : Validator) → get_validator k s ≡ some v → get a v.active_stake_by_address ≢ some 0)
      → Reverts s (λ _. revert_stake a value k) (stake a value k s)
  revert_stake-stake i c ne = elim (balance_add-cases s.balance value) [
    | inr (over, e) ↦ unfold stake in rw (e, Reverts) tt
    | inl (r, _) ↦ as_revert_stake (stake a value k s) (stake-Settles s i a value k) (
        subst
          (Reverts s (λ _.
            change_validator k invalid_for_recipient (sub_stake a value invalid_for_recipient)
              (s.balance + value - value)))
          (sym (stake_change s a value k r)) (undo_stake s i c a value k r ne))
  ]

  -- Taking active stake for a retirement, in a contract with the invariant whose sorted set
  -- belongs to its map, does not panic, and if it succeeds, its reversal succeeds and gives the
  -- contract back.
  pub revert_retire_sender-retire_sender :
      Inv s
      → IsCoherent s
      → Reverts s (λ _. revert_retire_sender a value k) (retire_sender a value k s)
  revert_retire_sender-retire_sender i c = elim (balance_sub-cases s.balance value i.in_range) [
    | inr (over, e) ↦ unfold retire_sender in rw (e, Reverts) tt
    | inl (r, _) ↦
        as_revert_retire_sender (retire_sender a value k s) i.in_range
          (retire_sender-Settles s i a value k)
          (subst
            (Reverts s (λ _.
              change_validator k invalid_for_sender (add_stake a value)
                (s.balance - value + value)))
            (sym (retire_sender_change s a value k i.in_range r))
            (undo_retire_sender s i c a value k r))
  ]
