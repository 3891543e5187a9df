-- ===== src/Account/Staking/Reversal/Change.antt =====
-- Changing a validator and changing it back, through `remove_validator` and `restore_validator`.
use nimiq_core_rs_albatross.Base.{
  ℕ, ◌≤◌, ◌≡◌, refl, sym, ap, ◌∙◌, subst, none, some, arith, inl, inr, Option-cases,
}
use nimiq_core_rs_albatross.Primitives.Coin.{Coin, max_safe_value}
use nimiq_core_rs_albatross.Collections.Map.{get, remove}
use nimiq_core_rs_albatross.Collections.Map.Order.{insert-remove, get-insert_self, get-remove_self}
use nimiq_core_rs_albatross.Collections.Map.Entries.{remove-AllEntries}
use nimiq_core_rs_albatross.Account.Outcome.{AccountError, Outcome, ok, err, panic, Action}
use nimiq_core_rs_albatross.Account.Staking.State.{
  Validator, InactiveValidator, StakingContract, sorted_insert, sorted_remove,
}
use nimiq_core_rs_albatross.Account.Staking.Entry.{
  ValidatorEntry, active, inactive, replace, as_validator, with_validator,
}
use nimiq_core_rs_albatross.Account.Staking.Contract.{get_validator, restore_validator}
use nimiq_core_rs_albatross.Account.Staking.Staker.{set_balance}
use nimiq_core_rs_albatross.Account.Staking.Lifecycle.{put_active, put_retired}
use nimiq_core_rs_albatross.Account.Staking.Invariant.{Inv, IsFunded}
use nimiq_core_rs_albatross.Account.Staking.Conservation.Entry.{
  change_validator, resume, without_active, without_retired, remove_validator_active,
  remove_validator_retired, remove_validator_absent, get_active-IsFunded, get_retired-IsFunded,
  active_balance_le, retired_balance_le,
}
use nimiq_core_rs_albatross.Account.Staking.Conservation.Validators.{retired_free}
use nimiq_core_rs_albatross.Account.Staking.Sorted.{sorted_remove-sorted_insert}
use nimiq_core_rs_albatross.Account.Staking.Sorted.Coherence.{
  sort_of, IsCoherent, sort_of-insert, sort_of-remove, sort_of-Apart,
}
use nimiq_core_rs_albatross.Account.Staking.Reversal.{Reverts}
use nimiq_core_rs_albatross.Account.Staking.Reversal.Inactive.{replace_back}

get_validator_active :
    (k : ℕ) (v : Validator) (s : StakingContract)
    → get k s.active_validators_by_key ≡ some v
    → get_validator k s ≡ some v
unfolding get_validator
get_validator_active k v s found = ground (arith, found)

get_validator_retired :
    (k : ℕ) (v : InactiveValidator) (s : StakingContract)
    → get k s.active_validators_by_key ≡ none
    → get k s.inactive_validators_by_key ≡ some v
    → get_validator k s ≡ some v.validator
unfolding get_validator
get_validator_retired k v s free found = ground (arith, free, found)

replace_ok :
    (entry : ValidatorEntry) (r : Outcome Validator × Validator) (v : Validator)
    → r.0 ≡ ok v
    → replace entry r ≡ with_validator entry v
unfolding replace
replace_ok entry (ok u, old) v h = ground (arith, h)
replace_ok entry (err e, old) v h = ground (arith, h)
replace_ok entry (panic, old) v h = ground (arith, h)

module _ (s : StakingContract) (k : ℕ) (e : AccountError) (update : Action Validator Validator)
    (balance : Coin) (v' : Validator) (own : v'.validator_key ≡ k) where
  -- What a change that succeeds makes of an active validator, and of a retired one.
  change_active :
      (v : Validator)
      → get k s.active_validators_by_key ≡ some v
      → (update v).0 ≡ ok v'
      → change_validator k e update balance s
        ≡ (ok tt, set_balance balance (put_active k v' (without_active k v s)))
  unfolding restore_validator with_validator as_validator
  change_active v found h =
      ap (resume e update balance) (remove_validator_active k v s found)
      ∙ rw (replace_ok (active v none) (update v) v' h, own) refl

  change_retired :
      (v : InactiveValidator)
      → get k s.active_validators_by_key ≡ none
      → get k s.inactive_validators_by_key ≡ some v
      → (update v.validator).0 ≡ ok v'
      → change_validator k e update balance s ≡ (
        ok tt,
        set_balance balance (put_retired k (record v { validator = v' }) (without_retired k s)),
      )
  unfolding restore_validator with_validator as_validator
  change_retired v free found h =
      ap (resume e update balance) (remove_validator_retired k v s free found)
      ∙ rw (replace_ok (inactive v none) (update v.validator) v' h, own) refl

-- A change that succeeded keeps the key, and `undo` leads back.
abbrev pub Undone :
    ℕ → Validator → Action Validator Validator → Outcome Validator × Validator → Type 0
Undone k v undo (ok v', old) = (v'.validator_key ≡ k) × ((undo v').0 ≡ ok v)
Undone k v undo (err e, old) = Unit
Undone k v undo (panic, old) = ⊥

module _ (s : StakingContract) (i : Inv s) (c : IsCoherent s) (k : ℕ) (e e' : AccountError)
    (update undo : Action Validator Validator) (balance balance' : Coin)
    (same : balance' ≡ s.balance) where
  -- The sorted set, with a validator exchanged for another one of its key, and back.
  sorted_back :
      (v v' : Validator)
      → get k s.active_validators_by_key ≡ some v
      → v'.validator_key ≡ k
      → sorted_insert v
          (sorted_remove v' (sorted_insert v' (sorted_remove v s.active_validators_sorted)))
        ≡ s.active_validators_sorted
  sorted_back v v' found own =
      let m = s.active_validators_by_key in
      let rest = remove k m in
      let funded = remove-AllEntries IsFunded k m i.active_funded in
      let free = get-remove_self k m i.active_sorted in
      let taken : sorted_remove v s.active_validators_sorted ≡ sort_of rest =
        ap (λ us. sorted_remove v us) c
        ∙ sym (sort_of-remove k v m i.active_sorted i.active_funded found) in
      ap (λ us. sorted_insert v (sorted_remove v' (sorted_insert v' us))) taken
      ∙ ap (λ us. sorted_insert v us)
          (sorted_remove-sorted_insert v' (sort_of rest)
            (sort_of-Apart v'.validator_key rest funded (ap (λ j. get j rest) own ∙ free)))
      ∙ sym (sort_of-insert k v rest (get_active-IsFunded s i k v found).own_key funded free)
      ∙ ap sort_of (insert-remove k v m i.active_sorted found)
      ∙ sym c

  active_back :
      (v v' : Validator) (old : Validator)
      → get k s.active_validators_by_key ≡ some v
      → update v ≡ (ok v', old)
      → v'.validator_key ≡ k
      → (undo v').0 ≡ ok v
      → Reverts s (λ _. change_validator k e' undo balance') (change_validator k e update balance s)
  active_back v v' old found h own back =
      let m = s.active_validators_by_key in
      let s' = set_balance balance (put_active k v' (without_active k v s)) in
      let f = get_active-IsFunded s i k v found in
      subst (Reverts s (λ _. change_validator k e' undo balance'))
        (sym (change_active s k e update balance v' own v found (ap (λ p. p.0) h)))
        (change_active s' k e' undo balance' v f.own_key v' (get-insert_self k v' (remove k m)) back
          ∙ ap (λ t. (ok tt, t))
              (rw (same, sorted_back v v' found own, replace_back k v v' m i.active_sorted found)
                refl))

  retired_back :
      (v : InactiveValidator) (v' : Validator) (old : Validator)
      → get k s.inactive_validators_by_key ≡ some v
      → update v.validator ≡ (ok v', old)
      → v'.validator_key ≡ k
      → (undo v').0 ≡ ok v.validator
      → Reverts s (λ _. change_validator k e' undo balance') (change_validator k e update balance s)
  retired_back v v' old found h own back =
      let m = s.inactive_validators_by_key in
      let new : InactiveValidator = record v { validator = v' } in
      let s' = set_balance balance (put_retired k new (without_retired k s)) in
      let f = get_retired-IsFunded s i k v found in
      let free = retired_free s i k v found in
      subst (Reverts s (λ _. change_validator k e' undo balance'))
        (sym (change_retired s k e update balance v' own v free found (ap (λ p. p.0) h)))
        (change_retired s' k e' undo balance' v.validator f.own_key new free
            (get-insert_self k new (remove k m)) back
          ∙ ap (λ t. (ok tt, t)) (rw (same, replace_back k v new m i.retired_sorted found) refl))

  act :
      (v : Validator) (r : Outcome Validator × Validator)
      → get k s.active_validators_by_key ≡ some v
      → update v ≡ r
      → Undone k v undo r
      → Reverts s (λ _. change_validator k e' undo balance') (change_validator k e update balance s)
  unfolding as_validator replace restore_validator
  act v (ok v', old) found h u = active_back v v' old found h u.0 u.1
  act v (err x, old) found h u =
      subst (λ p. Reverts s (λ _. change_validator k e' undo balance') (resume e update balance p))
        (sym (remove_validator_active k v s found)) (rw (h, Reverts) tt)
  act v (panic, old) found h u = elim u [ ]

  act_retired :
      (v : InactiveValidator) (r : Outcome Validator × Validator)
      → get k s.inactive_validators_by_key ≡ some v
      → update v.validator ≡ r
      → Undone k v.validator undo r
      → Reverts s (λ _. change_validator k e' undo balance') (change_validator k e update balance s)
  unfolding as_validator replace restore_validator
  act_retired v (ok v', old) found h u = retired_back v v' old found h u.0 u.1
  act_retired v (err x, old) found h u =
      subst (λ p. Reverts s (λ _. change_validator k e' undo balance') (resume e update balance p))
        (sym (remove_validator_retired k v s (retired_free s i k v found) found))
        (rw (h, Reverts) tt)
  act_retired v (panic, old) found h u = elim u [ ]

  -- A change of a validator that its `undo` undoes is a change of the contract that is undone.
  pub change_back :
      ((v : Validator)
        → get_validator k s ≡ some v
        → IsFunded k v
        → v.balance ≤ max_safe_value
        → Undone k v undo (update v))
      → Reverts s (λ _. change_validator k e' undo balance') (change_validator k e update balance s)
  change_back undone = elim (Option-cases (get k s.active_validators_by_key)) [
    | inr (v, found) ↦ act v (update v) found refl (
        undone v (get_validator_active k v s found) (get_active-IsFunded s i k v found)
          (omega (arith, active_balance_le s i k v found, i.in_range)))
    | inl free ↦ elim (Option-cases (get k s.inactive_validators_by_key)) [
      | inr (v, found) ↦ act_retired v (update v.validator) found refl (
          undone v.validator (get_validator_retired k v s free found)
            (get_retired-IsFunded s i k v found)
            (omega (arith, retired_balance_le s i k v found, i.in_range)))
      | inl absent ↦
          subst
            (λ p. Reverts s (λ _. change_validator k e' undo balance') (resume e update balance p))
            (sym (remove_validator_absent k s free absent)) tt
    ]
  ]
