-- ===== src/Account/Staking/Sorted/Operations.antt =====
-- The operations keep the sorted set of active validators the one that belongs to the map.
use nimiq_core_rs_albatross.Base.{
  ℕ, ◌≤◌, ◌+◌, ◌-◌, ◌≡◌, refl, sym, ap, ◌∙◌, subst, none, some, arith, inl, inr, Option-cases,
}
use nimiq_core_rs_albatross.Primitives.Coin.{Coin, max_safe_value}
use nimiq_core_rs_albatross.Collections.Map.{get, remove}
use nimiq_core_rs_albatross.Collections.Map.Order.{get-remove_self}
use nimiq_core_rs_albatross.Collections.Map.Entries.{remove-AllEntries}
use nimiq_core_rs_albatross.Account.Outcome.{
  AccountError, Outcome, ok, err, panic, Action, invalid_for_recipient, invalid_for_sender,
}
use nimiq_core_rs_albatross.Account.Balance.{balance_add-cases, balance_sub-cases}
use nimiq_core_rs_albatross.Account.Staking.State.{
  Address, BlsPublicKey, Validator, InactiveValidator, StakingContract, sorted_insert,
  sorted_remove,
}
use nimiq_core_rs_albatross.Account.Staking.Entry.{
  active, inactive, replace, as_validator, add_stake, sub_stake, try_add_stake, try_sub_stake,
  new_validator,
}
use nimiq_core_rs_albatross.Account.Staking.Contract.{restore_validator}
use nimiq_core_rs_albatross.Account.Staking.Staker.{
  stake, revert_stake, retire_sender, revert_retire_sender,
}
use nimiq_core_rs_albatross.Account.Staking.Lifecycle.{
  create_validator, retire_validator, reactivate_validator, put_active,
}
use nimiq_core_rs_albatross.Account.Staking.Invariant.{Inv, IsFunded}
use nimiq_core_rs_albatross.Account.Staking.Invariant.Stakes.{
  Moves, add_stake-Moves, sub_stake-Moves,
}
use nimiq_core_rs_albatross.Account.Staking.Conservation.Entry.{
  change_validator, resume, without_active, remove_validator_active, remove_validator_retired,
  remove_validator_absent, get_active-IsFunded, get_retired-IsFunded, active_balance_le,
  retired_balance_le,
}
use nimiq_core_rs_albatross.Account.Staking.Conservation.Validators.{
  retire_validator_lem, reactivate_validator_lem, create_validator_lem, retired_free,
}
use nimiq_core_rs_albatross.Account.Staking.Sorted.Coherence.{
  IsCoherent, sort_of-insert, sort_of-remove,
}

-- However the call ended, the sorted set belongs to the map.
abbrev pub Stays : {A : Type 0} → Outcome A × StakingContract → Type 0
Stays (ok a, s) = IsCoherent s
Stays (err e, s) = IsCoherent s
Stays (panic, s) = ⊥

module _ (s : StakingContract) (i : Inv s) (c : IsCoherent s) (k : ℕ) where
  enter-IsCoherent :
      (v : Validator)
      → v.validator_key ≡ k
      → get k s.active_validators_by_key ≡ none
      → IsCoherent (put_active k v s)
  enter-IsCoherent v own free =
      ap (λ us. sorted_insert v us) c
      ∙ sym (sort_of-insert k v s.active_validators_by_key own i.active_funded free)

  leave-IsCoherent :
      (v : Validator)
      → get k s.active_validators_by_key ≡ some v
      → IsCoherent (without_active k v s)
  leave-IsCoherent v found =
      ap (λ us. sorted_remove v us) c
      ∙ sym (sort_of-remove k v s.active_validators_by_key i.active_sorted i.active_funded found)

  exchange-IsCoherent :
      (v v' : Validator)
      → get k s.active_validators_by_key ≡ some v
      → v'.validator_key ≡ k
      → IsCoherent (put_active k v' (without_active k v s))
  exchange-IsCoherent v v' found own =
      let m = s.active_validators_by_key in
      ap (λ us. sorted_insert v' us) (leave-IsCoherent v found)
      ∙ sym (
          sort_of-insert k v' (remove k m) own (remove-AllEntries IsFunded k m i.active_funded)
            (get-remove_self k m i.active_sorted))

  finish_coherent :
      (plus minus : ℕ) (balance : Coin) (v : Validator) (r : Outcome Validator × Validator)
      (update : Action Validator Validator) (e : AccountError)
      → get k s.active_validators_by_key ≡ some v
      → update v ≡ r
      → Moves plus minus k v r
      → Stays (resume e update balance (ok (some (active v none)), without_active k v s))
  unfolding restore_validator replace as_validator
  finish_coherent plus minus balance v (ok v', old) update e found h m =
      rw (h, Stays)
        (subst (λ j. IsCoherent (put_active j v' (without_active k v s))) (sym m.0.own_key)
          (exchange-IsCoherent v v' found m.0.own_key))
  finish_coherent plus minus balance v (err x, old) update e found h m =
      let own = (get_active-IsFunded s i k v found).own_key in
      let same : IsCoherent (put_active v.validator_key v (without_active k v s)) =
        subst (λ j. IsCoherent (put_active j v (without_active k v s))) (sym own)
          (exchange-IsCoherent v v found own) in
      rw (h, Stays)
        (subst (λ u. IsCoherent (put_active u.validator_key u (without_active k v s))) (sym m) same)
  finish_coherent plus minus balance v (panic, old) update e found h m = elim m [ ]

  finish_retired_coherent :
      (plus minus : ℕ) (balance : Coin) (v : InactiveValidator) (r : Outcome Validator × Validator)
      (update : Action Validator Validator) (e : AccountError) (s' : StakingContract)
      → IsCoherent s'
      → update v.validator ≡ r
      → Moves plus minus k v.validator r
      → Stays (resume e update balance (ok (some (inactive v none)), s'))
  unfolding restore_validator replace as_validator
  finish_retired_coherent plus minus balance v (ok v', old) update e s' c' h m = rw (h, Stays) c'
  finish_retired_coherent plus minus balance v (err x, old) update e s' c' h m = rw (h, Stays) c'
  finish_retired_coherent plus minus balance v (panic, old) update e s' c' h m = elim m [ ]

  pub change_coherent :
      (plus minus : ℕ) (balance : Coin) (e : AccountError) (update : Action Validator Validator)
      → ((v : Validator)
          → IsFunded k v
          → v.balance ≤ max_safe_value
          → Moves plus minus k v (update v))
      → Stays (change_validator k e update balance s)
  change_coherent plus minus balance e update moves =
      elim (Option-cases (get k s.active_validators_by_key)) [
        | inr (v, found) ↦
            subst (λ p. Stays (resume e update balance p))
              (sym (remove_validator_active k v s found))
              (finish_coherent plus minus balance v (update v) update e found refl (
                moves v (get_active-IsFunded s i k v found)
                  (omega (arith, active_balance_le s i k v found, i.in_range))))
        | inl free ↦ elim (Option-cases (get k s.inactive_validators_by_key)) [
          | inr (v, found) ↦
              subst (λ p. Stays (resume e update balance p))
                (sym (remove_validator_retired k v s free found))
                (finish_retired_coherent plus minus balance v (update v.validator) update e _ c refl
                  (moves v.validator (get_retired-IsFunded s i k v found)
                    (omega (arith, retired_balance_le s i k v found, i.in_range))))
          | inl absent ↦
              subst (λ p. Stays (resume e update balance p))
                (sym (remove_validator_absent k s free absent)) c
        ]
      ]

module _ (s : StakingContract) (i : Inv s) (c : IsCoherent s) (a : Address) (value : Coin)
    (k : BlsPublicKey) where
  -- In a contract with the invariant whose sorted set of active validators belongs to its map, the
  -- four operations on active stake do not panic and keep it so, also where they fail.
  pub stakes_coherent :
      Stays (stake a value k s)
      × Stays (revert_stake a value k s)
      × Stays (retire_sender a value k s)
      × Stays (revert_retire_sender a value k s)
  unfolding stake try_add_stake revert_stake try_sub_stake retire_sender revert_retire_sender
  stakes_coherent =
      let adds = λ (e : AccountError).
        change_coherent s i c k value 0 (s.balance + value) e (add_stake a value)
          (λ v f _. add_stake-Moves k a value v f) in
      let subs = λ (e e' : AccountError).
        change_coherent s i c k 0 value (s.balance - value) e (sub_stake a value e')
          (λ v f b. sub_stake-Moves k a value e' v f b) in
      (
        elim (balance_add-cases s.balance value) [
          | inl (r, e) ↦ rw (e, Stays) (adds invalid_for_recipient)
          | inr (r, e) ↦ rw (e, Stays) c
        ],
        elim (balance_sub-cases s.balance value i.in_range) [
          | inl (r, e) ↦ rw (e, Stays) (subs invalid_for_recipient invalid_for_recipient)
          | inr (r, e) ↦ rw (e, Stays) c
        ],
        elim (balance_sub-cases s.balance value i.in_range) [
          | inl (r, e) ↦ rw (e, Stays) (subs invalid_for_sender invalid_for_sender)
          | inr (r, e) ↦ rw (e, Stays) c
        ],
        elim (balance_add-cases s.balance value) [
          | inl (r, e) ↦ rw (e, Stays) (adds invalid_for_sender)
          | inr (r, e) ↦ rw (e, Stays) c
        ],
      )

module _ (s : StakingContract) (i : Inv s) (c : IsCoherent s) (k : BlsPublicKey) where
  create_coherent : (a : Address) (value : Coin) → Stays (create_validator k a value s)
  create_coherent a value = elim (Option-cases (get k s.active_validators_by_key)) [
    | inr (v, taken) ↦ unfold create_validator in ground (arith, taken, c)
    | inl free ↦ elim (Option-cases (get k s.inactive_validators_by_key)) [
      | inr (v, taken) ↦ unfold create_validator in ground (arith, free, taken, c)
      | inl free' ↦ elim (balance_add-cases s.balance value) [
        | inr (over, e) ↦ unfold create_validator in ground (arith, free, free', e, c)
        | inl (r, _) ↦
            subst (λ t. Stays t) (sym (create_validator_lem s i k a value free free' r))
              (enter-IsCoherent s i c k (new_validator value a k) (unfold new_validator in refl)
                free)
      ]
    ]
  ]

  retire_coherent : (height : ℕ) → Stays (retire_validator k height s)
  retire_coherent height = elim (Option-cases (get k s.active_validators_by_key)) [
    | inl absent ↦ unfold retire_validator in ground (arith, absent, c)
    | inr (v, found) ↦
        subst (λ t. Stays t) (sym (retire_validator_lem s i k height v found))
          (leave-IsCoherent s i c k v found)
  ]

  reactivate_coherent : Stays (reactivate_validator k s)
  reactivate_coherent = elim (Option-cases (get k s.inactive_validators_by_key)) [
    | inl absent ↦ unfold reactivate_validator in ground (arith, absent, c)
    | inr (v, found) ↦
        subst (λ t. Stays t) (sym (reactivate_validator_lem s i k v found))
          (enter-IsCoherent s i c k v.validator (get_retired-IsFunded s i k v found).own_key
            (retired_free s i k v found))
  ]

  -- In a contract with the invariant whose sorted set of active validators belongs to its map,
  -- creating, retiring and re-activating a validator do not panic and keep it so, also where they
  -- fail.
  pub validators_coherent :
      (a : Address) (value : Coin) (height : ℕ)
      → Stays (create_validator k a value s)
        × Stays (retire_validator k height s)
        × Stays (reactivate_validator k s)
  validators_coherent a value height =
      (create_coherent a value, retire_coherent height, reactivate_coherent)
