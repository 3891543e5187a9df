-- ===== src/Account/Staking/Sorted/Coherence.antt =====
-- The sorted set of active validators is the one that belongs to the map of active validators, and
-- stays so when a validator enters, leaves or changes.
use nimiq_core_rs_albatross.Base.{
  ℕ, ◌≡◌, ◌≢◌, refl, sym, ap, ◌∙◌, subst, none, some, List, [], ◌∷◌, arith,
}
use nimiq_core_rs_albatross.Collections.Map.{Map, get, insert, remove}
use nimiq_core_rs_albatross.Collections.Map.Order.{IsSorted, insert-remove, get-remove_self}
use nimiq_core_rs_albatross.Collections.Map.Entries.{AllEntries, remove-AllEntries, get-AllEntries}
use nimiq_core_rs_albatross.Account.Staking.State.{
  Validator, StakingContract, sorted_insert, sorted_remove,
}
use nimiq_core_rs_albatross.Account.Staking.Invariant.{IsFunded}
use nimiq_core_rs_albatross.Account.Staking.Sorted.{
  Apart, sorted_remove-sorted_insert, sorted_insert_comm, sorted_insert-Apart,
}

-- The sorted set of the validators of a map.
unfoldable pub sort_of : Map Validator → List Validator
sort_of [] = []
sort_of ((k, v) ∷ m) = sorted_insert v (sort_of m)

abbrev pub IsCoherent : StakingContract → Type 0
IsCoherent s = s.active_validators_sorted ≡ sort_of s.active_validators_by_key

pub sort_of-insert :
    (k : ℕ) (v : Validator) (m : Map Validator)
    → v.validator_key ≡ k
    → AllEntries IsFunded m
    → get k m ≡ none
    → sort_of (insert k v m) ≡ sorted_insert v (sort_of m)
unfolding insert get sort_of
sort_of-insert k v [] own f h = refl
sort_of-insert k v ((j, w) ∷ m) own f h =
    let apart : v.validator_key ≢ w.validator_key = λ e. ground (arith, e, own, f.0.own_key, h) in
    ground (
      arith,
      h,
      own,
      f.0.own_key,
      ap (λ us. sorted_insert w us) (sort_of-insert k v m own f.1 (ground (arith, h))),
      sorted_insert_comm v w (sort_of m) apart,
    )

pub sort_of-Apart :
    (k : ℕ) (m : Map Validator) → AllEntries IsFunded m → get k m ≡ none → Apart k (sort_of m)
unfolding get sort_of
sort_of-Apart k [] f h = tt
sort_of-Apart k ((j, w) ∷ m) f h =
    let apart : w.validator_key ≢ k = λ e. ground (arith, e, f.0.own_key, h) in
    sorted_insert-Apart k w (sort_of m) apart (sort_of-Apart k m f.1 (ground (arith, h)))

module _ (k : ℕ) (v : Validator) (m : Map Validator) (o : IsSorted m)
    (f : AllEntries IsFunded m) where
  pub sort_of-remove : get k m ≡ some v → sort_of (remove k m) ≡ sorted_remove v (sort_of m)
  sort_of-remove found =
      let own = (get-AllEntries IsFunded k v m f found).own_key in
      let rest = remove k m in
      let funded = remove-AllEntries IsFunded k m f in
      let free = get-remove_self k m o in
      sym (
        ap (λ t. sorted_remove v (sort_of t)) (sym (insert-remove k v m o found))
        ∙ ap (λ us. sorted_remove v us) (sort_of-insert k v rest own funded free)
        ∙ sorted_remove-sorted_insert v (sort_of rest)
            (subst (λ j. Apart j (sort_of rest)) (sym own) (sort_of-Apart k rest funded free)))
