-- ===== src/Account/Staking/Tests/Validators.antt =====
-- Validators of the sample: examples for the laws, and runs.
use nimiq_core_rs_albatross.Base.{[], ◌∷◌, ◌+◌, ◌≡◌, refl, none, some, arith, inr, true}
use nimiq_core_rs_albatross.Collections.Map.{get}
use nimiq_core_rs_albatross.Collections.Map.Sum.{sum}
use nimiq_core_rs_albatross.Account.Outcome.{is_ok}
use nimiq_core_rs_albatross.Account.Staking.Lifecycle.{update_validator, drop_validator}
use nimiq_core_rs_albatross.Account.Staking.Invariant.{Inv, Settles, holdings}
use nimiq_core_rs_albatross.Account.Staking.Conservation.Update.{
  update_validator-Settles, update_validator_overwrites, updated,
}
use nimiq_core_rs_albatross.Account.Staking.Conservation.Handover.{HandsOver}
use nimiq_core_rs_albatross.Account.Staking.Conservation.Drop.{drop_validator-Settles}
use nimiq_core_rs_albatross.Account.Staking.Tests.Sample.{
  first_validator, second_validator, retired_validator, sample, sample-Inv,
}

update_validator-Settles_example :
    Settles 0 0 sample (update_validator 1 (some 4) (some 104) sample)
unfolding get
update_validator-Settles_example =
    update_validator-Settles sample sample-Inv 1 (some 4) (some 104)
      (inr (record { free_active = refl; free_retired = refl }))

-- The second validator takes the key of the first one, whose 30 coins nobody holds any more.
update_validator_overwrites_example :
    let (r, s') = update_validator 2 (some 1) none sample in
    (is_ok r ≡ true)
    × (s'.balance ≡ holdings s' + first_validator.balance)
    × (get 1 s'.active_validators_by_key ≡ some (updated (some 1) none second_validator))
    × ¬ Inv s'
unfolding get
update_validator_overwrites_example =
    update_validator_overwrites sample 2 1 none second_validator first_validator sample-Inv refl
      refl (omega arith) (omega arith)

drop_validator-Settles_example :
    Settles 0 14 sample (drop_validator 3 14 sample)
    × HandsOver ((10, 6) ∷ []) sample (drop_validator 3 14 sample)
unfolding get sum
drop_validator-Settles_example =
    drop_validator-Settles sample 3 retired_validator 14 sample-Inv refl refl
