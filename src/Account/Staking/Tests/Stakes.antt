-- ===== src/Account/Staking/Tests/Stakes.antt =====
-- Stakes of the sample: examples for the laws, and runs.
use nimiq_core_rs_albatross.Base.{◌≡◌, refl, [], some}
use nimiq_core_rs_albatross.Collections.Map.{get, insert, remove}
use nimiq_core_rs_albatross.Account.Outcome.{ok, err, invalid_for_sender}
use nimiq_core_rs_albatross.Account.Balance.{balance_sub}
use nimiq_core_rs_albatross.Account.Staking.Contract.{remove_validator, restore_validator}
use nimiq_core_rs_albatross.Account.Staking.Entry.{try_sub_stake}
use nimiq_core_rs_albatross.Account.Staking.Staker.{retire_sender, unstake}
use nimiq_core_rs_albatross.Account.Staking.Tests.Sample.{alice, sample}

-- A stake that the validator does not hold is refused, and the validator is back in its place.
refused : retire_sender 12 6 3 sample ≡ (err invalid_for_sender, sample)
unfolding retire_sender balance_sub remove_validator get restore_validator try_sub_stake insert
    remove
refused = refl

-- Unstaking everything removes the entry and reports its time.
unstaked : unstake alice 9 sample ≡ (
  ok (some (record { retire_time = 6 })),
  record sample { balance = 54; inactive_stake_by_address = [] },
)
unfolding unstake get remove balance_sub
unstaked = refl
