-- ===== src/Account/Staking/Tests/Reversals.antt =====
-- Reversals and the sorted set of the sample: examples for the laws.
use nimiq_core_rs_albatross.Base.{refl, none, some, arith}
use nimiq_core_rs_albatross.Collections.Map.{get}
use nimiq_core_rs_albatross.Account.Staking.State.{sorted_insert, cmp}
use nimiq_core_rs_albatross.Account.Staking.Contract.{get_validator}
use nimiq_core_rs_albatross.Account.Staking.Staker.{
  stake, revert_stake, retire_sender, revert_retire_sender, retire_recipient,
  revert_retire_recipient, reactivate_sender, revert_reactivate_sender, unstake, revert_unstake,
}
use nimiq_core_rs_albatross.Account.Staking.Lifecycle.{
  create_validator, retire_validator, reactivate_validator,
}
use nimiq_core_rs_albatross.Account.Staking.Wire.{SlashedSlot}
use nimiq_core_rs_albatross.Account.Staking.Inherents.{commit_slash, revert_slash}
use nimiq_core_rs_albatross.Account.Staking.Sorted.Coherence.{sort_of, IsCoherent}
use nimiq_core_rs_albatross.Account.Staking.Sorted.Operations.{
  Stays, stakes_coherent, validators_coherent,
}
use nimiq_core_rs_albatross.Account.Staking.Reversal.{Reverts}
use nimiq_core_rs_albatross.Account.Staking.Reversal.Active.{
  revert_stake-stake, revert_retire_sender-retire_sender,
}
use nimiq_core_rs_albatross.Account.Staking.Reversal.Inactive.{
  revert_unstake-unstake, revert_reactivate_sender-reactivate_sender,
}
use nimiq_core_rs_albatross.Account.Staking.Reversal.Retired.{
  revert_retire_recipient-retire_recipient,
}
use nimiq_core_rs_albatross.Account.Staking.Reversal.SlashSteps.{IsKept}
use nimiq_core_rs_albatross.Account.Staking.Reversal.Slash.{revert_slash-commit_slash}
use nimiq_core_rs_albatross.Account.Staking.Tests.Sample.{
  alice, bob, inactive_stake, sample, sample-Inv,
}

sample-IsCoherent : IsCoherent sample
unfolding sort_of sorted_insert cmp
sample-IsCoherent = refl

sample-IsKept : IsKept sample
unfolding get
sample-IsKept = record {
  parking_sorted = ground arith;
  current_lost_sorted = ground arith;
  previous_lost_sorted = ground arith;
  disabled_sorted = ground arith;
  disabled_slots = λ k slots e. ground (arith, e);
}

-- The first validator is slashed in the epoch of the event.
abbrev slashed : SlashedSlot
slashed = record { slot = 9; validator_key = 1; event_block = 150 }

revert_stake-stake_example : Reverts sample (λ _. revert_stake alice 3 1) (stake alice 3 1 sample)
unfolding get_validator get
revert_stake-stake_example =
    revert_stake-stake sample alice 3 1 sample-Inv sample-IsCoherent
      (λ v found. ground (arith, found))

revert_retire_sender-retire_sender_example :
    Reverts sample (λ _. revert_retire_sender alice 6 3) (retire_sender alice 6 3 sample)
revert_retire_sender-retire_sender_example =
    revert_retire_sender-retire_sender sample alice 6 3 sample-Inv sample-IsCoherent

revert_unstake-unstake_example :
    Reverts sample (λ receipt. revert_unstake alice 4 receipt) (unstake alice 4 sample)
unfolding get
revert_unstake-unstake_example =
    revert_unstake-unstake sample sample-Inv alice 4 inactive_stake refl (omega arith)

revert_reactivate_sender-reactivate_sender_example :
    Reverts sample
      (λ receipt. revert_reactivate_sender alice 9 receipt)
      (reactivate_sender alice 9 none sample)
unfolding get
revert_reactivate_sender-reactivate_sender_example =
    revert_reactivate_sender-reactivate_sender sample sample-Inv alice 9 inactive_stake refl
      (omega arith)

revert_retire_recipient-retire_recipient_example :
    Reverts sample
      (λ receipt. revert_retire_recipient alice 2 receipt)
      (retire_recipient alice 2 (some 8) sample)
unfolding get
revert_retire_recipient-retire_recipient_example =
    revert_retire_recipient-retire_recipient sample sample-Inv alice 2 (some 8)
      (λ st found. ground (arith, found))

revert_slash-commit_slash_example :
    Reverts sample (λ receipt. revert_slash receipt slashed 151) (commit_slash slashed 151 sample)
revert_slash-commit_slash_example = revert_slash-commit_slash slashed 151 sample sample-IsKept

stakes_coherent_example :
    Stays (stake bob 3 1 sample)
    × Stays (revert_stake bob 3 1 sample)
    × Stays (retire_sender bob 3 1 sample)
    × Stays (revert_retire_sender bob 3 1 sample)
stakes_coherent_example = stakes_coherent sample sample-Inv sample-IsCoherent bob 3 1

validators_coherent_example :
    Stays (create_validator 3 103 8 sample)
    × Stays (retire_validator 3 9 sample)
    × Stays (reactivate_validator 3 sample)
validators_coherent_example = validators_coherent sample sample-Inv sample-IsCoherent 3 103 8 9
