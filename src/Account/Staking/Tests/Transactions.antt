-- ===== src/Account/Staking/Tests/Transactions.antt =====
-- Transactions to, from and within the sample: examples for the laws, and runs.
use nimiq_core_rs_albatross.Base.{◌≡◌, refl, [], ◌∷◌, some}
use nimiq_core_rs_albatross.Primitives.Coin.{sub, sum}
use nimiq_core_rs_albatross.Collections.Map.{insert, remove}
use nimiq_core_rs_albatross.Account.Balance.{balance_add, balance_sub}
use nimiq_core_rs_albatross.Account.Staking.Staker.{retire_recipient}
use nimiq_core_rs_albatross.Account.Staking.Lifecycle.{
  drop_validator, retire_all, retire_stakers, is_parked, unpark_if_parked,
}
use nimiq_core_rs_albatross.Account.Staking.Wire.{
  Transaction, IncomingStakingTransactionData, SelfStakingTransactionData,
  OutgoingStakingTransactionProof, full_parse,
}
use nimiq_core_rs_albatross.Account.Staking.Transactions.{
  commit_incoming_transaction, commit_outgoing_transaction,
}
use nimiq_core_rs_albatross.Account.Staking.Invariant.{Settles}
use nimiq_core_rs_albatross.Account.Staking.Conservation.Transactions.{
  commit_incoming_transaction-Settles, commit_incoming_transaction_self-Settles,
}
use nimiq_core_rs_albatross.Account.Staking.Conservation.Outgoing.{
  commit_outgoing_transaction-Settles,
}
use nimiq_core_rs_albatross.Account.Staking.Tests.Sample.{
  alice, bob, Payload, sample, sample-Inv, wire,
}

abbrev staking : Transaction Payload
staking = record {
  tx_data = Payload.incoming (IncomingStakingTransactionData.stake 1 (some alice));
  sender = bob;
  recipient = 99;
  value = 5;
  fee = 1;
  proof = Payload.nothing;
}

abbrev retiring : Transaction Payload
retiring = record {
  tx_data = Payload.within (SelfStakingTransactionData.retire_stake 1);
  sender = 99;
  recipient = 99;
  value = 3;
  fee = 1;
  proof = Payload.signature (record { compute_signer = alice });
}

abbrev dropping : Transaction Payload
dropping = record {
  tx_data = Payload.nothing;
  sender = 99;
  recipient = bob;
  value = 13;
  fee = 1;
  proof = Payload.outgoing (OutgoingStakingTransactionProof.drop_validator 3 0);
}

commit_incoming_transaction-Settles_example :
    Settles 5 0 sample (commit_incoming_transaction wire staking 200 sample)
unfolding full_parse
commit_incoming_transaction-Settles_example =
    commit_incoming_transaction-Settles wire staking 200 sample refl sample-Inv
      (IncomingStakingTransactionData.stake 1 (some alice)) refl tt

commit_incoming_transaction_self-Settles_example :
    Settles 3 0 sample (commit_incoming_transaction wire retiring 200 sample)
commit_incoming_transaction_self-Settles_example =
    commit_incoming_transaction_self-Settles wire retiring 200 sample refl sample-Inv

commit_outgoing_transaction-Settles_example :
    Settles 0 14 sample (commit_outgoing_transaction wire dropping 200 sample)
commit_outgoing_transaction-Settles_example =
    commit_outgoing_transaction-Settles wire dropping 200 sample sample-Inv

-- The transaction of the last example succeeds: the stake of the dropped validator joins the
-- inactive stake.
dropped :
    let (r, s') = commit_outgoing_transaction wire dropping 200 sample in
    (s'.balance ≡ 49)
    × (s'.inactive_validators_by_key ≡ [])
    × (s'.inactive_stake_by_address ≡ (10, record { balance = 15; retire_time = 5 }) ∷ [])
unfolding commit_outgoing_transaction sub sum drop_validator balance_sub retire_stakers retire_all
    retire_recipient balance_add unpark_if_parked is_parked remove insert
dropped = (refl, refl, refl)
