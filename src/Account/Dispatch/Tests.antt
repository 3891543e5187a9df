-- ===== src/Account/Dispatch/Tests.antt =====
-- A hashed time-locked contract and a vesting contract among the accounts: examples for the laws,
-- with the byte strings of the sample of the staking contract.
use nimiq_core_rs_albatross.Base.{ℕ, ◌+◌, ◌≡◌, ◌≢◌, refl, none, true, ◌⊎◌, inl, inr, arith}
use nimiq_core_rs_albatross.Account.Outcome.{ok, SerializingError, AccountType}
use nimiq_core_rs_albatross.Account.Balance.{balance_sub}
use nimiq_core_rs_albatross.Account.Vesting
use nimiq_core_rs_albatross.Account.Vesting.{Decoders, min_cap}
use nimiq_core_rs_albatross.Account.Htlc.{HashAlgorithm, ProofType, Codecs}
use nimiq_core_rs_albatross.Account.Staking.Wire.{
  Transaction, SignatureProof, total_value, deserialize,
}
use nimiq_core_rs_albatross.Account.Staking.Tests.Sample.{Payload, wire}
use nimiq_core_rs_albatross.Account.Dispatch.{
  Account, vesting, htlc, account_type, commit_outgoing_transaction, revert_outgoing_transaction,
}
use nimiq_core_rs_albatross.Account.Dispatch.Debit.{Debits, commit_outgoing_transaction-Debits}
use nimiq_core_rs_albatross.Account.Dispatch.Reversal.{revert_outgoing-commit_outgoing}

abbrev unread : {A : Type 0} → Payload → SerializingError ⊎ (A × Payload)
unread b = inl SerializingError.invalid_value

abbrev pub decoders : Decoders Payload
decoders = record {
  length = λ b. 28;
  address = unread;
  word = unread;
  coin = unread;
  signature_proof = wire.signature_proof;
}

-- The proof of a sender after the timeout is its signature alone.
abbrev pub codecs : Codecs Payload
codecs = record {
  Proof = SignatureProof;
  length = λ b. 0;
  creation_data = unread;
  proof_type = λ b. inr (ProofType.timeout_resolve, b);
  hash_algorithm = unread;
  byte = unread;
  any_hash = unread;
  signature_proof = wire.signature_proof;
  compute_signer = λ p. p.compute_signer;
  verify = λ p content. true;
  digest = λ a h. h + 1;
}

abbrev payment : Transaction Payload
payment = record {
  tx_data = Payload.nothing;
  sender = 1;
  recipient = 2;
  value = 20;
  fee = 1;
  proof = Payload.signature (record { compute_signer = 7 });
}

abbrev expired : Account
expired = htlc (record {
  balance = 100;
  sender = 7;
  recipient = 8;
  hash_algorithm = HashAlgorithm.blake2b;
  hash_root = 0;
  hash_count = 1;
  timeout = 500;
  total_amount = 100;
})

abbrev vesting_of : ℕ → Account
vesting_of n = vesting (record {
  balance = n;
  owner = 7;
  start_time = 1000;
  time_step = 10;
  step_amount = 20;
  total_amount = 100;
})

commit_outgoing_transaction-Debits_example :
    Debits 21 expired (commit_outgoing_transaction wire decoders codecs payment 3 1025 expired)
commit_outgoing_transaction-Debits_example =
    commit_outgoing_transaction-Debits wire decoders codecs expired payment 3 1025 (omega arith)

paid :
    commit_outgoing_transaction wire decoders codecs payment 3 1025 (vesting_of 100)
    ≡ (ok none, vesting_of 79)
unfolding commit_outgoing_transaction Vesting.commit_outgoing_transaction total_value balance_sub
    min_cap deserialize
paid = refl

kind : AccountType.vesting ≢ AccountType.staking
kind e = ground (arith, e)

revert_outgoing-commit_outgoing_example :
    revert_outgoing_transaction wire decoders codecs payment none (vesting_of 79)
    ≡ (ok tt, vesting_of 100)
unfolding account_type
revert_outgoing-commit_outgoing_example =
    revert_outgoing-commit_outgoing wire decoders codecs (vesting_of 100) (vesting_of 79) payment 3
      1025 none (omega arith) kind paid
