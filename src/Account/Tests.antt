-- ===== src/Account/Tests.antt =====
-- A basic account and a vesting contract: examples for the laws. A byte string of these is the
-- signer of a proof.
use nimiq_core_rs_albatross.Base.{ℕ, ◌-◌, ◌*◌, ◌≡◌, refl, none, arith, inr}
use nimiq_core_rs_albatross.Account.Outcome.{ok}
use nimiq_core_rs_albatross.Account.Balance.{balance_add}
use nimiq_core_rs_albatross.Account.Staking.Wire.{Transaction}
use nimiq_core_rs_albatross.Account.Staking.Inherents.{Inherent, InherentType}
use nimiq_core_rs_albatross.Account.Basic.{
  BasicAccount, commit_incoming_transaction, revert_incoming_transaction,
}
use nimiq_core_rs_albatross.Account.Basic.Reversal.{
  revert_incoming_transaction-commit_incoming_transaction,
}
use nimiq_core_rs_albatross.Account.Vesting.{
  VestingContract, Decoders, min_cap, commit_outgoing_transaction,
}
use nimiq_core_rs_albatross.Account.Vesting.Cap.{min_cap_steps}
use nimiq_core_rs_albatross.Account.Vesting.Payout.{Pays, commit_outgoing_transaction-Pays}

abbrev payment : Transaction ℕ
payment = record { tx_data = 0; sender = 1; recipient = 2; value = 20; fee = 1; proof = 7 }

abbrev account : BasicAccount
account = record { balance = 50 }

abbrev reward : Inherent ℕ
reward = record { ty = InherentType.reward; target = 2; value = 30; inherent_data = 0 }

revert_incoming_transaction-commit_incoming_transaction_example :
    revert_incoming_transaction payment none (record { balance = 70 }) ≡ (ok tt, account)
unfolding commit_incoming_transaction balance_add
revert_incoming_transaction-commit_incoming_transaction_example =
    revert_incoming_transaction-commit_incoming_transaction account (record { balance = 70 }) none
      (omega arith) payment refl

-- 100 coins in five steps of 20, each 10 after the last.
abbrev vesting : VestingContract
vesting = record {
  balance = 100;
  owner = 7;
  start_time = 1000;
  time_step = 10;
  step_amount = 20;
  total_amount = 100;
}

abbrev decoders : Decoders ℕ
decoders = record {
  length = λ b. 28;
  address = λ b. inr (b, 0);
  word = λ b. inr (b, 0);
  coin = λ b. inr (b, 0);
  signature_proof = λ b. inr (record { compute_signer = b }, 0);
}

min_cap_steps_example : min_cap vesting 1025 ≡ 100 - 2 * 20
min_cap_steps_example =
    min_cap_steps vesting 2 1025 (omega arith) (omega arith) (omega arith) (omega arith)

commit_outgoing_transaction-Pays_example :
    Pays decoders vesting payment 1025 (commit_outgoing_transaction decoders payment 1025 vesting)
commit_outgoing_transaction-Pays_example =
    commit_outgoing_transaction-Pays decoders vesting payment 1025 (omega arith)
