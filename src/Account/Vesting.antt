-- ===== src/Account/Vesting.antt =====
-- primitives/account/src/vesting_contract.rs, with the data of its creation from
-- primitives/transaction/src/account/vesting_contract.rs: coins that an owner gets in steps. Times
-- are u64; the difference and the product of `min_cap` are i128 and do not overflow there.
pub mod Cap
pub mod Payout
use nimiq_core_rs_albatross.Base.{
  ℕ, ◌+◌, ◌-◌, ◌*◌, ◌/◌, ◌%◌, Option, none, some, Bool, not, ◌&&◌, ltb, leb, ◌==◌, if◌then◌else◌,
  is_some, ◌⊎◌, inl, inr,
}
use nimiq_core_rs_albatross.Primitives.Word.{u64_mod}
use nimiq_core_rs_albatross.Primitives.Coin.{Coin}
use nimiq_core_rs_albatross.Account.Outcome.{
  AccountError, insufficient_funds, invalid_signature, invalid_receipt, invalid_transaction,
  TransactionError, AccountType, invalid_for_recipient, Outcome, ok, err, panic, Action, pure,
  raise, lift, raise_if, get_self, put_self, ◌>>=◌, ◌>>◌,
}
use nimiq_core_rs_albatross.Account.Balance.{balance_add, balance_sub}
use nimiq_core_rs_albatross.Account.Staking.State.{Address}
use nimiq_core_rs_albatross.Account.Staking.Wire.{
  Reader, SignatureProof, Transaction, total_value, deserialize,
}

pub record VestingContract : Type 0 where
  pub balance : Coin
  pub owner : Address
  pub start_time : ℕ
  pub time_step : ℕ
  pub step_amount : Coin
  pub total_amount : Coin

pub record CreationTransactionData : Type 0 where
  pub owner : Address
  pub start_time : ℕ
  pub time_step : ℕ
  pub step_amount : Coin
  pub total_amount : Coin

-- The decoders that a vesting contract calls.
pub record Decoders (Bytes : Type 0) : Type 0 where
  pub length : Bytes → ℕ
  pub address : Reader Bytes Address
  pub word : Reader Bytes ℕ
  pub coin : Reader Bytes Coin
  pub signature_proof : Reader Bytes SignatureProof

-- What must stay in the contract at `time`. Division truncates towards zero, and before the start
-- the number of steps is not positive; the result is cast to u64.
unfoldable pub min_cap : VestingContract → ℕ → Coin
min_cap self time =
    if ltb 0 self.time_step && ltb 0 self.step_amount
    then (if leb self.start_time time
        then self.total_amount - ((time - self.start_time) / self.time_step) * self.step_amount
        else (self.total_amount + ((self.start_time - time) / self.time_step) * self.step_amount)
          % u64_mod)
    else 0

-- `Address::SIZE`
abbrev pub address_size : ℕ
address_size = 20

module _ {Bytes : Type 0} (d : Decoders Bytes) where
  open d use {length, address, word, coin, signature_proof}

  -- `Deserialize::deserialize(reader)?`, which moves the reader on
  abbrev read : {A : Type 0} → Reader Bytes A → Action Bytes A
  read decode bytes = elim (decode bytes) [
    | inl e ↦ (err (invalid_transaction (TransactionError.invalid_serialization e)), bytes)
    | inr (a, rest) ↦ (ok a, rest)
  ]

  -- `CreationTransactionData::parse`, by the length of the data
  unfoldable pub parse_fields : Transaction Bytes → Action Bytes CreationTransactionData
  parse_fields tx = do
    owner ← read address
    if length tx.tx_data == (address_size + 8)
        then (do
          time_step ← read word
          pure (record {
            owner = owner;
            start_time = 0;
            time_step = time_step;
            step_amount = tx.value;
            total_amount = tx.value;
          }))
        else if length tx.tx_data == (address_size + 24)
        then (do
          start_time ← read word
          time_step ← read word
          step_amount ← read coin
          pure (record {
            owner = owner;
            start_time = start_time;
            time_step = time_step;
            step_amount = step_amount;
            total_amount = tx.value;
          }))
        else if length tx.tx_data == (address_size + 32)
        then (do
          start_time ← read word
          time_step ← read word
          step_amount ← read coin
          total_amount ← read coin
          pure (record {
            owner = owner;
            start_time = start_time;
            time_step = time_step;
            step_amount = step_amount;
            total_amount = total_amount;
          }))
        else raise (invalid_transaction TransactionError.invalid_data)

  unfoldable pub parse : Transaction Bytes → Outcome CreationTransactionData
  unfolding parse_fields
  parse tx = (parse_fields tx tx.tx_data).0

  unfoldable pub create : Coin → Transaction Bytes → Outcome VestingContract
  unfolding parse
  create balance tx = elim (parse tx) [
    | ok fields ↦ ok (record {
      balance = balance;
      owner = fields.owner;
      start_time = fields.start_time;
      time_step = fields.time_step;
      step_amount = fields.step_amount;
      total_amount = fields.total_amount;
    })
    | err e ↦ err e
    | panic ↦ panic
  ]

  unfoldable pub check_outgoing_transaction :
      Transaction Bytes → ℕ → Action VestingContract (Unit {0})
  unfolding min_cap deserialize
  check_outgoing_transaction tx time = do
    self ← get_self
    total ← lift (total_value tx)
    balance ← lift (balance_sub self.balance total)
    raise_if (ltb balance (min_cap self time)) (insufficient_funds (min_cap self time) balance)
    proof ← lift (deserialize signature_proof tx.proof)
    raise_if (not (proof.compute_signer == self.owner)) invalid_signature

  unfoldable pub commit_outgoing_transaction :
      Transaction Bytes → ℕ → Action VestingContract (Option Bytes)
  unfolding check_outgoing_transaction
  commit_outgoing_transaction tx time = do
    check_outgoing_transaction tx time
    self ← get_self
    total ← lift (total_value tx)
    balance ← lift (balance_sub self.balance total)
    put_self (record self { balance = balance })
    pure none

  unfoldable pub revert_outgoing_transaction :
      Transaction Bytes → Option Bytes → Action VestingContract (Unit {0})
  revert_outgoing_transaction tx receipt = do
    self ← get_self
    raise_if (is_some receipt) invalid_receipt
    total ← lift (total_value tx)
    balance ← lift (balance_add self.balance total)
    put_self (record self { balance = balance })
