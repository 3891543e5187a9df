-- ===== src/Account/Staking/Wire.antt =====
-- What the staking contract reads from byte strings: the data and proof fields of a transaction
-- (primitives/transaction/src/account/staking_contract/structs.rs), the data of an inherent, and
-- the receipts that it writes itself. Byte strings and their decoders are a parameter: the
-- encodings are written by the macros of beserial_derive and its traits.
use nimiq_core_rs_albatross.Base.{
  ℕ, ◌≡◌, Bool, Option, none, some, ◌⊎◌, inl, inr, ltb, if◌then◌else◌,
}
use nimiq_core_rs_albatross.Primitives.Coin.{Coin, checked_add}
use nimiq_core_rs_albatross.Account.Outcome.{
  AccountError, SerializingError, TransactionError, invalid_transaction, Outcome, ok, err,
}
use nimiq_core_rs_albatross.Account.Staking.State.{Address, BlsPublicKey}
use nimiq_core_rs_albatross.Account.Staking.Staker.{InactiveStakeReceipt}
use nimiq_core_rs_albatross.Account.Staking.Lifecycle.{
  UnparkReceipt, UpdateValidatorReceipt, DropValidatorReceipt, InactiveValidatorReceipt,
}

abbrev pub BlsSignature : Type 0
BlsSignature = ℕ

-- Of a signature proof the contract reads the signer only.
pub record SignatureProof : Type 0 where
  pub compute_signer : Address

pub data IncomingStakingTransactionData : Type 0 where
  create_validator : BlsPublicKey → BlsSignature → Address → IncomingStakingTransactionData
  update_validator :
      BlsPublicKey
      → Option BlsPublicKey
      → Option BlsSignature
      → Option Address
      → BlsSignature
      → IncomingStakingTransactionData
  retire_validator : BlsPublicKey → BlsSignature → IncomingStakingTransactionData
  reactivate_validator : BlsPublicKey → BlsSignature → IncomingStakingTransactionData
  unpark_validator : BlsPublicKey → BlsSignature → IncomingStakingTransactionData
  stake : BlsPublicKey → Option Address → IncomingStakingTransactionData

pub data OutgoingStakingTransactionProof : Type 0 where
  drop_validator : BlsPublicKey → BlsSignature → OutgoingStakingTransactionProof
  unstake : SignatureProof → OutgoingStakingTransactionProof

pub data SelfStakingTransactionData : Type 0 where
  retire_stake : BlsPublicKey → SelfStakingTransactionData
  reactivate_stake : BlsPublicKey → SelfStakingTransactionData

-- `SlashedSlot`; its key is read in compressed form.
pub record SlashedSlot : Type 0 where
  pub slot : ℕ
  pub validator_key : BlsPublicKey
  pub event_block : ℕ

pub record SlashReceipt : Type 0 where
  pub newly_parked : Bool
  pub newly_disabled : Bool
  pub newly_lost_rewards : Bool

-- A receipt is written by `serialize_to_vec` and read by `deserialize_from_vec`.
pub record Codec (Bytes A : Type 0) : Type 0 where
  pub encode : A → Bytes
  pub decode : Bytes → SerializingError ⊎ A
  pub decode-encode : (a : A) → decode (encode a) ≡ inr a

-- `Deserialize::deserialize` returns a value and moves the reader on, to the rest of the bytes.
abbrev pub Reader : Type 0 → Type 0 → Type 0
Reader Bytes A = Bytes → SerializingError ⊎ (A × Bytes)

pub record Wire : Type 1 where
  pub Bytes : Type 0
  pub length : Bytes → ℕ
  pub incoming_data : Reader Bytes IncomingStakingTransactionData
  pub self_data : Reader Bytes SelfStakingTransactionData
  pub outgoing_proof : Reader Bytes OutgoingStakingTransactionProof
  pub signature_proof : Reader Bytes SignatureProof
  pub slashed_slot : Reader Bytes SlashedSlot
  pub inactive_stake_receipt : Codec Bytes InactiveStakeReceipt
  pub update_validator_receipt : Codec Bytes UpdateValidatorReceipt
  pub drop_validator_receipt : Codec Bytes DropValidatorReceipt
  pub inactive_validator_receipt : Codec Bytes InactiveValidatorReceipt
  pub unpark_receipt : Codec Bytes UnparkReceipt
  pub slash_receipt : Codec Bytes SlashReceipt

-- The fields of `Transaction` that the accounts read.
pub record Transaction (Bytes : Type 0) : Type 0 where
  pub tx_data : Bytes
  pub sender : Address
  pub recipient : Address
  pub value : Coin
  pub fee : Coin
  pub proof : Bytes

-- `Transaction::total_value`, with the conversion of its error by `?`
unfoldable pub total_value : {Bytes : Type 0} → Transaction Bytes → Outcome Coin
unfolding checked_add
total_value tx = elim (checked_add tx.value tx.fee) [
  | some c ↦ ok c
  | none ↦ err (invalid_transaction TransactionError.overflow)
]

-- `Deserialize::deserialize(&mut &bytes[..])?`
unfoldable pub deserialize : {Bytes A : Type 0} → Reader Bytes A → Bytes → Outcome A
deserialize read bytes = elim (read bytes) [
  | inl e ↦ err (AccountError.invalid_serialization e)
  | inr (a, _) ↦ ok a
]

-- `full_parse(&bytes[..])?`, which refuses bytes that are left over.
unfoldable pub full_parse : {Bytes A : Type 0} → (Bytes → ℕ) → Reader Bytes A → Bytes → Outcome A
full_parse length read bytes = elim (read bytes) [
  | inl e ↦ err (invalid_transaction (TransactionError.invalid_serialization e))
  | inr (a, rest) ↦
      if ltb 0 (length rest) then err (invalid_transaction TransactionError.invalid_data) else ok a
]

-- `Deserialize::deserialize_from_vec(receipt.ok_or(AccountError::InvalidReceipt)?)?`
unfoldable pub read_receipt : {Bytes A : Type 0} → Codec Bytes A → Option Bytes → Outcome A
read_receipt c none = err AccountError.invalid_receipt
read_receipt c (some bytes) = elim (c.decode bytes) [
  | inl e ↦ err (AccountError.invalid_serialization e)
  | inr a ↦ ok a
]

-- `conditional_deserialize`
unfoldable pub conditional_deserialize :
    {Bytes A : Type 0} → Codec Bytes A → Option Bytes → Outcome (Option A)
conditional_deserialize c none = ok none
conditional_deserialize c (some bytes) = elim (c.decode bytes) [
  | inl e ↦ err (AccountError.invalid_serialization e)
  | inr a ↦ ok (some a)
]

-- `.map(|r| r.serialize_to_vec())`
abbrev pub encode_some : {Bytes A : Type 0} → Codec Bytes A → Option A → Option Bytes
encode_some c none = none
encode_some c (some r) = some (c.encode r)

-- `get_self_signer`
unfoldable pub get_self_signer : (w : Wire) → Transaction w.Bytes → Outcome Address
unfolding deserialize
get_self_signer w tx = elim (deserialize w.signature_proof tx.proof) [
  | Outcome.ok p ↦ Outcome.ok p.compute_signer
  | Outcome.err e ↦ Outcome.err e
  | Outcome.panic ↦ Outcome.panic
]
