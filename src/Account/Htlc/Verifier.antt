-- ===== src/Account/Htlc/Verifier.antt =====
-- primitives/transaction/src/account/htlc_contract.rs: the checks of a transaction to or from a
-- hashed time-locked contract that do not look at the contract.
use nimiq_core_rs_albatross.Base.{
  ℕ, zero, suc, Bool, true, false, not, ◌&&◌, ltb, ◌==◌, if◌then◌else◌, inl, inr,
}
use nimiq_core_rs_albatross.Account.Outcome.{
  invalid_transaction, AccountType, TransactionError, Outcome, ok, err, panic, Action, raise_if,
  ◌>>=◌, ◌>>◌,
}
use nimiq_core_rs_albatross.Account.Staking.State.{Address}
use nimiq_core_rs_albatross.Account.Staking.Wire.{Reader, Transaction}
use nimiq_core_rs_albatross.Account.Htlc.{
  HashAlgorithm, ProofType, AnyHash, CreationTransactionData, Codecs,
}

-- What the verifier reads of a transaction: fields, flags, and the results of
-- `contract_creation_address` and `serialize_content`.
pub record Submitted (Bytes : Type 0) : Type 0 where
  pub transaction : Transaction Bytes
  pub sender_type : AccountType
  pub recipient_type : AccountType
  pub contract_creation : Bool
  pub signalling : Bool
  pub contract_creation_address : Address
  pub content : Bytes

abbrev is_htlc : AccountType → Bool
is_htlc AccountType.htlc = true
is_htlc AccountType.basic = false
is_htlc AccountType.vesting = false
is_htlc AccountType.staking = false

unfoldable pub verify : CreationTransactionData → Outcome (Unit {0})
verify self =
    if self.hash_count == 0 then err (invalid_transaction TransactionError.invalid_data) else ok tt

module _ {Bytes : Type 0} (c : Codecs Bytes) where
  open c use {
    Proof, length, creation_data, proof_type, hash_algorithm, byte, any_hash, signature_proof,
    digest,
  }

  -- `Deserialize::deserialize(proof_buf)?`; an error of the verifier is a `TransactionError`.
  abbrev pub next_part : {A : Type 0} → Reader Bytes A → Action Bytes A
  next_part decode bytes = elim (decode bytes) [
    | inl e ↦ (err (invalid_transaction (TransactionError.invalid_serialization e)), bytes)
    | inr (a, rest) ↦ (ok a, rest)
  ]

  -- `if !proof_buf.is_empty()`
  abbrev at_end : Action Bytes (Unit {0})
  at_end rest =
      raise_if (ltb 0 (length rest)) (invalid_transaction TransactionError.invalid_proof) rest

  -- `for _ in 0..hash_depth`, with the `match` on the algorithm inside.
  unfoldable pub hash_chain : HashAlgorithm → ℕ → AnyHash → AnyHash
  hash_chain algorithm zero pre_image = pre_image
  hash_chain algorithm (suc n) pre_image = hash_chain algorithm n (digest algorithm pre_image)

  unfoldable pub verify_incoming_transaction : Submitted Bytes → Outcome (Unit {0})
  unfolding verify
  verify_incoming_transaction s =
      if not (is_htlc s.recipient_type)
      then panic
      else if s.transaction.sender == s.transaction.recipient
      then err (invalid_transaction TransactionError.sender_equals_recipient)
      else if not s.contract_creation
      then err (invalid_transaction TransactionError.invalid_for_recipient)
      else if s.signalling
      then err (invalid_transaction TransactionError.invalid_for_recipient)
      else if not (s.transaction.recipient == s.contract_creation_address)
      then err (invalid_transaction TransactionError.invalid_for_recipient)
      else if not (length s.transaction.tx_data == 82)
      then err (invalid_transaction TransactionError.invalid_data)
      else elim (creation_data s.transaction.tx_data) [
        | inl e ↦ err (invalid_transaction (TransactionError.invalid_serialization e))
        | inr (fields, _) ↦ verify fields
      ]

  -- The `match` on the type of the proof.
  unfoldable pub verify_proof : Bytes → ProofType → Action Bytes (Unit {0})
  unfolding hash_chain
  verify_proof tx_buf ProofType.regular_transfer = do
    algorithm ← next_part hash_algorithm
    hash_depth ← next_part byte
    hash_root ← next_part any_hash
    pre_image ← next_part any_hash
    proof ← next_part signature_proof
    at_end
    raise_if (not (hash_root == hash_chain algorithm hash_depth pre_image))
        (invalid_transaction TransactionError.invalid_proof)
    raise_if (not (c.verify proof tx_buf)) (invalid_transaction TransactionError.invalid_proof)
  verify_proof tx_buf ProofType.early_resolve = do
    proof_recipient ← next_part signature_proof
    proof_sender ← next_part signature_proof
    at_end
    raise_if (not (c.verify proof_recipient tx_buf && c.verify proof_sender tx_buf))
        (invalid_transaction TransactionError.invalid_proof)
  verify_proof tx_buf ProofType.timeout_resolve = do
    proof ← next_part signature_proof
    at_end
    raise_if (not (c.verify proof tx_buf)) (invalid_transaction TransactionError.invalid_proof)

  unfoldable pub verify_outgoing_transaction : Submitted Bytes → Outcome (Unit {0})
  unfolding verify_proof
  verify_outgoing_transaction s =
      if not (is_htlc s.sender_type)
      then panic
      else ((next_part proof_type >>= verify_proof s.content) s.transaction.proof).0
