-- ===== src/Account/Htlc.antt =====
-- primitives/account/src/htlc_contract.rs, with the data types of
-- primitives/transaction/src/account/htlc_contract.rs: coins that a recipient gets for the pre-image
-- of a hash before a timeout, and the sender after it. Decoders and hash functions are a parameter.
pub mod Verifier
pub mod Claim
pub mod Payout
pub mod Redeem
pub mod Cap
mod Tests
use nimiq_core_rs_albatross.Base.{
  ℕ, Option, none, some, Bool, true, false, not, ◌&&◌, ltb, ◌==◌, if◌then◌else◌, is_some, ◌⊎◌, inl,
  inr,
}
use nimiq_core_rs_albatross.Primitives.Float.{round_to_f64, one_minus, times, floor}
use nimiq_core_rs_albatross.Primitives.Coin.{Coin, try_from}
use nimiq_core_rs_albatross.Account.Outcome.{
  AccountError, insufficient_funds, invalid_signature, invalid_receipt, invalid_transaction,
  invalid_for_sender, invalid_serialization, coin_convert, TransactionError, Outcome, ok, err,
  panic, Action, pure, raise, lift, raise_if, get_self, put_self, ◌>>=◌, ◌>>◌,
}
use nimiq_core_rs_albatross.Account.Balance.{balance_add, balance_sub}
use nimiq_core_rs_albatross.Account.Staking.State.{Address}
use nimiq_core_rs_albatross.Account.Staking.Wire.{Reader, Transaction, total_value}

pub data HashAlgorithm : Type 0 where
  blake2b sha256 : HashAlgorithm

pub data ProofType : Type 0 where
  regular_transfer early_resolve timeout_resolve : ProofType

abbrev pub AnyHash : Type 0
AnyHash = ℕ

pub record CreationTransactionData : Type 0 where
  pub sender : Address
  pub recipient : Address
  pub hash_algorithm : HashAlgorithm
  pub hash_root : AnyHash
  pub hash_count : ℕ
  pub timeout : ℕ

pub record HashedTimeLockedContract : Type 0 where
  pub balance : Coin
  pub sender : Address
  pub recipient : Address
  pub hash_algorithm : HashAlgorithm
  pub hash_root : AnyHash
  pub hash_count : ℕ
  pub timeout : ℕ
  pub total_amount : Coin

-- What the contract and its verifier call: decoders, hash functions, signatures.
pub record Codecs (Bytes : Type 0) : Type 1 where
  pub Proof : Type 0
  pub length : Bytes → ℕ
  pub creation_data : Reader Bytes CreationTransactionData
  pub proof_type : Reader Bytes ProofType
  pub hash_algorithm : Reader Bytes HashAlgorithm
  pub byte : Reader Bytes ℕ
  pub any_hash : Reader Bytes AnyHash
  pub signature_proof : Reader Bytes Proof
  pub compute_signer : Proof → Address
  pub verify : Proof → Bytes → Bool
  pub digest : HashAlgorithm → AnyHash → AnyHash

unfoldable pub same_algorithm : HashAlgorithm → HashAlgorithm → Bool
same_algorithm HashAlgorithm.blake2b HashAlgorithm.blake2b = true
same_algorithm HashAlgorithm.sha256 HashAlgorithm.sha256 = true
same_algorithm HashAlgorithm.blake2b HashAlgorithm.sha256 = false
same_algorithm HashAlgorithm.sha256 HashAlgorithm.blake2b = false

-- The floating-point expression. Where the count is 0 the ratio is an infinity or not a number, and
-- the cast of the maximum with 0 gives 0.
unfoldable pub cap_value : HashedTimeLockedContract → ℕ → ℕ
unfolding round_to_f64 one_minus times floor
cap_value self hash_depth =
    if self.hash_count == 0
    then 0
    else floor (times (one_minus (round_to_f64 hash_depth self.hash_count)) self.total_amount)

-- `Coin::try_from(..)?`
unfoldable pub min_cap : HashedTimeLockedContract → ℕ → Outcome Coin
unfolding try_from
min_cap self hash_depth = elim (try_from (cap_value self hash_depth)) [
  | some cap ↦ ok cap
  | none ↦ err (coin_convert (cap_value self hash_depth))
]

module _ {Bytes : Type 0} (c : Codecs Bytes) where
  open c use {
    Proof, creation_data, proof_type, hash_algorithm, byte, any_hash, signature_proof,
    compute_signer,
  }

  -- `Deserialize::deserialize(proof_buf)?`, which moves the reader on
  abbrev pub next_field : {A : Type 0} → Reader Bytes A → Action Bytes A
  next_field decode bytes = elim (decode bytes) [
    | inl e ↦ (err (invalid_serialization e), bytes)
    | inr (a, rest) ↦ (ok a, rest)
  ]

  -- `SignatureProof::is_signed_by`
  unfoldable pub is_signed_by : Proof → Address → Bool
  is_signed_by proof address = compute_signer proof == address

  unfoldable pub create : Coin → Transaction Bytes → Outcome HashedTimeLockedContract
  create balance tx = elim (creation_data tx.tx_data) [
    | inl e ↦ err (invalid_transaction (TransactionError.invalid_serialization e))
    | inr (fields, _) ↦ ok (record {
      balance = balance;
      sender = fields.sender;
      recipient = fields.recipient;
      hash_algorithm = fields.hash_algorithm;
      hash_root = fields.hash_root;
      hash_count = fields.hash_count;
      timeout = fields.timeout;
      total_amount = tx.value;
    })
  ]

  -- The `match` on the type of the proof; `balance` is what would be left.
  unfoldable pub check_proof :
      HashedTimeLockedContract → Coin → ℕ → ProofType → Action Bytes (Unit {0})
  unfolding same_algorithm is_signed_by min_cap
  check_proof self balance time ProofType.regular_transfer = do
    raise_if (ltb self.timeout time) invalid_for_sender
    algorithm ← next_field hash_algorithm
    hash_depth ← next_field byte
    hash_root ← next_field any_hash
    raise_if (not (same_algorithm algorithm self.hash_algorithm && (hash_root == self.hash_root)))
        invalid_for_sender
    _pre_image ← next_field any_hash
    proof ← next_field signature_proof
    raise_if (not (is_signed_by proof self.recipient)) invalid_signature
    needed ← lift (min_cap self hash_depth)
    raise_if (ltb balance needed) (insufficient_funds needed balance)
  check_proof self balance time ProofType.early_resolve = do
    proof_recipient ← next_field signature_proof
    proof_sender ← next_field signature_proof
    raise_if
        (not (is_signed_by proof_recipient self.recipient && is_signed_by proof_sender self.sender))
        invalid_signature
  check_proof self balance time ProofType.timeout_resolve = do
    raise_if (not (ltb self.timeout time)) invalid_for_sender
    proof ← next_field signature_proof
    raise_if (not (is_signed_by proof self.sender)) invalid_signature

  unfoldable pub check_outgoing_transaction :
      Transaction Bytes → ℕ → Action HashedTimeLockedContract (Unit {0})
  unfolding check_proof
  check_outgoing_transaction tx time = do
    self ← get_self
    total ← lift (total_value tx)
    balance ← lift (balance_sub self.balance total)
    lift ((next_field proof_type >>= check_proof self balance time) tx.proof).0

  unfoldable pub commit_outgoing_transaction :
      Transaction Bytes → ℕ → Action HashedTimeLockedContract (Option Bytes)
  unfolding check_outgoing_transaction
  commit_outgoing_transaction tx time = do
    check_outgoing_transaction tx time
    self ← get_self
    total ← lift (total_value tx)
    balance ← lift (balance_sub self.balance total)
    put_self (record self { balance = balance })
    pure none

  unfoldable pub revert_outgoing_transaction :
      Transaction Bytes → Option Bytes → Action HashedTimeLockedContract (Unit {0})
  revert_outgoing_transaction tx receipt = do
    self ← get_self
    raise_if (is_some receipt) invalid_receipt
    total ← lift (total_value tx)
    balance ← lift (balance_add self.balance total)
    put_self (record self { balance = balance })
