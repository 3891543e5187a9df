-- ===== src/Account/Staking/Conservation/Outgoing.antt =====
-- Transactions that take coins out of the staking contract: the checks that come first give what
-- the operation behind them needs, so that nothing panics and the contract pays the value and fee.
use nimiq_core_rs_albatross.Base.{
  ℕ, ◌+◌, Option, none, some, Bool, true, false, not, inl, inr, ◌==◌, if◌then◌else◌,
}
use nimiq_core_rs_albatross.Account.Outcome.{Outcome, ok, err, panic, Action, lift, ◌>>=◌, ◌>>◌}
use nimiq_core_rs_albatross.Account.Staking.State.{Address, BlsPublicKey, StakingContract}
use nimiq_core_rs_albatross.Account.Staking.Staker.{unstake, retire_sender, reactivate_sender}
use nimiq_core_rs_albatross.Account.Staking.Lifecycle.{drop_validator}
use nimiq_core_rs_albatross.Account.Staking.Wire.{
  Wire, Transaction, OutgoingStakingTransactionProof, SelfStakingTransactionData, SignatureProof,
  deserialize, encode_some, get_self_signer,
}
use nimiq_core_rs_albatross.Account.Staking.Transactions.{
  check_outgoing_proof, check_outgoing_self, check_outgoing_transaction, commit_outgoing_proof,
  commit_outgoing_self, commit_outgoing_transaction,
}
use nimiq_core_rs_albatross.Account.Staking.Invariant.{Inv, Settles}
use nimiq_core_rs_albatross.Account.Staking.Conservation.Active.{retire_sender-Settles}
use nimiq_core_rs_albatross.Account.Staking.Conservation.Inactive.{
  reactivate_sender-Settles, unstake-Settles,
}
use nimiq_core_rs_albatross.Account.Staking.Conservation.Drop.{drop_validator-Settles}
use nimiq_core_rs_albatross.Account.Staking.Conservation.Transactions.{
  map-Settles, Quiet, deserialize-Quiet, get_self_signer-Quiet,
}
use nimiq_core_rs_albatross.Account.Staking.Conservation.Guards.{
  Covers, Owns, guard-Settles, total_value-cases, unstake-Guards, drop_validator-Guards,
  retire_stake-Guards, reactivate_stake-Guards,
}

module _ (w : Wire) where
  open w use {Bytes, drop_validator_receipt, inactive_stake_receipt}

  unstaking-Settles :
      (tx : Transaction Bytes) (p : SignatureProof) (s : StakingContract)
      → Inv s
      → Covers s p.compute_signer (tx.value + tx.fee)
      → Settles 0
          (tx.value + tx.fee)
          s
          (commit_outgoing_proof w tx (OutgoingStakingTransactionProof.unstake p) s)
  unfolding commit_outgoing_proof
  unstaking-Settles tx p s i (st, found, covers) =
      let c = tx.value + tx.fee in
      elim (total_value-cases tx) [
        | inr (e, over) ↦ rw (over, Settles) tt
        | inl fits ↦
            rw (fits, Settles)
              (map-Settles 0 c s (encode_some inactive_stake_receipt) (unstake p.compute_signer c s)
                (unstake-Settles s i p.compute_signer c st found covers))
      ]

  dropping-Settles :
      (tx : Transaction Bytes) (k : BlsPublicKey) (sig : ℕ) (s : StakingContract)
      → Inv s
      → Owns s k (tx.value + tx.fee)
      → Settles 0
          (tx.value + tx.fee)
          s
          (commit_outgoing_proof w tx (OutgoingStakingTransactionProof.drop_validator k sig) s)
  unfolding commit_outgoing_proof
  dropping-Settles tx k sig s i (v, found, own) =
      let c = tx.value + tx.fee in
      elim (total_value-cases tx) [
        | inr (e, over) ↦ rw (over, Settles) tt
        | inl fits ↦
            rw (fits, Settles)
              (map-Settles 0 c s (λ r. some (drop_validator_receipt.encode r))
                (drop_validator k c s) (drop_validator-Settles s k v c i found own).0)
      ]

  proof-Settles :
      (tx : Transaction Bytes) (height : ℕ) (proof : OutgoingStakingTransactionProof)
      (s : StakingContract)
      → Inv s
      → Settles 0
          (tx.value + tx.fee)
          s
          (◌>>◌ (check_outgoing_proof w tx height proof) (commit_outgoing_proof w tx proof) s)
  proof-Settles tx height (OutgoingStakingTransactionProof.unstake p) s i =
      let proof = OutgoingStakingTransactionProof.unstake p in
      guard-Settles 0 (tx.value + tx.fee) s (check_outgoing_proof w tx height proof s)
        (commit_outgoing_proof w tx proof) (unstake-Guards w tx height p s)
        (unstaking-Settles tx p s i)
  proof-Settles tx height (OutgoingStakingTransactionProof.drop_validator k sig) s i =
      let proof = OutgoingStakingTransactionProof.drop_validator k sig in
      guard-Settles 0 (tx.value + tx.fee) s (check_outgoing_proof w tx height proof s)
        (commit_outgoing_proof w tx proof) (drop_validator-Guards w tx height k sig s i)
        (dropping-Settles tx k sig s i)

  retiring-Settles :
      (tx : Transaction Bytes) (a : Address) (k : BlsPublicKey) (s : StakingContract)
      → Inv s
      → Settles 0
          (tx.value + tx.fee)
          s
          (commit_outgoing_self w tx a (SelfStakingTransactionData.retire_stake k) s)
  unfolding commit_outgoing_self
  retiring-Settles tx a k s i =
      let c = tx.value + tx.fee in
      elim (total_value-cases tx) [
        | inr (e, over) ↦ rw (over, Settles) tt
        | inl fits ↦
            rw (fits, Settles)
              (map-Settles 0 c s (λ _. none) (retire_sender a c k s)
                (retire_sender-Settles s i a c k))
      ]

  reactivating-Settles :
      (tx : Transaction Bytes) (a : Address) (k : BlsPublicKey) (s : StakingContract)
      → Inv s
      → Covers s a (tx.value + tx.fee)
      → Settles 0
          (tx.value + tx.fee)
          s
          (commit_outgoing_self w tx a (SelfStakingTransactionData.reactivate_stake k) s)
  unfolding commit_outgoing_self
  reactivating-Settles tx a k s i (st, found, covers) =
      let c = tx.value + tx.fee in
      elim (total_value-cases tx) [
        | inr (e, over) ↦ rw (over, Settles) tt
        | inl fits ↦
            rw (fits, Settles)
              (map-Settles 0 c s (encode_some inactive_stake_receipt) (reactivate_sender a c none s)
                (reactivate_sender-Settles s i a c none st found covers))
      ]

  self-Settles :
      (tx : Transaction Bytes) (a : Address) (d : SelfStakingTransactionData) (s : StakingContract)
      → Inv s
      → Settles 0
          (tx.value + tx.fee)
          s
          (◌>>◌ (check_outgoing_self w tx a d) (commit_outgoing_self w tx a d) s)
  self-Settles tx a (SelfStakingTransactionData.retire_stake k) s i =
      let d = SelfStakingTransactionData.retire_stake k in
      guard-Settles 0 (tx.value + tx.fee) s (check_outgoing_self w tx a d s)
        (commit_outgoing_self w tx a d) (retire_stake-Guards w tx a k s)
        (λ _. retiring-Settles tx a k s i)
  self-Settles tx a (SelfStakingTransactionData.reactivate_stake k) s i =
      let d = SelfStakingTransactionData.reactivate_stake k in
      guard-Settles 0 (tx.value + tx.fee) s (check_outgoing_self w tx a d s)
        (commit_outgoing_self w tx a d) (reactivate_stake-Guards w tx a k s)
        (reactivating-Settles tx a k s i)

  -- What the checks and the operation both read from the transaction.
  read-Settles :
      {A B : Type 0} (m : ℕ) (s : StakingContract) (o : Outcome A)
      (check : A → Action StakingContract (Unit {0})) (commit : A → Action StakingContract B)
      → Quiet o
      → ((a : A) → Settles 0 m s (◌>>◌ (check a) (commit a) s))
      → Settles 0 m s (◌>>◌ (◌>>=◌ (lift o) check) (◌>>=◌ (lift o) commit) s)
  read-Settles m s (ok a) check commit q h = h a
  read-Settles m s (err e) check commit q h = tt
  read-Settles m s panic check commit q h = q

  -- Checks and operation branch on whether the transaction is from outside.
  branch-Settles :
      {A : Type 0} (m : ℕ) (s : StakingContract) (inside : Bool)
      (check check' : Action StakingContract (Unit {0})) (commit commit' : Action StakingContract A)
      → Settles 0 m s (◌>>◌ check commit s)
      → Settles 0 m s (◌>>◌ check' commit' s)
      → Settles 0 m s
          (◌>>◌ (if not inside then check else check') (if not inside then commit else commit') s)
  branch-Settles m s true check check' commit commit' h h' = h'
  branch-Settles m s false check check' commit commit' h h' = h

  -- From a contract with the invariant, a transaction that takes coins out of the contract, to
  -- outside or to itself, does not panic, checks included; if it succeeds, the invariant holds
  -- again and the balance is less by exactly the value and the fee.
  pub commit_outgoing_transaction-Settles :
      (tx : Transaction Bytes) (height : ℕ) (s : StakingContract)
      → Inv s
      → Settles 0 (tx.value + tx.fee) s (commit_outgoing_transaction w tx height s)
  unfolding commit_outgoing_transaction check_outgoing_transaction
  commit_outgoing_transaction-Settles tx height s i =
      let c = tx.value + tx.fee in
      let proof = deserialize w.outgoing_proof tx.proof in
      let read = deserialize w.self_data tx.tx_data in
      let signer = get_self_signer w tx in
      let check_self : SelfStakingTransactionData → Action StakingContract (Unit {0}) =
        λ d. ◌>>=◌ (lift signer) (λ a. check_outgoing_self w tx a d) in
      let commit_self : SelfStakingTransactionData → Action StakingContract (Option Bytes) =
        λ d. ◌>>=◌ (lift signer) (λ a. commit_outgoing_self w tx a d) in
      branch-Settles c s (tx.sender == tx.recipient)
        (◌>>=◌ (lift proof) (check_outgoing_proof w tx height)) (◌>>=◌ (lift read) check_self)
        (◌>>=◌ (lift proof) (commit_outgoing_proof w tx)) (◌>>=◌ (lift read) commit_self)
        (read-Settles c s proof (check_outgoing_proof w tx height) (commit_outgoing_proof w tx)
          (deserialize-Quiet w.outgoing_proof tx.proof) (λ p. proof-Settles tx height p s i))
        (read-Settles c s read check_self commit_self (deserialize-Quiet w.self_data tx.tx_data)
          (λ d.
            read-Settles c s signer (λ a. check_outgoing_self w tx a d)
              (λ a. commit_outgoing_self w tx a d) (get_self_signer-Quiet w tx)
              (λ a. self-Settles tx a d s i)))
