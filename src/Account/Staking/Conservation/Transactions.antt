-- ===== src/Account/Staking/Conservation/Transactions.antt =====
-- The transactions to, from and within the staking contract keep the invariant and account for
-- their value, through the checks that the handlers make themselves.
use nimiq_core_rs_albatross.Base.{
  ℕ, ◌≡◌, ◌⊎◌, refl, none, some, arith, true, false, ◌==◌, unwrap_or,
}
use nimiq_core_rs_albatross.Primitives.Coin.{Coin}
use nimiq_core_rs_albatross.Account.Outcome.{Outcome, ok, err, panic, Action, pure, lift, ◌>>=◌}
use nimiq_core_rs_albatross.Account.Staking.State.{Address, StakingContract}
use nimiq_core_rs_albatross.Account.Staking.Wire.{
  Wire, Transaction, IncomingStakingTransactionData, SelfStakingTransactionData, full_parse,
  deserialize, get_self_signer, encode_some,
}
use nimiq_core_rs_albatross.Account.Staking.Staker.{stake, retire_recipient, reactivate_recipient}
use nimiq_core_rs_albatross.Account.Staking.Lifecycle.{
  create_validator, update_validator, retire_validator, reactivate_validator, unpark_validator,
}
use nimiq_core_rs_albatross.Account.Staking.Transactions.{
  commit_incoming_data, commit_incoming_self, commit_incoming_transaction,
}
use nimiq_core_rs_albatross.Account.Staking.Invariant.{Inv, Settles}
use nimiq_core_rs_albatross.Account.Staking.Conservation.Active.{stake-Settles}
use nimiq_core_rs_albatross.Account.Staking.Conservation.Inactive.{retire_recipient-Settles}
use nimiq_core_rs_albatross.Account.Staking.Conservation.Validators.{
  create_validator-Settles, retire_validator-Settles, reactivate_validator-Settles,
  unpark_validator-Settles,
}
use nimiq_core_rs_albatross.Account.Staking.Conservation.Update.{IsFree, update_validator-Settles}

-- A result that is turned into another.
pub map-Settles :
    {A B : Type 0} (p m : ℕ) (s : StakingContract) (g : A → B) (r : Outcome A × StakingContract)
    → Settles p m s r
    → Settles p m s (◌>>=◌ (λ (_ : StakingContract). r) (λ a. pure (g a)) s)
map-Settles p m s g (ok a, s') h = h
map-Settles p m s g (err e, s') h = h
map-Settles p m s g (panic, s') h = h

abbrev pub Quiet : {A : Type 0} → Outcome A → Type 0
Quiet (ok a) = Unit
Quiet (err e) = Unit
Quiet panic = ⊥

-- What was read from the transaction first.
pub lift-Settles :
    {A B : Type 0} (p m : ℕ) (s : StakingContract) (o : Outcome A)
    (f : A → Action StakingContract B)
    → Quiet o
    → ((a : A) → o ≡ ok a → Settles p m s (f a s))
    → Settles p m s (◌>>=◌ (lift o) f s)
lift-Settles p m s (ok a) f q h = h a refl
lift-Settles p m s (err e) f q h = tt
lift-Settles p m s panic f q h = q

pub full_parse-Quiet :
    {Bytes A : Type 0} (length : Bytes → ℕ) (read : Bytes → _) (b : Bytes)
    → Quiet (full_parse {A = A} length read b)
unfolding full_parse
full_parse-Quiet length read b = ground arith

pub deserialize-Quiet :
    {Bytes A : Type 0} (read : Bytes → _) (b : Bytes) → Quiet (deserialize {A = A} read b)
unfolding deserialize
deserialize-Quiet read b = ground arith

-- The key that an update writes is that of the validator, or free.
abbrev pub Admissible : StakingContract → IncomingStakingTransactionData → Type 0
Admissible s (IncomingStakingTransactionData.update_validator old new _ _ _) =
    (unwrap_or new old ≡ old) ⊎ IsFree s (unwrap_or new old)
Admissible s (IncomingStakingTransactionData.create_validator _ _ _) = Unit
Admissible s (IncomingStakingTransactionData.retire_validator _ _) = Unit
Admissible s (IncomingStakingTransactionData.reactivate_validator _ _) = Unit
Admissible s (IncomingStakingTransactionData.unpark_validator _ _) = Unit
Admissible s (IncomingStakingTransactionData.stake _ _) = Unit

-- Signalling transactions bring nothing.
abbrev pub credited : IncomingStakingTransactionData → Coin → ℕ
credited (IncomingStakingTransactionData.create_validator _ _ _) value = value
credited (IncomingStakingTransactionData.stake _ _) value = value
credited (IncomingStakingTransactionData.update_validator _ _ _ _ _) value = 0
credited (IncomingStakingTransactionData.retire_validator _ _) value = 0
credited (IncomingStakingTransactionData.reactivate_validator _ _) value = 0
credited (IncomingStakingTransactionData.unpark_validator _ _) value = 0

module _ (w : Wire) where
  open w use {
    Bytes, length, incoming_data, update_validator_receipt, inactive_validator_receipt,
    unpark_receipt, inactive_stake_receipt,
  }

  commit_incoming_data-Settles :
      (tx : Transaction Bytes) (height : ℕ) (d : IncomingStakingTransactionData)
      (s : StakingContract)
      → Inv s
      → Admissible s d
      → Settles (credited d tx.value) 0 s (commit_incoming_data w tx height d s)
  unfolding commit_incoming_data
  commit_incoming_data-Settles tx height (IncomingStakingTransactionData.create_validator k _ a) s i
        h =
      map-Settles tx.value 0 s (λ _. none) (create_validator k a tx.value s)
        (create_validator-Settles s i k a tx.value)
  commit_incoming_data-Settles tx height
        (IncomingStakingTransactionData.update_validator old new _ a _) s i h =
      map-Settles 0 0 s (λ r. some (update_validator_receipt.encode r))
        (update_validator old new a s) (update_validator-Settles s i old new a h)
  commit_incoming_data-Settles tx height (IncomingStakingTransactionData.retire_validator k _) s i
        h =
      map-Settles 0 0 s (λ _. none) (retire_validator k height s)
        (retire_validator-Settles s i k height)
  commit_incoming_data-Settles tx height (IncomingStakingTransactionData.reactivate_validator k _) s
        i h =
      map-Settles 0 0 s (λ r. some (inactive_validator_receipt.encode r)) (reactivate_validator k s)
        (reactivate_validator-Settles s i k)
  commit_incoming_data-Settles tx height (IncomingStakingTransactionData.unpark_validator k _) s i
        h =
      map-Settles 0 0 s (λ r. some (unpark_receipt.encode r)) (unpark_validator k s)
        (unpark_validator-Settles s i k)
  commit_incoming_data-Settles tx height (IncomingStakingTransactionData.stake k a) s i h =
      map-Settles tx.value 0 s (λ _. none) (stake (unwrap_or a tx.sender) tx.value k s)
        (stake-Settles s i (unwrap_or a tx.sender) tx.value k)

  -- A transaction from outside whose data parses, to a contract with the invariant, and whose new
  -- validator key is free where it is an update to another key: it does not panic; if it succeeds,
  -- the invariant holds again and the balance is more by exactly the value for a creation or a
  -- stake, and unchanged for the signalling kinds.
  pub commit_incoming_transaction-Settles :
      (tx : Transaction Bytes) (height : ℕ) (s : StakingContract)
      → ((tx.sender == tx.recipient) ≡ false)
      → Inv s
      → (d : IncomingStakingTransactionData) → full_parse length incoming_data tx.tx_data ≡ ok d
      → Admissible s d
      → Settles (credited d tx.value) 0 s (commit_incoming_transaction w tx height s)
  unfolding commit_incoming_transaction
  commit_incoming_transaction-Settles tx height s outside i d parsed h =
      rw (outside, parsed, Settles) (commit_incoming_data-Settles tx height d s i h)

  commit_incoming_self-Settles :
      (tx : Transaction Bytes) (height : ℕ) (a : Address) (d : SelfStakingTransactionData)
      (s : StakingContract)
      → Inv s
      → Settles tx.value 0 s (commit_incoming_self w tx height a d s)
  unfolding commit_incoming_self reactivate_recipient
  commit_incoming_self-Settles tx height a (SelfStakingTransactionData.retire_stake _) s i =
      map-Settles tx.value 0 s (encode_some inactive_stake_receipt)
        (retire_recipient a tx.value (some height) s)
        (retire_recipient-Settles s i a tx.value (some height))
  commit_incoming_self-Settles tx height a (SelfStakingTransactionData.reactivate_stake k) s i =
      map-Settles tx.value 0 s (λ _. none) (stake a tx.value k s) (stake-Settles s i a tx.value k)

  pub get_self_signer-Quiet : (tx : Transaction Bytes) → Quiet (get_self_signer w tx)
  unfolding get_self_signer
  get_self_signer-Quiet tx = ground (arith, deserialize-Quiet w.signature_proof tx.proof)

  -- The receiving side of a transaction of the contract with itself, from a contract with the
  -- invariant, does not panic; if it succeeds, the invariant holds again and the balance is more
  -- by exactly the value.
  pub commit_incoming_transaction_self-Settles :
      (tx : Transaction Bytes) (height : ℕ) (s : StakingContract)
      → ((tx.sender == tx.recipient) ≡ true)
      → Inv s
      → Settles tx.value 0 s (commit_incoming_transaction w tx height s)
  unfolding commit_incoming_transaction
  commit_incoming_transaction_self-Settles tx height s inside i =
      rw (inside, Settles)
        (lift-Settles tx.value 0 s (deserialize w.self_data tx.tx_data)
          (λ d. ◌>>=◌ (lift (get_self_signer w tx)) (λ a. commit_incoming_self w tx height a d))
          (deserialize-Quiet w.self_data tx.tx_data)
          (λ d _.
            lift-Settles tx.value 0 s (get_self_signer w tx)
              (λ a. commit_incoming_self w tx height a d) (get_self_signer-Quiet tx)
              (λ a _. commit_incoming_self-Settles tx height a d s i)))
