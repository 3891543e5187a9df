-- ===== src/Account/Dispatch/Debit.antt =====
-- What a transaction takes from an account, whatever its kind.
use nimiq_core_rs_albatross.Base.{ℕ, ◌+◌, ◌≤◌, ◌≡◌, refl, ap, Option, arith}
use nimiq_core_rs_albatross.Primitives.Coin.{max_safe_value, checked_add}
use nimiq_core_rs_albatross.Account.Outcome.{Outcome, ok, err, panic}
use nimiq_core_rs_albatross.Account.Balance.{balance_sub}
use nimiq_core_rs_albatross.Account.Basic
use nimiq_core_rs_albatross.Account.Basic.{BasicAccount}
use nimiq_core_rs_albatross.Account.Vesting.{VestingContract, Decoders}
use nimiq_core_rs_albatross.Account.Vesting.Payout.{Pays, commit_outgoing_transaction-Pays}
use nimiq_core_rs_albatross.Account.Htlc.{HashedTimeLockedContract, Codecs}
use nimiq_core_rs_albatross.Account.Htlc.Payout.{Releases, commit_outgoing_transaction-Releases}
use nimiq_core_rs_albatross.Account.Staking.State.{StakingContract}
use nimiq_core_rs_albatross.Account.Staking.Invariant.{Inv, Settles}
use nimiq_core_rs_albatross.Account.Staking.Wire.{Wire, Transaction, total_value}
use nimiq_core_rs_albatross.Account.Staking.Conservation.Outgoing.{
  commit_outgoing_transaction-Settles,
}
use nimiq_core_rs_albatross.Account.Dispatch.{
  Account, basic, vesting, htlc, staking, account_type, balance, within,
  commit_outgoing_transaction,
}

-- A balance that is a coin; of the staking contract, its invariant.
abbrev pub WellFormed : Account → Type 0
WellFormed (basic a) = a.balance ≤ max_safe_value
WellFormed (vesting v) = v.balance ≤ max_safe_value
WellFormed (htlc v) = v.balance ≤ max_safe_value
WellFormed (staking s) = Inv s

-- After an error an account is as it was, but the staking contract may keep a part of the call.
abbrev pub Kept : Account → Account → Type 0
Kept (basic a) after = after ≡ basic a
Kept (vesting v) after = after ≡ vesting v
Kept (htlc v) after = after ≡ htlc v
Kept (staking s) after = Unit

-- How a call ends that takes `n`.
abbrev pub Debits : {A : Type 0} → ℕ → Account → Outcome A × Account → Type 0
Debits n before (ok _, after) =
    WellFormed after
    × (account_type after ≡ account_type before)
    × (balance after + n ≡ balance before)
Debits n before (err _, after) = Kept before after
Debits n before (panic, after) = ⊥

module _ {Bytes : Type 0} (tx : Transaction Bytes) where
  basic-Debits :
      (a : BasicAccount)
      → a.balance ≤ max_safe_value
      → Debits (tx.value + tx.fee) (basic a) (within basic (Basic.commit_outgoing_transaction tx a))
  unfolding Basic.commit_outgoing_transaction balance_sub total_value checked_add account_type
      balance
  basic-Debits a r = ground (arith, r)

  module _ (d : Decoders Bytes) (c : Codecs Bytes) (time : ℕ) where
    vesting-Debits :
        (v : VestingContract) (o : Outcome (Option Bytes) × VestingContract)
        → v.balance ≤ max_safe_value
        → Pays d v tx time o
        → Debits (tx.value + tx.fee) (vesting v) (within vesting o)
    unfolding account_type balance
    vesting-Debits v (ok receipt, v') r (may, no_receipt, e) =
        let left = ap (λ (x : VestingContract). x.balance) e in
        (omega (arith, left, r), refl, omega (arith, left, may.left))
    vesting-Debits v (err x, v') r (e, refused) = ap vesting e
    vesting-Debits v (panic, v') r p = p

    htlc-Debits :
        (v : HashedTimeLockedContract) (o : Outcome (Option Bytes) × HashedTimeLockedContract)
        → v.balance ≤ max_safe_value
        → Releases c v tx time o
        → Debits (tx.value + tx.fee) (htlc v) (within htlc o)
    unfolding account_type balance
    htlc-Debits v (ok receipt, v') r (may, no_receipt, e) =
        let left = ap (λ (x : HashedTimeLockedContract). x.balance) e in
        (omega (arith, left, r), refl, omega (arith, left, may.enough))
    htlc-Debits v (err x, v') r (e, refused) = ap htlc e
    htlc-Debits v (panic, v') r p = p

staking-Debits :
    {A : Type 0} (n : ℕ) (s : StakingContract) (o : Outcome A × StakingContract)
    → Settles 0 n s o
    → Debits n (staking s) (within staking o)
unfolding account_type balance
staking-Debits n s (ok a, s') (inv, books) = (inv, refl, omega (arith, books))
staking-Debits n s (err e, s') p = p
staking-Debits n s (panic, s') p = p

module _ (w : Wire) (d : Decoders w.Bytes) (c : Codecs w.Bytes) where
  open w use {Bytes}

  -- A transaction from a well-formed account of any kind does not panic; if it succeeds, the
  -- account is well-formed again, of the same kind, and its balance is less by exactly the value
  -- and the fee; if it fails, an account other than the staking contract is as it was.
  pub commit_outgoing_transaction-Debits :
      (a : Account) (tx : Transaction Bytes) (height time : ℕ)
      → WellFormed a
      → Debits (tx.value + tx.fee) a (commit_outgoing_transaction w d c tx height time a)
  unfolding commit_outgoing_transaction
  commit_outgoing_transaction-Debits (basic a) tx height time r = basic-Debits tx a r
  commit_outgoing_transaction-Debits (vesting v) tx height time r =
      vesting-Debits tx d c time v _ r (commit_outgoing_transaction-Pays d v tx time r)
  commit_outgoing_transaction-Debits (htlc v) tx height time r =
      htlc-Debits tx d c time v _ r (commit_outgoing_transaction-Releases c v tx time r)
  commit_outgoing_transaction-Debits (staking s) tx height time i =
      staking-Debits (tx.value + tx.fee) s _ (commit_outgoing_transaction-Settles w tx height s i)
