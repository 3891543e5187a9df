-- ===== src/Account/Dispatch/Reversal.antt =====
-- A transaction from an account that keeps its own coins, and its reversal.
use nimiq_core_rs_albatross.Base.{ℕ, ◌≡◌, ◌≢◌, refl, ap, subst, Option}
use nimiq_core_rs_albatross.Account.Outcome.{AccountType, Outcome, ok}
use nimiq_core_rs_albatross.Account.Basic
use nimiq_core_rs_albatross.Account.Vesting
use nimiq_core_rs_albatross.Account.Vesting.{Decoders}
use nimiq_core_rs_albatross.Account.Htlc
use nimiq_core_rs_albatross.Account.Htlc.{Codecs}
use nimiq_core_rs_albatross.Account.Staking.Wire.{Wire, Transaction}
use nimiq_core_rs_albatross.Account.Dispatch.{
  Account, basic, vesting, htlc, staking, account_type, within, commit_outgoing_transaction,
  revert_outgoing_transaction,
}
use nimiq_core_rs_albatross.Account.Dispatch.Debit.{WellFormed}

within_ok :
    {S A : Type 0} (wrap : S → Account) (o : Outcome A × S) (r : A) (after : Account)
    → within wrap o ≡ (ok r, after)
    → (o ≡ (ok r, o.1)) × (wrap o.1 ≡ after)
within_ok wrap o r after h = (ap (λ x. (x.0, o.1)) h, ap (λ x. x.1) h)

module _ (w : Wire) (d : Decoders w.Bytes) (c : Codecs w.Bytes) where
  open w use {Bytes}

  -- If a transaction from a well-formed account other than the staking contract was committed,
  -- reverting it with the receipt succeeds and gives the account back.
  pub revert_outgoing-commit_outgoing :
      (a after : Account) (tx : Transaction Bytes) (height time : ℕ) (receipt : Option Bytes)
      → WellFormed a
      → account_type a ≢ AccountType.staking
      → commit_outgoing_transaction w d c tx height time a ≡ (ok receipt, after)
      → revert_outgoing_transaction w d c tx receipt after ≡ (ok tt, a)
  unfolding commit_outgoing_transaction revert_outgoing_transaction account_type
  revert_outgoing-commit_outgoing (basic a) after tx height time receipt r other h =
      let (made, same) = within_ok basic (Basic.commit_outgoing_transaction tx a) receipt after h in
      subst (λ x. revert_outgoing_transaction w d c tx receipt x ≡ (ok tt, basic a)) same
        (ap (within basic) (
          Basic.Reversal.revert_outgoing_transaction-commit_outgoing_transaction a _ receipt r tx
            made))
  revert_outgoing-commit_outgoing (vesting v) after tx height time receipt r other h =
      let (made, same) =
        within_ok vesting (Vesting.commit_outgoing_transaction d tx time v) receipt after h in
      subst (λ x. revert_outgoing_transaction w d c tx receipt x ≡ (ok tt, vesting v)) same
        (ap (within vesting) (
          Vesting.Payout.revert_outgoing_transaction-commit_outgoing_transaction d v _ tx time
            receipt r made))
  revert_outgoing-commit_outgoing (htlc v) after tx height time receipt r other h =
      let (made, same) =
        within_ok htlc (Htlc.commit_outgoing_transaction c tx time v) receipt after h in
      subst (λ x. revert_outgoing_transaction w d c tx receipt x ≡ (ok tt, htlc v)) same
        (ap (within htlc) (
          Htlc.Payout.revert_outgoing_transaction-commit_outgoing_transaction c v _ tx time receipt
            r made))
  revert_outgoing-commit_outgoing (staking s) after tx height time receipt r other h =
      elim (other refl) [ ]
