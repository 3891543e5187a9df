-- ===== src/Accounts/Lookup.antt =====
-- What is found in the tree after an account was put back.
use nimiq_core_rs_albatross.Base.{ℕ, ◌≡◌, ◌≢◌, ap, ◌∙◌, unwrap_or, true, inl, inr, arith}
use nimiq_core_rs_albatross.Account.Dispatch.{Account, basic, vesting, htlc, staking, is_initial}
use nimiq_core_rs_albatross.Accounts.Tree.{AccountsTree}
use nimiq_core_rs_albatross.Accounts.Ledger.{initial, get_account}

initial_only : (account : Account) → is_initial account ≡ true → initial ≡ account
unfolding is_initial
initial_only (basic a) e = ground (arith, e)
initial_only (vesting v) e = ground (arith, e)
initial_only (htlc v) e = ground (arith, e)
initial_only (staking s) e = ground (arith, e)

module _ {T : Type 0} (tree : AccountsTree T) where
  open tree use {put_batch}

  pub get_account-put_batch :
      (address : ℕ) (account : Account) (t : T)
      → get_account tree address (put_batch address account t) ≡ account
  unfolding get_account
  get_account-put_batch address account t = elim (tree.get-put_batch address account t) [
    | inl stored ↦ ap (λ o. unwrap_or o initial) stored
    | inr (zero_balance, left_out) ↦
        ap (λ o. unwrap_or o initial) left_out ∙ initial_only account zero_balance
  ]

  pub get_account-put_batch_other :
      (address other : ℕ) (account : Account) (t : T)
      → address ≢ other
      → get_account tree address (put_batch other account t) ≡ get_account tree address t
  unfolding get_account
  get_account-put_batch_other address other account t apart =
      ap (λ o. unwrap_or o initial) (tree.get-put_batch_other address other account t apart)
