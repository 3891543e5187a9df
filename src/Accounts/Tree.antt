-- ===== src/Accounts/Tree.antt =====
-- accounts/src/tree/mod.rs as accounts/src/accounts.rs uses it: a store of accounts by address, in a
-- database transaction. An initial account may be stored or left out.
use nimiq_core_rs_albatross.Base.{ℕ, ◌≡◌, ◌≢◌, ◌⊎◌, Option, none, some, true}
use nimiq_core_rs_albatross.Account.Dispatch.{Account, is_initial}

pub record AccountsTree (T : Type 0) : Type 0 where
  pub get : ℕ → T → Option Account
  pub put_batch : ℕ → Account → T → T
  pub get-put_batch :
      (address : ℕ) (account : Account) (t : T)
      → (get address (put_batch address account t) ≡ some account)
        ⊎ ((is_initial account ≡ true) × (get address (put_batch address account t) ≡ none))
  pub get-put_batch_other :
      (address other : ℕ) (account : Account) (t : T)
      → address ≢ other
      → get address (put_batch other account t) ≡ get address t
