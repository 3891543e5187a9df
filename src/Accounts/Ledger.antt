-- ===== src/Accounts/Ledger.antt =====
-- accounts/src/accounts.rs: applying the transactions and inherents of a block to the accounts, and
-- reverting them by the receipts. The block height is u32, an index of a receipt u16.
use nimiq_core_rs_albatross.Base.{
  ℕ, ◌+◌, ◌%◌, Bool, true, false, Option, none, some, unwrap_or, List, [], ◌∷◌, ◌==◌, if◌then◌else◌,
}
use nimiq_core_rs_albatross.Primitives.Word.{u16_mod}
use nimiq_core_rs_albatross.Collections.Map
use nimiq_core_rs_albatross.Collections.Map.{Map, empty}
use nimiq_core_rs_albatross.Account.Outcome.{
  AccountType, type_mismatch, Outcome, ok, err, panic, Action, pure, lift, get_self, modify, ◌>>=◌,
  ◌>>◌,
}
use nimiq_core_rs_albatross.Account.Htlc.Verifier.{Submitted}
use nimiq_core_rs_albatross.Account.Staking.Inherents.{Inherent, InherentType}
use nimiq_core_rs_albatross.Account.Dispatch.{
  Account, basic, account_type, balance, is_to_be_pruned,
}
use nimiq_core_rs_albatross.Accounts.Tree.{AccountsTree}

pub data Receipt (Bytes : Type 0) : Type 0 where
  pruned_account : ℕ → Account → Receipt Bytes
  transaction_receipt : ℕ → Bool → Bytes → Receipt Bytes
  inherent_receipt : ℕ → Bool → Bytes → Receipt Bytes

-- `Account::INITIAL`
abbrev pub initial : Account
initial = basic (record { balance = 0 })

-- `AccountType as u8`
unfoldable pub type_code : AccountType → ℕ
type_code AccountType.basic = 0
type_code AccountType.vesting = 1
type_code AccountType.htlc = 2
type_code AccountType.staking = 3

unfoldable pub is_pre_transactions : InherentType → Bool
is_pre_transactions InherentType.slash = true
is_pre_transactions InherentType.reward = false
is_pre_transactions InherentType.finalize_batch = false
is_pre_transactions InherentType.finalize_epoch = false

-- `inherents.iter().filter(..)`, for those before or those after the transactions
unfoldable pub filter_inherents :
    {Bytes : Type 0} → Bool → List (Inherent Bytes) → List (Inherent Bytes)
unfolding is_pre_transactions
filter_inherents pre [] = []
filter_inherents pre (i ∷ rest) =
    let kept = filter_inherents pre rest in
    if pre
    then (if is_pre_transactions i.ty then i ∷ kept else kept)
    else (if is_pre_transactions i.ty then kept else i ∷ kept)

-- `if let Some(data) = .. { new_receipts.push(..) }`
abbrev pub cons_receipt :
    {Bytes : Type 0}
    → (Bytes → Receipt Bytes)
    → Option Bytes
    → List (Receipt Bytes)
    → List (Receipt Bytes)
cons_receipt f none rest = rest
cons_receipt f (some bytes) rest = f bytes ∷ rest

unfoldable pub check_type : Option AccountType → Account → Outcome (Unit {0})
unfolding type_code account_type
check_type none account = ok tt
check_type (some expected) account =
    if type_code (account_type account) == type_code expected
    then ok tt
    else err (type_mismatch (account_type account) expected)

abbrev pub recipient_type_of : {Bytes : Type 0} → Submitted Bytes → Option AccountType
recipient_type_of tx = if tx.contract_creation then none else some tx.recipient_type

module _ {T : Type 0} (tree : AccountsTree T) where
  open tree use {get, put_batch}

  unfoldable pub get_account : ℕ → T → Account
  get_account address t = unwrap_or (get address t) initial

  -- `account_op(&mut account, ..)?`, and the account put back.
  unfoldable pub store : {A : Type 0} → ℕ → T → Outcome A × Account → Outcome A × T
  store address t (ok a, account) = (ok a, put_batch address account t)
  store address t (err e, account) = (err e, t)
  store address t (panic, account) = (panic, t)

  unfoldable pub apply_to : {A : Type 0} → ℕ → Action Account A → Action T A
  unfolding get_account store
  apply_to address account_op t = store address t (account_op (get_account address t))

  unfoldable pub restore_accounts : List (ℕ × Account) → Action T (Unit {0})
  restore_accounts [] = pure tt
  restore_accounts ((address, account) ∷ rest) = do
    modify (put_batch address account)
    restore_accounts rest

  module _ {Bytes : Type 0} where
    unfoldable pub process_transaction :
        ℕ
        → Option AccountType
        → Submitted Bytes
        → Option Bytes
        → (Submitted Bytes → Option Bytes → Action Account (Option Bytes))
        → Action T (Option Bytes)
    unfolding get_account check_type apply_to
    process_transaction address expected tx receipt account_op = do
      t ← get_self
      lift (check_type expected (get_account address t))
      apply_to address (account_op tx receipt)

    -- The loop of `process_senders`, from an index on.
    unfoldable pub process_senders :
        ℕ
        → Map Bytes
        → (Submitted Bytes → Option Bytes → Action Account (Option Bytes))
        → List (Submitted Bytes)
        → Action T (List (Receipt Bytes))
    unfolding process_transaction
    process_senders index receipts account_op [] = pure []
    process_senders index receipts account_op (tx ∷ txs) = do
      data_ ←
          process_transaction tx.transaction.sender (some tx.sender_type) tx
            (Map.get (index % u16_mod) receipts) account_op
      rest ← process_senders (index + 1) (Map.remove (index % u16_mod) receipts) account_op txs
      pure (cons_receipt (transaction_receipt (index % u16_mod) true) data_ rest)

    unfoldable pub process_recipients :
        ℕ
        → Map Bytes
        → (Submitted Bytes → Option Bytes → Action Account (Option Bytes))
        → List (Submitted Bytes)
        → Action T (List (Receipt Bytes))
    unfolding process_transaction
    process_recipients index receipts account_op [] = pure []
    process_recipients index receipts account_op (tx ∷ txs) = do
      data_ ←
          process_transaction tx.transaction.recipient (recipient_type_of tx) tx
            (Map.get (index % u16_mod) receipts) account_op
      rest ← process_recipients (index + 1) (Map.remove (index % u16_mod) receipts) account_op txs
      pure (cons_receipt (transaction_receipt (index % u16_mod) false) data_ rest)

    unfoldable pub process_inherents :
        ℕ
        → Map Bytes
        → (Inherent Bytes → Option Bytes → Action Account (Option Bytes))
        → List (Inherent Bytes)
        → Action T (List (Receipt Bytes))
    unfolding apply_to is_pre_transactions
    process_inherents index receipts account_op [] = pure []
    process_inherents index receipts account_op (i ∷ rest) = do
      data_ ← apply_to i.target (account_op i (Map.get (index % u16_mod) receipts))
      more ← process_inherents (index + 1) (Map.remove (index % u16_mod) receipts) account_op rest
      pure (cons_receipt (inherent_receipt (index % u16_mod) (is_pre_transactions i.ty)) data_ more)

    unfoldable pub revert_contract : Submitted Bytes → Action T (Unit {0})
    unfolding get_account check_type balance
    revert_contract tx = do
      t ← get_self
      lift (check_type (some tx.recipient_type) (get_account tx.transaction.recipient t))
      modify (
          put_batch tx.transaction.recipient
            (basic (record { balance = balance (get_account tx.transaction.recipient t) })))

    unfoldable pub revert_contracts : List (Submitted Bytes) → Action T (Unit {0})
    unfolding revert_contract
    revert_contracts [] = pure tt
    revert_contracts (tx ∷ txs) = do
      if tx.contract_creation then revert_contract tx else pure tt
      revert_contracts txs

    unfoldable pub prune_accounts : List (Submitted Bytes) → Action T (List (Receipt Bytes))
    unfolding get_account is_to_be_pruned
    prune_accounts [] = pure []
    prune_accounts (tx ∷ txs) = do
      t ← get_self
      if is_to_be_pruned (get_account tx.transaction.sender t)
          then (do
            modify (put_batch tx.transaction.sender initial)
            rest ← prune_accounts txs
            pure
                (pruned_account tx.transaction.sender (get_account tx.transaction.sender t) ∷ rest))
          else prune_accounts txs
