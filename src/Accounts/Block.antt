-- ===== src/Accounts/Block.antt =====
-- accounts/src/accounts.rs: the contracts that a block creates, and all that it commits or reverts,
-- before the hashes of the tree are brought up to date.
use nimiq_core_rs_albatross.Base.{ℕ, true, false, Option, none, List, [], ◌∷◌, ◌++◌, if◌then◌else◌}
use nimiq_core_rs_albatross.Collections.Map.{Map, empty, insert}
use nimiq_core_rs_albatross.Account.Outcome.{
  Outcome, ok, err, panic, Action, pure, lift, get_self, modify, ◌>>=◌, ◌>>◌,
}
use nimiq_core_rs_albatross.Account.Vesting.{Decoders}
use nimiq_core_rs_albatross.Account.Htlc.{Codecs}
use nimiq_core_rs_albatross.Account.Htlc.Verifier.{Submitted}
use nimiq_core_rs_albatross.Account.Staking.Wire.{Wire}
use nimiq_core_rs_albatross.Account.Staking.Inherents.{Inherent}
use nimiq_core_rs_albatross.Account.Dispatch
use nimiq_core_rs_albatross.Account.Dispatch.{Account, balance, new_contract}
use nimiq_core_rs_albatross.Accounts.Tree.{AccountsTree}
use nimiq_core_rs_albatross.Accounts.Ledger.{
  Receipt, pruned_account, transaction_receipt, inherent_receipt, get_account, process_senders,
  process_recipients, process_inherents, filter_inherents, prune_accounts, restore_accounts,
  revert_contracts,
}

-- The maps that `prepare_receipts` fills.
pub record ReceiptMaps (Bytes : Type 0) : Type 0 where
  pub sender_receipts : Map Bytes
  pub recipient_receipts : Map Bytes
  pub pre_tx_inherent_receipts : Map Bytes
  pub post_tx_inherent_receipts : Map Bytes
  pub pruned_accounts : List (ℕ × Account)

module _ {Bytes : Type 0} where
  -- One turn of the loop: the receipt joins its map.
  unfoldable pub add_receipt : Receipt Bytes → ReceiptMaps Bytes → ReceiptMaps Bytes
  add_receipt (transaction_receipt index true bytes) m = record m {
    sender_receipts = insert index bytes m.sender_receipts;
  }
  add_receipt (transaction_receipt index false bytes) m = record m {
    recipient_receipts = insert index bytes m.recipient_receipts;
  }
  add_receipt (inherent_receipt index true bytes) m = record m {
    pre_tx_inherent_receipts = insert index bytes m.pre_tx_inherent_receipts;
  }
  add_receipt (inherent_receipt index false bytes) m = record m {
    post_tx_inherent_receipts = insert index bytes m.post_tx_inherent_receipts;
  }
  add_receipt (pruned_account address account) m = record m {
    pruned_accounts = m.pruned_accounts ++ ((address, account) ∷ []);
  }

  unfoldable pub prepare_from : ReceiptMaps Bytes → List (Receipt Bytes) → ReceiptMaps Bytes
  unfolding add_receipt
  prepare_from m [] = m
  prepare_from m (r ∷ rest) = prepare_from (add_receipt r m) rest

  unfoldable pub prepare_receipts : List (Receipt Bytes) → ReceiptMaps Bytes
  unfolding prepare_from
  prepare_receipts = prepare_from (record {
    sender_receipts = empty;
    recipient_receipts = empty;
    pre_tx_inherent_receipts = empty;
    post_tx_inherent_receipts = empty;
    pruned_accounts = [];
  })

-- `.map(|_| None)`
abbrev pub without_receipt :
    {Bytes : Type 0} → Outcome (Unit {0}) × Account → Outcome (Option Bytes) × Account
without_receipt (ok _, account) = (ok none, account)
without_receipt (err e, account) = (err e, account)
without_receipt (panic, account) = (panic, account)

module _ {T : Type 0} (tree : AccountsTree T) (w : Wire) (d : Decoders w.Bytes)
    (c : Codecs w.Bytes) where
  open w use {Bytes}
  open tree use {put_batch}

  unfoldable pub create_contract : Submitted Bytes → Action T (Unit {0})
  unfolding get_account balance new_contract
  create_contract tx = do
    t ← get_self
    account ← lift (
        new_contract w d c tx.recipient_type (balance (get_account tree tx.transaction.recipient t))
          tx.transaction)
    modify (put_batch tx.transaction.recipient account)

  unfoldable pub create_contracts : List (Submitted Bytes) → Action T (Unit {0})
  unfolding create_contract
  create_contracts [] = pure tt
  create_contracts (tx ∷ txs) = do
    if tx.contract_creation then create_contract tx else pure tt
    create_contracts txs

  unfoldable pub commit_nonfinal :
      List (Submitted Bytes) → List (Inherent Bytes) → ℕ → ℕ → Action T (List (Receipt Bytes))
  unfolding process_inherents process_senders process_recipients create_contracts prune_accounts
      filter_inherents
  commit_nonfinal transactions inherents block_height timestamp = do
    pre ←
        process_inherents tree 0 empty (λ i _. Dispatch.commit_inherent w d c i block_height)
          (filter_inherents true inherents)
    sent ←
        process_senders tree 0 empty
          (λ tx _. Dispatch.commit_outgoing_transaction w d c tx.transaction block_height timestamp)
          transactions
    received ←
        process_recipients tree 0 empty
          (λ tx _. Dispatch.commit_incoming_transaction w d c tx.transaction block_height)
          transactions
    create_contracts transactions
    pruned ← prune_accounts tree transactions
    post ←
        process_inherents tree 0 empty (λ i _. Dispatch.commit_inherent w d c i block_height)
          (filter_inherents false inherents)
    pure (pre ++ (sent ++ (received ++ (pruned ++ post))))

  unfoldable pub revert_nonfinal :
      List (Submitted Bytes)
      → List (Inherent Bytes)
      → ℕ
      → List (Receipt Bytes)
      → Action T (Unit {0})
  unfolding process_inherents process_senders process_recipients revert_contracts restore_accounts
      prepare_receipts filter_inherents
  revert_nonfinal transactions inherents block_height receipts = do
    let r = prepare_receipts receipts
    process_inherents tree 0 r.post_tx_inherent_receipts
        (λ i receipt a. without_receipt (Dispatch.revert_inherent w d c i block_height receipt a))
        (filter_inherents false inherents)
    restore_accounts tree r.pruned_accounts
    revert_contracts tree transactions
    process_recipients tree 0 r.recipient_receipts
        (λ tx receipt a.
          without_receipt (Dispatch.revert_incoming_transaction w d c tx.transaction receipt a))
        transactions
    process_senders tree 0 r.sender_receipts
        (λ tx receipt a.
          without_receipt (Dispatch.revert_outgoing_transaction w d c tx.transaction receipt a))
        transactions
    process_inherents tree 0 r.pre_tx_inherent_receipts
        (λ i receipt a. without_receipt (Dispatch.revert_inherent w d c i block_height receipt a))
        (filter_inherents true inherents)
    pure tt
