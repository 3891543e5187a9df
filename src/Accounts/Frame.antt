-- ===== src/Accounts/Frame.antt =====
-- The accounts that a block does not name.
use nimiq_core_rs_albatross.Base.{
  ℕ, ◌+◌, ◌%◌, ◌≡◌, ◌≢◌, refl, ◌∙◌, Bool, true, false, Option, some, List, [], ◌∷◌, ◌++◌,
  if◌then◌else◌,
}
use nimiq_core_rs_albatross.Primitives.Word.{u16_mod}
use nimiq_core_rs_albatross.Collections.Map
use nimiq_core_rs_albatross.Collections.Map.{Map, empty}
use nimiq_core_rs_albatross.Account.Outcome.{
  AccountType, Outcome, ok, err, panic, Action, pure, get_self, modify, ◌>>=◌,
}
use nimiq_core_rs_albatross.Account.Vesting.{Decoders}
use nimiq_core_rs_albatross.Account.Htlc.{Codecs}
use nimiq_core_rs_albatross.Account.Htlc.Verifier.{Submitted}
use nimiq_core_rs_albatross.Account.Staking.Wire.{Wire}
use nimiq_core_rs_albatross.Account.Staking.Inherents.{Inherent}
use nimiq_core_rs_albatross.Account.Dispatch
use nimiq_core_rs_albatross.Account.Dispatch.{Account, is_to_be_pruned, balance, new_contract}
use nimiq_core_rs_albatross.Accounts.Tree.{AccountsTree}
use nimiq_core_rs_albatross.Accounts.Ledger.{
  initial, get_account, store, apply_to, check_type, process_transaction, process_senders,
  process_recipients, process_inherents, prune_accounts, filter_inherents, cons_receipt,
  transaction_receipt, inherent_receipt, recipient_type_of, is_pre_transactions, pruned_account,
}
use nimiq_core_rs_albatross.Accounts.Named.{Apart, Untargeted, Untargeted-filter_inherents}
use nimiq_core_rs_albatross.Accounts.Block.{create_contract, create_contracts, commit_nonfinal}
use nimiq_core_rs_albatross.Accounts.Lookup.{get_account-put_batch_other}

module _ {T : Type 0} (tree : AccountsTree T) (address : ℕ) where
  open tree use {put_batch}

  -- A call after which the address has the account that it had, whether it succeeds or not.
  pub record Leaves {A : Type 0} (m : Action T A) : Type 0 where
    pub leaves : (t : T) → get_account tree address (m t).1 ≡ get_account tree address t

  Leaves-pure : {A : Type 0} (a : A) → Leaves (pure {S = T} a)
  Leaves-pure a = record { leaves = λ t. refl }

  after_bind :
      {A B : Type 0} (t : T) (o : Outcome A × T) (k : A → Action T B)
      → get_account tree address o.1 ≡ get_account tree address t
      → ((a : A) → Leaves (k a))
      → get_account tree address (◌>>=◌ (λ _. o) k t).1 ≡ get_account tree address t
  after_bind t (ok a, t') k e h = (h a).leaves t' ∙ e
  after_bind t (err x, t') k e h = e
  after_bind t (panic, t') k e h = e

  Leaves-bind :
      {A B : Type 0} (m : Action T A) (k : A → Action T B)
      → Leaves m
      → ((a : A) → Leaves (k a))
      → Leaves (m >>= k)
  Leaves-bind m k p h = record { leaves = λ t. after_bind t (m t) k (p.leaves t) h }

  Leaves-map :
      {A B : Type 0} (m : Action T A) (f : A → B) → Leaves m → Leaves (m >>= λ a. pure (f a))
  Leaves-map m f p = Leaves-bind m (λ a. pure (f a)) p (λ a. Leaves-pure (f a))

  Leaves-if :
      {A : Type 0} (b : Bool) (m n : Action T A) → Leaves m → Leaves n → Leaves (if b then m else n)
  Leaves-if true m n p q = p
  Leaves-if false m n p q = q

  Leaves-put : (other : ℕ) (a : Account) → address ≢ other → Leaves (modify (put_batch other a))
  Leaves-put other a apart = record {
    leaves = λ t. get_account-put_batch_other tree address other a t apart;
  }

  stored :
      {A : Type 0} (other : ℕ) (t : T) (o : Outcome A × Account)
      → address ≢ other
      → get_account tree address (store tree other t o).1 ≡ get_account tree address t
  unfolding store
  stored other t (ok a, account) apart =
      get_account-put_batch_other tree address other account t apart
  stored other t (err e, account) apart = refl
  stored other t (panic, account) apart = refl

  Leaves-apply_to :
      {A : Type 0} (other : ℕ) (op : Action Account A)
      → address ≢ other
      → Leaves (apply_to tree other op)
  unfolding apply_to
  Leaves-apply_to other op apart = record {
    leaves = λ t. stored other t (op (get_account tree other t)) apart;
  }

  Leaves-lift : {A : Type 0} (o : T → Outcome A) → Leaves (λ t. (o t, t))
  Leaves-lift o = record { leaves = λ t. refl }

  module _ {Bytes : Type 0} where
    Leaves-process_transaction :
        (other : ℕ) (kind : Option AccountType) (tx : Submitted Bytes) (receipt : Option Bytes)
        (op : Submitted Bytes → Option Bytes → Action Account (Option Bytes))
        → address ≢ other
        → Leaves (process_transaction tree other kind tx receipt op)
    unfolding process_transaction
    Leaves-process_transaction other kind tx receipt op apart =
        Leaves-bind get_self _ (Leaves-lift (λ t. ok t)) (λ t.
          Leaves-bind _ _ (Leaves-lift (λ _. check_type kind (get_account tree other t)))
            (λ _. Leaves-apply_to other (op tx receipt) apart))

    Leaves-process_senders :
        (index : ℕ) (receipts : Map Bytes)
        (op : Submitted Bytes → Option Bytes → Action Account (Option Bytes))
        (txs : List (Submitted Bytes))
        → Apart address txs
        → Leaves (process_senders tree index receipts op txs)
    unfolding process_senders
    Leaves-process_senders index receipts op [] a = Leaves-pure []
    Leaves-process_senders index receipts op (tx ∷ txs) (from, to, a) =
        Leaves-bind _ _
          (Leaves-process_transaction tx.transaction.sender (some tx.sender_type) tx
            (Map.get (index % u16_mod) receipts) op from)
          (λ data_.
            Leaves-map _ (cons_receipt (transaction_receipt (index % u16_mod) true) data_)
              (Leaves-process_senders (index + 1) (Map.remove (index % u16_mod) receipts) op txs a))

    Leaves-process_recipients :
        (index : ℕ) (receipts : Map Bytes)
        (op : Submitted Bytes → Option Bytes → Action Account (Option Bytes))
        (txs : List (Submitted Bytes))
        → Apart address txs
        → Leaves (process_recipients tree index receipts op txs)
    unfolding process_recipients
    Leaves-process_recipients index receipts op [] a = Leaves-pure []
    Leaves-process_recipients index receipts op (tx ∷ txs) (from, to, a) =
        Leaves-bind _ _
          (Leaves-process_transaction tx.transaction.recipient (recipient_type_of tx) tx
            (Map.get (index % u16_mod) receipts) op to)
          (λ data_.
            Leaves-map _ (cons_receipt (transaction_receipt (index % u16_mod) false) data_) (
              Leaves-process_recipients (index + 1) (Map.remove (index % u16_mod) receipts) op txs
                a))

    Leaves-process_inherents :
        (index : ℕ) (receipts : Map Bytes)
        (op : Inherent Bytes → Option Bytes → Action Account (Option Bytes))
        (is : List (Inherent Bytes))
        → Untargeted address is
        → Leaves (process_inherents tree index receipts op is)
    unfolding process_inherents
    Leaves-process_inherents index receipts op [] u = Leaves-pure []
    Leaves-process_inherents index receipts op (i ∷ rest) (apart, u) =
        Leaves-bind {A = Option Bytes} _ _
          (Leaves-apply_to i.target (op i (Map.get (index % u16_mod) receipts)) apart)
          (λ data_.
            Leaves-map _
              (cons_receipt (inherent_receipt (index % u16_mod) (is_pre_transactions i.ty)) data_)
              (Leaves-process_inherents (index + 1) (Map.remove (index % u16_mod) receipts) op rest
                u))

    Leaves-prune_accounts :
        (txs : List (Submitted Bytes)) → Apart address txs → Leaves (prune_accounts tree txs)
    unfolding prune_accounts
    Leaves-prune_accounts [] a = Leaves-pure []
    Leaves-prune_accounts (tx ∷ txs) (from, to, a) =
        Leaves-bind get_self _ (Leaves-lift (λ t. ok t)) (λ t.
          Leaves-if (is_to_be_pruned (get_account tree tx.transaction.sender t)) _ _
            (Leaves-bind _ _ (Leaves-put tx.transaction.sender initial from) (λ _.
              Leaves-map _
                (λ rest.
                  pruned_account tx.transaction.sender (get_account tree tx.transaction.sender t)
                  ∷ rest)
                (Leaves-prune_accounts txs a)))
            (Leaves-prune_accounts txs a))

  module _ (w : Wire) (d : Decoders w.Bytes) (c : Codecs w.Bytes) where
    Leaves-create_contract :
        (tx : Submitted w.Bytes)
        → address ≢ tx.transaction.recipient
        → Leaves (create_contract tree w d c tx)
    unfolding create_contract
    Leaves-create_contract tx to = Leaves-bind get_self _ (Leaves-lift (λ t. ok t)) (λ t.
        Leaves-bind _ _
          (Leaves-lift (λ _.
            new_contract w d c tx.recipient_type
              (balance (get_account tree tx.transaction.recipient t)) tx.transaction))
          (λ account. Leaves-put tx.transaction.recipient account to))

    Leaves-create_contracts :
        (txs : List (Submitted w.Bytes))
        → Apart address txs
        → Leaves (create_contracts tree w d c txs)
    unfolding create_contracts
    Leaves-create_contracts [] a = Leaves-pure tt
    Leaves-create_contracts (tx ∷ txs) (from, to, a) =
        Leaves-bind _ _
          (Leaves-if tx.contract_creation _ _ (Leaves-create_contract tx to) (Leaves-pure tt))
          (λ _. Leaves-create_contracts txs a)

    -- Committing a block keeps the account of every address that is neither sender nor recipient
    -- of its transactions nor target of its inherents, whether the block succeeds, fails or
    -- panics.
    pub commit_nonfinal-Leaves :
        (transactions : List (Submitted w.Bytes)) (inherents : List (Inherent w.Bytes))
        (block_height timestamp : ℕ)
        → Apart address transactions
        → Untargeted address inherents
        → Leaves (commit_nonfinal tree w d c transactions inherents block_height timestamp)
    unfolding commit_nonfinal
    commit_nonfinal-Leaves transactions inherents block_height timestamp a u =
        let op = λ (i : Inherent w.Bytes) (r : Option w.Bytes).
          Dispatch.commit_inherent w d c i block_height in
        Leaves-bind _ _
          (Leaves-process_inherents 0 empty op (filter_inherents true inherents)
            (Untargeted-filter_inherents address true inherents u))
          (λ pre.
            Leaves-bind _ _
              (Leaves-process_senders 0 empty
                (λ tx _.
                  Dispatch.commit_outgoing_transaction w d c tx.transaction block_height timestamp)
                transactions a)
              (λ sent.
                Leaves-bind _ _
                  (Leaves-process_recipients 0 empty
                    (λ tx _. Dispatch.commit_incoming_transaction w d c tx.transaction block_height)
                    transactions a)
                  (λ received. Leaves-bind _ _ (Leaves-create_contracts transactions a) (λ _.
                    Leaves-bind _ _ (Leaves-prune_accounts transactions a) (λ pruned.
                      Leaves-map _ (λ post. pre ++ (sent ++ (received ++ (pruned ++ post))))
                        (Leaves-process_inherents 0 empty op (filter_inherents false inherents)
                          (Untargeted-filter_inherents address false inherents u)))))))
