-- ===== src/Accounts/Senders.antt =====
-- What the senders of a block pay, all together.
use nimiq_core_rs_albatross.Base.{
  ℕ, ◌+◌, ◌%◌, ◌≡◌, ◌≢◌, refl, sym, subst, Option, none, some, List, [], ◌∷◌, ◌==◌, true,
  if◌then◌else◌, arith, inl, inr, Bool-cases,
}
use nimiq_core_rs_albatross.Primitives.Word.{u16_mod}
use nimiq_core_rs_albatross.Collections.Map
use nimiq_core_rs_albatross.Collections.Map.{Map}
use nimiq_core_rs_albatross.Account.Outcome.{
  AccountType, Outcome, ok, err, panic, Action, pure, lift, ◌>>=◌,
}
use nimiq_core_rs_albatross.Account.Vesting.{Decoders}
use nimiq_core_rs_albatross.Account.Htlc.{Codecs}
use nimiq_core_rs_albatross.Account.Htlc.Verifier.{Submitted}
use nimiq_core_rs_albatross.Account.Staking.Wire.{Wire}
use nimiq_core_rs_albatross.Account.Staking.Conservation.Transactions.{Quiet}
use nimiq_core_rs_albatross.Account.Dispatch
use nimiq_core_rs_albatross.Account.Dispatch.{Account, account_type, balance}
use nimiq_core_rs_albatross.Account.Dispatch.Debit.{
  WellFormed, Debits, commit_outgoing_transaction-Debits,
}
use nimiq_core_rs_albatross.Accounts.Tree.{AccountsTree}
use nimiq_core_rs_albatross.Accounts.Ledger.{
  Receipt, cons_receipt, transaction_receipt, get_account, store, apply_to, check_type,
  process_transaction, process_senders,
}
use nimiq_core_rs_albatross.Accounts.Lookup.{get_account-put_batch, get_account-put_batch_other}

-- `|account, transaction, block_height, _| account.commit_outgoing_transaction(..)`
abbrev pub send :
    (w : Wire)
    → Decoders w.Bytes
    → Codecs w.Bytes
    → ℕ
    → ℕ
    → Submitted w.Bytes
    → Option w.Bytes
    → Action Account (Option w.Bytes)
send w d c block_height timestamp tx receipt =
    Dispatch.commit_outgoing_transaction w d c tx.transaction block_height timestamp

-- What the transactions of a block take from an address.
abbrev pub paid_by : {Bytes : Type 0} → ℕ → List (Submitted Bytes) → ℕ
paid_by address [] = 0
paid_by address (tx ∷ txs) =
    (if address == tx.transaction.sender then tx.transaction.value + tx.transaction.fee else 0)
    + paid_by address txs

module _ {T : Type 0} (tree : AccountsTree T) where
  open tree use {put_batch}

  abbrev pub AllWellFormed : T → Type 0
  AllWellFormed t = (address : ℕ) → WellFormed (get_account tree address t)

  -- An account after a call that took `n` from it.
  pub record Paid (n : ℕ) (before after : Account) : Type 0 where
    pub well_formed : WellFormed after
    pub kind : account_type after ≡ account_type before
    pub books : balance after + n ≡ balance before

  -- A call that took from each address what `taken` says, if it succeeded; it did not panic.
  abbrev pub Collects : {A : Type 0} → (ℕ → ℕ) → T → Outcome A × T → Type 0
  Collects taken t (ok _, t') =
      (address : ℕ)
      → Paid (taken address) (get_account tree address t) (get_account tree address t')
  Collects taken t (err _, t') = Unit
  Collects taken t (panic, t') = ⊥

  Collects-pure : {A : Type 0} (a : A) (t : T) → AllWellFormed t → Collects (λ _. 0) t (ok a, t)
  Collects-pure a t all address = record {
    well_formed = all address;
    kind = refl;
    books = omega arith;
  }

  Paid-trans : (m n : ℕ) (a b c : Account) → Paid m a b → Paid n b c → Paid (m + n) a c
  Paid-trans m n a b c p q = record {
    well_formed = q.well_formed;
    kind = ground (arith, q.kind, p.kind);
    books = omega (arith, q.books, p.books);
  }

  Collects-after :
      {A B : Type 0} (f g : ℕ → ℕ) (t t' : T) (a : A) (o : Outcome B × T)
      → Collects f t (ok a, t')
      → Collects g t' o
      → Collects (λ x. f x + g x) t o
  Collects-after f g t t' a (ok b, s) p q =
      λ address. Paid-trans (f address) (g address) _ _ _ (p address) (q address)
  Collects-after f g t t' a (err e, s) p q = q
  Collects-after f g t t' a (panic, s) p q = q

  Collects-bind :
      {A B : Type 0} (f g : ℕ → ℕ) (t : T) (o : Outcome A × T) (k : A → Action T B)
      → Collects f t o
      → ((a : A) (t' : T) → AllWellFormed t' → Collects g t' (k a t'))
      → Collects (λ x. f x + g x) t (◌>>=◌ (λ _. o) k t)
  Collects-bind f g t (err e, t') k p h = p
  Collects-bind f g t (panic, t') k p h = p
  Collects-bind f g t (ok a, t') k p h =
      Collects-after f g t t' a (k a t') p (h a t' (λ address. (p address).well_formed))

  Collects-map :
      {A B : Type 0} (g : ℕ → ℕ) (t : T) (o : Outcome A × T) (f : A → B)
      → Collects g t o
      → Collects g t (◌>>=◌ (λ _. o) (λ a. pure (f a)) t)
  Collects-map g t (ok a, t') f p = p
  Collects-map g t (err e, t') f p = p
  Collects-map g t (panic, t') f p = p

  abbrev taken_from : ℕ → ℕ → ℕ → ℕ
  taken_from sender n address = if address == sender then n else 0

  store-Collects :
      {A : Type 0} (n sender : ℕ) (t : T) (o : Outcome A × Account)
      → AllWellFormed t
      → Debits n (get_account tree sender t) o
      → Collects (taken_from sender n) t (store tree sender t o)
  unfolding store
  store-Collects n sender t (err e, after) all p = tt
  store-Collects n sender t (panic, after) all p = p
  store-Collects n sender t (ok a, after) all (wf, kind, books) = λ address.
      elim (Bool-cases (address == sender)) [
        | inl hit ↦
            let same : sender ≡ address = ground (arith, hit) in
            let amount : n ≡ taken_from sender n address = ground (arith, hit) in
            let stored = put_batch sender after t in
            let paid : Paid n (get_account tree sender t) after = record {
              well_formed = wf;
              kind = kind;
              books = books;
            } in
            let found =
              subst (λ x. Paid n (get_account tree sender t) x)
                (sym (get_account-put_batch tree sender after t)) paid in
            let here =
              subst (λ x. Paid n (get_account tree x t) (get_account tree x stored)) same found in
            subst (λ m. Paid m (get_account tree address t) (get_account tree address stored))
              amount here
        | inr miss ↦
            let apart : address ≢ sender = λ e. ground (arith, e, miss) in
            let amount : 0 ≡ taken_from sender n address = ground (arith, miss) in
            subst (λ x. Paid (taken_from sender n address) (get_account tree address t) x)
              (sym (get_account-put_batch_other tree address sender after t apart))
              (subst (λ m. Paid m (get_account tree address t) (get_account tree address t)) amount
                (Collects-pure a t all address))
      ]

  check_type-Quiet : (kind : Option AccountType) (a : Account) → Quiet (check_type kind a)
  unfolding check_type
  check_type-Quiet none a = tt
  check_type-Quiet (some k) a = ground arith

  type_checked :
      {A : Type 0} (n sender : ℕ) (t : T) (o : Outcome (Unit {0})) (stored : Outcome A × T)
      → Quiet o
      → Collects (taken_from sender n) t stored
      → Collects (taken_from sender n) t (◌>>=◌ (lift o) (λ _ _. stored) t)
  type_checked n sender t (ok u) stored q p = p
  type_checked n sender t (err e) stored q p = q
  type_checked n sender t panic stored q p = q

  module _ {Bytes : Type 0} where
    process_transaction-Collects :
        (n sender : ℕ) (kind : Option AccountType) (tx : Submitted Bytes) (receipt : Option Bytes)
        (op : Submitted Bytes → Option Bytes → Action Account (Option Bytes)) (t : T)
        → AllWellFormed t
        → Debits n (get_account tree sender t) (op tx receipt (get_account tree sender t))
        → Collects (taken_from sender n) t (process_transaction tree sender kind tx receipt op t)
    unfolding process_transaction apply_to
    process_transaction-Collects n sender kind tx receipt op t all p =
        type_checked n sender t (check_type kind (get_account tree sender t)) _
          (check_type-Quiet kind (get_account tree sender t)) (store-Collects n sender t _ all p)

  module _ (w : Wire) (d : Decoders w.Bytes) (c : Codecs w.Bytes) (block_height timestamp : ℕ) where
    -- The senders of a block, where every account is well-formed, are processed without a panic.
    -- If all succeed, then the account of every address is well-formed, of the same kind, and its
    -- balance is less by exactly what the transactions that it sent take, their values and fees,
    -- from whichever index and with whichever receipts.
    pub process_senders-Collects :
        (index : ℕ) (receipts : Map w.Bytes) (txs : List (Submitted w.Bytes)) (t : T)
        → AllWellFormed t
        → Collects
            (λ address. paid_by address txs)
            t
            (process_senders tree index receipts (send w d c block_height timestamp) txs t)
    unfolding process_senders
    process_senders-Collects index receipts [] t all =
        Collects-pure {A = List (Receipt w.Bytes)} [] t all
    process_senders-Collects index receipts (tx ∷ txs) t all =
        let n = tx.transaction.value + tx.transaction.fee in
        let sender = tx.transaction.sender in
        Collects-bind (taken_from sender n) (λ address. paid_by address txs) t _ _
          (process_transaction-Collects n sender (some tx.sender_type) tx
            (Map.get (index % u16_mod) receipts) (send w d c block_height timestamp) t all
            (commit_outgoing_transaction-Debits w d c (get_account tree sender t) tx.transaction
              block_height timestamp (all sender)))
          (λ data_ t' all'.
            Collects-map (λ address. paid_by address txs) t' _
              (cons_receipt (transaction_receipt (index % u16_mod) true) data_)
              (process_senders-Collects (index + 1) (Map.remove (index % u16_mod) receipts) txs t'
                all'))
