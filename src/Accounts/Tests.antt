-- ===== src/Accounts/Tests.antt =====
-- Two accounts and the staking contract in a map by address: examples for the laws, and a block
-- that is committed and reverted.
use nimiq_core_rs_albatross.Base.{
  ℕ, ◌≡◌, ◌≢◌, refl, none, some, false, ◌==◌, List, [], ◌∷◌, inl, inr, arith, Option, Option-cases,
  unwrap_or, sym, subst,
}
use nimiq_core_rs_albatross.Collections.Map
use nimiq_core_rs_albatross.Collections.Map.{Map, empty}
use nimiq_core_rs_albatross.Collections.Map.Order.{get-insert, get-insert_self}
use nimiq_core_rs_albatross.Collections.Map.Entries.{get-AllEntries}
use nimiq_core_rs_albatross.Account.Outcome.{AccountType, Outcome, ok, err, panic}
use nimiq_core_rs_albatross.Account.Htlc.Verifier.{Submitted}
use nimiq_core_rs_albatross.Account.Staking.Wire.{total_value, IncomingStakingTransactionData}
use nimiq_core_rs_albatross.Account.Staking.Tests.Sample.{Payload, wire, sample, sample-Inv}
use nimiq_core_rs_albatross.Account.Balance.{balance_add, balance_sub}
use nimiq_core_rs_albatross.Account.Basic
use nimiq_core_rs_albatross.Account.Staking.Contract.{remove_validator, restore_validator}
use nimiq_core_rs_albatross.Account.Staking.Entry.{update_entry}
use nimiq_core_rs_albatross.Account.Staking.Lifecycle.{update_validator, revert_update_validator}
use nimiq_core_rs_albatross.Account.Staking.Transactions
use nimiq_core_rs_albatross.Account.Dispatch
use nimiq_core_rs_albatross.Account.Dispatch.{Account, basic, staking}
use nimiq_core_rs_albatross.Account.Dispatch.Debit.{WellFormed}
use nimiq_core_rs_albatross.Account.Dispatch.Tests.{decoders, codecs}
use nimiq_core_rs_albatross.Accounts.Tree.{AccountsTree}
use nimiq_core_rs_albatross.Accounts.Ledger.{Receipt, get_account, initial, process_senders}
use nimiq_core_rs_albatross.Accounts.Block.{commit_nonfinal, revert_nonfinal}
use nimiq_core_rs_albatross.Accounts.Senders.{
  Collects, AllWellFormed, paid_by, send, process_senders-Collects,
}
use nimiq_core_rs_albatross.Accounts.Frame.{Leaves, commit_nonfinal-Leaves}

get-insert_other :
    (j k : ℕ) (a : Account) (m : Map Account) → j ≢ k → Map.get j (Map.insert k a m) ≡ Map.get j m
get-insert_other j k a m apart = ground (arith, get-insert j k a m, apart)

abbrev tree : AccountsTree (Map Account)
tree = record {
  get = Map.get;
  put_batch = Map.insert;
  get-put_batch = λ k a m. inl (get-insert_self k a m);
  get-put_batch_other = get-insert_other;
}

-- The staking contract has the address 99.
abbrev accounts : Map Account
accounts =
    (1, basic (record { balance = 100 }))
    ∷ (2, basic (record { balance = 50 }))
    ∷ (99, staking sample)
    ∷ []

all_well_formed : AllWellFormed tree accounts
unfolding get_account
all_well_formed address = elim (Option-cases (Map.get address accounts)) [
  | inl missing ↦ subst (λ o. WellFormed (unwrap_or o initial)) (sym missing) (omega arith)
  | inr (a, found) ↦
      subst (λ o. WellFormed (unwrap_or o initial)) (sym found)
        (get-AllEntries (λ _ x. WellFormed x) address a accounts
          (omega arith, (omega arith, (sample-Inv, tt))) found)
]

abbrev sending : ℕ → ℕ → ℕ → Payload → Submitted Payload
sending sender recipient value data_ = record {
  transaction = record {
    tx_data = data_;
    sender = sender;
    recipient = recipient;
    value = value;
    fee = 1;
    proof = Payload.nothing;
  };
  sender_type = AccountType.basic;
  recipient_type = AccountType.basic;
  contract_creation = false;
  signalling = false;
  contract_creation_address = 0;
  content = Payload.nothing;
}

abbrev transfers : List (Submitted Payload)
transfers =
    sending 1 2 10 Payload.nothing
    ∷ sending 2 1 20 Payload.nothing
    ∷ sending 1 2 30 Payload.nothing
    ∷ []

process_senders-Collects_example :
    Collects tree
      (λ address. paid_by address transfers)
      accounts
      (process_senders tree 0 empty (send wire decoders codecs 200 1000) transfers accounts)
process_senders-Collects_example =
    process_senders-Collects tree wire decoders codecs 200 1000 0 empty transfers accounts
      all_well_formed

differs : {m n : ℕ} → (m == n) ≡ false → m ≢ n
differs h e = ground (arith, h, e)

commit_nonfinal-Leaves_example :
    Leaves tree 99 (commit_nonfinal tree wire decoders codecs transfers [] 200 1000)
commit_nonfinal-Leaves_example =
    commit_nonfinal-Leaves tree 99 wire decoders codecs transfers [] 200 1000
      (differs refl, differs refl, (differs refl, differs refl, (differs refl, differs refl, tt)))
      tt

abbrev update_to : ℕ → Submitted Payload
update_to reward_address =
    record (sending 1 99 0 (
      Payload.incoming
        (IncomingStakingTransactionData.update_validator 1 none none (some reward_address) 0))) {
          recipient_type = AccountType.staking;
        }

abbrev updates : List (Submitted Payload)
updates = update_to 200 ∷ update_to 300 ∷ []

abbrev reward_address_of : Account → Option ℕ
reward_address_of (staking s) = elim (Map.get 1 s.active_validators_by_key) [
  | none ↦ none
  | some v ↦ some v.reward_address
]
reward_address_of other = none

-- The reward address of validator 1 after the block, and after the block and its reversal.
abbrev rewards_after : Outcome (List (Receipt Payload)) × Map Account → List (Option ℕ)
rewards_after (ok receipts, t) =
    reward_address_of (get_account tree 99 t)
    ∷ reward_address_of (
        get_account tree 99 (revert_nonfinal tree wire decoders codecs updates [] 200 receipts t).1)
    ∷ []
rewards_after (err e, t) = []
rewards_after (panic, t) = []

-- The reversal takes the updates in the order of the block, and ends at the address between them.
updates_reverted :
    rewards_after (commit_nonfinal tree wire decoders codecs updates [] 200 1000 accounts)
    ≡ some 300 ∷ some 200 ∷ []
unfolding commit_nonfinal revert_nonfinal Map.get Map.insert Map.remove total_value balance_add
    balance_sub Dispatch.commit_outgoing_transaction Dispatch.revert_outgoing_transaction
    Dispatch.commit_incoming_transaction Dispatch.revert_incoming_transaction
    Basic.commit_outgoing_transaction Basic.revert_outgoing_transaction
    Transactions.commit_incoming_transaction Transactions.revert_incoming_transaction
    update_validator revert_update_validator remove_validator restore_validator update_entry
updates_reverted = refl
