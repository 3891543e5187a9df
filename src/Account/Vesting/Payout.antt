-- ===== src/Account/Vesting/Payout.antt =====
-- What the owner of a vesting contract can take out, and its reversal.
use nimiq_core_rs_albatross.Base.{
  ℕ, ◌+◌, ◌-◌, ◌≤◌, subst, ◌≡◌, inl, inr, refl, Option, none, arith, Bool-cases, ◌==◌, order_cases,
}
use nimiq_core_rs_albatross.Primitives.Coin.{max_safe_value, checked_add}
use nimiq_core_rs_albatross.Account.Outcome.{Outcome, ok, err, panic}
use nimiq_core_rs_albatross.Account.Balance.{balance_add, balance_sub}
use nimiq_core_rs_albatross.Account.Staking.Conservation.Transactions.{Quiet, deserialize-Quiet}
use nimiq_core_rs_albatross.Account.Staking.Wire.{
  SignatureProof, Transaction, total_value, deserialize,
}
use nimiq_core_rs_albatross.Account.Vesting.{
  VestingContract, Decoders, min_cap, check_outgoing_transaction, commit_outgoing_transaction,
  revert_outgoing_transaction,
}

-- A proof that was read is signed by the owner.
abbrev pub SignedBy : ℕ → Outcome SignatureProof → Type 0
SignedBy owner (ok p) = p.compute_signer ≡ owner
SignedBy owner (err e) = ⊥
SignedBy owner panic = ⊥

module _ {Bytes : Type 0} (d : Decoders Bytes) where
  open d use {signature_proof}

  -- The owner signed, and what is left covers what is locked.
  pub record MayPay (v : VestingContract) (tx : Transaction Bytes) (time : ℕ) : Type 0 where
    pub in_range : tx.value + tx.fee ≤ max_safe_value
    pub left : min_cap v time + (tx.value + tx.fee) ≤ v.balance
    pub signed : SignedBy v.owner (deserialize signature_proof tx.proof)

  -- How a payment ends: it is made, exactly, and was allowed; or the contract is as it was.
  abbrev pub Pays :
      VestingContract → Transaction Bytes → ℕ → Outcome (Option Bytes) × VestingContract → Type 0
  Pays v tx time (ok receipt, v') =
      MayPay v tx time
      × (receipt ≡ none)
      × (v' ≡ record v { balance = v.balance - (tx.value + tx.fee) })
  Pays v tx time (err e, v') = (v' ≡ v) × ¬ MayPay v tx time
  Pays v tx time (panic, v') = ⊥

  pay_read :
      (v : VestingContract) (tx : Transaction Bytes) (time : ℕ) (o : Outcome SignatureProof)
      → v.balance ≤ max_safe_value
      → deserialize signature_proof tx.proof ≡ o
      → Quiet o
      → Pays v tx time (commit_outgoing_transaction d tx time v)
  unfolding commit_outgoing_transaction check_outgoing_transaction balance_sub total_value
      checked_add
  pay_read v tx time panic r e q = elim q [ ]
  pay_read v tx time (err x) r e q =
      let no : MayPay v tx time → ⊥ = λ m. ground (arith, m.signed, e) in ground (arith, e, r, no)
  pay_read v tx time (ok p) r e q = elim (order_cases max_safe_value (tx.value + tx.fee)) [
    | inl over ↦
        let no : MayPay v tx time → ⊥ = λ m. omega (arith, over, m.in_range) in
        ground (arith, e, r, over, no)
    | inr fits ↦ elim (order_cases v.balance (min_cap v time + (tx.value + tx.fee))) [
      | inl short ↦
          let no : MayPay v tx time → ⊥ = λ m. omega (arith, short, m.left) in
          ground (arith, e, r, fits, short, no)
      | inr left ↦ elim (Bool-cases (p.compute_signer == v.owner)) [
        | inr other ↦
            let no : MayPay v tx time → ⊥ =
              λ m. let same = subst (SignedBy v.owner) e m.signed in ground (arith, same, other) in
            ground (arith, e, r, fits, left, other, no)
        | inl own ↦
            let owner : p.compute_signer ≡ v.owner = ground (arith, own) in
            let may : MayPay v tx time = record {
              in_range = ground (arith, fits);
              left = ground (arith, left);
              signed = rw (e) owner;
            } in
            ground (arith, e, r, fits, left, own, may)
      ]
    ]
  ]

  -- A payment from a vesting contract with a balance in range does not panic. If it succeeds, the
  -- owner signed it, what is left covers what is locked at that time, no receipt is written, and the
  -- balance is less by exactly the value and the fee; if it fails, one of these did not hold, and
  -- the contract is as it was.
  pub commit_outgoing_transaction-Pays :
      (v : VestingContract) (tx : Transaction Bytes) (time : ℕ)
      → v.balance ≤ max_safe_value
      → Pays v tx time (commit_outgoing_transaction d tx time v)
  commit_outgoing_transaction-Pays v tx time r =
      pay_read v tx time (deserialize signature_proof tx.proof) r refl
        (deserialize-Quiet signature_proof tx.proof)

  -- Reverting a payment that was made, with its receipt, succeeds and gives the contract back;
  -- where its balance was in range.
  pub revert_outgoing_transaction-commit_outgoing_transaction :
      (v v' : VestingContract) (tx : Transaction Bytes) (time : ℕ) (receipt : Option Bytes)
      → v.balance ≤ max_safe_value
      → commit_outgoing_transaction d tx time v ≡ (ok receipt, v')
      → revert_outgoing_transaction d tx receipt v' ≡ (ok tt, v)
  unfolding revert_outgoing_transaction balance_add total_value checked_add
  revert_outgoing_transaction-commit_outgoing_transaction v v' tx time receipt r h =
      let paid = subst (Pays v tx time) h (commit_outgoing_transaction-Pays v tx time r) in
      ground (arith, paid.0.in_range, paid.0.left, paid.1, r)
