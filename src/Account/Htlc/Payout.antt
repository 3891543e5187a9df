-- ===== src/Account/Htlc/Payout.antt =====
-- Who can take coins out of a hashed time-locked contract, and the reversal.
use nimiq_core_rs_albatross.Base.{
  ℕ, ◌+◌, ◌-◌, ◌≤◌, subst, ◌≡◌, inl, inr, refl, Option, none, arith, order_cases, sum_cases,
}
use nimiq_core_rs_albatross.Primitives.Coin.{max_safe_value, checked_add}
use nimiq_core_rs_albatross.Account.Outcome.{Outcome, ok, err, panic, ◌>>=◌}
use nimiq_core_rs_albatross.Account.Balance.{balance_add, balance_sub}
use nimiq_core_rs_albatross.Account.Staking.Wire.{Transaction, total_value}
use nimiq_core_rs_albatross.Account.Htlc.{
  HashedTimeLockedContract, Codecs, next_field, check_proof, check_outgoing_transaction,
  commit_outgoing_transaction, revert_outgoing_transaction,
}
use nimiq_core_rs_albatross.Account.Htlc.Claim.{
  Decides, Holds, Entitled, read_claim, check_proof-Decides,
}

module _ {Bytes : Type 0} (c : Codecs Bytes) where
  open c use {proof_type}

  -- The coins are there, and the proof entitles to them.
  pub record MayPay (v : HashedTimeLockedContract) (tx : Transaction Bytes) (time : ℕ)
      : Type 0 where
    pub in_range : tx.value + tx.fee ≤ max_safe_value
    pub enough : tx.value + tx.fee ≤ v.balance
    pub entitled :
        Holds (Entitled c v (v.balance - (tx.value + tx.fee)) time) (read_claim c tx.proof)

  -- How a payment ends: it is made, exactly, and was allowed; or the contract is as it was.
  abbrev pub Releases :
      HashedTimeLockedContract
      → Transaction Bytes
      → ℕ
      → Outcome (Option Bytes) × HashedTimeLockedContract
      → Type 0
  Releases v tx time (ok receipt, v') =
      MayPay v tx time
      × (receipt ≡ none)
      × (v' ≡ record v { balance = v.balance - (tx.value + tx.fee) })
  Releases v tx time (err e, v') = (v' ≡ v) × ¬ MayPay v tx time
  Releases v tx time (panic, v') = ⊥

  checked : HashedTimeLockedContract → ℕ → ℕ → Bytes → Outcome (Unit {0})
  checked v left time bytes = (◌>>=◌ (next_field c proof_type) (check_proof c v left time) bytes).0

  checked-Decides :
      (v : HashedTimeLockedContract) (left time : ℕ) (bytes : Bytes)
      → Decides (Holds (Entitled c v left time) (read_claim c bytes)) (checked v left time bytes)
  unfolding checked read_claim
  checked-Decides v left time bytes = elim (sum_cases (proof_type bytes)) [
    | inl (e, q) ↦ ground (arith, q)
    | inr ((t, rest), q) ↦ ground (arith, q, check_proof-Decides c v left time t rest)
  ]

  pay :
      (v : HashedTimeLockedContract) (tx : Transaction Bytes) (time : ℕ) (o : Outcome (Unit {0}))
      → v.balance ≤ max_safe_value
      → checked v (v.balance - (tx.value + tx.fee)) time tx.proof ≡ o
      → Decides
          (Holds (Entitled c v (v.balance - (tx.value + tx.fee)) time) (read_claim c tx.proof))
          o
      → Releases v tx time (commit_outgoing_transaction c tx time v)
  unfolding commit_outgoing_transaction check_outgoing_transaction balance_sub total_value
      checked_add checked
  pay v tx time panic r e q = elim q [ ]
  pay v tx time (err x) r e q =
      let no : MayPay v tx time → ⊥ = λ m. q m.entitled in ground (arith, r, e, no)
  pay v tx time (ok t) r e q = elim (order_cases max_safe_value (tx.value + tx.fee)) [
    | inl over ↦
        let no : MayPay v tx time → ⊥ = λ m. omega (arith, over, m.in_range) in
        ground (arith, r, over, no)
    | inr fits ↦ elim (order_cases v.balance (tx.value + tx.fee)) [
      | inl short ↦
          let no : MayPay v tx time → ⊥ = λ m. omega (arith, short, m.enough) in
          ground (arith, r, fits, short, no)
      | inr left ↦
          let may : MayPay v tx time = record {
            in_range = omega (arith, fits);
            enough = omega (arith, left);
            entitled = q;
          } in
          ground (arith, r, e, fits, left, may)
    ]
  ]

  -- A payment from a hashed time-locked contract with a balance in range does not panic. If it
  -- succeeds, its proof entitled to it, no receipt is written, and the balance is less by exactly
  -- the value and the fee; if it fails, the value and the fee were too large together, or not
  -- there, or the proof did not entitle to them, and the contract is as it was.
  pub commit_outgoing_transaction-Releases :
      (v : HashedTimeLockedContract) (tx : Transaction Bytes) (time : ℕ)
      → v.balance ≤ max_safe_value
      → Releases v tx time (commit_outgoing_transaction c tx time v)
  commit_outgoing_transaction-Releases v tx time r =
      let left = v.balance - (tx.value + tx.fee) in
      pay v tx time (checked v left time tx.proof) r refl (checked-Decides v left time tx.proof)

  -- Reverting.
  pub revert_outgoing_transaction-commit_outgoing_transaction :
      (v v' : HashedTimeLockedContract) (tx : Transaction Bytes) (time : ℕ) (receipt : Option Bytes)
      → v.balance ≤ max_safe_value
      → commit_outgoing_transaction c tx time v ≡ (ok receipt, v')
      → revert_outgoing_transaction c tx receipt v' ≡ (ok tt, v)
  unfolding revert_outgoing_transaction balance_add total_value checked_add
  revert_outgoing_transaction-commit_outgoing_transaction v v' tx time receipt r h =
      let paid = subst (Releases v tx time) h (commit_outgoing_transaction-Releases v tx time r) in
      ground (arith, paid.0.in_range, paid.0.enough, paid.1, r)
