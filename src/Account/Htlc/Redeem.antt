-- ===== src/Account/Htlc/Redeem.antt =====
-- The verifier and the contract together: what a transaction that passes both has shown.
use nimiq_core_rs_albatross.Base.{
  ℕ, ◌+◌, ◌-◌, ◌≤◌, ◌<◌, subst, ◌≡◌, inl, inr, refl, true, Option, arith, sum_cases,
}
use nimiq_core_rs_albatross.Primitives.Coin.{Coin, max_safe_value}
use nimiq_core_rs_albatross.Account.Outcome.{Outcome, ok, err, panic}
use nimiq_core_rs_albatross.Account.Htlc.{
  ProofType, HashedTimeLockedContract, Codecs, commit_outgoing_transaction, create, min_cap,
}
use nimiq_core_rs_albatross.Account.Htlc.Verifier.{
  Submitted, hash_chain, verify, verify_proof, verify_outgoing_transaction,
  verify_incoming_transaction,
}
use nimiq_core_rs_albatross.Account.Htlc.Claim.{
  Claim, regular, early, timed_out, Holds, AtMost, Entitled, claim_of, read_claim,
}
use nimiq_core_rs_albatross.Account.Htlc.Payout.{Releases, commit_outgoing_transaction-Releases}

module _ {Bytes : Type 0} (c : Codecs Bytes) where
  open c use {Proof, proof_type, hash_algorithm, byte, any_hash, signature_proof, compute_signer}

  -- What the verifier shows of a claim.
  abbrev Signed : Bytes → Claim Proof → Type 0
  Signed content (regular algorithm hash_depth hash_root pre_image proof) =
      (hash_root ≡ hash_chain c algorithm hash_depth pre_image) × (c.verify proof content ≡ true)
  Signed content (early proof_recipient proof_sender) =
      (c.verify proof_recipient content ≡ true) × (c.verify proof_sender content ≡ true)
  Signed content (timed_out proof) = c.verify proof content ≡ true

  -- An address signed the content of a transaction.
  pub record SignedBy (content : Bytes) (address : ℕ) (proof : Proof) : Type 0 where
    pub signer : compute_signer proof ≡ address
    pub verified : c.verify proof content ≡ true

  -- A claim under which coins leave a contract, of which `left` stay: the recipient signed, in
  -- time, and knows a pre-image that hashes to the root of the contract in `hash_depth` steps, up to
  -- the cap of that depth; or both signed; or the sender signed, too late for the recipient.
  abbrev pub Redeems : HashedTimeLockedContract → ℕ → ℕ → Bytes → Claim Proof → Type 0
  Redeems v left time content (regular _ hash_depth _ pre_image proof) =
      (time ≤ v.timeout)
      × (hash_chain c v.hash_algorithm hash_depth pre_image ≡ v.hash_root)
      × SignedBy content v.recipient proof
      × AtMost left (min_cap v hash_depth)
  Redeems v left time content (early proof_recipient proof_sender) =
      SignedBy content v.recipient proof_recipient × SignedBy content v.sender proof_sender
  Redeems v left time content (timed_out proof) =
      (v.timeout < time) × SignedBy content v.sender proof

  claim_of-Signed :
      (content : Bytes) (t : ProofType) (bytes : Bytes)
      → (verify_proof c content t bytes).0 ≡ ok tt
      → Holds (Signed content) (claim_of c t bytes).0
  unfolding verify_proof
  claim_of-Signed content ProofType.regular_transfer b h = elim (sum_cases (hash_algorithm b)) [
    | inl (e, q) ↦ ground (arith, q, h)
    | inr ((a, b1), q) ↦ elim (sum_cases (byte b1)) [
      | inl (e, q1) ↦ ground (arith, q, q1, h)
      | inr ((n, b2), q1) ↦ elim (sum_cases (any_hash b2)) [
        | inl (e, q2) ↦ ground (arith, q, q1, q2, h)
        | inr ((r, b3), q2) ↦ elim (sum_cases (any_hash b3)) [
          | inl (e, q3) ↦ ground (arith, q, q1, q2, q3, h)
          | inr ((pre, b4), q3) ↦ elim (sum_cases (signature_proof b4)) [
            | inl (e, q4) ↦ ground (arith, q, q1, q2, q3, q4, h)
            | inr ((p, b5), q4) ↦ ground (arith, q, q1, q2, q3, q4, h)
          ]
        ]
      ]
    ]
  ]
  claim_of-Signed content ProofType.early_resolve bytes h = ground (arith, h)
  claim_of-Signed content ProofType.timeout_resolve bytes h = ground (arith, h)

  read_claim-Signed :
      (s : Submitted Bytes)
      → verify_outgoing_transaction c s ≡ ok tt
      → Holds (Signed s.content) (read_claim c s.transaction.proof)
  unfolding verify_outgoing_transaction read_claim
  read_claim-Signed s h = elim (sum_cases (proof_type s.transaction.proof)) [
    | inl (e, q) ↦ ground (arith, q, h)
    | inr ((t, rest), q) ↦
        let shown = claim_of-Signed s.content t rest (ground (arith, q, h)) in
        ground (arith, q, shown)
  ]

  redeem :
      (v : HashedTimeLockedContract) (left time : ℕ) (content : Bytes) (o : Outcome (Claim Proof))
      → Holds (Entitled c v left time) o
      → Holds (Signed content) o
      → Holds (Redeems v left time content) o
  redeem v left time content (ok (regular a n r pre p)) (on_time, alg, root, signer, cap) s = (
    on_time,
    subst (λ x. hash_chain c x n pre ≡ v.hash_root) alg (ground (arith, s.0, root)),
    record { signer = signer; verified = s.1 },
    cap,
  )
  redeem v left time content (ok (early p q)) e s =
      (record { signer = e.0; verified = s.0 }, record { signer = e.1; verified = s.1 })
  redeem v left time content (ok (timed_out p)) e s = (e.0, record { signer = e.1; verified = s })
  redeem v left time content (err x) e s = e
  redeem v left time content panic e s = e

  -- If a transaction from a hashed time-locked contract with a balance in range passes the
  -- verifier and is committed, then it was redeemed: its recipient signed the content, at or
  -- before the timeout, with a pre-image that the contract's algorithm hashes to its root in as
  -- many steps as claimed, and what is left covers the cap of that depth; or recipient and sender
  -- both signed; or the sender signed, after the timeout.
  pub commit_outgoing_transaction-Redeems :
      (v v' : HashedTimeLockedContract) (s : Submitted Bytes) (time : ℕ) (receipt : Option Bytes)
      → v.balance ≤ max_safe_value
      → verify_outgoing_transaction c s ≡ ok tt
      → commit_outgoing_transaction c s.transaction time v ≡ (ok receipt, v')
      → Holds (Redeems v v'.balance time s.content) (read_claim c s.transaction.proof)
  commit_outgoing_transaction-Redeems v v' s time receipt r h k =
      let tx = s.transaction in
      let paid =
        subst (Releases c v tx time) k (commit_outgoing_transaction-Releases c v tx time r) in
      let left = v.balance - (tx.value + tx.fee) in
      let same : left ≡ v'.balance = ground (arith, paid.1) in
      subst (λ n. Holds (Redeems v n time s.content) (read_claim c tx.proof)) same
        (redeem v left time s.content (read_claim c tx.proof) paid.0.entitled
          (read_claim-Signed s h))

  -- What a creation that was verified makes of a transaction.
  pub record Opens (balance : Coin) (s : Submitted Bytes) (v : HashedTimeLockedContract)
      : Type 0 where
    pub holds : v.balance ≡ balance
    pub total : v.total_amount ≡ s.transaction.value
    pub steps : 0 < v.hash_count
    pub addressed : s.transaction.recipient ≡ s.contract_creation_address

  -- A creation of a hashed time-locked contract that passes the verifier succeeds; the contract
  -- has the given balance, the value as its total amount and at least one step, and its address is
  -- that of the creation.
  pub create-Opens :
      (balance : Coin) (s : Submitted Bytes)
      → verify_incoming_transaction c s ≡ ok tt
      → Holds (Opens balance s) (create c balance s.transaction)
  unfolding create verify_incoming_transaction verify
  create-Opens balance s h = elim (sum_cases (c.creation_data s.transaction.tx_data)) [
    | inl (e, q) ↦ ground (arith, q, h)
    | inr ((fields, rest), q) ↦
        let steps : 0 < fields.hash_count = ground (arith, q, h) in
        let addressed : s.transaction.recipient ≡ s.contract_creation_address =
          ground (arith, q, h) in
        let opens : Opens balance s (record {
          balance = balance;
          sender = fields.sender;
          recipient = fields.recipient;
          hash_algorithm = fields.hash_algorithm;
          hash_root = fields.hash_root;
          hash_count = fields.hash_count;
          timeout = fields.timeout;
          total_amount = s.transaction.value;
        }) =
          record { holds = refl; total = refl; steps = steps; addressed = addressed } in
        ground (arith, q, opens)
  ]
