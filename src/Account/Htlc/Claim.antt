-- ===== src/Account/Htlc/Claim.antt =====
-- What the proof of a transaction from a hashed time-locked contract says, all fields read before
-- any is checked, and when it entitles to the coins.
use nimiq_core_rs_albatross.Base.{
  ℕ, ◌≤◌, ◌<◌, ◌≡◌, ◌⊎◌, inl, inr, refl, true, false, leb, arith, sum_cases, Bool-cases,
}
use nimiq_core_rs_albatross.Primitives.Coin.{try_from, max_safe_value}
use nimiq_core_rs_albatross.Account.Outcome.{
  AccountError, coin_convert, Outcome, ok, err, panic, Action, pure, ◌>>=◌,
}
use nimiq_core_rs_albatross.Account.Htlc.{
  HashAlgorithm, ProofType, AnyHash, HashedTimeLockedContract, Codecs, next_field, check_proof,
  is_signed_by, same_algorithm, min_cap, cap_value,
}

-- The fields of a proof, by its type.
pub data Claim (Proof : Type 0) : Type 0 where
  regular : HashAlgorithm → ℕ → AnyHash → AnyHash → Proof → Claim Proof
  early : Proof → Proof → Claim Proof
  timed_out : Proof → Claim Proof

-- A result that came about exactly where `P` holds; no panic.
abbrev pub Decides : Type 0 → {A : Type 0} → Outcome A → Type 0
Decides P (ok a) = P
Decides P (err e) = ¬ P
Decides P panic = ⊥

-- What holds of a result that is there.
abbrev pub Holds : {A : Type 0} → (A → Type 0) → Outcome A → Type 0
Holds P (ok a) = P a
Holds P (err e) = ⊥
Holds P panic = ⊥

abbrev pub AtMost : ℕ → Outcome ℕ → Type 0
AtMost n = Holds (λ m. m ≤ n)

module _ {Bytes : Type 0} (c : Codecs Bytes) where
  open c use {Proof, proof_type, hash_algorithm, byte, any_hash, signature_proof, compute_signer}

  abbrev pub claim_of : ProofType → Action Bytes (Claim Proof)
  claim_of ProofType.regular_transfer = do
    algorithm ← next_field c hash_algorithm
    hash_depth ← next_field c byte
    hash_root ← next_field c any_hash
    pre_image ← next_field c any_hash
    proof ← next_field c signature_proof
    pure (regular algorithm hash_depth hash_root pre_image proof)
  claim_of ProofType.early_resolve = do
    proof_recipient ← next_field c signature_proof
    proof_sender ← next_field c signature_proof
    pure (early proof_recipient proof_sender)
  claim_of ProofType.timeout_resolve = do
    proof ← next_field c signature_proof
    pure (timed_out proof)

  unfoldable pub read_claim : Bytes → Outcome (Claim Proof)
  read_claim bytes = ((next_field c proof_type >>= claim_of) bytes).0

  -- Before the timeout the recipient is entitled, for the hash and up to the cap of its depth; after
  -- it, the sender; and at any time both of them together.
  abbrev pub Entitled : HashedTimeLockedContract → ℕ → ℕ → Claim Proof → Type 0
  Entitled self left time (regular algorithm hash_depth hash_root pre_image proof) =
      (time ≤ self.timeout)
      × (algorithm ≡ self.hash_algorithm)
      × (hash_root ≡ self.hash_root)
      × (compute_signer proof ≡ self.recipient)
      × AtMost left (min_cap self hash_depth)
  Entitled self left time (early proof_recipient proof_sender) =
      (compute_signer proof_recipient ≡ self.recipient)
      × (compute_signer proof_sender ≡ self.sender)
  Entitled self left time (timed_out proof) =
      (self.timeout < time) × (compute_signer proof ≡ self.sender)

  min_cap_cases :
      (self : HashedTimeLockedContract) (depth : ℕ)
      → ((e : AccountError) × (min_cap self depth ≡ err e))
        ⊎ ((m : ℕ) × (min_cap self depth ≡ ok m))
  unfolding min_cap try_from
  min_cap_cases self depth = elim (Bool-cases (leb (cap_value self depth) max_safe_value)) [
    | inl fits ↦ inr (cap_value self depth, ground (arith, fits))
    | inr over ↦ inl (coin_convert (cap_value self depth), ground (arith, over))
  ]

  same_algorithm_cases :
      (a b : HashAlgorithm)
      → ((same_algorithm a b ≡ true) × (a ≡ b)) ⊎ ((same_algorithm a b ≡ false) × ¬ (a ≡ b))
  unfolding same_algorithm
  same_algorithm_cases HashAlgorithm.blake2b HashAlgorithm.blake2b = inl (refl, refl)
  same_algorithm_cases HashAlgorithm.sha256 HashAlgorithm.sha256 = inl (refl, refl)
  same_algorithm_cases HashAlgorithm.blake2b HashAlgorithm.sha256 =
      inr (refl, λ e. ground (arith, e))
  same_algorithm_cases HashAlgorithm.sha256 HashAlgorithm.blake2b =
      inr (refl, λ e. ground (arith, e))

  pub check_proof-Decides :
      (self : HashedTimeLockedContract) (left time : ℕ) (t : ProofType) (bytes : Bytes)
      → Decides
          (Holds (Entitled self left time) (claim_of t bytes).0)
          (check_proof c self left time t bytes).0
  unfolding check_proof is_signed_by
  check_proof-Decides self left time ProofType.regular_transfer b =
      elim (sum_cases (hash_algorithm b)) [
        | inl (e, q) ↦ ground (arith, q)
        | inr ((a, b1), q) ↦ elim (sum_cases (byte b1)) [
          | inl (e, q1) ↦ ground (arith, q, q1)
          | inr ((n, b2), q1) ↦ elim (sum_cases (any_hash b2)) [
            | inl (e, q2) ↦ ground (arith, q, q1, q2)
            | inr ((h, b3), q2) ↦ elim (sum_cases (any_hash b3)) [
              | inl (e, q3) ↦ ground (arith, q, q1, q2, q3)
              | inr ((pre, b4), q3) ↦ elim (sum_cases (signature_proof b4)) [
                | inl (e, q4) ↦ ground (arith, q, q1, q2, q3, q4)
                | inr ((p, b5), q4) ↦ ground (
                  arith,
                  q,
                  q1,
                  q2,
                  q3,
                  q4,
                  same_algorithm_cases a self.hash_algorithm,
                  min_cap_cases self n,
                )
              ]
            ]
          ]
        ]
      ]
  check_proof-Decides self left time ProofType.early_resolve bytes = ground arith
  check_proof-Decides self left time ProofType.timeout_resolve bytes = ground arith
