-- ===== src/Account/Htlc/Tests.antt =====
-- A hashed time-locked contract of five steps and a payment from it after three: examples for the
-- laws, and its cap. A byte string is the list of its fields; a digest adds one.
use nimiq_core_rs_albatross.Base.{
  ℕ, ◌+◌, ◌≤◌, ◌≡◌, refl, List, [], ◌∷◌, length, none, true, false, if◌then◌else◌, ◌==◌, inl, inr,
  arith,
}
use nimiq_core_rs_albatross.Account.Outcome.{ok, SerializingError, AccountType}
use nimiq_core_rs_albatross.Account.Balance.{balance_sub}
use nimiq_core_rs_albatross.Account.Staking.Wire.{Reader, total_value}
use nimiq_core_rs_albatross.Account.Htlc.{
  HashAlgorithm, ProofType, HashedTimeLockedContract, Codecs, cap_value, min_cap,
  commit_outgoing_transaction, create,
}
use nimiq_core_rs_albatross.Account.Htlc.Verifier.{
  Submitted, verify_outgoing_transaction, verify_incoming_transaction, verify,
}
use nimiq_core_rs_albatross.Account.Htlc.Claim.{Holds, read_claim}
use nimiq_core_rs_albatross.Account.Htlc.Payout.{Releases, commit_outgoing_transaction-Releases}
use nimiq_core_rs_albatross.Account.Htlc.Cap.{min_cap_bounded}
use nimiq_core_rs_albatross.Account.Htlc.Redeem.{
  Redeems, commit_outgoing_transaction-Redeems, Opens, create-Opens,
}

abbrev field : {A : Type 0} → (ℕ → A) → Reader (List ℕ) A
field f [] = inl SerializingError.invalid_value
field f (x ∷ rest) = inr (f x, rest)

abbrev codecs : Codecs (List ℕ)
codecs = record {
  Proof = ℕ;
  length = λ b. if length b == 1 then 82 else length b;
  creation_data = field (λ x. record {
    sender = 1;
    recipient = 2;
    hash_algorithm = HashAlgorithm.sha256;
    hash_root = 13;
    hash_count = x;
    timeout = 1000;
  });
  proof_type = field (λ x.
      if x == 1
      then ProofType.regular_transfer
      else if x == 2
      then ProofType.early_resolve
      else ProofType.timeout_resolve);
  hash_algorithm = field (λ x. if x == 1 then HashAlgorithm.blake2b else HashAlgorithm.sha256);
  byte = field (λ x. x);
  any_hash = field (λ x. x);
  signature_proof = field (λ x. x);
  compute_signer = λ p. p;
  verify = λ p content. true;
  digest = λ a h. h + 1;
}

abbrev contract : HashedTimeLockedContract
contract = record {
  balance = 1000;
  sender = 1;
  recipient = 2;
  hash_algorithm = HashAlgorithm.sha256;
  hash_root = 13;
  hash_count = 5;
  timeout = 1000;
  total_amount = 1000;
}

abbrev submitted : Submitted (List ℕ)
submitted = record {
  transaction = record {
    tx_data = 5 ∷ [];
    sender = 3;
    recipient = 8;
    value = 500;
    fee = 1;
    proof = 1 ∷ 3 ∷ 3 ∷ 13 ∷ 10 ∷ 2 ∷ [];
  };
  sender_type = AccountType.htlc;
  recipient_type = AccountType.htlc;
  contract_creation = true;
  signalling = false;
  contract_creation_address = 8;
  content = [];
}

three_of_five : cap_value contract 3 ≡ 400
unfolding cap_value
three_of_five = refl

-- One third of 10^15, as doubles round it.
third_of_total :
    cap_value (record contract { hash_count = 3; total_amount = 1000000000000000 }) 2
    ≡ 333333333333333
unfolding cap_value
third_of_total = refl

commit_outgoing_transaction-Releases_example :
    Releases codecs contract submitted.transaction 900
      (commit_outgoing_transaction codecs submitted.transaction 900 contract)
commit_outgoing_transaction-Releases_example =
    commit_outgoing_transaction-Releases codecs contract submitted.transaction 900 (omega arith)

verified : verify_outgoing_transaction codecs submitted ≡ ok tt
unfolding verify_outgoing_transaction
verified = refl

paid :
    commit_outgoing_transaction codecs submitted.transaction 900 contract
    ≡ (ok none, record contract { balance = 499 })
unfolding commit_outgoing_transaction total_value balance_sub min_cap cap_value
paid = refl

commit_outgoing_transaction-Redeems_example :
    Holds
      (Redeems codecs contract 499 900 submitted.content)
      (read_claim codecs submitted.transaction.proof)
commit_outgoing_transaction-Redeems_example =
    commit_outgoing_transaction-Redeems codecs contract (record contract { balance = 499 })
      submitted 900 none (omega arith) verified paid

created : verify_incoming_transaction codecs submitted ≡ ok tt
unfolding verify_incoming_transaction verify
created = refl

create-Opens_example : Holds (Opens codecs 500 submitted) (create codecs 500 submitted.transaction)
create-Opens_example = create-Opens codecs 500 submitted created

min_cap_bounded_example : (cap : ℕ) × (min_cap contract 3 ≡ ok cap) × (cap ≤ 1000)
min_cap_bounded_example = min_cap_bounded contract 3 (omega arith)
