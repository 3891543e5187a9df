-- ===== src/Account/Staking/Tests/Sample.antt =====
-- The sample: two active validators, a retired one, an inactive stake, and a parked validator.
-- A byte string of the sample is what was written into it.
use nimiq_core_rs_albatross.Base.{ℕ, refl, [], ◌∷◌, arith, ◌⊎◌, inl, inr}
use nimiq_core_rs_albatross.Collections.Map.{get}
use nimiq_core_rs_albatross.Collections.Map.Sum.{sum}
use nimiq_core_rs_albatross.Account.Outcome.{SerializingError}
use nimiq_core_rs_albatross.Account.Staking.State.{
  Validator, InactiveValidator, InactiveStake, StakingContract,
}
use nimiq_core_rs_albatross.Account.Staking.Staker.{InactiveStakeReceipt}
use nimiq_core_rs_albatross.Account.Staking.Lifecycle.{
  UnparkReceipt, UpdateValidatorReceipt, DropValidatorReceipt, InactiveValidatorReceipt,
}
use nimiq_core_rs_albatross.Account.Staking.Wire.{
  Wire, IncomingStakingTransactionData, SelfStakingTransactionData, OutgoingStakingTransactionProof,
  SignatureProof, SlashedSlot, SlashReceipt,
}
use nimiq_core_rs_albatross.Account.Staking.Invariant.{Inv}

abbrev pub alice : ℕ
alice = 10

abbrev pub bob : ℕ
bob = 11

abbrev pub first_validator : Validator
first_validator = record {
  balance = 30;
  reward_address = 100;
  validator_key = 1;
  active_stake_by_address = (10, 5) ∷ (11, 7) ∷ [];
}

abbrev pub second_validator : Validator
second_validator = record {
  balance = 4;
  reward_address = 101;
  validator_key = 2;
  active_stake_by_address = [];
}

abbrev pub retired_validator : InactiveValidator
retired_validator = record {
  validator = record {
    balance = 20;
    reward_address = 102;
    validator_key = 3;
    active_stake_by_address = (10, 6) ∷ [];
  };
  retire_time = 5;
}

abbrev pub inactive_stake : InactiveStake
inactive_stake = record { balance = 9; retire_time = 6 }

abbrev pub sample : StakingContract
sample = record {
  balance = 63;
  active_validators_sorted = first_validator ∷ second_validator ∷ [];
  active_validators_by_key = (1, first_validator) ∷ (2, second_validator) ∷ [];
  inactive_stake_by_address = (10, inactive_stake) ∷ [];
  inactive_validators_by_key = (3, retired_validator) ∷ [];
  current_epoch_parking = (2, tt) ∷ [];
  previous_epoch_parking = [];
  current_lost_rewards = (7, tt) ∷ [];
  previous_lost_rewards = [];
  current_disabled_slots = (2, (7, tt) ∷ []) ∷ [];
  previous_disabled_slots = [];
}

pub sample-Inv : Inv sample
unfolding sum get
sample-Inv = record {
  active_sorted = ground arith;
  retired_sorted = ground arith;
  inactive_sorted = ground arith;
  active_funded = ground arith;
  retired_funded = ground arith;
  disjoint = λ k v e. ground arith;
  balanced = refl;
  in_range = omega arith;
}

pub data Payload : Type 0 where
  nothing : Payload
  incoming : IncomingStakingTransactionData → Payload
  within : SelfStakingTransactionData → Payload
  outgoing : OutgoingStakingTransactionProof → Payload
  signature : SignatureProof → Payload
  slashed : SlashedSlot → Payload
  stake_receipt : InactiveStakeReceipt → Payload
  update_receipt : UpdateValidatorReceipt → Payload
  drop_receipt : DropValidatorReceipt → Payload
  inactive_receipt : InactiveValidatorReceipt → Payload
  unparked : UnparkReceipt → Payload
  slash : SlashReceipt → Payload

abbrev invalid : {A : Type 0} → SerializingError ⊎ A
invalid = inl SerializingError.invalid_value

abbrev pub wire : Wire
wire = record {
  Bytes = Payload;
  length = λ b. elim b [ Payload.nothing ↦ 0 | Payload.slashed _ ↦ 293 | _ ↦ 1 ];
  incoming_data = λ b. elim b [ Payload.incoming d ↦ inr (d, Payload.nothing) | _ ↦ invalid ];
  self_data = λ b. elim b [ Payload.within d ↦ inr (d, Payload.nothing) | _ ↦ invalid ];
  outgoing_proof = λ b. elim b [ Payload.outgoing d ↦ inr (d, Payload.nothing) | _ ↦ invalid ];
  signature_proof = λ b. elim b [ Payload.signature d ↦ inr (d, Payload.nothing) | _ ↦ invalid ];
  slashed_slot = λ b. elim b [ Payload.slashed d ↦ inr (d, Payload.nothing) | _ ↦ invalid ];
  inactive_stake_receipt = record {
    encode = Payload.stake_receipt;
    decode = λ b. elim b [ Payload.stake_receipt r ↦ inr r | _ ↦ invalid ];
    decode-encode = λ r. refl;
  };
  update_validator_receipt = record {
    encode = Payload.update_receipt;
    decode = λ b. elim b [ Payload.update_receipt r ↦ inr r | _ ↦ invalid ];
    decode-encode = λ r. refl;
  };
  drop_validator_receipt = record {
    encode = Payload.drop_receipt;
    decode = λ b. elim b [ Payload.drop_receipt r ↦ inr r | _ ↦ invalid ];
    decode-encode = λ r. refl;
  };
  inactive_validator_receipt = record {
    encode = Payload.inactive_receipt;
    decode = λ b. elim b [ Payload.inactive_receipt r ↦ inr r | _ ↦ invalid ];
    decode-encode = λ r. refl;
  };
  unpark_receipt = record {
    encode = Payload.unparked;
    decode = λ b. elim b [ Payload.unparked r ↦ inr r | _ ↦ invalid ];
    decode-encode = λ r. refl;
  };
  slash_receipt = record {
    encode = Payload.slash;
    decode = λ b. elim b [ Payload.slash r ↦ inr r | _ ↦ invalid ];
    decode-encode = λ r. refl;
  };
}
