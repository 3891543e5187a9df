-- ===== src/Account/Staking/Inherents.antt =====
-- primitives/account/src/staking_contract/actions/mod.rs, `AccountInherentInteraction for
-- StakingContract`: slashing a slot, its reversal, and the end of a batch or an epoch.
use nimiq_core_rs_albatross.Base.{
  ℕ, Bool, true, false, ◌&&◌, ◌||◌, not, Option, none, some, [], ◌∷◌, ltb, ◌==◌, if◌then◌else◌,
}
use nimiq_core_rs_albatross.Primitives.Coin.{Coin}
use nimiq_core_rs_albatross.Primitives.Policy.{epoch_at, batch_at}
use nimiq_core_rs_albatross.Collections.Map.{Map, KeySet, get, insert, remove, contains_key}
use nimiq_core_rs_albatross.Account.Outcome.{
  invalid_inherent, invalid_for_target, Action, pure, raise, abort, lift, unwrap, raise_if, modify,
  get_self, ◌>>=◌, ◌>>◌,
}
use nimiq_core_rs_albatross.Account.Staking.State.{Address, BlsPublicKey, SlotSet, StakingContract}
use nimiq_core_rs_albatross.Account.Staking.Lifecycle.{retire_validator}
use nimiq_core_rs_albatross.Account.Staking.Wire.{
  Wire, SlashedSlot, SlashReceipt, deserialize, read_receipt,
}

pub data InherentType : Type 0 where
  reward slash finalize_batch finalize_epoch : InherentType

pub record Inherent (Bytes : Type 0) : Type 0 where
  pub ty : InherentType
  pub target : Address
  pub value : Coin
  pub inherent_data : Bytes

-- `BlsPublicKey::SIZE`
abbrev pub bls_key_size : ℕ
bls_key_size = 285

-- `entry(key).or_insert_with(BTreeSet::new)`
abbrev pub slots_of : BlsPublicKey → Map SlotSet → SlotSet
slots_of key m = elim (get key m) [ none ↦ [] | some slots ↦ slots ]

abbrev pub park : BlsPublicKey → StakingContract → StakingContract
park key self = record self { current_epoch_parking = insert key tt self.current_epoch_parking }

abbrev pub lose_previous : ℕ → StakingContract → StakingContract
lose_previous slot self = record self {
  previous_lost_rewards = insert slot tt self.previous_lost_rewards;
}

abbrev pub lose_current : ℕ → StakingContract → StakingContract
lose_current slot self = record self {
  current_lost_rewards = insert slot tt self.current_lost_rewards;
}

abbrev pub disable : BlsPublicKey → ℕ → StakingContract → StakingContract
disable key slot self = record self {
  current_disabled_slots =
      insert key (insert slot tt (slots_of key self.current_disabled_slots))
        self.current_disabled_slots;
}

abbrev pub is_disabled : BlsPublicKey → ℕ → StakingContract → Bool
is_disabled key slot self = contains_key slot (slots_of key self.current_disabled_slots)

-- The three cases of a slash: an event in an earlier epoch, in an earlier batch, in this batch.
unfoldable pub commit_slash : SlashedSlot → ℕ → Action StakingContract SlashReceipt
commit_slash s block_height = do
  self ← get_self
  let key = s.validator_key
  let newly_parked = not (contains_key key self.current_epoch_parking)
  modify (park key)
  if ltb (epoch_at s.event_block) (epoch_at block_height)
      then (do
        modify (lose_previous s.slot)
        pure (record {
          newly_parked = newly_parked;
          newly_disabled = false;
          newly_lost_rewards = not (contains_key s.slot self.previous_lost_rewards);
        }))
      else (if ltb (batch_at s.event_block) (batch_at block_height)
          then (do
            modify (lose_previous s.slot)
            modify (disable key s.slot)
            pure (record {
              newly_parked = newly_parked;
              newly_disabled = not (is_disabled key s.slot self);
              newly_lost_rewards = not (contains_key s.slot self.previous_lost_rewards);
            }))
          else (do
            modify (lose_current s.slot)
            modify (disable key s.slot)
            pure (record {
              newly_parked = newly_parked;
              newly_disabled = not (is_disabled key s.slot self);
              newly_lost_rewards = not (contains_key s.slot self.current_lost_rewards);
            })))

-- `remove`, and `Err` if the key was not there.
unfoldable pub unpark_slashed : BlsPublicKey → Action StakingContract (Unit {0})
unpark_slashed key = do
  self ← get_self
  modify (λ s. record s { current_epoch_parking = remove key s.current_epoch_parking })
  raise_if (not (contains_key key self.current_epoch_parking)) invalid_inherent

abbrev is_empty : SlotSet → Bool
is_empty [] = true
is_empty (_ ∷ _) = false

abbrev pub put_disabled : BlsPublicKey → SlotSet → StakingContract → StakingContract
put_disabled key left self = record self {
  current_disabled_slots =
      if is_empty left
      then remove key (insert key left self.current_disabled_slots)
      else insert key left self.current_disabled_slots;
}

unfoldable pub enable_slashed : BlsPublicKey → ℕ → Action StakingContract (Unit {0})
enable_slashed key slot = do
  self ← get_self
  entry ← unwrap (get key self.current_disabled_slots)
  modify (put_disabled key (remove slot entry))

unfoldable pub regain_previous : ℕ → StakingContract → StakingContract
regain_previous slot self = record self {
  previous_lost_rewards = remove slot self.previous_lost_rewards;
}

unfoldable pub regain_current : ℕ → StakingContract → StakingContract
regain_current slot self = record self {
  current_lost_rewards = remove slot self.current_lost_rewards;
}

abbrev pub when : Bool → Action StakingContract (Unit {0}) → Action StakingContract (Unit {0})
when c m = if c then m else pure tt

unfoldable pub revert_slash : SlashReceipt → SlashedSlot → ℕ → Action StakingContract (Unit {0})
unfolding unpark_slashed enable_slashed regain_previous regain_current
revert_slash receipt s block_height = do
  let earlier_epoch = ltb (epoch_at s.event_block) (epoch_at block_height)
  let earlier_batch = ltb (batch_at s.event_block) (batch_at block_height)
  when receipt.newly_parked (unpark_slashed s.validator_key)
  when receipt.newly_disabled
      (if earlier_epoch then pure tt else enable_slashed s.validator_key s.slot)
  when receipt.newly_lost_rewards (
      modify
        (if earlier_epoch || earlier_batch then regain_previous s.slot else regain_current s.slot))

abbrev pub swap_lost_rewards : StakingContract → StakingContract
swap_lost_rewards self = record self {
  current_lost_rewards = [];
  previous_lost_rewards = self.current_lost_rewards;
}

abbrev pub swap_epoch : StakingContract → StakingContract
swap_epoch self = record self {
  current_epoch_parking = [];
  previous_epoch_parking = self.current_epoch_parking;
  current_disabled_slots = [];
  previous_disabled_slots = self.current_disabled_slots;
}

-- The loop over the validators that were parked in the epoch before.
unfoldable pub retire_parked : ℕ → KeySet → Action StakingContract (Unit {0})
retire_parked block_height [] = pure tt
retire_parked block_height ((key, _) ∷ keys) = do
  self ← get_self
  when (contains_key key self.active_validators_by_key) (retire_validator key block_height)
  retire_parked block_height keys

unfoldable pub finalize_batch_state : Action StakingContract (Unit {0})
finalize_batch_state = modify swap_lost_rewards

unfoldable pub finalize_epoch_state : ℕ → Action StakingContract (Unit {0})
unfolding retire_parked
finalize_epoch_state block_height = do
  modify swap_lost_rewards
  self ← get_self
  modify swap_epoch
  retire_parked block_height self.previous_epoch_parking

module _ (w : Wire) where
  open w use {Bytes, length, slashed_slot, slash_receipt}

  unfoldable pub check_slash : Bytes → Action StakingContract (Unit {0})
  unfolding deserialize get
  check_slash bytes = do
    self ← get_self
    raise_if (ltb (length bytes) bls_key_size) invalid_inherent
    s ← lift (deserialize slashed_slot bytes)
    raise_if
        (not (contains_key s.validator_key self.active_validators_by_key)
          && not (contains_key s.validator_key self.inactive_validators_by_key))
        invalid_inherent

  unfoldable pub check_inherent : Inherent Bytes → Action StakingContract (Unit {0})
  unfolding check_slash
  check_inherent inherent = do
    raise_if (not (inherent.value == 0)) invalid_inherent
    elim inherent.ty [
      | InherentType.slash ↦ check_slash inherent.inherent_data
      | InherentType.reward ↦ raise invalid_for_target
      | _ ↦ raise_if (ltb 0 (length inherent.inherent_data)) invalid_inherent
    ]

  unfoldable pub commit_inherent : Inherent Bytes → ℕ → Action StakingContract (Option Bytes)
  unfolding check_inherent commit_slash finalize_batch_state finalize_epoch_state
  commit_inherent inherent block_height = do
    check_inherent inherent
    elim inherent.ty [
      | InherentType.slash ↦ (do
        s ← lift (deserialize slashed_slot inherent.inherent_data)
        receipt ← commit_slash s block_height
        pure (some (slash_receipt.encode receipt)))
      | InherentType.finalize_batch ↦ finalize_batch_state >> pure none
      | InherentType.finalize_epoch ↦ finalize_epoch_state block_height >> pure none
      | InherentType.reward ↦ abort
    ]

  unfoldable pub revert_inherent :
      Inherent Bytes → ℕ → Option Bytes → Action StakingContract (Unit {0})
  unfolding read_receipt deserialize revert_slash
  revert_inherent inherent block_height receipt = elim inherent.ty [
    | InherentType.slash ↦ (do
      r ← lift (read_receipt slash_receipt receipt)
      s ← lift (deserialize slashed_slot inherent.inherent_data)
      revert_slash r s block_height)
    | InherentType.finalize_batch ↦ raise invalid_for_target
    | InherentType.finalize_epoch ↦ abort
    | InherentType.reward ↦ abort
  ]
