-- ===== src/Account/Staking/Reversal/SlashSteps.antt =====
-- Undoing a slash: the parking list, the lost rewards and the disabled slots are as before.
use nimiq_core_rs_albatross.Base.{
  ℕ, ◌≡◌, ◌≢◌, refl, ap, ◌∙◌, none, some, [], ◌∷◌, arith, inl, inr, Bool, true, false, not, ◌||◌,
  ltb, if◌then◌else◌, Option-cases,
}
use nimiq_core_rs_albatross.Primitives.Policy.{epoch_at, batch_at}
use nimiq_core_rs_albatross.Collections.Map.{KeySet, get, insert, remove, contains_key}
use nimiq_core_rs_albatross.Collections.Map.Order.{
  IsSorted, remove-insert, insert_same, insert-insert,
}
use nimiq_core_rs_albatross.Account.Outcome.{Outcome, ok, Action, pure, modify, ◌>>◌}
use nimiq_core_rs_albatross.Account.Staking.State.{SlotSet, StakingContract}
use nimiq_core_rs_albatross.Account.Staking.Wire.{SlashedSlot, SlashReceipt}
use nimiq_core_rs_albatross.Account.Staking.Inherents.{
  slots_of, when, disable, is_disabled, revert_slash, unpark_slashed, enable_slashed,
  regain_previous, regain_current, put_disabled,
}

-- The sets that slashing writes are in order, and no validator has an empty set of disabled slots.
pub record IsKept (s : StakingContract) : Type 0 where
  pub parking_sorted : IsSorted s.current_epoch_parking
  pub current_lost_sorted : IsSorted s.current_lost_rewards
  pub previous_lost_sorted : IsSorted s.previous_lost_rewards
  pub disabled_sorted : IsSorted s.current_disabled_slots
  pub disabled_slots :
      (k : ℕ) (slots : SlotSet)
      → get k s.current_disabled_slots ≡ some slots
      → IsSorted slots × slots ≢ []

-- A member that was added if it was not there is removed again.
pub set_back :
    (k : ℕ) (m : KeySet)
    → IsSorted m
    → (if not (contains_key k m) then remove k (insert k tt m) else insert k tt m) ≡ m
set_back k m o = elim (Option-cases (get k m)) [
  | inl absent ↦ rw (absent) (remove-insert k tt m absent)
  | inr (u, found) ↦ rw (found) (insert_same k tt m o found)
]

abbrev only : ℕ → SlotSet
only slot = (slot, tt) ∷ []

only_slot : (slot : ℕ) → remove slot (only slot) ≡ []
unfolding remove
only_slot slot = ground arith

insert-only : (slot : ℕ) → insert slot tt [] ≡ only slot
unfolding insert
insert-only slot = refl

abbrev pub no_slots : SlotSet
no_slots = []

get-no_slots : (slot : ℕ) → get slot no_slots ≡ none
unfolding get
get-no_slots slot = refl

-- Disabling a slot of a validator and enabling it again, if it was not disabled before.
pub disabled_back :
    (key slot : ℕ) (s : StakingContract)
    → IsKept s
    → (if not (is_disabled key slot s)
        then (put_disabled key
            (remove slot (insert slot tt (slots_of key s.current_disabled_slots)))
            (disable key slot s)).current_disabled_slots
        else (disable key slot s).current_disabled_slots)
      ≡ s.current_disabled_slots
disabled_back key slot s h = elim (Option-cases (get key s.current_disabled_slots)) [
  | inl absent ↦
      let m = s.current_disabled_slots in
      let none_left : remove key (insert key [] (insert key (only slot) m)) ≡ m =
        ap (λ t. remove key t) (insert-insert key [] (only slot) m)
        ∙ remove-insert key [] m absent in
      ground (arith, absent, insert-only slot, only_slot slot, get-no_slots slot, none_left)
  | inr (slots, found) ↦
      let m = s.current_disabled_slots in
      let (o, ne) = h.disabled_slots key slots found in
      elim (Option-cases (get slot slots)) [
        | inl free ↦ ground (
          arith,
          found,
          free,
          ne,
          remove-insert slot tt slots free,
          insert-insert key slots (insert slot tt slots) m,
          insert_same key slots m h.disabled_sorted found,
        )
        | inr (u, there) ↦ ground (
          arith,
          found,
          there,
          insert_same slot tt slots o there,
          insert_same key slots m h.disabled_sorted found,
        )
      ]
]

-- A step that succeeds, and what follows.
then_ok :
    (m k : Action StakingContract (Unit {0})) (t t' : StakingContract)
    → m t ≡ (ok tt, t')
    → ◌>>◌ m k t ≡ k t'
then_ok m k t t' h =
    ap (λ (r : Outcome (Unit {0}) × StakingContract). ◌>>◌ (λ (_ : StakingContract). r) k t) h

-- What a reversal removes, by the flags of the receipt.
abbrev pub removed_if : Bool → ℕ → KeySet → KeySet
removed_if c k m = if c then remove k m else m

abbrev pub unparked : Bool → ℕ → StakingContract → StakingContract
unparked p key t = record t { current_epoch_parking = removed_if p key t.current_epoch_parking }

abbrev pub enabled : Bool → Bool → ℕ → ℕ → SlotSet → StakingContract → StakingContract
enabled c epoch key slot entry t =
    if c then (if epoch then t else put_disabled key (remove slot entry) t) else t

abbrev pub regained : Bool → Bool → ℕ → StakingContract → StakingContract
regained l earlier slot t =
    if l then (if earlier then regain_previous slot t else regain_current slot t) else t

unpark_step :
    (p : Bool) (key : ℕ) (t : StakingContract)
    → get key t.current_epoch_parking ≡ some tt
    → when p (unpark_slashed key) t ≡ (ok tt, unparked p key t)
unfolding unpark_slashed
unpark_step true key t h = ground (arith, h)
unpark_step false key t h = refl

enable_step :
    (c epoch : Bool) (key slot : ℕ) (entry : SlotSet) (t : StakingContract)
    → (c ≡ true → epoch ≡ false → get key t.current_disabled_slots ≡ some entry)
    → when c (if epoch then pure tt else enable_slashed key slot) t
      ≡ (ok tt, enabled c epoch key slot entry t)
unfolding enable_slashed
enable_step true true key slot entry t h = refl
enable_step true false key slot entry t h = ground (arith, h refl refl)
enable_step false epoch key slot entry t h = refl

regain_step :
    (l earlier : Bool) (slot : ℕ) (t : StakingContract)
    → when l (modify (if earlier then regain_previous slot else regain_current slot)) t
      ≡ (ok tt, regained l earlier slot t)
regain_step true true slot t = refl
regain_step true false slot t = refl
regain_step false earlier slot t = refl

abbrev pub flags : Bool → Bool → Bool → SlashReceipt
flags p c l = record { newly_parked = p; newly_disabled = c; newly_lost_rewards = l }

-- A reversal does what the flags of the receipt say.
pub revert_slash_lem :
    (p c l : Bool) (slot : SlashedSlot) (height : ℕ) (entry : SlotSet) (t : StakingContract)
    → get slot.validator_key t.current_epoch_parking ≡ some tt
    → (c ≡ true
        → ltb (epoch_at slot.event_block) (epoch_at height) ≡ false
        → get slot.validator_key t.current_disabled_slots ≡ some entry)
    → let epoch = ltb (epoch_at slot.event_block) (epoch_at height) in
      let batch = ltb (batch_at slot.event_block) (batch_at height) in
      revert_slash (flags p c l) slot height t ≡ (
        ok tt,
        regained l
            (epoch || batch)
            slot.slot
            (enabled c epoch slot.validator_key slot.slot entry (unparked p slot.validator_key t)),
      )
unfolding revert_slash
revert_slash_lem p c l slot height entry t parked disabled =
    let key = slot.validator_key in
    let epoch = ltb (epoch_at slot.event_block) (epoch_at height) in
    let batch = ltb (batch_at slot.event_block) (batch_at height) in
    let t' = unparked p key t in
    let t'' = enabled c epoch key slot.slot entry t' in
    let enable = when c (if epoch then pure tt else enable_slashed key slot.slot) in
    let regain =
      when l
        (modify (if epoch || batch then regain_previous slot.slot else regain_current slot.slot)) in
    then_ok (when p (unpark_slashed key)) (◌>>◌ enable regain) t t' (unpark_step p key t parked)
    ∙ then_ok enable regain t' t'' (enable_step c epoch key slot.slot entry t' disabled)
    ∙ regain_step l (epoch || batch) slot.slot t''

-- What they do to the fields of the contract.
abbrev pub without_previous : Bool → ℕ → StakingContract → StakingContract
without_previous l slot t = record t {
  previous_lost_rewards = removed_if l slot t.previous_lost_rewards;
}

abbrev pub without_current : Bool → ℕ → StakingContract → StakingContract
without_current l slot t = record t {
  current_lost_rewards = removed_if l slot t.current_lost_rewards;
}

pub regained_previous :
    (l : Bool) (slot : ℕ) (t : StakingContract) → regained l true slot t ≡ without_previous l slot t
unfolding regain_previous
regained_previous true slot t = refl
regained_previous false slot t = refl

pub regained_current :
    (l : Bool) (slot : ℕ) (t : StakingContract) → regained l false slot t ≡ without_current l slot t
unfolding regain_current
regained_current true slot t = refl
regained_current false slot t = refl

pub enabled_disabled :
    (c : Bool) (key slot : ℕ) (entry : SlotSet) (t : StakingContract)
    → enabled c false key slot entry t ≡ record t {
      current_disabled_slots =
          if c
          then (put_disabled key (remove slot entry) t).current_disabled_slots
          else t.current_disabled_slots;
    }
enabled_disabled true key slot entry t = refl
enabled_disabled false key slot entry t = refl
