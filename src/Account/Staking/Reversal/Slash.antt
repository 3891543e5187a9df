-- ===== src/Account/Staking/Reversal/Slash.antt =====
-- Undoing a slash in each of its three cases: an event in an earlier epoch, in an earlier batch of
-- this epoch, in this batch.
use nimiq_core_rs_albatross.Base.{
  ℕ, ◌≡◌, refl, sym, ap, ◌∙◌, subst, arith, inl, inr, Bool, true, false, not, ltb, Bool-cases,
}
use nimiq_core_rs_albatross.Primitives.Policy.{epoch_at, batch_at}
use nimiq_core_rs_albatross.Collections.Map.{insert, contains_key}
use nimiq_core_rs_albatross.Collections.Map.Order.{get-insert_self}
use nimiq_core_rs_albatross.Account.Outcome.{ok}
use nimiq_core_rs_albatross.Account.Staking.State.{StakingContract}
use nimiq_core_rs_albatross.Account.Staking.Wire.{SlashedSlot}
use nimiq_core_rs_albatross.Account.Staking.Inherents.{
  slots_of, park, lose_previous, lose_current, disable, is_disabled, commit_slash, revert_slash,
}
use nimiq_core_rs_albatross.Account.Staking.Reversal.{Reverts}
use nimiq_core_rs_albatross.Account.Staking.Reversal.SlashSteps.{
  IsKept, set_back, disabled_back, no_slots, flags, without_previous, without_current, unparked,
  enabled, revert_slash_lem, regained_previous, regained_current, enabled_disabled,
}

module _ (slot : SlashedSlot) (height : ℕ) (s : StakingContract) (h : IsKept s) where
  abbrev is_parked_now : Bool
  is_parked_now = contains_key slot.validator_key s.current_epoch_parking

  commit_earlier_epoch :
      ltb (epoch_at slot.event_block) (epoch_at height) ≡ true
      → commit_slash slot height s ≡ (
        ok (flags (not is_parked_now) false (not (contains_key slot.slot s.previous_lost_rewards))),
        lose_previous slot.slot (park slot.validator_key s),
      )
  unfolding commit_slash
  commit_earlier_epoch e = rw (e) refl

  commit_earlier_batch :
      ltb (epoch_at slot.event_block) (epoch_at height) ≡ false
      → ltb (batch_at slot.event_block) (batch_at height) ≡ true
      → commit_slash slot height s ≡ (
        ok (
            flags
              (not is_parked_now)
              (not (is_disabled slot.validator_key slot.slot s))
              (not (contains_key slot.slot s.previous_lost_rewards))),
        disable slot.validator_key slot.slot (lose_previous slot.slot (park slot.validator_key s)),
      )
  unfolding commit_slash
  commit_earlier_batch e b = rw (e, b) refl

  commit_this_batch :
      ltb (epoch_at slot.event_block) (epoch_at height) ≡ false
      → ltb (batch_at slot.event_block) (batch_at height) ≡ false
      → commit_slash slot height s ≡ (
        ok (
            flags
              (not is_parked_now)
              (not (is_disabled slot.validator_key slot.slot s))
              (not (contains_key slot.slot s.current_lost_rewards))),
        disable slot.validator_key slot.slot (lose_current slot.slot (park slot.validator_key s)),
      )
  unfolding commit_slash
  commit_this_batch e b = rw (e, b) refl

  undo_earlier_epoch :
      ltb (epoch_at slot.event_block) (epoch_at height) ≡ true
      → Reverts s (λ receipt. revert_slash receipt slot height) (commit_slash slot height s)
  undo_earlier_epoch e =
      let key = slot.validator_key in
      let t = lose_previous slot.slot (park key s) in
      let lost = contains_key slot.slot s.previous_lost_rewards in
      let parking = set_back key s.current_epoch_parking h.parking_sorted in
      let previous = set_back slot.slot s.previous_lost_rewards h.previous_lost_sorted in
      subst (Reverts s (λ receipt. revert_slash receipt slot height)) (sym (commit_earlier_epoch e))
        (revert_slash_lem (not is_parked_now) false (not lost) slot height no_slots t
            (get-insert_self key tt s.current_epoch_parking) (λ c _. ground (arith, c))
          ∙ ap (λ t'. (ok tt, t'))
              (rw (e) (
                regained_previous (not lost) slot.slot (unparked (not is_parked_now) key t)
                ∙ rw (parking, previous) refl)))

  undo_earlier_batch :
      ltb (epoch_at slot.event_block) (epoch_at height) ≡ false
      → ltb (batch_at slot.event_block) (batch_at height) ≡ true
      → Reverts s (λ receipt. revert_slash receipt slot height) (commit_slash slot height s)
  undo_earlier_batch e b =
      let key = slot.validator_key in
      let entry = insert slot.slot tt (slots_of key s.current_disabled_slots) in
      let t = disable key slot.slot (lose_previous slot.slot (park key s)) in
      let lost = contains_key slot.slot s.previous_lost_rewards in
      let fresh = not (is_disabled key slot.slot s) in
      let parking = set_back key s.current_epoch_parking h.parking_sorted in
      let previous = set_back slot.slot s.previous_lost_rewards h.previous_lost_sorted in
      let disabled = disabled_back key slot.slot s h in
      subst (Reverts s (λ receipt. revert_slash receipt slot height))
        (sym (commit_earlier_batch e b))
        (revert_slash_lem (not is_parked_now) fresh (not lost) slot height entry t
            (get-insert_self key tt s.current_epoch_parking)
            (λ _ _. get-insert_self key entry s.current_disabled_slots)
          ∙ ap (λ t'. (ok tt, t'))
              (rw (e, b)
                (regained_previous (not lost) slot.slot
                    (enabled fresh false key slot.slot entry (unparked (not is_parked_now) key t))
                  ∙ ap (without_previous (not lost) slot.slot) (
                      enabled_disabled fresh key slot.slot entry
                        (unparked (not is_parked_now) key t))
                  ∙ rw (parking, previous, disabled) refl)))

  undo_this_batch :
      ltb (epoch_at slot.event_block) (epoch_at height) ≡ false
      → ltb (batch_at slot.event_block) (batch_at height) ≡ false
      → Reverts s (λ receipt. revert_slash receipt slot height) (commit_slash slot height s)
  undo_this_batch e b =
      let key = slot.validator_key in
      let entry = insert slot.slot tt (slots_of key s.current_disabled_slots) in
      let t = disable key slot.slot (lose_current slot.slot (park key s)) in
      let lost = contains_key slot.slot s.current_lost_rewards in
      let fresh = not (is_disabled key slot.slot s) in
      let parking = set_back key s.current_epoch_parking h.parking_sorted in
      let current = set_back slot.slot s.current_lost_rewards h.current_lost_sorted in
      let disabled = disabled_back key slot.slot s h in
      subst (Reverts s (λ receipt. revert_slash receipt slot height)) (sym (commit_this_batch e b))
        (revert_slash_lem (not is_parked_now) fresh (not lost) slot height entry t
            (get-insert_self key tt s.current_epoch_parking)
            (λ _ _. get-insert_self key entry s.current_disabled_slots)
          ∙ ap (λ t'. (ok tt, t'))
              (rw (e, b)
                (regained_current (not lost) slot.slot
                    (enabled fresh false key slot.slot entry (unparked (not is_parked_now) key t))
                  ∙ ap (without_current (not lost) slot.slot) (
                      enabled_disabled fresh key slot.slot entry
                        (unparked (not is_parked_now) key t))
                  ∙ rw (parking, current, disabled) refl)))

  -- A slash, in a contract whose sets are in order and have no empty set of disabled slots, does
  -- not panic, and if it succeeds, its reversal with the receipt succeeds and gives the contract
  -- back.
  pub revert_slash-commit_slash :
      Reverts s (λ receipt. revert_slash receipt slot height) (commit_slash slot height s)
  revert_slash-commit_slash =
      let epoch = ltb (epoch_at slot.event_block) (epoch_at height) in
      let batch = ltb (batch_at slot.event_block) (batch_at height) in
      elim (Bool-cases epoch) [
        | inl e ↦ undo_earlier_epoch e
        | inr e ↦ elim (Bool-cases batch) [
          | inl b ↦ undo_earlier_batch e b
          | inr b ↦ undo_this_batch e b
        ]
      ]
