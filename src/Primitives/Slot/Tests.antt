-- ===== src/Primitives/Slot/Tests.antt =====
-- Two validators with 300 and 212 slots: examples for the laws.
use nimiq_core_rs_albatross.Base.{
  ℕ, ◌<◌, ◌≤◌, ◌≡◌, ◌↔◌, ◌⊎◌, refl, Bool, true, some, none, List, [], ◌∷◌, ◌++◌, arith, replicate,
}
use nimiq_core_rs_albatross.Primitives.Policy.{slots}
use nimiq_core_rs_albatross.Primitives.Slot.{
  ValidatorSlotBand, ValidatorSlots, new, get_band_number_by_slot_number, get_slots, build,
  find_idx_and_num_slots_by_public_key, allocated, from_iter, as_vec, num_items,
}
use nimiq_core_rs_albatross.Primitives.Slot.Allocation.{as_vec-from_iter}
use nimiq_core_rs_albatross.Primitives.Slot.Index.{
  contains, get_band_number_by_slot_number-get_slots, get_band_number_by_slot_number-total,
}
use nimiq_core_rs_albatross.Primitives.Slot.Builder.{push_all, count_of, build-push_all}

abbrev pushes : List (ℕ × ℕ)
pushes = replicate 300 (1, 9) ++ replicate 212 (2, 8)

abbrev two_bands : List ValidatorSlotBand
two_bands =
    record { public_key = 1; reward_address = 9; num_slots = 300 }
    ∷ record { public_key = 2; reward_address = 8; num_slots = 212 }
    ∷ []

abbrev two_validators : ValidatorSlots
two_validators = record { bands = two_bands; index = replicate 300 0 ++ replicate 212 1 }

accepted : new two_bands ≡ some two_validators
unfolding new
accepted = refl

as_vec-from_iter_example :
    (bits : List Bool) × (from_iter (300 ∷ 212 ∷ []) ≡ allocated bits)
    × (as_vec bits ≡ some (300 ∷ 212 ∷ []))
    × (num_items bits ≡ 2)
as_vec-from_iter_example = as_vec-from_iter (300 ∷ 212 ∷ []) (omega arith, (omega arith, tt)) refl

get_band_number_by_slot_number-get_slots_example :
    (get_band_number_by_slot_number two_validators 400 ≡ some 1)
    ↔ (contains 400 (get_slots two_validators 1) ≡ true)
get_band_number_by_slot_number-get_slots_example =
    get_band_number_by_slot_number-get_slots two_bands two_validators 400 1 (omega arith) accepted

get_band_number_by_slot_number-total_example :
    ((511 < slots) × ((b : ℕ) × (get_band_number_by_slot_number two_validators 511 ≡ some b)))
    ⊎ ((slots ≤ 511) × (get_band_number_by_slot_number two_validators 511 ≡ none))
get_band_number_by_slot_number-total_example =
    get_band_number_by_slot_number-total two_bands two_validators 511 accepted

build-push_all_example :
    (vs : ValidatorSlots) × (build (push_all pushes []) ≡ some vs)
    × ((key : ℕ)
        → 0 < count_of key pushes
        → (idx : ℕ) × (find_idx_and_num_slots_by_public_key vs key
            ≡ some (idx, count_of key pushes)))
build-push_all_example = build-push_all pushes refl
