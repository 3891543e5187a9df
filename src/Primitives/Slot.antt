-- ===== src/Primitives/Slot.antt =====
-- primitives/src/slot.rs: which validator owns which of the 512 slots of an epoch. A slot number
-- and a number of slots are u16, and `+` wraps; `none` stands for a panic of a constructor. A key
-- stands for a LazyPublicKey, which is compared in its compressed form.
pub mod Index
pub mod Allocation
pub mod Builder
mod Tests
use nimiq_core_rs_albatross.Base.{
  ℕ, zero, suc, ◌+◌, ◌-◌, ◌%◌, Bool, true, false, ◌&&◌, Option, none, some, List, [], ◌∷◌, ◌++◌,
  ltb, ◌==◌, if◌then◌else◌, length, get_elem?, replicate,
}
use nimiq_core_rs_albatross.Primitives.Word.{u16_mod, add_u16}
use nimiq_core_rs_albatross.Primitives.Policy.{slots}
use nimiq_core_rs_albatross.Collections.Map.{Map, get, insert}

pub data SlotIndex : Type 0 where
  slot_number band_number : ℕ → SlotIndex

pub record ValidatorSlotBand : Type 0 where
  pub public_key : ℕ
  pub reward_address : ℕ
  pub num_slots : ℕ

-- `SlotIndexTable::new`, from the band with number `i` on; a band number is cast to u16.
unfoldable pub index_from : ℕ → List ValidatorSlotBand → List ℕ
index_from i [] = []
index_from i (band ∷ bands) = replicate band.num_slots (i % u16_mod) ++ index_from (suc i) bands

pub record ValidatorSlots : Type 0 where
  pub bands : List ValidatorSlotBand
  pub index : List ℕ

-- `ValidatorSlots::new`, with the assertion of `SlotIndexTable::new`
unfoldable pub new : List ValidatorSlotBand → Option ValidatorSlots
unfolding index_from
new bands =
    let index = index_from 0 bands in
    if length index == slots then some (record { bands = bands; index = index }) else none

unfoldable pub get_band_number_by_slot_number : ValidatorSlots → ℕ → Option ℕ
get_band_number_by_slot_number self slot = get_elem? self.index slot

unfoldable pub get_by_band_number : ValidatorSlots → ℕ → Option ValidatorSlotBand
get_by_band_number self i = get_elem? self.bands i

unfoldable pub get_by_slot_number : ValidatorSlots → ℕ → Option ValidatorSlotBand
unfolding get_band_number_by_slot_number get_by_band_number
get_by_slot_number self slot = elim (get_band_number_by_slot_number self slot) [
  | none ↦ none
  | some band ↦ get_by_band_number self band
]

-- `SlotCollection::get`
unfoldable pub get_slot : ValidatorSlots → SlotIndex → Option ValidatorSlotBand
unfolding get_by_slot_number get_by_band_number
get_slot self (SlotIndex.slot_number slot) = get_by_slot_number self slot
get_slot self (SlotIndex.band_number band) = get_by_band_number self band

-- A half-open range of u16
unfoldable pub range_from : ℕ → ℕ → List ℕ
range_from start zero = []
range_from start (suc n) = start ∷ range_from (suc start) n

-- The loop of `get_slots`: `idx` bands are still to be passed.
unfoldable pub get_slots_from : ℕ → List ValidatorSlotBand → ℕ → List ℕ
unfolding range_from
get_slots_from slot_index [] idx = []
get_slots_from slot_index (band ∷ bands) zero =
    range_from slot_index (add_u16 slot_index band.num_slots - slot_index)
get_slots_from slot_index (band ∷ bands) (suc idx) =
    get_slots_from (add_u16 slot_index band.num_slots) bands idx

unfoldable pub get_slots : ValidatorSlots → ℕ → List ℕ
unfolding get_slots_from
get_slots self idx = get_slots_from 0 self.bands idx

-- `find_idx_and_num_slots_by_public_key`, from the band with number `i` on
unfoldable pub find_from : ℕ → List ValidatorSlotBand → ℕ → Option (ℕ × ℕ)
find_from i [] key = none
find_from i (band ∷ bands) key =
    if band.public_key == key
    then some (i % u16_mod, band.num_slots)
    else find_from (suc i) bands key

unfoldable pub find_idx_and_num_slots_by_public_key : ValidatorSlots → ℕ → Option (ℕ × ℕ)
unfolding find_from
find_idx_and_num_slots_by_public_key self key = find_from 0 self.bands key

-- `Slots::combined`
unfoldable pub combined_from : ℕ → List ValidatorSlotBand → List (ValidatorSlotBand × ℕ)
combined_from start [] = []
combined_from start (band ∷ bands) =
    (band, start) ∷ combined_from (add_u16 start band.num_slots) bands

unfoldable pub combined : ValidatorSlots → List (ValidatorSlotBand × ℕ)
unfolding combined_from
combined self = combined_from 0 self.bands

-- `SlotsBuilder`, from the key to the reward address and the number of slots
abbrev pub SlotsBuilder : Type 0
SlotsBuilder = Map (ℕ × ℕ)

unfoldable pub push : ℕ → ℕ → SlotsBuilder → SlotsBuilder
unfolding get insert
push public_key reward_address self = elim (get public_key self) [
  | none ↦ insert public_key (reward_address, 1) self
  | some (address, num_slots) ↦ insert public_key (address, add_u16 num_slots 1) self
]

unfoldable pub bands_of : SlotsBuilder → List ValidatorSlotBand
bands_of [] = []
bands_of ((key, (address, n)) ∷ self) =
    record { public_key = key; reward_address = address; num_slots = n } ∷ bands_of self

unfoldable pub build : SlotsBuilder → Option ValidatorSlots
unfolding bands_of new
build self = new (bands_of self)

-- `BitVec::set`, which panics behind the end
unfoldable pub set : ℕ → List Bool → Option (List Bool)
set i [] = none
set zero (b ∷ bits) = some (true ∷ bits)
set (suc i) (b ∷ bits) = elim (set i bits) [ none ↦ none | some bits' ↦ some (b ∷ bits') ]

pub data Allocating : Type 0 where
  allocated : List Bool → Allocating
  invalid_value panic : Allocating

-- `SlotAllocation::from_iter`
unfoldable pub allocate_from : ℕ → List Bool → List ℕ → Allocating
unfolding set
allocate_from i bits [] = if i == slots then allocated bits else panic
allocate_from i bits (num_slots ∷ counts) =
    if num_slots == 0 then invalid_value else elim (set i bits) [
      | none ↦ panic
      | some bits' ↦ allocate_from (i + num_slots) bits' counts
    ]

unfoldable pub from_iter : List ℕ → Allocating
unfolding allocate_from
from_iter counts = allocate_from 0 (replicate slots false) counts

-- `SlotAllocation::as_vec`: the counts, and none where the assertion on the total fails
unfoldable pub counts_from : ℕ → ℕ → List Bool → Option (List ℕ)
counts_from count total [] = if add_u16 total count == slots then some (count ∷ []) else none
counts_from count total (b ∷ bits) =
    let rest = counts_from 1 (add_u16 total count) bits in
    let same = counts_from (add_u16 count 1) total bits in
    if b && ltb 0 count
    then elim rest [ none ↦ none | some counts ↦ some (count ∷ counts) ]
    else same

unfoldable pub as_vec : List Bool → Option (List ℕ)
unfolding counts_from
as_vec bits = counts_from 0 0 bits

unfoldable pub num_items : List Bool → ℕ
num_items [] = 0
num_items (true ∷ bits) = suc (num_items bits)
num_items (false ∷ bits) = num_items bits
