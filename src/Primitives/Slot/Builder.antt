-- ===== src/Primitives/Slot/Builder.antt =====
-- Slots that were pushed one by one: the builder counts them, per validator and in all, and the
-- list of bands with their first slots agrees with the slots of each band.
use nimiq_core_rs_albatross.Base.{
  ℕ, zero, suc, ◌+◌, ◌-◌, ◌%◌, ◌≤◌, ◌<◌, ◌≡◌, refl, some, List, [], ◌∷◌, arith, length, get_elem?,
  ◌==◌, if◌then◌else◌, Bool-cases, Option-cases, inl, inr,
}
use nimiq_core_rs_albatross.Primitives.Word.{u16_mod, add_u16}
use nimiq_core_rs_albatross.Primitives.Policy.{slots}
use nimiq_core_rs_albatross.Collections.Map.{get}
use nimiq_core_rs_albatross.Collections.Map.Order.{IsSorted, insert-IsSorted, get-insert}
use nimiq_core_rs_albatross.Collections.Map.Sum.{sum, weight_of, sum-insert, weight-le-sum}
use nimiq_core_rs_albatross.Primitives.Slot.{
  ValidatorSlotBand, ValidatorSlots, index_from, new, range_from, get_slots_from, get_slots,
  combined_from, combined, SlotsBuilder, push, bands_of, build, find_from,
  find_idx_and_num_slots_by_public_key,
}
use nimiq_core_rs_albatross.Primitives.Slot.Index.{slots_of_bands, new_lem, length-index_from}

-- The pushes of a selection, in their order.
abbrev pub push_all : List (ℕ × ℕ) → SlotsBuilder → SlotsBuilder
push_all [] m = m
push_all ((key, address) ∷ pushes) m = push_all pushes (push key address m)

abbrev pub count_of : ℕ → List (ℕ × ℕ) → ℕ
count_of k [] = 0
count_of k ((key, address) ∷ pushes) = (if k == key then 1 else 0) + count_of k pushes

abbrev pub slots_held : ℕ × ℕ → ℕ
slots_held (address, n) = n

push-IsSorted : (k a : ℕ) (m : SlotsBuilder) → IsSorted m → IsSorted (push k a m)
unfolding push
push-IsSorted k a m o = elim (Option-cases (get k m)) [
  | inl e ↦ rw (push, e) (insert-IsSorted k (a, 1) m o)
  | inr ((b, n), e) ↦ rw (push, e) (insert-IsSorted k (b, add_u16 n 1) m o)
]

push-sum :
    (k a : ℕ) (m : SlotsBuilder)
    → IsSorted m
    → sum slots_held m + 1 ≤ slots
    → sum slots_held (push k a m) ≡ sum slots_held m + 1
unfolding push
push-sum k a m o r = elim (Option-cases (get k m)) [
  | inl e ↦ ground (arith, e, sum-insert slots_held k (a, 1) m o)
  | inr ((b, n), e) ↦
      ground (arith, e, sum-insert slots_held k (b, add_u16 n 1) m o, weight-le-sum slots_held k m)
]

push-held :
    (j k a : ℕ) (m : SlotsBuilder)
    → IsSorted m
    → sum slots_held m + 1 ≤ slots
    → weight_of slots_held (get j (push k a m))
      ≡ weight_of slots_held (get j m) + (if j == k then 1 else 0)
unfolding push
push-held j k a m o r = elim (Option-cases (get k m)) [
  | inl e ↦ ground (arith, e, get-insert j k (a, 1) m)
  | inr ((b, n), e) ↦
      ground (arith, e, get-insert j k (b, add_u16 n 1) m, weight-le-sum slots_held k m)
]

-- What the builder holds after all pushes, from a builder that holds `m`.
push_all-held :
    (j : ℕ) (pushes : List (ℕ × ℕ)) (m : SlotsBuilder)
    → IsSorted m
    → sum slots_held m + length pushes ≤ slots
    → (sum slots_held (push_all pushes m) ≡ sum slots_held m + length pushes)
      × (weight_of slots_held (get j (push_all pushes m))
          ≡ weight_of slots_held (get j m) + count_of j pushes)
push_all-held j [] m o r = (omega arith, omega arith)
push_all-held j ((k, a) ∷ pushes) m o r =
    let all = push-sum k a m o (omega (arith, r)) in
    let held = push-held j k a m o (omega (arith, r)) in
    let ih = push_all-held j pushes (push k a m) (push-IsSorted k a m o) (omega (arith, all, r)) in
    (omega (arith, ih.0, all), omega (arith, ih.1, held))

slots_of_bands-bands_of : (m : SlotsBuilder) → slots_of_bands (bands_of m) ≡ sum slots_held m
unfolding bands_of sum
slots_of_bands-bands_of [] = refl
slots_of_bands-bands_of ((k, (a, n)) ∷ m) = omega (arith, slots_of_bands-bands_of m)

find_from-bands_of :
    (i key : ℕ) (m : SlotsBuilder) (a n : ℕ)
    → get key m ≡ some (a, n)
    → (idx : ℕ) × (find_from i (bands_of m) key ≡ some (idx, n))
unfolding find_from bands_of get
find_from-bands_of i key [] a n h = ground (arith, h)
find_from-bands_of i key ((k, (b, c)) ∷ m) a n h = elim (Bool-cases (key == k)) [
  | inl here ↦ (i % u16_mod, ground (arith, here, h))
  | inr other ↦
      let (idx, e) = find_from-bands_of (suc i) key m a n (ground (arith, other, h)) in
      (idx, ground (arith, other, e))
]

new_ok :
    (bands : List ValidatorSlotBand)
    → slots_of_bands bands ≡ slots
    → new bands ≡ some (record { bands = bands; index = index_from 0 bands })
unfolding new
new_ok bands h = ground (arith, length-index_from 0 bands, h)

found_held :
    (key c : ℕ) (m : SlotsBuilder)
    → weight_of slots_held (get key m) ≡ c
    → 0 < c
    → (a : ℕ) × (get key m ≡ some (a, c))
found_held key c m h pos = elim (Option-cases (get key m)) [
  | inl e ↦ ground (arith, e, h, pos)
  | inr ((a, n), e) ↦ (a, ground (arith, e, h))
]

-- After exactly 512 pushes the builder gives slots, and each validator that was pushed is found among
-- them, with as many slots as there were pushes of its key.
pub build-push_all :
    (pushes : List (ℕ × ℕ))
    → length pushes ≡ slots
    → (vs : ValidatorSlots) × (build (push_all pushes []) ≡ some vs)
      × ((key : ℕ)
          → 0 < count_of key pushes
          → (idx : ℕ) × (find_idx_and_num_slots_by_public_key vs key
              ≡ some (idx, count_of key pushes)))
unfolding build find_idx_and_num_slots_by_public_key sum get
build-push_all pushes len =
    let m = push_all pushes [] in
    let held = λ (j : ℕ). push_all-held j pushes [] tt (omega (arith, len)) in
    (
      record { bands = bands_of m; index = index_from 0 (bands_of m) },
      new_ok (bands_of m) (omega (arith, slots_of_bands-bands_of m, (held 0).0, len)),
      λ key pos.
          let (a, e) = found_held key (count_of key pushes) m (omega (arith, (held key).1)) pos in
          find_from-bands_of 0 key m a (count_of key pushes) e,
    )

-- An entry of the combined list is a band with its first slot, from `start` on.
combined_from_lem :
    (start : ℕ) (bands : List ValidatorSlotBand) (b first : ℕ) (band : ValidatorSlotBand)
    → start + slots_of_bands bands ≤ slots
    → get_elem? (combined_from start bands) b ≡ some (band, first)
    → (get_elem? bands b ≡ some band)
      × (get_slots_from start bands b ≡ range_from first band.num_slots)
unfolding combined_from get_slots_from
combined_from_lem start [] b first band r h = ground (arith, h)
combined_from_lem start (u ∷ bands) zero first band r h =
    let e : add_u16 start u.num_slots - start ≡ u.num_slots = omega (arith, r) in
    ground (arith, e, h)
combined_from_lem start (u ∷ bands) (suc b) first band r h =
    let e : add_u16 start u.num_slots ≡ start + u.num_slots = omega (arith, r) in
    combined_from_lem (add_u16 start u.num_slots) bands b first band (omega (arith, e, r)) h

-- Where the slots were accepted, the combined list names for each band its first slot: the slots of
-- the band are the numbers from there on, as many as it has.
pub combined-get_slots :
    (bands : List ValidatorSlotBand) (vs : ValidatorSlots) (b first : ℕ) (band : ValidatorSlotBand)
    → new bands ≡ some vs
    → get_elem? (combined vs) b ≡ some (band, first)
    → (get_elem? vs.bands b ≡ some band) × (get_slots vs b ≡ range_from first band.num_slots)
unfolding combined get_slots
combined-get_slots bands vs b first band h =
    let known = new_lem bands vs h in
    rw (known.0) (combined_from_lem 0 bands b first band (omega (arith, known.1)))
