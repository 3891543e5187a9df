-- ===== src/Primitives/Slot/Index.antt =====
-- The table of slots against the bands: the owner of a slot, by the table, is the band among whose
-- slots it is.
use nimiq_core_rs_albatross.Base.{
  ℕ, zero, suc, ◌+◌, ◌-◌, ◌%◌, ◌≤◌, ◌<◌, ◌≡◌, ◌↔◌, ◌⊎◌, inl, inr, refl, ap, ◌∙◌, Bool, true, false,
  ◌||◌, none, some, List, [], ◌∷◌, ◌++◌, arith, length, length-append, length-replicate, replicate,
  get_elem?, ◌==◌,
}
use nimiq_core_rs_albatross.Primitives.Word.{u16_mod, add_u16}
use nimiq_core_rs_albatross.Primitives.Policy.{slots}
use nimiq_core_rs_albatross.Primitives.Slot.{
  ValidatorSlotBand, ValidatorSlots, index_from, new, get_band_number_by_slot_number, range_from,
  get_slots_from, get_slots,
}

abbrev pub contains : ℕ → List ℕ → Bool
contains n [] = false
contains n (m ∷ ms) = (n == m) || contains n ms

abbrev pub slots_of_bands : List ValidatorSlotBand → ℕ
slots_of_bands [] = 0
slots_of_bands (band ∷ bands) = band.num_slots + slots_of_bands bands

contains-range :
    (n start k : ℕ)
    → (contains n (range_from start k) ≡ true → (start ≤ n) × (n < start + k))
      × (start ≤ n → n < start + k → contains n (range_from start k) ≡ true)
unfolding range_from
contains-range n start zero = (λ h. ground arith, λ h k. ground arith)
contains-range n start (suc k) = (
  λ h. ground (arith, (contains-range n (suc start) k).0),
  λ h l. ground (arith, (contains-range n (suc start) k).1),
)

-- The table behind the entries of the first band.
get-replicate :
    (c x n : ℕ) (xs : List ℕ)
    → ((n < c) × (get_elem? (replicate c x ++ xs) n ≡ some x))
      ⊎ ((c ≤ n) × (get_elem? (replicate c x ++ xs) n ≡ get_elem? xs (n - c)))
get-replicate zero x n xs = inr (omega arith, ap (λ k. get_elem? xs k) (omega arith))
get-replicate (suc c) x zero xs = inl (omega arith, refl)
get-replicate (suc c) x (suc n) xs = elim (get-replicate c x n xs) [
  | inl (l, e) ↦ inl (omega (arith, l), e)
  | inr (l, e) ↦ inr (omega (arith, l), e ∙ ap (λ k. get_elem? xs k) (omega arith))
]

-- Entries of the table are numbers of bands, from `i` on.
index_from-bound :
    (i : ℕ) (bands : List ValidatorSlotBand) (n j : ℕ)
    → i + length bands ≤ u16_mod
    → get_elem? (index_from i bands) n ≡ some j
    → i ≤ j
unfolding index_from
index_from-bound i [] n j r h = ground (arith, h)
index_from-bound i (band ∷ bands) n j r h = ground (
  arith,
  h,
  get-replicate band.num_slots (i % u16_mod) n (index_from (suc i) bands),
  index_from-bound (suc i) bands (n - band.num_slots) j (omega (arith, r)),
)

-- The slots of a band start at `start` or later.
get_slots_from-bound :
    (start : ℕ) (bands : List ValidatorSlotBand) (b n : ℕ)
    → start + slots_of_bands bands ≤ slots
    → contains n (get_slots_from start bands b) ≡ true
    → start ≤ n
unfolding get_slots_from
get_slots_from-bound start [] b n r h = ground (arith, h)
get_slots_from-bound start (band ∷ bands) zero n r h =
    let e : add_u16 start band.num_slots ≡ start + band.num_slots = omega (arith, r) in
    ground (arith, (contains-range n start (add_u16 start band.num_slots - start)).0, h)
get_slots_from-bound start (band ∷ bands) (suc b) n r h =
    let e : add_u16 start band.num_slots ≡ start + band.num_slots = omega (arith, r) in
    ground (
      arith,
      e,
      get_slots_from-bound (add_u16 start band.num_slots) bands b n (omega (arith, e, r)) h,
    )

-- Entry `n` of the table is `i + b` exactly if slot `start + n` is one of band `b`.
index_from-owner :
    (i start : ℕ) (bands : List ValidatorSlotBand) (b n : ℕ)
    → i + length bands ≤ u16_mod
    → start + slots_of_bands bands ≤ slots
    → (get_elem? (index_from i bands) n ≡ some (i + b)
        → contains (start + n) (get_slots_from start bands b) ≡ true)
      × (contains (start + n) (get_slots_from start bands b) ≡ true
          → get_elem? (index_from i bands) n ≡ some (i + b))
unfolding index_from get_slots_from
index_from-owner i start [] b n r q = (λ h. ground (arith, h), λ h. ground (arith, h))
index_from-owner i start (band ∷ bands) zero n r q =
    let c = band.num_slots in
    let e : add_u16 start c ≡ start + c = omega (arith, q) in
    let table = get-replicate c (i % u16_mod) n (index_from (suc i) bands) in
    let later = index_from-bound (suc i) bands (n - c) i (omega (arith, r)) in
    let range = contains-range (start + n) start (add_u16 start c - start) in
    (λ h. ground (arith, e, table, later, range.1, h), λ h. ground (arith, e, table, range.0, h))
index_from-owner i start (band ∷ bands) (suc b) n r q =
    let c = band.num_slots in
    let e : add_u16 start c ≡ start + c = omega (arith, q) in
    let table = get-replicate c (i % u16_mod) n (index_from (suc i) bands) in
    let ih =
      index_from-owner (suc i) (start + c) bands b (n - c) (omega (arith, r)) (omega (arith, q)) in
    let bound = get_slots_from-bound (start + c) bands b (start + n) (omega (arith, q)) in
    (λ h. ground (arith, e, table, ih.0, h), λ h. ground (arith, e, table, ih.1, bound, h))

get_elem-cases :
    {A : Type 0} (xs : List A) (n : ℕ)
    → ((n < length xs) × ((x : A) × (get_elem? xs n ≡ some x)))
      ⊎ ((length xs ≤ n) × (get_elem? xs n ≡ none))
get_elem-cases [] n = inr (omega arith, refl)
get_elem-cases (x ∷ xs) zero = inl (omega arith, (x, refl))
get_elem-cases (x ∷ xs) (suc n) = elim (get_elem-cases xs n) [
  | inl (l, (y, e)) ↦ inl (omega (arith, l), (y, e))
  | inr (l, e) ↦ inr (omega (arith, l), e)
]

pub length-index_from :
    (i : ℕ) (bands : List ValidatorSlotBand) → length (index_from i bands) ≡ slots_of_bands bands
unfolding index_from
length-index_from i [] = refl
length-index_from i (band ∷ bands) = omega (
  arith,
  length-append (replicate band.num_slots (i % u16_mod)) (index_from (suc i) bands),
  length-replicate band.num_slots (i % u16_mod),
  length-index_from (suc i) bands,
)

pub new_lem :
    (bands : List ValidatorSlotBand) (vs : ValidatorSlots)
    → new bands ≡ some vs
    → (vs ≡ record { bands = bands; index = index_from 0 bands }) × (slots_of_bands bands ≡ slots)
unfolding new
new_lem bands vs h = ground (arith, length-index_from 0 bands, h)

-- Where the slots were accepted, with at most 65536 bands: the owner of a slot by the table is band
-- `b` exactly if the slot is among the slots of band `b`.
pub get_band_number_by_slot_number-get_slots :
    (bands : List ValidatorSlotBand) (vs : ValidatorSlots) (slot b : ℕ)
    → length bands ≤ u16_mod
    → new bands ≡ some vs
    → (get_band_number_by_slot_number vs slot ≡ some b) ↔ (contains slot (get_slots vs b) ≡ true)
unfolding get_band_number_by_slot_number get_slots
get_band_number_by_slot_number-get_slots bands vs slot b r h =
    let known = new_lem bands vs h in
    let owner = index_from-owner 0 0 bands b slot (omega (arith, r)) (omega (arith, known.1)) in
    rw (known.0) (λ e. ground (arith, owner.0, e), λ e. ground (arith, owner.1, e))

-- Where the slots were accepted, each slot below 512 has an owner by the table, and no other has.
pub get_band_number_by_slot_number-total :
    (bands : List ValidatorSlotBand) (vs : ValidatorSlots) (slot : ℕ)
    → new bands ≡ some vs
    → ((slot < slots) × ((b : ℕ) × (get_band_number_by_slot_number vs slot ≡ some b)))
      ⊎ ((slots ≤ slot) × (get_band_number_by_slot_number vs slot ≡ none))
unfolding get_band_number_by_slot_number
get_band_number_by_slot_number-total bands vs slot h =
    let known = new_lem bands vs h in
    rw (known.0)
      (ground (arith, get_elem-cases (index_from 0 bands) slot, length-index_from 0 bands, known.1))
