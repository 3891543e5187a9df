-- ===== src/Primitives/Slot/Allocation.antt =====
-- The bit vector that encodes how many slots each validator has: encoding and decoding it.
use nimiq_core_rs_albatross.Base.{
  ℕ, zero, suc, ◌+◌, ◌-◌, ◌≤◌, ◌≡◌, refl, sym, ap, ◌∙◌, Bool, true, false, some, List, [], ◌∷◌,
  ◌++◌, arith, length, replicate, length-append, length-replicate,
}
use nimiq_core_rs_albatross.Primitives.Word.{add_u16}
use nimiq_core_rs_albatross.Primitives.Policy.{slots}
use nimiq_core_rs_albatross.Primitives.Slot.{
  set, allocated, allocate_from, from_iter, counts_from, as_vec, num_items,
}

abbrev pub total_slots : List ℕ → ℕ
total_slots [] = 0
total_slots (c ∷ counts) = c + total_slots counts

abbrev pub AllPositive : List ℕ → Type 0
AllPositive [] = Unit
AllPositive (c ∷ counts) = (1 ≤ c) × AllPositive counts

-- One bit that is set for each count, and then zeros.
abbrev pub runs : List ℕ → List Bool
runs [] = []
runs (c ∷ counts) = true ∷ (replicate (c - 1) false ++ runs counts)

append_assoc : {A : Type 0} (xs ys zs : List A) → (xs ++ ys) ++ zs ≡ xs ++ (ys ++ zs)
append_assoc [] ys zs = refl
append_assoc (x ∷ xs) ys zs = ap (λ t. x ∷ t) (append_assoc xs ys zs)

replicate-add : (m n : ℕ) → replicate (m + n) false ≡ replicate m false ++ replicate n false
replicate-add zero n = ap (λ k. replicate k false) (omega arith)
replicate-add (suc m) n =
    let e : suc m + n ≡ suc (m + n) = omega arith in
    ap (λ k. replicate k false) e ∙ ap (λ t. false ∷ t) (replicate-add m n)

set-append :
    (before after : List Bool) (b : Bool)
    → set (length before) (before ++ (b ∷ after)) ≡ some (before ++ (true ∷ after))
unfolding set
set-append [] after b = refl
set-append (x ∷ before) after b = rw (set-append before after b) refl

-- One step of the loop, where the bit can be set.
allocate_step :
    (i c : ℕ) (bits bits' : List Bool) (counts : List ℕ)
    → set i bits ≡ some bits'
    → allocate_from i bits (suc c ∷ counts) ≡ allocate_from (i + suc c) bits' counts
unfolding allocate_from
allocate_step i c bits bits' counts h = ground (arith, h)

-- Behind `before`, the loop writes the runs of the counts.
allocate_from_lem :
    (before : List Bool) (counts : List ℕ)
    → AllPositive counts
    → length before + total_slots counts ≡ slots
    → allocate_from (length before) (before ++ replicate (total_slots counts) false) counts
      ≡ allocated (before ++ runs counts)
allocate_from_lem before [] p h = unfold allocate_from in ground (arith, h)
allocate_from_lem before (zero ∷ counts) p h = ground (arith, p.0)
allocate_from_lem before (suc c ∷ counts) p h =
    let t = total_slots counts in
    let rest = replicate c false ++ replicate t false in
    let next = before ++ (true ∷ replicate c false) in
    let len : length next ≡ length before + suc c =
      omega (arith, length-append before (true ∷ replicate c false), length-replicate c false) in
    let ih = allocate_from_lem next counts p.1 (omega (arith, len, h)) in
    let zeros : replicate (suc c + t) false ≡ false ∷ rest = replicate-add (suc c) t in
    let written : before ++ (true ∷ rest) ≡ next ++ replicate t false =
      sym (append_assoc before (true ∷ replicate c false) (replicate t false)) in
    let pred : c ≡ suc c - 1 = omega arith in
    let read : next ++ runs counts ≡ before ++ runs (suc c ∷ counts) =
      append_assoc before (true ∷ replicate c false) (runs counts)
      ∙ ap (λ k. before ++ (true ∷ (replicate k false ++ runs counts))) pred in
    ap (λ z. allocate_from (length before) (before ++ z) (suc c ∷ counts)) zeros
    ∙ allocate_step (length before) c (before ++ (false ∷ rest)) (before ++ (true ∷ rest)) counts
        (set-append before rest false)
    ∙ ap (λ z. allocate_from (length before + suc c) z counts) written
    ∙ ap (λ i. allocate_from i (next ++ replicate t false) counts) (sym len)
    ∙ ih
    ∙ ap allocated read

-- Counting through zeros, where the count has begun.
counts_from-zeros :
    (k count total : ℕ) (bits : List Bool)
    → count + k ≤ slots
    → counts_from count total (replicate k false ++ bits) ≡ counts_from (count + k) total bits
unfolding counts_from
counts_from-zeros zero count total bits h = ap (λ c. counts_from c total bits) (omega arith)
counts_from-zeros (suc k) count total bits h =
    let e : add_u16 count 1 ≡ count + 1 = omega (arith, h) in
    ap (λ c. counts_from c total (replicate k false ++ bits)) e
    ∙ counts_from-zeros k (count + 1) total bits (omega (arith, h))
    ∙ ap (λ c. counts_from c total bits) (omega arith)

-- From a count that has begun, the runs give that count and those that they encode.
counts_from-runs :
    (count total : ℕ) (counts : List ℕ)
    → 1 ≤ count
    → AllPositive counts
    → total + (count + total_slots counts) ≡ slots
    → counts_from count total (runs counts) ≡ some (count ∷ counts)
unfolding counts_from
counts_from-runs count total [] pos p h = ground (arith, h)
counts_from-runs count total (zero ∷ counts) pos p h = ground (arith, p.0)
counts_from-runs count total (suc c ∷ counts) pos p h =
    let sum : add_u16 total count ≡ total + count = omega (arith, h) in
    let ih : counts_from (suc c) (total + count) (runs counts) ≡ some (suc c ∷ counts) =
      counts_from-runs (suc c) (total + count) counts (omega arith) p.1 (omega (arith, h)) in
    let zeros = counts_from-zeros (suc c - 1) 1 (total + count) (runs counts) (omega (arith, h)) in
    ground (arith, sum, ih, zeros, pos)

num_items-zeros :
    (k : ℕ) (bits : List Bool) → num_items (replicate k false ++ bits) ≡ num_items bits
unfolding num_items
num_items-zeros zero bits = refl
num_items-zeros (suc k) bits = num_items-zeros k bits

num_items-runs : (counts : List ℕ) → num_items (runs counts) ≡ length counts
unfolding num_items
num_items-runs [] = refl
num_items-runs (c ∷ counts) =
    ap (λ n. suc n) (num_items-zeros (c - 1) (runs counts) ∙ num_items-runs counts)

as_vec-runs :
    (counts : List ℕ)
    → AllPositive counts
    → total_slots counts ≡ slots
    → as_vec (runs counts) ≡ some counts
unfolding as_vec counts_from
as_vec-runs [] p h = ground (arith, h)
as_vec-runs (zero ∷ counts) p h = ground (arith, p.0)
as_vec-runs (suc c ∷ counts) p h =
    let zeros = counts_from-zeros (suc c - 1) 1 0 (runs counts) (omega (arith, h)) in
    let rest = counts_from-runs (suc c) 0 counts (omega arith) p.1 (omega (arith, h)) in
    ground (arith, zeros, rest)

-- Counts that are positive and add up to the number of slots are encoded in a bit vector, from
-- which decoding gives them back, and the number of its set bits is the number of the counts.
pub as_vec-from_iter :
    (counts : List ℕ)
    → AllPositive counts
    → total_slots counts ≡ slots
    → (bits : List Bool) × (from_iter counts ≡ allocated bits)
      × (as_vec bits ≡ some counts)
      × (num_items bits ≡ length counts)
unfolding from_iter
as_vec-from_iter counts p h = (
  runs counts,
  ap (λ n. allocate_from 0 (replicate n false) counts) (sym h)
      ∙ allocate_from_lem [] counts p (omega (arith, h)),
  as_vec-runs counts p h,
  num_items-runs counts,
)
