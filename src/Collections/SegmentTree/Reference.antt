-- ===== src/Collections/SegmentTree/Reference.antt =====
-- The segment tree by a list: the entries are passed one by one, with the weight before them.
use nimiq_core_rs_albatross.Base.{
  ℕ, suc, ◌+◌, ◌≤◌, ◌<◌, ◌≡◌, refl, ap, ◌∙◌, Option, none, some, [], ◌∷◌, ◌++◌, arith, ltb, ◌==◌,
  if◌then◌else◌, if_not_below,
}
use nimiq_core_rs_albatross.Collections.Map.{Map}
use nimiq_core_rs_albatross.Collections.Map.Order.{SortedFrom}
use nimiq_core_rs_albatross.Collections.SegmentTree.{Range}

unfoldable pub total : Map ℕ → ℕ
total [] = 0
total ((_, w) ∷ entries) = w + total entries

-- The range of a key.
unfoldable pub range_in : ℕ → ℕ → Map ℕ → Option Range
range_in key offset [] = none
range_in key offset ((k, w) ∷ entries) =
    let rest = range_in key (offset + w) entries in
    if key == k then some (record { weight = w; offset = offset }) else rest

-- The first key whose range ends behind a point.
unfoldable pub key_at : ℕ → ℕ → Map ℕ → Option ℕ
key_at point offset [] = none
key_at point offset ((k, w) ∷ entries) =
    let rest = key_at point (offset + w) entries in if ltb point (offset + w) then some k else rest

pub total-append : (xs ys : Map ℕ) → total (xs ++ ys) ≡ total xs + total ys
unfolding total
total-append [] ys = omega arith
total-append ((_, w) ∷ xs) ys = omega (arith, total-append xs ys)

if_other : {A : Type 0} (x y : A) (a b : ℕ) → b < a → (if a == b then x else y) ≡ y
if_other x y a b h = ground arith

range_in-below :
    (lo key offset : ℕ) (m : Map ℕ) → SortedFrom lo m → key < lo → range_in key offset m ≡ none
unfolding range_in
range_in-below lo key offset [] s h = refl
range_in-below lo key offset ((k, w) ∷ m) s h =
    ground (arith, range_in-below (suc k) key (offset + w) m s.1)

module _ (j v : ℕ) (ys : Map ℕ) where
  sorted_bound : (lo : ℕ) (xs : Map ℕ) → SortedFrom lo (xs ++ ((j, v) ∷ ys)) → lo ≤ j
  sorted_bound lo [] s = s.0
  sorted_bound lo ((k, w) ∷ xs) s = omega (arith, s.0, sorted_bound (suc k) xs s.1)

  pub SortedFrom-left :
      (lo : ℕ) (xs : Map ℕ) → SortedFrom lo (xs ++ ((j, v) ∷ ys)) → SortedFrom lo xs
  SortedFrom-left lo [] s = tt
  SortedFrom-left lo ((k, w) ∷ xs) s = (s.0, SortedFrom-left (suc k) xs s.1)

  pub SortedFrom-right :
      (lo : ℕ) (xs : Map ℕ) → SortedFrom lo (xs ++ ((j, v) ∷ ys)) → SortedFrom lo ((j, v) ∷ ys)
  SortedFrom-right lo [] s = s
  SortedFrom-right lo ((k, w) ∷ xs) s =
      (omega (arith, s.0, sorted_bound (suc k) xs s.1), (SortedFrom-right (suc k) xs s.1).1)

  -- A key below the first one of the second part is sought in the first part,
  pub range_in-left :
      (lo key offset : ℕ) (xs : Map ℕ)
      → SortedFrom lo (xs ++ ((j, v) ∷ ys))
      → key < j
      → range_in key offset (xs ++ ((j, v) ∷ ys)) ≡ range_in key offset xs
  unfolding range_in
  range_in-left lo key offset [] s h =
      ground (arith, range_in-below (suc j) key (offset + v) ys s.1)
  range_in-left lo key offset ((k, w) ∷ xs) s h =
      ground (arith, range_in-left (suc k) key (offset + w) xs s.1 h)

  -- and any other in the second part.
  pub range_in-right :
      (lo key offset : ℕ) (xs : Map ℕ)
      → SortedFrom lo (xs ++ ((j, v) ∷ ys))
      → j ≤ key
      → range_in key offset (xs ++ ((j, v) ∷ ys)) ≡ range_in key (offset + total xs) ((j, v) ∷ ys)
  unfolding range_in total
  range_in-right lo key offset [] s h = ap (λ o. range_in key o ((j, v) ∷ ys)) (omega arith)
  range_in-right lo key offset ((k, w) ∷ xs) s h =
      if_other _ _ key k (omega (arith, sorted_bound (suc k) xs s.1))
      ∙ range_in-right (suc k) key (offset + w) xs s.1 h
      ∙ ap (λ o. range_in key o ((j, v) ∷ ys)) (omega arith)

-- The key at a point is found in the first part before its end,
pub key_at-left :
    (point offset : ℕ) (xs ys : Map ℕ)
    → offset ≤ point
    → point < offset + total xs
    → key_at point offset (xs ++ ys) ≡ key_at point offset xs
unfolding key_at total
key_at-left point offset [] ys l h = ground arith
key_at-left point offset ((k, w) ∷ xs) ys l h = ground (arith, key_at-left point (offset + w) xs ys)

-- from its end on in the second part,
pub key_at-right :
    (point offset : ℕ) (xs ys : Map ℕ)
    → offset + total xs ≤ point
    → key_at point offset (xs ++ ys) ≡ key_at point (offset + total xs) ys
unfolding key_at total
key_at-right point offset [] ys h = ap (λ o. key_at point o ys) (omega arith)
key_at-right point offset ((k, w) ∷ xs) ys h =
    if_not_below _ _ point (offset + w) (omega arith)
    ∙ key_at-right point (offset + w) xs ys (omega arith)
    ∙ ap (λ o. key_at point o ys) (omega arith)

-- and behind the last range not at all.
pub key_at-beyond :
    (point offset : ℕ) (xs : Map ℕ) → offset + total xs ≤ point → key_at point offset xs ≡ none
unfolding key_at total
key_at-beyond point offset [] h = refl
key_at-beyond point offset ((k, w) ∷ xs) h = ground (arith, key_at-beyond point (offset + w) xs)
