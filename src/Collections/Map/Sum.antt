-- ===== src/Collections/Map/Sum.antt =====
-- The sum of a weight over the values of a map, under insertion and removal.
use nimiq_core_rs_albatross.Base.{ℕ, suc, ◌+◌, ◌≤◌, ◌≡◌, Option, none, some, [], ◌∷◌, arith}
use nimiq_core_rs_albatross.Collections.Map.{Map, get, insert, remove}
use nimiq_core_rs_albatross.Collections.Map.Order.{SortedFrom, IsSorted, get_below}

module _ {ℓ} {V : Type ℓ} where
  -- The weight of an entry that may be absent.
  abbrev pub weight_of : (V → ℕ) → Option V → ℕ
  weight_of w none = 0
  weight_of w (some v) = w v

  unfoldable pub sum : (V → ℕ) → Map V → ℕ
  sum w [] = 0
  sum w ((k, v) ∷ m) = w v + sum w m

module _ {ℓ} {V : Type ℓ} (w : V → ℕ) where
  pub sum-remove : (k : ℕ) (m : Map V) → sum w (remove k m) + weight_of w (get k m) ≡ sum w m
  unfolding sum get remove
  sum-remove k [] = omega arith
  sum-remove k ((j, v) ∷ m) = ground (arith, sum-remove k m)

  sum-insert_from :
      (lo k : ℕ) (v : V) (m : Map V)
      → SortedFrom lo m
      → sum w (insert k v m) + weight_of w (get k m) ≡ sum w m + w v
  unfolding sum get insert
  sum-insert_from lo k v [] s = omega arith
  sum-insert_from lo k v ((j, u) ∷ m) s =
      ground (arith, sum-insert_from (suc j) k v m s.1, get_below (suc j) k m s.1)

  pub sum-insert :
      (k : ℕ) (v : V) (m : Map V)
      → IsSorted m
      → sum w (insert k v m) + weight_of w (get k m) ≡ sum w m + w v
  sum-insert k v m s = sum-insert_from 0 k v m s

  -- One entry weighs at most as much as all.
  pub weight-le-sum : (k : ℕ) (m : Map V) → weight_of w (get k m) ≤ sum w m
  weight-le-sum k m = omega (arith, sum-remove k m)
