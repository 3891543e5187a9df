-- ===== src/Collections/Map/Order.antt =====
-- The keys of a map ascend, and what a lookup finds after an insertion or a removal.
use nimiq_core_rs_albatross.Base.{
  ℕ, suc, ◌≤◌, ◌<◌, ◌≡◌, refl, ◌≢◌, none, some, [], ◌∷◌, arith, ◌==◌, if◌then◌else◌,
}
use nimiq_core_rs_albatross.Collections.Map.{Map, get, insert, remove}

module _ {ℓ} {V : Type ℓ} where
  -- The keys ascend strictly, from `lo` upwards.
  abbrev pub SortedFrom : ℕ → Map V → Type 0
  SortedFrom lo [] = Unit
  SortedFrom lo ((k, v) ∷ m) = (lo ≤ k) × SortedFrom (suc k) m

  abbrev pub IsSorted : Map V → Type 0
  IsSorted = SortedFrom 0

  pub SortedFrom-weaken : (lo hi : ℕ) (m : Map V) → SortedFrom hi m → lo ≤ hi → SortedFrom lo m
  SortedFrom-weaken lo hi [] s h = tt
  SortedFrom-weaken lo hi ((k, v) ∷ m) s h = (omega arith, s.1)

  pub get_below : (lo k : ℕ) (m : Map V) → SortedFrom lo m → k < lo → get k m ≡ none
  unfolding get
  get_below lo k [] s h = refl
  get_below lo k ((j, v) ∷ m) s h = ground (arith, get_below (suc j) k m s.1)

  pub insert-SortedFrom :
      (lo k : ℕ) (v : V) (m : Map V) → SortedFrom lo m → lo ≤ k → SortedFrom lo (insert k v m)
  unfolding insert
  insert-SortedFrom lo k v [] s h = (h, tt)
  insert-SortedFrom lo k v ((j, w) ∷ m) s h = ground (arith, insert-SortedFrom (suc j) k v m s.1)

  pub remove-SortedFrom : (lo k : ℕ) (m : Map V) → SortedFrom lo m → SortedFrom lo (remove k m)
  unfolding remove
  remove-SortedFrom lo k [] s = tt
  remove-SortedFrom lo k ((j, w) ∷ m) s =
      ground (arith, remove-SortedFrom (suc j) k m s.1, SortedFrom-weaken lo (suc j) m s.1)

  pub insert-IsSorted : (k : ℕ) (v : V) (m : Map V) → IsSorted m → IsSorted (insert k v m)
  insert-IsSorted k v m s = insert-SortedFrom 0 k v m s (omega arith)

  pub remove-IsSorted : (k : ℕ) (m : Map V) → IsSorted m → IsSorted (remove k m)
  remove-IsSorted k m s = remove-SortedFrom 0 k m s

  -- What is found after an insertion.
  pub get-insert :
      (j k : ℕ) (v : V) (m : Map V) → get j (insert k v m) ≡ (if j == k then some v else get j m)
  unfolding get insert
  get-insert j k v [] = ground arith
  get-insert j k v ((i, w) ∷ m) = ground (arith, get-insert j k v m)

  pub get-insert_self : (k : ℕ) (v : V) (m : Map V) → get k (insert k v m) ≡ some v
  get-insert_self k v m = ground (arith, get-insert k k v m)

  pub get-remove_ne : (j k : ℕ) (m : Map V) → j ≢ k → get j (remove k m) ≡ get j m
  unfolding get remove
  get-remove_ne j k [] h = refl
  get-remove_ne j k ((i, w) ∷ m) h = ground (arith, get-remove_ne j k m h)

  get-remove_from : (lo k : ℕ) (m : Map V) → SortedFrom lo m → get k (remove k m) ≡ none
  unfolding get remove
  get-remove_from lo k [] s = refl
  get-remove_from lo k ((j, w) ∷ m) s =
      ground (arith, get-remove_from (suc j) k m s.1, get_below (suc j) k m s.1)

  pub get-remove_self : (k : ℕ) (m : Map V) → IsSorted m → get k (remove k m) ≡ none
  get-remove_self k m s = get-remove_from 0 k m s

  -- A removal undoes an insertion under a new key.
  pub remove-insert : (k : ℕ) (v : V) (m : Map V) → get k m ≡ none → remove k (insert k v m) ≡ m
  unfolding get insert remove
  remove-insert k v [] h = ground arith
  remove-insert k v ((j, w) ∷ m) h = ground (arith, remove-insert k v m)

  -- The second of two writes to a key wins.
  pub insert-insert : (k : ℕ) (v w : V) (m : Map V) → insert k v (insert k w m) ≡ insert k v m
  unfolding insert
  insert-insert k v w [] = ground arith
  insert-insert k v w ((j, u) ∷ m) = ground (arith, insert-insert k v w m)

  insert_front : (k : ℕ) (v : V) (m : Map V) → SortedFrom (suc k) m → insert k v m ≡ (k, v) ∷ m
  unfolding insert
  insert_front k v [] s = refl
  insert_front k v ((j, w) ∷ m) s = ground arith

  insert-remove_from :
      (lo k : ℕ) (v : V) (m : Map V)
      → SortedFrom lo m
      → get k m ≡ some v
      → insert k v (remove k m) ≡ m
  unfolding get insert remove
  insert-remove_from lo k v [] s h = cc
  insert-remove_from lo k v ((j, w) ∷ m) s h =
      ground
        (arith, insert-remove_from (suc j) k v m s.1, insert_front k v m, get_below (suc j) k m s.1)

  -- Putting back what a removal took restores the map.
  pub insert-remove :
      (k : ℕ) (v : V) (m : Map V) → IsSorted m → get k m ≡ some v → insert k v (remove k m) ≡ m
  insert-remove k v m s h = insert-remove_from 0 k v m s h

  -- Writing back what is there changes nothing.
  insert_same_from :
      (lo k : ℕ) (v : V) (m : Map V) → SortedFrom lo m → get k m ≡ some v → insert k v m ≡ m
  unfolding get insert
  insert_same_from lo k v [] s h = cc
  insert_same_from lo k v ((j, w) ∷ m) s h =
      ground (arith, insert_same_from (suc j) k v m s.1, get_below (suc j) k m s.1)

  pub insert_same : (k : ℕ) (v : V) (m : Map V) → IsSorted m → get k m ≡ some v → insert k v m ≡ m
  insert_same k v m s h = insert_same_from 0 k v m s h

  pub remove_absent : (k : ℕ) (m : Map V) → get k m ≡ none → remove k m ≡ m
  unfolding get remove
  remove_absent k [] h = refl
  remove_absent k ((j, w) ∷ m) h = ground (arith, remove_absent k m)

  -- A removal takes what a write to the same key put there.
  remove-insert_from :
      (lo k : ℕ) (v : V) (m : Map V) → SortedFrom lo m → remove k (insert k v m) ≡ remove k m
  unfolding insert remove
  remove-insert_from lo k v [] s = ground arith
  remove-insert_from lo k v ((j, w) ∷ m) s =
      ground
        (arith, remove-insert_from (suc j) k v m s.1, remove_absent k m, get_below (suc j) k m s.1)

  pub remove-insert_self :
      (k : ℕ) (v : V) (m : Map V) → IsSorted m → remove k (insert k v m) ≡ remove k m
  remove-insert_self k v m s = remove-insert_from 0 k v m s
