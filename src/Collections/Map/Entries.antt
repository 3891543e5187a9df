-- ===== src/Collections/Map/Entries.antt =====
-- A predicate of every entry of a map, under insertion, removal and lookup.
use nimiq_core_rs_albatross.Base.{ℕ, ◌≡◌, some, [], ◌∷◌, arith}
use nimiq_core_rs_albatross.Collections.Map.{Map, get, insert, remove}

module _ {ℓ} {V : Type ℓ} where
  abbrev pub AllEntries : (ℕ → V → Type 0) → Map V → Type 0
  AllEntries P [] = Unit
  AllEntries P ((k, v) ∷ m) = P k v × AllEntries P m

module _ {ℓ} {V : Type ℓ} (P : ℕ → V → Type 0) where
  pub insert-AllEntries :
      (k : ℕ) (v : V) (m : Map V) → P k v → AllEntries P m → AllEntries P (insert k v m)
  unfolding insert
  insert-AllEntries k v [] p a = (p, tt)
  insert-AllEntries k v ((j, w) ∷ m) p a =
      let ih = insert-AllEntries k v m p a.1 in ground (arith, ih)

  pub remove-AllEntries : (k : ℕ) (m : Map V) → AllEntries P m → AllEntries P (remove k m)
  unfolding remove
  remove-AllEntries k [] a = tt
  remove-AllEntries k ((j, w) ∷ m) a = let ih = remove-AllEntries k m a.1 in ground (arith, ih)

  pub get-AllEntries : (k : ℕ) (v : V) (m : Map V) → AllEntries P m → get k m ≡ some v → P k v
  unfolding get
  get-AllEntries k v [] a h = cc
  get-AllEntries k v ((j, w) ∷ m) a h = ground (arith, get-AllEntries k v m a.1)
