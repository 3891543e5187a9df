-- ===== src/Collections/Map.antt =====
-- The maps and sets of the Rust standard library that the source stores its state in (HashMap,
-- BTreeMap, HashSet, BTreeSet), keyed by numbers: an association list in ascending order of the
-- keys, which is the order in which a BTreeMap is iterated. A set is a map into the unit type.
pub mod Order
pub mod Sum
pub mod Entries
use nimiq_core_rs_albatross.Base.{
  ℕ, Bool, Option, none, some, List, [], ◌∷◌, ltb, ◌==◌, if◌then◌else◌, is_some,
}

abbrev pub Map {ℓ} : Type ℓ → Type ℓ
Map V = List (ℕ × V)

-- `HashSet<K>` and `BTreeSet<K>`
abbrev pub KeySet : Type 0
KeySet = Map (Unit {0})

module _ {ℓ} {V : Type ℓ} where
  abbrev pub empty : Map V
  empty = []

  unfoldable pub get : ℕ → Map V → Option V
  get k [] = none
  get k ((j, v) ∷ m) = if k == j then some v else get k m

  unfoldable pub insert : ℕ → V → Map V → Map V
  insert k v [] = (k, v) ∷ []
  insert k v ((j, w) ∷ m) =
      let rest = insert k v m in
      if ltb k j then (k, v) ∷ (j, w) ∷ m else if k == j then (k, v) ∷ m else (j, w) ∷ rest

  unfoldable pub remove : ℕ → Map V → Map V
  remove k [] = []
  remove k ((j, v) ∷ m) = if k == j then m else (j, v) ∷ remove k m

  abbrev pub contains_key : ℕ → Map V → Bool
  contains_key k m = is_some (get k m)
