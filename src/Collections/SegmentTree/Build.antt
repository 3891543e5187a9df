-- ===== src/Collections/SegmentTree/Build.antt =====
-- What `build_tree` builds: the entries that its tree holds, and its height.
use nimiq_core_rs_albatross.Base.{
  ℕ, zero, suc, ◌+◌, ◌*◌, ◌/◌, ◌^◌, ◌≤◌, ◌<◌, ◌≡◌, refl, sym, ap, subst, ◌∙◌, Option, none, some,
  [], ◌∷◌, ◌++◌, arith, length,
}
use Prim.Native.Nat.{max}
use native.Mathlib.Nat.{pow-suc}
use nimiq_core_rs_albatross.Collections.Map.{Map}
use nimiq_core_rs_albatross.Collections.SegmentTree.{
  Node, leaf, branch, node_weight, slice_to, slice_from, branch_of, build_tree,
}
use nimiq_core_rs_albatross.Collections.SegmentTree.Reference.{total, total-append}

-- The entries in the leaves of a tree.
abbrev pub Holds : Node → Map ℕ → Type 0
Holds (leaf k w) entries = entries ≡ (k, w) ∷ []
Holds (branch k w left right) entries =
    (xs : Map ℕ) × (v : ℕ) × (ys : Map ℕ) × (entries ≡ xs ++ ((k, v) ∷ ys))
    × Holds left xs
    × Holds right ((k, v) ∷ ys)
    × (w ≡ total entries)

pub node_weight_lem : (t : Node) (entries : Map ℕ) → Holds t entries → node_weight t ≡ total entries
unfolding node_weight total
node_weight_lem (leaf k w) entries h = omega (arith, ap total h)
node_weight_lem (branch k w left right) entries (xs, v, ys, e, hl, hr, q) = q

slice-append : (n : ℕ) (m : Map ℕ) → slice_to n m ++ slice_from n m ≡ m
unfolding slice_to slice_from
slice-append zero m = refl
slice-append (suc n) [] = refl
slice-append (suc n) (e ∷ m) = ap (λ r. e ∷ r) (slice-append n m)

length-slice_to : (n : ℕ) (m : Map ℕ) → n ≤ length m → length (slice_to n m) ≡ n
unfolding slice_to
length-slice_to zero m h = refl
length-slice_to (suc n) [] h = omega arith
length-slice_to (suc n) (e ∷ m) h = omega (arith, length-slice_to n m (omega arith))

length-slice_from : (n : ℕ) (m : Map ℕ) → n ≤ length m → n + length (slice_from n m) ≡ length m
unfolding slice_from
length-slice_from zero m h = omega arith
length-slice_from (suc n) [] h = omega arith
length-slice_from (suc n) (e ∷ m) h = omega (arith, length-slice_from n m (omega arith))

abbrev Built : Option Node → Map ℕ → Type 0
Built o entries = (t : Node) × (o ≡ some t) × Holds t entries

split_weight :
    (xs ys all : Map ℕ) (t u : Node)
    → xs ++ ys ≡ all
    → Holds t xs
    → Holds u ys
    → node_weight t + node_weight u ≡ total all
split_weight xs ys all t u e ht hu =
    omega (arith, node_weight_lem t xs ht, node_weight_lem u ys hu, total-append xs ys, ap total e)

branch_of-Built :
    (l r : Option Node) (xs ys all : Map ℕ)
    → xs ++ ys ≡ all
    → 0 < length ys
    → Built l xs
    → Built r ys
    → Built (branch_of l r ys) all
unfolding branch_of
branch_of-Built l r xs [] all e p b c = ground arith
branch_of-Built l r xs ((k, v) ∷ ys) all e p (t, bt, ht) (u, cu, hu) = (
  branch k (node_weight t + node_weight u) t u,
  ap (λ a. branch_of a r ((k, v) ∷ ys)) bt ∙ ap (λ a. branch_of (some t) a ((k, v) ∷ ys)) cu,
  (xs, v, ys, sym e, ht, hu, split_weight xs ((k, v) ∷ ys) all t u e ht hu),
)

build_half :
    (fuel : ℕ) (all : Map ℕ) (mid : ℕ)
    → 0 < mid
    → mid < length all
    → length all ≤ suc fuel
    → ((x : Map ℕ) → 0 < length x → length x ≤ fuel → Built (build_tree fuel x) x)
    → Built
        (branch_of
          (build_tree fuel (slice_to mid all))
          (build_tree fuel (slice_from mid all))
          (slice_from mid all))
        all
build_half fuel all mid p q h rec =
    let a = length-slice_to mid all (omega arith) in
    let b = length-slice_from mid all (omega arith) in
    branch_of-Built (build_tree fuel (slice_to mid all)) (build_tree fuel (slice_from mid all))
      (slice_to mid all) (slice_from mid all) all (slice-append mid all) (omega (arith, b))
      (rec (slice_to mid all) (omega (arith, a)) (omega (arith, a)))
      (rec (slice_from mid all) (omega (arith, b)) (omega (arith, b)))

pub build_tree_lem :
    (fuel : ℕ) (m : Map ℕ) → 0 < length m → length m ≤ fuel → Built (build_tree fuel m) m
unfolding build_tree
build_tree_lem zero m p h = ground arith
build_tree_lem (suc fuel) [] p h = ground arith
build_tree_lem (suc fuel) ((k, w) ∷ []) p h = (leaf k w, refl, refl)
build_tree_lem (suc fuel) (e ∷ f ∷ m) p h =
    build_half fuel (e ∷ f ∷ m) (length (e ∷ f ∷ m) / 2) (omega arith) (omega arith) h
      (λ x q r. build_tree_lem fuel x q r)

-- The number of branches on the longest way to a leaf.
abbrev pub height : Node → ℕ
height (leaf k w) = 0
height (branch k w left right) = suc (max (height left) (height right))

abbrev Low : ℕ → Option Node → Type 0
Low k none = Unit
Low k (some t) = height t ≤ k

max_le : (a b k : ℕ) → a ≤ k → b ≤ k → suc (max a b) ≤ suc k
max_le a b k h g = omega (arith, h, g)

branch_of-Low :
    (k : ℕ) (l r : Option Node) (m : Map ℕ) → Low k l → Low k r → Low (suc k) (branch_of l r m)
unfolding branch_of
branch_of-Low k (some t) (some u) ((j, v) ∷ m) a b = max_le (height t) (height u) k a b
branch_of-Low k (some t) (some u) [] a b = tt
branch_of-Low k (some t) none m a b = tt
branch_of-Low k none r m a b = tt

-- Both halves of at most `2 ^ (k + 1)` entries have at most `2 ^ k`.
halves-Low :
    (fuel k : ℕ) (m : Map ℕ)
    → length m ≤ 2 ^ suc k
    → ((x : Map ℕ) → length x ≤ 2 ^ k → Low k (build_tree fuel x))
    → Low (suc k) (
        branch_of
          (build_tree fuel (slice_to (length m / 2) m))
          (build_tree fuel (slice_from (length m / 2) m))
          (slice_from (length m / 2) m))
halves-Low fuel k m h rec =
    let a = length-slice_to (length m / 2) m (omega arith) in
    let b = length-slice_from (length m / 2) m (omega arith) in
    let power : 2 ^ suc k ≡ 2 ^ k * 2 = pow-suc 2 k in
    branch_of-Low k (build_tree fuel (slice_to (length m / 2) m))
      (build_tree fuel (slice_from (length m / 2) m)) (slice_from (length m / 2) m)
      (rec (slice_to (length m / 2) m) (omega (arith, a, power, h)))
      (rec (slice_from (length m / 2) m) (omega (arith, b, power, h)))

build_tree-Low : (fuel k : ℕ) (m : Map ℕ) → length m ≤ 2 ^ k → Low k (build_tree fuel m)
unfolding build_tree
build_tree-Low zero k m h = tt
build_tree-Low (suc fuel) k [] h = tt
build_tree-Low (suc fuel) k ((j, w) ∷ []) h = omega arith
build_tree-Low (suc fuel) zero (e ∷ f ∷ m) h = absurd (omega (arith, h))
build_tree-Low (suc fuel) (suc k) (e ∷ f ∷ m) h =
    halves-Low fuel k (e ∷ f ∷ m) h (λ x q. build_tree-Low fuel k x q)

-- With a fuel of at least the number of entries, and where there is an entry and at most `2 ^ k`,
-- building the tree ends without a panic, the tree holds the entries in their order, each branch
-- with the first key of its right part and the weight of both, and no path in it has more than `k`
-- branches.
pub build_tree_logarithmic :
    (fuel k : ℕ) (m : Map ℕ)
    → 0 < length m
    → length m ≤ fuel
    → length m ≤ 2 ^ k
    → (t : Node) × (build_tree fuel m ≡ some t) × Holds t m × (height t ≤ k)
build_tree_logarithmic fuel k m p f h =
    let (t, built, holds) = build_tree_lem fuel m p f in
    (t, built, holds, subst (Low k) built (build_tree-Low fuel k m h))
