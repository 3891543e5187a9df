-- ===== src/Collections/SegmentTree.antt =====
-- collections/src/segment_tree.rs: keys with weights in a binary tree, which finds the range of a
-- key and the key of a point. The weights are numbers, where no sum overflows.
pub mod Reference
pub mod Build
pub mod Lookup
use nimiq_core_rs_albatross.Base.{
  ℕ, zero, suc, ◌+◌, ◌/◌, Bool, true, false, not, ◌&&◌, Option, none, some, [], ◌∷◌, length, ltb,
  ◌==◌, if◌then◌else◌,
}
use nimiq_core_rs_albatross.Collections.Map.{Map}

pub record Range : Type 0 where
  pub weight : ℕ
  pub offset : ℕ

-- `Node`: without children it is a leaf, with its two children a branch.
pub data Node : Type 0 where
  leaf : ℕ → ℕ → Node
  branch : ℕ → ℕ → Node → Node → Node

pub record SegmentTree : Type 0 where
  pub root : Option Node
  pub size : ℕ

unfoldable pub node_weight : Node → ℕ
node_weight (leaf _ weight) = weight
node_weight (branch _ weight _ _) = weight

-- The slices `[..mid]` and `[mid..]`.
unfoldable pub slice_to : ℕ → Map ℕ → Map ℕ
slice_to zero entries = []
slice_to (suc mid) [] = []
slice_to (suc mid) (e ∷ entries) = e ∷ slice_to mid entries

unfoldable pub slice_from : ℕ → Map ℕ → Map ℕ
slice_from zero entries = entries
slice_from (suc mid) [] = []
slice_from (suc mid) (_ ∷ entries) = slice_from mid entries

-- The branch above two subtrees, with the first key of the right slice; `none` is a panic here.
unfoldable pub branch_of : Option Node → Option Node → Map ℕ → Option Node
branch_of (some left) (some right) ((key, _) ∷ _) =
    some (branch key (node_weight left + node_weight right) left right)
branch_of _ _ _ = none

-- The first number is the fuel, for which the number of entries is enough.
unfoldable pub build_tree : ℕ → Map ℕ → Option Node
build_tree zero entries = none
build_tree (suc fuel) [] = none
build_tree (suc fuel) ((key, weight) ∷ []) = some (leaf key weight)
build_tree (suc fuel) (e ∷ f ∷ entries) =
    let all = e ∷ f ∷ entries in
    let mid = length all / 2 in
    let right_slice = slice_from mid all in
    branch_of (build_tree fuel (slice_to mid all)) (build_tree fuel right_slice) right_slice

-- `weights.windows(2).all(|w| w[0].0 < w[1].0)`
unfoldable pub is_ascending : Map ℕ → Bool
is_ascending [] = true
is_ascending (_ ∷ []) = true
is_ascending ((j, _) ∷ (k, w) ∷ entries) = ltb j k && is_ascending ((k, w) ∷ entries)

-- The first argument is whether the build has debug assertions; `none` is a panic.
unfoldable pub new_segment_tree : Bool → Map ℕ → Option SegmentTree
unfolding is_ascending
new_segment_tree debug_assertions weights =
    if debug_assertions && not (is_ascending weights)
    then none
    else some (record { root = build_tree (length weights) weights; size = length weights })

-- The descent of `get`, from a node and the weight before it.
unfoldable pub get_from : Node → ℕ → ℕ → Option Range
get_from (leaf node_key weight) key offset =
    if key == node_key then some (record { weight = weight; offset = offset }) else none
get_from (branch node_key weight left right) key offset =
    let in_left = get_from left key offset in
    let in_right = get_from right key (offset + node_weight left) in
    if ltb key node_key then in_left else in_right

unfoldable pub get_range : SegmentTree → ℕ → Option Range
get_range tree key = elim tree.root [ none ↦ none | some node ↦ get_from node key 0 ]

-- The descent of `find`, from a node and the weight before it.
unfoldable pub find_from : Node → ℕ → ℕ → Option ℕ
find_from (leaf node_key weight) point offset =
    if ltb point (offset + weight) then some node_key else none
find_from (branch node_key weight left right) point offset =
    let mid = offset + node_weight left in
    let in_left = find_from left point offset in
    let in_right = find_from right point mid in
    if ltb (offset + weight) point then none else if ltb point mid then in_left else in_right

-- No number is below zero, which `find` tests first.
unfoldable pub find_point : SegmentTree → ℕ → Option ℕ
find_point tree point = elim tree.root [ none ↦ none | some node ↦ find_from node point 0 ]

unfoldable pub tree_len : SegmentTree → ℕ
tree_len tree = tree.size

unfoldable pub tree_is_empty : SegmentTree → Bool
tree_is_empty tree = tree.size == 0

unfoldable pub tree_range : SegmentTree → ℕ
tree_range tree = elim tree.root [ none ↦ 0 | some node ↦ node_weight node ]
