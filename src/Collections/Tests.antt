-- ===== src/Collections/Tests.antt =====
-- A segment tree of five keys: examples for the laws, and runs.
use nimiq_core_rs_albatross.Base.{ℕ, ◌≤◌, ◌≡◌, refl, true, none, some, [], ◌∷◌, length, arith}
use nimiq_core_rs_albatross.Collections.Map.{Map}
use nimiq_core_rs_albatross.Collections.Map.Order.{IsSorted}
use nimiq_core_rs_albatross.Collections.SegmentTree.{
  SegmentTree, Node, new_segment_tree, get_range, find_point, tree_range, tree_len, build_tree,
}
use nimiq_core_rs_albatross.Collections.SegmentTree.Reference.{total, range_in, key_at}
use nimiq_core_rs_albatross.Collections.SegmentTree.Build.{Holds, height, build_tree_logarithmic}
use nimiq_core_rs_albatross.Collections.SegmentTree.Lookup.{
  get_range-new_segment_tree, find_point-new_segment_tree,
}

abbrev weights : Map ℕ
weights = (2, 10) ∷ (3, 0) ∷ (5, 7) ∷ (8, 1) ∷ (9, 4) ∷ []

weights-IsSorted : IsSorted weights
weights-IsSorted = (omega arith, (omega arith, (omega arith, (omega arith, (omega arith, tt)))))

get_range-new_segment_tree_example :
    (tree : SegmentTree) × (new_segment_tree true weights ≡ some tree)
    × (get_range tree 8 ≡ range_in 8 0 weights)
get_range-new_segment_tree_example = get_range-new_segment_tree true weights 8 weights-IsSorted

range_of_8 : range_in 8 0 weights ≡ some (record { weight = 1; offset = 17 })
unfolding range_in
range_of_8 = refl

find_point-new_segment_tree_example :
    (tree : SegmentTree) × (new_segment_tree true weights ≡ some tree)
    × (find_point tree 10 ≡ key_at 10 0 weights)
    × (tree_range tree ≡ total weights)
    × (tree_len tree ≡ length weights)
find_point-new_segment_tree_example = find_point-new_segment_tree true weights 10 weights-IsSorted

key_of_10 : key_at 10 0 weights ≡ some 5
unfolding key_at
key_of_10 = refl

-- Keys that do not ascend are refused by the assertion, and taken without it.
refused : new_segment_tree true ((3, 1) ∷ (2, 1) ∷ []) ≡ none
unfolding new_segment_tree
refused = refl

build_tree_logarithmic_example :
    (t : Node) × (build_tree 5 weights ≡ some t) × Holds t weights × (height t ≤ 3)
build_tree_logarithmic_example =
    build_tree_logarithmic 5 3 weights (omega arith) (omega arith) (omega arith)
