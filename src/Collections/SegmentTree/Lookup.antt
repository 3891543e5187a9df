-- ===== src/Collections/SegmentTree/Lookup.antt =====
-- What `get` and `find` give on a segment tree, against the list of its entries.
use nimiq_core_rs_albatross.Base.{
  ℕ, ◌+◌, ◌≤◌, ◌<◌, ◌≡◌, refl, sym, ap, ◌∙◌, subst, suc, Bool, true, Option, none, some, [], ◌∷◌,
  arith, length, ltb, if◌then◌else◌, if_ltb,
}
use nimiq_core_rs_albatross.Collections.Map.{Map}
use nimiq_core_rs_albatross.Collections.Map.Order.{SortedFrom, IsSorted}
use nimiq_core_rs_albatross.Collections.SegmentTree.{
  SegmentTree, is_ascending, Node, leaf, branch, node_weight, build_tree, new_segment_tree,
  get_from, get_range, find_from, find_point, tree_len, tree_range,
}
use nimiq_core_rs_albatross.Collections.SegmentTree.Reference.{
  total, total-append, range_in, key_at, SortedFrom-left, SortedFrom-right, range_in-left,
  range_in-right, key_at-left, key_at-right, key_at-beyond,
}
use nimiq_core_rs_albatross.Collections.SegmentTree.Build.{Holds, node_weight_lem, build_tree_lem}

get_from_lem :
    (t : Node) (lo : ℕ) (m : Map ℕ) (key offset : ℕ)
    → Holds t m
    → SortedFrom lo m
    → get_from t key offset ≡ range_in key offset m
unfolding get_from range_in
get_from_lem (leaf k w) lo m key offset h s = sym (ap (λ x. range_in key offset x) h)
get_from_lem (branch k w l r) lo m key offset (xs, v, ys, e, hl, hr, q) s =
    let s' = subst (λ x. SortedFrom lo x) e s in
    let a = get_from_lem l lo xs key offset hl (SortedFrom-left k v ys lo xs s') in
    let b =
      get_from_lem r lo ((k, v) ∷ ys) key (offset + node_weight l) hr
        (SortedFrom-right k v ys lo xs s') in
    let n = node_weight_lem l xs hl in
    let back = sym (ap (λ x. range_in key offset x) e) in
    if_ltb key k (λ c. a ∙ sym (range_in-left k v ys lo key offset xs s' c) ∙ back)
      (λ c.
        b
        ∙ ap (λ o. range_in key (offset + o) ((k, v) ∷ ys)) n
        ∙ sym (range_in-right k v ys lo key offset xs s' c)
        ∙ back)

-- The three ways of `find` at a branch.
find_branch :
    {x y z : Option ℕ} (point end mid : ℕ)
    → (end < point → none ≡ z)
    → (point < mid → x ≡ z)
    → (mid ≤ point → y ≡ z)
    → (if ltb end point then none else if ltb point mid then x else y) ≡ z
find_branch point end mid f g h = if_ltb end point f (λ c. if_ltb point mid g h)

find_from_lem :
    (t : Node) (m : Map ℕ) (point offset : ℕ)
    → Holds t m
    → offset ≤ point
    → find_from t point offset ≡ key_at point offset m
unfolding find_from key_at
find_from_lem (leaf k w) m point offset h l = sym (ap (λ x. key_at point offset x) h)
find_from_lem (branch k w left right) m point offset (xs, v, ys, e, hl, hr, q) l =
    let n = node_weight_lem left xs hl in
    let all = total-append xs ((k, v) ∷ ys) in
    let e' = ap total e in
    let back = sym (ap (λ x. key_at point offset x) e) in
    let mid = offset + node_weight left in
    find_branch point (offset + w) mid (λ c. sym (key_at-beyond point offset m (omega (arith, q))))
      (λ c.
        find_from_lem left xs point offset hl l
        ∙ sym (key_at-left point offset xs ((k, v) ∷ ys) l (omega (arith, n)))
        ∙ back)
      (λ c.
        find_from_lem right ((k, v) ∷ ys) point mid hr c
        ∙ ap (λ o. key_at point (offset + o) ((k, v) ∷ ys)) n
        ∙ sym (key_at-right point offset xs ((k, v) ∷ ys) (omega (arith, n)))
        ∙ back)

ascends : (lo : ℕ) (weights : Map ℕ) → SortedFrom lo weights → is_ascending weights ≡ true
unfolding is_ascending
ascends lo [] s = refl
ascends lo (e ∷ []) s = refl
ascends lo ((j, v) ∷ (k, w) ∷ m) s = ground (arith, s, ascends (suc j) ((k, w) ∷ m) s.1)

-- The tree of ascending keys, in every build.
abbrev tree_of : Map ℕ → SegmentTree
tree_of weights = record { root = build_tree (length weights) weights; size = length weights }

new_segment_tree_lem :
    (debug_assertions : Bool) (weights : Map ℕ)
    → IsSorted weights
    → new_segment_tree debug_assertions weights ≡ some (tree_of weights)
unfolding new_segment_tree
new_segment_tree_lem debug_assertions weights s = ground (arith, ascends 0 weights s)

get_range_lem :
    (weights : Map ℕ) (key : ℕ)
    → IsSorted weights
    → get_range (tree_of weights) key ≡ range_in key 0 weights
unfolding get_range build_tree range_in
get_range_lem [] key s = refl
get_range_lem (e ∷ m) key s =
    let (t, b, h) = build_tree_lem (length (e ∷ m)) (e ∷ m) (omega arith) (omega arith) in
    ap (λ o. get_range (record { root = o; size = length (e ∷ m) }) key) b
    ∙ get_from_lem t 0 (e ∷ m) key 0 h s

-- Of entries in strictly ascending order of their keys a segment tree is built without a panic,
-- with and without debug assertions, and in it the look-up of a key gives what passing the entries
-- one by one gives: the weight of the key and the sum of the weights before it, and nothing for a
-- key that is not among them.
pub get_range-new_segment_tree :
    (debug_assertions : Bool) (weights : Map ℕ) (key : ℕ)
    → IsSorted weights
    → (tree : SegmentTree) × (new_segment_tree debug_assertions weights ≡ some tree)
      × (get_range tree key ≡ range_in key 0 weights)
get_range-new_segment_tree debug_assertions weights key s =
    (tree_of weights, new_segment_tree_lem debug_assertions weights s, get_range_lem weights key s)

find_point_lem :
    (weights : Map ℕ) (point : ℕ)
    → (find_point (tree_of weights) point ≡ key_at point 0 weights)
      × (tree_range (tree_of weights) ≡ total weights)
unfolding find_point build_tree key_at tree_range total
find_point_lem [] point = (refl, refl)
find_point_lem (e ∷ m) point =
    let (t, b, h) = build_tree_lem (length (e ∷ m)) (e ∷ m) (omega arith) (omega arith) in
    (
      ap (λ o. find_point (record { root = o; size = length (e ∷ m) }) point) b
          ∙ find_from_lem t (e ∷ m) point 0 h (omega arith),
      ap (λ o. tree_range (record { root = o; size = length (e ∷ m) })) b
          ∙ node_weight_lem t (e ∷ m) h,
    )

-- Of entries in strictly ascending order of their keys a segment tree is built without a panic,
-- with and without debug assertions, and in it the search of a point gives the first key whose
-- range ends behind the point, and nothing from the end of the last range on; the range of the
-- tree is the sum of the weights, and its length the number of entries.
pub find_point-new_segment_tree :
    (debug_assertions : Bool) (weights : Map ℕ) (point : ℕ)
    → IsSorted weights
    → (tree : SegmentTree) × (new_segment_tree debug_assertions weights ≡ some tree)
      × (find_point tree point ≡ key_at point 0 weights)
      × (tree_range tree ≡ total weights)
      × (tree_len tree ≡ length weights)
unfolding tree_len
find_point-new_segment_tree debug_assertions weights point s =
    let (found, sum) = find_point_lem weights point in
    (tree_of weights, new_segment_tree_lem debug_assertions weights s, found, sum, refl)
