-- ===== src/PaneTree/Ratio.antt =====
-- services/rttx-server/src/pane_tree.rs: the ratios of a tree's splits.
use rttx.Common.{◌≡◌, ◌↔◌, true, Option, none, some, arith, ◌<◌}
use rttx.Common.Float.{F32}
use rttx.PaneTree.{
  PaneTree, PaneId, SplitAxis, Removal, not_found, removed, leaf, split, ratio_is_valid, split_leaf,
  remove_from, remove_first, remove_second,
}
use rttx.PaneTree.Remove.{tree_of}

-- Among the 32-bit patterns the valid ratios are those strictly between 0.0 and 1.0.
pub ratio_is_valid_iff :
    (ratio : F32)
    → ratio < 0x100000000
    → (ratio_is_valid ratio ≡ true) ↔ ((0 < ratio) × (ratio < 0x3f800000))
unfolding ratio_is_valid
ratio_is_valid_iff ratio h = ground arith

abbrev pub HasValidRatios : PaneTree → Type 0
HasValidRatios (leaf pane) = Unit {0}
HasValidRatios (split axis ratio f s) =
    (ratio_is_valid ratio ≡ true) × HasValidRatios f × HasValidRatios s

abbrev pub HasValidRatios? : Option PaneTree → Type 0
HasValidRatios? none = Unit {0}
HasValidRatios? (some t) = HasValidRatios t

pub split_leaf-HasValidRatios :
    (t : PaneTree) (target new_pane : PaneId) (axis : SplitAxis) (ratio : F32)
    → ratio_is_valid ratio ≡ true
    → HasValidRatios t
    → HasValidRatios (split_leaf t target new_pane axis ratio).0
unfolding split_leaf
split_leaf-HasValidRatios (leaf pane) target new_pane axis ratio h v = ground arith
split_leaf-HasValidRatios (split a r f s) target new_pane axis ratio h v = ground (
  arith,
  split_leaf-HasValidRatios f target new_pane axis ratio h v.1,
  split_leaf-HasValidRatios s target new_pane axis ratio h v.2,
)

module _ (axis : SplitAxis) (ratio : F32) (valid : ratio_is_valid ratio ≡ true) where
  remove_second-HasValidRatios :
      (f : PaneTree) (o : Removal)
      → HasValidRatios f
      → HasValidRatios? (tree_of o)
      → HasValidRatios? (tree_of (remove_second axis ratio f o))
  unfolding remove_second
  remove_second-HasValidRatios f (not_found u) h k = (valid, h, k)
  remove_second-HasValidRatios f (removed none) h k = h
  remove_second-HasValidRatios f (removed (some u)) h k = (valid, h, k)

  remove_first-HasValidRatios :
      (s : PaneTree) (o q : Removal)
      → HasValidRatios s
      → HasValidRatios? (tree_of o)
      → HasValidRatios? (tree_of q)
      → HasValidRatios? (tree_of (remove_first axis ratio s o q))
  unfolding remove_first
  remove_first-HasValidRatios s (not_found u) q h k l = remove_second-HasValidRatios u q k l
  remove_first-HasValidRatios s (removed none) q h k l = h
  remove_first-HasValidRatios s (removed (some u)) q h k l = (valid, k, h)

pub remove_from-HasValidRatios :
    (t : PaneTree) (pane : PaneId)
    → HasValidRatios t
    → HasValidRatios? (tree_of (remove_from t pane))
unfolding remove_from
remove_from-HasValidRatios (leaf p) pane v = ground arith
remove_from-HasValidRatios (split axis ratio f s) pane v =
    remove_first-HasValidRatios axis ratio v.0 s (remove_from f pane) (remove_from s pane) v.2
      (remove_from-HasValidRatios f pane v.1) (remove_from-HasValidRatios s pane v.2)
